-- ===== src/Critbit/Erase.antt =====
-- The walk down of `remove_by_key` of dex/src/critbit.rs, which goes by single bits of the key only.
use openbook_dex.Prelude.{
  ℕ, zero, suc, ◌+◌, ◌*◌, ◌≤◌, ◌<◌, ◌≡◌, ◌≢◌, refl, sym, ap, subst, ◌∙◌, inl, inr, Bool, true,
  false, not, List, ◌∷◌, [], Option, none, some, arith, ◌==◌, Bool-cases, u128_mod,
}
use openbook_dex.Error.{DexResult, ok, ◌>>=◌}
use openbook_dex.Critbit.Node.{InnerNode, LeafNode, inner_node, case, crit_bit, child, walk_down}
use openbook_dex.Critbit.Alloc.{Slab, get}
use openbook_dex.Critbit.Find.{view_at}
use openbook_dex.Critbit.Remove.{descend, unlink, unlink_found}
use openbook_dex.Critbit.Free.{IsAlloc}
use openbook_dex.Critbit.Prefix.{top, bit_of, top-crit_bit}
use openbook_dex.Critbit.Trie.{
  Trie, tip, fork, handle, leaves, Rep, IsTrie, under, All, HasPrefix, IsTrie-keys,
}
use openbook_dex.Critbit.Sorted.{find_key, erase}
use openbook_dex.Critbit.Branch.{
  branch, join, branch-IsTrie, leaves-branch, IsTrie-Beyond, erase-join, find_key-join,
}
use openbook_dex.Critbit.Descent.{Becomes-branch}
use openbook_dex.Critbit.Unlink.{Removed, absent, removed, unlink-Removed}

-- A key without the prefix of all others is not among them.
pub find_key-foreign :
    (k p q : ℕ) (ls : List LeafNode) → All (HasPrefix p q) ls → top p k ≢ q → find_key k ls ≡ none
unfolding find_key
find_key-foreign k p q [] a ne = refl
find_key-foreign k p q (l ∷ ls) a ne = elim (Bool-cases (l.key == k)) [
  | inl e ↦ let same : l.key ≡ k = ground arith in absurd (ne (ap (top p) (sym same) ∙ (a.0).1))
  | inr e ↦ rw e (find_key-foreign k p q ls a.1 ne)
]

pub find_key-prefix :
    (k p q : ℕ) (ls : List LeafNode) (l : LeafNode)
    → All (HasPrefix p q) ls
    → find_key k ls ≡ some l
    → top p k ≡ q
find_key-prefix k p q ls l a f = elim (Bool-cases (top p k == q)) [
  | inl e ↦ ground arith
  | inr e ↦ let no_key = find_key-foreign k p q ls a (λ same. ground arith) in absurd (cc)
]

module _ (s : Slab) (k p q h : ℕ) (n : InnerNode) (b : Bool) (c d : Trie) (low : p ≤ n.prefix_len)
    (up : n.prefix_len < 128) (key : n.key < u128_mod) (e : top p n.key ≡ q)
    (i : IsTrie (suc n.prefix_len) (under n b) c)
    (j : IsTrie (suc n.prefix_len) (under n (not b)) d) where
  find_key-side :
      top (suc n.prefix_len) k ≡ under n b
      → find_key k (leaves (branch b h n c d)) ≡ find_key k (leaves c)
  find_key-side side =
      ap (find_key k) (leaves-branch b h n c d)
      ∙ find_key-join b k (leaves c) (leaves d) (IsTrie-Beyond b n k d j side)

  -- A key that is not on the side that the walk takes is nowhere.
  miss :
      crit_bit n.prefix_len k ≡ b
      → find_key k (leaves c) ≡ none
      → find_key k (leaves (branch b h n c d)) ≡ none
  miss walked f = elim (Bool-cases (top n.prefix_len k == top n.prefix_len n.key)) [
    | inl same ↦
        let bit = top-crit_bit n.prefix_len k up in
        let side : top (suc n.prefix_len) k ≡ under n b =
          (rw walked at bit) ∙ ap (λ t. 2 * t + bit_of b) (ground arith) in
        find_key-side side ∙ f
    | inr other ↦
        find_key-foreign k n.prefix_len (top n.prefix_len n.key) (leaves (branch b h n c d))
          (IsTrie-keys n.prefix_len (top n.prefix_len n.key) (branch b h n c d) (
            branch-IsTrie b n.prefix_len (top n.prefix_len n.key) h n c d (omega arith) up key refl
              i j))
          (λ same. ground arith)
  ]

  pub Removed-branch :
      (count : ℕ) (o : DexResult (Option (LeafNode × Slab)))
      → get s h ≡ some (inner_node n)
      → child n b ≡ handle c
      → child n (not b) ≡ handle d
      → Rep s d
      → crit_bit n.prefix_len k ≡ b
      → Removed s k (suc n.prefix_len) (under n b) c count o
      → Removed s k p q (branch b h n c d) count o
  Removed-branch count o read at_c at_d r walked (absent f) = absent (miss walked f)
  Removed-branch count o read at_c at_d r walked (removed l u c' g listed found fewer) =
      let side =
        find_key-prefix k (suc n.prefix_len) (under n b) (leaves c) l
          (IsTrie-keys (suc n.prefix_len) (under n b) c i) found in
      removed l u (branch b h n c' d)
        (Becomes-branch s p q h n b c d low up key e j read at_c at_d r u c' count g)
        (leaves-branch b h n c' d
          ∙ ap (λ ls. join b ls (leaves d)) listed
          ∙ sym (erase-join b k (leaves c) (leaves d) (IsTrie-Beyond b n k d j side))
          ∙ ap (erase k) (sym (leaves-branch b h n c d)))
        (find_key-side side ∙ found) fewer

-- The next step of the walk.
pub on_side :
    (s : Slab) (k p q h : ℕ) (n : InnerNode) (x y : Trie) (count : ℕ)
    (f : ℕ → Bool → DexResult (Option (LeafNode × Slab))) (b : Bool)
    → n.child_0 ≡ handle x
    → n.child_1 ≡ handle y
    → (b ≡ false → Removed s k p q (fork h n x y) count (f (handle x) false))
    → (b ≡ true → Removed s k p q (fork h n x y) count (f (handle y) true))
    → Removed s k p q (fork h n x y) count (f (child n b) b)
unfolding child
on_side s k p q h n x y count f false c d on_x on_y =
    subst (λ i. Removed s k p q (fork h n x y) count (f i false)) (sym c) (on_x refl)
on_side s k p q h n x y count f true c d on_x on_y =
    subst (λ i. Removed s k p q (fork h n x y) count (f i true)) (sym d) (on_y refl)

pub descend-Removed :
    (fuel : ℕ) (s : Slab) (k p q h : ℕ) (n : InnerNode) (b : Bool) (c d : Trie) (count : ℕ)
    → p ≤ n.prefix_len
    → n.prefix_len < 128
    → n.key < u128_mod
    → top p n.key ≡ q
    → IsTrie (suc n.prefix_len) (under n b) c
    → IsTrie (suc n.prefix_len) (under n (not b)) d
    → get s h ≡ some (inner_node n)
    → child n b ≡ handle c
    → child n (not b) ≡ handle d
    → Rep s c
    → Rep s d
    → IsAlloc s (suc (suc count))
    → crit_bit n.prefix_len k ≡ b
    → 127 < fuel + n.prefix_len
    → Removed s k p q
        (branch b h n c d)
        count
        (descend fuel s k h (handle c) b >>= λ f. unlink_found s f)
unfolding descend view_at case walk_down unlink_found find_key
descend-Removed zero s k p q h n b c d count low up key e i j g at_c at_d r r' a walked enough =
    absurd (omega arith)
descend-Removed (suc fuel) s k p q h n b (tip m l) d count low up key e i j g at_c at_d r r' a
      walked enough =
    elim (Bool-cases (l.key == k)) [
      | inl f ↦
          let same : l.key ≡ k = ground arith in
          rw (r, f)
            (subst
              (λ k.
                Removed s k p q (branch b h n (tip m l) d) count
                  (unlink s (record { parent_h = h; child_h = m; crit = b }) >>= λ r. ok (some r)))
              same (unlink-Removed s p q h m n b l d count low up key e i.1 j g at_c at_d r r' a))
      | inr f ↦
          rw (r, f) (absent (miss s k p q h n b (tip m l) d low up key e i j walked (rw f refl)))
    ]
descend-Removed (suc fuel) s k p q h n b (fork m o x y) d count low up key e
      (low', up', key', e', ix, iy) j g at_c at_d (ro, cx, cy, rx, ry) r' a walked enough =
    let p' = suc n.prefix_len in
    let q' = under n b in
    let below =
      on_side s k p' q' m o x y count (λ i c. descend fuel s k m i c >>= λ f. unlink_found s f)
        (crit_bit o.prefix_len k) cx cy
        (λ z.
          descend-Removed fuel s k p' q' m o false x y count low' up' key' e' ix iy ro cx cy rx ry a
            z (omega arith))
        (λ z.
          descend-Removed fuel s k p' q' m o true y x count low' up' key' e' iy ix ro cy cx ry rx a
            z (omega arith)) in
    rw ro (
      Removed-branch s k p q h n b (fork m o x y) d low up key e (low', up', key', e', ix, iy) j
        count _ g at_c at_d r' walked below)
