-- ===== src/Critbit/Descent.antt =====
-- The walk down of `insert_leaf` of dex/src/critbit.rs, on the trie that a slab holds.
use openbook_dex.Prelude.{
  ℕ, zero, suc, ◌+◌, ◌≤◌, ◌<◌, ◌≡◌, ◌≢◌, refl, sym, ap, subst, ◌∙◌, inl, inr, Bool, true, false,
  not, some, arith, ltb, leb, ◌==◌, Bool-cases, u128_mod,
}
use openbook_dex.Error.{DexResult, ok, ◌>>=◌}
use openbook_dex.Critbit.Node.{
  AnyNode, InnerNode, LeafNode, inner_node, leaf_node, case, crit_bit, shared_prefix_len, child,
  walk_down,
}
use openbook_dex.Critbit.Node
use openbook_dex.Critbit.Alloc.{Slab, get, put}
use openbook_dex.Critbit.Insert.{Inserted, insert_leaf_from, inserted}
use openbook_dex.Critbit.Free.{IsAlloc, put-Writes, Writes-self, Writes-other}
use openbook_dex.Critbit.Prefix.{top, top-crit_bit, shared_prefix_len_iff}
use openbook_dex.Critbit.Trie.{
  Trie, tip, fork, handle, leaves, Rep, IsTrie, under, Rep-frame, Lies-below,
}
use openbook_dex.Critbit.Sorted.{upsert, find_key}
use openbook_dex.Critbit.Branch.{
  branch, join, branch-IsTrie, branch-Rep, leaves-branch, handle-branch, IsTrie-Beyond, upsert-join,
  find_key-join, sides-apart,
}
use openbook_dex.Critbit.Moves.{Becomes, Outcome, is_full, is_new, is_old}
use openbook_dex.Critbit.Grow.{split-Outcome, root_Lies}

module _ (s : Slab) (p q h : ℕ) (n : InnerNode) (b : Bool) (c d : Trie) (low : p ≤ n.prefix_len)
    (up : n.prefix_len < 128) (key : n.key < u128_mod) (e : top p n.key ≡ q)
    (j : IsTrie (suc n.prefix_len) (under n (not b)) d) (read : get s h ≡ some (inner_node n))
    (at_c : child n b ≡ handle c) (at_d : child n (not b) ≡ handle d) (r : Rep s d) where
  -- A change on one side is a change of the whole.
  pub Becomes-branch :
      (u : Slab) (c' : Trie) (count : ℕ)
      → Becomes s (suc n.prefix_len) (under n b) c u c' count
      → Becomes s p q (branch b h n c d) u (branch b h n c' d) count
  Becomes-branch u c' count g = record {
    shape = branch-IsTrie b p q h n c' d low up key e g.shape j;
    rep =
        branch-Rep b u h n c' d (g.frame h (inner_node n) read (λ l. absurd (omega arith)))
          (at_c ∙ sym g.same_handle) at_d g.rep
          (Rep-frame s u (suc n.prefix_len) (under n (not b)) d j
            (λ k v f l. g.frame k v f (sides-apart n b (suc n.prefix_len) v l)) r);
    same_handle = handle-branch b h n c' d ∙ sym (handle-branch b h n c d);
    frame = λ k v f outside. g.frame k v f (λ l. outside (Lies-below p q n b v low up e l));
    alloc = g.alloc;
    same_root = g.same_root;
  }

  module _ (l : LeafNode) (side : top (suc n.prefix_len) l.key ≡ under n b) where
    upsert-branch :
        (c' : Trie)
        → leaves c' ≡ upsert l (leaves c)
        → leaves (branch b h n c' d) ≡ upsert l (leaves (branch b h n c d))
    upsert-branch c' f =
        leaves-branch b h n c' d
        ∙ ap (λ ls. join b ls (leaves d)) f
        ∙ sym (upsert-join b l (leaves c) (leaves d) (IsTrie-Beyond b n l.key d j side))
        ∙ ap (upsert l) (sym (leaves-branch b h n c d))

    find_key-branch : find_key l.key (leaves (branch b h n c d)) ≡ find_key l.key (leaves c)
    find_key-branch =
        ap (find_key l.key) (leaves-branch b h n c d)
        ∙ find_key-join b l.key (leaves c) (leaves d) (IsTrie-Beyond b n l.key d j side)

    pub Outcome-branch :
        (count : ℕ) {o : DexResult (Inserted × Slab)}
        → Outcome s l (suc n.prefix_len) (under n b) c count o
        → Outcome s l p q (branch b h n c d) count o
    Outcome-branch count (is_full u k f) = is_full u k f
    Outcome-branch count (is_new a u c' g f new m at) =
        is_new a u (branch b h n c' d) (Becomes-branch u c' (suc (suc count)) g)
          (upsert-branch c' f) (find_key-branch ∙ new) m at
    Outcome-branch count (is_old a old u c' g f new m at) =
        is_old a old u (branch b h n c' d) (Becomes-branch u c' count g) (upsert-branch c' f)
          (find_key-branch ∙ new) m at

-- The leaf takes the place of one with its key.
replace-Outcome :
    (s : Slab) (l old : LeafNode) (p q h count : ℕ)
    → IsTrie p q (tip h old)
    → Rep s (tip h old)
    → IsAlloc s count
    → l.key < u128_mod
    → top p l.key ≡ q
    → old.key ≡ l.key
    → Outcome s l p q
        (tip h old)
        count
        (put s h (leaf_node l) >>= λ t. ok (inserted h (some old), t))
unfolding upsert find_key
replace-Outcome s l old p q h count i r a keyed e same =
    let (u, wrote, w) = put-Writes s h count (leaf_node old) (leaf_node l) a r refl in
    let read = Writes-self s u h count (some (leaf_node l)) w in
    let tested : (old.key == l.key) ≡ true = ground arith in
    rw wrote (
      is_old h old u (tip h l)
        (record {
          shape = (keyed, e);
          rep = read;
          same_handle = refl;
          frame = λ k v f outside.
              Writes-other s u h count (some (leaf_node l)) w k
                (λ z. outside (root_Lies s p q (tip h old) k v i r f z))
              ∙ f;
          alloc = w.alloc;
          same_root = w.same_root;
        })
        (rw tested refl) (rw tested refl) w.same_leaves read)

pub top-all : (k : ℕ) → top 128 k ≡ k
top-all k = omega arith

-- Two keys that differ do not share all bits.
pub keys_part : (a b : ℕ) → a < u128_mod → b < u128_mod → a ≢ b → shared_prefix_len a b < 128
keys_part a b h k ne = elim (Bool-cases (ltb (shared_prefix_len a b) 128)) [
  | inl f ↦ ground arith
  | inr f ↦
      let all = (shared_prefix_len_iff 128 a b (omega arith) h k).0 (ground arith) in
      absurd (ne (sym (top-all a) ∙ all ∙ top-all b))
]

-- A walk goes on at the side that the key is on.
on_side :
    (s : Slab) (l : LeafNode) (p q h : ℕ) (n : InnerNode) (x y : Trie) (count : ℕ)
    (f : ℕ → DexResult (Inserted × Slab)) (b : Bool)
    → IsTrie p q (fork h n x y)
    → Rep s (fork h n x y)
    → top (suc n.prefix_len) l.key ≡ under n b
    → (top (suc n.prefix_len) l.key ≡ under n false
        → Outcome s l (suc n.prefix_len) (under n false) x count (f (handle x)))
    → (top (suc n.prefix_len) l.key ≡ under n true
        → Outcome s l (suc n.prefix_len) (under n true) y count (f (handle y)))
    → Outcome s l p q (fork h n x y) count (f (child n b))
unfolding child
on_side s l p q h n x y count f false (low, up, key, e, i, j) (r, c, d, rx, ry) side on_x on_y =
    Outcome-branch s p q h n false x y low up key e j r c d ry l side count (
      subst (λ k. Outcome s l (suc n.prefix_len) (under n false) x count (f k)) (sym c) (on_x side))
on_side s l p q h n x y count f true (low, up, key, e, i, j) (r, c, d, rx, ry) side on_x on_y =
    Outcome-branch s p q h n true y x low up key e i r d c rx l side count
      (subst (λ k. Outcome s l (suc n.prefix_len) (under n true) y count (f k)) (sym d) (on_y side))

pub insert_leaf_from-Outcome :
    (fuel : ℕ) (s : Slab) (l : LeafNode) (p q : ℕ) (t : Trie) (count : ℕ)
    → IsTrie p q t
    → Rep s t
    → IsAlloc s count
    → p ≤ 128
    → 128 < fuel + p
    → l.key < u128_mod
    → top p l.key ≡ q
    → Outcome s l p q t count (insert_leaf_from fuel s l (handle t))
unfolding insert_leaf_from case Node.key walk_down
insert_leaf_from-Outcome zero s l p q t count i r a le enough keyed e = absurd (omega arith)
insert_leaf_from-Outcome (suc fuel) s l p q (tip h old) count i r a le enough keyed e =
    elim (Bool-cases (old.key == l.key)) [
      | inl f ↦ rw (r, f) (replace-Outcome s l old p q h count i r a keyed e (ground arith))
      | inr f ↦
          let short = keys_part old.key l.key i.0 keyed (λ same. ground arith) in
          rw (r, f) (split-Outcome s l p q (tip h old) count i r a le keyed e short)
    ]
insert_leaf_from-Outcome (suc fuel) s l p q (fork h n x y) count (low, up, key, e', i, j)
      (r, c, d, rx, ry) a le enough keyed e =
    elim (Bool-cases (leb n.prefix_len (shared_prefix_len n.key l.key))) [
      | inl f ↦
          let agree : top n.prefix_len n.key ≡ top n.prefix_len l.key =
            (shared_prefix_len_iff n.prefix_len n.key l.key (omega arith) key keyed).0
              (ground arith) in
          let b = crit_bit n.prefix_len l.key in
          let side : top (suc n.prefix_len) l.key ≡ under n b =
            omega (arith, top-crit_bit n.prefix_len l.key up) in
          let walked =
            on_side s l p q h n x y count (insert_leaf_from fuel s l) b (low, up, key, e', i, j)
              (r, c, d, rx, ry) side
              (insert_leaf_from-Outcome fuel s l (suc n.prefix_len) (under n false) x count i rx a
                (omega arith) (omega arith) keyed)
              (insert_leaf_from-Outcome fuel s l (suc n.prefix_len) (under n true) y count j ry a
                (omega arith) (omega arith) keyed) in
          rw (r, f) walked
      | inr f ↦
          rw (r, f)
            (split-Outcome s l p q (fork h n x y) count (low, up, key, e', i, j) (r, c, d, rx, ry) a
              le keyed e (ground arith))
    ]
