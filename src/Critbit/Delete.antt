-- ===== src/Critbit/Delete.antt =====
-- `remove_by_key` of dex/src/critbit.rs on a slab as the sorted list of its orders.
use openbook_dex.Prelude.{
  ℕ, suc, ◌+◌, ◌-◌, ◌*◌, ◌<◌, ◌≡◌, refl, sym, ap, subst, ◌∙◌, ◌⊎◌, inl, inr, true, false, List, ◌∷◌,
  [], Option, none, some, arith, ◌==◌, length, length-append, Bool-cases, sub64-eq, u64_mod,
}
use openbook_dex.Error.{DexResult, ok, ◌>>=◌}
use openbook_dex.Critbit.Node.{
  InnerNode, LeafNode, inner_node, leaf_node, case, crit_bit, child, walk_down,
}
use openbook_dex.Critbit.Alloc.{Slab, get}
use openbook_dex.Critbit.Find.{path_fuel, root, view_at}
use openbook_dex.Critbit.Remove.{descend, remove_root, unlink_found, remove_by_key}
use openbook_dex.Critbit.Free.{IsAlloc, IsAlloc-header, get-header}
use openbook_dex.Critbit.Free.Removal.{remove-Writes}
use openbook_dex.Critbit.Trie.{Trie, tip, fork, handle, leaves}
use openbook_dex.Critbit.Sorted.{find_key, erase}
use openbook_dex.Critbit.Unlink.{Removed, absent, removed}
use openbook_dex.Critbit.Erase.{on_side, descend-Removed}
use openbook_dex.Critbit.Book.{Holds, no_orders, holds_trie, leaves-pos, root-none, root-some}

length-erase :
    (k : ℕ) (l : LeafNode) (ls : List LeafNode)
    → find_key k ls ≡ some l
    → length ls ≡ suc (length (erase k ls))
unfolding erase find_key
length-erase k l [] f = absurd (cc)
length-erase k l (x ∷ xs) f = ground (arith, length-erase k l xs)

-- What `remove_by_key` makes of a slab that holds `ls`.
abbrev pub RemoveSpec : ℕ → List LeafNode → DexResult (Option (LeafNode × Slab)) → Type 0
RemoveSpec k ls r =
    ((r ≡ ok none) × (find_key k ls ≡ none))
    ⊎ ((l : LeafNode) × (u : Slab) × (r ≡ ok (some (l, u)))
        × (find_key k ls ≡ some l)
        × Holds u (erase k ls))

-- The last order.
tip_remove :
    (s : Slab) (h k : ℕ) (l : LeafNode)
    → get s h ≡ some (leaf_node l)
    → IsAlloc s 1
    → s.leaf_count ≡ 1
    → RemoveSpec k (l ∷ []) (remove_root s h l k)
unfolding remove_root find_key erase
tip_remove s h k l read a one = elim (Bool-cases (l.key == k)) [
  | inl e ↦
      let t : Slab = record s { header = record s.header { root_node = 0; leaf_count = 0 } } in
      let (u, gone, w) =
        remove-Writes t h 0 (leaf_node l) (IsAlloc-header s 1 0 0 a) (get-header s 0 0 h ∙ read) in
      let tested : (s.leaf_count == 1) ≡ true = ground arith in
      inr (l, u, rw (e, tested, gone) refl, rw e refl, rw e (no_orders refl w.same_leaves w.alloc))
  | inr e ↦ inl (rw e refl, rw e refl)
]

trie_remove :
    (s : Slab) (k : ℕ) (t : Trie) (count : ℕ) (r : DexResult (Option (LeafNode × Slab)))
    → handle t ≡ s.root_node
    → suc (suc count) + 1 ≡ 2 * length (leaves t)
    → s.leaf_count ≡ length (leaves t)
    → length (leaves t) < u64_mod
    → Removed s k 0 0 t count r
    → RemoveSpec k (leaves t) r
trie_remove s k t count r at size leaf_count word (absent f) = inl (refl, f)
trie_remove s k t count r at size leaf_count word (removed l u t' g listed found fewer) =
    let shorter = length-erase k l (leaves t) found in
    inr (
      l,
      u,
      refl,
      found,
      holds_trie t' count listed g.shape g.rep (g.same_handle ∙ at ∙ sym g.same_root) g.alloc
          (omega arith) (omega (arith, sub64-eq s.leaf_count 1 (omega arith) (omega arith))),
    )

at_tip :
    (s : Slab) (h k : ℕ) (l : LeafNode)
    → root s ≡ some h
    → get s h ≡ some (leaf_node l)
    → remove_by_key s k ≡ remove_root s h l k
unfolding remove_by_key view_at case
at_tip s h k l e read = rw (e, remove_by_key, read) refl

at_fork :
    (s : Slab) (h k : ℕ) (n : InnerNode)
    → root s ≡ some h
    → get s h ≡ some (inner_node n)
    → let b = crit_bit n.prefix_len k in
      remove_by_key s k ≡ (descend path_fuel s k h (child n b) b >>= λ f. unlink_found s f)
unfolding remove_by_key view_at case walk_down
at_fork s h k n e read = rw (e, remove_by_key, read) refl

-- `remove_by_key` on a slab that holds a list of orders, sorted by key, never panics, whatever the
-- key is. Either it finds nothing, and no order of the list has the key; or it gives the order of
-- the list that has the key, and the slab holds the list without it.
pub remove_by_key_lem :
    (s : Slab) (k : ℕ) (ls : List LeafNode) → Holds s ls → RemoveSpec k ls (remove_by_key s k)
unfolding remove_by_key find_key child
remove_by_key_lem s k ls (no_orders e z a) = inl (rw (root-none s z, remove_by_key) refl, rw e refl)
remove_by_key_lem s k ls (holds_trie (tip h l) count e i rep at a size leaf_count) =
    let here = ap length e in
    let one : count ≡ 1 = omega arith in
    let top_node = root-some s (λ z. absurd (omega arith)) ∙ ap some (sym at) in
    rw (at_tip s h k l top_node rep) (
      subst (λ ls. RemoveSpec k ls (remove_root s h l k)) e
        (tip_remove s h k l rep (subst (IsAlloc s) one a) (omega arith)))
remove_by_key_lem s k ls
      (holds_trie
        (fork h n x y)
        count
        e
        (low, up, key, q, i, j)
        (read, c, d, rx, ry)
        at
        a
        size
        leaf_count) =
    let t = fork h n x y in
    let here : length (leaves t) ≡ length ls = ap length e in
    let both = length-append (leaves x) (leaves y) in
    let more : count ≡ suc (suc (count - 2)) = omega (arith, leaves-pos x, leaves-pos y) in
    let alloc = subst (IsAlloc s) more a in
    let top_node = root-some s (λ z. absurd (omega (arith, leaves-pos x))) ∙ ap some (sym at) in
    let b = crit_bit n.prefix_len k in
    let walked =
      on_side s k 0 0 h n x y (count - 2)
        (λ i c. descend path_fuel s k h i c >>= λ f. unlink_found s f) b c d
        (λ z.
          descend-Removed path_fuel s k 0 0 h n false x y (count - 2) low up key q i j read c d rx
            ry alloc z (omega arith))
        (λ z.
          descend-Removed path_fuel s k 0 0 h n true y x (count - 2) low up key q j i read d c ry rx
            alloc z (omega arith)) in
    let r = descend path_fuel s k h (child n b) b >>= λ f. unlink_found s f in
    rw (at_fork s h k n top_node read) (
      subst (λ ls. RemoveSpec k ls r) e
        (trie_remove s k t (count - 2) r at (omega arith) (omega arith)
          (omega (arith, a.word, a.counted)) walked))
