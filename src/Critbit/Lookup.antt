-- ===== src/Critbit/Lookup.antt =====
-- `find_by_key` and `traverse_orders` of dex/src/critbit.rs on a slab as the sorted list of its orders.
use openbook_dex.Prelude.{
  ℕ, zero, suc, ◌+◌, ◌≤◌, ◌<◌, ◌≡◌, ◌≢◌, refl, sym, ap, subst, ◌∙◌, ◌⊎◌, inl, inr, Bool, true,
  false, List, ◌∷◌, [], ◌++◌, Option, none, some, arith, ltb, ◌==◌, if◌then◌else◌, length,
  Bool-cases, u128_mod,
}
use openbook_dex.Error.{DexResult, ok}
use openbook_dex.Types.{Address}
use openbook_dex.Critbit.Node
use openbook_dex.Critbit.Node.{
  InnerNode, LeafNode, inner_node, leaf_node, case, prefix_len, crit_bit, child, walk_down,
  shared_prefix_len,
}
use openbook_dex.Critbit.Alloc.{Slab, get}
use openbook_dex.Critbit.Find.{path_fuel, find_by_key_from, find_by_key}
use openbook_dex.Critbit.Walk.{owned_by}
use openbook_dex.Critbit.Prefix.{top, top-crit_bit, shared_prefix_len_iff}
use openbook_dex.Critbit.Trie.{Trie, tip, fork, handle, leaves, Rep, IsTrie, under, IsTrie-keys}
use openbook_dex.Critbit.Sorted.{find_key}
use openbook_dex.Critbit.Branch.{IsTrie-Beyond, find_key-join}
use openbook_dex.Critbit.Descent.{top-all}
use openbook_dex.Critbit.Erase.{find_key-foreign}
use openbook_dex.Critbit.Book.{Holds, no_orders, holds_trie, leaves-pos, root-none, root-some}

-- The handle of the order with the key, if there is one.
abbrev pub FindSpec : Slab → ℕ → List LeafNode → DexResult (Option ℕ) → Type 0
FindSpec s k ls r =
    ((r ≡ ok none) × (find_key k ls ≡ none))
    ⊎ ((h : ℕ) × (l : LeafNode) × (r ≡ ok (some h))
        × (get s h ≡ some (leaf_node l))
        × (find_key k ls ≡ some l))

on_side :
    (s : Slab) (k h : ℕ) (n : InnerNode) (x y : Trie) (f : ℕ → DexResult (Option ℕ)) (b : Bool)
    → n.child_0 ≡ handle x
    → n.child_1 ≡ handle y
    → IsTrie (suc n.prefix_len) (under n false) x
    → IsTrie (suc n.prefix_len) (under n true) y
    → top (suc n.prefix_len) k ≡ under n b
    → FindSpec s k (leaves x) (f (handle x))
    → FindSpec s k (leaves y) (f (handle y))
    → FindSpec s k (leaves x ++ leaves y) (f (child n b))
unfolding child
on_side s k h n x y f false c d i j side on_x on_y =
    let same = find_key-join false k (leaves x) (leaves y) (IsTrie-Beyond false n k y j side) in
    rw (c, same) on_x
on_side s k h n x y f true c d i j side on_x on_y =
    let same = find_key-join true k (leaves y) (leaves x) (IsTrie-Beyond true n k x i side) in
    rw (d, same) on_y

find_by_key_from-Find :
    (fuel : ℕ) (s : Slab) (k p q : ℕ) (t : Trie)
    → IsTrie p q t
    → Rep s t
    → k < u128_mod
    → p ≤ 128
    → 128 < fuel + p
    → FindSpec s k (leaves t) (find_by_key_from fuel s k (handle t))
unfolding find_by_key_from case Node.key prefix_len walk_down find_key
find_by_key_from-Find zero s k p q t i r keyed le enough = absurd (omega arith)
find_by_key_from-Find (suc fuel) s k p q (tip h l) i r keyed le enough =
    let iff = shared_prefix_len_iff 128 k l.key (omega arith) keyed i.0 in
    elim (Bool-cases (ltb (shared_prefix_len k l.key) 128)) [
      | inl f ↦
          let differ : (l.key == k) ≡ false = elim (Bool-cases (l.key == k)) [
            | inl e ↦
                let same : k ≡ l.key = ground arith in
                let all = iff.1 (ap (top 128) same) in absurd (ground arith)
            | inr e ↦ e
          ] in
          inl (rw (r, f) refl, rw differ refl)
      | inr f ↦
          let same : (l.key == k) ≡ true =
            (let all = iff.0 (ground arith) in
              let equal : l.key ≡ k = sym (top-all l.key) ∙ sym all ∙ top-all k in ground arith) in
          inr (h, l, rw (r, f) refl, r, rw same refl)
    ]
find_by_key_from-Find (suc fuel) s k p q (fork h n x y) (low, up, key, e, i, j) (r, c, d, rx, ry)
      keyed le enough =
    let iff = shared_prefix_len_iff n.prefix_len k n.key (omega arith) keyed key in
    elim (Bool-cases (ltb (shared_prefix_len k n.key) n.prefix_len)) [
      | inl f ↦
          let foreign : top n.prefix_len k ≢ top n.prefix_len n.key =
            λ same. (let shared = iff.1 same in absurd (ground arith)) in
          inl (
            rw (r, f) refl,
            find_key-foreign k n.prefix_len (top n.prefix_len n.key) (leaves x ++ leaves y)
                (IsTrie-keys n.prefix_len (top n.prefix_len n.key) (fork h n x y)
                  (omega arith, up, key, refl, i, j))
                foreign,
          )
      | inr f ↦
          let agree = iff.0 (ground arith) in
          let b = crit_bit n.prefix_len k in
          let side : top (suc n.prefix_len) k ≡ under n b =
            omega (arith, top-crit_bit n.prefix_len k up) in
          let below =
            on_side s k h n x y (find_by_key_from fuel s k) b c d i j side
              (find_by_key_from-Find fuel s k (suc n.prefix_len) (under n false) x i rx keyed
                (omega arith) (omega arith))
              (find_by_key_from-Find fuel s k (suc n.prefix_len) (under n true) y j ry keyed
                (omega arith) (omega arith)) in
          rw (r, f) below
    ]

-- `find_by_key` on a slab that holds a list of orders, with a `u128` key, never panics: it finds
-- nothing, and no order of the list has the key, or it gives a handle that reads the order of the
-- list that has it.
pub find_by_key_lem :
    (s : Slab) (k : ℕ) (ls : List LeafNode)
    → Holds s ls
    → k < u128_mod
    → FindSpec s k ls (find_by_key s k)
unfolding find_by_key find_key
find_by_key_lem s k ls (no_orders e z a) keyed =
    inl (rw (root-none s z, find_by_key) refl, rw e refl)
find_by_key_lem s k ls (holds_trie t count e i rep at a size leaf_count) keyed =
    let here = ap length e in
    let top_node = root-some s (λ z. absurd (omega (arith, leaves-pos t))) ∙ ap some (sym at) in
    rw (top_node, find_by_key)
      (subst (λ ls. FindSpec s k ls (find_by_key_from path_fuel s k (handle t))) e
        (find_by_key_from-Find path_fuel s k 0 0 t i rep keyed (omega arith) (omega arith)))

-- The orders of an owner, or all.
pub owned : Option Address → List LeafNode → List LeafNode
owned filter_owner [] = []
owned filter_owner (l ∷ ls) =
    let rest = owned filter_owner ls in if owned_by filter_owner l then l ∷ rest else rest
