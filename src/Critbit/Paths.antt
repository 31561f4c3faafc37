-- ===== src/Critbit/Paths.antt =====
-- The fuel of the loops of dex/src/critbit.rs is enough: on a tree whose prefix lengths grow along
-- every path, a walk from the root ends at a leaf.
use openbook_dex.Prelude.{
  ℕ, zero, suc, ◌+◌, ◌≤◌, ◌<◌, ◌≡◌, refl, Bool, true, false, Option, none, some, arith, ltb, ◌==◌,
  ◌⊎◌, inl, inr, Bool-cases,
}
use openbook_dex.Error.{DexResult, ok}
use openbook_dex.Critbit.Node.{
  InnerNode, LeafNode, inner_node, leaf_node, case, key, prefix_len, child, walk_down, crit_bit,
  shared_prefix_len,
}
use openbook_dex.Critbit.Alloc.{Slab, get}
use openbook_dex.Critbit.Find.{
  path_fuel, root, view_at, find_min_max_from, find_min_max, find_by_key_from, find_by_key,
}

-- The node at a handle is a tree with prefix lengths of at least the bound: a leaf, or an inner node
-- whose children have longer prefixes.
pub data Tree (s : Slab) : ℕ → ℕ → Type 0 where
  leaf_tree : {h p : ℕ} (l : LeafNode) → get s h ≡ some (leaf_node l) → Tree s h p
  inner_tree :
      {h p : ℕ} (n : InnerNode)
      → get s h ≡ some (inner_node n)
      → p ≤ n.prefix_len
      → n.prefix_len < 128
      → Tree s n.child_0 (suc n.prefix_len)
      → Tree s n.child_1 (suc n.prefix_len)
      → Tree s h p

-- A slab with such a tree at its root, if it has any leaf.
abbrev pub HasTree : Slab → Type 0
HasTree s = (s.leaf_count ≡ 0) ⊎ Tree s s.root_node 0

abbrev EndsAtLeaf : Slab → DexResult ℕ → Type 0
EndsAtLeaf s r = (m : ℕ) × (l : LeafNode) × (r ≡ ok m) × (get s m ≡ some (leaf_node l))

child-Tree :
    (s : Slab) (n : InnerNode) (p : ℕ) (b : Bool)
    → Tree s n.child_0 p
    → Tree s n.child_1 p
    → Tree s (child n b) p
unfolding child
child-Tree s n p true x y = y
child-Tree s n p false x y = x

find_min_max_from-Ends :
    (fuel : ℕ) (s : Slab) (b : Bool) (h p : ℕ)
    → Tree s h p
    → 128 < fuel + p
    → p ≤ 128
    → EndsAtLeaf s (find_min_max_from fuel s b h)
unfolding find_min_max_from view_at case
find_min_max_from-Ends zero s b h p t e le = absurd (omega arith)
find_min_max_from-Ends (suc fuel) s b h p (leaf_tree l g) e le = (h, l, rw g refl, g)
find_min_max_from-Ends (suc fuel) s b h p (inner_tree n g low up x y) e le =
    let r =
      find_min_max_from-Ends fuel s b (child n b) (suc n.prefix_len) (child-Tree s n _ b x y)
        (omega arith) (omega arith) in
    rw g r

-- On a slab with a tree, looking for the least or the greatest key ends: it finds nothing where there
-- are no leaves, and else a leaf.
pub find_min_max_total :
    (s : Slab) (find_max : Bool)
    → HasTree s
    → ((s.leaf_count ≡ 0) × (find_min_max s find_max ≡ ok none))
      ⊎ ((m : ℕ) × (l : LeafNode) × (find_min_max s find_max ≡ ok (some m))
          × (get s m ≡ some (leaf_node l)))
unfolding find_min_max root
find_min_max_total s b t = elim (Bool-cases (s.leaf_count == 0)) [
  | inl e ↦ inl (ground arith, rw e refl)
  | inr e ↦ elim t [
    | inl z ↦ absurd (ground arith)
    | inr t ↦
        let (m, l, r, g) =
          find_min_max_from-Ends path_fuel s b s.root_node 0 t (omega arith) (omega arith) in
        inr (m, l, rw (e, r) refl, g)
  ]
]

-- The end of a walk to a key: nothing, or a leaf that shares all 128 bits with it.
abbrev pub EndsForKey : Slab → ℕ → DexResult (Option ℕ) → Type 0
EndsForKey s search_key r =
    (r ≡ ok none)
    ⊎ ((m : ℕ) × (l : LeafNode) × (r ≡ ok (some m))
        × (get s m ≡ some (leaf_node l))
        × (128 ≤ shared_prefix_len search_key l.key))

find_by_key_from-Ends :
    (fuel : ℕ) (s : Slab) (search_key h p : ℕ)
    → Tree s h p
    → 128 < fuel + p
    → p ≤ 128
    → EndsForKey s search_key (find_by_key_from fuel s search_key h)
unfolding find_by_key_from case key prefix_len walk_down
find_by_key_from-Ends zero s k h p t e le = absurd (omega arith)
find_by_key_from-Ends (suc fuel) s k h p (leaf_tree l g) e le =
    elim (Bool-cases (ltb (shared_prefix_len k l.key) 128)) [
      | inl f ↦ inl (rw (g, f) refl)
      | inr f ↦ inr (h, l, rw (g, f) refl, g, ground arith)
    ]
find_by_key_from-Ends (suc fuel) s k h p (inner_tree n g low up x y) e le =
    elim (Bool-cases (ltb (shared_prefix_len k n.key) n.prefix_len)) [
      | inl f ↦ inl (rw (g, f) refl)
      | inr f ↦
          let r =
            find_by_key_from-Ends fuel s k (child n (crit_bit n.prefix_len k)) (suc n.prefix_len)
              (child-Tree s n _ _ x y) (omega arith) (omega arith) in
          rw (g, f) r
    ]

-- On a slab with a tree, looking up any key ends without a panic: it finds nothing, or the handle
-- of a leaf whose key shares all 128 bits with it.
pub find_by_key_total :
    (s : Slab) (search_key : ℕ) → HasTree s → EndsForKey s search_key (find_by_key s search_key)
unfolding find_by_key root
find_by_key_total s k t = elim (Bool-cases (s.leaf_count == 0)) [
  | inl e ↦ inl (rw e refl)
  | inr e ↦ elim t [
    | inl z ↦ absurd (ground arith)
    | inr t ↦ rw e (find_by_key_from-Ends path_fuel s k s.root_node 0 t (omega arith) (omega arith))
  ]
]
