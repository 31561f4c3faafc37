-- ===== src/Critbit/Walk.antt =====
-- `find_by` and `traverse_orders` of dex/src/critbit.rs: walks over the whole tree.
use openbook_dex.Prelude.{
  ℕ, zero, suc, Bool, true, List, [], ◌∷◌, ◌++◌, Option, none, some, ◌==◌, if◌then◌else◌,
}
use openbook_dex.Error.{DexResult, ok, panic, ◌>>=◌, unwrap}
use openbook_dex.Types.{Address}
use openbook_dex.Critbit.Node.{LeafNode, inner, leaf, case}
use openbook_dex.Critbit.Alloc.{Slab, get}
use openbook_dex.Critbit.Find.{path_fuel, root, view_at}

-- `find_by` walks the tree with a stack of handles, the top of the stack first; `limit` counts down
-- with each node that is looked at, and is what is left of it.
unfoldable pub find_by_from :
    ℕ → Slab → (LeafNode → Bool) → List ℕ → List ℕ → DexResult (List ℕ × ℕ)
find_by_from zero s p found to_search = ok (found, 0)
find_by_from (suc limit) s p found [] = ok (found, suc limit)
find_by_from (suc limit) s p found (h ∷ rest) = elim (get s h) [
  | none ↦ ok (found, limit)
  | some n ↦ unwrap (case n) >>= λ r. elim r [
    | leaf l ↦ find_by_from limit s p (if p l then found ++ l.key ∷ [] else found) rest
    | inner m ↦ find_by_from limit s p found (m.child_1 ∷ m.child_0 ∷ rest)
  ]
]

unfoldable pub find_by : Slab → ℕ → (LeafNode → Bool) → DexResult (List ℕ × ℕ)
unfolding root find_by_from
find_by s limit p = elim (root s) [
  | none ↦ ok ([], limit)
  | some h ↦ find_by_from limit s p [] (h ∷ [])
]

-- `walk_rec` of `traverse_orders`, on fuel: the leaves of the owner, or all, appended to `buf`.
unfoldable pub owned_by : Option Address → LeafNode → Bool
owned_by none l = true
owned_by (some owner) l = l.owner == owner

unfoldable pub walk_rec : ℕ → Slab → ℕ → List LeafNode → Option Address → DexResult (List LeafNode)
unfolding view_at owned_by
walk_rec zero s h buf filter_owner = panic
walk_rec (suc fuel) s h buf filter_owner = view_at s h >>= λ r. elim r [
  | leaf l ↦ ok (if owned_by filter_owner l then buf ++ l ∷ [] else buf)
  | inner n ↦ walk_rec fuel s n.child_0 buf filter_owner >>= λ left.
      walk_rec fuel s n.child_1 left filter_owner
]

unfoldable pub traverse_orders : Slab → Option Address → DexResult (List LeafNode)
unfolding root walk_rec
traverse_orders s filter_owner = elim (root s) [
  | none ↦ ok []
  | some h ↦ walk_rec path_fuel s h [] filter_owner
]
