-- ===== src/Critbit/Remove.antt =====
-- `remove_by_key`, `remove_min` and `remove_max` of dex/src/critbit.rs.
use openbook_dex.Prelude.{ℕ, zero, suc, Bool, Option, none, some, ◌==◌, if◌then◌else◌, sub64}
use openbook_dex.Error.{DexResult, ok, panic, ◌>>=◌, ◌>>◌, unwrap, assert}
use openbook_dex.Critbit.Node.{LeafNode, inner, leaf, as_leaf, key, children, walk_down}
use openbook_dex.Critbit.Alloc.{Slab, get, put, remove}
use openbook_dex.Critbit.Find.{path_fuel, root, view_at, from_root, find_min, find_max}

-- Where `remove_by_key` stops: the parent, the leaf below it and on which side it hangs.
pub record Found : Type 0 where
  pub parent_h : ℕ
  pub child_h : ℕ
  pub crit : Bool

unfoldable pub descend : ℕ → Slab → ℕ → ℕ → ℕ → Bool → DexResult (Option Found)
unfolding view_at
descend zero s search_key parent_h child_h crit = panic
descend (suc fuel) s search_key parent_h child_h crit = view_at s child_h >>= λ r. elim r [
  | inner n ↦ (let w = walk_down n search_key in descend fuel s search_key child_h w.0 w.1)
  | leaf l ↦
      if l.key == search_key
      then ok (some (record { parent_h = parent_h; child_h = child_h; crit = crit }))
      else ok none
]

unfoldable pub other_child : Bool → ℕ × ℕ → ℕ
other_child crit c = if crit then c.0 else c.1

-- Replace the parent by the other child, and free both children.
unfoldable pub unlink : Slab → Found → DexResult (LeafNode × Slab)
unfolding other_child
unlink s f = unwrap (get s f.parent_h) >>= λ parent. children parent >>= λ cs. unwrap cs >>= λ c.
    unwrap (remove s (other_child f.crit c)) >>= λ other. put other.1 f.parent_h other.0 >>= λ t.
    (let u = record t { header = record t.header { leaf_count = sub64 t.leaf_count 1 } } in
      unwrap (remove u f.child_h) >>= λ removed.
      unwrap (as_leaf removed.0) >>= λ l. ok (l, removed.1))

-- `none` leaves the slab as it was.
unfoldable pub remove_root : Slab → ℕ → LeafNode → ℕ → DexResult (Option (LeafNode × Slab))
remove_root s h l search_key =
    if l.key == search_key
    then (assert (s.leaf_count == 1)
        >> (let t = record s { header = record s.header { root_node = 0; leaf_count = 0 } } in
            unwrap (remove t h) >>= λ removed. ok (some (l, removed.1))))
    else ok none

unfoldable pub unlink_found : Slab → Option Found → DexResult (Option (LeafNode × Slab))
unfolding unlink
unlink_found s none = ok none
unlink_found s (some f) = unlink s f >>= λ r. ok (some r)

unfoldable pub remove_by_key : Slab → ℕ → DexResult (Option (LeafNode × Slab))
unfolding root view_at descend remove_root unlink_found
remove_by_key s search_key = from_root (root s) λ h. view_at s h >>= λ r. elim r [
  | leaf l ↦ remove_root s h l search_key
  | inner n ↦
      (let w = walk_down n search_key in
        descend path_fuel s search_key h w.0 w.1 >>= λ f. unlink_found s f)
]

-- `remove_min` and `remove_max`: each `?` gives `None`.
unfoldable pub remove_at : Slab → Option ℕ → DexResult (Option (LeafNode × Slab))
remove_at s none = ok none
remove_at s (some h) =
    let k : Option ℕ = elim (get s h) [ none ↦ none | some n ↦ key n ] in
    elim k [ none ↦ ok none | some search_key ↦ remove_by_key s search_key ]

unfoldable pub remove_min : Slab → DexResult (Option (LeafNode × Slab))
unfolding remove_at
remove_min s = find_min s >>= λ h. remove_at s h

unfoldable pub remove_max : Slab → DexResult (Option (LeafNode × Slab))
unfolding remove_at
remove_max s = find_max s >>= λ h. remove_at s h
