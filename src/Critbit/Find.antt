-- ===== src/Critbit/Find.antt =====
-- Looking up in dex/src/critbit.rs on the critbit tree in a slab. The loops walk down the tree
-- on fuel: the prefix lengths grow along a path and stay below 128, so a path has 129 nodes at most.
-- A panic of the source is `panic`, and so is a loop whose fuel runs out.
use openbook_dex.Prelude.{
  ℕ, zero, suc, Bool, true, false, Option, none, some, ltb, ◌==◌, if◌then◌else◌,
}
use openbook_dex.Error.{DexResult, ok, panic, ◌>>=◌, unwrap}
use openbook_dex.Critbit.Node.{
  NodeRef, inner, leaf, case, key, prefix_len, shared_prefix_len, child, walk_down,
}
use openbook_dex.Critbit.Alloc.{Slab, get}

abbrev pub path_fuel : ℕ
path_fuel = 129

unfoldable pub root : Slab → Option ℕ
root s = if s.leaf_count == 0 then none else some s.root_node

-- `self.get(h).unwrap().case().unwrap()`.
unfoldable pub view_at : Slab → ℕ → DexResult NodeRef
view_at s h = unwrap (get s h) >>= λ n. unwrap (case n)

-- A loop from the root; an empty tree has no result.
abbrev pub from_root {ℓ} :
    {A : Type ℓ} → Option ℕ → (ℕ → DexResult (Option A)) → DexResult (Option A)
from_root none f = ok none
from_root (some h) f = f h

unfoldable pub find_min_max_from : ℕ → Slab → Bool → ℕ → DexResult ℕ
unfolding view_at
find_min_max_from zero s find_max h = panic
find_min_max_from (suc fuel) s find_max h = view_at s h >>= λ r. elim r [
  | inner n ↦ find_min_max_from fuel s find_max (child n find_max)
  | leaf _ ↦ ok h
]

unfoldable pub find_min_max : Slab → Bool → DexResult (Option ℕ)
unfolding root find_min_max_from
find_min_max s find_max =
    from_root (root s) λ h. find_min_max_from path_fuel s find_max h >>= λ m. ok (some m)

unfoldable pub find_min : Slab → DexResult (Option ℕ)
unfolding find_min_max
find_min s = find_min_max s false

unfoldable pub find_max : Slab → DexResult (Option ℕ)
unfolding find_min_max
find_max s = find_min_max s true

unfoldable pub find_by_key_from : ℕ → Slab → ℕ → ℕ → DexResult (Option ℕ)
find_by_key_from zero s search_key h = panic
find_by_key_from (suc fuel) s search_key h = unwrap (get s h) >>= λ n. prefix_len n >>= λ len.
    unwrap (key n) >>= λ node_key. unwrap (case n) >>= λ r.
    (let below : DexResult (Option ℕ) = elim r [
      | leaf _ ↦ ok (some h)
      | inner m ↦ find_by_key_from fuel s search_key (walk_down m search_key).0
    ] in
      if ltb (shared_prefix_len search_key node_key) len then ok none else below)

unfoldable pub find_by_key : Slab → ℕ → DexResult (Option ℕ)
unfolding root find_by_key_from
find_by_key s search_key = from_root (root s) (find_by_key_from path_fuel s search_key)
