-- ===== src/Critbit/Insert.antt =====
-- `insert_leaf` of dex/src/critbit.rs, in a loop on fuel like those of `Find`.
use openbook_dex.Prelude.{ℕ, zero, suc, Option, none, some, leb, ◌==◌, if◌then◌else◌, add64}
use openbook_dex.Error.{DexResult, ok, panic, ◌>>=◌, unwrap}
use openbook_dex.Critbit.Node.{
  AnyNode, LeafNode, inner_node, leaf_node, inner, leaf, case, key, shared_prefix_len, crit_bit,
  walk_down,
}
use openbook_dex.Critbit.Alloc.{Slab, get, put, insert, remove}
use openbook_dex.Critbit.Find.{path_fuel, root}

-- `Result<(NodeHandle, Option<LeafNode>), SlabTreeError>`; the slab may change on the error too.
pub data Inserted : Type 0 where
  out_of_space : Inserted
  inserted : ℕ → Option LeafNode → Inserted

-- `insert_leaf` into the empty tree.
unfoldable pub insert_root : Slab → LeafNode → DexResult (Inserted × Slab)
insert_root s l = insert s (leaf_node l) >>= λ r. elim r [
  | none ↦ ok (out_of_space, s)
  | some (handle, t) ↦ ok (
    inserted handle none,
    record t { header = record t.header { root_node = handle; leaf_count = 1 } },
  )
]

-- The node at `h` becomes the common ancestor of the new leaf and of what it was.
unfoldable pub new_parent : ℕ → LeafNode → ℕ → ℕ → AnyNode
new_parent shared l leaf_handle moved_handle =
    let b = crit_bit shared l.key in
    inner_node (record {
      prefix_len = shared;
      key = l.key;
      child_0 = if b then moved_handle else leaf_handle;
      child_1 = if b then leaf_handle else moved_handle;
    })

unfoldable pub split : Slab → LeafNode → ℕ → AnyNode → ℕ → DexResult (Inserted × Slab)
unfolding new_parent
split s l h contents shared = insert s (leaf_node l) >>= λ r. elim r [
  | none ↦ ok (out_of_space, s)
  | some (leaf_handle, t) ↦ insert t contents >>= λ q. elim q [
    | none ↦ unwrap (remove t leaf_handle) >>= λ p. ok (out_of_space, p.1)
    | some (moved_handle, u) ↦ put u h (new_parent shared l leaf_handle moved_handle) >>= λ v. ok (
      inserted leaf_handle none,
      record v { header = record v.header { leaf_count = add64 v.leaf_count 1 } },
    )
  ]
]

unfoldable pub insert_leaf_from : ℕ → Slab → LeafNode → ℕ → DexResult (Inserted × Slab)
unfolding split
insert_leaf_from zero s l h = panic
insert_leaf_from (suc fuel) s l h = unwrap (get s h) >>= λ contents.
    unwrap (key contents) >>= λ root_key. unwrap (case contents) >>= λ r.
    (let shared = shared_prefix_len root_key l.key in
      elim r [
        | leaf old ↦
            if root_key == l.key
            then (put s h (leaf_node l) >>= λ t. ok (inserted h (some old), t))
            else split s l h contents shared
        | inner n ↦
            (let down = insert_leaf_from fuel s l (walk_down n l.key).0 in
              if leb n.prefix_len shared then down else split s l h contents shared)
      ])

unfoldable pub insert_leaf : Slab → LeafNode → DexResult (Inserted × Slab)
unfolding root insert_root insert_leaf_from
insert_leaf s l = elim (root s) [
  | none ↦ insert_root s l
  | some h ↦ insert_leaf_from path_fuel s l h
]
