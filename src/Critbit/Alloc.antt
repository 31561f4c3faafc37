-- ===== src/Critbit/Alloc.antt =====
-- The slab of dex/src/critbit.rs as an allocator of nodes: `SlabHeader` and `SlabView<AnyNode>`. The
-- bytes of an account are a header and a list of nodes; a panic of the source is `panic`.
use openbook_dex.Prelude.{
  ℕ, ◌-◌, ◌*◌, ◌%◌, ◌^◌, Bool, true, false, not, List, Option, none, some, ltb, leb, ◌==◌,
  if◌then◌else◌, length, get_elem?, set, add64, sub64,
}
use openbook_dex.Error.{DexResult, ok, panic, ◌>>=◌, ◌>>◌, unwrap, assert, check_or, slab_too_small}
use openbook_dex.Critbit.Node.{AnyNode, inner_node, leaf_node, free_node, last_free_node}

pub record SlabHeader : Type 0 where
  pub bump_index : ℕ
  pub free_list_len : ℕ
  pub free_list_head : ℕ
  pub root_node : ℕ
  pub leaf_count : ℕ

pub record Slab : Type 0 where
  pub header : SlabHeader
  pub open header use *
  pub nodes : List AnyNode

unfoldable pub assert_minimum_capacity : Slab → ℕ → DexResult (Unit {0})
assert_minimum_capacity s capacity =
    check_or (not (leb (length s.nodes) (capacity * 2))) slab_too_small

unfoldable pub clear : Slab → Slab
clear s = record s {
  header = record {
    bump_index = 0;
    free_list_len = 0;
    free_list_head = 0;
    root_node = 0;
    leaf_count = 0;
  };
}

unfoldable pub is_empty : Slab → Bool
is_empty s = s.bump_index == s.free_list_len

-- Only inner nodes and leaves are handed out.
abbrev pub live : AnyNode → Option AnyNode
live (inner_node n) = some (inner_node n)
live (leaf_node n) = some (leaf_node n)
live _ = none

unfoldable pub get : Slab → ℕ → Option AnyNode
get s key = elim (get_elem? s.nodes key) [ none ↦ none | some n ↦ live n ]

-- A write through `get_mut(key).unwrap()`.
unfoldable pub put : Slab → ℕ → AnyNode → DexResult Slab
unfolding get
put s key n = unwrap (get s key) >>= λ _. ok (record s { nodes = set s.nodes key n })

unfoldable pub contains : Slab → ℕ → Bool
unfolding get
contains s key = elim (get s key) [ none ↦ false | some _ ↦ true ]

-- The free list's entry at its head: the next handle, after the check of its tag.
unfoldable pub next_free : ℕ → AnyNode → DexResult ℕ
next_free free_list_len (free_node next) = assert (ltb 1 free_list_len) >> ok next
next_free free_list_len (last_free_node next) = assert (free_list_len == 1) >> ok next
next_free free_list_len _ = panic

-- `insert` where the free list is empty, and where it is not; `none` is `Err(())`.
unfoldable pub insert_bump : Slab → AnyNode → DexResult (Option (ℕ × Slab))
insert_bump s val =
    if s.bump_index == length s.nodes
    then ok none
    else if s.bump_index == 2 ^ 32 - 1
    then ok none
    else (let key = s.bump_index % 2 ^ 32 in
        unwrap (get_elem? s.nodes key) >>= λ _. ok (
          some (
            key,
            record {
              header = record s.header { bump_index = add64 s.bump_index 1 };
              nodes = set s.nodes key val;
            },
          )))

unfoldable pub insert_free : Slab → AnyNode → DexResult (ℕ × Slab)
unfolding next_free
insert_free s val =
    let key = s.free_list_head in
    unwrap (get_elem? s.nodes key) >>= λ node. next_free s.free_list_len node >>= λ next. ok (
      key,
      record {
        header = record s.header { free_list_head = next; free_list_len = sub64 s.free_list_len 1 };
        nodes = set s.nodes key val;
      },
    )

unfoldable pub insert : Slab → AnyNode → DexResult (Option (ℕ × Slab))
unfolding insert_bump insert_free
insert s val = unwrap (live val) >>= λ _.
    if s.free_list_len == 0 then insert_bump s val else (insert_free s val >>= λ r. ok (some r))

-- The slab with the node at `key` at the head of the free list.
abbrev pub free_at : Slab → ℕ → Slab
free_at s key =
    let freed =
      if s.free_list_len == 0
      then last_free_node s.free_list_head
      else free_node s.free_list_head in
    record {
      header = record s.header { free_list_len = add64 s.free_list_len 1; free_list_head = key };
      nodes = set s.nodes key freed;
    }

unfoldable pub remove : Slab → ℕ → Option (AnyNode × Slab)
unfolding get
remove s key = elim (get s key) [ none ↦ none | some val ↦ some (val, free_at s key) ]
