-- ===== src/Critbit/Tests.antt =====
-- Slabs of dex/src/critbit.rs with one leaf and with two, and with room for more.
use openbook_dex.Prelude.{
  ℕ, zero, suc, true, ◌≤◌, ◌≡◌, refl, List, [], ◌∷◌, none, some, arith, add64,
}
use openbook_dex.Error.{ok}
use openbook_dex.Critbit.Node.{AnyNode, InnerNode, LeafNode, inner_node, leaf_node, uninitialized}
use openbook_dex.Critbit.Alloc.{Slab, get, insert, remove}
use openbook_dex.Critbit.Find.{find_min_max, find_by_key}
use openbook_dex.Critbit.Insert.{insert_leaf}
use openbook_dex.Critbit.Remove.{remove_by_key}
use openbook_dex.Critbit.Handles.{insert-remove}
use openbook_dex.Critbit.Trie
use openbook_dex.Critbit.Trie.{tip}
use openbook_dex.Critbit.Book.{Holds, holds_trie, InsertSpec, insert_leaf_lem}
use openbook_dex.Critbit.Delete.{RemoveSpec, remove_by_key_lem}
use openbook_dex.Critbit.Lookup.{FindSpec, find_by_key_lem}
use openbook_dex.Critbit.Extremes.{EndSpec, find_min_max_lem}

abbrev order_with : ℕ → LeafNode
order_with key = record {
  owner_slot = 0;
  fee_tier = 0;
  key = key;
  owner = 7;
  quantity = 1;
  client_order_id = 0;
}

abbrev leaf_with : ℕ → AnyNode
leaf_with key = leaf_node (order_with key)

abbrev one_leaf : Slab
one_leaf = record {
  header = record {
    bump_index = 1;
    free_list_len = 0;
    free_list_head = 0;
    root_node = 0;
    leaf_count = 1;
  };
  nodes = leaf_with 5 ∷ uninitialized ∷ [];
}

abbrev emptied : Slab
emptied = elim (remove one_leaf 0) [ none ↦ one_leaf | some r ↦ r.1 ]

removes : remove one_leaf 0 ≡ some (leaf_with 5, emptied)
unfolding remove get add64
removes = refl

insert-remove_example :
    (u : Slab) × (insert emptied (leaf_with 6) ≡ ok (some (0, u)))
    × (u.free_list_len ≡ 0)
    × (u.free_list_head ≡ 0)
    × (u.bump_index ≡ 1)
insert-remove_example =
    insert-remove one_leaf emptied 0 (leaf_with 5) (leaf_with 6) refl (omega arith) removes

-- Two leaves below an inner node: the keys 5 and 6 have 126 bits in common.
abbrev parent : InnerNode
parent = record { prefix_len = 126; key = 5; child_0 = 1; child_1 = 2 }

abbrev two_leaves : Slab
two_leaves = record {
  header = record {
    bump_index = 3;
    free_list_len = 0;
    free_list_head = 0;
    root_node = 0;
    leaf_count = 2;
  };
  nodes = inner_node parent ∷ leaf_with 5 ∷ leaf_with 6 ∷ uninitialized ∷ uninitialized ∷ [];
}

abbrev two_orders : List LeafNode
two_orders = order_with 5 ∷ order_with 6 ∷ []

no_others : (k : ℕ) → 3 ≤ k → get two_leaves k ≡ none
unfolding get
no_others zero h = absurd (omega arith)
no_others (suc zero) h = absurd (omega arith)
no_others (suc (suc zero)) h = absurd (omega arith)
no_others (suc (suc (suc zero))) h = refl
no_others (suc (suc (suc (suc zero)))) h = refl
no_others (suc (suc (suc (suc (suc k))))) h = refl

two_leaves-Holds : Holds two_leaves two_orders
unfolding get
two_leaves-Holds =
    holds_trie (Trie.fork 0 parent (tip 1 (order_with 5)) (tip 2 (order_with 6))) 3 refl
      (omega arith, omega arith, omega arith, refl, (omega arith, refl), (omega arith, refl))
      (refl, refl, refl, refl, refl) refl
      (record {
        counted = refl;
        within = omega arith;
        word = omega arith;
        unborn = no_others;
        free = tt;
      })
      refl refl

insert_leaf_lem_example :
    InsertSpec two_leaves (order_with 9) two_orders (insert_leaf two_leaves (order_with 9))
insert_leaf_lem_example =
    insert_leaf_lem two_leaves (order_with 9) two_orders two_leaves-Holds (omega arith)

remove_by_key_lem_example : RemoveSpec 5 two_orders (remove_by_key two_leaves 5)
remove_by_key_lem_example = remove_by_key_lem two_leaves 5 two_orders two_leaves-Holds

find_by_key_lem_example : FindSpec two_leaves 6 two_orders (find_by_key two_leaves 6)
find_by_key_lem_example = find_by_key_lem two_leaves 6 two_orders two_leaves-Holds (omega arith)

find_min_max_lem_example : EndSpec two_leaves true two_orders (find_min_max two_leaves true)
find_min_max_lem_example = find_min_max_lem two_leaves true two_orders two_leaves-Holds
