-- ===== src/Handlers/Balances.antt =====
-- What the cancels and the pruning of dex/src/state.rs leave of an open orders account and a market, over
-- all the orders that they take off the book.
use openbook_dex.Prelude.{ℕ, ◌+◌, ◌≤◌, ◌≡◌, refl, ◌⊎◌, List, [], ◌∷◌, arith, ◌==◌, get_elem?}
use openbook_dex.Error.{
  program_error, error_code, DexErrorCode, order_not_found, order_not_yours, client_id_not_found,
  ok_or, matching, DexResult, ok, err, panic,
}
use openbook_dex.Error.Post.{
  Post, returns, fails, panics, Post-imp, Post->>=, Post-eq, Post-unwrap, check_or-true,
  check_assert-true,
}
use openbook_dex.Types.{Side, bid, ask, Address}
use openbook_dex.Critbit.Node.{LeafNode}
use openbook_dex.Critbit.Walk.{find_by}
use openbook_dex.OpenOrders.{slot_side}
use openbook_dex.Matching.State.{Context, set_orders}
use openbook_dex.Matching.Post.{Same, Same-trans, push_event-Same, set_orders-Same}
use openbook_dex.Matching.Cancel
use openbook_dex.Matching.Cancel.{cancel_leaf_node, locked_by, holds_side, remove_all, remove_keys}
use openbook_dex.Matching.Cancel.Spec.{
  freed, free_of, total_of, unlock-Unlocked, cancel_order_v2_lem,
}
use openbook_dex.Handlers.Cancels.{
  CancelState, of_pair, ClientOrder, cancel_order_v2, or_continue, cancel_each, cancel_leaves,
  process_prune, process_cancel_orders_by_client_ids, orders_with_client_ids, chosen,
  find_client_order, process_cancel_order_by_client_id_v2,
}

-- A balance only grows, and not beyond the total.
abbrev pub Grows : ℕ → ℕ → ℕ → Type 0
Grows total before after = (before ≤ after) × ((after ≡ before) ⊎ (after ≤ total))

-- Nothing of the account but its free balances has changed, and those have grown; the market and the
-- proceeds are the same.
pub record IsKept (s t : CancelState) : Type 0 where
  pub only_free : t.open_orders ≡ record s.open_orders {
    native_coin_free = t.open_orders.native_coin_free;
    native_pc_free = t.open_orders.native_pc_free;
  }
  pub coin :
      Grows s.open_orders.native_coin_total s.open_orders.native_coin_free
        t.open_orders.native_coin_free
  pub pc :
      Grows s.open_orders.native_pc_total s.open_orders.native_pc_free t.open_orders.native_pc_free
  pub market : t.context.market_state ≡ s.context.market_state
  pub proceeds : t.context.proceeds ≡ s.context.proceeds

IsKept-refl : (s : CancelState) → IsKept s s
IsKept-refl s = ground arith

IsKept-trans : (s t u : CancelState) → IsKept s t → IsKept t u → IsKept s u
IsKept-trans s t u a b = ground arith

freed-IsKept :
    (side : Side) (s t : CancelState) (n : ℕ)
    → t.open_orders ≡ freed side s.open_orders n
    → free_of side s.open_orders + n ≤ total_of side s.open_orders
    → Same s.context t.context
    → IsKept s t
freed-IsKept bid s t n e h same = ground arith
freed-IsKept ask s t n e h same = ground arith

pub cancel_order_v2-IsKept :
    (side : Side) (address : Address) (order_id : ℕ) (s : CancelState)
    → Post (IsKept s) (cancel_order_v2 side address order_id s)
unfolding cancel_order_v2
cancel_order_v2-IsKept side address order_id s =
    Post->>= (Post-eq (Cancel.cancel_order_v2 s.context side address s.open_orders order_id)) λ p e.
      let spec = cancel_order_v2_lem s.context p.1 side address s.open_orders p.0 order_id e in
      let taken = set_orders-Same s.context side spec.slab in
      returns (
        freed-IsKept side s (of_pair p) spec.amount spec.released spec.within
          (Same-trans s.context (set_orders s.context side spec.slab) p.1 taken spec.same))

-- Whatever the code is, the loop goes on with the state as it was, or fails.
passed_over :
    (s : CancelState) (c : DexErrorCode) → Post (IsKept s) (or_continue s (err (error_code c)))
passed_over s order_not_found = returns (IsKept-refl s)
passed_over s _ = fails

or_continue-IsKept :
    (s : CancelState) (r : DexResult CancelState)
    → Post (IsKept s) r
    → Post (IsKept s) (or_continue s r)
or_continue-IsKept s (ok t) p = p
or_continue-IsKept s (err (program_error n)) p = fails
or_continue-IsKept s (err (error_code c)) p = passed_over s c
or_continue-IsKept s panic p = panics

cancel_each-IsKept :
    (address : Address) (es : List ClientOrder) (s : CancelState)
    → Post (IsKept s) (cancel_each address es s)
unfolding cancel_each
cancel_each-IsKept address [] s = returns (IsKept-refl s)
cancel_each-IsKept address (e ∷ es) s =
    Post->>=
      (or_continue-IsKept s (cancel_order_v2 e.side address e.order_id s)
        (cancel_order_v2-IsKept e.side address e.order_id s))
      λ t k. Post-imp (cancel_each-IsKept address es t) λ u k'. IsKept-trans s t u k k'

cancel_leaf_node-IsKept :
    (l : LeafNode) (side : Side) (address : Address) (order_id : ℕ) (s : CancelState)
    → Post
        (λ p. IsKept s (of_pair p))
        (cancel_leaf_node s.context l side s.open_orders address order_id)
unfolding cancel_leaf_node
cancel_leaf_node-IsKept l side address order_id s =
    Post->>= (check_or-true (l.owner == address) order_not_yours) λ _ _.
      Post->>= (Post-unwrap (get_elem? s.open_orders.orders l.owner_slot)) λ held _.
        Post->>= (check_assert-true matching 965 (order_id == held)) λ _ _.
          Post->>=
            (check_assert-true matching 966
              (holds_side side (slot_side s.open_orders l.owner_slot)))
            λ _ _. Post->>= (Post-eq (locked_by s.context side l)) λ amount _.
              Post->>= (unlock-Unlocked side s.open_orders amount) λ o' u.
                Post->>= (push_event-Same s.context _)
                  λ d same. returns (freed-IsKept side s (of_pair (o', d)) amount u.0 u.1 same)

cancel_leaves-IsKept :
    (side : Side) (address : Address) (ls : List LeafNode) (s : CancelState)
    → Post (IsKept s) (cancel_leaves side address ls s)
unfolding cancel_leaves
cancel_leaves-IsKept side address [] s = returns (IsKept-refl s)
cancel_leaves-IsKept side address (l ∷ ls) s =
    Post->>= (Post-unwrap (get_elem? s.open_orders.orders l.owner_slot)) λ order_id _.
      Post->>= (cancel_leaf_node-IsKept l side address order_id s) λ p k.
        Post-imp (cancel_leaves-IsKept side address ls (of_pair p))
          λ u k'. IsKept-trans s (of_pair p) u k k'

-- Taking orders off the book touches neither the market nor the proceeds.
remove_all-Same :
    (c : Context) (address : Address) (limit : ℕ)
    → Post (λ r. Same c r.2) (remove_all c address limit)
unfolding remove_all
remove_all-Same c address limit = Post->>= (Post-eq (find_by c.asks limit _)) λ asks _.
    Post->>= (Post-eq (find_by c.bids asks.1 _)) λ bids _.
      Post->>= (Post-eq (remove_keys c.bids bids.0)) λ bids_removed _.
        Post->>= (Post-eq (remove_keys c.asks asks.0))
          λ asks_removed _. returns (record { proceeds = refl; market_state = refl })

with_context-IsKept :
    (s : CancelState) (d : Context) → Same s.context d → IsKept s (record s { context = d })
with_context-IsKept s d same = ground arith

pub process_prune-Post :
    (limit : ℕ) (address : Address) (s : CancelState)
    → Post (IsKept s) (process_prune limit address s)
unfolding process_prune
process_prune-Post limit address s = Post->>= (remove_all-Same s.context address limit) λ r same.
    let s₁ = record s { context = r.2 } in
    let k = with_context-IsKept s r.2 same in
    Post->>= (cancel_leaves-IsKept bid address r.0 s₁) λ t k₁.
      Post-imp (cancel_leaves-IsKept ask address r.1 t)
        λ u k₂. IsKept-trans s t u (IsKept-trans s s₁ t k k₁) k₂

pub process_cancels-Post :
    (ids : List ℕ) (address : Address) (s : CancelState)
    → Post (IsKept s) (process_cancel_orders_by_client_ids ids address s)
unfolding process_cancel_orders_by_client_ids
process_cancels-Post ids address s =
    Post->>= (Post-eq (orders_with_client_ids s.open_orders))
      λ es _. cancel_each-IsKept address (chosen ids es) s

pub process_cancel-Post :
    (id : ℕ) (address : Address) (s : CancelState)
    → Post (IsKept s) (process_cancel_order_by_client_id_v2 id address s)
unfolding process_cancel_order_by_client_id_v2
process_cancel-Post id address s = Post->>= (Post-eq (find_client_order s.open_orders id _)) λ r _.
    Post->>= (Post-eq (ok_or r client_id_not_found))
      λ e _. cancel_order_v2-IsKept e.side address e.order_id s
