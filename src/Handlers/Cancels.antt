-- ===== src/Handlers/Cancels.antt =====
-- The cancels of dex/src/state.rs and `process_prune`, from their accounts on. The handlers change the
-- open orders, the book and the event queue in place; here they return them.
use openbook_dex.Prelude.{
  ℕ, ◌+◌, Bool, true, false, not, ◌||◌, List, [], ◌∷◌, Option, none, some, leb, ◌==◌, if◌then◌else◌,
  get_elem?,
}
use openbook_dex.Error.{
  error_code, DexResult, ok, err, panic, ◌>>=◌, ◌>>◌, unwrap, ok_or, check_assert, state,
  order_not_found, client_id_not_found,
}
use openbook_dex.Types.{Side, bid, ask, Address, non_zero}
use openbook_dex.Queue.{Queue, EventQueueHeader}
use openbook_dex.Event.{Event}
use openbook_dex.Critbit.Node.{LeafNode}
use openbook_dex.OpenOrders.{OpenOrders, slot_side, iter_filled_slots}
use openbook_dex.Instruction.{CancelOrderInstructionV2}
use openbook_dex.Market.Versions.{
  AccountInfo, MarketStateV2, Market, market_state, prune_authority, load_market,
}
use openbook_dex.Market.Loads.{
  BookAccount, key_eq, load_orders_mut, load_bids_mut, load_asks_mut, load_event_queue_mut,
}
use openbook_dex.Matching.State.{Context, no_proceeds}
use openbook_dex.Matching.Cancel
use openbook_dex.Matching.Cancel.{cancel_leaf_node, remove_all}
use openbook_dex.Handlers.Accounts.{KeyAccount, or_unreachable, signer_account}

-- What a cancel works on.
pub record CancelState : Type 0 where
  pub open_orders : OpenOrders
  pub context : Context

abbrev pub of_pair : OpenOrders × Context → CancelState
of_pair p = record { open_orders = p.0; context = p.1 }

unfoldable pub cancel_order_v2 : Side → Address → ℕ → CancelState → DexResult CancelState
cancel_order_v2 side address order_id s =
    Cancel.cancel_order_v2 s.context side address s.open_orders order_id >>= λ p. ok (of_pair p)

unfoldable pub process_cancel_order_v2 :
    CancelOrderInstructionV2 → Address → CancelState → DexResult CancelState
unfolding cancel_order_v2
process_cancel_order_v2 i address s = cancel_order_v2 i.side address i.order_id s

-- An order with the client id that its owner gave it.
pub record ClientOrder : Type 0 where
  pub client_order_id : ℕ
  pub order_id : ℕ
  pub side : Side

-- What `orders_with_client_ids` makes of a slot.
unfoldable pub client_order_at : OpenOrders → ℕ → DexResult (Option ClientOrder)
client_order_at o slot = unwrap (get_elem? o.client_order_ids slot) >>= λ id. elim (non_zero id) [
  | none ↦ ok none
  | some client_order_id ↦ unwrap (get_elem? o.orders slot) >>= λ order_id.
      unwrap (slot_side o slot) >>= λ side.
      ok (some (record { client_order_id = client_order_id; order_id = order_id; side = side }))
]

unfoldable pub client_orders_at : OpenOrders → List ℕ → DexResult (List ClientOrder)
unfolding client_order_at
client_orders_at o [] = ok []
client_orders_at o (slot ∷ slots) = client_order_at o slot >>= λ r.
    client_orders_at o slots >>= λ rest. ok (elim r [ none ↦ rest | some e ↦ e ∷ rest ])

unfoldable pub orders_with_client_ids : OpenOrders → DexResult (List ClientOrder)
unfolding client_orders_at
orders_with_client_ids o = client_orders_at o (iter_filled_slots o)

-- `find` on the iterator, which goes no further than the order found.
unfoldable pub find_client_order : OpenOrders → ℕ → List ℕ → DexResult (Option ClientOrder)
unfolding client_order_at
find_client_order o id [] = ok none
find_client_order o id (slot ∷ slots) =
    let rest = find_client_order o id slots in
    client_order_at o slot >>= λ r. elim r [
      | none ↦ rest
      | some e ↦ if id == e.client_order_id then ok (some e) else rest
    ]

unfoldable pub process_cancel_order_by_client_id_v2 :
    ℕ → Address → CancelState → DexResult CancelState
unfolding find_client_order cancel_order_v2
process_cancel_order_by_client_id_v2 client_order_id address s =
    find_client_order s.open_orders client_order_id (iter_filled_slots s.open_orders) >>= λ r.
    ok_or r client_id_not_found >>= λ e. cancel_order_v2 e.side address e.order_id s

unfoldable pub is_member : ℕ → List ℕ → Bool
is_member n [] = false
is_member n (m ∷ ms) = n == m || is_member n ms

unfoldable pub chosen : List ℕ → List ClientOrder → List ClientOrder
unfolding is_member
chosen ids [] = []
chosen ids (e ∷ es) =
    let rest = chosen ids es in if is_member e.client_order_id ids then e ∷ rest else rest

-- After one cancel of the loop: an order that is not in the book is passed over, and nothing has been
-- changed then; any other error ends the loop.
abbrev pub or_continue : CancelState → DexResult CancelState → DexResult CancelState
or_continue s (ok t) = ok t
or_continue s (err (error_code order_not_found)) = ok s
or_continue s (err e) = err e
or_continue s panic = panic

unfoldable pub cancel_each : Address → List ClientOrder → CancelState → DexResult CancelState
unfolding cancel_order_v2
cancel_each address [] s = ok s
cancel_each address (e ∷ es) s =
    or_continue s (cancel_order_v2 e.side address e.order_id s) >>= λ t. cancel_each address es t

unfoldable pub process_cancel_orders_by_client_ids :
    List ℕ → Address → CancelState → DexResult CancelState
unfolding orders_with_client_ids chosen cancel_each
process_cancel_orders_by_client_ids client_order_ids address s =
    orders_with_client_ids s.open_orders >>= λ es.
    cancel_each address (chosen client_order_ids es) s

-- The orders that a pruning took off the book, canceled one by one.
unfoldable pub cancel_leaves : Side → Address → List LeafNode → CancelState → DexResult CancelState
cancel_leaves side address [] s = ok s
cancel_leaves side address (l ∷ ls) s =
    unwrap (get_elem? s.open_orders.orders l.owner_slot) >>= λ order_id.
    cancel_leaf_node s.context l side s.open_orders address order_id >>= λ p.
    cancel_leaves side address ls (of_pair p)

unfoldable pub process_prune : ℕ → Address → CancelState → DexResult CancelState
unfolding cancel_leaves
process_prune limit address s = remove_all s.context address limit >>= λ r.
    cancel_leaves bid address r.0 (record s { context = r.2 }) >>= λ t.
    cancel_leaves ask address r.1 t

-- The accounts of a cancel.
pub record CancelAccounts : Type 0 where
  pub count : ℕ
  pub market : AccountInfo MarketStateV2
  pub bids : AccountInfo BookAccount
  pub asks : AccountInfo BookAccount
  pub open_orders : AccountInfo OpenOrders
  pub open_orders_signer : KeyAccount
  pub event_q : AccountInfo (Queue EventQueueHeader Event)

-- The order book and the event queue of a market.
unfoldable pub load_context :
    Market
    → ℕ
    → AccountInfo BookAccount
    → AccountInfo BookAccount
    → AccountInfo (Queue EventQueueHeader Event)
    → DexResult Context
load_context market line bids asks event_q =
    let m = market_state market in
    or_unreachable line (load_bids_mut m bids) >>= λ b.
    or_unreachable (line + 1) (load_asks_mut m asks) >>= λ a.
    load_event_queue_mut m event_q >>= λ q.
    ok (record { bids = b; asks = a; market_state = m; event_q = q; proceeds = no_proceeds })

-- What the three `with_parsed_args` of the cancels have in common, from the line of their
-- `Market::load` on.
unfoldable pub parse_cancel : Address → ℕ → CancelAccounts → DexResult CancelState
unfolding load_context signer_account
parse_cancel program_id line a =
    or_unreachable line (load_market a.market program_id true) >>= λ market.
    signer_account a.open_orders_signer
    >> (load_orders_mut market a.open_orders (some a.open_orders_signer.key) program_id none none
        >>= λ o. load_context market (line + 12) a.bids a.asks a.event_q >>= λ c.
            ok (record { open_orders = o; context = c }))

unfoldable pub cancel_order_v2_instruction :
    Address → CancelOrderInstructionV2 → CancelAccounts → DexResult CancelState
unfolding parse_cancel process_cancel_order_v2
cancel_order_v2_instruction program_id i a =
    check_assert state 2277 (leb 6 a.count)
    >> (parse_cancel program_id 2288 a >>= λ s. process_cancel_order_v2 i a.open_orders.key s)

unfoldable pub cancel_order_by_client_id_v2_instruction :
    Address → ℕ → CancelAccounts → DexResult CancelState
unfolding parse_cancel process_cancel_order_by_client_id_v2
cancel_order_by_client_id_v2_instruction program_id client_order_id a =
    check_assert state 2338 (leb 6 a.count)
    >> (check_assert state 2349 (not (client_order_id == 0))
        >> (parse_cancel program_id 2351 a >>= λ s.
            process_cancel_order_by_client_id_v2 client_order_id a.open_orders.key s))

-- `filter_map(NonZeroU64::new)`.
unfoldable pub non_zeros : List ℕ → List ℕ
non_zeros [] = []
non_zeros (n ∷ ns) = let rest = non_zeros ns in if n == 0 then rest else n ∷ rest

unfoldable pub cancel_orders_by_client_ids_instruction :
    Address → List ℕ → CancelAccounts → DexResult CancelState
unfolding parse_cancel process_cancel_orders_by_client_ids non_zeros
cancel_orders_by_client_ids_instruction program_id client_order_ids a =
    check_assert state 2401 (leb 6 a.count)
    >> (parse_cancel program_id 2418 a >>= λ s.
        process_cancel_orders_by_client_ids (non_zeros client_order_ids) a.open_orders.key s)

pub record PruneAccounts : Type 0 where
  pub count : ℕ
  pub market : AccountInfo MarketStateV2
  pub bids : AccountInfo BookAccount
  pub asks : AccountInfo BookAccount
  pub prune_authority : KeyAccount
  pub open_orders : AccountInfo OpenOrders
  pub open_orders_owner : KeyAccount
  pub event_q : AccountInfo (Queue EventQueueHeader Event)

unfoldable pub prune_instruction : Address → ℕ → PruneAccounts → DexResult CancelState
unfolding load_context process_prune signer_account
prune_instruction program_id limit a =
    check_assert state 2717 (a.count == 7)
    >> (signer_account a.prune_authority
        >> (load_market a.market program_id false >>= λ market.
            check_assert state 2731 (key_eq (prune_authority market) (some a.prune_authority.key))
            >> (load_orders_mut market a.open_orders (some a.open_orders_owner.key) program_id none
                  none
                >>= λ o. load_context market 2740 a.bids a.asks a.event_q >>= λ c.
                    process_prune limit a.open_orders.key
                      (record { open_orders = o; context = c }))))

-- The arms of `State::process` that cancel.
pub data CancelRequest : Type 0 where
  by_order_id : CancelOrderInstructionV2 → CancelRequest
  by_client_id : ℕ → CancelRequest
  by_client_ids : List ℕ → CancelRequest

unfoldable pub cancel_request : Address → CancelRequest → CancelAccounts → DexResult CancelState
unfolding cancel_order_v2_instruction cancel_order_by_client_id_v2_instruction
    cancel_orders_by_client_ids_instruction
cancel_request program_id (by_order_id i) a = cancel_order_v2_instruction program_id i a
cancel_request program_id (by_client_id id) a =
    cancel_order_by_client_id_v2_instruction program_id id a
cancel_request program_id (by_client_ids ids) a =
    cancel_orders_by_client_ids_instruction program_id ids a
