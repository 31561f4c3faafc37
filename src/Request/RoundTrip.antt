-- ===== src/Request/RoundTrip.antt =====
-- What `Request::new` of dex/src/state.rs stores, `as_view` reads back.
use openbook_dex.Prelude.{ℕ, ◌≡◌, ◌≢◌, some, arith}
use openbook_dex.Error.{ok}
use openbook_dex.Fees.{tier_from_u8-to_u8}
use openbook_dex.Types.{
  Side, bid, ask, OrderType, behavior_from_u8-to_u8, non_zero, IsNonZero, non_zero-get_or_zero,
}
use openbook_dex.Request.{
  NewOrder, CancelOrder, RequestView, new_order, cancel_order, of_view, as_view,
}

-- The quantities of a view are `NonZeroU64` where they are given.
abbrev pub IsView : RequestView → Type 0
IsView (new_order v) =
    (v.max_coin_qty ≢ 0) × IsNonZero v.native_pc_qty_locked × IsNonZero v.client_order_id
IsView (cancel_order v) = IsNonZero v.client_order_id

non_zero-eq : (n : ℕ) → n ≢ 0 → non_zero n ≡ some n
non_zero-eq n h = ground arith

-- For each side and each type of order the bits are concrete.
new_order_round :
    (s : Side) (t : OrderType) (v : NewOrder)
    → IsView (new_order v)
    → let w = record v { side = s; order_type = t } in
      as_view (of_view (new_order w)) ≡ ok (new_order w)
unfolding of_view as_view
new_order_round s t v (h, h', h'') = ground (
  arith,
  tier_from_u8-to_u8 v.fee_tier,
  behavior_from_u8-to_u8 v.self_trade_behavior,
  non_zero-eq v.max_coin_qty h,
  non_zero-get_or_zero v.native_pc_qty_locked h',
  non_zero-get_or_zero v.client_order_id h'',
)

cancel_order_round :
    (s : Side) (v : CancelOrder)
    → IsView (cancel_order v)
    → let w = record v { side = s } in as_view (of_view (cancel_order w)) ≡ ok (cancel_order w)
unfolding of_view as_view
cancel_order_round bid v h = rw (non_zero-get_or_zero v.client_order_id h)
cancel_order_round ask v h = rw (non_zero-get_or_zero v.client_order_id h)

-- Reading a stored request gives back the view that it was made from, for every new order and every
-- cancel whose quantities are not zero where they are given.
pub as_view-of_view_request : (v : RequestView) → IsView v → as_view (of_view v) ≡ ok v
as_view-of_view_request (new_order v) h = new_order_round v.side v.order_type v h
as_view-of_view_request (cancel_order v) h = cancel_order_round v.side v h
