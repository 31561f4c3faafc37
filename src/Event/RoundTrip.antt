-- ===== src/Event/RoundTrip.antt =====
-- What `Event::new` of dex/src/state.rs stores, `as_view` reads back.
use openbook_dex.Prelude.{◌≡◌, Bool, true, false}
use openbook_dex.Error.{ok}
use openbook_dex.Fees.{tier_from_u8-to_u8}
use openbook_dex.Types.{Side, bid, ask, IsNonZero, non_zero-get_or_zero}
use openbook_dex.Event.{EventView, Fill, Out, fill, out, of_view, as_view}

-- The client order id of a view is a `NonZeroU64` where it is given.
abbrev pub IsView : EventView → Type 0
IsView (fill v) = IsNonZero v.client_order_id
IsView (out v) = IsNonZero v.client_order_id

-- For each side and each flag the bits are concrete.
fill_round :
    (s : Side) (m : Bool) (v : Fill)
    → IsNonZero v.client_order_id
    → let w = record v { side = s; maker = m } in as_view (of_view (fill w)) ≡ ok (fill w)
unfolding of_view as_view
fill_round bid true v h =
    rw (tier_from_u8-to_u8 v.fee_tier, non_zero-get_or_zero v.client_order_id h)
fill_round bid false v h =
    rw (tier_from_u8-to_u8 v.fee_tier, non_zero-get_or_zero v.client_order_id h)
fill_round ask true v h =
    rw (tier_from_u8-to_u8 v.fee_tier, non_zero-get_or_zero v.client_order_id h)
fill_round ask false v h =
    rw (tier_from_u8-to_u8 v.fee_tier, non_zero-get_or_zero v.client_order_id h)

out_round :
    (s : Side) (r : Bool) (v : Out)
    → IsNonZero v.client_order_id
    → let w = record v { side = s; release_funds = r } in as_view (of_view (out w)) ≡ ok (out w)
unfolding of_view as_view
out_round bid true v h = rw (non_zero-get_or_zero v.client_order_id h)
out_round bid false v h = rw (non_zero-get_or_zero v.client_order_id h)
out_round ask true v h = rw (non_zero-get_or_zero v.client_order_id h)
out_round ask false v h = rw (non_zero-get_or_zero v.client_order_id h)

-- Reading a stored event gives back the view that it was made from, for every fill and every out
-- whose client order id is a `NonZeroU64` where it is given.
pub as_view-of_view : (v : EventView) → IsView v → as_view (of_view v) ≡ ok v
as_view-of_view (fill v) h = fill_round v.side v.maker v h
as_view-of_view (out v) h = out_round v.side v.release_funds v h
