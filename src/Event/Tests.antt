-- ===== src/Event/Tests.antt =====
-- A stored fill of dex/src/state.rs, read back.
use openbook_dex.Prelude.{◌≡◌, true, some}
use openbook_dex.Error.{ok}
use openbook_dex.Fees.{srm4}
use openbook_dex.Types.{bid}
use openbook_dex.Event.{EventView, fill, of_view, as_view}
use openbook_dex.Event.RoundTrip.{as_view-of_view}

abbrev maker_fill : EventView
maker_fill = fill (record {
  side = bid;
  maker = true;
  native_qty_paid = 400;
  native_qty_received = 20;
  native_fee_or_rebate = 1;
  order_id = 77;
  owner = 9;
  owner_slot = 5;
  fee_tier = srm4;
  client_order_id = some 12;
})

as_view-of_view_example : as_view (of_view maker_fill) ≡ ok maker_fill
as_view-of_view_example = as_view-of_view maker_fill (λ e. cc)
