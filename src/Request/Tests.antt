-- ===== src/Request/Tests.antt =====
-- A cancel and two ids of dex/src/state.rs.
use openbook_dex.Prelude.{◌<◌, ◌≡◌, ◌↔◌, [], none, some, arith}
use openbook_dex.Error.{ok}
use openbook_dex.Fees.{stable}
use openbook_dex.Types.{bid, ask, post_only, cancel_provide}
use openbook_dex.Request.{RequestView, RequestQueue, new_order, of_view, as_view, gen_order_id}
use openbook_dex.Request.RoundTrip.{as_view-of_view_request}
use openbook_dex.Request.Ids.{gen_order_id-priority}

abbrev posting : RequestView
posting = new_order (record {
  side = bid;
  order_type = post_only;
  owner_slot = 4;
  fee_tier = stable;
  order_id = 99;
  max_coin_qty = 3;
  native_pc_qty_locked = some 1000;
  owner = 7;
  client_order_id = none;
  self_trade_behavior = cancel_provide;
})

as_view-of_view_request_example : as_view (of_view posting) ≡ ok posting
as_view-of_view_request_example = as_view-of_view_request posting ((λ e. cc), (λ e. cc), (λ e. cc))

abbrev queue_at_5 : RequestQueue
queue_at_5 = record {
  header = record { account_flags = 9; head = 0; count = 0; next_seq_num = 5 };
  buf = [];
}

abbrev queue_at_6 : RequestQueue
queue_at_6 = record {
  header = record { account_flags = 9; head = 0; count = 0; next_seq_num = 6 };
  buf = [];
}

gen_order_id-priority_example :
    (((gen_order_id queue_at_5 250 bid).0 < (gen_order_id queue_at_6 251 bid).0) ↔ (250 < 251))
    × (((gen_order_id queue_at_6 251 ask).0 < (gen_order_id queue_at_5 250 ask).0) ↔ (251 < 250))
gen_order_id-priority_example =
    gen_order_id-priority queue_at_5 queue_at_6 250 251 (omega arith) (omega arith) (omega arith)
      (omega arith)
