-- ===== src/Matching/Sample.antt =====
-- What the tests of the matching engine start from: a book with one order, of four lots at 100 by the
-- owner 7, a market and an event queue of dex/src/state.rs with room for four events.
use openbook_dex.Prelude.{ℕ, zero, suc, ◌+◌, ◌*◌, ◌^◌, ◌≤◌, ◌≡◌, refl, [], ◌∷◌, none, arith}
use openbook_dex.Event.{Event}
use openbook_dex.Critbit.Node.{LeafNode, leaf_node}
use openbook_dex.Critbit.Alloc.{Slab, get}
use openbook_dex.Critbit.Book.{holds_trie}
use openbook_dex.Critbit.Trie.{tip}
use openbook_dex.Critbit.Ends.{unused_slab, unused_slab-Holds}
use openbook_dex.Market.{MarketState}
use openbook_dex.Matching.State.{Context, EventQueue, no_proceeds}
use openbook_dex.Matching.Book.{HasBook}

abbrev pub resting : LeafNode
resting = record {
  owner_slot = 3;
  fee_tier = 0;
  key = 100 * 2 ^ 64 + 5;
  owner = 7;
  quantity = 4;
  client_order_id = 0;
}

abbrev pub one_order : Slab
one_order = record {
  header = record {
    bump_index = 1;
    free_list_len = 0;
    free_list_head = 0;
    root_node = 0;
    leaf_count = 1;
  };
  nodes = leaf_node resting ∷ [];
}

abbrev pub no_order : Slab
no_order = unused_slab 1

abbrev pub no_event : Event
no_event = record {
  event_flags = 0;
  owner_slot = 0;
  fee_tier = 0;
  native_qty_released = 0;
  native_qty_paid = 0;
  native_fee_or_rebate = 0;
  order_id = 0;
  owner = 0;
  client_order_id = 0;
}

abbrev pub market : MarketState
market = record {
  account_flags = 3;
  own_address = 1;
  vault_signer_nonce = 0;
  coin_mint = 2;
  pc_mint = 3;
  coin_vault = 4;
  coin_deposits_total = 1000;
  coin_fees_accrued = 0;
  pc_vault = 5;
  pc_deposits_total = 100000;
  pc_fees_accrued = 0;
  pc_dust_threshold = 1;
  req_q = 6;
  event_q = 8;
  bids = 9;
  asks = 10;
  coin_lot_size = 10;
  pc_lot_size = 50;
  fee_rate_bps = 0;
  referrer_rebates_accrued = 0;
}

abbrev pub no_events : EventQueue
no_events = record {
  header = record { account_flags = 17; head = 0; count = 0; seq_num = 0 };
  buf = no_event ∷ no_event ∷ no_event ∷ no_event ∷ [];
}

abbrev pub with_offer : Context
with_offer = record {
  bids = no_order;
  asks = one_order;
  market_state = market;
  event_q = no_events;
  proceeds = no_proceeds;
}

abbrev pub with_bid : Context
with_bid = record {
  bids = one_order;
  asks = no_order;
  market_state = market;
  event_q = no_events;
  proceeds = no_proceeds;
}

pub with_offer-HasBook : HasBook with_offer
unfolding get
with_offer-HasBook = record {
  buys = [];
  sells = resting ∷ [];
  holds_bids = unused_slab-Holds 1;
  holds_asks =
      holds_trie (tip 0 resting) 1 refl (omega arith, refl) refl refl
        (record {
          counted = refl;
          within = omega arith;
          word = omega arith;
          unborn = λ k h. nothing_else k h;
          free = tt;
        })
        refl refl;
  uncrossed = tt;
}
  where
    nothing_else : (k : ℕ) → 1 ≤ k → get one_order k ≡ none
    nothing_else zero h = absurd (omega arith)
    nothing_else (suc k) h = refl
