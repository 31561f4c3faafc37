-- ===== src/Matching/Cancel/Ledger.antt =====
-- What a request for a new order (`process_orderbook_request` of dex/src/matching.rs) does to the market.
use openbook_dex.Prelude.{ℕ, Option, none, some}
use openbook_dex.Error.{ok}
use openbook_dex.Request.{NewOrder, RequestView, new_order}
use openbook_dex.Matching.State.{Context}
use openbook_dex.Matching.Post.{Post, returns, Post->>=}
use openbook_dex.Matching.Ledger.{IsBalanced}
use openbook_dex.Matching.Order.Ledger.{new_order-IsBalanced}
use openbook_dex.Matching.Cancel.{process_orderbook_request}

abbrev Answer-IsBalanced : Context → Option RequestView × ℕ × Context → Type 0
Answer-IsBalanced c r = IsBalanced c.market_state (r.2).market_state

pub process_orderbook_request-IsBalanced :
    (c : Context) (v : NewOrder) (limit : ℕ)
    → Post (Answer-IsBalanced c) (process_orderbook_request c (new_order v) limit)
unfolding process_orderbook_request
process_orderbook_request-IsBalanced c v limit = Post->>= (new_order-IsBalanced _ limit c) λ r b.
    elim r.0
      as (λ o. Post (Answer-IsBalanced c) (elim o [
        | none ↦ ok (none, r.1, r.2)
        | some remaining ↦ ok (
          some (
              new_order (record v {
                max_coin_qty = remaining.coin_qty_remaining;
                native_pc_qty_locked = remaining.native_pc_qty_remaining;
              })),
          r.1,
          r.2,
        )
      ])) [ none ↦ returns b | some q ↦ returns b ]
