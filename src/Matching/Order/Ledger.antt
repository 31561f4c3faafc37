-- ===== src/Matching/Order/Ledger.antt =====
-- What a whole order does to the market: the rounds of `new_order` in dex/src/matching.rs together, and
-- the request that it is.
use openbook_dex.Prelude.{ℕ, zero, suc, not, Option, none, some}
use openbook_dex.Error.{ok, assert, unwrap, ◌>>=◌, ◌>>◌}
use openbook_dex.Types.{bid, ask, non_zero}
use openbook_dex.Matching.State.{
  Context, NewOrderParams, OrderRemaining, extract_price_from_order_id,
}
use openbook_dex.Matching.Post.{Post, returns, Post->>=, Post-imp, Post-eq, Post-unwrap}
use openbook_dex.Matching.Ledger.{IsBalanced, IsBalanced-trans}
use openbook_dex.Matching.Ask.{new_ask}
use openbook_dex.Matching.Ask.Ledger.{new_ask-IsBalanced}
use openbook_dex.Matching.Bid.{new_bid, is_some}
use openbook_dex.Matching.Bid.Ledger.{new_bid-IsBalanced}
use openbook_dex.Matching.Order.{match_round, match_rounds, new_order, bid_params, ask_params}

abbrev Round-IsBalanced : Context → Option OrderRemaining × Context → Type 0
Round-IsBalanced c r = IsBalanced c.market_state (r.1).market_state

match_round-IsBalanced :
    (p : NewOrderParams) (cycles max_coin_qty : ℕ) (pc : Option ℕ) (c : Context)
    → Post (Round-IsBalanced c) (match_round p cycles max_coin_qty pc c)
unfolding match_round
match_round-IsBalanced p cycles max_coin_qty pc c =
    elim p.side
      as (λ s. Post (Round-IsBalanced c) (elim s [
        | bid ↦ unwrap pc >>= λ locked. new_bid (bid_params p cycles max_coin_qty locked) c
        | ask ↦
            assert (not (is_some pc))
            >> (unwrap (non_zero (extract_price_from_order_id p.order_id)) >>= λ limit_price.
                new_ask (ask_params p cycles max_coin_qty limit_price) c)
      ])) [
        | bid ↦
            Post->>= (Post-unwrap pc)
              λ locked _. new_bid-IsBalanced (bid_params p cycles max_coin_qty locked) c
        | ask ↦ Post->>= (Post-eq (assert (not (is_some pc)))) λ _ _.
            Post->>= (Post-unwrap (non_zero (extract_price_from_order_id p.order_id)))
              λ limit_price _. new_ask-IsBalanced (ask_params p cycles max_coin_qty limit_price) c
      ]

-- The same with the limit that is left.
abbrev pub Rounds-IsBalanced : Context → Option OrderRemaining × ℕ × Context → Type 0
Rounds-IsBalanced c r = IsBalanced c.market_state (r.2).market_state

match_rounds-IsBalanced :
    (p : NewOrderParams) (cycles max_coin_qty : ℕ) (pc : Option ℕ) (c : Context)
    → Post (Rounds-IsBalanced c) (match_rounds p cycles max_coin_qty pc c)
unfolding match_rounds
match_rounds-IsBalanced p zero max_coin_qty pc c =
    Post->>= (match_round-IsBalanced p 0 max_coin_qty pc c) λ r e. returns e
match_rounds-IsBalanced p (suc cycles) max_coin_qty pc c =
    Post->>= (match_round-IsBalanced p (suc cycles) max_coin_qty pc c) λ r b.
      elim r.0
        as (λ o. Post (Rounds-IsBalanced c) (elim o [
          | none ↦ ok (none, cycles, r.1)
          | some q ↦ match_rounds p cycles q.coin_qty_remaining q.native_pc_qty_remaining r.1
        ])) [
          | none ↦ returns b
          | some q ↦
              Post-imp
                (match_rounds-IsBalanced p cycles q.coin_qty_remaining q.native_pc_qty_remaining
                  r.1)
                λ t d. IsBalanced-trans _ (r.1).market_state _ b d
        ]

pub new_order-IsBalanced :
    (p : NewOrderParams) (cycles : ℕ) (c : Context)
    → Post (Rounds-IsBalanced c) (new_order p cycles c)
unfolding new_order
new_order-IsBalanced p cycles c =
    match_rounds-IsBalanced p cycles p.max_coin_qty p.native_pc_qty_locked c
