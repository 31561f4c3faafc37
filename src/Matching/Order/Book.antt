-- ===== src/Matching/Order/Book.antt =====
-- The two sides of the book over all the rounds of `new_order` of dex/src/matching.rs.
use openbook_dex.Prelude.{ℕ, zero, suc, ◌<◌, sym, not, Option, none, some, u128_mod}
use openbook_dex.Error.{ok, assert, unwrap, ◌>>=◌, ◌>>◌}
use openbook_dex.Types.{bid, ask, non_zero}
use openbook_dex.Matching.State.{
  Context, NewOrderParams, OrderRemaining, extract_price_from_order_id,
}
use openbook_dex.Matching.Post.{Post, returns, Post->>=, Post-eq, Post-unwrap}
use openbook_dex.Matching.Book.{HasBook}
use openbook_dex.Matching.Best.{non_zero-some}
use openbook_dex.Matching.Ask.{new_ask}
use openbook_dex.Matching.Ask.Book.{new_ask-HasBook}
use openbook_dex.Matching.Bid.{new_bid, is_some}
use openbook_dex.Matching.Bid.Book.{new_bid-HasBook}
use openbook_dex.Matching.Order.{match_round, match_rounds, new_order, bid_params, ask_params}

abbrev BookAfter : Option OrderRemaining × ℕ × Context → Type 0
BookAfter r = HasBook r.2

module _ (p : NewOrderParams) (word : p.order_id < u128_mod) where
  match_round-HasBook :
      (cycles max_coin_qty : ℕ) (pc : Option ℕ) (c : Context)
      → HasBook c
      → Post (λ r. HasBook r.1) (match_round p cycles max_coin_qty pc c)
  unfolding match_round
  match_round-HasBook cycles max_coin_qty pc c book =
      let limit = extract_price_from_order_id p.order_id in
      elim p.side
        as (λ s.
          Post (λ r. HasBook r.1)
            (elim s [
              | bid ↦ unwrap pc >>= λ locked. new_bid (bid_params p cycles max_coin_qty locked) c
              | ask ↦
                  assert (not (is_some pc))
                  >> (unwrap (non_zero (extract_price_from_order_id p.order_id)) >>= λ limit_price.
                      new_ask (ask_params p cycles max_coin_qty limit_price) c)
            ])) [
              | bid ↦ Post->>= (Post-unwrap pc) λ locked _.
                  new_bid-HasBook (bid_params p cycles max_coin_qty locked) word
                    (λ n e. sym (non_zero-some limit n e)) c book
              | ask ↦ Post->>= (Post-eq (assert (not (is_some pc)))) λ _ _.
                  Post->>= (Post-unwrap (non_zero (extract_price_from_order_id p.order_id)))
                    λ limit_price e.
                      new_ask-HasBook (ask_params p cycles max_coin_qty limit_price) word
                        (sym (non_zero-some limit limit_price e)) c book
            ]

  match_rounds-HasBook :
      (cycles max_coin_qty : ℕ) (pc : Option ℕ) (c : Context)
      → HasBook c
      → Post (λ r. HasBook r.2) (match_rounds p cycles max_coin_qty pc c)
  unfolding match_rounds
  match_rounds-HasBook zero max_coin_qty pc c book =
      Post->>= (match_round-HasBook 0 max_coin_qty pc c book) λ r k. returns k
  match_rounds-HasBook (suc cycles) max_coin_qty pc c book =
      Post->>= (match_round-HasBook (suc cycles) max_coin_qty pc c book) λ r k.
        elim r.0
          as (λ o. Post BookAfter (elim o [
            | none ↦ ok (none, cycles, r.1)
            | some q ↦ match_rounds p cycles q.coin_qty_remaining q.native_pc_qty_remaining r.1
          ])) [
            | none ↦ returns k
            | some q ↦
                match_rounds-HasBook cycles q.coin_qty_remaining q.native_pc_qty_remaining r.1 k
          ]

  pub new_order-HasBook :
      (cycles : ℕ) (c : Context) → HasBook c → Post (λ r. HasBook r.2) (new_order p cycles c)
  unfolding new_order
  new_order-HasBook cycles c book =
      match_rounds-HasBook cycles p.max_coin_qty p.native_pc_qty_locked c book
