-- ===== src/Matching/Order/Drain.antt =====
-- What `new_order` of dex/src/matching.rs leaves unfinished: nothing.
use openbook_dex.Prelude.{ℕ, zero, suc, ◌≡◌, refl, not, Option, none, some}
use openbook_dex.Error.{ok, assert, unwrap, ◌>>=◌, ◌>>◌}
use openbook_dex.Types.{bid, ask, non_zero}
use openbook_dex.Matching.State.{
  Context, NewOrderParams, OrderRemaining, extract_price_from_order_id,
}
use openbook_dex.Matching.Post.{Post, returns, Post->>=, Post-eq, Post-unwrap, Post-ok, IsDrained}
use openbook_dex.Matching.Ask.{new_ask}
use openbook_dex.Matching.Ask.PostOnly.{new_ask-IsDrained}
use openbook_dex.Matching.Bid.{new_bid, is_some}
use openbook_dex.Matching.Bid.PostOnly.{new_bid-IsDrained}
use openbook_dex.Matching.Order.{match_round, match_rounds, new_order, bid_params, ask_params}

-- The round at the end of the limit.
match_round-IsDrained :
    (p : NewOrderParams) (max_coin_qty : ℕ) (pc : Option ℕ) (c : Context)
    → Post IsDrained (match_round p 0 max_coin_qty pc c)
unfolding match_round
match_round-IsDrained p max_coin_qty pc c =
    elim p.side
      as (λ s. Post IsDrained (elim s [
        | bid ↦ unwrap pc >>= λ locked. new_bid (bid_params p 0 max_coin_qty locked) c
        | ask ↦
            assert (not (is_some pc))
            >> (unwrap (non_zero (extract_price_from_order_id p.order_id)) >>= λ limit_price.
                new_ask (ask_params p 0 max_coin_qty limit_price) c)
      ])) [
        | bid ↦
            Post->>= (Post-unwrap pc)
              λ locked _. new_bid-IsDrained (bid_params p 0 max_coin_qty locked) c refl
        | ask ↦ Post->>= (Post-eq (assert (not (is_some pc)))) λ _ _.
            Post->>= (Post-unwrap (non_zero (extract_price_from_order_id p.order_id)))
              λ limit_price _. new_ask-IsDrained (ask_params p 0 max_coin_qty limit_price) c refl
      ]

-- The same with the limit that is left.
abbrev IsDone : Option OrderRemaining × ℕ × Context → Type 0
IsDone r = r.0 ≡ none

match_rounds-IsDrained :
    (p : NewOrderParams) (cycles max_coin_qty : ℕ) (pc : Option ℕ) (c : Context)
    → Post IsDone (match_rounds p cycles max_coin_qty pc c)
unfolding match_rounds
match_rounds-IsDrained p zero max_coin_qty pc c =
    Post->>= (match_round-IsDrained p max_coin_qty pc c) λ r e. returns e
match_rounds-IsDrained p (suc cycles) max_coin_qty pc c =
    Post->>= (Post-eq (match_round p (suc cycles) max_coin_qty pc c)) λ r _.
      elim r.0
        as (λ o. Post IsDone (elim o [
          | none ↦ ok (none, cycles, r.1)
          | some q ↦ match_rounds p cycles q.coin_qty_remaining q.native_pc_qty_remaining r.1
        ])) [
          | none ↦ returns refl
          | some q ↦
              match_rounds-IsDrained p cycles q.coin_qty_remaining q.native_pc_qty_remaining r.1
        ]

-- An order that succeeds is done, whatever its limit on rounds: nothing of it remains to be matched
-- by another request.
pub new_order-IsDrained :
    (p : NewOrderParams) (cycles left : ℕ) (c d : Context) (o : Option OrderRemaining)
    → new_order p cycles c ≡ ok (o, left, d)
    → o ≡ none
unfolding new_order
new_order-IsDrained p cycles left c d o e =
    Post-ok (match_rounds-IsDrained p cycles p.max_coin_qty p.native_pc_qty_locked c) e
