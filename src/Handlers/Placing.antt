-- ===== src/Handlers/Placing.antt =====
-- `NewOrderV3Args` and `ReplaceOrdersByClientIdsArgs` of dex/src/state.rs, with their handlers. The
-- accounts go from one order to the next, so what a handler changes is put back into them. The payer's
-- balance is the token program's.
use openbook_dex.Prelude.{ℕ, zero, suc, false, List, [], ◌∷◌, Option, none, some, leb, length}
use openbook_dex.Error.{DexResult, ok, ◌>>=◌, ◌>>◌, err, check_assert, state, from_assertion}
use openbook_dex.Types.{Side, bid, ask, Address}
use openbook_dex.Queue.{Queue, EventQueueHeader}
use openbook_dex.Event.{Event}
use openbook_dex.Request.{RequestQueue}
use openbook_dex.OpenOrders.{OpenOrders}
use openbook_dex.Instruction.{NewOrderInstructionV3}
use openbook_dex.Market.{MarketState, check_enabled}
use openbook_dex.Market.Versions.{AccountInfo, MarketStateV2, market_state, load_market}
use openbook_dex.Market.Loads.{
  Rent, TokenAccount, BookAccount, load_orders_mut, load_request_queue_mut, load_event_queue_mut,
  load_bids_mut, load_asks_mut, load_fee_tier, check_coin_payer, check_pc_payer,
}
use openbook_dex.Matching.State.{Context, no_proceeds}
use openbook_dex.Vault.{TokenProgram}
use openbook_dex.Place.Deposit.{PlaceState, process_new_order_v3}
use openbook_dex.Handlers.Accounts.{
  KeyAccount, or_unreachable, signer_account, spl_token_program, token_account, coin_vault,
  pc_vault,
}
use openbook_dex.Handlers.Cancels.{
  CancelState, CancelAccounts, cancel_orders_by_client_ids_instruction,
}

-- The accounts of a new order. `fee_discount` are those behind the twelve.
pub record NewOrderAccounts : Type 0 where
  pub market : AccountInfo MarketStateV2
  pub open_orders : AccountInfo OpenOrders
  pub req_q : AccountInfo RequestQueue
  pub event_q : AccountInfo (Queue EventQueueHeader Event)
  pub bids : AccountInfo BookAccount
  pub asks : AccountInfo BookAccount
  pub payer : AccountInfo TokenAccount
  pub owner : KeyAccount
  pub coin_vault : AccountInfo TokenAccount
  pub pc_vault : AccountInfo TokenAccount
  pub spl_token_program : KeyAccount
  pub fee_discount : List (AccountInfo TokenAccount)

abbrev pub with_open_orders : AccountInfo OpenOrders → OpenOrders → AccountInfo OpenOrders
with_open_orders account o = record account { contents = o }

abbrev pub with_slab : AccountInfo BookAccount → Context → Side → AccountInfo BookAccount
with_slab account c bid =
    let book = account.contents in record account { contents = record book { slab = c.bids } }
with_slab account c ask =
    let book = account.contents in record account { contents = record book { slab = c.asks } }

abbrev pub with_market : AccountInfo MarketStateV2 → MarketState → AccountInfo MarketStateV2
with_market account m =
    let market = account.contents in record account { contents = record market { inner = m } }

-- The accounts after an order.
abbrev pub written_back : {S : Type 0} → NewOrderAccounts → PlaceState S → NewOrderAccounts
written_back a s =
    let req_q_acc = a.req_q in
    let event_q_acc = a.event_q in
    let c = s.context in
    record a {
      market = with_market a.market c.market_state;
      open_orders = with_open_orders a.open_orders s.open_orders;
      req_q = record req_q_acc { contents = s.req_q };
      event_q = record event_q_acc { contents = c.event_q };
      bids = with_slab a.bids c bid;
      asks = with_slab a.asks c ask;
    }

-- The accounts after the cancels.
abbrev pub canceled_back : NewOrderAccounts → CancelState → NewOrderAccounts
canceled_back a s =
    let event_q_acc = a.event_q in
    let c = s.context in
    record a {
      open_orders = with_open_orders a.open_orders s.open_orders;
      event_q = record event_q_acc { contents = c.event_q };
      bids = with_slab a.bids c bid;
      asks = with_slab a.asks c ask;
    }

abbrev pub cancel_accounts_of : NewOrderAccounts → CancelAccounts
cancel_accounts_of a = record {
  count = 6;
  market = a.market;
  bids = a.bids;
  asks = a.asks;
  open_orders = a.open_orders;
  open_orders_signer = a.owner;
  event_q = a.event_q;
}

-- The eight client ids of the orders, with zeros behind them.
unfoldable pub client_ids : ℕ → List NewOrderInstructionV3 → List ℕ
client_ids zero is = []
client_ids (suc n) [] = 0 ∷ client_ids n []
client_ids (suc n) (i ∷ is) = i.client_order_id ∷ client_ids n is

-- The account that shows the discount tokens, if there is one.
unfoldable pub discount_account :
    Address → List (AccountInfo TokenAccount) → DexResult (Option (AccountInfo TokenAccount))
unfolding token_account
discount_account spl_token [] = ok none
discount_account spl_token (account ∷ []) = token_account spl_token account >> ok (some account)
discount_account spl_token (a ∷ b ∷ rest) =
    err (from_assertion (record { line = 2090; file_id = state }))

unfoldable pub check_payer : Side → MarketState → AccountInfo TokenAccount → DexResult (Unit {0})
check_payer bid m account = or_unreachable 2110 (check_pc_payer m account)
check_payer ask m account = or_unreachable 2111 (check_coin_payer m account)

-- The token program, its id, the program's own, the rent, and the time.
module _ {S : Type 0} (P : TokenProgram S) (spl_token program_id : Address) (rent : Rent)
    (cur_ts : ℕ) where
  unfoldable pub new_order_v3_instruction :
      NewOrderInstructionV3 → NewOrderAccounts → S → DexResult (NewOrderAccounts × S)
  unfolding discount_account check_payer signer_account spl_token_program token_account coin_vault
      pc_vault process_new_order_v3
  new_order_v3_instruction i a tokens =
      check_assert state 2064 (leb (length a.fee_discount) 2)
      >> (discount_account spl_token a.fee_discount >>= λ discount.
          load_market a.market program_id false >>= λ market.
          let m = market_state market in
          signer_account a.owner
          >> (load_fee_tier m a.owner.key discount >>= λ fee_tier.
              load_request_queue_mut m a.req_q >>= λ req_q.
              load_event_queue_mut m a.event_q >>= λ event_q.
              token_account spl_token a.payer
              >> (check_payer i.side m a.payer
                  >> (coin_vault spl_token m a.coin_vault
                      >> (pc_vault spl_token m a.pc_vault
                          >> (check_enabled m
                              >> (spl_token_program spl_token a.spl_token_program
                                  >> (or_unreachable 2118 (load_bids_mut m a.bids) >>= λ bids.
                                      or_unreachable 2119 (load_asks_mut m a.asks) >>= λ asks.
                                      load_orders_mut market a.open_orders (some a.owner.key)
                                        program_id (some rent) none
                                      >>= λ o.
                                          process_new_order_v3 P cur_ts i fee_tier
                                            (record {
                                              open_orders = a.open_orders.key;
                                              payer = a.payer.key;
                                              coin_vault = a.coin_vault.key;
                                              pc_vault = a.pc_vault.key;
                                            })
                                            (record {
                                              req_q = req_q;
                                              open_orders = o;
                                              context = record {
                                                bids = bids;
                                                asks = asks;
                                                market_state = m;
                                                event_q = event_q;
                                                proceeds = no_proceeds;
                                              };
                                              tokens = tokens;
                                            })
                                          >>= λ s. ok (written_back a s, s.tokens)))))))))

  -- The orders one after the other; the first error ends all.
  unfoldable pub new_orders :
      List NewOrderInstructionV3 → NewOrderAccounts → S → DexResult (NewOrderAccounts × S)
  unfolding new_order_v3_instruction
  new_orders [] a tokens = ok (a, tokens)
  new_orders (i ∷ is) a tokens = new_order_v3_instruction i a tokens >>= λ r. new_orders is r.0 r.1

  unfoldable pub replace_orders_by_client_ids_instruction :
      List NewOrderInstructionV3 → NewOrderAccounts → S → DexResult (NewOrderAccounts × S)
  unfolding new_orders client_ids cancel_orders_by_client_ids_instruction
  replace_orders_by_client_ids_instruction instructions a tokens =
      cancel_orders_by_client_ids_instruction program_id (client_ids 8 instructions)
        (cancel_accounts_of a)
      >>= λ s. new_orders instructions (canceled_back a s) tokens
