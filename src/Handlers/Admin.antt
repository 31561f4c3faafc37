-- ===== src/Handlers/Admin.antt =====
-- `DisableMarketArgs`, `SweepFeesArgs`, `SettleFundsArgs` and `ConsumeEventsArgs` of dex/src/state.rs, each
-- with its handler. The token program and the hash that makes a vault's signer are parameters.
use openbook_dex.Prelude.{ℕ, true, false, ◌||◌, List, Option, none, some, leb, ◌==◌}
use openbook_dex.Error.{DexResult, ok, ◌>>=◌, ◌>>◌, check_assert, state}
use openbook_dex.Types.{Address}
use openbook_dex.Queue.{Queue, EventQueueHeader}
use openbook_dex.Event.{Event}
use openbook_dex.OpenOrders.{OpenOrders}
use openbook_dex.Market.{MarketState, disable_market}
use openbook_dex.Market.Versions.{
  AccountInfo, MarketStateV2, market_state, load_market, consume_events_authority,
}
use openbook_dex.Market.Loads.{TokenAccount, key_eq, load_orders_mut, load_event_queue_mut}
use openbook_dex.Vault.{TokenProgram, Funds, settle_funds, sweep_fees}
use openbook_dex.Consume.{ConsumeState, consume_events}
use openbook_dex.Handlers.Accounts.{
  KeyAccount, or_unreachable, signer_account, signing_disable_authority, signing_fee_sweeper,
  spl_token_program, coin_vault, pc_vault, coin_wallet, pc_wallet, vault_signer,
}

unfoldable pub disable_market_instruction :
    Address → ℕ → AccountInfo MarketStateV2 → KeyAccount → DexResult MarketState
unfolding signing_disable_authority
disable_market_instruction program_id count market_acc signer =
    check_assert state 2538 (count == 2)
    >> (load_market market_acc program_id false >>= λ market.
        signing_disable_authority signer >> ok (disable_market (market_state market)))

pub record SweepAccounts : Type 0 where
  pub count : ℕ
  pub market : AccountInfo MarketStateV2
  pub pc_vault : AccountInfo TokenAccount
  pub sweep_authority : KeyAccount
  pub pc_wallet : AccountInfo TokenAccount
  pub vault_signer : KeyAccount
  pub spl_token_program : KeyAccount

pub record SettleAccounts : Type 0 where
  pub count : ℕ
  pub market : AccountInfo MarketStateV2
  pub open_orders : AccountInfo OpenOrders
  pub owner : KeyAccount
  pub coin_vault : AccountInfo TokenAccount
  pub pc_vault : AccountInfo TokenAccount
  pub coin_wallet : AccountInfo TokenAccount
  pub pc_wallet : AccountInfo TokenAccount
  pub vault_signer : KeyAccount
  pub spl_token_program : KeyAccount
  pub referrer : Option (AccountInfo TokenAccount)

-- The key of the referrer's wallet, if one is given.
abbrev pub referrer_key : Option (AccountInfo TokenAccount) → Option Address
referrer_key none = none
referrer_key (some account) = some account.key

module _ {S : Type 0} (P : TokenProgram S) (spl_token : Address)
    (signer_key : ℕ → Address → Address → DexResult Address) (program_id : Address) where
  unfoldable pub sweep_fees_instruction : SweepAccounts → S → DexResult (MarketState × S)
  unfolding pc_vault pc_wallet vault_signer spl_token_program signing_fee_sweeper
  sweep_fees_instruction a tokens =
      check_assert state 2565 (a.count == 6)
      >> (load_market a.market program_id false >>= λ market.
          let m = market_state market in
          pc_vault spl_token m a.pc_vault
          >> (pc_wallet spl_token m a.pc_wallet
              >> (vault_signer signer_key m program_id a.vault_signer
                  >> (spl_token_program spl_token a.spl_token_program
                      >> (signing_fee_sweeper a.sweep_authority
                          >> sweep_fees P a.pc_wallet.key m tokens)))))

  -- The referrer is the last account, if there is one more than the nine.
  unfoldable pub referrer_wallet :
      MarketState → Option (AccountInfo TokenAccount) → DexResult (Unit {0})
  unfolding pc_wallet
  referrer_wallet m none = ok tt
  referrer_wallet m (some account) = or_unreachable 2498 (pc_wallet spl_token m account)

  unfoldable pub settle_funds_instruction : SettleAccounts → S → DexResult (Funds S)
  unfolding spl_token_program signer_account coin_vault pc_vault coin_wallet pc_wallet
      referrer_wallet vault_signer
  settle_funds_instruction a tokens =
      check_assert state 2470 (a.count == 9 || a.count == 10)
      >> (spl_token_program spl_token a.spl_token_program
          >> (load_market a.market program_id true >>= λ market.
              let m = market_state market in
              or_unreachable 2485 (signer_account a.owner)
              >> (or_unreachable 2488 (coin_vault spl_token m a.coin_vault)
                  >> (or_unreachable 2489 (pc_vault spl_token m a.pc_vault)
                      >> (or_unreachable 2491 (coin_wallet spl_token m a.coin_wallet)
                          >> (or_unreachable 2493 (pc_wallet spl_token m a.pc_wallet)
                              >> (referrer_wallet m a.referrer
                                  >> (vault_signer signer_key m program_id a.vault_signer
                                      >> (load_orders_mut market a.open_orders (some a.owner.key)
                                            program_id none none
                                          >>= λ o.
                                              settle_funds P a.coin_wallet.key a.pc_wallet.key
                                                (referrer_key a.referrer)
                                                (record {
                                                  market = m;
                                                  open_orders = o;
                                                  tokens = tokens;
                                                }))))))))))

-- The accounts of the two instructions that consume events; the events' accounts come first.
pub record ConsumeAccounts : Type 0 where
  pub count : ℕ
  pub open_orders_accounts : List (AccountInfo OpenOrders)
  pub market : AccountInfo MarketStateV2
  pub event_q : AccountInfo (Queue EventQueueHeader Event)

unfoldable pub consume_events_instruction : Address → ℕ → ConsumeAccounts → DexResult ConsumeState
consume_events_instruction program_id limit a =
    check_assert state 2203 (leb 5 a.count)
    >> (load_market a.market program_id true >>= λ market.
        consume_events_authority market >>= λ authority.
        check_assert state 2215 (key_eq authority none)
        >> (load_event_queue_mut (market_state market) a.event_q >>= λ q.
            consume_events market program_id limit
              (record { open_orders_accounts = a.open_orders_accounts; event_q = q })))

unfoldable pub consume_events_permissioned_instruction :
    Address → ℕ → ConsumeAccounts → KeyAccount → DexResult ConsumeState
consume_events_permissioned_instruction program_id limit a consume_events_auth =
    check_assert state 2233 (leb 4 a.count)
    >> (load_market a.market program_id true >>= λ market.
        check_assert state 2245 consume_events_auth.is_signer
        >> (consume_events_authority market >>= λ authority.
            check_assert state 2246 (key_eq (some consume_events_auth.key) authority)
            >> (load_event_queue_mut (market_state market) a.event_q >>= λ q.
                consume_events market program_id limit
                  (record { open_orders_accounts = a.open_orders_accounts; event_q = q }))))
