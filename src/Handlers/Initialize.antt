-- ===== src/Handlers/Initialize.antt =====
-- `InitializeMarketArgs::new` and `process_initialize_market` of dex/src/state.rs. An account that has not
-- been initialized is read by the layout that it gets: its first word is that of the flags. The padding
-- is left out, as the bytes are.
use Prim.Native.Nat.{bit_or}
use openbook_dex.Prelude.{
  ℕ, ◌-◌, ◌/◌, ◌%◌, not, List, [], ◌∷◌, Option, none, some, ltb, leb, ◌==◌, length,
}
use openbook_dex.Error.{
  DexResult, ok, ◌>>=◌, ◌>>◌, check_or, check_assert, state, request_queue_empty,
  event_queue_too_small,
}
use openbook_dex.Types.{Address}
use openbook_dex.Queue.{Queue, EventQueueHeader}
use openbook_dex.Event.{Event}
use openbook_dex.Request.{RequestQueue}
use openbook_dex.Critbit.Alloc.{assert_minimum_capacity}
use openbook_dex.Instruction.{InitializeMarketInstruction}
use openbook_dex.Market.{
  MarketState, initialized_flag, market_flag, request_queue_flag, event_queue_flag, bids_flag,
  asks_flag, permissioned_flag, crank_authority_required_flag,
}
use openbook_dex.Market.Versions.{AccountInfo, MarketStateV2}
use openbook_dex.Market.Loads.{Rent, TokenAccount, BookAccount}
use openbook_dex.Handlers.Accounts.{KeyAccount, token_account}

-- A vault, with the tags that say whether it has a delegate and a close authority.
pub record Vault : Type 0 where
  pub account : AccountInfo TokenAccount
  pub delegate_tag : ℕ
  pub close_authority_tag : ℕ

-- `remaining` are the authorities.
pub record InitializeAccounts : Type 0 where
  pub market : AccountInfo MarketStateV2
  pub req_q : AccountInfo RequestQueue
  pub event_q : AccountInfo (Queue EventQueueHeader Event)
  pub bids : AccountInfo BookAccount
  pub asks : AccountInfo BookAccount
  pub coin_vault : Vault
  pub pc_vault : Vault
  pub coin_mint : KeyAccount
  pub pc_mint : KeyAccount
  pub remaining : List KeyAccount

abbrev pub first : List KeyAccount → Option KeyAccount
first [] = none
first (a ∷ others) = some a

abbrev pub rest : List KeyAccount → List KeyAccount
rest [] = []
rest (a ∷ others) = others

unfoldable pub check_rent : {A : Type 0} → Rent → AccountInfo A → DexResult (Unit {0})
check_rent rent account = check_assert state 1875 (rent account.lamports account.data_len)

-- The five accounts of the market must be unused.
unfoldable pub check_unused :
    {A : Type 0} → Address → (A → ℕ) → AccountInfo A → DexResult (Unit {0})
check_unused program_id first_word account =
    check_assert state 1881 (account.owner == program_id)
    >> (check_assert state 1883 (account.data_len % 8 == 4)
        >> (check_assert state 1884 (leb 20 account.data_len)
            >> check_assert state 1887 (first_word account.contents == 0)))

-- `TokenMint::new`, but for the bytes of the mint.
unfoldable pub token_mint : Address → KeyAccount → DexResult (Unit {0})
token_mint spl_token mint = check_assert state 1703 (mint.owner == spl_token)

-- A vault belongs to the market's signer, without a delegate or a close authority, and is of the mint.
unfoldable pub check_vault : Address → Address → Vault → KeyAccount → DexResult (Unit {0})
unfolding token_account token_mint
check_vault spl_token vault_owner vault mint =
    token_account spl_token vault.account
    >> (token_mint spl_token mint
        >> (check_assert state 1904 (vault.account.contents.owner == vault_owner)
            >> (check_assert state 1908 (vault.delegate_tag == 0)
                >> (check_assert state 1912 (vault.close_authority_tag == 0)
                    >> check_assert state 1820 (mint.key == vault.account.contents.mint)))))

-- All accounts but that of the market and the authorities must be rent exempt.
unfoldable pub check_rents : Rent → InitializeAccounts → DexResult (Unit {0})
unfolding check_rent
check_rents rent a =
    check_rent rent a.req_q
    >> (check_rent rent a.event_q
        >> (check_rent rent a.bids
            >> (check_rent rent a.asks
                >> (check_rent rent a.coin_vault.account
                    >> (check_rent rent a.pc_vault.account
                        >> (check_rent rent a.coin_mint >> check_rent rent a.pc_mint))))))

unfoldable pub check_all_unused : Address → InitializeAccounts → DexResult (Unit {0})
unfolding check_unused
check_all_unused program_id a =
    check_unused program_id (λ m. m.inner.account_flags) a.market
    >> (check_unused program_id (λ q. q.header.account_flags) a.req_q
        >> (check_unused program_id (λ q. q.header.account_flags) a.event_q
            >> (check_unused program_id (λ b. b.account_flags) a.bids
                >> check_unused program_id (λ b. b.account_flags) a.asks)))

-- `InitializeMarketArgs::new`, with `gen_vault_signer_key` as a parameter.
unfoldable pub check_initialize :
    (ℕ → Address → Address → DexResult Address)
    → Address
    → Address
    → Rent
    → InitializeMarketInstruction
    → InitializeAccounts
    → DexResult (Unit {0})
unfolding check_rents check_all_unused check_vault
check_initialize signer_key spl_token program_id rent i a =
    check_assert state 1850 (leb (length a.remaining) 3)
    >> (check_rents rent a
        >> (check_all_unused program_id a
            >> (signer_key i.vault_signer_nonce a.market.key program_id >>= λ vault_owner.
                check_vault spl_token vault_owner a.coin_vault a.coin_mint
                >> check_vault spl_token vault_owner a.pc_vault a.pc_mint)))

-- The words of an account between its paddings.
abbrev pub words : ℕ → ℕ
words data_len = (data_len - 12) / 8

unfoldable pub init_req_q : AccountInfo RequestQueue → DexResult (AccountInfo RequestQueue)
init_req_q account =
    let q = account.contents in
    check_or (not (length q.buf == 0)) request_queue_empty
    >> ok (record account {
      contents = record q {
        header = record {
          account_flags = bit_or initialized_flag request_queue_flag;
          head = 0;
          count = 0;
          next_seq_num = 0;
        };
      };
    })

unfoldable pub init_event_q :
    AccountInfo (Queue EventQueueHeader Event)
    → DexResult (AccountInfo (Queue EventQueueHeader Event))
init_event_q account =
    let q = account.contents in
    check_assert state 3626 (ltb 4 (words account.data_len))
    >> (check_or (not (ltb (length q.buf) 128)) event_queue_too_small
        >> ok (record account {
          contents = record q {
            header = record {
              account_flags = bit_or initialized_flag event_queue_flag;
              head = 0;
              count = 0;
              seq_num = 0;
            };
          };
        }))

-- The slab stays as it is: the runtime hands out zeros.
unfoldable pub init_book : ℕ → AccountInfo BookAccount → DexResult (AccountInfo BookAccount)
init_book flag account =
    let book = account.contents in
    check_assert state 3644 (ltb 1 (words account.data_len))
    >> (assert_minimum_capacity book.slab 100
        >> ok (record account {
          contents = record book { account_flags = bit_or initialized_flag flag };
        }))

unfoldable pub market_flags : List KeyAccount → ℕ
market_flags [] = bit_or initialized_flag market_flag
market_flags (market_authority ∷ others) =
    let flags = bit_or (bit_or initialized_flag market_flag) permissioned_flag in
    elim (first (rest others)) [
      | none ↦ flags
      | some consume_events_authority ↦ bit_or flags crank_authority_required_flag
    ]

abbrev pub new_market : InitializeMarketInstruction → InitializeAccounts → MarketState
new_market i a = record {
  account_flags = market_flags a.remaining;
  own_address = a.market.key;
  vault_signer_nonce = i.vault_signer_nonce;
  coin_mint = a.coin_mint.key;
  pc_mint = a.pc_mint.key;
  coin_vault = a.coin_vault.account.key;
  coin_deposits_total = 0;
  coin_fees_accrued = 0;
  pc_vault = a.pc_vault.account.key;
  pc_deposits_total = 0;
  pc_fees_accrued = 0;
  pc_dust_threshold = i.pc_dust_threshold;
  req_q = a.req_q.key;
  event_q = a.event_q.key;
  bids = a.bids.key;
  asks = a.asks.key;
  coin_lot_size = i.coin_lot_size;
  pc_lot_size = i.pc_lot_size;
  fee_rate_bps = i.fee_rate_bps;
  referrer_rebates_accrued = 0;
}

-- The key of an authority, or `Pubkey::default()`.
abbrev pub key_or : Address → Option KeyAccount → Address
key_or address none = address
key_or address (some account) = account.key

-- A market of the first layout is 376 bytes, one of the second 1464.
unfoldable pub init_market :
    InitializeMarketInstruction → InitializeAccounts → List KeyAccount → DexResult MarketStateV2
init_market i a [] =
    let old = a.market.contents in
    check_assert state 3693 (a.market.data_len - 12 == 376)
    >> ok (record old { inner = new_market i a })
init_market i a (market_authority ∷ others) =
    let old = a.market.contents in
    check_assert state 3698 (a.market.data_len - 12 == 1464)
    >> ok (record {
      inner = new_market i a;
      open_orders_authority = market_authority.key;
      prune_authority = key_or 0 (first others);
      consume_events_authority = key_or old.consume_events_authority (first (rest others));
    })

unfoldable pub process_initialize_market :
    InitializeMarketInstruction → InitializeAccounts → DexResult InitializeAccounts
unfolding init_req_q init_event_q init_book init_market
process_initialize_market i a = init_req_q a.req_q >>= λ req_q.
    init_event_q a.event_q >>= λ event_q. init_book bids_flag a.bids >>= λ bids.
    init_book asks_flag a.asks >>= λ asks. init_market i a a.remaining >>= λ contents.
    (let market = a.market in
      ok (record a {
        market = record market { contents = contents };
        req_q = req_q;
        event_q = event_q;
        bids = bids;
        asks = asks;
      }))

unfoldable pub initialize_market_instruction :
    (ℕ → Address → Address → DexResult Address)
    → Address
    → Address
    → Rent
    → InitializeMarketInstruction
    → InitializeAccounts
    → DexResult InitializeAccounts
unfolding check_initialize process_initialize_market
initialize_market_instruction signer_key spl_token program_id rent i a =
    check_initialize signer_key spl_token program_id rent i a >> process_initialize_market i a
