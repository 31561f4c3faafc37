-- ===== src/Market/Loads.antt =====
-- What dex/src/state.rs checks of the accounts that come with a market before it reads them:
-- `Market::load_orders_mut`, `OpenOrders::load_checked`, the queues, the vaults, the payers and the
-- account that pays for the fee tier.
use Prim.Native.Nat.{bit_or}
use openbook_dex.Prelude.{ℕ, Bool, true, false, Option, none, some, ◌==◌, if◌then◌else◌}
use openbook_dex.Error.{
  DexResult, ok, ◌>>=◌, ◌>>◌, ok_or, assert, check_assert, check_or, state,
  invalid_open_orders_authority, rent_not_provided, owner_account_not_provided,
  orders_not_rent_exempt, wrong_orders_account, wrong_request_queue_account, wrong_bids_account,
  wrong_asks_account, wrong_event_queue_account, wrong_coin_vault, wrong_pc_vault, wrong_coin_mint,
  wrong_pc_mint,
}
use openbook_dex.Fees.{FeeTier, from_srm_and_msrm_balances}
use openbook_dex.Critbit.Alloc.{Slab}
use openbook_dex.Queue.{Queue, EventQueueHeader}
use openbook_dex.Event.{Event}
use openbook_dex.Request.{RequestQueue}
use openbook_dex.Types.{Address}
use openbook_dex.Market.{
  MarketState, is_account_flags, initialized_flag, request_queue_flag, event_queue_flag, bids_flag,
  asks_flag,
}
use openbook_dex.Market.Versions.{AccountInfo, Market, market_state, open_orders_authority}
use openbook_dex.OpenOrders
use openbook_dex.OpenOrders.{OpenOrders, init}

-- `Rent`, of the runtime: whether so many lamports pay for so many bytes.
abbrev pub Rent : Type 0
Rent = ℕ → ℕ → Bool

-- Two keys that may be missing, compared.
abbrev pub key_eq : Option Address → Option Address → Bool
key_eq none none = true
key_eq (some a) (some b) = a == b
key_eq _ _ = false

-- A key that is tested only where it is given.
abbrev pub key_is : Option Address → Address → Bool
key_is none a = true
key_is (some b) a = a == b

-- An account that no market has claimed yet becomes the owner's on this market.
unfoldable pub claim_orders :
    Market
    → AccountInfo OpenOrders
    → Option Address
    → Option Rent
    → Option Address
    → DexResult OpenOrders
claim_orders m account owner rent authority =
    check_or (key_eq authority (open_orders_authority m)) invalid_open_orders_authority
    >> (ok_or rent rent_not_provided >>= λ is_exempt.
        ok_or owner owner_account_not_provided >>= λ owner_key.
        check_or (is_exempt account.lamports account.data_len) orders_not_rent_exempt
        >> init account.contents (market_state m).own_address owner_key)

-- `Market::load_orders_mut`: the open orders of the account, on the market and of the owner.
unfoldable pub load_orders_mut :
    Market
    → AccountInfo OpenOrders
    → Option Address
    → Address
    → Option Rent
    → Option Address
    → DexResult OpenOrders
unfolding claim_orders
load_orders_mut m account owner program_id rent authority =
    check_assert state 209 (account.owner == program_id)
    >> ((if account.contents.account_flags == 0
          then claim_orders m account owner rent authority
          else ok account.contents)
        >>= λ o.
            OpenOrders.check_flags o
            >> (check_or (o.market == (market_state m).own_address) wrong_orders_account
                >> (check_or (key_is owner o.owner) wrong_orders_account >> ok o)))

-- `OpenOrders::load_checked`.
unfoldable pub load_orders_checked :
    AccountInfo OpenOrders → Option Address → Option Address → Address → DexResult OpenOrders
load_orders_checked account market owner program_id =
    let o = account.contents in
    check_assert state 799 (account.owner == program_id)
    >> (OpenOrders.check_flags o
        >> (check_or (key_is market o.market) wrong_orders_account
            >> (check_or (key_is owner o.owner) wrong_orders_account >> ok o)))

-- `load_request_queue_mut` and `load_event_queue_mut`.
unfoldable pub load_request_queue_mut :
    MarketState → AccountInfo RequestQueue → DexResult RequestQueue
load_request_queue_mut m account =
    let flags = account.contents.header.account_flags in
    check_or (account.key == m.req_q) wrong_request_queue_account
    >> (assert (is_account_flags flags)
        >> (check_assert state 641 (flags == bit_or initialized_flag request_queue_flag)
            >> ok account.contents))

unfoldable pub load_event_queue_mut :
    MarketState
    → AccountInfo (Queue EventQueueHeader Event)
    → DexResult (Queue EventQueueHeader Event)
load_event_queue_mut m account =
    let flags = account.contents.header.account_flags in
    check_or (account.key == m.event_q) wrong_event_queue_account
    >> (assert (is_account_flags flags)
        >> (check_assert state 654 (flags == bit_or initialized_flag event_queue_flag)
            >> ok account.contents))

-- `OrderBookStateHeader` and the slab behind it.
pub record BookAccount : Type 0 where
  pub account_flags : ℕ
  pub slab : Slab

unfoldable pub load_bids_mut : MarketState → AccountInfo BookAccount → DexResult Slab
load_bids_mut m account =
    let flags = account.contents.account_flags in
    check_or (account.key == m.bids) wrong_bids_account
    >> (assert (is_account_flags flags)
        >> (check_assert state 604 (flags == bit_or initialized_flag bids_flag)
            >> ok account.contents.slab))

unfoldable pub load_asks_mut : MarketState → AccountInfo BookAccount → DexResult Slab
load_asks_mut m account =
    let flags = account.contents.account_flags in
    check_or (account.key == m.asks) wrong_asks_account
    >> (assert (is_account_flags flags)
        >> (check_assert state 622 (flags == bit_or initialized_flag asks_flag)
            >> ok account.contents.slab))

-- The part of a token account that the program reads.
pub record TokenAccount : Type 0 where
  pub mint : Address
  pub owner : Address
  pub balance : ℕ

unfoldable pub check_coin_vault : MarketState → AccountInfo TokenAccount → DexResult (Unit {0})
check_coin_vault m vault = check_or (m.coin_vault == vault.key) wrong_coin_vault

unfoldable pub check_pc_vault : MarketState → AccountInfo TokenAccount → DexResult (Unit {0})
check_pc_vault m vault = check_or (m.pc_vault == vault.key) wrong_pc_vault

unfoldable pub check_coin_payer : MarketState → AccountInfo TokenAccount → DexResult (Unit {0})
check_coin_payer m payer = check_or (payer.contents.mint == m.coin_mint) wrong_coin_mint

unfoldable pub check_pc_payer : MarketState → AccountInfo TokenAccount → DexResult (Unit {0})
check_pc_payer m payer = check_or (payer.contents.mint == m.pc_mint) wrong_pc_mint

-- `srm_token::ID` and `msrm_token::ID` of dex/src/instruction.rs.
abbrev pub srm_token : Address
srm_token = 0x7d32981a86108306a68a41844d575005d77faadd52330ce18738b2eecc5281f5

abbrev pub msrm_token : Address
msrm_token = 0x135267d2cb5b3c053e328084d3a829767368352e2d14483b533d667cded5d362

-- The balances of the discount tokens that the account shows.
unfoldable pub load_fee_tier :
    MarketState → Address → Option (AccountInfo TokenAccount) → DexResult FeeTier
load_fee_tier m expected_owner none = ok (from_srm_and_msrm_balances m.own_address 0 0)
load_fee_tier m expected_owner (some account) =
    let t = account.contents in
    check_assert state 711 (t.owner == expected_owner)
    >> ok (
        if t.mint == srm_token
        then from_srm_and_msrm_balances m.own_address t.balance 0
        else if t.mint == msrm_token
        then from_srm_and_msrm_balances m.own_address 0 t.balance
        else from_srm_and_msrm_balances m.own_address 0 0)
