-- ===== src/Handlers/Fresh.antt =====
-- A market right after `process_initialize_market` of dex/src/state.rs: what the handlers that come then
-- load from its accounts.
mod Tests
use openbook_dex.Prelude.{
  ℕ, ◌+◌, ◌^◌, ◌<◌, ◌≤◌, ◌≡◌, refl, sym, ap, subst, ◌∙◌, Bool, true, false, not, List, [], ◌∷◌, ◌⊎◌,
  inl, inr, Option, none, some, arith, ltb, leb, ◌==◌, ==_iff, length,
}
use openbook_dex.Error.{
  DexResult, ok, ◌>>=◌, ◌>>◌, check_or, check_assert, state, request_queue_empty,
  event_queue_too_small,
}
use openbook_dex.Error.Post.{
  Post, returns, Post-ok, Post->>=, Post-imp, Post-eq, check_assert-true, check_or-true,
}
use openbook_dex.Types.{Address}
use Prim.Native.Nat.{bit_or}
use openbook_dex.Queue.{Queue, EventQueueHeader, event_header, request_header}
use openbook_dex.Request.{RequestQueue}
use openbook_dex.Event.{Event}
use openbook_dex.Market.{MarketState}
use openbook_dex.Queue.Valid.{IsValid, Holds}
use openbook_dex.Critbit.Alloc.{assert_minimum_capacity}
use openbook_dex.Instruction.{InitializeMarketInstruction}
use openbook_dex.Market.{bids_flag, asks_flag, check_flags}
use openbook_dex.Market.Versions.{
  AccountInfo, Market, MarketStateV2, v1, v2, market_state, load_market, load_v1, load_v2,
  check_flags_v2,
}
use openbook_dex.Market.Loads.{
  Rent, BookAccount, load_request_queue_mut, load_event_queue_mut, load_bids_mut, load_asks_mut,
}
use openbook_dex.Handlers.NewMarket.{
  load_new, check_all_unused-owner, NamesAuthorities, made_req_q, made_event_q, made_book,
  init_req_q-eq, init_event_q-eq, init_book-eq, loads_req_q, loads_event_q, loads_bids, loads_asks,
}
use openbook_dex.Handlers.Accounts.{KeyAccount, token_account}
use openbook_dex.Handlers.Initialize.{
  Vault, InitializeAccounts, first, rest, check_rent, check_unused, token_mint, check_vault,
  check_initialize, words, init_req_q, init_event_q, init_book, market_flags, new_market, key_or,
  check_rents, check_all_unused, init_market, process_initialize_market,
  initialize_market_instruction,
}

-- The vault belongs to the market's signer, and nobody else can move or close it.
pub record IsOwned (vault_owner : Address) (vault : Vault) : Type 0 where
  pub owner : vault.account.contents.owner ≡ vault_owner
  pub no_delegate : vault.delegate_tag ≡ 0
  pub no_close_authority : vault.close_authority_tag ≡ 0

check_vault-IsOwned :
    (spl_token vault_owner : Address) (vault : Vault) (mint : KeyAccount)
    → Post (λ _. IsOwned vault_owner vault) (check_vault spl_token vault_owner vault mint)
unfolding check_vault
check_vault-IsOwned spl_token vault_owner vault mint =
    Post->>= (Post-eq (token_account spl_token vault.account)) λ _ _.
      Post->>= (Post-eq (token_mint spl_token mint)) λ _ _.
        Post->>= (check_assert-true _ _ _) λ _ owner.
          Post->>= (check_assert-true _ _ _) λ _ delegate.
            Post->>= (check_assert-true _ _ _) λ _ close.
              Post-imp (Post-eq (check_assert _ _ _)) λ _ _. record {
                owner = (==_iff _ _).0 owner;
                no_delegate = (==_iff _ _).0 delegate;
                no_close_authority = (==_iff _ _).0 close;
              }

-- The market has what it was given, and owes nothing.
pub record IsNew (i : InitializeMarketInstruction) (a : InitializeAccounts) (m : MarketState)
    : Type 0 where
  pub own_address : m.own_address ≡ a.market.key
  pub coin_mint : m.coin_mint ≡ a.coin_mint.key
  pub pc_mint : m.pc_mint ≡ a.pc_mint.key
  pub coin_vault : m.coin_vault ≡ a.coin_vault.account.key
  pub pc_vault : m.pc_vault ≡ a.pc_vault.account.key
  pub req_q : m.req_q ≡ a.req_q.key
  pub event_q : m.event_q ≡ a.event_q.key
  pub bids : m.bids ≡ a.bids.key
  pub asks : m.asks ≡ a.asks.key
  pub vault_signer_nonce : m.vault_signer_nonce ≡ i.vault_signer_nonce
  pub coin_lot_size : m.coin_lot_size ≡ i.coin_lot_size
  pub pc_lot_size : m.pc_lot_size ≡ i.pc_lot_size
  pub pc_dust_threshold : m.pc_dust_threshold ≡ i.pc_dust_threshold
  pub fee_rate_bps : m.fee_rate_bps ≡ i.fee_rate_bps
  pub no_coin_deposits : m.coin_deposits_total ≡ 0
  pub no_pc_deposits : m.pc_deposits_total ≡ 0
  pub no_coin_fees : m.coin_fees_accrued ≡ 0
  pub no_pc_fees : m.pc_fees_accrued ≡ 0
  pub no_rebates : m.referrer_rebates_accrued ≡ 0

new_market-IsNew :
    (i : InitializeMarketInstruction) (a : InitializeAccounts) → IsNew i a (new_market i a)
new_market-IsNew i a = record {
  own_address = refl;
  coin_mint = refl;
  pc_mint = refl;
  coin_vault = refl;
  pc_vault = refl;
  req_q = refl;
  event_q = refl;
  bids = refl;
  asks = refl;
  vault_signer_nonce = refl;
  coin_lot_size = refl;
  pc_lot_size = refl;
  pc_dust_threshold = refl;
  fee_rate_bps = refl;
  no_coin_deposits = refl;
  no_pc_deposits = refl;
  no_coin_fees = refl;
  no_pc_fees = refl;
  no_rebates = refl;
}

-- The accounts of a market that was made.
pub record IsFresh (program_id : Address) (i : InitializeMarketInstruction)
    (a b : InitializeAccounts) : Type 0 where
  pub market : Market
  pub loads : load_market b.market program_id false ≡ ok market
  pub made : IsNew i a (market_state market)
  pub authorities : NamesAuthorities a.remaining market
  pub bids : load_bids_mut (market_state market) b.bids ≡ ok a.bids.contents.slab
  pub asks : load_asks_mut (market_state market) b.asks ≡ ok a.asks.contents.slab
  pub requests : load_request_queue_mut (market_state market) b.req_q ≡ ok b.req_q.contents
  pub events : load_event_queue_mut (market_state market) b.event_q ≡ ok b.event_q.contents
  pub events_valid : IsValid b.event_q.contents
  pub no_events : Holds b.event_q.contents []

process_initialize_market-IsFresh :
    (program_id : Address) (i : InitializeMarketInstruction) (a : InitializeAccounts)
    → (a.market.owner == program_id) ≡ true
    → length a.event_q.contents.buf < 2 ^ 63
    → Post (IsFresh program_id i a) (process_initialize_market i a)
unfolding process_initialize_market
process_initialize_market-IsFresh program_id i a own small =
    Post->>= (init_req_q-eq a.req_q) λ req_q r. Post->>= (init_event_q-eq a.event_q) λ event_q e.
      Post->>= (init_book-eq bids_flag a.bids) λ bids b.
        Post->>= (init_book-eq asks_flag a.asks) λ asks c.
          Post->>= (load_new program_id i a a.remaining refl own) λ contents new.
            let market = a.market in
            let m = new.0 in
            let key : (k : MarketState → Address) → k (market_state m) ≡ k (new_market i a) =
              λ k. ap k new.2 in
            returns
              {a = record a {
                market = record market { contents = contents };
                req_q = req_q;
                event_q = event_q;
                bids = bids;
                asks = asks;
              }}
              (record {
                market = m;
                loads = new.1;
                made = subst (IsNew i a) (sym new.2) (new_market-IsNew i a);
                authorities = new.3;
                bids = rw b (loads_bids (market_state m) a.bids (key (λ m. m.bids)));
                asks = rw c (loads_asks (market_state m) a.asks (key (λ m. m.asks)));
                requests = rw r (loads_req_q (market_state m) a.req_q (key (λ m. m.req_q)));
                events = rw (e.0) (loads_event_q (market_state m) a.event_q (key (λ m. m.event_q)));
                events_valid =
                    rw (e.0) (record { head_in = e.1; count_in = omega arith; small = small });
                no_events =
                    rw (e.0) (record { counted = refl; items = λ i p. absurd (omega (arith, p)) });
              })

-- What the accounts that a market was made of showed.
pub record IsChecked (signer_key : ℕ → Address → Address → DexResult Address) (program_id : Address)
    (i : InitializeMarketInstruction) (a : InitializeAccounts) : Type 0 where
  pub vault_owner : Address
  pub named : signer_key i.vault_signer_nonce a.market.key program_id ≡ ok vault_owner
  pub coin_owned : IsOwned vault_owner a.coin_vault
  pub pc_owned : IsOwned vault_owner a.pc_vault

module _ (signer_key : ℕ → Address → Address → DexResult Address) (spl_token program_id : Address)
    (rent : Rent) (i : InitializeMarketInstruction) where
  check_initialize-IsChecked :
      (a : InitializeAccounts)
      → Post
          (λ _. ((a.market.owner == program_id) ≡ true) × IsChecked signer_key program_id i a)
          (check_initialize signer_key spl_token program_id rent i a)
  unfolding check_initialize
  check_initialize-IsChecked a =
      Post->>= (check_assert-true state 1850 (leb (length a.remaining) 3)) λ _ _.
        Post->>= (Post-eq (check_rents rent a)) λ _ _.
          Post->>= (check_all_unused-owner program_id a) λ _ own.
            Post->>= (Post-eq (signer_key i.vault_signer_nonce a.market.key program_id))
              λ vault_owner named.
                Post->>= (check_vault-IsOwned spl_token vault_owner a.coin_vault a.coin_mint)
                  λ _ coin.
                    Post-imp (check_vault-IsOwned spl_token vault_owner a.pc_vault a.pc_mint)
                      λ _ pc. (
                        own,
                        record {
                          vault_owner = vault_owner;
                          named = named;
                          coin_owned = coin;
                          pc_owned = pc;
                        },
                      )

  initialize_market-Post :
      (a : InitializeAccounts)
      → length a.event_q.contents.buf < 2 ^ 63
      → Post
          (λ b. IsChecked signer_key program_id i a × IsFresh program_id i a b)
          (initialize_market_instruction signer_key spl_token program_id rent i a)
  unfolding initialize_market_instruction
  initialize_market-Post a small =
      Post->>= (check_initialize-IsChecked a)
        λ _ c. Post-imp (process_initialize_market-IsFresh program_id i a c.0 small) λ b f. (c.1, f)

  -- Making a market, for an event queue within an address space, succeeds only with two vaults that the
  -- market's signer owns and nobody else can move or close; then the market loads as an enabled one, with
  -- no deposits, fees or rebates and with the keys, lots, rate, threshold and nonce that were given, and
  -- names just the authorities that were given, the default key for the pruning where only one was; its book, request queue and event queue load with it; and the event queue is
  -- valid and holds no event.
  pub initialize_market_lem :
      (a b : InitializeAccounts)
      → length a.event_q.contents.buf < 2 ^ 63
      → initialize_market_instruction signer_key spl_token program_id rent i a ≡ ok b
      → IsChecked signer_key program_id i a × IsFresh program_id i a b
  initialize_market_lem a b small e = Post-ok (initialize_market-Post a small) e
