-- ===== src/Handlers/Deposits.antt =====
-- The vaults of a market before and after `process_new_order_v3` and
-- `process_replace_orders_by_client_ids` of dex/src/state.rs, from the accounts on.
mod Tests
use openbook_dex.Prelude.{
  ℕ, ◌+◌, ◌%◌, ◌≡◌, ◌≢◌, refl, sym, ap, ◌∙◌, Bool, true, false, not, List, [], ◌∷◌, Option, none,
  some, arith, leb, ◌==◌, ==_iff, IsU64, u64_mod, length, if◌then◌else◌,
}
use Prim.Native.Nat.{bit_and}
use openbook_dex.Error.{
  DexResult, ok, ◌>>=◌, ◌>>◌, check_assert, check_or, state, invalid_market_flags, wrong_coin_vault,
  wrong_pc_vault,
}
use openbook_dex.Error.Post.{
  Post, returns, Post-ok, Post->>=, Post-if, Post-imp, Post-eq, check_assert-true, check_or-eq-ok,
}
use openbook_dex.Types.{Address, bid, ask}
use openbook_dex.OpenOrders.{OpenOrders}
use openbook_dex.Instruction.{NewOrderInstructionV3}
use openbook_dex.Instruction.Sequences.{All}
use openbook_dex.Market.{
  MarketState, is_account_flags, permissioned_flag, check_flags, check_enabled,
}
use openbook_dex.Market.Versions.{
  AccountInfo, MarketStateV2, Market, v1, v2, market_state, load_market, load_v1, load_v2,
  check_flags_v2,
}
use openbook_dex.Market.Loads.{
  Rent, TokenAccount, load_orders_mut, load_request_queue_mut, load_event_queue_mut, load_bids_mut,
  load_asks_mut, load_fee_tier, check_coin_vault, check_pc_vault,
}
use openbook_dex.Market.{pc_owed}
use openbook_dex.Matching.State.{no_proceeds}
use openbook_dex.Vault.{TokenProgram, TokenLaws}
use openbook_dex.Place.Deposit.{PlaceAccounts, PlaceState}
use openbook_dex.Place.Ledger.{IsApart, PlaceSpec, process_new_order_v3-PlaceSpec}
use openbook_dex.Handlers.Accounts.{
  KeyAccount, or_unreachable, signer_account, spl_token_program, token_account, coin_vault,
  pc_vault,
}
use openbook_dex.Handlers.Cancels.{
  CancelState, cancel_orders_by_client_ids_instruction, cancel_request, by_client_ids,
}
use openbook_dex.Handlers.Signers.{cancel_request_lem}
use openbook_dex.Handlers.Funded.{
  market_of, IsPayable, IsFunded, IsFunded-same, IsFunded-trans, IsFunded-IsPayable,
}
use openbook_dex.Handlers.Placing.{
  NewOrderAccounts, written_back, canceled_back, cancel_accounts_of, client_ids, discount_account,
  check_payer, new_order_v3_instruction, new_orders, replace_orders_by_client_ids_instruction,
}

-- Whatever the layout, the market is the one that the account holds.
module _ (account : AccountInfo MarketStateV2) (program_id : Address) (allow_disabled : Bool) where
  abbrev HoldsMarket : Market → Type 0
  HoldsMarket m = market_state m ≡ account.contents.inner

  load_v1-HoldsMarket : Post HoldsMarket (load_v1 account program_id allow_disabled)
  unfolding load_v1
  load_v1-HoldsMarket = Post->>= (check_assert-true _ _ _) λ _ _.
      Post->>= (Post-eq (check_flags account.contents.inner allow_disabled))
        λ _ _. returns {a = v1 account.contents.inner} refl

  load_v2-HoldsMarket : Post HoldsMarket (load_v2 account program_id allow_disabled)
  unfolding load_v2
  load_v2-HoldsMarket = Post->>= (check_assert-true _ _ _) λ _ _.
      Post->>= (Post-eq (check_flags_v2 account.contents allow_disabled))
        λ _ _. returns {a = v2 account.contents} refl

  load_market-HoldsMarket : Post HoldsMarket (load_market account program_id allow_disabled)
  unfolding load_market
  load_market-HoldsMarket =
      let flags = account.contents.inner.account_flags in
      Post->>=
        {f = λ _.
          if not (bit_and flags permissioned_flag == 0)
          then load_v2 account program_id allow_disabled
          else load_v1 account program_id allow_disabled}
        (Post-eq (check_or (is_account_flags flags) invalid_market_flags))
        λ _ _.
          Post-if (not (bit_and flags permissioned_flag == 0)) (λ _. load_v2-HoldsMarket)
            (λ _. load_v1-HoldsMarket)

module _ (spl_token : Address) (m : MarketState) (account : AccountInfo TokenAccount) where
  coin_vault-key : Post (λ _. m.coin_vault ≡ account.key) (coin_vault spl_token m account)
  unfolding coin_vault check_coin_vault
  coin_vault-key = Post->>= (Post-eq (token_account spl_token account)) λ _ _.
      Post-imp (Post-eq (check_or (m.coin_vault == account.key) wrong_coin_vault))
        λ _ e. (==_iff _ _).0 (check_or-eq-ok _ _ e)

  pc_vault-key : Post (λ _. m.pc_vault ≡ account.key) (pc_vault spl_token m account)
  unfolding pc_vault check_pc_vault
  pc_vault-key = Post->>= (Post-eq (token_account spl_token account)) λ _ _.
      Post-imp (Post-eq (check_or (m.pc_vault == account.key) wrong_pc_vault))
        λ _ e. (==_iff _ _).0 (check_or-eq-ok _ _ e)

-- The account of the open orders is the program's, and the owner that is written in it signs.
abbrev pub HasSigned : Address → NewOrderAccounts → Type 0
HasSigned program_id a =
    (a.open_orders.owner ≡ program_id)
    × (a.open_orders.contents.owner ≡ a.owner.key)
    × (a.owner.is_signer ≡ true)

module _ {S : Type 0} (P : TokenProgram S) (laws : TokenLaws P) (spl_token program_id : Address)
    (rent : Rent) (cur_ts : ℕ) where
  abbrev place_accounts : NewOrderAccounts → PlaceAccounts
  place_accounts a = record {
    open_orders = a.open_orders.key;
    payer = a.payer.key;
    coin_vault = a.coin_vault.key;
    pc_vault = a.pc_vault.key;
  }

  payable_of :
      (a : NewOrderAccounts)
      → (market_of a).coin_vault ≡ a.coin_vault.key
      → (market_of a).pc_vault ≡ a.pc_vault.key
      → IsPayable a
      → IsApart (place_accounts a)
  payable_of a c p h = record {
    vaults = rw (← c, ← p) h.vaults;
    payer_coin = rw (← c) h.payer_coin;
    payer_pc = rw (← p) h.payer_pc;
  }

  IsFunded-of :
      (a : NewOrderAccounts) (p t : PlaceState S)
      → p.context.market_state ≡ market_of a
      → (market_of a).coin_vault ≡ a.coin_vault.key
      → (market_of a).pc_vault ≡ a.pc_vault.key
      → PlaceSpec P laws (place_accounts a) p t
      → IsFunded P a (written_back a t) p.tokens t.tokens
  IsFunded-of a p t e coin_key pc_key spec =
      let owed = ap pc_owed e in
      let deposits = ap (λ m. m.coin_deposits_total) e in
      let same_coin = ap (λ m. m.coin_vault) e in
      let same_pc = ap (λ m. m.pc_vault) e in
      record {
        coin_vault = spec.coin_vault ∙ same_coin;
        pc_vault = spec.pc_vault ∙ same_pc;
        payer = refl;
        pc = rw (pc_key, ← e) spec.pc;
        coin = rw (coin_key, ← e) spec.coin;
        paid = rw (coin_key, pc_key) spec.paid;
      }

  new_order-IsFunded :
      (i : NewOrderInstructionV3) (a : NewOrderAccounts) (s : S)
      → IsU64 i.max_native_pc_qty_including_fees
      → IsPayable a
      → Post
          (λ r. IsFunded P a r.0 s r.1)
          (new_order_v3_instruction P spl_token program_id rent cur_ts i a s)
  unfolding new_order_v3_instruction
  new_order-IsFunded i a s small payable = Post->>= (Post-eq (check_assert state 2064 _)) λ _ _.
      Post->>= (Post-eq (discount_account spl_token a.fee_discount)) λ discount _.
        Post->>= (load_market-HoldsMarket a.market program_id false) λ market held.
          let m = market_state market in
          Post->>= (Post-eq (signer_account a.owner)) λ _ _.
            Post->>= (Post-eq (load_fee_tier m a.owner.key discount)) λ tier _.
              Post->>= (Post-eq (load_request_queue_mut m a.req_q)) λ req_q _.
                Post->>= (Post-eq (load_event_queue_mut m a.event_q)) λ event_q _.
                  Post->>= (Post-eq (token_account spl_token a.payer)) λ _ _.
                    Post->>= (Post-eq (check_payer i.side m a.payer)) λ _ _.
                      Post->>= (coin_vault-key spl_token m a.coin_vault) λ _ coin_key.
                        Post->>= (pc_vault-key spl_token m a.pc_vault) λ _ pc_key.
                          Post->>= (Post-eq (check_enabled m)) λ _ _.
                            Post->>= (Post-eq (spl_token_program spl_token a.spl_token_program))
                              λ _ _.
                                Post->>= (Post-eq (or_unreachable 2118 (load_bids_mut m a.bids)))
                                  λ bids _.
                                    Post->>=
                                      (Post-eq (or_unreachable 2119 (load_asks_mut m a.asks)))
                                      λ asks _.
                                        Post->>=
                                          (Post-eq (
                                            load_orders_mut market a.open_orders (some a.owner.key)
                                              program_id (some rent) none))
                                          λ o _.
                                            let coin_vault_key =
                                              ap (λ m. m.coin_vault) (sym held) ∙ coin_key in
                                            let pc_vault_key =
                                              ap (λ m. m.pc_vault) (sym held) ∙ pc_key in
                                            let p : PlaceState S = record {
                                              req_q = req_q;
                                              open_orders = o;
                                              context = record {
                                                bids = bids;
                                                asks = asks;
                                                market_state = m;
                                                event_q = event_q;
                                                proceeds = no_proceeds;
                                              };
                                              tokens = s;
                                            } in
                                            Post->>=
                                              (process_new_order_v3-PlaceSpec P laws cur_ts i tier
                                                (place_accounts a) p small
                                                (payable_of a coin_vault_key pc_vault_key payable))
                                              λ t spec. returns {a = (written_back a t, t.tokens)} (
                                                IsFunded-of a p t held coin_vault_key pc_vault_key
                                                  spec)

  -- Each amount of the orders is a `u64`.
  abbrev AllU64 : List NewOrderInstructionV3 → Type 0
  AllU64 = All (λ i. IsU64 i.max_native_pc_qty_including_fees)

  new_orders-IsFunded :
      (is : List NewOrderInstructionV3) (a : NewOrderAccounts) (s : S)
      → AllU64 is
      → IsPayable a
      → Post (λ r. IsFunded P a r.0 s r.1) (new_orders P spl_token program_id rent cur_ts is a s)
  unfolding new_orders
  new_orders-IsFunded [] a s small payable = returns (IsFunded-same P a a s refl refl)
  new_orders-IsFunded (i ∷ is) a s small payable =
      Post->>= (new_order-IsFunded i a s small.0 payable) λ r f.
        Post-imp
          (new_orders-IsFunded is r.0 r.1 small.1 (IsFunded-IsPayable P a r.0 s r.1 f payable))
          λ q g. IsFunded-trans P a r.0 q.0 s r.1 q.1 f g

  replace-IsFunded :
      (is : List NewOrderInstructionV3) (a : NewOrderAccounts) (s : S)
      → AllU64 is
      → IsPayable a
      → Post
          (λ r. HasSigned program_id a × IsFunded P a r.0 s r.1)
          (replace_orders_by_client_ids_instruction P spl_token program_id rent cur_ts is a s)
  unfolding replace_orders_by_client_ids_instruction cancel_request
  replace-IsFunded is a s small payable =
      let ids = client_ids 8 is in
      Post->>=
        (Post-eq (cancel_orders_by_client_ids_instruction program_id ids (cancel_accounts_of a)))
        λ u e.
          let b = canceled_back a u in
          let run = cancel_request_lem program_id (by_client_ids ids) (cancel_accounts_of a) u e in
          let f = IsFunded-same P a b s refl refl in
          Post-imp (new_orders-IsFunded is b s small (IsFunded-IsPayable P a b s s f payable))
            λ q g. (
              (run.parsed.program, run.parsed.owned, run.parsed.signed),
              IsFunded-trans P a b q.0 s s q.1 f g,
            )

  -- Replacing orders, for amounts that are `u64`s, a payer and vaults that are three accounts and a
  -- token program that moves what it is told to: it succeeds only where the account of the open orders
  -- is the program's and the owner that is written in it signs; and over the cancels and all the new orders together, the vaults are the same two accounts,
  -- each has gained just what the market owes more from it, where the sum of the quote deposits, fees
  -- and rebates wraps, and the payer has paid for that.
  pub replace_orders_lem :
      (is : List NewOrderInstructionV3) (a b : NewOrderAccounts) (s t : S)
      → AllU64 is
      → IsPayable a
      → replace_orders_by_client_ids_instruction P spl_token program_id rent cur_ts is a s
        ≡ ok (b, t)
      → HasSigned program_id a × IsFunded P a b s t
  replace_orders_lem is a b s t small payable e = Post-ok (replace-IsFunded is a s small payable) e
