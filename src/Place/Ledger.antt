-- ===== src/Place/Ledger.antt =====
-- The vaults of a market before and after an order is placed: `process_new_order_v3` of
-- dex/src/state.rs.
use openbook_dex.Prelude.{
  ℕ, ◌+◌, ◌%◌, ◌≤◌, ◌≡◌, ◌≢◌, refl, sym, ap, not, ◌&&◌, if◌then◌else◌, Option, none, some, arith,
  ◌==◌, IsU64, u64_mod, checked_sub, ==_iff, set,
}
use openbook_dex.Error.{
  ok, err, error_code, ◌>>◌, check_or, check_assert, state, insufficient_funds, transfer_failed,
  order_max_timestamp_exceeded,
}
use openbook_dex.Error.Post.{Post, returns, fails, Post->>=, Post-if, Post-eq, Post-ok}
use openbook_dex.Fees.{FeeTier}
use openbook_dex.Types.{Side, bid, ask, Address}
use openbook_dex.Market.{MarketState}
use openbook_dex.OpenOrders.{OpenOrders, add_order}
use openbook_dex.Request.{RequestQueue, gen_order_id}
use openbook_dex.Instruction.{NewOrderInstructionV3}
use openbook_dex.Matching.Bid.{is_some}
use openbook_dex.Matching.State.{Context}
use openbook_dex.Matching.Ledger.{IsBalanced}
use openbook_dex.Market.{pc_owed}
use openbook_dex.Matching.Cancel.Ledger.{process_orderbook_request-IsBalanced}
use openbook_dex.Vault.{TokenProgram, TokenLaws}
use openbook_dex.Place.{Locked, Placed, lock_funds, place_order}
use openbook_dex.Place.Funds.{LockedFor, lock_funds_lem, book_proceeds-Booked}
use openbook_dex.Place.Deposit.{
  PlaceAccounts, PlaceState, deposit_vault, deposit, process_new_order_v3, i64_lt, i64_max,
  is_amount,
}

-- The market with a deposit into the vault of the side.
abbrev pub deposited : Side → MarketState → ℕ → MarketState
deposited bid m n = record m { pc_deposits_total = m.pc_deposits_total + n }
deposited ask m n = record m { coin_deposits_total = m.coin_deposits_total + n }

-- An order that was placed, before its deposit is transferred.
record IsPlaced (i : NewOrderInstructionV3) (balance : ℕ) (m : MarketState) (r : Placed)
    : Type 0 where
  balanced : IsBalanced (deposited i.side m r.deposit_amount) r.context.market_state
  afforded : r.deposit_amount ≤ balance
  coin_covered : r.open_orders.native_coin_free ≤ r.open_orders.native_coin_total
  pc_covered : r.open_orders.native_pc_free ≤ r.open_orders.native_pc_total

-- What locking leaves, without the side.
locked-market :
    (side : Side) (i : NewOrderInstructionV3) (balance : ℕ) (m : MarketState) (o : OpenOrders)
    (l : Locked)
    → LockedFor side i balance m o l
    → (l.market ≡ deposited side m l.deposit_amount) × (l.deposit_amount ≤ balance)
locked-market bid i balance m o l h = (h.market, h.afforded)
locked-market ask i balance m o l h = (h.market, h.afforded)

place_order-IsPlaced :
    (i : NewOrderInstructionV3) (balance : ℕ) (tier : FeeTier) (address : Address)
    (q : RequestQueue) (o : OpenOrders) (c : Context)
    → IsU64 i.max_native_pc_qty_including_fees
    → Post (IsPlaced i balance c.market_state) (place_order i balance tier address q o c)
unfolding place_order
place_order-IsPlaced i balance tier address q o c small =
    Post->>= (Post-eq (check_assert state 3358 (q.header.count == 0))) λ _ _.
      Post->>= (Post-eq (lock_funds i balance c.market_state o)) λ l e.
        let (market, afforded) =
          locked-market i.side i balance c.market_state o l
            (lock_funds_lem i balance c.market_state o l small e) in
        Post->>= (Post-eq (add_order l.open_orders (gen_order_id q i.limit_price i.side).0 i.side))
          λ added _.
            let o₁ = record added.1 {
              client_order_ids = set (added.1).client_order_ids added.0 i.client_order_id;
            } in
            Post->>= (process_orderbook_request-IsBalanced _ _ i.limit) λ r b.
              Post->>= (Post-eq (check_assert state 3431 (not (is_some r.0)))) λ _ _.
                Post->>= (book_proceeds-Booked (r.2).market_state.coin_lot_size (r.2).proceeds o₁)
                  λ o₂ booked.
                    let placed : Placed = record {
                      deposit_amount = l.deposit_amount;
                      req_q = (gen_order_id q i.limit_price i.side).1;
                      open_orders = o₂;
                      context = r.2;
                    } in
                    returns {a = placed} (record {
                      balanced = rw (← market) b;
                      afforded = afforded;
                      coin_covered = booked.coin_covered;
                      pc_covered = booked.pc_covered;
                    })

-- The payer and the two vaults are three accounts.
pub record IsApart (a : PlaceAccounts) : Type 0 where
  pub vaults : a.coin_vault ≢ a.pc_vault
  pub payer_coin : a.payer ≢ a.coin_vault
  pub payer_pc : a.payer ≢ a.pc_vault

module _ {S : Type 0} (P : TokenProgram S) (laws : TokenLaws P) where
  -- A deposit that was transferred.
  record IsMoved (payer vault : Address) (n : ℕ) (s t : S) : Type 0 where
    sent : P.balance t payer + n ≡ P.balance s payer
    received : P.balance t vault ≡ P.balance s vault + n
    untouched : (x : Address) → x ≢ payer → x ≢ vault → P.balance t x ≡ P.balance s x

  deposit-IsMoved :
      (s : S) (payer vault : Address) (n : ℕ)
      → payer ≢ vault
      → Post (IsMoved payer vault n s) (deposit P s payer vault n)
  unfolding deposit
  deposit-IsMoved s payer vault n apart =
      Post-if (n == 0)
        (λ e.
          let z = (==_iff n 0).0 e in
          returns
            (record { sent = omega arith; received = omega arith; untouched = λ x _ _. refl }))
        (λ _. transferred (P.transfer s payer vault n) refl)
    where
      transferred :
          (r : Option S)
          → P.transfer s payer vault n ≡ r
          → Post (IsMoved payer vault n s) (elim r [
            | none ↦ err (
                error_code
                  (if P.is_short s payer vault n then insufficient_funds else transfer_failed))
            | some t ↦
                check_assert state 3512
                  (is_amount n (checked_sub (P.balance t vault) (P.balance s vault)))
                >> ok t
          ])
      transferred none e = fails
      transferred (some t) e = Post->>= (Post-eq (check_assert state 3512 _)) λ _ _.
          returns (record {
            sent = laws.sent s t payer vault n e apart;
            received = laws.received s t payer vault n e apart;
            untouched = λ x. laws.untouched s t payer vault x n e;
          })

  payer-ne-vault : (side : Side) (a : PlaceAccounts) → IsApart a → a.payer ≢ deposit_vault side a
  payer-ne-vault bid a apart = apart.payer_pc
  payer-ne-vault ask a apart = apart.payer_coin

  -- What placing an order does: the vaults grow by just what the market owes more, the quote amounts
  -- wrapping; the payer has paid for it; nobody else's tokens move; the vaults of the market are the same; each free balance is within its
  -- total.
  pub record PlaceSpec (a : PlaceAccounts) (s t : PlaceState S) : Type 0 where
    pub pc :
        (P.balance t.tokens a.pc_vault + pc_owed s.context.market_state) % u64_mod
        ≡ (P.balance s.tokens a.pc_vault + pc_owed t.context.market_state) % u64_mod
    pub coin :
        P.balance t.tokens a.coin_vault + s.context.market_state.coin_deposits_total
        ≡ P.balance s.tokens a.coin_vault + t.context.market_state.coin_deposits_total
    pub paid :
        P.balance t.tokens a.payer + P.balance t.tokens a.coin_vault + P.balance t.tokens a.pc_vault
        ≡ P.balance s.tokens a.payer
          + P.balance s.tokens a.coin_vault
          + P.balance s.tokens a.pc_vault
    pub others :
        (x : Address)
        → x ≢ a.payer
        → x ≢ a.coin_vault
        → x ≢ a.pc_vault
        → P.balance t.tokens x ≡ P.balance s.tokens x
    pub coin_vault : t.context.market_state.coin_vault ≡ s.context.market_state.coin_vault
    pub pc_vault : t.context.market_state.pc_vault ≡ s.context.market_state.pc_vault
    pub coin_covered : t.open_orders.native_coin_free ≤ t.open_orders.native_coin_total
    pub pc_covered : t.open_orders.native_pc_free ≤ t.open_orders.native_pc_total

  spec_of :
      (side : Side) (a : PlaceAccounts) (s t : PlaceState S) (n : ℕ)
      → IsApart a
      → IsBalanced (deposited side s.context.market_state n) t.context.market_state
      → IsMoved a.payer (deposit_vault side a) n s.tokens t.tokens
      → t.open_orders.native_coin_free ≤ t.open_orders.native_coin_total
      → t.open_orders.native_pc_free ≤ t.open_orders.native_pc_total
      → PlaceSpec a s t
  spec_of bid a s t n apart b moved coin pc =
      let same = moved.untouched a.coin_vault (λ e. apart.payer_coin (sym e)) apart.vaults in
      let kept = ap (λ m. m.coin_deposits_total) b.only in
      let owed = b.owed in
      let sent = moved.sent in
      let got = moved.received in
      record {
        pc = omega arith;
        coin = omega arith;
        paid = omega arith;
        others = λ x p c v. moved.untouched x p v;
        coin_vault = ap (λ m. m.coin_vault) b.only;
        pc_vault = ap (λ m. m.pc_vault) b.only;
        coin_covered = coin;
        pc_covered = pc;
      }
  spec_of ask a s t n apart b moved coin pc =
      let same =
        moved.untouched a.pc_vault (λ e. apart.payer_pc (sym e)) (λ e. apart.vaults (sym e)) in
      let kept = ap (λ m. m.coin_deposits_total) b.only in
      let owed = b.owed in
      let sent = moved.sent in
      let got = moved.received in
      record {
        pc = omega arith;
        coin = omega arith;
        paid = omega arith;
        others = λ x p c v. moved.untouched x p c;
        coin_vault = ap (λ m. m.coin_vault) b.only;
        pc_vault = ap (λ m. m.pc_vault) b.only;
        coin_covered = coin;
        pc_covered = pc;
      }

  pub process_new_order_v3-PlaceSpec :
      (cur_ts : ℕ) (i : NewOrderInstructionV3) (tier : FeeTier) (a : PlaceAccounts)
      (s : PlaceState S)
      → IsU64 i.max_native_pc_qty_including_fees
      → IsApart a
      → Post (PlaceSpec a s) (process_new_order_v3 P cur_ts i tier a s)
  unfolding process_new_order_v3
  process_new_order_v3-PlaceSpec cur_ts i tier a s small apart =
      Post->>=
        (Post-eq (
          check_or (not (i64_lt i.max_ts i64_max && i64_lt i.max_ts cur_ts))
            order_max_timestamp_exceeded))
        λ _ _.
          Post->>=
            (place_order-IsPlaced i (P.balance s.tokens a.payer) tier a.open_orders s.req_q
              s.open_orders s.context small)
            λ r placed.
              let vault = deposit_vault i.side a in
              let n = r.deposit_amount in
              Post->>= (deposit-IsMoved s.tokens a.payer vault n (payer-ne-vault i.side a apart))
                λ tokens moved.
                  let t : PlaceState S = record {
                    req_q = r.req_q;
                    open_orders = r.open_orders;
                    context = r.context;
                    tokens = tokens;
                  } in
                  returns {a = t} (
                    spec_of i.side a s t n apart placed.balanced moved placed.coin_covered
                      placed.pc_covered)

  -- Placing an order, a bid's amount being a `u64`, for a payer and vaults that are three accounts and a
  -- token program that moves what it is told to: when it succeeds, each vault has gained just what the
  -- market owes more from it, where the sum of the quote deposits, fees and rebates wraps; the payer has
  -- paid for that, and nobody else's tokens move; and each free balance of the account is within its
  -- total. This holds through all the rounds of matching, whatever is in the book.
  pub process_new_order_v3_lem :
      (cur_ts : ℕ) (i : NewOrderInstructionV3) (tier : FeeTier) (a : PlaceAccounts)
      (s t : PlaceState S)
      → IsU64 i.max_native_pc_qty_including_fees
      → IsApart a
      → process_new_order_v3 P cur_ts i tier a s ≡ ok t
      → PlaceSpec a s t
  process_new_order_v3_lem cur_ts i tier a s t small apart e =
      Post-ok (process_new_order_v3-PlaceSpec cur_ts i tier a s small apart) e
