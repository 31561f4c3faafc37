-- ===== src/Place/Funds.antt =====
-- The funds of an account before and after an order is placed: `process_new_order_v3` of
-- dex/src/state.rs.
use Prim.Native.Nat.{min}
use openbook_dex.Prelude.{
  ℕ, ◌+◌, ◌-◌, ◌*◌, ◌≤◌, ◌≡◌, refl, ap, Bool, true, false, not, Option, none, some, arith, ltb, leb,
  IsU64, sub64, sub64-eq, checked_add, checked_sub,
}
use openbook_dex.Error.{DexErrorCode, ok, ok_or, check_or, check_assert, state, insufficient_funds}
use openbook_dex.Error.Post.{Post, returns, fails, Post->>=, Post-unwrap, Post-ok}
use openbook_dex.Types.{Side, bid, ask}
use openbook_dex.Market.{MarketState}
use openbook_dex.OpenOrders.{OpenOrders}
use openbook_dex.OpenOrders.Balances.{
  checked_add-some, checked_sub-some, credit_locked_coin-HasBalances, credit_locked_pc-HasBalances,
  lock_free_coin-HasBalances, lock_free_pc-HasBalances, unlock_coin-HasBalances,
  unlock_pc-HasBalances,
}
use openbook_dex.Matching.State.{RequestProceeds}
use openbook_dex.Instruction.{NewOrderInstructionV3}
use openbook_dex.Place.{Locked, checked_mul, lock_bid, lock_ask, lock_funds, book_proceeds}

checked_mul-some : (a b t : ℕ) → checked_mul a b ≡ some t → t ≡ a * b
unfolding checked_mul
checked_mul-some a b t h = ground arith

check_assert-true : (line : ℕ) (b : Bool) → Post (λ _. b ≡ true) (check_assert state line b)
check_assert-true line true = returns refl
check_assert-true line false = fails

check_or-true : (b : Bool) (e : DexErrorCode) → Post (λ _. b ≡ true) (check_or b e)
check_or-true true e = returns refl
check_or-true false e = fails

-- The account with the proceeds booked, in native units: what is credited is added to the total and
-- to the free balance, what is unlocked to the free balance, and what is debited is taken off the
-- total; each free balance is within its total.
pub record Booked (lot : ℕ) (p : RequestProceeds) (o d : OpenOrders) : Type 0 where
  pub coin_free :
      d.native_coin_free ≡ o.native_coin_free + p.coin_credit * lot + p.coin_unlocked * lot
  pub coin_total :
      d.native_coin_total + p.coin_debit * lot ≡ o.native_coin_total + p.coin_credit * lot
  pub coin_covered : d.native_coin_free ≤ d.native_coin_total
  pub pc_free : d.native_pc_free ≡ o.native_pc_free + p.native_pc_credit + p.native_pc_unlocked
  pub pc_total : d.native_pc_total + p.native_pc_debit ≡ o.native_pc_total + p.native_pc_credit
  pub pc_covered : d.native_pc_free ≤ d.native_pc_total

pub book_proceeds-Booked :
    (lot : ℕ) (p : RequestProceeds) (o : OpenOrders) → Post (Booked lot p o) (book_proceeds lot p o)
unfolding book_proceeds
book_proceeds-Booked lot p o =
    Post->>= (Post-unwrap (checked_mul p.coin_unlocked lot)) λ unlocked u.
      Post->>= (Post-unwrap (checked_mul p.coin_credit lot)) λ credit c.
        Post->>= (Post-unwrap (checked_mul p.coin_debit lot)) λ debit b.
          Post->>= (credit_locked_coin-HasBalances o credit) λ o₁ h₁.
            Post->>= (unlock_coin-HasBalances o₁ credit) λ o₂ h₂.
              Post->>= (unlock_coin-HasBalances o₂ unlocked) λ o₃ h₃.
                Post->>= (credit_locked_pc-HasBalances o₃ p.native_pc_credit) λ o₄ h₄.
                  Post->>= (unlock_pc-HasBalances o₄ p.native_pc_credit) λ o₅ h₅.
                    Post->>= (unlock_pc-HasBalances o₅ p.native_pc_unlocked) λ o₆ h₆.
                      Post->>= (Post-unwrap (checked_sub o₆.native_coin_total debit)) λ ct e.
                        Post->>= (Post-unwrap (checked_sub o₆.native_pc_total p.native_pc_debit))
                          λ pt e'.
                            Post->>= (check_assert-true 3467 (leb o₆.native_coin_free ct)) λ _ t.
                              Post->>= (check_assert-true 3468 (leb o₆.native_pc_free pt)) λ _ t'.
                                let u' = checked_mul-some p.coin_unlocked lot unlocked u in
                                let c' = checked_mul-some p.coin_credit lot credit c in
                                let b' = checked_mul-some p.coin_debit lot debit b in
                                let s = checked_sub-some o₆.native_coin_total debit ct e in
                                let s' =
                                  checked_sub-some o₆.native_pc_total p.native_pc_debit pt e' in
                                let a₂ = h₂.1 in
                                let a₃ = h₃.1 in
                                let a₅ = h₅.1 in
                                let a₆ = h₆.1 in
                                returns (record {
                                  coin_free = omega arith;
                                  coin_total = omega arith;
                                  coin_covered = ground arith;
                                  pc_free = omega arith;
                                  pc_total = omega arith;
                                  pc_covered = ground arith;
                                })

-- Booking the proceeds of an order, when it succeeds, moves the balances by just those amounts and
-- leaves each free balance within its total.
pub book_proceeds_lem :
    (lot : ℕ) (p : RequestProceeds) (o d : OpenOrders)
    → book_proceeds lot p o ≡ ok d
    → Booked lot p o d
book_proceeds_lem lot p o d e = Post-ok (book_proceeds-Booked lot p o) e

-- A bid's funds locked: what the account has locked, its total less its free balance, grows by the
-- amount of the order; the deposit is what the free balance is short of the amount; the total and the
-- market's deposits grow by the deposit, which the payer has;
-- the other currency and the rest of the market stay as they were.
pub record BidLocked (balance lock : ℕ) (m : MarketState) (o : OpenOrders) (l : Locked)
    : Type 0 where
  pub locked : l.native_pc_qty_locked ≡ some lock
  pub deposit : l.deposit_amount ≡ lock - o.native_pc_free
  pub grows :
      (l.open_orders).native_pc_total + o.native_pc_free
      ≡ o.native_pc_total + (l.open_orders).native_pc_free + lock
  pub total : (l.open_orders).native_pc_total ≡ o.native_pc_total + l.deposit_amount
  pub market : l.market ≡ record m { pc_deposits_total = m.pc_deposits_total + l.deposit_amount }
  pub afforded : l.deposit_amount ≤ balance
  pub coin_free : (l.open_orders).native_coin_free ≡ o.native_coin_free
  pub coin_total : (l.open_orders).native_coin_total ≡ o.native_coin_total

lock_bid-BidLocked :
    (i : NewOrderInstructionV3) (balance : ℕ) (m : MarketState) (o : OpenOrders)
    → IsU64 i.max_native_pc_qty_including_fees
    → Post (BidLocked balance i.max_native_pc_qty_including_fees m o) (lock_bid i balance m o)
unfolding lock_bid
lock_bid-BidLocked i balance m o small =
    let lock = i.max_native_pc_qty_including_fees in
    let free = min lock o.native_pc_free in
    let deposit = sub64 lock free in
    let rest = sub64-eq lock free small (omega arith) in
    Post->>= (check_or-true (not (ltb balance deposit)) insufficient_funds) λ _ t.
      Post->>= (lock_free_pc-HasBalances o free) λ o₁ h₁.
        Post->>= (credit_locked_pc-HasBalances o₁ deposit) λ o₂ h₂.
          Post->>= (Post-unwrap (checked_add m.pc_deposits_total deposit)) λ d e.
            let a₁ = h₁.1 in
            returns (record {
              locked = refl;
              deposit = omega arith;
              grows = omega arith;
              total = omega arith;
              market =
                  ap (λ t. record m { pc_deposits_total = t })
                    (checked_add-some m.pc_deposits_total deposit d e);
              afforded = ground arith;
              coin_free = omega arith;
              coin_total = omega arith;
            })

-- An offer's funds locked, in the same way, for the lots of the order.
pub record AskLocked (balance lock : ℕ) (m : MarketState) (o : OpenOrders) (l : Locked)
    : Type 0 where
  pub locked : l.native_pc_qty_locked ≡ none
  pub deposit : l.deposit_amount ≡ lock - o.native_coin_free
  pub grows :
      (l.open_orders).native_coin_total + o.native_coin_free
      ≡ o.native_coin_total + (l.open_orders).native_coin_free + lock
  pub total : (l.open_orders).native_coin_total ≡ o.native_coin_total + l.deposit_amount
  pub market :
      l.market ≡ record m { coin_deposits_total = m.coin_deposits_total + l.deposit_amount }
  pub afforded : l.deposit_amount ≤ balance
  pub pc_free : (l.open_orders).native_pc_free ≡ o.native_pc_free
  pub pc_total : (l.open_orders).native_pc_total ≡ o.native_pc_total

checked_mul-IsU64 : (a b t : ℕ) → checked_mul a b ≡ some t → IsU64 t
unfolding checked_mul
checked_mul-IsU64 a b t h = ground arith

ok_or-some : (r : Option ℕ) (e : DexErrorCode) → Post (λ t. r ≡ some t) (ok_or r e)
ok_or-some none e = fails
ok_or-some (some t) e = returns refl

lock_ask-AskLocked :
    (i : NewOrderInstructionV3) (balance : ℕ) (m : MarketState) (o : OpenOrders)
    → Post (AskLocked balance (i.max_coin_qty * m.coin_lot_size) m o) (lock_ask i balance m o)
unfolding lock_ask
lock_ask-AskLocked i balance m o =
    Post->>= (ok_or-some (checked_mul i.max_coin_qty m.coin_lot_size) insufficient_funds) λ lock f.
      let free = min lock o.native_coin_free in
      let deposit = sub64 lock free in
      let product = checked_mul-some i.max_coin_qty m.coin_lot_size lock f in
      let rest =
        sub64-eq lock free (checked_mul-IsU64 i.max_coin_qty m.coin_lot_size lock f)
          (omega arith) in
      Post->>= (check_or-true (not (ltb balance deposit)) insufficient_funds) λ _ t.
        Post->>= (lock_free_coin-HasBalances o free) λ o₁ h₁.
          Post->>= (credit_locked_coin-HasBalances o₁ deposit) λ o₂ h₂.
            Post->>= (Post-unwrap (checked_add m.coin_deposits_total deposit)) λ d e.
              let a₁ = h₁.1 in
              returns (record {
                locked = refl;
                deposit = omega arith;
                grows = omega arith;
                total = omega arith;
                market =
                    ap (λ t. record m { coin_deposits_total = t })
                      (checked_add-some m.coin_deposits_total deposit d e);
                afforded = ground arith;
                pc_free = omega arith;
                pc_total = omega arith;
              })

-- By the side of the order.
abbrev pub LockedFor : Side → NewOrderInstructionV3 → ℕ → MarketState → OpenOrders → Locked → Type 0
LockedFor bid i balance m o l = BidLocked balance i.max_native_pc_qty_including_fees m o l
LockedFor ask i balance m o l = AskLocked balance (i.max_coin_qty * m.coin_lot_size) m o l

-- Locking the funds of an order, a bid's amount being a `u64`, locks just the amount of the order
-- when it succeeds: from the account's free balance as far as that goes, and the rest from a deposit,
-- just what the free balance is short of the amount, that the payer has and that the market's deposits
-- grow by; the other currency's balances and the rest of the market stay as they were.
pub lock_funds_lem :
    (i : NewOrderInstructionV3) (balance : ℕ) (m : MarketState) (o : OpenOrders) (l : Locked)
    → IsU64 i.max_native_pc_qty_including_fees
    → lock_funds i balance m o ≡ ok l
    → LockedFor i.side i balance m o l
unfolding lock_funds
lock_funds_lem i balance m o l small e =
    Post-ok
      (elim i.side
        as (λ s.
          Post (LockedFor s i balance m o)
            (elim s [ bid ↦ lock_bid i balance m o | ask ↦ lock_ask i balance m o ])) [
              | bid ↦ lock_bid-BidLocked i balance m o small
              | ask ↦ lock_ask-AskLocked i balance m o
            ])
      e
