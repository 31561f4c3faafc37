-- ===== src/Vault.antt =====
-- The handlers of dex/src/state.rs that pay out of the vaults: `process_settle_funds` and
-- `process_sweep_fees`, with `send_from_vault`. The accounts have been parsed: the vaults are those of
-- the market, and the wallets are addresses. The token program is a parameter.
pub mod Settle
pub mod Sample
mod Tests
use openbook_dex.Prelude.{
  ℕ, ◌+◌, ◌≡◌, ◌≢◌, Bool, Option, none, some, ltb, if◌then◌else◌, add64, sub64, checked_sub,
}
use openbook_dex.Error.{DexResult, ok, ◌>>=◌, unwrap, ok_or, transfer_failed}
use openbook_dex.Types.{Address}
use openbook_dex.Market.{MarketState}
use openbook_dex.OpenOrders.{OpenOrders}

-- The token program: the balances of its accounts, and a transfer, which may fail; then it may report
-- that the funds are insufficient.
pub record TokenProgram (S : Type 0) : Type 0 where
  pub balance : S → Address → ℕ
  pub transfer : S → Address → Address → ℕ → Option S
  pub is_short : S → Address → Address → ℕ → Bool

-- What is documented of a transfer that succeeds: it takes the amount from one account, gives it to
-- the other, and touches no third one.
pub record TokenLaws {S : Type 0} (P : TokenProgram S) : Type 0 where
  pub sent :
      (s t : S) (a b : Address) (n : ℕ)
      → P.transfer s a b n ≡ some t
      → a ≢ b
      → P.balance t a + n ≡ P.balance s a
  pub received :
      (s t : S) (a b : Address) (n : ℕ)
      → P.transfer s a b n ≡ some t
      → a ≢ b
      → P.balance t b ≡ P.balance s b + n
  pub untouched :
      (s t : S) (a b x : Address) (n : ℕ)
      → P.transfer s a b n ≡ some t
      → x ≢ a
      → x ≢ b
      → P.balance t x ≡ P.balance s x

-- What a payment works on.
pub record Funds (S : Type 0) : Type 0 where
  pub market : MarketState
  pub open_orders : OpenOrders
  pub tokens : S

module _ {S : Type 0} (P : TokenProgram S) where
  unfoldable pub send_from_vault : S → ℕ → Address → Address → DexResult S
  send_from_vault s native_amount recipient vault =
      ok_or (P.transfer s vault recipient native_amount) transfer_failed

  -- The referrer's share of `process_settle_funds`: paid out, or added to the fees.
  unfoldable pub settle_rebates : Option Address → Funds S → DexResult (Funds S)
  settle_rebates none f =
      let m = f.market in
      ok (record f {
        market = record m {
          pc_fees_accrued = add64 m.pc_fees_accrued f.open_orders.referrer_rebates_accrued;
        };
      })
  settle_rebates (some referrer) f =
      let m = f.market in
      let rebates = f.open_orders.referrer_rebates_accrued in
      if ltb 0 rebates
      then (send_from_vault f.tokens rebates referrer m.pc_vault >>= λ s.
          ok (record f { tokens = s }))
      else ok (record f { market = record m { pc_fees_accrued = add64 m.pc_fees_accrued rebates } })

  unfoldable pub settle_funds : Address → Address → Option Address → Funds S → DexResult (Funds S)
  unfolding settle_rebates
  settle_funds coin_wallet pc_wallet referrer f =
      let m = f.market in
      let o = f.open_orders in
      let native_coin_amount = o.native_coin_free in
      let native_pc_amount = o.native_pc_free in
      unwrap (checked_sub o.native_coin_total native_coin_amount) >>= λ coin_total.
      unwrap (checked_sub o.native_pc_total native_pc_amount) >>= λ pc_total.
      send_from_vault f.tokens native_coin_amount coin_wallet m.coin_vault >>= λ s₁.
      send_from_vault s₁ native_pc_amount pc_wallet m.pc_vault >>= λ s₂.
      settle_rebates referrer (record {
        market = record m {
          coin_deposits_total = sub64 m.coin_deposits_total native_coin_amount;
          pc_deposits_total = sub64 m.pc_deposits_total native_pc_amount;
        };
        open_orders = record o {
          native_coin_free = 0;
          native_pc_free = 0;
          native_coin_total = coin_total;
          native_pc_total = pc_total;
        };
        tokens = s₂;
      })
      >>= λ g.
          (let rebates = g.open_orders.referrer_rebates_accrued in
            let n = g.market in
            ok (record g {
              market = record n {
                referrer_rebates_accrued = sub64 n.referrer_rebates_accrued rebates;
              };
              open_orders = record g.open_orders { referrer_rebates_accrued = 0 };
            }))

  unfoldable pub sweep_fees : Address → MarketState → S → DexResult (MarketState × S)
  sweep_fees fee_receiver m s = send_from_vault s m.pc_fees_accrued fee_receiver m.pc_vault >>= λ t.
      ok (record m { pc_fees_accrued = 0 }, t)
