-- ===== src/Place/Deposit.antt =====
-- The whole of `process_new_order_v3` of dex/src/state.rs, over a token program: the test of the time,
-- the order, and the transfer of the deposit into a vault.
use openbook_dex.Prelude.{
  ℕ, ◌+◌, ◌-◌, ◌%◌, ◌^◌, Bool, false, not, ◌&&◌, Option, none, some, ltb, ◌==◌, if◌then◌else◌,
  u64_mod, checked_sub,
}
use openbook_dex.Error.{
  DexResult, ok, err, error_code, ◌>>=◌, ◌>>◌, check_or, check_assert, state, insufficient_funds,
  transfer_failed, order_max_timestamp_exceeded,
}
use openbook_dex.Fees.{FeeTier}
use openbook_dex.Types.{Side, bid, ask, Address}
use openbook_dex.OpenOrders.{OpenOrders}
use openbook_dex.Request.{RequestQueue}
use openbook_dex.Instruction.{NewOrderInstructionV3}
use openbook_dex.Matching.State.{Context}
use openbook_dex.Vault.{TokenProgram}
use openbook_dex.Place.{place_order}

-- `<` of two `i64`, each given by its bits.
abbrev pub i64_lt : ℕ → ℕ → Bool
i64_lt a b = ltb ((a + 2 ^ 63) % u64_mod) ((b + 2 ^ 63) % u64_mod)

abbrev pub i64_max : ℕ
i64_max = 2 ^ 63 - 1

-- The addresses that the handler works with; `open_orders` is that of the account.
pub record PlaceAccounts : Type 0 where
  pub open_orders : Address
  pub payer : Address
  pub coin_vault : Address
  pub pc_vault : Address

pub record PlaceState (S : Type 0) : Type 0 where
  pub req_q : RequestQueue
  pub open_orders : OpenOrders
  pub context : Context
  pub tokens : S

abbrev pub deposit_vault : Side → PlaceAccounts → Address
deposit_vault bid a = a.pc_vault
deposit_vault ask a = a.coin_vault

-- `Some(amount) == change`.
abbrev pub is_amount : ℕ → Option ℕ → Bool
is_amount n none = false
is_amount n (some m) = n == m

module _ {S : Type 0} (P : TokenProgram S) where
  unfoldable pub deposit : S → Address → Address → ℕ → DexResult S
  deposit s payer vault deposit_amount =
      if deposit_amount == 0 then ok s else (elim (P.transfer s payer vault deposit_amount) [
        | none ↦ err (
            error_code (
              if P.is_short s payer vault deposit_amount
              then insufficient_funds
              else transfer_failed))
        | some t ↦
            check_assert state 3512
              (is_amount deposit_amount (checked_sub (P.balance t vault) (P.balance s vault)))
            >> ok t
      ])

  -- `cur_ts` is the time of the clock.
  unfoldable pub process_new_order_v3 :
      ℕ → NewOrderInstructionV3 → FeeTier → PlaceAccounts → PlaceState S → DexResult (PlaceState S)
  unfolding deposit
  process_new_order_v3 cur_ts i fee_tier a s =
      check_or (not (i64_lt i.max_ts i64_max && i64_lt i.max_ts cur_ts))
        order_max_timestamp_exceeded
      >> (place_order i (P.balance s.tokens a.payer) fee_tier a.open_orders s.req_q s.open_orders
            s.context
          >>= λ r. deposit s.tokens a.payer (deposit_vault i.side a) r.deposit_amount >>= λ t.
              ok (record {
                req_q = r.req_q;
                open_orders = r.open_orders;
                context = r.context;
                tokens = t;
              }))
