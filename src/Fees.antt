-- ===== src/Fees.antt =====
-- dex/src/fees.rs: the fee tiers and their fixed-point arithmetic. A `U64F64` is its `u128`.
pub mod Bounds
pub mod RoundTrip
mod Tests
use openbook_dex.Prelude.{
  ℕ, zero, suc, ◌≡◌, refl, arith, ◌+◌, ◌*◌, ◌/◌, ◌%◌, ◌^◌, Option, none, some, ltb, ◌==◌, not,
  if◌then◌else◌, u64_mod, u128_mod, add64,
}
use openbook_dex.Error.{DexResult, unwrap}

pub data FeeTier : Type 0 where
  base srm2 srm3 srm4 srm5 srm6 msrm stable : FeeTier

-- The operations of `U64F64`.
abbrev pub one : ℕ
one = 2 ^ 64

abbrev pub add : ℕ → ℕ → ℕ
add a b = (a + b) % u128_mod

abbrev pub div : ℕ → ℕ → ℕ
div a b = a / b

abbrev pub mul_u64 : ℕ → ℕ → ℕ
mul_u64 a n = a * n % u128_mod

abbrev pub floor : ℕ → ℕ
floor a = a / 2 ^ 64 % u64_mod

abbrev pub frac_part : ℕ → ℕ
frac_part a = a % u64_mod

abbrev pub from_int : ℕ → ℕ
from_int n = n * 2 ^ 64 % u128_mod

abbrev pub fee_tenth_of_bps : ℕ → ℕ
fee_tenth_of_bps t = t * 2 ^ 64 % u128_mod / 100_000

-- `stable_markets::usdt_usdc::ID`, an address read as one number (its first word the most
-- significant).
abbrev pub usdt_usdc : ℕ
usdt_usdc = 0x3a5df7e83bfa09950b226e43e264d19a5c6b6f823c33b880243d995224e6cdd1

unfoldable pub from_srm_and_msrm_balances : ℕ → ℕ → ℕ → FeeTier
from_srm_and_msrm_balances market srm_held msrm_held = if market == usdt_usdc then stable else base

unfoldable pub maker_rate : FeeTier → ℕ
maker_rate stable = fee_tenth_of_bps 5
maker_rate _ = fee_tenth_of_bps 20

unfoldable pub maker_rebate : FeeTier → ℕ → ℕ
unfolding maker_rate
maker_rebate t pc_qty = floor (mul_u64 (maker_rate t) pc_qty)

unfoldable pub taker_rate : FeeTier → ℕ
unfolding maker_rate
taker_rate t = mul_u64 (maker_rate t) 2

-- `(exact_fee.frac_part() != 0) as u64` is 0 or 1.
unfoldable pub taker_fee : FeeTier → ℕ → ℕ
unfolding taker_rate add64
taker_fee t pc_qty =
    let exact_fee = mul_u64 (taker_rate t) pc_qty in
    add64 (floor exact_fee) (if frac_part exact_fee == 0 then 0 else 1)

-- `try_into().unwrap()` from a `u128` to a `u64`.
abbrev pub try_into : ℕ → Option ℕ
try_into n = if ltb n u64_mod then some n else none

unfoldable pub remove_taker_fee : FeeTier → ℕ → DexResult ℕ
unfolding taker_rate
remove_taker_fee t pc_qty_incl_fee =
    unwrap (try_into (div (from_int pc_qty_incl_fee) (add one (taker_rate t))))

unfoldable pub referrer_rebate : ℕ → ℕ
referrer_rebate amount = amount / 2

-- `From<FeeTier> for u8` and `TryFromPrimitive`, which the source derives from the order of the
-- tiers.
unfoldable pub tier_to_u8 : FeeTier → ℕ
tier_to_u8 base = 0
tier_to_u8 srm2 = 1
tier_to_u8 srm3 = 2
tier_to_u8 srm4 = 3
tier_to_u8 srm5 = 4
tier_to_u8 srm6 = 5
tier_to_u8 msrm = 6
tier_to_u8 stable = 7

unfoldable pub tier_from_u8 : ℕ → Option FeeTier
tier_from_u8 zero = some base
tier_from_u8 (suc zero) = some srm2
tier_from_u8 (suc (suc zero)) = some srm3
tier_from_u8 (suc (suc (suc zero))) = some srm4
tier_from_u8 (suc (suc (suc (suc zero)))) = some srm5
tier_from_u8 (suc (suc (suc (suc (suc zero))))) = some srm6
tier_from_u8 (suc (suc (suc (suc (suc (suc zero)))))) = some msrm
tier_from_u8 (suc (suc (suc (suc (suc (suc (suc zero))))))) = some stable
tier_from_u8 _ = none

pub tier_from_u8-to_u8 : (t : FeeTier) → tier_from_u8 (tier_to_u8 t) ≡ some t
unfolding tier_from_u8 tier_to_u8
tier_from_u8-to_u8 t = ground arith
