-- ===== src/Fees/Bounds.antt =====
-- What the fees of dex/src/fees.rs add up to, for every tier and every `u64` amount.
use openbook_dex.Prelude.{
  ℕ, ◌+◌, ◌-◌, ◌*◌, ◌/◌, ◌^◌, ◌≤◌, ◌<◌, ◌≡◌, refl, ◌⊎◌, inl, inr, arith, IsU64,
}
use openbook_dex.Fees.{
  FeeTier, stable, maker_rate, maker_rebate, taker_rate, taker_fee, referrer_rebate,
}

-- The two rates: 5 and 20 tenths of a basis point, rounded down to a multiple of 2 ^ -64.
pub maker_rate-cases :
    (t : FeeTier) → (maker_rate t ≡ 922337203685477) ⊎ (maker_rate t ≡ 3689348814741910)
unfolding maker_rate
maker_rate-cases stable = inl refl
maker_rate-cases _ = inr refl

pub taker_rate_double : (t : FeeTier) → taker_rate t ≡ 2 * maker_rate t
unfolding taker_rate
taker_rate_double t = omega (arith, maker_rate-cases t)

-- No product or sum wraps, for every tier and `u64` amount: the rebate is the exact share of the
-- amount rounded down, and the fee is exactly twice that share rounded up.
pub fees_exact :
    (t : FeeTier) (q : ℕ)
    → IsU64 q
    → (maker_rebate t q ≡ maker_rate t * q / 2 ^ 64)
      × (taker_fee t q ≡ (2 * maker_rate t * q + (2 ^ 64 - 1)) / 2 ^ 64)
unfolding maker_rebate taker_fee
fees_exact stable q h = ground arith
fees_exact _ q h = ground arith

-- The two as inequalities, which is what the other theorems need of them.
pub fees_bracket :
    (t : FeeTier) (q : ℕ)
    → IsU64 q
    → (2 ^ 64 * maker_rebate t q ≤ maker_rate t * q)
      × (maker_rate t * q < 2 ^ 64 * maker_rebate t q + 2 ^ 64)
      × (2 * (maker_rate t * q) ≤ 2 ^ 64 * taker_fee t q)
      × (2 ^ 64 * taker_fee t q < 2 * (maker_rate t * q) + 2 ^ 64)
fees_bracket t q h =
    let e = fees_exact t q h in (omega arith, omega arith, omega arith, omega arith)

-- The product of a rate and an amount, at each of the two rates.
pub share-cases :
    (t : FeeTier) (q : ℕ)
    → (maker_rate t * q ≡ 922337203685477 * q) ⊎ (maker_rate t * q ≡ 3689348814741910 * q)
unfolding maker_rate
share-cases stable q = inl refl
share-cases _ q = inr refl

-- A fee never exceeds its amount.
pub taker_fee-le : (t : FeeTier) (q : ℕ) → IsU64 q → taker_fee t q ≤ q
taker_fee-le t q h = omega (arith, fees_bracket t q h, share-cases t q)

mul-le_right : (m a b : ℕ) → a ≤ b → m * a ≤ m * b
mul-le_right m a b h = grind arith

-- A larger amount has no smaller fee.
pub taker_fee_mono : (t : FeeTier) (a b : ℕ) → IsU64 b → a ≤ b → taker_fee t a ≤ taker_fee t b
taker_fee_mono t a b h le =
    omega (
      arith,
      fees_bracket t a (omega arith),
      fees_bracket t b h,
      mul-le_right (maker_rate t) a b le,
    )

-- On every tier and every `u64` amount, a taker's fee covers the rebate of a maker on the same tier
-- together with the referrer's half of the fee, and that half alone covers the maker's rebate.
pub positive_net_fees :
    (t : FeeTier) (q : ℕ)
    → IsU64 q
    → (maker_rebate t q ≤ referrer_rebate (taker_fee t q))
      × (maker_rebate t q + referrer_rebate (taker_fee t q) ≤ taker_fee t q)
unfolding referrer_rebate
positive_net_fees t q h = let b = fees_bracket t q h in (omega arith, omega arith)

-- Splitting a trade in two never lowers the fee, and raises it by one unit at most.
pub taker_fee_split :
    (t : FeeTier) (a b : ℕ)
    → IsU64 (a + b)
    → (taker_fee t (a + b) ≤ taker_fee t a + taker_fee t b)
      × (taker_fee t a + taker_fee t b ≤ taker_fee t (a + b) + 1)
taker_fee_split t a b h =
    let x = fees_bracket t a (omega arith) in
    let y = fees_bracket t b (omega arith) in
    let z = fees_bracket t (a + b) h in (omega arith, omega arith)
