-- ===== src/Fees/RoundTrip.antt =====
-- `remove_taker_fee` of dex/src/fees.rs undoes the addition of a fee.
use openbook_dex.Prelude.{ℕ, ◌+◌, ◌*◌, ◌/◌, ◌^◌, ◌≤◌, ◌<◌, ◌≡◌, refl, arith, IsU64}
use openbook_dex.Error.{ok}
use openbook_dex.Fees.{FeeTier, stable, maker_rate, taker_fee, remove_taker_fee}
use openbook_dex.Fees.Bounds.{fees_bracket, maker_rate-cases}

remove_taker_fee-eq :
    (t : FeeTier) (q : ℕ)
    → IsU64 q
    → remove_taker_fee t q ≡ ok (q * 2 ^ 64 / (2 ^ 64 + 2 * maker_rate t))
unfolding remove_taker_fee
remove_taker_fee-eq stable q h = ground arith
remove_taker_fee-eq _ q h = ground arith

-- The amount left, between the two values that bound the exact quotient.
remove_bracket :
    (t : FeeTier) (q w : ℕ)
    → w ≡ q * 2 ^ 64 / (2 ^ 64 + 2 * maker_rate t)
    → (2 ^ 64 * w + 2 * (maker_rate t * w) ≤ 2 ^ 64 * q)
      × (2 ^ 64 * q < 2 ^ 64 * w + 2 * (maker_rate t * w) + 2 ^ 64 + 2 * maker_rate t)
unfolding maker_rate
remove_bracket stable q w e = (omega arith, omega arith)
remove_bracket _ q w e = (omega arith, omega arith)

-- On every tier and every `u64` amount, removing the fee does not panic and leaves an amount that,
-- together with its own fee, fits into what was given, with one unit left over at most.
pub market_order_cannot_cheat :
    (t : FeeTier) (q : ℕ)
    → IsU64 q
    → (w : ℕ) × (remove_taker_fee t q ≡ ok w)
      × (w + taker_fee t w ≤ q)
      × (q ≤ w + taker_fee t w + 1)
market_order_cannot_cheat t q h =
    let w : ℕ = q * 2 ^ 64 / (2 ^ 64 + 2 * maker_rate t) in
    let r = remove_bracket t q w refl in
    let b = fees_bracket t w (omega arith) in
    (w, remove_taker_fee-eq t q h, omega arith, omega (arith, maker_rate-cases t))

near_of_bracket :
    (t : FeeTier) (q f w : ℕ)
    → IsU64 q
    → f ≡ q + taker_fee t q
    → w ≡ f * 2 ^ 64 / (2 ^ 64 + 2 * maker_rate t)
    → (w ≤ q + 1) × (q ≤ w + 1)
unfolding maker_rate
near_of_bracket stable q f w h e d =
    let r = remove_bracket stable f w d in
    let b = fees_bracket stable q h in (omega arith, omega arith)
near_of_bracket t q f w h e d =
    let r = remove_bracket t f w d in let b = fees_bracket t q h in (omega arith, omega arith)

-- Adding the fee to an amount and removing it again comes back within one unit, where the sum is
-- still a `u64`.
pub remove_taker_fee-add :
    (t : FeeTier) (q : ℕ)
    → IsU64 (q + taker_fee t q)
    → (w : ℕ) × (remove_taker_fee t (q + taker_fee t q) ≡ ok w) × (w ≤ q + 1) × (q ≤ w + 1)
remove_taker_fee-add t q h =
    let f : ℕ = q + taker_fee t q in
    let w : ℕ = f * 2 ^ 64 / (2 ^ 64 + 2 * maker_rate t) in
    let near = near_of_bracket t q f w (omega arith) refl refl in
    (w, remove_taker_fee-eq t f h, near.0, near.1)
