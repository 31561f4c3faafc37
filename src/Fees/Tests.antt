-- ===== src/Fees/Tests.antt =====
-- The fees of dex/src/fees.rs at concrete amounts.
use openbook_dex.Prelude.{ℕ, ◌+◌, ◌*◌, ◌/◌, ◌-◌, ◌^◌, ◌≤◌, ◌≡◌, refl, arith}
use openbook_dex.Error.{ok}
use openbook_dex.Fees.{
  base, stable, maker_rate, maker_rebate, taker_fee, referrer_rebate, remove_taker_fee,
}
use openbook_dex.Fees.Bounds.{fees_exact, positive_net_fees}
use openbook_dex.Fees.RoundTrip.{market_order_cannot_cheat}

-- Four basis points of a million, and a rebate of two.
base_fees : (taker_fee base 1_000_000 ≡ 400) × (maker_rebate base 1_000_000 ≡ 199)
unfolding taker_fee maker_rebate
base_fees = (refl, refl)

fees_exact_example :
    (maker_rebate stable 12_345 ≡ maker_rate stable * 12_345 / 2 ^ 64)
    × (taker_fee stable 12_345 ≡ (2 * maker_rate stable * 12_345 + (2 ^ 64 - 1)) / 2 ^ 64)
fees_exact_example = fees_exact stable 12_345 (omega arith)

positive_net_fees_example :
    (maker_rebate base 777 ≤ referrer_rebate (taker_fee base 777))
    × (maker_rebate base 777 + referrer_rebate (taker_fee base 777) ≤ taker_fee base 777)
positive_net_fees_example = positive_net_fees base 777 (omega arith)

market_order_cannot_cheat_example :
    (w : ℕ) × (remove_taker_fee base 1_000_000 ≡ ok w)
    × (w + taker_fee base w ≤ 1_000_000)
    × (1_000_000 ≤ w + taker_fee base w + 1)
market_order_cannot_cheat_example = market_order_cannot_cheat base 1_000_000 (omega arith)
