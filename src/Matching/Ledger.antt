-- ===== src/Matching/Ledger.antt =====
-- What the quote vault of a market is there for, before and after a settlement in dex/src/matching.rs.
use openbook_dex.Prelude.{ℕ, ◌%◌, ◌≡◌, refl, ap, ◌∙◌, arith, IsU64, u64_mod, add64, sub64, add64-lt}
use openbook_dex.Fees.{FeeTier, taker_fee, referrer_rebate}
use openbook_dex.Market.{MarketState, pc_owed}
use openbook_dex.Matching.State.{Round, returned, broke}
use openbook_dex.Matching.Proceeds.{charged}

-- Nothing of the market but these three has changed, and their sum, which wraps, is the same.
pub record IsBalanced (m n : MarketState) : Type 0 where
  pub only : n ≡ record m {
    pc_deposits_total = n.pc_deposits_total;
    pc_fees_accrued = n.pc_fees_accrued;
    referrer_rebates_accrued = n.referrer_rebates_accrued;
  }
  pub owed : pc_owed n % u64_mod ≡ pc_owed m % u64_mod

pub IsBalanced-eq : (m n : MarketState) → n ≡ m → IsBalanced m n
IsBalanced-eq m n e = rw e (record { only = refl; owed = refl })

pub IsBalanced-trans : (m n k : MarketState) → IsBalanced m n → IsBalanced n k → IsBalanced m k
IsBalanced-trans m n k a b = record {
  only =
      b.only
      ∙ ap
          (λ (x : MarketState). record x {
            pc_deposits_total = k.pc_deposits_total;
            pc_fees_accrued = k.pc_fees_accrued;
            referrer_rebates_accrued = k.referrer_rebates_accrued;
          })
          a.only;
  owed = b.owed ∙ a.owed;
}

pub taker_fee-IsU64 : (t : FeeTier) (n : ℕ) → IsU64 (taker_fee t n)
unfolding taker_fee
taker_fee-IsU64 t n = add64-lt _ _

pub charged-IsBalanced :
    (m : MarketState) (fee rebates : ℕ)
    → IsU64 fee
    → IsU64 rebates
    → IsBalanced m (charged m fee rebates)
unfolding add64 sub64 referrer_rebate
charged-IsBalanced m fee rebates small small' = record { only = refl; owed = omega arith }

-- What a round of the loop leaves: the market as it was, and rebates of the makers in a `u64`.
abbrev pub IsKeptBy : {A : Type 0} → (A → ℕ) → MarketState → Round A → Type 0
IsKeptBy rebates m (returned o d) = d.market_state ≡ m
IsKeptBy rebates m (broke done crossed f d) = (d.market_state ≡ m) × IsU64 (rebates f)
