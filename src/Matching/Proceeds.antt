-- ===== src/Matching/Proceeds.antt =====
-- What a step of dex/src/matching.rs adds to the proceeds of a request.
use openbook_dex.Prelude.{
  ℕ, ◌+◌, ◌≡◌, refl, ap, ◌∙◌, some, none, Option, arith, add64, sub64, checked_add,
}
use openbook_dex.Types.{get_or_zero}
use openbook_dex.Fees.{referrer_rebate}
use openbook_dex.Market.{MarketState}
use openbook_dex.Error.{ok, unwrap, ◌>>=◌}
use openbook_dex.Matching.State.{
  Context, OrderRemaining, RequestProceeds, no_proceeds, unlock_coin, unlock_native_pc, credit_coin,
  credit_native_pc, debit_coin, debit_native_pc,
}
use openbook_dex.Matching.Post.{Post, returns, Post->>=, Post-unwrap, Same}

-- The proceeds of `d` are those of `c` with `δ` added, field by field.
pub record Adds (c d : Context) (δ : RequestProceeds) : Type 0 where
  pub coin_unlocked : d.proceeds.coin_unlocked ≡ c.proceeds.coin_unlocked + δ.coin_unlocked
  pub native_pc_unlocked :
      d.proceeds.native_pc_unlocked ≡ c.proceeds.native_pc_unlocked + δ.native_pc_unlocked
  pub coin_credit : d.proceeds.coin_credit ≡ c.proceeds.coin_credit + δ.coin_credit
  pub native_pc_credit :
      d.proceeds.native_pc_credit ≡ c.proceeds.native_pc_credit + δ.native_pc_credit
  pub coin_debit : d.proceeds.coin_debit ≡ c.proceeds.coin_debit + δ.coin_debit
  pub native_pc_debit : d.proceeds.native_pc_debit ≡ c.proceeds.native_pc_debit + δ.native_pc_debit

-- The same, with the market left alone.
pub record Moves (c d : Context) (δ : RequestProceeds) : Type 0 where
  pub adds : Adds c d δ
  pub market_state : d.market_state ≡ c.market_state

pub Same-Adds : (c d : Context) → Same c d → Adds c d no_proceeds
Same-Adds c d s = record {
  coin_unlocked = ap (λ p. p.coin_unlocked) s.proceeds ∙ omega arith;
  native_pc_unlocked = ap (λ p. p.native_pc_unlocked) s.proceeds ∙ omega arith;
  coin_credit = ap (λ p. p.coin_credit) s.proceeds ∙ omega arith;
  native_pc_credit = ap (λ p. p.native_pc_credit) s.proceeds ∙ omega arith;
  coin_debit = ap (λ p. p.coin_debit) s.proceeds ∙ omega arith;
  native_pc_debit = ap (λ p. p.native_pc_debit) s.proceeds ∙ omega arith;
}

pub Same-Moves : (c d : Context) → Same c d → Moves c d no_proceeds
Same-Moves c d s = record { adds = Same-Adds c d s; market_state = s.market_state }

-- The lots that an order still has to trade after a round.
abbrev pub lots_of : Option OrderRemaining → ℕ
lots_of none = 0
lots_of (some r) = r.coin_qty_remaining

-- The native amount that stays locked for it.
abbrev pub pc_of : Option OrderRemaining → ℕ
pc_of none = 0
pc_of (some r) = get_or_zero r.native_pc_qty_remaining

-- The market after a settlement: the referrer's half of the fee and the rest of what the maker is
-- not paid are set aside, and both leave the deposits.
abbrev pub charged : MarketState → ℕ → ℕ → MarketState
charged m fee rebates = record m {
  referrer_rebates_accrued = add64 m.referrer_rebates_accrued (referrer_rebate fee);
  pc_fees_accrued = add64 m.pc_fees_accrued (sub64 (sub64 fee rebates) (referrer_rebate fee));
  pc_deposits_total = sub64 m.pc_deposits_total (sub64 fee rebates);
}

abbrev pub plus : RequestProceeds → RequestProceeds → RequestProceeds
plus a b = record {
  coin_unlocked = a.coin_unlocked + b.coin_unlocked;
  native_pc_unlocked = a.native_pc_unlocked + b.native_pc_unlocked;
  coin_credit = a.coin_credit + b.coin_credit;
  native_pc_credit = a.native_pc_credit + b.native_pc_credit;
  coin_debit = a.coin_debit + b.coin_debit;
  native_pc_debit = a.native_pc_debit + b.native_pc_debit;
}

pub Adds-trans :
    (c d e : Context) (δ ε : RequestProceeds) → Adds c d δ → Adds d e ε → Adds c e (plus δ ε)
Adds-trans c d e δ ε a b = omega arith

pub Moves-trans :
    (c d e : Context) (δ ε : RequestProceeds) → Moves c d δ → Moves d e ε → Moves c e (plus δ ε)
Moves-trans c d e δ ε a b = record {
  adds = Adds-trans c d e δ ε a.adds b.adds;
  market_state = b.market_state ∙ a.market_state;
}

checked_add-eq : (a b t : ℕ) → checked_add a b ≡ some t → t ≡ a + b
unfolding checked_add
checked_add-eq a b t h = ground arith

-- Each method adds to its own field.
added :
    (c : Context) (old n : ℕ) (write : ℕ → Context) (δ : RequestProceeds)
    → ((t : ℕ) → t ≡ old + n → Adds c (write t) δ)
    → ((t : ℕ) → (write t).market_state ≡ c.market_state)
    → Post (λ d. Moves c d δ) (unwrap (checked_add old n) >>= λ t. ok (write t))
added c old n write δ f g =
    Post->>= (Post-unwrap (checked_add old n))
      λ t e. returns (record { adds = f t (checked_add-eq old n t e); market_state = g t })

pub unlock_coin-Moves :
    (c : Context) (n : ℕ)
    → Post (λ d. Moves c d (record no_proceeds { coin_unlocked = n })) (unlock_coin c n)
unfolding unlock_coin
unlock_coin-Moves c n = added c _ n _ _ (λ t e. omega arith) (λ t. refl)

pub unlock_native_pc-Moves :
    (c : Context) (n : ℕ)
    → Post (λ d. Moves c d (record no_proceeds { native_pc_unlocked = n })) (unlock_native_pc c n)
unfolding unlock_native_pc
unlock_native_pc-Moves c n = added c _ n _ _ (λ t e. omega arith) (λ t. refl)

pub credit_coin-Moves :
    (c : Context) (n : ℕ)
    → Post (λ d. Moves c d (record no_proceeds { coin_credit = n })) (credit_coin c n)
unfolding credit_coin
credit_coin-Moves c n = added c _ n _ _ (λ t e. omega arith) (λ t. refl)

pub credit_native_pc-Moves :
    (c : Context) (n : ℕ)
    → Post (λ d. Moves c d (record no_proceeds { native_pc_credit = n })) (credit_native_pc c n)
unfolding credit_native_pc
credit_native_pc-Moves c n = added c _ n _ _ (λ t e. omega arith) (λ t. refl)

pub debit_coin-Moves :
    (c : Context) (n : ℕ)
    → Post (λ d. Moves c d (record no_proceeds { coin_debit = n })) (debit_coin c n)
unfolding debit_coin
debit_coin-Moves c n = added c _ n _ _ (λ t e. omega arith) (λ t. refl)

pub debit_native_pc-Moves :
    (c : Context) (n : ℕ)
    → Post (λ d. Moves c d (record no_proceeds { native_pc_debit = n })) (debit_native_pc c n)
unfolding debit_native_pc
debit_native_pc-Moves c n = added c _ n _ _ (λ t e. omega arith) (λ t. refl)

-- A step that leaves both alone may stand before one that moves.
pub Moves-Same-trans :
    (c d e : Context) (δ : RequestProceeds) → Same c d → Moves d e δ → Moves c e δ
Moves-Same-trans c d e δ s m =
    let z = Same-Adds c d s in
    let a = m.adds in record { adds = omega arith; market_state = m.market_state ∙ s.market_state }
