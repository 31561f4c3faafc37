-- ===== src/Handlers/Funded.antt =====
-- The vaults of a market against what it owes, across handlers of dex/src/state.rs that take deposits.
use openbook_dex.Prelude.{◌+◌, ◌%◌, ◌≡◌, ◌≢◌, refl, ap, ◌∙◌, arith, u64_mod}
use openbook_dex.Market.{MarketState}
use openbook_dex.Market.{pc_owed}
use openbook_dex.Vault.{TokenProgram}
use openbook_dex.Handlers.Placing.{NewOrderAccounts}

-- The market that the accounts hold.
abbrev pub market_of : NewOrderAccounts → MarketState
market_of a = a.market.contents.inner

-- The payer and the vaults are three accounts.
pub record IsPayable (a : NewOrderAccounts) : Type 0 where
  pub vaults : (market_of a).coin_vault ≢ (market_of a).pc_vault
  pub payer_coin : a.payer.key ≢ (market_of a).coin_vault
  pub payer_pc : a.payer.key ≢ (market_of a).pc_vault

module _ {S : Type 0} (P : TokenProgram S) where
  -- The vaults are the same two accounts; each has gained just what the market owes more from it, where
  -- the sum of the quote deposits, fees and rebates wraps; the payer has paid for that.
  pub record IsFunded (a b : NewOrderAccounts) (s t : S) : Type 0 where
    pub coin_vault : (market_of b).coin_vault ≡ (market_of a).coin_vault
    pub pc_vault : (market_of b).pc_vault ≡ (market_of a).pc_vault
    pub payer : b.payer ≡ a.payer
    pub pc :
        (P.balance t (market_of a).pc_vault + pc_owed (market_of a)) % u64_mod
        ≡ (P.balance s (market_of a).pc_vault + pc_owed (market_of b)) % u64_mod
    pub coin :
        P.balance t (market_of a).coin_vault + (market_of a).coin_deposits_total
        ≡ P.balance s (market_of a).coin_vault + (market_of b).coin_deposits_total
    pub paid :
        P.balance t a.payer.key
          + P.balance t (market_of a).coin_vault
          + P.balance t (market_of a).pc_vault
        ≡ P.balance s a.payer.key
          + P.balance s (market_of a).coin_vault
          + P.balance s (market_of a).pc_vault

  pub IsFunded-same :
      (a b : NewOrderAccounts) (s : S) → b.market ≡ a.market → b.payer ≡ a.payer → IsFunded a b s s
  IsFunded-same a b s e p =
      let m : market_of b ≡ market_of a = ap (λ x. x.contents.inner) e in
      record {
        coin_vault = ap (λ m. m.coin_vault) m;
        pc_vault = ap (λ m. m.pc_vault) m;
        payer = p;
        pc = rw m refl;
        coin = rw m refl;
        paid = refl;
      }

  pub IsFunded-trans :
      (a b c : NewOrderAccounts) (s t u : S)
      → IsFunded a b s t
      → IsFunded b c t u
      → IsFunded a c s u
  IsFunded-trans a b c s t u f g =
      let pc : (P.balance u (market_of a).pc_vault + pc_owed (market_of b)) % u64_mod
          ≡ (P.balance t (market_of a).pc_vault + pc_owed (market_of c)) % u64_mod =
        rw (← f.pc_vault) g.pc in
      let coin : P.balance u (market_of a).coin_vault + (market_of b).coin_deposits_total
          ≡ P.balance t (market_of a).coin_vault + (market_of c).coin_deposits_total =
        rw (← f.coin_vault) g.coin in
      let paid : P.balance u a.payer.key
            + P.balance u (market_of a).coin_vault
            + P.balance u (market_of a).pc_vault
          ≡ P.balance t a.payer.key
            + P.balance t (market_of a).coin_vault
            + P.balance t (market_of a).pc_vault =
        rw (← f.payer, ← f.coin_vault, ← f.pc_vault) g.paid in
      record {
        coin_vault = g.coin_vault ∙ f.coin_vault;
        pc_vault = g.pc_vault ∙ f.pc_vault;
        payer = g.payer ∙ f.payer;
        pc = omega (arith, f.pc, pc);
        coin = omega (arith, f.coin, coin);
        paid = paid ∙ f.paid;
      }

  pub IsFunded-IsPayable :
      (a b : NewOrderAccounts) (s t : S) → IsFunded a b s t → IsPayable a → IsPayable b
  IsFunded-IsPayable a b s t f h = record {
    vaults = rw (f.coin_vault, f.pc_vault) h.vaults;
    payer_coin = rw (f.payer, f.coin_vault) h.payer_coin;
    payer_pc = rw (f.payer, f.pc_vault) h.payer_pc;
  }
