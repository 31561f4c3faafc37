-- ===== src/Vault/Settle.antt =====
-- The vaults of a market before and after `process_settle_funds` and `process_sweep_fees` of
-- dex/src/state.rs.
use openbook_dex.Prelude.{
  ℕ, ◌+◌, ◌≤◌, ◌<◌, ◌≡◌, ◌≢◌, refl, sym, ap, Option, none, some, arith, ltb, ◌==◌, if◌then◌else◌,
  Bool-cases, inl, inr, IsU64, u64_mod, sub64, add64-eq, sub64-eq, checked_sub,
}
use openbook_dex.Error.{ok, ok_or, transfer_failed}
use openbook_dex.Error.Post.{Post, returns, fails, Post->>=, Post-if, Post-unwrap, Post-ok}
use openbook_dex.Types.{Address}
use openbook_dex.Market.{MarketState, pc_owed}
use openbook_dex.OpenOrders.{OpenOrders}
use openbook_dex.Vault.{
  TokenProgram, TokenLaws, Funds, send_from_vault, settle_rebates, settle_funds, sweep_fees,
}

-- The amounts to be paid are among what the market has, in `u64`s.
pub record IsCovered (m : MarketState) (o : OpenOrders) : Type 0 where
  pub coin : o.native_coin_free ≤ m.coin_deposits_total
  pub pc : o.native_pc_free ≤ m.pc_deposits_total
  pub rebates : o.referrer_rebates_accrued ≤ m.referrer_rebates_accrued
  pub coin_u64 : IsU64 m.coin_deposits_total
  pub pc_u64 : IsU64 m.pc_deposits_total
  pub rebates_u64 : IsU64 m.referrer_rebates_accrued
  pub fees_u64 : m.pc_fees_accrued + o.referrer_rebates_accrued < u64_mod

-- The vaults are two accounts, and nobody's wallet.
pub record IsApart (m : MarketState) (coin_wallet pc_wallet : Address) (referrer : Option Address)
    : Type 0 where
  pub vaults : m.coin_vault ≢ m.pc_vault
  pub coin_coin : m.coin_vault ≢ coin_wallet
  pub coin_pc : m.coin_vault ≢ pc_wallet
  pub pc_coin : m.pc_vault ≢ coin_wallet
  pub pc_pc : m.pc_vault ≢ pc_wallet
  pub coin_referrer : some m.coin_vault ≢ referrer
  pub pc_referrer : some m.pc_vault ≢ referrer

-- What an account is due of an amount that is for the account `to`, and of the rebates.
abbrev pub share : Address → Address → ℕ → ℕ
share x to n = if x == to then n else 0

abbrev pub referrer_share : Address → Option Address → ℕ → ℕ
referrer_share x none rebates = 0
referrer_share x (some referrer) rebates = share x referrer rebates

-- The rebates that the referrer takes from the vault.
abbrev pub of_referrer : Option Address → ℕ → ℕ
of_referrer none rebates = 0
of_referrer (some referrer) rebates = rebates

checked_sub-add : (a b t : ℕ) → checked_sub a b ≡ some t → t + b ≡ a
unfolding checked_sub
checked_sub-add a b t e = ground arith

module _ {S : Type 0} (P : TokenProgram S) (laws : TokenLaws P) where
  send-Post :
      (s : S) (n : ℕ) (to vault : Address)
      → Post (λ t. P.transfer s vault to n ≡ some t) (send_from_vault P s n to vault)
  unfolding send_from_vault
  send-Post s n to vault = found (P.transfer s vault to n)
    where
      found : (r : Option S) → Post (λ t. r ≡ some t) (ok_or r transfer_failed)
      found none = fails
      found (some t) = returns refl

  -- An account that is not the one that pays gets the amount, or nothing.
  moved :
      (s t : S) (a b x : Address) (n : ℕ)
      → P.transfer s a b n ≡ some t
      → a ≢ b
      → x ≢ a
      → P.balance t x ≡ P.balance s x + share x b n
  moved s t a b x n paid apart other = elim (Bool-cases (x == b)) [
    | inl e ↦ let same : b ≡ x = ground arith in rw (e, ← same) (laws.received s t a b n paid apart)
    | inr e ↦ let kept = laws.untouched s t a b x n paid other (ground arith) in rw e (omega arith)
  ]

  share-zero : (s : S) (x b : Address) → P.balance s x ≡ P.balance s x + share x b 0
  share-zero s x b = ground arith

  -- What becomes of the referrer's share.
  record Rebated (referrer : Option Address) (f g : Funds S) : Type 0 where
    fees : ℕ
    market : g.market ≡ record f.market { pc_fees_accrued = fees }
    open_orders : g.open_orders ≡ f.open_orders
    coin : P.balance g.tokens f.market.coin_vault ≡ P.balance f.tokens f.market.coin_vault
    pc :
        P.balance f.tokens f.market.pc_vault + fees
        ≡ P.balance g.tokens f.market.pc_vault
          + f.market.pc_fees_accrued
          + f.open_orders.referrer_rebates_accrued
    pays :
        P.balance g.tokens f.market.pc_vault
          + of_referrer referrer f.open_orders.referrer_rebates_accrued
        ≡ P.balance f.tokens f.market.pc_vault
    gets :
        (x : Address)
        → x ≢ f.market.pc_vault
        → P.balance g.tokens x
          ≡ P.balance f.tokens x + referrer_share x referrer f.open_orders.referrer_rebates_accrued

  rebates-Post :
      (f : Funds S) (referrer : Option Address)
      → f.market.pc_fees_accrued + f.open_orders.referrer_rebates_accrued < u64_mod
      → f.market.coin_vault ≢ f.market.pc_vault
      → some f.market.coin_vault ≢ referrer
      → some f.market.pc_vault ≢ referrer
      → Post (Rebated referrer f) (settle_rebates P referrer f)
  unfolding settle_rebates
  rebates-Post f none small vaults c p =
      let e = add64-eq f.market.pc_fees_accrued f.open_orders.referrer_rebates_accrued small in
      returns (record {
        fees = _;
        market = refl;
        open_orders = refl;
        coin = refl;
        pc = omega arith;
        pays = omega arith;
        gets = λ x _. omega arith;
      })
  rebates-Post f (some r) small vaults c p =
      let e = add64-eq f.market.pc_fees_accrued f.open_orders.referrer_rebates_accrued small in
      Post-if (ltb 0 f.open_orders.referrer_rebates_accrued)
        (λ some_rebates.
          Post->>= (send-Post f.tokens f.open_orders.referrer_rebates_accrued r f.market.pc_vault)
            λ t paid. returns (record {
              fees = f.market.pc_fees_accrued;
              market = refl;
              open_orders = refl;
              coin =
                  laws.untouched f.tokens t f.market.pc_vault r f.market.coin_vault _ paid vaults
                    (λ e. c (ap some e));
              pc =
                  let s = laws.sent f.tokens t f.market.pc_vault r _ paid (λ e. p (ap some e)) in
                  omega arith;
              pays = laws.sent f.tokens t f.market.pc_vault r _ paid (λ e. p (ap some e));
              gets = λ x other.
                  moved f.tokens t f.market.pc_vault r x _ paid (λ e. p (ap some e)) other;
            }))
        (λ no_rebates.
          (let zero_rebates : f.open_orders.referrer_rebates_accrued ≡ 0 = ground arith in
            returns (record {
              fees = _;
              market = refl;
              open_orders = refl;
              coin = refl;
              pc = omega arith;
              pays = omega arith;
              gets = λ x _. rw zero_rebates (share-zero f.tokens x r);
            })))

  -- Each vault loses what is paid from it, which the market no longer owes; any other account gets
  -- what it is due, as the wallet of a currency or as the referrer; without a referrer the rebates are
  -- added to the fees; and what the account of the open orders has locked stays.
  pub record SettleSpec (coin_wallet pc_wallet : Address) (referrer : Option Address)
      (f g : Funds S) : Type 0 where
    pub coin_vault :
        P.balance g.tokens f.market.coin_vault + f.open_orders.native_coin_free
        ≡ P.balance f.tokens f.market.coin_vault
    pub pc_vault :
        P.balance g.tokens f.market.pc_vault
          + f.open_orders.native_pc_free
          + of_referrer referrer f.open_orders.referrer_rebates_accrued
        ≡ P.balance f.tokens f.market.pc_vault
    pub wallets :
        (x : Address)
        → x ≢ f.market.coin_vault
        → x ≢ f.market.pc_vault
        → P.balance g.tokens x
          ≡ P.balance f.tokens x
            + share x coin_wallet f.open_orders.native_coin_free
            + share x pc_wallet f.open_orders.native_pc_free
            + referrer_share x referrer f.open_orders.referrer_rebates_accrued
    pub coin :
        P.balance f.tokens f.market.coin_vault + g.market.coin_deposits_total
        ≡ P.balance g.tokens f.market.coin_vault + f.market.coin_deposits_total
    pub pc :
        P.balance f.tokens f.market.pc_vault + pc_owed g.market
        ≡ P.balance g.tokens f.market.pc_vault + pc_owed f.market
    pub coin_deposits :
        g.market.coin_deposits_total + f.open_orders.native_coin_free ≡ f.market.coin_deposits_total
    pub pc_deposits :
        g.market.pc_deposits_total + f.open_orders.native_pc_free ≡ f.market.pc_deposits_total
    pub fees :
        g.market.pc_fees_accrued + of_referrer referrer f.open_orders.referrer_rebates_accrued
        ≡ f.market.pc_fees_accrued + f.open_orders.referrer_rebates_accrued
    pub rebates :
        g.market.referrer_rebates_accrued + f.open_orders.referrer_rebates_accrued
        ≡ f.market.referrer_rebates_accrued
    pub coin_paid : g.open_orders.native_coin_free ≡ 0
    pub pc_paid : g.open_orders.native_pc_free ≡ 0
    pub rebates_paid : g.open_orders.referrer_rebates_accrued ≡ 0
    pub coin_locked :
        g.open_orders.native_coin_total + f.open_orders.native_coin_free
        ≡ f.open_orders.native_coin_total
    pub pc_locked :
        g.open_orders.native_pc_total + f.open_orders.native_pc_free ≡ f.open_orders.native_pc_total

  -- The two payments take from each vault what it pays.
  payments :
      (f : Funds S) (s₁ s₂ : S) (coin_wallet pc_wallet : Address) (referrer : Option Address)
      → IsApart f.market coin_wallet pc_wallet referrer
      → P.transfer f.tokens f.market.coin_vault coin_wallet f.open_orders.native_coin_free ≡ some s₁
      → P.transfer s₁ f.market.pc_vault pc_wallet f.open_orders.native_pc_free ≡ some s₂
      → (P.balance s₂ f.market.coin_vault + f.open_orders.native_coin_free
          ≡ P.balance f.tokens f.market.coin_vault)
        × (P.balance s₂ f.market.pc_vault + f.open_orders.native_pc_free
            ≡ P.balance f.tokens f.market.pc_vault)
  payments f s₁ s₂ coin_wallet pc_wallet referrer apart paid paid' =
      let m = f.market in
      let a = laws.sent f.tokens s₁ m.coin_vault coin_wallet _ paid apart.coin_coin in
      let b =
        laws.untouched s₁ s₂ m.pc_vault pc_wallet m.coin_vault _ paid' apart.vaults apart.coin_pc in
      let c =
        laws.untouched f.tokens s₁ m.coin_vault coin_wallet m.pc_vault _ paid
          (λ e. apart.vaults (sym e)) apart.pc_coin in
      let d = laws.sent s₁ s₂ m.pc_vault pc_wallet _ paid' apart.pc_pc in (omega arith, omega arith)

  settle_funds-Post :
      (f : Funds S) (coin_wallet pc_wallet : Address) (referrer : Option Address)
      → IsCovered f.market f.open_orders
      → IsApart f.market coin_wallet pc_wallet referrer
      → Post
          (SettleSpec coin_wallet pc_wallet referrer f)
          (settle_funds P coin_wallet pc_wallet referrer f)
  unfolding settle_funds
  settle_funds-Post f coin_wallet pc_wallet referrer covered apart =
      let m = f.market in
      let o = f.open_orders in
      Post->>= (Post-unwrap (checked_sub o.native_coin_total o.native_coin_free)) λ coin_total ct.
        Post->>= (Post-unwrap (checked_sub o.native_pc_total o.native_pc_free)) λ pc_total pt.
          Post->>= (send-Post f.tokens o.native_coin_free coin_wallet m.coin_vault) λ s₁ paid.
            Post->>= (send-Post s₁ o.native_pc_free pc_wallet m.pc_vault) λ s₂ paid'.
              let mid : Funds S = record {
                market = record m {
                  coin_deposits_total = sub64 m.coin_deposits_total o.native_coin_free;
                  pc_deposits_total = sub64 m.pc_deposits_total o.native_pc_free;
                };
                open_orders = record o {
                  native_coin_free = 0;
                  native_pc_free = 0;
                  native_coin_total = coin_total;
                  native_pc_total = pc_total;
                };
                tokens = s₂;
              } in
              Post->>=
                (rebates-Post mid referrer covered.fees_u64 apart.vaults apart.coin_referrer
                  apart.pc_referrer)
                λ g r.
                  let coin_left =
                    sub64-eq m.coin_deposits_total o.native_coin_free covered.coin_u64
                      covered.coin in
                  let pc_left =
                    sub64-eq m.pc_deposits_total o.native_pc_free covered.pc_u64 covered.pc in
                  let rebates_left =
                    sub64-eq m.referrer_rebates_accrued o.referrer_rebates_accrued
                      covered.rebates_u64 covered.rebates in
                  let (coin₂, pc₂) =
                    payments f s₁ s₂ coin_wallet pc_wallet referrer apart paid paid' in
                  let deposits = ap (λ m. m.coin_deposits_total) r.market in
                  let pc_deposits = ap (λ m. m.pc_deposits_total) r.market in
                  let fees = ap (λ m. m.pc_fees_accrued) r.market in
                  let rebates : sub64 g.market.referrer_rebates_accrued
                        g.open_orders.referrer_rebates_accrued
                      ≡ sub64 m.referrer_rebates_accrued o.referrer_rebates_accrued =
                    rw (r.market, r.open_orders) refl in
                  let coin_total' = ap (λ o. o.native_coin_total) r.open_orders in
                  let pc_total' = ap (λ o. o.native_pc_total) r.open_orders in
                  returns (record {
                    coin_vault = omega (arith, r.coin);
                    pc_vault = omega (arith, r.pays);
                    wallets = λ x c p.
                        (let a =
                            moved f.tokens s₁ m.coin_vault coin_wallet x _ paid apart.coin_coin c in
                          let b = moved s₁ s₂ m.pc_vault pc_wallet x _ paid' apart.pc_pc p in
                          let d = r.gets x p in omega arith);
                    coin = omega (arith, r.coin);
                    pc = omega (arith, r.pc);
                    coin_deposits = omega arith;
                    pc_deposits = omega arith;
                    fees = omega (arith, r.pc, r.pays);
                    rebates = omega arith;
                    coin_paid = ap (λ o. o.native_coin_free) r.open_orders;
                    pc_paid = ap (λ o. o.native_pc_free) r.open_orders;
                    rebates_paid = refl;
                    coin_locked = omega (
                      arith,
                      checked_sub-add o.native_coin_total o.native_coin_free coin_total ct,
                    );
                    pc_locked =
                        omega
                          (arith, checked_sub-add o.native_pc_total o.native_pc_free pc_total pt);
                  })

  -- Settling an account's funds, for a token program that moves what it is told to, vaults that are
  -- two accounts and nobody's wallet, and amounts that are among what the market has: when it
  -- succeeds, the coin vault has lost just the free coin balance of the account, and the quote vault its
  -- free quote balance and, where there is a referrer, the rebates; any other account has gained just
  -- what it is due as the coin wallet, the quote wallet or the referrer; the market owes so much less
  -- from each vault, and the rebates are added to its fees where there is no referrer; and the account
  -- has no free balances and rebates left, and has locked what it had.
  pub settle_funds_lem :
      (f g : Funds S) (coin_wallet pc_wallet : Address) (referrer : Option Address)
      → IsCovered f.market f.open_orders
      → IsApart f.market coin_wallet pc_wallet referrer
      → settle_funds P coin_wallet pc_wallet referrer f ≡ ok g
      → SettleSpec coin_wallet pc_wallet referrer f g
  settle_funds_lem f g coin_wallet pc_wallet referrer covered apart e =
      Post-ok (settle_funds-Post f coin_wallet pc_wallet referrer covered apart) e

  -- Sweeping the fees, for a token program that moves what it is told to and a receiver that is not
  -- the vault: when it succeeds, the vault has lost just what the market no longer owes from it, no
  -- fees are left, and the receiver has them.
  pub sweep_fees_lem :
      (m n : MarketState) (s t : S) (fee_receiver : Address)
      → m.pc_vault ≢ fee_receiver
      → sweep_fees P fee_receiver m s ≡ ok (n, t)
      → (P.balance s m.pc_vault + pc_owed n ≡ P.balance t m.pc_vault + pc_owed m)
        × (n.pc_fees_accrued ≡ 0)
        × (P.balance t fee_receiver ≡ P.balance s fee_receiver + m.pc_fees_accrued)
  unfolding sweep_fees
  sweep_fees_lem m n s t fee_receiver apart e = Post-ok swept e
    where
      swept :
          Post
            (λ (r : MarketState × S).
              (P.balance s m.pc_vault + pc_owed r.0 ≡ P.balance r.1 m.pc_vault + pc_owed m)
              × ((r.0).pc_fees_accrued ≡ 0)
              × (P.balance r.1 fee_receiver ≡ P.balance s fee_receiver + m.pc_fees_accrued))
            (sweep_fees P fee_receiver m s)
      swept = Post->>= (send-Post s m.pc_fees_accrued fee_receiver m.pc_vault) λ u paid.
          let gone = laws.sent s u m.pc_vault fee_receiver _ paid apart in
          returns (omega arith, refl, laws.received s u m.pc_vault fee_receiver _ paid apart)
