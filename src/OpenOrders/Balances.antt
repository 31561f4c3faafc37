-- ===== src/OpenOrders/Balances.antt =====
-- What each method of `OpenOrders` (dex/src/state.rs) makes of the four balances.
use openbook_dex.Prelude.{
  ℕ, ◌+◌, ◌-◌, ◌≤◌, ◌≡◌, refl, Bool, true, false, some, arith, leb, checked_add, checked_sub,
}
use openbook_dex.Error.{assert}
use openbook_dex.Error.Post.{Post, returns, panics, Post->>=, Post-unwrap}
use openbook_dex.OpenOrders.{
  OpenOrders, credit_locked_coin, credit_locked_pc, lock_free_coin, lock_free_pc, unlock_coin,
  unlock_pc,
}

-- The free and the total balance of each side.
pub record HasBalances (o : OpenOrders) (cf ct pf pt : ℕ) : Type 0 where
  pub coin_free : o.native_coin_free ≡ cf
  pub coin_total : o.native_coin_total ≡ ct
  pub pc_free : o.native_pc_free ≡ pf
  pub pc_total : o.native_pc_total ≡ pt

pub checked_add-some : (a b t : ℕ) → checked_add a b ≡ some t → t ≡ a + b
unfolding checked_add
checked_add-some a b t h = ground arith

pub checked_sub-some : (a b t : ℕ) → checked_sub a b ≡ some t → (t ≡ a - b) × (b ≤ a)
unfolding checked_sub
checked_sub-some a b t h = (ground arith, ground arith)

pub assert-true : (b : Bool) → Post (λ _. b ≡ true) (assert b)
assert-true true = returns refl
assert-true false = panics

module _ (o : OpenOrders) (n : ℕ) where
  pub credit_locked_coin-HasBalances :
      Post
        (λ d.
          HasBalances d o.native_coin_free
            (o.native_coin_total + n)
            o.native_pc_free
            o.native_pc_total)
        (credit_locked_coin o n)
  unfolding credit_locked_coin
  credit_locked_coin-HasBalances = Post->>= (Post-unwrap (checked_add o.native_coin_total n)) λ t e.
      returns (record {
        coin_free = refl;
        coin_total = checked_add-some o.native_coin_total n t e;
        pc_free = refl;
        pc_total = refl;
      })

  pub credit_locked_pc-HasBalances :
      Post
        (λ d.
          HasBalances d o.native_coin_free o.native_coin_total o.native_pc_free
            (o.native_pc_total + n))
        (credit_locked_pc o n)
  unfolding credit_locked_pc
  credit_locked_pc-HasBalances = Post->>= (Post-unwrap (checked_add o.native_pc_total n)) λ t e.
      returns (record {
        coin_free = refl;
        coin_total = refl;
        pc_free = refl;
        pc_total = checked_add-some o.native_pc_total n t e;
      })

  pub lock_free_coin-HasBalances :
      Post
        (λ d.
          (n ≤ o.native_coin_free)
          × HasBalances d
              (o.native_coin_free - n)
              o.native_coin_total
              o.native_pc_free
              o.native_pc_total)
        (lock_free_coin o n)
  unfolding lock_free_coin
  lock_free_coin-HasBalances = Post->>= (Post-unwrap (checked_sub o.native_coin_free n)) λ t e.
      let s = checked_sub-some o.native_coin_free n t e in
      returns (s.1, record { coin_free = s.0; coin_total = refl; pc_free = refl; pc_total = refl })

  pub lock_free_pc-HasBalances :
      Post
        (λ d.
          (n ≤ o.native_pc_free)
          × HasBalances d o.native_coin_free o.native_coin_total
              (o.native_pc_free - n)
              o.native_pc_total)
        (lock_free_pc o n)
  unfolding lock_free_pc
  lock_free_pc-HasBalances = Post->>= (Post-unwrap (checked_sub o.native_pc_free n)) λ t e.
      let s = checked_sub-some o.native_pc_free n t e in
      returns (s.1, record { coin_free = refl; coin_total = refl; pc_free = s.0; pc_total = refl })

  pub unlock_coin-HasBalances :
      Post
        (λ d.
          (o.native_coin_free + n ≤ o.native_coin_total)
          × HasBalances d
              (o.native_coin_free + n)
              o.native_coin_total
              o.native_pc_free
              o.native_pc_total)
        (unlock_coin o n)
  unfolding unlock_coin
  unlock_coin-HasBalances = Post->>= (Post-unwrap (checked_add o.native_coin_free n)) λ t e.
      Post->>= (assert-true (leb t o.native_coin_total)) λ _ b.
        let s = checked_add-some o.native_coin_free n t e in
        returns (
          ground arith,
          record { coin_free = s; coin_total = refl; pc_free = refl; pc_total = refl },
        )

  pub unlock_pc-HasBalances :
      Post
        (λ d.
          (o.native_pc_free + n ≤ o.native_pc_total)
          × HasBalances d o.native_coin_free o.native_coin_total
              (o.native_pc_free + n)
              o.native_pc_total)
        (unlock_pc o n)
  unfolding unlock_pc
  unlock_pc-HasBalances = Post->>= (Post-unwrap (checked_add o.native_pc_free n)) λ t e.
      Post->>= (assert-true (leb t o.native_pc_total)) λ _ b.
        let s = checked_add-some o.native_pc_free n t e in
        returns (
          ground arith,
          record { coin_free = refl; coin_total = refl; pc_free = s; pc_total = refl },
        )
