-- ===== src/Handlers/Closing.antt =====
-- What closing an open orders account (dex/src/state.rs) asks for and leaves behind.
use openbook_dex.Prelude.{
  ℕ, ◌+◌, ◌-◌, ◌<◌, ◌≡◌, ◌≢◌, sym, ap, ◌∙◌, inl, inr, true, Option, none, some, arith, ◌==◌,
  u128_mod, checked_add, ==_iff,
}
use openbook_dex.Error.{ok, check_or, check_assert, state, too_many_open_orders}
use openbook_dex.Error.Post.{>>=-eq-ok, check_assert-eq-ok, check_or-eq-ok}
use openbook_dex.Types.{Address}
use openbook_dex.OpenOrders.{OpenOrders, slot_side}
use openbook_dex.Market.{closed_flag}
use openbook_dex.Market.Versions.{AccountInfo, MarketStateV2, Market, load_market}
use openbook_dex.Market.Loads.{Rent, load_orders_mut}
use openbook_dex.Market.Claims.{load_orders_mut_lem, all_free}
use openbook_dex.Handlers.Accounts.{KeyAccount, signer_account}
use openbook_dex.Handlers.Orders.{Closed, process_close_open_orders, close_open_orders_instruction}

-- The account of which nothing is owed: no order, no coin and no quote currency.
pub record IsEmpty (o : OpenOrders) : Type 0 where
  pub coin_total : o.native_coin_total ≡ 0
  pub pc_total : o.native_pc_total ≡ 0
  pub slots : (k : ℕ) → k < 128 → slot_side o k ≡ none

-- No load of an account succeeds.
abbrev pub IsRefused : AccountInfo OpenOrders → Type 0
IsRefused a =
    (m : Market) (owner : Option Address) (p : Address) (rent : Option Rent)
    (authority : Option Address) (o : OpenOrders)
    → load_orders_mut m a owner p rent authority ≢ ok o

pub record IsClosed (a : AccountInfo OpenOrders) (owner dest : KeyAccount) (r : Closed)
    : Type 0 where
  pub signed : owner.is_signer ≡ true
  pub owned : a.contents.owner ≡ owner.key
  pub empty : IsEmpty a.contents
  pub lamports : r.dest.lamports ≡ dest.lamports + a.lamports
  pub nothing_left : r.open_orders.lamports ≡ 0
  pub refused : IsRefused r.open_orders

process_close-parts :
    (a : AccountInfo OpenOrders) (dest : KeyAccount) (o : OpenOrders) (r : Closed)
    → a.key ≢ dest.key
    → process_close_open_orders a dest o ≡ ok r
    → (r.dest.lamports ≡ dest.lamports + a.lamports)
      × (r.open_orders.lamports ≡ 0)
      × (r.open_orders.contents.account_flags ≡ closed_flag)
unfolding process_close_open_orders checked_add
process_close-parts a dest o r h e = ground arith

refused_lem : (a : AccountInfo OpenOrders) → a.contents.account_flags ≡ closed_flag → IsRefused a
refused_lem a f m owner p rent authority o e =
    let (loaded, how) = load_orders_mut_lem m a owner p rent authority o e in
    elim how [
      | inl same ↦
          absurd (omega (arith, ap (λ (o : OpenOrders). o.account_flags) same, loaded.flags))
      | inr claimed ↦ absurd (omega (arith, claimed.unused))
    ]

-- Closing an open orders account into another account succeeds only where the owner of the open orders
-- signs, and they hold no order and no balance; the other account then has the lamports of both, the
-- closed one has none, and it is never loaded again, on any market and for any owner.
pub close_open_orders_lem :
    (program_id : Address) (count : ℕ) (a : AccountInfo OpenOrders) (owner dest : KeyAccount)
    (market : AccountInfo MarketStateV2) (r : Closed)
    → a.key ≢ dest.key
    → close_open_orders_instruction program_id count a owner dest market ≡ ok r
    → IsClosed a owner dest r
unfolding close_open_orders_instruction signer_account
close_open_orders_lem p count a owner dest market r h e =
    let (_, _, e₁) = >>=-eq-ok (check_assert state 2608 (count == 4)) _ e in
    let (_, signed, e₂) = >>=-eq-ok (check_assert state 1753 owner.is_signer) _ e₁ in
    let (m, _, e₃) = >>=-eq-ok (load_market market p true) _ e₂ in
    let (o, loads, e₄) = >>=-eq-ok (load_orders_mut m a (some owner.key) p none none) _ e₃ in
    let (_, free, e₅) =
      >>=-eq-ok (check_or (o.free_slot_bits == u128_mod - 1) too_many_open_orders) _ e₄ in
    let (_, coin, e₆) = >>=-eq-ok (check_or (o.native_coin_total == 0) too_many_open_orders) _ e₅ in
    let (_, pc, e₇) = >>=-eq-ok (check_or (o.native_pc_total == 0) too_many_open_orders) _ e₆ in
    let (loaded, how) = load_orders_mut_lem m a (some owner.key) p none none o loads in
    let same : o ≡ a.contents = elim how [
      | inl same ↦ same
      | inr claimed ↦ let (_, missing, _) = claimed.exempt in absurd (cc)
    ] in
    let (lamports, left, flags) = process_close-parts a dest o r h e₇ in
    record {
      signed = check_assert-eq-ok _ _ _ signed;
      owned = ap (λ (o : OpenOrders). o.owner) (sym same) ∙ (==_iff _ _).0 loaded.owned;
      empty = rw (← same) (record {
        coin_total = (==_iff _ _).0 (check_or-eq-ok _ _ coin);
        pc_total = (==_iff _ _).0 (check_or-eq-ok _ _ pc);
        slots = λ k lt. all_free o k ((==_iff _ _).0 (check_or-eq-ok _ _ free)) lt;
      });
      lamports = lamports;
      nothing_left = left;
      refused = refused_lem r.open_orders flags;
    }
