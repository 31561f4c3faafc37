-- ===== src/Market/Claims.antt =====
-- What `Market::load_orders_mut` of dex/src/state.rs lets through: the open orders of the right market
-- and owner, and a fresh account only where the market's authority signs for it.
use openbook_dex.Prelude.{
  ℕ, ◌-◌, ◌<◌, ◌≡◌, refl, ap, ◌∙◌, ◌⊎◌, inl, inr, true, Option, none, some, arith, ◌==◌,
  if◌then◌else◌, u128_mod, bit_at, bit_at-not, bit_at-zero, ==_iff, Bool-cases,
}
use openbook_dex.Error.{
  DexResult, ok, check_assert, check_or, ok_or, state, invalid_open_orders_authority,
  rent_not_provided, owner_account_not_provided, orders_not_rent_exempt, wrong_orders_account,
}
use openbook_dex.Error.Post.{>>=-eq-ok, check_assert-eq-ok, check_or-eq-ok, ok_or-eq-ok}
use openbook_dex.Types.{Address}
use openbook_dex.OpenOrders.{OpenOrders, check_flags, init, slot_side}
use openbook_dex.OpenOrders.Bits.{slot_side-eq}
use openbook_dex.Market.Versions.{AccountInfo, Market, market_state, open_orders_authority}
use openbook_dex.Market.Loads.{Rent, key_eq, key_is, claim_orders, load_orders_mut}

-- The account after `init`: nothing in it, and every slot free.
pub record IsFresh (o : OpenOrders) : Type 0 where
  pub coin_free : o.native_coin_free ≡ 0
  pub coin_total : o.native_coin_total ≡ 0
  pub pc_free : o.native_pc_free ≡ 0
  pub pc_total : o.native_pc_total ≡ 0
  pub slots : (k : ℕ) → k < 128 → slot_side o k ≡ none

pub all_free :
    (o : OpenOrders) (k : ℕ) → o.free_slot_bits ≡ u128_mod - 1 → k < 128 → slot_side o k ≡ none
all_free o k e h =
    let free : bit_at k o.free_slot_bits ≡ 1 =
      ap (bit_at k) e ∙ omega (arith, bit_at-not 128 k 0 (omega arith) h, bit_at-zero k) in
    rw (slot_side-eq o k h, free) refl

init-fields :
    (o d : OpenOrders) (market owner : Address)
    → init o market owner ≡ ok d
    → (d.native_coin_free ≡ 0)
      × (d.native_coin_total ≡ 0)
      × (d.native_pc_free ≡ 0)
      × (d.native_pc_total ≡ 0)
      × (d.free_slot_bits ≡ u128_mod - 1)
unfolding init
init-fields o d market owner e = ground arith

init-IsFresh : (o d : OpenOrders) (market owner : Address) → init o market owner ≡ ok d → IsFresh d
init-IsFresh o d market owner e =
    let (cf, ct, pf, pt, bits) = init-fields o d market owner e in
    record {
      coin_free = cf;
      coin_total = ct;
      pc_free = pf;
      pc_total = pt;
      slots = λ k h. all_free d k bits h;
    }

-- How an account without open orders is let through.
pub record IsClaimed (m : Market) (a : AccountInfo OpenOrders) (rent : Option Rent)
    (authority : Option Address) (o : OpenOrders) : Type 0 where
  pub unused : a.contents.account_flags ≡ 0
  pub signed : key_eq authority (open_orders_authority m) ≡ true
  pub exempt : (r : Rent) × (rent ≡ some r) × (r a.lamports a.data_len ≡ true)
  pub fresh : IsFresh o

claim_orders-IsClaimed :
    (m : Market) (a : AccountInfo OpenOrders) (owner : Option Address) (rent : Option Rent)
    (authority : Option Address) (o : OpenOrders)
    → a.contents.account_flags ≡ 0
    → claim_orders m a owner rent authority ≡ ok o
    → IsClaimed m a rent authority o
unfolding claim_orders
claim_orders-IsClaimed m a owner rent authority o z e =
    let (_, signed, e₁) =
      >>=-eq-ok
        (check_or (key_eq authority (open_orders_authority m)) invalid_open_orders_authority) _ e in
    let (r, given, e₂) = >>=-eq-ok (ok_or rent rent_not_provided) _ e₁ in
    let (key, _, e₃) = >>=-eq-ok (ok_or owner owner_account_not_provided) _ e₂ in
    let (_, exempt, e₄) =
      >>=-eq-ok (check_or (r a.lamports a.data_len) orders_not_rent_exempt) _ e₃ in
    record {
      unused = z;
      signed = check_or-eq-ok _ _ signed;
      exempt = (r, ok_or-eq-ok _ _ given, check_or-eq-ok _ _ exempt);
      fresh = init-IsFresh a.contents o (market_state m).own_address key e₄;
    }

check_flags-eq : (o : OpenOrders) (u : Unit {0}) → check_flags o ≡ ok u → o.account_flags ≡ 5
unfolding check_flags
check_flags-eq o u e = ground arith

-- What is let through.
pub record IsLoaded (m : Market) (a : AccountInfo OpenOrders) (owner : Option Address)
    (program_id : Address) (o : OpenOrders) : Type 0 where
  pub program : a.owner ≡ program_id
  pub flags : o.account_flags ≡ 5
  pub market : o.market ≡ (market_state m).own_address
  pub owned : key_is owner o.owner ≡ true

-- Open orders that are loaded with a market are in an account of the program, marked as initialized
-- open orders, on that market and of the owner where one is asked for; and they are those that the
-- account held, or the account was unused, the authority that the market names, if it names one,
-- stands for it and no other does, the account is rent exempt, and they hold nothing and have every
-- slot free.
pub load_orders_mut_lem :
    (m : Market) (a : AccountInfo OpenOrders) (owner : Option Address) (program_id : Address)
    (rent : Option Rent) (authority : Option Address) (o : OpenOrders)
    → load_orders_mut m a owner program_id rent authority ≡ ok o
    → IsLoaded m a owner program_id o × ((o ≡ a.contents) ⊎ IsClaimed m a rent authority o)
unfolding load_orders_mut
load_orders_mut_lem m a owner p rent authority o e =
    let c : DexResult OpenOrders =
      if a.contents.account_flags == 0
      then claim_orders m a owner rent authority
      else ok a.contents in
    let (_, program, e₁) = >>=-eq-ok (check_assert state 209 (a.owner == p)) _ e in
    let (d, claims, e₂) = >>=-eq-ok c _ e₁ in
    let (_, flags, e₃) = >>=-eq-ok (check_flags d) _ e₂ in
    let (_, market, e₄) =
      >>=-eq-ok (check_or (d.market == (market_state m).own_address) wrong_orders_account) _ e₃ in
    let (_, owned, e₅) = >>=-eq-ok (check_or (key_is owner d.owner) wrong_orders_account) _ e₄ in
    let same : d ≡ o = cc in
    rw (← same) (
      record {
        program = (==_iff _ _).0 (check_assert-eq-ok _ _ _ program);
        flags = check_flags-eq d _ flags;
        market = (==_iff _ _).0 (check_or-eq-ok _ _ market);
        owned = check_or-eq-ok _ _ owned;
      },
      elim (Bool-cases (a.contents.account_flags == 0)) [
        | inl z ↦
            let claims' : claim_orders m a owner rent authority ≡ ok d = rw z at claims in
            inr (claim_orders-IsClaimed m a owner rent authority d ((==_iff _ _).0 z) claims')
        | inr z ↦ let kept : ok a.contents ≡ ok d = rw z at claims in inl (cc)
      ],
    )
