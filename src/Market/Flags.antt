-- ===== src/Market/Flags.antt =====
-- What disabling a market does to the checks of its flags in dex/src/state.rs.
use Prim.Native.Nat.{bit_and, bit_or}
use openbook_dex.Prelude.{ℕ, ◌≡◌, refl, ◌⊎◌, inl, inr, true, false, not, arith, ◌==◌, if◌then◌else◌}
use openbook_dex.Error.{ok, err, error_code, invalid_market_flags, market_is_disabled}
use openbook_dex.Types.{Address}
use openbook_dex.Error.Post.{
  Post, returns, Post-eq, Post-ok, Post-if, Post->>=, check_assert-true, check_or-true,
}
use openbook_dex.Market.{
  MarketState, is_account_flags, permissioned_flag, check_flags, check_enabled, disable_market,
}
use openbook_dex.Market.Versions.{
  AccountInfo, MarketStateV2, Market, v1, v2, market_state, load_market, load_v1, load_v2,
  check_flags_v2,
}

-- The account after `process_disable_market`, and the market in it.
abbrev pub disabled_account : AccountInfo MarketStateV2 → AccountInfo MarketStateV2
disabled_account a = record a {
  contents = record a.contents { inner = disable_market a.contents.inner };
}

-- The market with the flag of a disabled one, and nothing else, set.
abbrev pub flagged : MarketState → MarketState
flagged m = record m { account_flags = bit_or m.account_flags 128 }

abbrev pub disabled : Market → Market
disabled (v1 m) = v1 (flagged m)
disabled (v2 m) = v2 (record m { inner = flagged m.inner })

-- The two flag words that a market without authorities may have, and the four with them.
abbrev IsV1 : ℕ → Type 0
IsV1 f = (f ≡ 3) ⊎ (f ≡ 131)

abbrev IsV2 : ℕ → Type 0
IsV2 f = (f ≡ 515) ⊎ (f ≡ 1539) ⊎ (f ≡ 643) ⊎ (f ≡ 1667)

-- What a market that loads was.
data Loaded (a : AccountInfo MarketStateV2) (program_id : Address) : Market → Type 0 where
  loaded_v1 :
      (a.owner == program_id) ≡ true
      → IsV1 a.contents.inner.account_flags
      → Loaded a program_id (v1 a.contents.inner)
  loaded_v2 :
      (a.owner == program_id) ≡ true
      → IsV2 a.contents.inner.account_flags
      → Loaded a program_id (v2 a.contents)

check_flags-IsV1 : (m : MarketState) → check_flags m true ≡ ok tt → IsV1 m.account_flags
unfolding check_flags
check_flags-IsV1 m e = ground arith

check_flags_v2-IsV2 :
    (m : MarketStateV2) → check_flags_v2 m true ≡ ok tt → IsV2 m.inner.account_flags
unfolding check_flags_v2
check_flags_v2-IsV2 m e = ground arith

load_v1-Loaded :
    (a : AccountInfo MarketStateV2) (p : Address) → Post (Loaded a p) (load_v1 a p true)
unfolding load_v1
load_v1-Loaded a p = Post->>= (check_assert-true _ _ _) λ _ own.
    Post->>= (Post-eq (check_flags a.contents.inner true))
      λ _ e. returns (loaded_v1 own (check_flags-IsV1 a.contents.inner e))

load_v2-Loaded :
    (a : AccountInfo MarketStateV2) (p : Address) → Post (Loaded a p) (load_v2 a p true)
unfolding load_v2
load_v2-Loaded a p = Post->>= (check_assert-true _ _ _) λ _ own.
    Post->>= (Post-eq (check_flags_v2 a.contents true))
      λ _ e. returns (loaded_v2 own (check_flags_v2-IsV2 a.contents e))

load_market-Loaded :
    (a : AccountInfo MarketStateV2) (p : Address) → Post (Loaded a p) (load_market a p true)
unfolding load_market
load_market-Loaded a p =
    let flags = a.contents.inner.account_flags in
    Post->>=
      {f = λ _.
        if not (bit_and flags permissioned_flag == 0) then load_v2 a p true else load_v1 a p true}
      (check_or-true (is_account_flags flags) invalid_market_flags)
      λ _ _.
        Post-if (not (bit_and flags permissioned_flag == 0)) (λ _. load_v2-Loaded a p)
          (λ _. load_v1-Loaded a p)

module _ (a : AccountInfo MarketStateV2) (p : Address) where
  Refusals : Market → Type 0
  Refusals m =
      (load_market (disabled_account a) p true ≡ ok (disabled m))
      × (load_market (disabled_account a) p false ≡ err (error_code invalid_market_flags))
      × (check_enabled (market_state (disabled m)) ≡ err (error_code market_is_disabled))

  refusals : {m : Market} → Loaded a p m → Refusals m
  unfolding Refusals load_market load_v1 load_v2 check_flags_v2 check_flags check_enabled
      disable_market
  refusals (loaded_v1 own (inl f)) = (rw (f, own) refl, rw (f, own) refl, rw f refl)
  refusals (loaded_v1 own (inr f)) = (rw (f, own) refl, rw (f, own) refl, rw f refl)
  refusals (loaded_v2 own (inl f)) = (rw (f, own) refl, rw (f, own) refl, rw f refl)
  refusals (loaded_v2 own (inr (inl f))) = (rw (f, own) refl, rw (f, own) refl, rw f refl)
  refusals (loaded_v2 own (inr (inr (inl f)))) = (rw (f, own) refl, rw (f, own) refl, rw f refl)
  refusals (loaded_v2 own (inr (inr (inr f)))) = (rw (f, own) refl, rw (f, own) refl, rw f refl)

-- A market that loads where disabled markets are allowed, once disabled, still loads there, as the
-- same market but for the flag of a disabled one, which is set; where they are not allowed it is the error of invalid flags; and
-- the test that a market is enabled is the error of a disabled one.
pub disable_market_lem :
    (a : AccountInfo MarketStateV2) (program_id : Address) (m : Market)
    → load_market a program_id true ≡ ok m
    → (load_market (disabled_account a) program_id true ≡ ok (disabled m))
      × (load_market (disabled_account a) program_id false ≡ err (error_code invalid_market_flags))
      × (check_enabled (market_state (disabled m)) ≡ err (error_code market_is_disabled))
unfolding Refusals
disable_market_lem a p m e = refusals a p (Post-ok (load_market-Loaded a p) e)
