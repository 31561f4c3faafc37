-- ===== src/Types.antt =====
-- The small types that the parts of the program share: `Side` and `OrderType` of
-- dex/src/matching.rs, `SelfTradeBehavior` of dex/src/instruction.rs, `NonZeroU64`, and addresses.
use openbook_dex.Prelude.{
  ℕ, zero, suc, ◌≡◌, ◌≢◌, refl, Bool, true, false, Option, none, some, arith, ◌==◌, if◌then◌else◌,
}

pub data Side : Type 0 where
  bid ask : Side

pub data OrderType : Type 0 where
  limit immediate_or_cancel post_only : OrderType

pub data SelfTradeBehavior : Type 0 where
  decrement_take cancel_provide abort_transaction : SelfTradeBehavior

-- `From<SelfTradeBehavior> for u8` and `TryFromPrimitive`.
unfoldable pub behavior_to_u8 : SelfTradeBehavior → ℕ
behavior_to_u8 decrement_take = 0
behavior_to_u8 cancel_provide = 1
behavior_to_u8 abort_transaction = 2

unfoldable pub behavior_from_u8 : ℕ → Option SelfTradeBehavior
behavior_from_u8 zero = some decrement_take
behavior_from_u8 (suc zero) = some cancel_provide
behavior_from_u8 (suc (suc zero)) = some abort_transaction
behavior_from_u8 _ = none

pub behavior_from_u8-to_u8 : (b : SelfTradeBehavior) → behavior_from_u8 (behavior_to_u8 b) ≡ some b
unfolding behavior_from_u8 behavior_to_u8
behavior_from_u8-to_u8 b = ground arith

-- An account's address, a `[u64; 4]` in the source, read as one number with the first word the most
-- significant; the program compares addresses and does nothing else with them.
abbrev pub Address : Type 0
Address = ℕ

abbrev pub side_eq : Side → Side → Bool
side_eq bid bid = true
side_eq ask ask = true
side_eq _ _ = false

-- `NonZeroU64::new`, and `map_or(0, NonZeroU64::get)`.
abbrev pub non_zero : ℕ → Option ℕ
non_zero n = if n == 0 then none else some n

abbrev pub get_or_zero : Option ℕ → ℕ
get_or_zero none = 0
get_or_zero (some n) = n

-- An `Option<NonZeroU64>` holds no zero.
abbrev pub IsNonZero : Option ℕ → Type 0
IsNonZero o = o ≢ some 0

pub non_zero-get_or_zero : (o : Option ℕ) → IsNonZero o → non_zero (get_or_zero o) ≡ o
non_zero-get_or_zero none h = refl
non_zero-get_or_zero (some zero) h = absurd (h refl)
non_zero-get_or_zero (some (suc n)) h = ground arith
