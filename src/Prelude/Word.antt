-- ===== src/Prelude/Word.antt =====
-- Machine integers: a `u64` or a `u128` is a number with a bound. The release profile of
-- dex/Cargo.toml does not switch overflow checks on, so the plain operators wrap; `checked_add` and
-- `checked_sub` are the standard library's.
use Prim.Native.Nat.{ℕ, ◌+◌, ◌-◌, ◌*◌, ◌%◌, ◌^◌, ◌≤◌, ◌<◌}
use mathlib.Core.Path.{◌≡◌}
use mathlib.Core.Option.{Option, none, some}
use native.Mathlib.Omega.{arith}
use openbook_dex.Prelude.Tests.{ltb, leb, if◌then◌else◌}

abbrev pub u64_mod : ℕ
u64_mod = 2 ^ 64

abbrev pub u128_mod : ℕ
u128_mod = 2 ^ 128

abbrev pub IsU64 : ℕ → Type 0
IsU64 n = n < u64_mod

abbrev pub IsU128 : ℕ → Type 0
IsU128 n = n < u128_mod

-- `a + b`, `a - b` and `a * b` on `u64`.
unfoldable pub add64 : ℕ → ℕ → ℕ
add64 a b = (a + b) % u64_mod

unfoldable pub sub64 : ℕ → ℕ → ℕ
sub64 a b = (a + u64_mod - b) % u64_mod

unfoldable pub mul64 : ℕ → ℕ → ℕ
mul64 a b = a * b % u64_mod

-- `a.checked_add(b)` and `a.checked_sub(b)` on `u64`.
unfoldable pub checked_add : ℕ → ℕ → Option ℕ
checked_add a b = if ltb (a + b) u64_mod then some (a + b) else none

unfoldable pub checked_sub : ℕ → ℕ → Option ℕ
checked_sub a b = if leb b a then some (a - b) else none

-- Where the true result fits, the operation gives it.
pub add64-eq : (a b : ℕ) → a + b < u64_mod → add64 a b ≡ a + b
unfolding add64
add64-eq a b h = omega arith

pub sub64-eq : (a b : ℕ) → a < u64_mod → b ≤ a → sub64 a b ≡ a - b
unfolding sub64
sub64-eq a b h k = omega arith

pub mul64-eq : (a b : ℕ) → a * b < u64_mod → mul64 a b ≡ a * b
unfolding mul64
mul64-eq a b h = omega arith

pub add64-lt : (a b : ℕ) → add64 a b < u64_mod
unfolding add64
add64-lt a b = omega arith

pub sub64-lt : (a b : ℕ) → sub64 a b < u64_mod
unfolding sub64
sub64-lt a b = omega arith

pub mul64-lt : (a b : ℕ) → mul64 a b < u64_mod
unfolding mul64
mul64-lt a b = omega arith

pub ruleset word_laws = (arith, add64-eq, sub64-eq, mul64-eq, add64-lt, sub64-lt, mul64-lt)
