-- ===== src/Prelude/Bits.antt =====
-- The bits of a native number: `bit_at k n` is the bit of `n` of weight `2 ^ k`, and the machine's
-- `&`, `|` and `!` work bit by bit.
use Prim.Native.Nat.{
  ℕ, zero, suc, ◌+◌, ◌-◌, ◌*◌, ◌/◌, ◌%◌, ◌^◌, ◌≤◌, ◌<◌, min, max, digits, bit_and, bit_or,
  bit_and-bitwise, bit_or-bitwise,
}
use mathlib.Core.Path.{◌≡◌, refl, ap}
use mathlib.Core.Logic.{◌⊎◌}
use native.Mathlib.Omega.{arith}

pub bit_at : ℕ → ℕ → ℕ
bit_at zero n = n % 2
bit_at (suc k) n = bit_at k (n / 2)

pub bit_at-low : (n : ℕ) → bit_at 0 n ≡ n % 2
unfolding bit_at
bit_at-low n = refl

pub bit_at-half : (k n : ℕ) → bit_at (suc k) n ≡ bit_at k (n / 2)
unfolding bit_at
bit_at-half k n = refl

-- Any operation on digits: enough fuel is as good as more, and each digit is worked out alone.
module _ (z : ℕ → ℕ) (f : ℕ → ℕ → ℕ) (law : (b : ℕ) → z b ≡ z (b / 2) * 2 + f 0 (b % 2)) where
  enough : (n m a b : ℕ) → a ≤ n → a ≤ m → digits z f n a b ≡ digits z f m a b
  enough zero zero a b p q = refl
  enough zero (suc m) zero b p q = refl
  enough zero (suc m) (suc a) b p q = absurd (omega arith)
  enough (suc n) zero zero b p q = refl
  enough (suc n) zero (suc a) b p q = absurd (omega arith)
  enough (suc n) (suc m) zero b p q = refl
  enough (suc n) (suc m) (suc a) b p q =
      omega (arith, enough n m (suc a / 2) (b / 2) (omega arith) (omega arith))

  pub each_digit :
      (a b : ℕ) → digits z f a a b ≡ digits z f (a / 2) (a / 2) (b / 2) * 2 + f (a % 2) (b % 2)
  each_digit zero b = law b
  each_digit (suc a) b =
      omega (arith, enough a (suc a / 2) (suc a / 2) (b / 2) (omega arith) (omega arith))

and_digit : (a b : ℕ) → bit_and a b ≡ bit_and (a / 2) (b / 2) * 2 + min (a % 2) (b % 2)
and_digit a b = omega (
  arith,
  each_digit (λ b. zero) min (λ b. omega arith) a b,
  bit_and-bitwise a b,
  bit_and-bitwise (a / 2) (b / 2),
)

or_digit : (a b : ℕ) → bit_or a b ≡ bit_or (a / 2) (b / 2) * 2 + max (a % 2) (b % 2)
or_digit a b = omega (
  arith,
  each_digit (λ b. b) max (λ b. omega arith) a b,
  bit_or-bitwise a b,
  bit_or-bitwise (a / 2) (b / 2),
)

pub bit_at-and : (k a b : ℕ) → bit_at k (bit_and a b) ≡ min (bit_at k a) (bit_at k b)
unfolding bit_at
bit_at-and zero a b = omega (arith, and_digit a b)
bit_at-and (suc k) a b =
    let half : bit_and a b / 2 ≡ bit_and (a / 2) (b / 2) = omega (arith, and_digit a b) in
    rw half (bit_at-and k (a / 2) (b / 2))

pub bit_at-or : (k a b : ℕ) → bit_at k (bit_or a b) ≡ max (bit_at k a) (bit_at k b)
unfolding bit_at
bit_at-or zero a b = omega (arith, or_digit a b)
bit_at-or (suc k) a b =
    let half : bit_or a b / 2 ≡ bit_or (a / 2) (b / 2) = omega (arith, or_digit a b) in
    rw half (bit_at-or k (a / 2) (b / 2))

pub bit_at-lt : (k n : ℕ) → bit_at k n < 2
unfolding bit_at
bit_at-lt zero n = omega arith
bit_at-lt (suc k) n = bit_at-lt k (n / 2)

pub pow_suc : (k : ℕ) → 2 ^ suc k ≡ 2 * 2 ^ k
pow_suc k = grind arith

pub pow_pos : (k : ℕ) → 0 < 2 ^ k
pow_pos zero = omega arith
pow_pos (suc k) = omega (arith, pow_suc k, pow_pos k)

pub pow_lt : (k w : ℕ) → k < w → 2 ^ k < 2 ^ w
pow_lt k zero h = absurd (omega arith)
pow_lt zero (suc w) h = omega (arith, pow_suc w, pow_pos w)
pow_lt (suc k) (suc w) h = omega (arith, pow_suc w, pow_suc k, pow_lt k w (omega arith))

-- All the bits up to a width, the other way round.
pub bit_at-not : (w k n : ℕ) → n < 2 ^ w → k < w → bit_at k (2 ^ w - 1 - n) ≡ 1 - bit_at k n
unfolding bit_at
bit_at-not zero k n h lt = absurd (omega arith)
bit_at-not (suc w) zero n h lt = omega (arith, pow_suc w, pow_pos w)
bit_at-not (suc w) (suc k) n h lt =
    let half : (2 ^ suc w - 1 - n) / 2 ≡ 2 ^ w - 1 - n / 2 = omega (arith, pow_suc w, pow_pos w) in
    rw half (bit_at-not w k (n / 2) (omega (arith, pow_suc w)) (omega arith))

-- A single bit.
pub bit_at-pow_same : (k : ℕ) → bit_at k (2 ^ k) ≡ 1
unfolding bit_at
bit_at-pow_same zero = refl
bit_at-pow_same (suc k) =
    let half : 2 ^ suc k / 2 ≡ 2 ^ k = omega (arith, pow_suc k) in rw half (bit_at-pow_same k)

pub bit_at-zero : (k : ℕ) → bit_at k 0 ≡ 0
unfolding bit_at
bit_at-zero zero = refl
bit_at-zero (suc k) = bit_at-zero k

bit_at-one : (k : ℕ) → bit_at (suc k) 1 ≡ 0
unfolding bit_at
bit_at-one k = bit_at-zero k

pub bit_at-pow_other : (k j : ℕ) → (k < j) ⊎ (j < k) → bit_at k (2 ^ j) ≡ 0
unfolding bit_at
bit_at-pow_other zero zero h = absurd (omega arith)
bit_at-pow_other (suc k) zero h = bit_at-one k
bit_at-pow_other zero (suc j) h = omega (arith, pow_suc j)
bit_at-pow_other (suc k) (suc j) h =
    let half : 2 ^ suc j / 2 ≡ 2 ^ j = omega (arith, pow_suc j) in
    rw half (bit_at-pow_other k j (omega arith))

and-zero_within : (n a : ℕ) → a ≤ n → bit_and a 0 ≡ 0
and-zero_within n zero h = refl
and-zero_within zero (suc a) h = absurd (omega arith)
and-zero_within (suc n) (suc a) h =
    omega (arith, and_digit (suc a) 0, and-zero_within n (suc a / 2) (omega arith))

mul-pow_suc : (x k : ℕ) → x * 2 ^ suc k ≡ 2 * (x * 2 ^ k)
mul-pow_suc x k = let e = pow_suc k in grind arith

-- The test of a single bit.
pub and-pow : (k n : ℕ) → bit_and n (2 ^ k) ≡ bit_at k n * 2 ^ k
unfolding bit_at
and-pow zero n = omega (arith, and_digit n 1, and-zero_within (n / 2) (n / 2) (omega arith))
and-pow (suc k) n =
    let half : 2 ^ suc k / 2 ≡ 2 ^ k = omega (arith, pow_suc k) in
    let rest = and-pow k (n / 2) in
    let same : bit_and (n / 2) (2 ^ suc k / 2) ≡ bit_and (n / 2) (2 ^ k) =
      ap (bit_and (n / 2)) half in
    omega (arith, and_digit n (2 ^ suc k), pow_suc k, mul-pow_suc (bit_at k (n / 2)) k)

or-zero_within : (n a : ℕ) → a ≤ n → bit_or a 0 ≡ a
or-zero_within n zero h = refl
or-zero_within zero (suc a) h = absurd (omega arith)
or-zero_within (suc n) (suc a) h =
    omega (arith, or_digit (suc a) 0, or-zero_within n (suc a / 2) (omega arith))

-- Words side by side.
pub or-add : (k x y : ℕ) → y < 2 ^ k → bit_or (x * 2 ^ k) y ≡ x * 2 ^ k + y
or-add zero x y h =
    let none : y ≡ 0 = omega arith in
    rw none (omega (arith, or-zero_within (x * 2 ^ 0) (x * 2 ^ 0) (omega arith)))
or-add (suc k) x y h =
    let half : x * 2 ^ suc k / 2 ≡ x * 2 ^ k = omega (arith, mul-pow_suc x k) in
    let same : bit_or (x * 2 ^ suc k / 2) (y / 2) ≡ bit_or (x * 2 ^ k) (y / 2) =
      ap (λ n. bit_or n (y / 2)) half in
    omega (
      arith,
      or_digit (x * 2 ^ suc k) y,
      mul-pow_suc x k,
      or-add k x (y / 2) (omega (arith, pow_suc k)),
    )
