-- ===== src/Critbit/Prefix.antt =====
-- The bits of the keys of dex/src/critbit.rs, the highest first: what `leading_zeros` of an exclusive
-- or and the mask of `walk_down` say about the prefixes of keys.
use Prim.Native.Nat.{differ, bit_and, bit_xor, bit_xor-bitwise}
use native.Mathlib.Nat.{div-div-eq-div-mul, div-eq_of_lt, div-lt_iff_lt-mul}
use openbook_dex.Prelude.{
  ℕ, zero, suc, ◌+◌, ◌-◌, ◌*◌, ◌/◌, ◌%◌, ◌^◌, ◌≤◌, ◌<◌, ◌≡◌, ◌≢◌, ◌↔◌, refl, sym, ap, ◌∙◌, ◌⊎◌, inl,
  inr, Bool, not, arith, ◌==◌, if◌then◌else◌, Bool-cases, bit_at, bit_at-low, bit_at-half, pow_suc,
  pow_pos, pow_lt, and-pow, u128_mod, each_digit,
}
use openbook_dex.Critbit.Node.{leading_zeros_below, leading_zeros, shared_prefix_len, crit_bit}

-- The bits of a key above the lowest `w` ones.
abbrev pub shr : ℕ → ℕ → ℕ
shr n w = n / 2 ^ w

-- The first `p` bits of a key of 128 bits.
abbrev pub top : ℕ → ℕ → ℕ
top p key = shr key (128 - p)

shr-half : (n w : ℕ) → shr (n / 2) w ≡ shr n (suc w)
shr-half n w = div-div-eq-div-mul n 2 (2 ^ w) ∙ ap (λ d. n / d) (sym (pow_suc w))

shr-suc : (n w : ℕ) → shr n (suc w) ≡ shr n w / 2
shr-suc n w = ap (λ d. n / d) (pow_suc w ∙ omega arith) ∙ sym (div-div-eq-div-mul n (2 ^ w) 2)

-- A prefix that is one bit shorter.
pub top-suc : (p key : ℕ) → p < 128 → top p key ≡ top (suc p) key / 2
top-suc p key h =
    let e : 128 - p ≡ suc (128 - suc p) = omega arith in rw e (shr-suc key (128 - suc p))

xor_digit : (a b : ℕ) → bit_xor a b ≡ bit_xor (a / 2) (b / 2) * 2 + differ (a % 2) (b % 2)
xor_digit a b = omega (
  arith,
  each_digit (λ b. b) differ (λ b. omega arith) a b,
  bit_xor-bitwise a b,
  bit_xor-bitwise (a / 2) (b / 2),
)

two_digits : (x y : ℕ) → x < 2 → y < 2 → (x ≡ y) × (differ x y ≡ 0) ⊎ (x ≢ y) × (differ x y ≡ 1)
two_digits zero zero h k = inl (refl, refl)
two_digits zero (suc zero) h k = inr (omega arith, refl)
two_digits (suc zero) zero h k = inr (omega arith, refl)
two_digits (suc zero) (suc zero) h k = inl (refl, refl)
two_digits x (suc (suc y)) h k = absurd (omega arith)
two_digits (suc (suc x)) y h k = absurd (omega arith)

xor-zero_within : (n a b : ℕ) → a ≤ n → b ≤ n → (bit_xor a b ≡ 0) ↔ (a ≡ b)
xor-zero_within zero zero zero h k = ((λ e. refl), λ e. refl)
xor-zero_within zero zero (suc b) h k = absurd (omega arith)
xor-zero_within zero (suc a) b h k = absurd (omega arith)
xor-zero_within (suc n) a b h k =
    let digit = two_digits (a % 2) (b % 2) (omega arith) (omega arith) in
    let (to, from) = xor-zero_within n (a / 2) (b / 2) (omega arith) (omega arith) in
    (
      λ e. (let halves = to (omega (arith, xor_digit a b)) in omega (arith, xor_digit a b)),
      λ e. (let halves = from (omega arith) in omega (arith, xor_digit a b)),
    )

xor-zero : (a b : ℕ) → (bit_xor a b ≡ 0) ↔ (a ≡ b)
xor-zero a b = xor-zero_within (a + b) a b (omega arith) (omega arith)

xor-shr : (w a b : ℕ) → shr (bit_xor a b) w ≡ bit_xor (shr a w) (shr b w)
xor-shr zero a b =
    let e : (n : ℕ) → n / 1 ≡ n = λ n. omega arith in rw (e (bit_xor a b), e a, e b) refl
xor-shr (suc w) a b =
    let half : bit_xor a b / 2 ≡ bit_xor (a / 2) (b / 2) =
      omega (arith, xor_digit a b, two_digits (a % 2) (b % 2) (omega arith) (omega arith)) in
    sym (shr-half (bit_xor a b) w)
    ∙ ap (λ n. shr n w) half
    ∙ xor-shr w (a / 2) (b / 2)
    ∙ ap (bit_xor (shr (a / 2) w)) (shr-half b w)
    ∙ ap (λ n. bit_xor n (shr b (suc w))) (shr-half a w)

shr-zero_iff : (n w : ℕ) → (shr n w ≡ 0) ↔ (n < 2 ^ w)
shr-zero_iff n w = (
  (λ e.
      (let below = (div-lt_iff_lt-mul {x = n} {y = 1} (pow_pos w)).0 in
        omega (arith, below (omega arith)))),
  λ h. div-eq_of_lt h,
)

le_cases : (k w : ℕ) → k ≤ w → (k ≡ w) ⊎ (k < w)
le_cases k w h = omega arith

pow_le : (k w : ℕ) → k ≤ w → 2 ^ k ≤ 2 ^ w
pow_le k w h = elim (le_cases k w h) [
  | inl e ↦ rw e (omega arith)
  | inr e ↦ omega (arith, pow_lt k w e)
]

leading_zeros_below_iff :
    (w p n : ℕ) → p ≤ w → n < 2 ^ w → (p ≤ leading_zeros_below w n) ↔ (n < 2 ^ (w - p))
unfolding leading_zeros_below
leading_zeros_below_iff w zero n h k =
    let e : w - 0 ≡ w = omega arith in rw e ((λ _. k), λ _. omega arith)
leading_zeros_below_iff zero (suc p) n h k = absurd (omega arith)
leading_zeros_below_iff (suc w) (suc p) n h k =
    let less : suc w - suc p ≡ w - p = omega arith in
    rw less (elim (Bool-cases (n / 2 ^ w == 0)) [
      | inl e ↦
          let below = (shr-zero_iff n w).0 (ground arith) in
          let (to, from) = leading_zeros_below_iff w p n (omega arith) below in
          rw e ((λ l. to (omega arith)), λ l. omega (arith, from l))
      | inr e ↦ rw e (
        (λ l. absurd (omega arith)),
        λ l.
            (let z = (shr-zero_iff n w).1 (omega (arith, pow_le (w - p) w (omega arith))) in
              absurd (ground arith)),
      )
    ])

leading_zeros_below-le : (w n : ℕ) → leading_zeros_below w n ≤ w
unfolding leading_zeros_below
leading_zeros_below-le zero n = omega arith
leading_zeros_below-le (suc w) n = ground (arith, leading_zeros_below-le w n)

bit_at-shr : (k n : ℕ) → bit_at k n ≡ shr n k % 2
bit_at-shr zero n = bit_at-low n ∙ omega arith
bit_at-shr (suc k) n = bit_at-half k n ∙ bit_at-shr k (n / 2) ∙ ap (λ m. m % 2) (shr-half n k)

pub shared_prefix_len-le : (a b : ℕ) → shared_prefix_len a b ≤ 128
unfolding shared_prefix_len leading_zeros
shared_prefix_len-le a b = leading_zeros_below-le 128 (bit_xor a b)

xor-lt : (w a b : ℕ) → a < 2 ^ w → b < 2 ^ w → bit_xor a b < 2 ^ w
xor-lt w a b h k =
    let x = (shr-zero_iff a w).1 h in
    let y = (shr-zero_iff b w).1 k in
    (shr-zero_iff (bit_xor a b) w).0
      (xor-shr w a b ∙ ap (bit_xor (shr a w)) y ∙ ap (λ n. bit_xor n 0) x ∙ (xor-zero 0 0).1 refl)

-- Two keys share as many bits as their prefixes of that length agree on.
pub shared_prefix_len_iff :
    (p a b : ℕ)
    → p ≤ 128
    → a < u128_mod
    → b < u128_mod
    → (p ≤ shared_prefix_len a b) ↔ (top p a ≡ top p b)
unfolding shared_prefix_len leading_zeros
shared_prefix_len_iff p a b h x y =
    let (to, from) = leading_zeros_below_iff 128 p (bit_xor a b) h (xor-lt 128 a b x y) in
    let (none, within) = shr-zero_iff (bit_xor a b) (128 - p) in
    let (same, equal) = xor-zero (top p a) (top p b) in
    let e = xor-shr (128 - p) a b in
    ((λ l. same (sym e ∙ within (to l))), λ s. from (none (e ∙ equal s)))

abbrev pub bit_of : Bool → ℕ
bit_of b = if b then 1 else 0

pow-shr : (k w : ℕ) → k ≤ w → shr (2 ^ w) k ≡ 2 ^ (w - k)
pow-shr zero w h = let e : w - 0 ≡ w = omega arith in rw e (omega arith)
pow-shr (suc k) zero h = absurd (omega arith)
pow-shr (suc k) (suc w) h =
    let half : 2 ^ suc w / 2 ≡ 2 ^ w = omega (arith, pow_suc w) in
    sym (shr-half (2 ^ suc w) k)
    ∙ ap (λ n. shr n k) half
    ∙ pow-shr k w (omega arith)
    ∙ ap (λ d. 2 ^ d) (omega arith)

-- The mask of `walk_down`.
mask-eq : (p : ℕ) → p < 128 → 2 ^ 127 / 2 ^ p ≡ 2 ^ (127 - p)
mask-eq p h = pow-shr p 127 (omega arith)

bit_of-test : (b w : ℕ) → b < 2 → 0 < w → bit_of (not (b * w == 0)) ≡ b
bit_of-test zero w h pos = ground arith
bit_of-test (suc zero) w h pos = ground arith
bit_of-test (suc (suc b)) w h pos = absurd (omega arith)

-- The bit that a walk down goes by is the one after the prefix.
pub top-crit_bit : (p key : ℕ) → p < 128 → top (suc p) key ≡ 2 * top p key + bit_of (crit_bit p key)
unfolding crit_bit
top-crit_bit p key h =
    let k = 127 - p in
    let masked : bit_and key (2 ^ 127 / 2 ^ p) ≡ shr key k % 2 * 2 ^ k =
      ap (bit_and key) (mask-eq p h) ∙ and-pow k key ∙ ap (λ b. b * 2 ^ k) (bit_at-shr k key) in
    let tested = bit_of-test (shr key k % 2) (2 ^ k) (omega arith) (pow_pos k) in
    let same : 128 - suc p ≡ k = omega arith in
    rw (masked, tested) (omega (arith, top-suc p key h, ap (shr key) same))
