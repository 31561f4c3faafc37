-- ===== src/OpenOrders/Bits.antt =====
-- Single bits in the words of an `OpenOrders` (dex/src/state.rs): the test, the two writes and the
-- lowest bit that is set.
use Prim.Native.Nat.{bit_and, bit_or}
use openbook_dex.Prelude.{
  ℕ, zero, suc, ◌-◌, ◌*◌, ◌/◌, ◌%◌, ◌^◌, ◌<◌, ◌≡◌, refl, ap, ◌∙◌, ◌⊎◌, inl, inr, not, Option, none,
  some, arith, ◌==◌, if◌then◌else◌, Bool-cases, bit_at, bit_at-lt, bit_at-and, bit_at-or,
  bit_at-not, bit_at-pow_same, bit_at-pow_other, and-pow, pow_pos, pow_lt, pow_suc, bit_at-half,
  bit_at-low,
}
use openbook_dex.Types.{Side, bid, ask}
use openbook_dex.OpenOrders.{OpenOrders, slot_mask, bit_not, slot_side, trailing_zeros_from}

-- What the two bits of a slot say.
abbrev pub side_of : ℕ → ℕ → Option Side
side_of free is_bid = if free == 1 then none else if is_bid == 1 then some bid else some ask

two_cases : (n : ℕ) → n < 2 → (n ≡ 0) ⊎ (n ≡ 1)
two_cases n h = omega arith

nonzero_test : (x b w : ℕ) → x ≡ b * w → 0 < w → (b ≡ 0) ⊎ (b ≡ 1) → not (x == 0) ≡ (b == 1)
nonzero_test x b w e pos (inl z) =
    let zero_x : x ≡ 0 = e ∙ ap (λ b. b * w) z ∙ omega arith in rw (zero_x, z) refl
nonzero_test x b w e pos (inr z) =
    let same : x ≡ w = e ∙ ap (λ b. b * w) z ∙ omega arith in rw z (ground arith)

-- The source's test of a bit.
pub test_bit : (n k : ℕ) → k < 128 → not (bit_and n (slot_mask k) == 0) ≡ (bit_at k n == 1)
test_bit n k h =
    let low : k % 128 ≡ k = omega arith in
    nonzero_test (bit_and n (slot_mask k)) (bit_at k n) (2 ^ k) (rw low (and-pow k n)) (pow_pos k)
      (two_cases (bit_at k n) (bit_at-lt k n))

pub slot_side-eq :
    (o : OpenOrders) (k : ℕ)
    → k < 128
    → slot_side o k ≡ side_of (bit_at k o.free_slot_bits) (bit_at k o.is_bid_bits)
unfolding slot_side
slot_side-eq o k h = rw (test_bit o.free_slot_bits k h, test_bit o.is_bid_bits k h) refl

-- The lowest bit that is set.
pub trailing_zeros_from_lem :
    (w n : ℕ)
    → n < 2 ^ w
    → 0 < n
    → (trailing_zeros_from w n < w) × (bit_at (trailing_zeros_from w n) n ≡ 1)
unfolding trailing_zeros_from
trailing_zeros_from_lem zero n h pos = absurd (omega arith)
trailing_zeros_from_lem (suc w) n h pos = elim (Bool-cases (n % 2 == 0)) [
  | inl e ↦
      let even : n % 2 ≡ 0 = ground arith in
      let r = trailing_zeros_from_lem w (n / 2) (omega (arith, pow_suc w)) (omega arith) in
      rw e (omega (arith, r.0), bit_at-half (trailing_zeros_from w (n / 2)) n ∙ r.1)
  | inr e ↦ let odd : n % 2 ≡ 1 = ground arith in rw e (omega arith, bit_at-low n ∙ odd)
]

-- What the two writes of a bit do to each bit.
pub clear_bit :
    (n k slot : ℕ)
    → k < 128
    → slot < 128
    → bit_at k (bit_and n (bit_not (slot_mask slot))) ≡ (if k == slot then 0 else bit_at k n)
clear_bit n k slot h h' =
    let low : slot % 128 ≡ slot = omega arith in
    let mask : bit_at k (bit_not (slot_mask slot)) ≡ 1 - bit_at k (2 ^ slot) =
      rw low (bit_at-not 128 k (2 ^ slot) (pow_lt slot 128 h') h) in
    let b = bit_at-and k n (bit_not (slot_mask slot)) in
    elim (Bool-cases (k == slot)) [
      | inl e ↦
          let same : k ≡ slot = ground arith in
          let one : bit_at k (2 ^ slot) ≡ 1 = rw same (bit_at-pow_same slot) in rw e (omega arith)
      | inr e ↦
          let other = bit_at-pow_other k slot (ground arith) in rw e (omega (arith, bit_at-lt k n))
    ]

pub set_bit :
    (n k slot : ℕ)
    → k < 128
    → slot < 128
    → bit_at k (bit_or n (slot_mask slot)) ≡ (if k == slot then 1 else bit_at k n)
set_bit n k slot h h' =
    let low : slot % 128 ≡ slot = omega arith in
    let mask : bit_at k (slot_mask slot) ≡ bit_at k (2 ^ slot) = rw low refl in
    let b = bit_at-or k n (slot_mask slot) in
    elim (Bool-cases (k == slot)) [
      | inl e ↦
          let same : k ≡ slot = ground arith in
          let one : bit_at k (2 ^ slot) ≡ 1 = rw same (bit_at-pow_same slot) in
          rw e (omega (arith, bit_at-lt k n))
      | inr e ↦
          let other = bit_at-pow_other k slot (ground arith) in rw e (omega (arith, bit_at-lt k n))
    ]
