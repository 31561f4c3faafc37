-- ===== src/OpenOrders/Slots.antt =====
-- The order slots of an `OpenOrders` (dex/src/state.rs) as an array of sides: what `slot_side` reads
-- after `add_order` and `remove_order`.
use Prim.Native.Nat.{bit_and, bit_or}
use openbook_dex.Prelude.{
  sym, ℕ, ◌<◌, ◌≡◌, true, ◌≤◌, ◌≢◌, ltb, refl, ap, ◌∙◌, ◌⊎◌, inl, inr, false, Option, none, some,
  arith, ◌==◌, if◌then◌else◌, IsU128, Bool-cases, bit_at, set,
}
use openbook_dex.Error.{state, DexError, from_assertion, ok, err, error_code, too_many_open_orders}
use openbook_dex.Types.{Side, bid, ask}
use openbook_dex.OpenOrders.{
  remove_order, OpenOrders, slot_mask, bit_not, slot_is_free, slot_side, trailing_zeros, add_order,
  add_side,
}
use openbook_dex.OpenOrders.Bits.{
  side_of, test_bit, slot_side-eq, trailing_zeros_from_lem, clear_bit, set_bit,
}

-- A slot of the array, written.
abbrev pub written : ℕ → Option Side → OpenOrders → ℕ → Option Side
written slot side o k = if k == slot then side else slot_side o k

-- The account after `add_order` into a slot, and after `remove_order` from one.
abbrev added : OpenOrders → ℕ → Side → ℕ → OpenOrders
added o id side slot = record o {
  free_slot_bits = bit_and o.free_slot_bits (bit_not (slot_mask slot));
  is_bid_bits = add_side o.is_bid_bits (slot_mask slot) side;
  orders = set o.orders slot id;
}

lowest_free :
    (o : OpenOrders)
    → IsU128 o.free_slot_bits
    → 0 < o.free_slot_bits
    → (trailing_zeros o.free_slot_bits < 128)
      × (bit_at (trailing_zeros o.free_slot_bits) o.free_slot_bits ≡ 1)
unfolding trailing_zeros
lowest_free o h pos = trailing_zeros_from_lem 128 o.free_slot_bits h pos

==-pos : (n : ℕ) → 0 < n → (n == 0) ≡ false
==-pos n h = ground arith

add_order-eq :
    (o : OpenOrders) (id : ℕ) (side : Side)
    → IsU128 o.free_slot_bits
    → 0 < o.free_slot_bits
    → let slot = trailing_zeros o.free_slot_bits in
      add_order o id side ≡ ok (slot, added o id side slot)
unfolding add_order slot_is_free
add_order-eq o id side h pos =
    let (lt, one) = lowest_free o h pos in
    rw
      (
        ==-pos o.free_slot_bits pos,
        test_bit o.free_slot_bits (trailing_zeros o.free_slot_bits) lt,
        one,
      )
      refl

slot_side-added :
    (o : OpenOrders) (id : ℕ) (side : Side) (slot k : ℕ)
    → k < 128
    → slot < 128
    → slot_side (added o id side slot) k ≡ written slot (some side) o k
unfolding add_side
slot_side-added o id bid slot k h h' =
    rw
      (
        slot_side-eq (added o id bid slot) k h,
        slot_side-eq o k h,
        clear_bit o.free_slot_bits k slot h h',
        set_bit o.is_bid_bits k slot h h',
      )
      (ground arith)
slot_side-added o id ask slot k h h' =
    rw
      (
        slot_side-eq (added o id ask slot) k h,
        slot_side-eq o k h,
        clear_bit o.free_slot_bits k slot h h',
        clear_bit o.is_bid_bits k slot h h',
      )
      (ground arith)

-- With `u128` slot bits, adding an order to a full account is the error of too many open orders, and
-- else it takes a slot that was free, and each slot then reads as before, but for the slot taken,
-- which reads the side of the order.
pub add_order_lem :
    (o : OpenOrders) (id : ℕ) (side : Side) (k : ℕ)
    → IsU128 o.free_slot_bits
    → k < 128
    → ((o.free_slot_bits ≡ 0) × (add_order o id side ≡ err (error_code too_many_open_orders)))
      ⊎ ((slot : ℕ) × (d : OpenOrders) × (add_order o id side ≡ ok (slot, d))
          × (slot < 128)
          × (slot_side o slot ≡ none)
          × (slot_side d k ≡ written slot (some side) o k))
unfolding add_order
add_order_lem o id side k h lt = elim (Bool-cases (o.free_slot_bits == 0)) [
  | inl e ↦ inl (ground arith, rw e refl)
  | inr e ↦
      let pos : 0 < o.free_slot_bits = ground arith in
      let slot = trailing_zeros o.free_slot_bits in
      let (in_range, one) = lowest_free o h pos in
      inr (
        slot,
        added o id side slot,
        add_order-eq o id side h pos,
        in_range,
        rw (slot_side-eq o slot in_range, one) refl,
        slot_side-added o id side slot k lt in_range,
      )
]

abbrev removed : OpenOrders → ℕ → OpenOrders
removed o slot = record o {
  orders = set o.orders slot 0;
  client_order_ids = set o.client_order_ids slot 0;
  free_slot_bits = bit_or o.free_slot_bits (slot_mask slot);
  is_bid_bits = bit_and o.is_bid_bits (bit_not (slot_mask slot));
}

slot_side-removed :
    (o : OpenOrders) (slot k : ℕ)
    → k < 128
    → slot < 128
    → slot_side (removed o slot) k ≡ written slot none o k
slot_side-removed o slot k h h' =
    rw
      (
        slot_side-eq (removed o slot) k h,
        slot_side-eq o k h,
        set_bit o.free_slot_bits k slot h h',
        clear_bit o.is_bid_bits k slot h h',
      )
      (ground arith)

abbrev pub assertion_at : ℕ → DexError
assertion_at line = from_assertion (record { line = line; file_id = state })

side_of-taken : (free is_bid : ℕ) → (free == 1) ≡ false → side_of free is_bid ≢ none
side_of-taken free is_bid h = ground arith

-- Removing an order fails on a slot out of range and on a free slot, at an assertion each, and else
-- each slot reads as before, but for the slot of the order, which reads free.
pub remove_order_lem :
    (o : OpenOrders) (slot k : ℕ)
    → k < 128
    → ((128 ≤ slot) × (remove_order o slot ≡ err (assertion_at 911)))
      ⊎ ((slot < 128) × (slot_side o slot ≡ none) × (remove_order o slot ≡ err (assertion_at 912)))
      ⊎ ((slot < 128)
          × (slot_side o slot ≢ none)
          × ((d : OpenOrders) × (remove_order o slot ≡ ok d)
              × (slot_side d k ≡ written slot none o k)))
unfolding remove_order slot_is_free
remove_order_lem o slot k h = elim (Bool-cases (ltb slot 128)) [
  | inr e ↦ inl (ground arith, rw e refl)
  | inl e ↦
      let in_range : slot < 128 = ground arith in
      let test = test_bit o.free_slot_bits slot in_range in
      let reads = slot_side-eq o slot in_range in
      elim (Bool-cases (bit_at slot o.free_slot_bits == 1)) [
        | inl f ↦ inr (inl (in_range, rw (reads, f) refl, rw (e, test, f) refl))
        | inr f ↦ inr (
            inr (
              in_range,
              λ z.
                  side_of-taken (bit_at slot o.free_slot_bits) (bit_at slot o.is_bid_bits) f
                    (sym reads ∙ z),
              (removed o slot, rw (e, test, f) refl, slot_side-removed o slot k h in_range),
            ))
      ]
]

written_back :
    (o : OpenOrders) (slot k : ℕ) (side : Option Side) (a b : Option Side)
    → slot_side o slot ≡ none
    → a ≡ written slot side o k
    → b ≡ (if k == slot then none else a)
    → b ≡ slot_side o k
written_back o slot k side a b free e f = elim (Bool-cases (k == slot)) [
  | inl same ↦
      let eq : k ≡ slot = ground arith in
      let none_b : b ≡ none = f ∙ rw same refl in none_b ∙ sym free ∙ ap (slot_side o) (sym eq)
  | inr other ↦ let b_a : b ≡ a = f ∙ rw other refl in b_a ∙ e ∙ rw other refl
]

-- The same from the result.
add_order_read :
    (o d : OpenOrders) (id slot k : ℕ) (side : Side)
    → IsU128 o.free_slot_bits
    → k < 128
    → add_order o id side ≡ ok (slot, d)
    → (slot < 128) × (slot_side o slot ≡ none) × (slot_side d k ≡ written slot (some side) o k)
add_order_read o d id slot k side h lt e = elim (add_order_lem o id side k h lt) [
  | inl (_, f) ↦ absurd (cc)
  | inr (s, d', f, in_range, free, reads) ↦
      let same_slot : s ≡ slot = cc in
      let same : d' ≡ d = cc in rw (← same_slot, ← same) (in_range, free, reads)
]

-- Removing an order from the slot where it was just added succeeds, and each slot then reads as it
-- did before both.
pub remove_order-add_order :
    (o d : OpenOrders) (id slot k : ℕ) (side : Side)
    → IsU128 o.free_slot_bits
    → k < 128
    → add_order o id side ≡ ok (slot, d)
    → (e : OpenOrders) × (remove_order d slot ≡ ok e) × (slot_side e k ≡ slot_side o k)
remove_order-add_order o d id slot k side h lt e =
    let (in_range, free, reads) = add_order_read o d id slot k side h lt e in
    let (_, _, taken) = add_order_read o d id slot slot side h in_range e in
    let taken' : slot_side d slot ≡ some side =
      taken ∙ (let t : (slot == slot) ≡ true = ground arith in rw t refl) in
    elim (remove_order_lem d slot k lt) [
      | inl (out, _) ↦ absurd (omega arith)
      | inr (inl (_, f, _)) ↦ absurd (cc)
      | inr (inr (_, _, (e', done, after))) ↦ (
        e',
        done,
        written_back o slot k (some side) (slot_side d k) (slot_side e' k) free reads after,
      )
    ]
