-- ===== src/Consume/Deliver.antt =====
-- What the delivery of one event by `process_consume_events` (dex/src/state.rs) does to the open orders
-- account: its balances, what of them is locked in orders, and its order slots.
use openbook_dex.Prelude.{
  ℕ, ◌+◌, ◌-◌, ◌≤◌, ◌<◌, ◌≡◌, refl, ap, ◌∙◌, ltb→lt, ==_iff, inl, inr, Bool, true, false, Option,
  none, some, arith, ltb, ◌==◌, if◌then◌else◌, u64_mod, IsU64, add64, sub64, get_elem?, Bool-cases,
}
use openbook_dex.Error.{ok, check_assert, unwrap, state}
use openbook_dex.Error.Post.{>>=-eq-ok, check_assert-eq-ok, unwrap-eq-ok}
use openbook_dex.Types.{Side, bid, ask}
use openbook_dex.Event.{Event, EventView, Fill, Out, fill, out, view_side}
use openbook_dex.OpenOrders.{OpenOrders, slot_side, remove_order}
use openbook_dex.OpenOrders.Slots.{written, remove_order_lem}
use openbook_dex.Consume.{apply_fill, release, apply_out, apply_view, deliver, is_side}

-- The free balances are among the totals, which are u64.
pub record IsSolvent (o : OpenOrders) : Type 0 where
  pub coin_free : o.native_coin_free ≤ o.native_coin_total
  pub pc_free : o.native_pc_free ≤ o.native_pc_total
  pub coin_total : IsU64 o.native_coin_total
  pub pc_total : IsU64 o.native_pc_total

-- What is locked in orders.
abbrev pub locked_coin : OpenOrders → ℕ
locked_coin o = o.native_coin_total - o.native_coin_free

abbrev pub locked_pc : OpenOrders → ℕ
locked_pc o = o.native_pc_total - o.native_pc_free

-- What a fill takes from the locked balances: a maker's payment, and the rebate that was locked with
-- it.
abbrev fill_coin : Side → Bool → Fill → ℕ
fill_coin ask true v = v.native_qty_paid
fill_coin _ _ v = 0

abbrev fill_pc : Side → Bool → Fill → ℕ
fill_pc bid true v = v.native_qty_paid + v.native_fee_or_rebate
fill_pc _ _ v = 0

-- What a maker receives.
abbrev gained_coin : Side → Bool → Fill → ℕ
gained_coin bid true v = v.native_qty_received
gained_coin _ _ v = 0

abbrev gained_pc : Side → Bool → Fill → ℕ
gained_pc ask true v = v.native_qty_received
gained_pc _ _ v = 0

abbrev out_coin : Side → Bool → Out → ℕ
out_coin ask true v = v.native_qty_unlocked
out_coin _ _ v = 0

abbrev out_pc : Side → Bool → Out → ℕ
out_pc bid true v = v.native_qty_unlocked
out_pc _ _ v = 0

-- The locked funds that an event takes or sets free.
abbrev pub taken_coin : EventView → ℕ
taken_coin (fill v) = fill_coin v.side v.maker v
taken_coin (out v) = out_coin v.side v.release_funds v

abbrev pub taken_pc : EventView → ℕ
taken_pc (fill v) = fill_pc v.side v.maker v
taken_pc (out v) = out_pc v.side v.release_funds v

abbrev gain_coin : EventView → ℕ
gain_coin (fill v) = gained_coin v.side v.maker v
gain_coin (out v) = 0

abbrev gain_pc : EventView → ℕ
gain_pc (fill v) = gained_pc v.side v.maker v
gain_pc (out v) = 0

-- The account has locked what the event takes, and has room for what it brings.
pub record Covers (v : EventView) (o : OpenOrders) : Type 0 where
  pub coin : taken_coin v ≤ locked_coin o
  pub pc : taken_pc v ≤ locked_pc o
  pub coin_room : o.native_coin_total + gain_coin v < u64_mod
  pub pc_room : o.native_pc_total + gain_pc v < u64_mod

-- The balances after an event.
pub record IsSettled (v : EventView) (o d : OpenOrders) : Type 0 where
  pub solvent : IsSolvent d
  pub coin : locked_coin d + taken_coin v ≡ locked_coin o
  pub pc : locked_pc d + taken_pc v ≡ locked_pc o

fill_lem :
    (side : Side) (maker : Bool) (v : Fill) (o : OpenOrders)
    → v.side ≡ side
    → v.maker ≡ maker
    → IsSolvent o
    → Covers (fill v) o
    → IsSettled (fill v) o (apply_fill v o)
unfolding apply_fill add64 sub64
fill_lem bid true v o e f s c = ground arith
fill_lem ask true v o e f s c = ground arith
fill_lem bid false v o e f s c = ground arith
fill_lem ask false v o e f s c = ground arith

release_lem :
    (side : Side) (release_funds : Bool) (v : Out) (o d : OpenOrders)
    → v.side ≡ side
    → v.release_funds ≡ release_funds
    → IsSolvent o
    → Covers (out v) o
    → release v o ≡ ok d
    → IsSettled (out v) o d
unfolding release add64
release_lem bid true v o d e f s c r = ground arith
release_lem ask true v o d e f s c r = ground arith
release_lem bid false v o d e f s c r = ground arith
release_lem ask false v o d e f s c r = ground arith

-- The balances of two accounts are the same.
record SameBalances (o d : OpenOrders) : Type 0 where
  coin_free : d.native_coin_free ≡ o.native_coin_free
  coin_total : d.native_coin_total ≡ o.native_coin_total
  pc_free : d.native_pc_free ≡ o.native_pc_free
  pc_total : d.native_pc_total ≡ o.native_pc_total

remove_order-SameBalances :
    (o d : OpenOrders) (slot : ℕ) → remove_order o slot ≡ ok d → SameBalances o d
unfolding remove_order
remove_order-SameBalances o d slot e = ground arith

IsSettled-SameBalances :
    (v : EventView) (o p d : OpenOrders) → IsSettled v o p → SameBalances p d → IsSettled v o d
IsSettled-SameBalances v o p d s b = ground arith

release-slot_side :
    (side : Side) (v : Out) (o d : OpenOrders) (k : ℕ)
    → v.side ≡ side
    → release v o ≡ ok d
    → slot_side d k ≡ slot_side o k
unfolding release slot_side
release-slot_side bid v o d k e r = ground arith
release-slot_side ask v o d k e r = ground arith

apply_fill-slot_side :
    (side : Side) (v : Fill) (o : OpenOrders) (k : ℕ)
    → v.side ≡ side
    → slot_side (apply_fill v o) k ≡ slot_side o k
unfolding apply_fill slot_side
apply_fill-slot_side bid v o k e = ground arith
apply_fill-slot_side ask v o k e = ground arith

-- What a slot reads after an event: an order that is out for good frees its slot.
abbrev pub slot_after : EventView → OpenOrders → ℕ → Option Side
slot_after (fill v) o k = slot_side o k
slot_after (out v) o k =
    if v.native_qty_still_locked == 0 then written v.owner_slot none o k else slot_side o k

remove_order-written :
    (o d : OpenOrders) (slot k : ℕ)
    → k < 128
    → remove_order o slot ≡ ok d
    → slot_side d k ≡ written slot none o k
remove_order-written o d slot k h e = elim (remove_order_lem o slot k h) [
  | inl (_, f) ↦ absurd (cc)
  | inr (inl (_, _, f)) ↦ absurd (cc)
  | inr (inr (_, _, (d', f, reads))) ↦ let same : d' ≡ d = cc in rw (← same) reads
]

-- What one event does.
pub record IsApplied (v : EventView) (o d : OpenOrders) (k : ℕ) : Type 0 where
  pub settled : IsSettled v o d
  pub slot : slot_side d k ≡ slot_after v o k

apply_out-IsApplied :
    (v : Out) (o d : OpenOrders) (k : ℕ)
    → k < 128
    → IsSolvent o
    → Covers (out v) o
    → apply_out v o ≡ ok d
    → IsApplied (out v) o d k
unfolding apply_out
apply_out-IsApplied v o d k h s c e =
    let (p, r, rest) = >>=-eq-ok (release v o) _ e in
    let settled = release_lem v.side v.release_funds v o p refl refl s c r in
    let kept = release-slot_side v.side v o p k refl r in
    elim (Bool-cases (v.native_qty_still_locked == 0)) [
      | inl out_ ↦
          let gone : remove_order p v.owner_slot ≡ ok d = rw out_ at rest in
          record {
            settled =
                IsSettled-SameBalances (out v) o p d settled (remove_order-SameBalances p d _ gone);
            slot = rw out_ (remove_order-written p d v.owner_slot k h gone ∙ rw kept refl);
          }
      | inr in_ ↦
          let same : ok p ≡ ok d = rw in_ at rest in
          let eq : p ≡ d = cc in record { settled = rw (← eq) settled; slot = rw (in_, ← eq) kept }
    ]

apply_view-IsApplied :
    (v : EventView) (o d : OpenOrders) (k : ℕ)
    → k < 128
    → IsSolvent o
    → Covers v o
    → apply_view v o ≡ ok d
    → IsApplied v o d k
unfolding apply_view
apply_view-IsApplied (fill v) o d k h s c e =
    let eq : apply_fill v o ≡ d = cc in
    record {
      settled = rw (← eq) (fill_lem v.side v.maker v o refl refl s c);
      slot = rw (← eq) (apply_fill-slot_side v.side v o k refl);
    }
apply_view-IsApplied (out v) o d k h s c e = apply_out-IsApplied v o d k h s c e

-- The account holds the order of the event, in its slot and on its side.
pub record HoldsOrder (e : Event) (v : EventView) (o : OpenOrders) : Type 0 where
  pub slot : e.owner_slot < 128
  pub side : slot_side o e.owner_slot ≡ some (view_side v)
  pub order : get_elem? o.orders e.owner_slot ≡ some e.order_id

is_side-eq : (s : Option Side) (t : Side) → is_side s t ≡ true → s ≡ some t
is_side-eq s t e = ground arith

pub deliver-parts :
    (e : Event) (v : EventView) (o d : OpenOrders)
    → deliver e v o ≡ ok d
    → HoldsOrder e v o × (apply_view v o ≡ ok d)
unfolding deliver
deliver-parts e v o d r =
    let (_, a, r₁) = >>=-eq-ok (check_assert state 3196 (ltb e.owner_slot 128)) _ r in
    let (_, b, r₂) =
      >>=-eq-ok (check_assert state 3197 (is_side (slot_side o e.owner_slot) (view_side v))) _ r₁ in
    let (held, c, r₃) = >>=-eq-ok (unwrap (get_elem? o.orders e.owner_slot)) _ r₂ in
    let (_, f, r₄) = >>=-eq-ok (check_assert state 3198 (held == e.order_id)) _ r₃ in
    let is_held = unwrap-eq-ok _ c in
    let side = check_assert-eq-ok _ _ _ b in
    let order : held ≡ e.order_id = (==_iff _ _).0 (check_assert-eq-ok _ _ _ f) in
    (
      record {
        slot = ltb→lt _ _ (check_assert-eq-ok _ _ _ a);
        side = is_side-eq (slot_side o e.owner_slot) (view_side v) side;
        order = is_held ∙ ap some order;
      },
      r₄,
    )

-- An event that an account takes, an account whose free balances are among its totals and that has
-- locked what the event takes and has room for what it brings: the account held the event's order in
-- its slot, on its side; the free balances are still among the totals; what is locked went down by
-- just what the event takes of a maker's payment and rebate, or sets free; and each slot reads as
-- before, but for the slot of an order that is out for good, which reads free.
pub deliver_lem :
    (e : Event) (v : EventView) (o d : OpenOrders) (k : ℕ)
    → k < 128
    → IsSolvent o
    → Covers v o
    → deliver e v o ≡ ok d
    → HoldsOrder e v o × IsApplied v o d k
deliver_lem e v o d k h s c r =
    let (held, applied) = deliver-parts e v o d r in
    (held, apply_view-IsApplied v o d k h s c applied)
