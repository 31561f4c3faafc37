-- ===== src/Queue.antt =====
-- dex/src/state.rs: the trait `QueueHeader`, the ring buffer `Queue` over it, and its two headers. A
-- queue is a header and a buffer inside one account; a method that changes it returns the new one.
pub mod Valid
pub mod Refine
pub mod Runs
mod Tests
use openbook_dex.Prelude.{
  ℕ, zero, suc, ◌+◌, ◌%◌, ◌≡◌, refl, Bool, true, false, List, [], ◌∷◌, Option, none, some, leb,
  ◌==◌, if◌then◌else◌, length, get_elem?, set, add64, sub64,
}
use openbook_dex.Error.{
  DexResult, ok, err, panic, ◌>>=◌, ◌>>◌, check_assert, unwrap, SourceFileId, state,
}

-- The trait, with what its implementations have in common: the two fields are independent, and the
-- event ids touch neither.
pub record QueueHeader (H : Type 0) : Type 0 where
  pub head : H → ℕ
  pub set_head : H → ℕ → H
  pub count : H → ℕ
  pub set_count : H → ℕ → H
  pub incr_event_id : H → H
  pub decr_event_id : H → ℕ → H
  pub head-set_head : (h : H) (n : ℕ) → head (set_head h n) ≡ n
  pub count-set_head : (h : H) (n : ℕ) → count (set_head h n) ≡ count h
  pub head-set_count : (h : H) (n : ℕ) → head (set_count h n) ≡ head h
  pub count-set_count : (h : H) (n : ℕ) → count (set_count h n) ≡ n
  pub head-incr : (h : H) → head (incr_event_id h) ≡ head h
  pub count-incr : (h : H) → count (incr_event_id h) ≡ count h
  pub head-decr : (h : H) (n : ℕ) → head (decr_event_id h n) ≡ head h
  pub count-decr : (h : H) (n : ℕ) → count (decr_event_id h n) ≡ count h

pub record RequestQueueHeader : Type 0 where
  pub account_flags : ℕ
  pub head : ℕ
  pub count : ℕ
  pub next_seq_num : ℕ

pub record EventQueueHeader : Type 0 where
  pub account_flags : ℕ
  pub head : ℕ
  pub count : ℕ
  pub seq_num : ℕ

instance abbrev pub request_header : QueueHeader RequestQueueHeader
request_header = record {
  head = λ h. h.head;
  set_head = λ h n. record h { head = n };
  count = λ h. h.count;
  set_count = λ h n. record h { count = n };
  incr_event_id = λ h. h;
  decr_event_id = λ h n. h;
  head-set_head = λ h n. refl;
  count-set_head = λ h n. refl;
  head-set_count = λ h n. refl;
  count-set_count = λ h n. refl;
  head-incr = λ h. refl;
  count-incr = λ h. refl;
  head-decr = λ h n. refl;
  count-decr = λ h n. refl;
}

instance abbrev pub event_header : QueueHeader EventQueueHeader
event_header = record {
  head = λ h. h.head;
  set_head = λ h n. record h { head = n };
  count = λ h. h.count;
  set_count = λ h n. record h { count = n };
  incr_event_id = λ h. record h { seq_num = add64 h.seq_num 1 };
  decr_event_id = λ h n. record h { seq_num = sub64 h.seq_num n };
  head-set_head = λ h n. refl;
  count-set_head = λ h n. refl;
  head-set_count = λ h n. refl;
  count-set_count = λ h n. refl;
  head-incr = λ h. refl;
  count-incr = λ h. refl;
  head-decr = λ h n. refl;
  count-decr = λ h n. refl;
}

pub record Queue (H T : Type 0) : Type 0 where
  pub header : H
  pub buf : List T

-- `Result<(), H::Item>` of a push: the new queue, or the item handed back.
pub data Pushed (H T : Type 0) : Type 0 where
  pushed : Queue H T → Pushed H T
  rejected : T → Pushed H T

module _ {H T : Type 0} ⦃h : QueueHeader H⦄ where
  abbrev pub len : Queue H T → ℕ
  len q = h.count q.header

  abbrev pub head_of : Queue H T → ℕ
  head_of q = h.head q.header

  abbrev pub full : Queue H T → Bool
  full q = h.count q.header == length q.buf

  abbrev pub empty : Queue H T → Bool
  empty q = h.count q.header == 0

  -- `% self.buf.len()` panics on an empty buffer, and an index out of range panics.
  unfoldable pub index_at : Queue H T → ℕ → DexResult ℕ
  index_at q i = if length q.buf == 0 then panic else ok (add64 (h.head q.header) i % length q.buf)

  unfoldable pub push_back : Queue H T → T → DexResult (Pushed H T)
  unfolding index_at
  push_back q value =
      if full q
      then ok (rejected value)
      else (index_at q (h.count q.header) >>= λ slot.
          let counted = h.set_count q.header (add64 (h.count q.header) 1) in
          ok (pushed (record { header = h.incr_event_id counted; buf = set q.buf slot value })))

  unfoldable pub peek_front : Queue H T → DexResult (Option T)
  peek_front q =
      if empty q
      then ok none
      else (unwrap (get_elem? q.buf (h.head q.header)) >>= λ value. ok (some value))

  -- `none` is `Err(())`.
  unfoldable pub pop_front : Queue H T → DexResult (Option (T × Queue H T))
  pop_front q =
      if empty q
      then ok none
      else (unwrap (get_elem? q.buf (h.head q.header)) >>= λ value.
          let counted = h.set_count q.header (sub64 (h.count q.header) 1) in
          let moved = h.set_head counted (add64 (h.head counted) 1 % length q.buf) in
          ok (some (value, record q { header = moved })))

  unfoldable pub revert_pushes : Queue H T → ℕ → DexResult (Queue H T)
  revert_pushes q desired_len =
      check_assert state 1030 (leb desired_len (h.count q.header))
      >> (let len_diff = sub64 (h.count q.header) desired_len in
          let counted = h.set_count q.header desired_len in
          ok (record q { header = h.decr_event_id counted len_diff }))

  -- `QueueIterator::next`: the item and the next index.
  unfoldable pub next : Queue H T → ℕ → DexResult (Option (T × ℕ))
  unfolding index_at
  next q index =
      if index == len q
      then ok none
      else (index_at q index >>= λ slot.
          unwrap (get_elem? q.buf slot) >>= λ item. ok (some (item, add64 index 1)))

  -- A `for` loop over `iter()`, on fuel: `panic` stands for a loop that has not ended.
  unfoldable pub collect : ℕ → Queue H T → ℕ → DexResult (List T)
  unfolding next
  collect zero q index = panic
  collect (suc fuel) q index =
      let rest = λ (p : T × ℕ). collect fuel q p.1 >>= λ xs. ok (p.0 ∷ xs) in
      next q index >>= λ r. elim r [ none ↦ ok [] | some p ↦ rest p ]
