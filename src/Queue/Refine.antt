-- ===== src/Queue/Refine.antt =====
-- The methods of `Queue` (dex/src/state.rs) are the operations of a bounded list.
use openbook_dex.Prelude.{
  ℕ, suc, ◌+◌, ◌-◌, ◌%◌, ◌≤◌, ◌<◌, ◌≡◌, refl, ap, ◌∙◌, ◌⊎◌, inl, inr, false, List, [], ◌∷◌, ◌++◌,
  none, some, arith, length, get_elem?, set, take, length-set, length-take, length-append, dec_lt,
  add64-eq, sub64-eq,
}
use native.Mathlib.Nat.{mod-eq_of_lt, mod-lt}
use openbook_dex.Error.{ok, ◌>>◌, check_assert, state}
use openbook_dex.Queue.{
  QueueHeader, Queue, pushed, rejected, push_back, pop_front, peek_front, revert_pushes, collect,
  next,
}
use openbook_dex.Queue.Valid.{IsValid, Holds, Items, Items-set, Items-tail, Items-take}

module _ {H T : Type 0} ⦃h : QueueHeader H⦄ where
  -- The queue after a push that is accepted.
  abbrev pub after_push : Queue H T → T → Queue H T
  after_push q v = record {
    header = h.incr_event_id (h.set_count q.header (h.count q.header + 1));
    buf = set q.buf ((h.head q.header + h.count q.header) % length q.buf) v;
  }

  push_back-eq :
      (q : Queue H T) (v : T)
      → IsValid q
      → h.count q.header < length q.buf
      → push_back q v ≡ ok (pushed (after_push q v))
  unfolding push_back
  push_back-eq q v i lt =
      let a = add64-eq (h.head q.header) (h.count q.header) (omega arith) in
      let b = add64-eq (h.count q.header) 1 (omega arith) in ground arith

  after_push_fields :
      (q : Queue H T) (v : T)
      → (h.head (after_push q v).header ≡ h.head q.header)
        × (h.count (after_push q v).header ≡ h.count q.header + 1)
        × (length (after_push q v).buf ≡ length q.buf)
  after_push_fields q v =
      let counted = h.set_count q.header (h.count q.header + 1) in
      (
        h.head-incr counted ∙ h.head-set_count q.header _,
        h.count-incr counted ∙ h.count-set_count q.header _,
        length-set q.buf _ v,
      )

  after_push-Items :
      (q : Queue H T) (xs : List T) (v : T)
      → IsValid q
      → Holds q xs
      → length xs < length q.buf
      → Items (after_push q v).buf (h.head (after_push q v).header) (xs ++ v ∷ [])
  after_push-Items q xs v i a room =
      rw ((after_push_fields q v).0, ← a.counted)
        (Items-set q.buf xs v (h.head q.header) i.head_in room a.items)

  push_back-full :
      (q : Queue H T) (v : T) → h.count q.header ≡ length q.buf → push_back q v ≡ ok (rejected v)
  unfolding push_back
  push_back-full q v e = ground arith

  -- A push on a valid queue that is not full succeeds, and appends the item to the list that the
  -- queue holds; on a full queue it hands the item back.
  pub push_back_refines :
      (q : Queue H T) (xs : List T) (v : T)
      → IsValid q
      → Holds q xs
      → (length xs < length q.buf)
          × (push_back q v ≡ ok (pushed (after_push q v)))
          × IsValid (after_push q v)
          × Holds (after_push q v) (xs ++ v ∷ [])
        ⊎ (length xs ≡ length q.buf) × (push_back q v ≡ ok (rejected v))
  push_back_refines q xs v i a = elim (dec_lt (length xs) (length q.buf)) [
    | yes room ↦
        let f = after_push_fields q v in
        inl (
          room,
          push_back-eq q v i (omega (arith, a.counted)),
          record {
            head_in = omega (arith, i.head_in);
            count_in = omega (arith, a.counted);
            small = omega (arith, i.small);
          },
          record {
            counted = omega (arith, a.counted, length-append xs (v ∷ []));
            items = after_push-Items q xs v i a room;
          },
        )
    | no none_left ↦ inr (
      omega (arith, a.counted, i.count_in),
      push_back-full q v (omega (arith, a.counted, i.count_in)),
    )
  ]

  -- The queue after a pop.
  abbrev pub after_pop : Queue H T → Queue H T
  after_pop q =
      let counted = h.set_count q.header (h.count q.header - 1) in
      record q { header = h.set_head counted ((h.head q.header + 1) % length q.buf) }

  pop_front-eq :
      (q : Queue H T) (v : T)
      → IsValid q
      → 0 < h.count q.header
      → get_elem? q.buf (h.head q.header) ≡ some v
      → pop_front q ≡ ok (some (v, after_pop q))
  unfolding pop_front
  pop_front-eq q v i pos e =
      let a = sub64-eq (h.count q.header) 1 (omega (arith, i.count_in, i.small)) pos in
      let b = add64-eq (h.head q.header) 1 (omega (arith, i.head_in, i.small)) in
      ground (arith, h.head-set_count q.header (h.count q.header - 1))

  after_pop_fields :
      (q : Queue H T)
      → (h.head (after_pop q).header ≡ (h.head q.header + 1) % length q.buf)
        × (h.count (after_pop q).header ≡ h.count q.header - 1)
  after_pop_fields q =
      let counted = h.set_count q.header (h.count q.header - 1) in
      (h.head-set_head counted _, h.count-set_head counted _ ∙ h.count-set_count q.header _)

  front-eq :
      (q : Queue H T) (x : T) (xs : List T)
      → IsValid q
      → Holds q (x ∷ xs)
      → get_elem? q.buf (h.head q.header) ≡ some x
  front-eq q x xs i a =
      let e : (h.head q.header + 0) % length q.buf ≡ h.head q.header =
        mod-eq_of_lt {n = h.head q.header + 0} (omega (arith, i.head_in)) ∙ omega arith in
      rw e at (a.items 0 (omega arith))

  peek_front-eq :
      (q : Queue H T) (v : T)
      → 0 < h.count q.header
      → get_elem? q.buf (h.head q.header) ≡ some v
      → peek_front q ≡ ok (some v)
  unfolding peek_front
  peek_front-eq q v pos e = ground arith

  -- On a valid queue a pop takes the first item of the list and a look at the front shows it; both
  -- report the empty queue.
  pub pop_front_refines :
      (q : Queue H T) (xs : List T)
      → IsValid q
      → Holds q xs
      → ((x : T) × (rest : List T) × (xs ≡ x ∷ rest)
          × (pop_front q ≡ ok (some (x, after_pop q)))
          × (peek_front q ≡ ok (some x))
          × IsValid (after_pop q)
          × Holds (after_pop q) rest)
        ⊎ (xs ≡ []) × (pop_front q ≡ ok none) × (peek_front q ≡ ok none)
  unfolding peek_front pop_front
  pop_front_refines q [] i a =
      let e : h.count q.header ≡ 0 = omega (arith, a.counted) in
      inr (refl, ground arith, ground arith)
  pop_front_refines q (x ∷ rest) i a =
      let e = front-eq q x rest i a in
      let f = after_pop_fields q in
      inl (
        x,
        rest,
        refl,
        pop_front-eq q x i (omega (arith, a.counted)) e,
        peek_front-eq q x (omega (arith, a.counted)) e,
        record {
          head_in = rw (f.0) (mod-lt (h.head q.header + 1) (omega (arith, i.head_in)));
          count_in = omega (arith, i.count_in);
          small = i.small;
        },
        record {
          counted = omega (arith, a.counted);
          items = rw (f.0) (Items-tail q.buf x rest (h.head q.header) a.items);
        },
      )

  -- The queue after the last pushes are taken back.
  abbrev pub after_revert : Queue H T → ℕ → Queue H T
  after_revert q n = record q {
    header = h.decr_event_id (h.set_count q.header n) (h.count q.header - n);
  }

  revert_pushes-eq :
      (q : Queue H T) (n : ℕ)
      → IsValid q
      → n ≤ h.count q.header
      → revert_pushes q n ≡ ok (after_revert q n)
  unfolding revert_pushes
  revert_pushes-eq q n i le =
      let e = sub64-eq (h.count q.header) n (omega (arith, i.count_in, i.small)) le in ground arith

  revert_pushes_beyond :
      (q : Queue H T) (n : ℕ)
      → h.count q.header < n
      → revert_pushes q n ≡ (check_assert state 1030 false >> ok q)
  unfolding revert_pushes
  revert_pushes_beyond q n lt = ground arith

  -- Reverting a valid queue to a length keeps that many items from the front; asking for more than
  -- it holds is an assertion error and changes nothing.
  pub revert_pushes_refines :
      (q : Queue H T) (xs : List T) (n : ℕ)
      → IsValid q
      → Holds q xs
      → (n ≤ length xs)
          × (revert_pushes q n ≡ ok (after_revert q n))
          × IsValid (after_revert q n)
          × Holds (after_revert q n) (take n xs)
        ⊎ (length xs < n) × (revert_pushes q n ≡ (check_assert state 1030 false >> ok q))
  revert_pushes_refines q xs n i a = elim (dec_lt (length xs) n) [
    | yes more ↦ inr (more, revert_pushes_beyond q n (omega (arith, a.counted)))
    | no fits ↦
        let counted = h.set_count q.header n in
        let f = h.head-decr counted (h.count q.header - n) ∙ h.head-set_count q.header n in
        let c = h.count-decr counted (h.count q.header - n) ∙ h.count-set_count q.header n in
        inl (
          omega arith,
          revert_pushes-eq q n i (omega (arith, a.counted)),
          record {
            head_in = omega (arith, f, i.head_in);
            count_in = omega (arith, c, a.counted, i.count_in);
            small = i.small;
          },
          record {
            counted = omega (arith, c, length-take n xs);
            items = rw f (Items-take q.buf xs (h.head q.header) n (omega arith) a.items);
          },
        )
  ]

  next-eq :
      (q : Queue H T) (k : ℕ) (x : T)
      → IsValid q
      → k < h.count q.header
      → get_elem? q.buf ((h.head q.header + k) % length q.buf) ≡ some x
      → next q k ≡ ok (some (x, k + 1))
  unfolding next
  next-eq q k x i lt e =
      let b = add64-eq (h.head q.header) k (omega (arith, i.head_in, i.count_in, i.small)) in
      let c = add64-eq k 1 (omega (arith, i.count_in, i.small)) in ground (arith, i.head_in)

  next_end : (q : Queue H T) (k : ℕ) → k ≡ h.count q.header → next q k ≡ ok none
  unfolding next
  next_end q k e = ground arith

  -- The loop from index `k`, where the items from there on are `ys`.
  collect_from :
      (q : Queue H T) (xs ys : List T) (k : ℕ)
      → IsValid q
      → Holds q xs
      → k + length ys ≡ length xs
      → ((j : ℕ) → j < length ys → get_elem? xs (k + j) ≡ get_elem? ys j)
      → collect (suc (length ys)) q k ≡ ok ys
  unfolding collect
  collect_from q xs [] k i a e f = rw (next_end q k (omega (arith, a.counted)))
  collect_from q xs (y ∷ ys) k i a e f =
      let here : get_elem? xs k ≡ some y = ap (get_elem? xs) (omega arith) ∙ f 0 (omega arith) in
      let rest =
        collect_from q xs ys (k + 1) i a (omega arith)
          (λ j p. ap (get_elem? xs) (omega arith) ∙ f (suc j) (omega arith)) in
      rw (next-eq q k y i (omega (arith, a.counted)) (a.items k (omega arith) ∙ here), rest)

  -- A `for` loop over a valid queue ends, and yields the items from the front.
  pub collect_refines :
      (q : Queue H T) (xs : List T) → IsValid q → Holds q xs → collect (suc (length xs)) q 0 ≡ ok xs
  collect_refines q xs i a =
      collect_from q xs xs 0 i a (omega arith) (λ j p. ap (get_elem? xs) (omega arith))
