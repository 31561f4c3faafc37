-- ===== src/Queue/Valid.antt =====
-- The representation invariant of `Queue` (dex/src/state.rs), and the list that a queue holds.
use openbook_dex.Prelude.{
  ℕ, zero, suc, ◌+◌, ◌-◌, ◌%◌, ◌^◌, ◌≤◌, ◌<◌, ◌≡◌, ◌≢◌, refl, sym, ap, ◌∙◌, List, [], ◌∷◌, ◌++◌,
  some, arith, length, get_elem?, set, take, length-set, length-take, length-append,
  get_elem?-set_self, get_elem?-set_ne, dec_lt,
}
use native.Mathlib.Nat.{mod-eq_of_lt, mod-eq-sub-mod, mod-add-mod, mod-lt}
use openbook_dex.Queue.{QueueHeader, Queue}

-- Item `i` of the list lies `i` slots past slot `a`, going round at the end of the buffer.
abbrev pub Items {ℓ} : {A : Type ℓ} → List A → ℕ → List A → Type ℓ
Items buf a xs = (i : ℕ) → i < length xs → get_elem? buf ((a + i) % length buf) ≡ get_elem? xs i

module _ {H T : Type 0} ⦃h : QueueHeader H⦄ where
  -- The head is a slot, the count fits the buffer, and the buffer fits an address space.
  pub record IsValid (q : Queue H T) : Type 0 where
    pub head_in : h.head q.header < length q.buf
    pub count_in : h.count q.header ≤ length q.buf
    pub small : length q.buf < 2 ^ 63

  -- The queue holds the list `xs`, the front first.
  pub record Holds (q : Queue H T) (xs : List T) : Type 0 where
    pub counted : length xs ≡ h.count q.header
    pub items : Items q.buf (h.head q.header) xs

-- Fewer steps than there are slots do not come back to a slot.
pub slot_ne : (cap a i j : ℕ) → a < cap → i < j → j < cap → (a + j) % cap ≢ (a + i) % cap
slot_ne cap a i j ha hij hj e = elim (dec_lt (a + i) cap) [
  | yes low ↦ elim (dec_lt (a + j) cap) [
    | yes both ↦ omega (arith, mod-eq_of_lt low, mod-eq_of_lt both)
    | no wrapped ↦ omega (arith, mod-eq_of_lt low, wrap j hj (omega arith))
  ]
  | no high ↦ omega (arith, wrap i (omega arith) (omega arith), wrap j hj (omega arith))
]
  where
    wrap : (k : ℕ) → k < cap → cap ≤ a + k → (a + k) % cap ≡ a + k - cap
    wrap k hk p = omega (
      arith,
      mod-eq-sub-mod {n = a + k} {m = cap} p,
      mod-eq_of_lt {n = a + k - cap} {m = cap} (omega arith),
    )

module _ {ℓ} {A : Type ℓ} where
  pub get_elem?-append_left :
      (xs ys : List A) (i : ℕ) → i < length xs → get_elem? (xs ++ ys) i ≡ get_elem? xs i
  get_elem?-append_left [] ys i p = elim p [ ]
  get_elem?-append_left (x ∷ xs) ys zero p = refl
  get_elem?-append_left (x ∷ xs) ys (suc i) p = get_elem?-append_left xs ys i (omega arith)

  pub get_elem?-append_length :
      (xs : List A) (y : A) → get_elem? (xs ++ y ∷ []) (length xs) ≡ some y
  get_elem?-append_length [] y = refl
  get_elem?-append_length (x ∷ xs) y = get_elem?-append_length xs y

  pub get_elem?-take : (xs : List A) (n i : ℕ) → i < n → get_elem? (take n xs) i ≡ get_elem? xs i
  get_elem?-take xs zero i p = elim p [ ]
  get_elem?-take [] (suc n) i p = refl
  get_elem?-take (x ∷ xs) (suc n) zero p = refl
  get_elem?-take (x ∷ xs) (suc n) (suc i) p = get_elem?-take xs n i (omega arith)

  -- A list is determined by its items.
  pub list_ext :
      (xs ys : List A)
      → length xs ≡ length ys
      → ((i : ℕ) → i < length xs → get_elem? xs i ≡ get_elem? ys i)
      → xs ≡ ys
  list_ext [] [] e f = refl
  list_ext [] (y ∷ ys) e f = absurd (omega arith)
  list_ext (x ∷ xs) [] e f = absurd (omega arith)
  list_ext (x ∷ xs) (y ∷ ys) e f =
      let heads = f 0 (omega arith) in
      let tails = list_ext xs ys (omega arith) (λ i p. f (suc i) (omega arith)) in cc (heads, tails)

  pub get_elem?-some : (xs : List A) (i : ℕ) → i < length xs → (a : A) × (get_elem? xs i ≡ some a)
  get_elem?-some [] i p = elim p [ ]
  get_elem?-some (x ∷ xs) zero p = (x, refl)
  get_elem?-some (x ∷ xs) (suc i) p = get_elem?-some xs i (omega arith)

module _ {H T : Type 0} ⦃h : QueueHeader H⦄ where
  -- A queue holds one list.
  pub Holds-unique : (q : Queue H T) (xs ys : List T) → Holds q xs → Holds q ys → xs ≡ ys
  Holds-unique q xs ys a b =
      list_ext xs ys (omega (arith, a.counted, b.counted))
        λ i p. sym (a.items i p) ∙ b.items i (omega (arith, a.counted, b.counted))

module _ {ℓ} {A : Type ℓ} where
  -- Writing one slot past the last item appends to the list.
  pub Items-set :
      (buf xs : List A) (v : A) (a : ℕ)
      → a < length buf
      → length xs < length buf
      → Items buf a xs
      → Items (set buf ((a + length xs) % length buf) v) a (xs ++ v ∷ [])
  Items-set buf xs v a ha hx f i p =
      rw (length-set buf ((a + length xs) % length buf) v) (elim (dec_lt i (length xs)) [
        | yes old ↦
            get_elem?-set_ne buf v (slot_ne (length buf) a i (length xs) ha old hx)
            ∙ f i old
            ∙ sym (get_elem?-append_left xs (v ∷ []) i old)
        | no new ↦
            let e : i ≡ length xs = omega (arith, length-append xs (v ∷ [])) in
            rw e (
              get_elem?-set_self buf _ v (mod-lt (a + length xs) (omega arith))
              ∙ sym (get_elem?-append_length xs v))
      ])

  -- One slot on, the list starts at its second item.
  pub Items-tail :
      (buf : List A) (x : A) (xs : List A) (a : ℕ)
      → Items buf a (x ∷ xs)
      → Items buf ((a + 1) % length buf) xs
  Items-tail buf x xs a f i p =
      rw (mod-add-mod (a + 1) (length buf) i)
        (ap (λ k. get_elem? buf (k % length buf)) (omega arith) ∙ f (suc i) (omega arith))

  pub Items-take :
      (buf xs : List A) (a n : ℕ) → n ≤ length xs → Items buf a xs → Items buf a (take n xs)
  Items-take buf xs a n hn f i p =
      let short : length (take n xs) ≡ n = omega (arith, length-take n xs) in
      f i (omega arith) ∙ sym (get_elem?-take xs n i (omega arith))
