-- ===== src/Consume/Search.antt =====
-- The binary search by which `process_consume_events` (dex/src/state.rs) finds an event's account: on
-- keys in rising order it is the search from the front.
use openbook_dex.Prelude.{
  ℕ, zero, suc, ◌+◌, ◌-◌, ◌/◌, ◌≤◌, ◌<◌, ◌≡◌, ◌≢◌, refl, sym, ap, ◌∙◌, ◌⊎◌, inl, inr, true, false,
  List, [], ◌∷◌, Option, none, some, arith, ltb, ◌==◌, if◌then◌else◌, length, get_elem?, Bool-cases,
  dec_lt,
}
use openbook_dex.Consume.{search_between, binary_search}

-- Keys in strictly rising order.
abbrev pub IsSorted : List ℕ → Type 0
IsSorted keys =
    (i j : ℕ) (x y : ℕ) → i < j → get_elem? keys i ≡ some x → get_elem? keys j ≡ some y → x < y

-- The first index of a key, looking from the front.
unfoldable pub index_of : List ℕ → ℕ → Option ℕ
index_of [] target = none
index_of (key ∷ keys) target =
    let later : Option ℕ = elim (index_of keys target) [ none ↦ none | some i ↦ some (suc i) ] in
    if key == target then some 0 else later

-- What a search may answer.
abbrev Finds : List ℕ → ℕ → Option ℕ → Type 0
Finds keys target r =
    ((i : ℕ) × (r ≡ some i) × (get_elem? keys i ≡ some target))
    ⊎ ((r ≡ none) × ((i x : ℕ) → get_elem? keys i ≡ some x → x ≢ target))

get_elem?-some : (keys : List ℕ) (i : ℕ) → i < length keys → (x : ℕ) × (get_elem? keys i ≡ some x)
get_elem?-some [] i h = absurd (omega arith)
get_elem?-some (x ∷ keys) zero h = (x, refl)
get_elem?-some (x ∷ keys) (suc i) h = get_elem?-some keys i (omega arith)

get_elem?-beyond : (keys : List ℕ) (i : ℕ) → length keys ≤ i → (x : ℕ) → get_elem? keys i ≢ some x
get_elem?-beyond [] i h x e = cc
get_elem?-beyond (y ∷ keys) zero h x e = absurd (omega arith)
get_elem?-beyond (y ∷ keys) (suc i) h x e = get_elem?-beyond keys i (omega arith) x e

module _ (keys : List ℕ) (target : ℕ) (sorted : IsSorted keys) where
  Below : ℕ → Type 0
  Below left = (i x : ℕ) → i < left → get_elem? keys i ≡ some x → x < target

  Above : ℕ → Type 0
  Above right = (i x : ℕ) → right ≤ i → get_elem? keys i ≡ some x → target < x

  Below-mid : (mid k : ℕ) → get_elem? keys mid ≡ some k → k < target → Below (suc mid)
  unfolding Below
  Below-mid mid k e lt i x h g = elim (dec_lt i mid) [
    | yes before ↦ let less = sorted i mid x k before g e in omega arith
    | no here ↦
        let same : i ≡ mid = omega arith in
        let g' : get_elem? keys mid ≡ some x = ap (get_elem? keys) (sym same) ∙ g in
        let eq : k ≡ x = cc in omega arith
  ]

  Above-mid : (mid k : ℕ) → get_elem? keys mid ≡ some k → target < k → Above mid
  unfolding Above
  Above-mid mid k e lt i x h g = elim (dec_lt mid i) [
    | yes after ↦ let less = sorted mid i k x after e g in omega arith
    | no here ↦
        let same : i ≡ mid = omega arith in
        let g' : get_elem? keys mid ≡ some x = ap (get_elem? keys) (sym same) ∙ g in
        let eq : k ≡ x = cc in omega arith
  ]

  none-Below : Below 0
  unfolding Below
  none-Below i x h = absurd (omega arith)

  none-Above : Above (length keys)
  unfolding Above
  none-Above i x h e = absurd (get_elem?-beyond keys i h x e)

  search_between-Finds :
      (fuel left right : ℕ)
      → right - left < fuel
      → right ≤ length keys
      → Below left
      → Above right
      → Finds keys target (search_between fuel keys target left right)
  unfolding search_between
  search_between-Finds zero left right f r b a = absurd (omega arith)
  search_between-Finds (suc fuel) left right f r b a = elim (Bool-cases (ltb left right)) [
    | inr done ↦ inr (
      rw done refl,
      unfold Below Above in
          λ i x g. elim (dec_lt i left) [
            | yes low ↦ let less = b i x low g in λ e. omega arith
            | no high ↦ let more = a i x (ground arith) g in λ e. omega arith
          ],
    )
    | inl more ↦
        let lt : left < right = ground arith in
        let mid = left + (right - left) / 2 in
        let (k, e) = get_elem?-some keys mid (omega arith) in
        elim (Bool-cases (ltb k target)) [
          | inl less ↦
              rw (more, e, less)
                (search_between-Finds fuel (suc mid) right (omega arith) r
                  (Below-mid mid k e (ground arith)) a)
          | inr not_less ↦ elim (Bool-cases (ltb target k)) [
            | inl greater ↦
                rw (more, e, not_less, greater)
                  (search_between-Finds fuel left mid (omega arith) (omega arith) b
                    (Above-mid mid k e (ground arith)))
            | inr not_greater ↦
                let same : k ≡ target = ground arith in
                inl (mid, rw (more, e, not_less, not_greater) refl, e ∙ ap some same)
          ]
        ]
  ]

index_of-some :
    (keys : List ℕ) (target i : ℕ)
    → IsSorted keys
    → get_elem? keys i ≡ some target
    → index_of keys target ≡ some i
unfolding index_of
index_of-some [] target i s e = cc
index_of-some (key ∷ keys) target zero s e =
    let t : (key == target) ≡ true = ground arith in rw t refl
index_of-some (key ∷ keys) target (suc i) s e =
    let less = s 0 (suc i) key target (omega arith) refl e in
    let f : (key == target) ≡ false = ground arith in
    let rest = index_of-some keys target i (λ j k x y h. s (suc j) (suc k) x y (omega arith)) e in
    rw (f, rest) refl

index_of-none :
    (keys : List ℕ) (target : ℕ)
    → ((i x : ℕ) → get_elem? keys i ≡ some x → x ≢ target)
    → index_of keys target ≡ none
unfolding index_of
index_of-none [] target h = refl
index_of-none (key ∷ keys) target h =
    let ne = h 0 key refl in
    let f : (key == target) ≡ false = ground arith in
    let rest = index_of-none keys target (λ i x. h (suc i) x) in rw (f, rest) refl

-- On keys in strictly rising order, the binary search answers just what a search from the front does.
pub binary_search-eq-index_of :
    (keys : List ℕ) (target : ℕ) → IsSorted keys → binary_search keys target ≡ index_of keys target
unfolding binary_search
binary_search-eq-index_of keys target s =
    let r =
      search_between-Finds keys target s (suc (length keys)) 0 (length keys) (omega arith)
        (omega arith) (none-Below keys target s) (none-Above keys target s) in
    elim r [
      | inl (i, e, g) ↦ e ∙ sym (index_of-some keys target i s g)
      | inr (e, h) ↦ e ∙ sym (index_of-none keys target h)
    ]
