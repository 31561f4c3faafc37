-- ===== src/Critbit/Handles.antt =====
-- The slab of dex/src/critbit.rs as a table of handles: what `get` reads after `insert` and `remove`.
use openbook_dex.Prelude.{
  ℕ, zero, suc, ◌+◌, ◌-◌, ◌%◌, ◌^◌, ◌<◌, ◌≡◌, refl, sym, ap, ◌∙◌, ◌⊎◌, inl, inr, Bool, true, false,
  List, [], ◌∷◌, Option, none, some, arith, ◌==◌, if◌then◌else◌, length, get_elem?, set,
  get_elem?-set_self, get_elem?-set_ne, Bool-cases, Option-cases, u64_mod, sub64, add64-eq,
  sub64-eq,
}
use openbook_dex.Error.{ok}
use openbook_dex.Error.Post.{
  Post, returns, Post->>=, Post-imp, Post-if, Post-eq, Post-unwrap, Post-ok,
}
use openbook_dex.Critbit.Node.{
  AnyNode, uninitialized, inner_node, leaf_node, free_node, last_free_node,
}
use openbook_dex.Critbit.Alloc.{
  Slab, live, get, insert, insert_bump, insert_free, next_free, remove, free_at,
}

pub get_elem?-in :
    {A : Type 0} (xs : List A) (i : ℕ) (a : A) → get_elem? xs i ≡ some a → i < length xs
get_elem?-in [] i a e = absurd (cc)
get_elem?-in (x ∷ xs) zero a e = omega arith
get_elem?-in (x ∷ xs) (suc i) a e = omega (arith, get_elem?-in xs i a e)

-- What a slab reads after a write to a handle within its nodes.
abbrev pub read_node : Option AnyNode → Option AnyNode
read_node none = none
read_node (some n) = live n

pub get-eq : (s : Slab) (k : ℕ) → get s k ≡ read_node (get_elem? s.nodes k)
unfolding get
get-eq s k = refl

-- What a slab reads after a write to a handle within its nodes.
pub get-set :
    (s t : Slab) (h k : ℕ) (n old : AnyNode)
    → get_elem? s.nodes h ≡ some old
    → t.nodes ≡ set s.nodes h n
    → get t k ≡ (if k == h then live n else get s k)
get-set s t h k n old e w = elim (Bool-cases (k == h)) [
  | inl f ↦
      let same : k ≡ h = ground arith in
      let r : get_elem? t.nodes k ≡ some n =
        ap (λ xs. get_elem? xs k) w
        ∙ ap (get_elem? (set s.nodes h n)) same
        ∙ get_elem?-set_self s.nodes h n (get_elem?-in s.nodes h old e) in
      rw f (get-eq t k ∙ ap read_node r)
  | inr f ↦
      let r : get_elem? t.nodes k ≡ get_elem? s.nodes k =
        ap (λ xs. get_elem? xs k) w ∙ get_elem?-set_ne s.nodes n (λ same. ground arith) in
      rw f (get-eq t k ∙ ap read_node r ∙ sym (get-eq s k))
]

live-some : (v n : AnyNode) → live v ≡ some n → live v ≡ some v
live-some uninitialized n e = absurd (cc)
live-some (inner_node m) n e = refl
live-some (leaf_node l) n e = refl
live-some (free_node next) n e = absurd (cc)
live-some (last_free_node next) n e = absurd (cc)

-- A node was written at a handle within the slab.
abbrev Wrote : Slab → AnyNode → ℕ × Slab → Type 0
Wrote s v r =
    (old : AnyNode) × (get_elem? s.nodes r.0 ≡ some old) × ((r.1).nodes ≡ set s.nodes r.0 v)

abbrev IsFull : Slab → Type 0
IsFull s = (s.bump_index ≡ length s.nodes) ⊎ (s.bump_index ≡ 2 ^ 32 - 1)

abbrev Bumped : Slab → AnyNode → Option (ℕ × Slab) → Type 0
Bumped s v none = IsFull s
Bumped s v (some r) = Wrote s v r

insert_bump-Bumped : (s : Slab) (v : AnyNode) → Post (Bumped s v) (insert_bump s v)
unfolding insert_bump
insert_bump-Bumped s v =
    Post-if (s.bump_index == length s.nodes) (λ e. returns (inl (ground arith)))
      λ _.
        Post-if (s.bump_index == 2 ^ 32 - 1) (λ e. returns (inr (ground arith)))
          λ _.
            Post->>= (Post-unwrap (get_elem? s.nodes (s.bump_index % 2 ^ 32)))
              λ old e. returns (old, e, refl)

insert_free-Wrote : (s : Slab) (v : AnyNode) → Post (Wrote s v) (insert_free s v)
unfolding insert_free
insert_free-Wrote s v =
    Post->>= (Post-unwrap (get_elem? s.nodes s.free_list_head))
      λ old e. Post->>= (Post-eq (next_free s.free_list_len old)) λ next _. returns (old, e, refl)

-- What an insertion of `v` gives, for the handle `k`: out of space, the free list is empty and the
-- slab is full; else `k` reads `v` if it is the handle given out, and as before if it is not.
abbrev pub Inserts : Slab → AnyNode → ℕ → Option (ℕ × Slab) → Type 0
Inserts s v k none = (s.free_list_len ≡ 0) × IsFull s
Inserts s v k (some (h, t)) = get t k ≡ (if k == h then some v else get s k)

inserted :
    (s : Slab) (v n : AnyNode) (k : ℕ) (r : ℕ × Slab)
    → live v ≡ some n
    → Wrote s v r
    → Inserts s v k (some r)
inserted s v n k r e (old, inside, w) = rw (← live-some v n e) (get-set s r.1 r.0 k v old inside w)

insert-Inserts : (s : Slab) (v : AnyNode) (k : ℕ) → Post (Inserts s v k) (insert s v)
unfolding insert
insert-Inserts s v k = Post->>= (Post-unwrap (live v)) λ n e.
    Post-if (s.free_list_len == 0)
      (λ empty.
        Post-imp (insert_bump-Bumped s v)
          (elim [ none ↦ λ full. (ground arith, full) | some r ↦ λ w. inserted s v n k r e w ]))
      (λ _. Post->>= (insert_free-Wrote s v) λ r w. returns (inserted s v n k r e w))

-- An insertion into a slab gives out a handle that then reads the node, and every other handle reads
-- as before; it is out of space only where the free list is empty and the slab is full.
pub insert_lem :
    (s : Slab) (v : AnyNode) (k : ℕ) (r : Option (ℕ × Slab)) → insert s v ≡ ok r → Inserts s v k r
insert_lem s v k r e = Post-ok (insert-Inserts s v k) e

pub live-freed : (b : Bool) (n : ℕ) → live (if b then last_free_node n else free_node n) ≡ none
live-freed true n = refl
live-freed false n = refl

pub get-inside :
    (s : Slab) (h : ℕ) (x : AnyNode)
    → get s h ≡ some x
    → (old : AnyNode) × (get_elem? s.nodes h ≡ some old)
get-inside s h x e = elim (Option-cases (get_elem? s.nodes h)) [
  | inl f ↦ let none_read : get s h ≡ none = get-eq s h ∙ ap read_node f in absurd (cc)
  | inr f ↦ f
]

remove-cases :
    (s t : Slab) (h : ℕ) (v : AnyNode)
    → remove s h ≡ some (v, t)
    → (get s h ≡ some v) × (t ≡ free_at s h)
unfolding remove
remove-cases s t h v e = elim (Option-cases (get s h)) [
  | inl f ↦ let r : remove s h ≡ none = rw (f, remove) refl in absurd (cc)
  | inr (x, f) ↦
      let r : remove s h ≡ some (x, free_at s h) = rw (f, remove) refl in
      let same : x ≡ v = cc in (f ∙ ap some same, cc)
]

-- What `remove` writes.
abbrev pub freed : Slab → AnyNode
freed s =
    if s.free_list_len == 0 then last_free_node s.free_list_head else free_node s.free_list_head

-- A removal gives the node that the handle read; the handle then reads nothing, and every other
-- handle reads as before.
pub remove_lem :
    (s t : Slab) (h k : ℕ) (v : AnyNode)
    → remove s h ≡ some (v, t)
    → (get s h ≡ some v) × (get t k ≡ (if k == h then none else get s k))
remove_lem s t h k v e =
    let (found, same) = remove-cases s t h v e in
    let (old, inside) = get-inside s h v found in
    let g = get-set s t h k (freed s) old inside (ap (λ s. s.nodes) same) in
    (found, rw (← live-freed (s.free_list_len == 0) s.free_list_head) g)

next_free-freed :
    (s : Slab)
    → s.free_list_len + 1 < u64_mod
    → next_free (s.free_list_len + 1) (freed s) ≡ ok s.free_list_head
unfolding next_free
next_free-freed s small = ground arith

insert-free_at :
    (s : Slab) (h : ℕ) (v w : AnyNode)
    → live w ≡ some w
    → s.free_list_len + 1 < u64_mod
    → get s h ≡ some v
    → (u : Slab) × (insert (free_at s h) w ≡ ok (some (h, u)))
      × (u.free_list_len ≡ s.free_list_len)
      × (u.free_list_head ≡ s.free_list_head)
      × (u.bump_index ≡ s.bump_index)
unfolding insert insert_free
insert-free_at s h v w l small found =
    let t = free_at s h in
    let (old, inside) = get-inside s h v found in
    let more : t.free_list_len ≡ s.free_list_len + 1 = add64-eq s.free_list_len 1 small in
    let used : (s.free_list_len + 1 == 0) ≡ false = ground arith in
    let read : get_elem? t.nodes h ≡ some (freed s) =
      get_elem?-set_self s.nodes h (freed s) (get_elem?-in s.nodes h old inside) in
    let next = next_free-freed s small in
    let less = sub64-eq (s.free_list_len + 1) 1 small (omega arith) in
    (
      record {
        header = record t.header {
          free_list_head = s.free_list_head;
          free_list_len = sub64 (s.free_list_len + 1) 1;
        };
        nodes = set t.nodes h w;
      },
      rw (l, more, used, read, next) refl,
      omega arith,
      refl,
      refl,
    )

-- The handle that was freed last is the next one given out, where the length of the free list is a
-- `u64` with room for it, and the free list is then as it was.
pub insert-remove :
    (s t : Slab) (h : ℕ) (v w : AnyNode)
    → live w ≡ some w
    → s.free_list_len + 1 < u64_mod
    → remove s h ≡ some (v, t)
    → (u : Slab) × (insert t w ≡ ok (some (h, u)))
      × (u.free_list_len ≡ s.free_list_len)
      × (u.free_list_head ≡ s.free_list_head)
      × (u.bump_index ≡ s.bump_index)
insert-remove s t h v w l small e =
    let (found, same) = remove-cases s t h v e in rw same (insert-free_at s h v w l small found)
