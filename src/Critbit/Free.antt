-- ===== src/Critbit/Free.antt =====
-- The slab of dex/src/critbit.rs as an allocator: the chain of its free nodes, the number of nodes that
-- are handed out, and a write of one node.
pub mod Insertion
pub mod Removal
use openbook_dex.Prelude.{
  ℕ, zero, suc, ◌+◌, ◌-◌, ◌%◌, ◌^◌, ◌≤◌, ◌<◌, ◌≡◌, ◌≢◌, refl, sym, ap, subst, ◌∙◌, ◌⊎◌, inl, inr,
  true, false, List, [], ◌∷◌, Option, none, some, arith, ◌==◌, ltb, if◌then◌else◌, length,
  get_elem?, set, length-set, get_elem?-set_self, get_elem?-set_ne, Bool-cases, add64, sub64,
  add64-eq, sub64-eq,
}
use openbook_dex.Error.{ok}
use openbook_dex.Critbit.Node.{AnyNode, free_node, last_free_node}
use openbook_dex.Critbit.Alloc.{
  Slab, live, get, put, insert, insert_bump, insert_free, next_free, remove, free_at,
}
use openbook_dex.Critbit.Handles.{
  get_elem?-in, get-set, get-inside, get-eq, read_node, freed, live-freed,
}

-- The free list from the handle `h` on: `len` free nodes below the bump index, the last marked so.
abbrev pub FreeList : List AnyNode → ℕ → ℕ → ℕ → Type 0
FreeList nodes bump zero h = Unit {0}
FreeList nodes bump (suc zero) h =
    (h < bump) × (next : ℕ) × (get_elem? nodes h ≡ some (last_free_node next))
FreeList nodes bump (suc (suc n)) h =
    (h < bump)
    × (next : ℕ) × (get_elem? nodes h ≡ some (free_node next))
    × FreeList nodes bump (suc n) next

-- A slab that has handed out `count` nodes.
pub record IsAlloc (s : Slab) (count : ℕ) : Type 0 where
  pub counted : s.free_list_len + count ≡ s.bump_index
  pub within : s.bump_index ≤ length s.nodes
  pub word : s.bump_index < 2 ^ 32
  pub unborn : (k : ℕ) → s.bump_index ≤ k → get s k ≡ none
  pub free : FreeList s.nodes s.bump_index s.free_list_len s.free_list_head

module _ (nodes : List AnyNode) (bump : ℕ) where
  -- A handle of the free list reads a free node.
  FreeList-free :
      (m h : ℕ)
      → FreeList nodes bump (suc m) h
      → (next : ℕ) × ((get_elem? nodes h ≡ some (last_free_node next))
          ⊎ (get_elem? nodes h ≡ some (free_node next)))
  FreeList-free zero h (b, next, e) = (next, inl e)
  FreeList-free (suc m) h (b, next, e, rest) = (next, inr e)

  -- It is in the list at one place only.
  FreeList-unique :
      (m n h : ℕ) → FreeList nodes bump (suc m) h → FreeList nodes bump (suc n) h → m ≡ n
  FreeList-unique zero zero h f g = refl
  FreeList-unique zero (suc n) h (_, next, e) (_, next', e', _) = absurd (cc)
  FreeList-unique (suc m) zero h (_, next, e, _) (_, next', e') = absurd (cc)
  FreeList-unique (suc m) (suc n) h (_, next, e, f) (_, next', e', g) =
      let same : next' ≡ next = cc in
      ap suc (FreeList-unique m n next f (subst (λ k. FreeList nodes bump (suc n) k) same g))

  -- A write elsewhere leaves the list.
  FreeList-set :
      (bump' len h j : ℕ) (v : AnyNode)
      → bump ≤ bump'
      → ((m i : ℕ) → m < len → FreeList nodes bump (suc m) i → j ≢ i)
      → FreeList nodes bump len h
      → FreeList (set nodes j v) bump' len h
  FreeList-set bump' zero h j v le apart f = tt
  FreeList-set bump' (suc zero) h j v le apart (b, next, e) =
      (omega arith, next, get_elem?-set_ne nodes v (apart 0 h (omega arith) (b, next, e)) ∙ e)
  FreeList-set bump' (suc (suc n)) h j v le apart (b, next, e, f) = (
    omega arith,
    next,
    get_elem?-set_ne nodes v (apart (suc n) h (omega arith) (b, next, e, f)) ∙ e,
    FreeList-set bump' (suc n) next j v le (λ m i l g. apart m i (omega arith) g) f,
  )

-- A node that is handed out is not in the free list, and is below the bump index.
live-apart :
    (s : Slab) (h : ℕ) (v : AnyNode)
    → get s h ≡ some v
    → (m i : ℕ) → FreeList s.nodes s.bump_index (suc m) i
    → h ≢ i
live-apart s h v g m i f e =
    let r = FreeList-free s.nodes s.bump_index m i f in
    let gone : get s i ≡ none = elim r.1 [
      | inl e ↦ get-eq s i ∙ ap read_node e
      | inr e ↦ get-eq s i ∙ ap read_node e
    ] in
    let there : get s i ≡ some v = subst (λ k. get s k ≡ some v) e g in absurd (cc)

live-lt :
    (s : Slab) (h count : ℕ) (v : AnyNode) → IsAlloc s count → get s h ≡ some v → h < s.bump_index
live-lt s h count v a g = elim (Bool-cases (ltb h s.bump_index)) [
  | inl e ↦ ground arith
  | inr e ↦ let gone = a.unborn h (ground arith) in absurd (cc)
]

-- What a call that writes `v` at the handle `h` makes of a slab.
pub record Writes (s : Slab) (h : ℕ) (v : Option AnyNode) (t : Slab) (count : ℕ) : Type 0 where
  pub reads : (k : ℕ) → get t k ≡ (if k == h then v else get s k)
  pub alloc : IsAlloc t count
  pub same_root : t.root_node ≡ s.root_node
  pub same_leaves : t.leaf_count ≡ s.leaf_count
  pub same_size : length t.nodes ≡ length s.nodes

write-reads :
    (s t : Slab) (h : ℕ) (n old : AnyNode) (v : Option AnyNode)
    → live n ≡ v
    → get_elem? s.nodes h ≡ some old
    → t.nodes ≡ set s.nodes h n
    → (k : ℕ) → get t k ≡ (if k == h then v else get s k)
write-reads s t h n old v l e w k = rw (← l) (get-set s t h k n old e w)

write-unborn :
    (s t : Slab) (h count : ℕ) (v : Option AnyNode)
    → IsAlloc s count
    → s.bump_index ≤ t.bump_index
    → h < t.bump_index
    → ((k : ℕ) → get t k ≡ (if k == h then v else get s k))
    → (k : ℕ) → t.bump_index ≤ k
    → get t k ≡ none
write-unborn s t h count v a le lt reads k beyond =
    let other : (k == h) ≡ false = ground arith in
    let r : get t k ≡ get s k = rw other at (reads k) in r ∙ a.unborn k (omega arith)

module _ (s t : Slab) (h count : ℕ) (v : Option AnyNode) (w : Writes s h v t count) where
  pub Writes-self : get t h ≡ v
  Writes-self = let same : (h == h) ≡ true = ground arith in rw same at (w.reads h)

  pub Writes-other : (k : ℕ) → k ≢ h → get t k ≡ get s k
  Writes-other k n = let other : (k == h) ≡ false = ground arith in rw other at (w.reads k)

  -- A write to an unused handle.
  pub Writes-fresh : (k : ℕ) (n : AnyNode) → get s h ≡ none → get s k ≡ some n → get t k ≡ some n
  Writes-fresh k n unused e =
      Writes-other k (λ same. (let f = subst (λ i. get s i ≡ some n) same e in cc)) ∙ e

-- The tree's part of the header is not the allocator's.
pub get-header :
    (s : Slab) (root leaf_count k : ℕ)
    → get (record s { header = record s.header { root_node = root; leaf_count = leaf_count } }) k
      ≡ get s k
unfolding get
get-header s root leaf_count k = refl

pub IsAlloc-header :
    (s : Slab) (count root leaf_count : ℕ)
    → IsAlloc s count
    → IsAlloc
        (record s { header = record s.header { root_node = root; leaf_count = leaf_count } })
        count
unfolding get
IsAlloc-header s count root leaf_count a = record {
  counted = a.counted;
  within = a.within;
  word = a.word;
  unborn = a.unborn;
  free = a.free;
}

-- Overwriting a node that is handed out.
pub put-Writes :
    (s : Slab) (h count : ℕ) (v w : AnyNode)
    → IsAlloc s count
    → get s h ≡ some v
    → live w ≡ some w
    → (t : Slab) × (put s h w ≡ ok t) × Writes s h (some w) t count
unfolding put
put-Writes s h count v w a g l =
    let t : Slab = record s { nodes = set s.nodes h w } in
    let (old, inside) = get-inside s h v g in
    let reads = write-reads s t h w old (some w) l inside refl in
    let lt = live-lt s h count v a g in
    let len = length-set s.nodes h w in
    (
      t,
      rw g refl,
      record {
        reads = reads;
        alloc = record {
          counted = a.counted;
          within = omega arith;
          word = a.word;
          unborn = write-unborn s t h count (some w) a (omega arith) lt reads;
          free =
              FreeList-set s.nodes s.bump_index s.bump_index s.free_list_len s.free_list_head h w
                (omega arith) (λ m i _ f. live-apart s h v g m i f) a.free;
        };
        same_root = refl;
        same_leaves = refl;
        same_size = len;
      },
    )
