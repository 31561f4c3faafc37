-- ===== src/Critbit/Free/Insertion.antt =====
-- `insert` of dex/src/critbit.rs on the chain of free nodes, and at the bump index.
use openbook_dex.Prelude.{
  ℕ, zero, suc, ◌+◌, ◌-◌, ◌%◌, ◌^◌, ◌<◌, ◌≡◌, refl, sym, ap, subst, ◌∙◌, ◌⊎◌, inl, inr, false, List,
  [], ◌∷◌, none, some, arith, ◌==◌, length, get_elem?, set, length-set, Bool-cases, add64, sub64,
  add64-eq, sub64-eq,
}
use openbook_dex.Error.{ok}
use openbook_dex.Critbit.Node.{AnyNode, free_node, last_free_node}
use openbook_dex.Critbit.Alloc.{Slab, live, get, insert, insert_bump, insert_free, next_free}
use openbook_dex.Critbit.Handles.{get-eq, read_node}
use openbook_dex.Critbit.Free.{
  FreeList, IsAlloc, Writes, FreeList-set, FreeList-unique, write-reads, write-unborn,
}

-- What an insertion makes of a slab: it hands out a handle that read nothing, or there is no room.
pub record Inserts (s : Slab) (v : AnyNode) (count : ℕ) (h : ℕ) (t : Slab) : Type 0 where
  pub inserts : insert s v ≡ ok (some (h, t))
  pub fresh : get s h ≡ none
  pub writes : Writes s h (some v) t (suc count)

abbrev pub NoRoom : Slab → AnyNode → Type 0
NoRoom s v =
    (insert s v ≡ ok none)
    × (s.free_list_len ≡ 0)
    × ((s.bump_index ≡ length s.nodes) ⊎ (s.bump_index ≡ 2 ^ 32 - 1))

inside_some :
    (xs : List AnyNode) (i : ℕ) → i < length xs → (n : AnyNode) × (get_elem? xs i ≡ some n)
inside_some [] i h = absurd (omega arith)
inside_some (x ∷ xs) zero h = (x, refl)
inside_some (x ∷ xs) (suc i) h = inside_some xs i (omega arith)

bump-Inserts :
    (s : Slab) (v : AnyNode) (count : ℕ)
    → IsAlloc s count
    → live v ≡ some v
    → s.free_list_len ≡ 0
    → NoRoom s v ⊎ ((h : ℕ) × (t : Slab) × Inserts s v count h t)
unfolding insert insert_bump
bump-Inserts s v count a l none_free = elim (Bool-cases (s.bump_index == length s.nodes)) [
  | inl e ↦ inl (rw (l, none_free, e) refl, none_free, inl (ground arith))
  | inr e ↦ elim (Bool-cases (s.bump_index == 2 ^ 32 - 1)) [
    | inl e' ↦ inl (rw (l, none_free, e, e') refl, none_free, inr (ground arith))
    | inr e' ↦
        let key : s.bump_index % 2 ^ 32 ≡ s.bump_index = omega arith in
        let (old, inside) = inside_some s.nodes s.bump_index (ground arith) in
        let t : Slab = record {
          header = record s.header { bump_index = add64 s.bump_index 1 };
          nodes = set s.nodes s.bump_index v;
        } in
        let one_more : t.bump_index ≡ s.bump_index + 1 = add64-eq s.bump_index 1 (omega arith) in
        let reads = write-reads s t s.bump_index v old (some v) l inside refl in
        let len = length-set s.nodes s.bump_index v in
        inr (
          s.bump_index,
          t,
          record {
            inserts = rw (l, none_free, e, e', key, inside) refl;
            fresh = a.unborn s.bump_index (omega arith);
            writes = record {
              reads = reads;
              alloc = record {
                counted = omega arith;
                within = ground arith;
                word = ground arith;
                unborn =
                    write-unborn s t s.bump_index count (some v) a (omega arith) (omega arith)
                      reads;
                free = rw none_free tt;
              };
              same_root = refl;
              same_leaves = refl;
              same_size = len;
            };
          },
        )
  ]
]

-- The head of the free list, and the list after it.
record Popped (nodes : List AnyNode) (bump len h : ℕ) : Type 0 where
  pub node : AnyNode
  pub next : ℕ
  pub at_head : get_elem? nodes h ≡ some node
  pub steps : next_free (suc len) node ≡ ok next
  pub is_free : live node ≡ none
  pub below : h < bump
  pub rest : FreeList nodes bump len next

FreeList-pop :
    (nodes : List AnyNode) (bump len h : ℕ)
    → FreeList nodes bump (suc len) h
    → Popped nodes bump len h
unfolding next_free
FreeList-pop nodes bump zero h (b, next, e) = record {
  node = last_free_node next;
  next = next;
  at_head = e;
  steps = refl;
  is_free = refl;
  below = b;
  rest = tt;
}
FreeList-pop nodes bump (suc m) h (b, next, e, f) = record {
  node = free_node next;
  next = next;
  at_head = e;
  steps = ground arith;
  is_free = refl;
  below = b;
  rest = f;
}

free-Inserts :
    (s : Slab) (v : AnyNode) (count len : ℕ)
    → IsAlloc s count
    → live v ≡ some v
    → s.free_list_len ≡ suc len
    → (h : ℕ) × (t : Slab) × Inserts s v count h t
unfolding insert insert_free
free-Inserts s v count len a l e =
    let chain = subst (λ n. FreeList s.nodes s.bump_index n s.free_list_head) e a.free in
    let p = FreeList-pop s.nodes s.bump_index len s.free_list_head chain in
    let head = s.free_list_head in
    let t : Slab = record {
      header = record s.header { free_list_head = p.next; free_list_len = sub64 s.free_list_len 1 };
      nodes = set s.nodes head v;
    } in
    let one_less : t.free_list_len ≡ len =
      sub64-eq s.free_list_len 1 (omega arith) (omega arith) ∙ omega arith in
    let reads = write-reads s t head v p.node (some v) l p.at_head refl in
    let size = length-set s.nodes head v in
    let used : (s.free_list_len == 0) ≡ false = ground arith in
    let stepped : next_free s.free_list_len p.node ≡ ok p.next =
      ap (λ n. next_free n p.node) e ∙ p.steps in
    let kept =
      FreeList-set s.nodes s.bump_index s.bump_index len p.next head v (omega arith)
        (λ m i lt f same.
          (let at_head = subst (λ k. FreeList s.nodes s.bump_index (suc m) k) (sym same) f in
            let again = FreeList-unique s.nodes s.bump_index m len head at_head chain in
            absurd (omega arith)))
        p.rest in
    (
      head,
      t,
      record {
        inserts = rw (l, used, p.at_head, stepped) refl;
        fresh = get-eq s head ∙ ap read_node p.at_head ∙ p.is_free;
        writes = record {
          reads = reads;
          alloc = record {
            counted = omega arith;
            within = omega arith;
            word = a.word;
            unborn = write-unborn s t head count (some v) a (omega arith) p.below reads;
            free = rw one_less kept;
          };
          same_root = refl;
          same_leaves = refl;
          same_size = size;
        };
      },
    )

pub insert-total :
    (s : Slab) (v : AnyNode) (count : ℕ)
    → IsAlloc s count
    → live v ≡ some v
    → NoRoom s v ⊎ ((h : ℕ) × (t : Slab) × Inserts s v count h t)
insert-total s v count a l = elim (Bool-cases (s.free_list_len == 0)) [
  | inl e ↦ bump-Inserts s v count a l (ground arith)
  | inr e ↦ inr (free-Inserts s v count (s.free_list_len - 1) a l (ground arith))
]
