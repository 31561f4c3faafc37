-- ===== src/Critbit/Free/Removal.antt =====
-- `remove` of dex/src/critbit.rs on the chain of free nodes.
use openbook_dex.Prelude.{
  ℕ, zero, suc, ◌<◌, ◌≡◌, ◌≢◌, refl, sym, subst, ◌∙◌, List, none, some, arith, ◌==◌, if◌then◌else◌,
  length, set, length-set, get_elem?-set_self, add64, add64-eq,
}
use openbook_dex.Critbit.Node.{AnyNode, free_node, last_free_node}
use openbook_dex.Critbit.Alloc.{Slab, get, remove, free_at}
use openbook_dex.Critbit.Handles.{get_elem?-in, get-inside, freed, live-freed}
use openbook_dex.Critbit.Free.{
  FreeList, IsAlloc, Writes, FreeList-set, live-apart, live-lt, write-reads, write-unborn,
}

-- The free list with one more node at its head.
FreeList-push :
    (nodes : List AnyNode) (bump len head h : ℕ)
    → h < bump
    → h < length nodes
    → ((m i : ℕ) → FreeList nodes bump (suc m) i → h ≢ i)
    → FreeList nodes bump len head
    → FreeList
        (set nodes h (if len == 0 then last_free_node head else free_node head))
        bump
        (suc len)
        h
FreeList-push nodes bump zero head h lt inside apart f =
    (lt, head, get_elem?-set_self nodes h (last_free_node head) inside)
FreeList-push nodes bump (suc n) head h lt inside apart f =
    let tag : (if suc n == 0 then last_free_node head else free_node head) ≡ free_node head =
      ground arith in
    let pushed : FreeList (set nodes h (free_node head)) bump (suc (suc n)) h = (
      lt,
      head,
      get_elem?-set_self nodes h (free_node head) inside,
      FreeList-set nodes bump bump (suc n) head h (free_node head) (omega arith)
          (λ m i _ g. apart m i g) f,
    ) in
    subst (λ v. FreeList (set nodes h v) bump (suc (suc n)) h) (sym tag) pushed

pub remove-Writes :
    (s : Slab) (h count : ℕ) (v : AnyNode)
    → IsAlloc s (suc count)
    → get s h ≡ some v
    → (t : Slab) × (remove s h ≡ some (v, t)) × Writes s h none t count
unfolding remove add64
remove-Writes s h count v a g =
    let t = free_at s h in
    let (old, inside) = get-inside s h v g in
    let reads =
      write-reads s t h (freed s) old none (live-freed (s.free_list_len == 0) s.free_list_head)
        inside refl in
    let lt = live-lt s h (suc count) v a g in
    let more : t.free_list_len ≡ suc s.free_list_len =
      add64-eq s.free_list_len 1 (omega arith) ∙ omega arith in
    let len = length-set s.nodes h (freed s) in
    (
      t,
      rw (g, remove) refl,
      record {
        reads = reads;
        alloc = record {
          counted = omega arith;
          within = omega arith;
          word = a.word;
          unborn = write-unborn s t h (suc count) none a (omega arith) lt reads;
          free = rw more (
              FreeList-push s.nodes s.bump_index s.free_list_len s.free_list_head h lt
                (get_elem?-in s.nodes h old inside) (λ m i f. live-apart s h v g m i f) a.free);
        };
        same_root = refl;
        same_leaves = refl;
        same_size = len;
      },
    )
