-- ===== src/Critbit/Grow.antt =====
-- The new parent of `insert_leaf` of dex/src/critbit.rs on a slab that holds a trie, and what is undone
-- where there is no room.
use openbook_dex.Prelude.{
  ℕ, suc, ◌≤◌, ◌<◌, ◌≡◌, ◌≢◌, refl, sym, ap, subst, ◌∙◌, inl, inr, none, some, arith, ◌==◌, length,
  Bool-cases, add64, u128_mod,
}
use openbook_dex.Critbit.Node.{
  AnyNode, LeafNode, inner_node, leaf_node, crit_bit, shared_prefix_len,
}
use openbook_dex.Critbit.Alloc.{Slab, live, get}
use openbook_dex.Critbit.Insert.{new_parent, split}
use openbook_dex.Critbit.Free.{
  IsAlloc, Writes, put-Writes, Writes-self, Writes-other, Writes-fresh, IsAlloc-header,
}
use openbook_dex.Critbit.Free.Insertion.{Inserts, NoRoom, insert-total}
use openbook_dex.Critbit.Free.Removal.{remove-Writes}
use openbook_dex.Critbit.Prefix.{top}
use openbook_dex.Critbit.Trie.{
  Trie, tip, fork, handle, node_of, Rep, IsTrie, Lies, Rep-root, IsTrie-Lies,
}
use openbook_dex.Critbit.Branch.{branch-Rep, handle-branch}
use openbook_dex.Critbit.Moves.{
  Full, Kept, Becomes, Outcome, is_full, is_new, node_key, reach, moved_to, moved_to-Rep,
  moved_to-handle,
}
use openbook_dex.Critbit.Split.{
  parent_node, parent-children, split_trie, split-IsTrie, split-leaves,
}

pub live-node_of : (t : Trie) → live (node_of t) ≡ some (node_of t)
live-node_of (tip h l) = refl
live-node_of (fork h n x y) = refl

pub NoRoom-Full : (s : Slab) (v : AnyNode) (count : ℕ) → IsAlloc s count → NoRoom s v → Full s count
NoRoom-Full s v count a (e, f, inl g) = inl (omega arith)
NoRoom-Full s v count a (e, f, inr g) = inr (omega arith)

again_Full :
    (s t : Slab) (v : AnyNode) (count : ℕ)
    → IsAlloc t (suc count)
    → length t.nodes ≡ length s.nodes
    → NoRoom t v
    → Full s count
again_Full s t v count a e (f, g, inl h) = inl (omega arith)
again_Full s t v count a e (f, g, inr h) = inr (omega arith)

-- The leaf came in, but the node above it found no room, and the leaf was taken out again.
undone :
    (s t u : Slab) (h count : ℕ) (v : AnyNode)
    → get s h ≡ none
    → Writes s h (some v) t (suc count)
    → Writes t h none u count
    → Kept s u count
undone s t u h count v fresh w x = record {
  reads = λ k. elim (Bool-cases (k == h)) [
    | inl e ↦
        let same : k ≡ h = ground arith in rw same (Writes-self t u h count none x ∙ sym fresh)
    | inr e ↦
        let other : k ≢ h = λ z. ground arith in
        Writes-other t u h count none x k other ∙ Writes-other s t h (suc count) (some v) w k other
  ];
  alloc = x.alloc;
  same_root = x.same_root ∙ w.same_root;
  same_leaves = x.same_leaves ∙ w.same_leaves;
}

pub unused_ne : (s : Slab) (a h : ℕ) (v : AnyNode) → get s a ≡ none → get s h ≡ some v → a ≢ h
unused_ne s a h v e f same = let g = subst (λ k. get s k ≡ none) same e in cc

-- The node at the root of a trie lies in its prefix.
pub root_Lies :
    (s : Slab) (p q : ℕ) (t : Trie) (k : ℕ) (v : AnyNode)
    → IsTrie p q t
    → Rep s t
    → get s k ≡ some v
    → k ≡ handle t
    → Lies p q v
root_Lies s p q t k v i r read same =
    let there = Rep-root s t r in
    let here = subst (λ k. get s k ≡ some v) same read in
    let it : node_of t ≡ v = cc in subst (Lies p q) it (IsTrie-Lies p q t i)

module _ (s : Slab) (l : LeafNode) (p q : ℕ) (t : Trie) (count : ℕ) (i : IsTrie p q t) (r : Rep s t)
    (alloc : IsAlloc s count) (le : p ≤ 128) (keyed : l.key < u128_mod) (e : top p l.key ≡ q)
    (short : shared_prefix_len (node_key t) l.key < reach t) where
  -- Where the three nodes are written.
  split-Becomes :
      (a m : ℕ) (s₁ s₂ s₃ : Slab)
      → Inserts s (leaf_node l) count a s₁
      → Inserts s₁ (node_of t) (suc count) m s₂
      → Writes s₂
          (handle t)
          (some (inner_node (parent_node (shared_prefix_len (node_key t) l.key) l a m)))
          s₃
          (suc (suc count))
      → let u : Slab = record s₃ {
        header = record s₃.header { leaf_count = add64 s₃.leaf_count 1 };
      } in
        Becomes s p q t u (split_trie l p q t i le keyed e short a m) (suc (suc count))
        × (u.leaf_count ≡ add64 s.leaf_count 1)
        × (get u a ≡ some (leaf_node l))
  unfolding get
  split-Becomes a m s₁ s₂ s₃ f g w =
      let u : Slab = record s₃ {
        header = record s₃.header { leaf_count = add64 s₃.leaf_count 1 };
      } in
      let h = handle t in
      let shared = shared_prefix_len (node_key t) l.key in
      let b = crit_bit shared l.key in
      let n = parent_node shared l a m in
      let c = suc count in
      let root = Rep-root s t r in
      let (at_a, at_m) = parent-children shared l a m in
      let keep₁ =
        λ (k : ℕ) (v : AnyNode). Writes-fresh s s₁ a c (some (leaf_node l)) f.writes k v f.fresh in
      let keep₂ = λ (k : ℕ) (v : AnyNode).
        Writes-fresh s₁ s₂ m (suc c) (some (node_of t)) g.writes k v g.fresh in
      let other = Writes-other s₂ s₃ h (suc c) (some (inner_node n)) w in
      let keeps = λ (k : ℕ) (v : AnyNode) (read : get s k ≡ some v) (away : k ≢ h).
        other k away ∙ keep₂ k v (keep₁ k v read) in
      let leaf_read : get s₃ a ≡ some (leaf_node l) =
        other a (unused_ne s a h (node_of t) f.fresh root)
        ∙ keep₂ a (leaf_node l) (Writes-self s s₁ a c (some (leaf_node l)) f.writes) in
      let moved_read : get s₃ m ≡ some (node_of t) =
        other m (unused_ne s₁ m h (node_of t) g.fresh (keep₁ h (node_of t) root))
        ∙ Writes-self s₁ s₂ m (suc c) (some (node_of t)) g.writes in
      (
        record {
          shape = split-IsTrie l p q t i le keyed e short a m;
          rep =
              branch-Rep b u h n (tip a l) (moved_to m t)
                (Writes-self s₂ s₃ h (suc c) (some (inner_node n)) w) at_a
                (at_m ∙ sym (moved_to-handle m t)) leaf_read
                (moved_to-Rep s u m p q t i r moved_read (λ k v g _ n. keeps k v g n));
          same_handle = handle-branch b h n (tip a l) (moved_to m t);
          frame = λ k v read outside.
              keeps k v read (λ same. outside (root_Lies s p q t k v i r read same));
          alloc = IsAlloc-header s₃ (suc c) s₃.root_node (add64 s₃.leaf_count 1) w.alloc;
          same_root = w.same_root ∙ (g.writes).same_root ∙ (f.writes).same_root;
        },
        ap (λ n. add64 n 1) (w.same_leaves ∙ (g.writes).same_leaves ∙ (f.writes).same_leaves),
        leaf_read,
      )

  pub split-Outcome :
      Outcome s l p q t count
        (split s l (handle t) (node_of t) (shared_prefix_len (node_key t) l.key))
  unfolding split new_parent
  split-Outcome = elim (insert-total s (leaf_node l) count alloc refl) [
    | inl full ↦ rw full.0 (
        is_full s
          (record { reads = λ k. refl; alloc = alloc; same_root = refl; same_leaves = refl })
          (NoRoom-Full s (leaf_node l) count alloc full))
    | inr (a, s₁, f) ↦
        elim (insert-total s₁ (node_of t) (suc count) (f.writes).alloc (live-node_of t)) [
          | inl full ↦
              let read = Writes-self s s₁ a (suc count) (some (leaf_node l)) f.writes in
              let (u, removed, x) = remove-Writes s₁ a count (leaf_node l) (f.writes).alloc read in
              rw (f.inserts, full.0, removed)
                (is_full u (undone s s₁ u a count (leaf_node l) f.fresh f.writes x)
                  (again_Full s s₁ (node_of t) count (f.writes).alloc (f.writes).same_size full))
          | inr (m, s₂, g) ↦
              let shared = shared_prefix_len (node_key t) l.key in
              let h = handle t in
              let kept =
                Writes-fresh s s₁ a (suc count) (some (leaf_node l)) f.writes h (node_of t) f.fresh
                  (Rep-root s t r) in
              let read =
                Writes-fresh s₁ s₂ m (suc (suc count)) (some (node_of t)) g.writes h (node_of t)
                  g.fresh kept in
              let (s₃, wrote, w) =
                put-Writes s₂ h (suc (suc count)) (node_of t)
                  (inner_node (parent_node shared l a m)) (g.writes).alloc read refl in
              let (becomes, one_more, leaf_read) = split-Becomes a m s₁ s₂ s₃ f g w in
              let (listed, new_key) = split-leaves l p q t i le keyed e short a m in
              rw (f.inserts, g.inserts, wrote)
                (is_new a
                  (record s₃ { header = record s₃.header { leaf_count = add64 s₃.leaf_count 1 } })
                  (split_trie l p q t i le keyed e short a m) becomes listed new_key one_more
                  leaf_read)
        ]
  ]
