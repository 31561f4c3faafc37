-- ===== src/Critbit/Unlink.antt =====
-- `remove_by_key` of dex/src/critbit.rs where it stops: the other child goes to the place of the parent.
use openbook_dex.Prelude.{
  ℕ, suc, ◌≤◌, ◌<◌, ◌≡◌, ◌≢◌, refl, sym, ap, subst, ◌∙◌, Bool, true, false, not, ◌∷◌, [], Option,
  none, some, arith, ◌==◌, if◌then◌else◌, sub64, u128_mod,
}
use openbook_dex.Error.{DexResult, ok, ◌>>=◌}
use openbook_dex.Critbit.Node.{
  AnyNode, InnerNode, LeafNode, inner_node, leaf_node, child, children, as_leaf,
}
use openbook_dex.Critbit.Alloc.{Slab, get}
use openbook_dex.Critbit.Remove.{unlink, other_child}
use openbook_dex.Critbit.Free.{
  IsAlloc, Writes, put-Writes, Writes-self, Writes-other, IsAlloc-header, get-header,
}
use openbook_dex.Critbit.Free.Removal.{remove-Writes}
use openbook_dex.Critbit.Prefix.{top}
use openbook_dex.Critbit.Trie.{
  Trie, tip, fork, handle, node_of, leaves, Rep, IsTrie, Lies, under, Rep-root, IsTrie-Lies,
  Lies-below, top-below,
}
use openbook_dex.Critbit.Sorted.{find_key, erase}
use openbook_dex.Critbit.Branch.{
  branch, join, leaves-branch, handle-branch, IsTrie-Beyond, erase-join, find_key-join, sides-apart,
}
use openbook_dex.Critbit.Moves.{
  Becomes, moved_to, moved_to-Rep, moved_to-leaves, moved_to-handle, moved_to-IsTrie, below-ne,
}
use openbook_dex.Critbit.Split.{join-nil}
use openbook_dex.Critbit.Grow.{live-node_of, root_Lies}

pub data Removed (s : Slab) (k p q : ℕ) (t : Trie) (count : ℕ)
    : DexResult (Option (LeafNode × Slab)) → Type 0 where
  absent : find_key k (leaves t) ≡ none → Removed s k p q t count (ok none)
  removed :
      (l : LeafNode) (u : Slab) (t' : Trie)
      → Becomes s p q t u t' count
      → leaves t' ≡ erase k (leaves t)
      → find_key k (leaves t) ≡ some l
      → u.leaf_count ≡ sub64 s.leaf_count 1
      → Removed s k p q t count (ok (some (l, u)))

-- What is on a side of a fork has the prefix of the whole.
IsTrie-above :
    (p q : ℕ) (n : InnerNode) (b : Bool) (t : Trie)
    → p ≤ n.prefix_len
    → n.prefix_len < 128
    → top p n.key ≡ q
    → IsTrie (suc n.prefix_len) (under n b) t
    → IsTrie p q t
IsTrie-above p q n b (tip h l) low up e (key, side) = (key, top-below p q l.key n b low up e side)
IsTrie-above p q n b (fork h m x y) low up e (low', up', key, side, i, j) =
    (omega arith, up', key, top-below p q m.key n b low up e side, i, j)

child-not : (n : InnerNode) (b : Bool) → (if b then n.child_0 else n.child_1) ≡ child n (not b)
unfolding child
child-not n true = refl
child-not n false = refl

module _ (s : Slab) (p q h a : ℕ) (n : InnerNode) (b : Bool) (l : LeafNode) (d : Trie) (count : ℕ)
    (low : p ≤ n.prefix_len) (up : n.prefix_len < 128) (key : n.key < u128_mod)
    (e : top p n.key ≡ q) (side : top (suc n.prefix_len) l.key ≡ under n b)
    (j : IsTrie (suc n.prefix_len) (under n (not b)) d) (read : get s h ≡ some (inner_node n))
    (at_c : child n b ≡ a) (at_d : child n (not b) ≡ handle d)
    (leaf_read : get s a ≡ some (leaf_node l)) (r : Rep s d)
    (alloc : IsAlloc s (suc (suc count))) where
  -- No node of the other side is at the handle of the leaf.
  away_from_leaf :
      (k : ℕ) (v : AnyNode) → get s k ≡ some v → Lies (suc n.prefix_len) (under n (not b)) v → k ≢ a
  away_from_leaf k v g lies same =
      let f = subst (λ i. get s i ≡ some v) same g in
      let it : v ≡ leaf_node l = cc in
      sides-apart n b (suc n.prefix_len) (leaf_node l)
        (subst (Lies (suc n.prefix_len) (under n (not b))) it lies) side

  unlink-Becomes :
      (s₁ s₂ u : Slab)
      → Writes s (handle d) none s₁ (suc count)
      → Writes s₁ h (some (node_of d)) s₂ (suc count)
      → let s₃ : Slab = record s₂ {
        header = record s₂.header { leaf_count = sub64 s₂.leaf_count 1 };
      } in
        Writes s₃ a none u count → Becomes s p q (branch b h n (tip a l) d) u (moved_to h d) count
  unfolding get
  unlink-Becomes s₁ s₂ u w₁ w₂ w₃ =
      let s₃ : Slab = record s₂ {
        header = record s₂.header { leaf_count = sub64 s₂.leaf_count 1 };
      } in
      let root = Rep-root s d r in
      let its = IsTrie-Lies (suc n.prefix_len) (under n (not b)) d j in
      let keeps =
        λ (k : ℕ) (v : AnyNode) (g : get s k ≡ some v) (x : k ≢ handle d) (y : k ≢ h) (z : k ≢ a).
          Writes-other s₃ u a count none w₃ k z
          ∙ Writes-other s₁ s₂ h (suc count) (some (node_of d)) w₂ k y
          ∙ Writes-other s s₁ (handle d) (suc count) none w₁ k x
          ∙ g in
      let apart : h ≢ a =
        λ same. (let f = subst (λ i. get s i ≡ some (inner_node n)) same read in cc) in
      let moved : get u h ≡ some (node_of d) =
        Writes-other s₃ u a count none w₃ h apart
        ∙ Writes-self s₁ s₂ h (suc count) (some (node_of d)) w₂ in
      record {
        shape = moved_to-IsTrie h p q d (IsTrie-above p q n (not b) d low up e j);
        rep = moved_to-Rep s u h (suc n.prefix_len) (under n (not b)) d j r moved (λ k v g lies x.
            keeps k v g x (below-ne s n h k (under n (not b)) v read g lies)
              (away_from_leaf k v g lies));
        same_handle = moved_to-handle h d ∙ sym (handle-branch b h n (tip a l) d);
        frame = λ k v g outside.
            keeps k v g
              (λ same. outside (
                Lies-below p q n (not b) v low up e
                  (root_Lies s (suc n.prefix_len) (under n (not b)) d k v j r g same)))
              (λ same.
                (let f = subst (λ i. get s i ≡ some v) same g in
                  let it : inner_node n ≡ v = cc in outside (subst (Lies p q) it (low, e))))
              (λ same.
                (let f = subst (λ i. get s i ≡ some v) same g in
                  let it : leaf_node l ≡ v = cc in
                  outside (subst (Lies p q) it (top-below p q l.key n b low up e side))));
        alloc = w₃.alloc;
        same_root = w₃.same_root ∙ w₂.same_root ∙ w₁.same_root;
      }

  erased :
      (leaves (moved_to h d) ≡ erase l.key (leaves (branch b h n (tip a l) d)))
      × (find_key l.key (leaves (branch b h n (tip a l) d)) ≡ some l)
  unfolding erase find_key
  erased =
      let beyond = IsTrie-Beyond b n l.key d j side in
      let same : (l.key == l.key) ≡ true = ground arith in
      let split = leaves-branch b h n (tip a l) d in
      let alone : erase l.key (l ∷ []) ≡ [] = rw same refl in
      let found : find_key l.key (l ∷ []) ≡ some l = rw same refl in
      (
        moved_to-leaves h d
            ∙ sym (join-nil b (leaves d))
            ∙ ap (λ ls. join b ls (leaves d)) (sym alone)
            ∙ sym (erase-join b l.key (l ∷ []) (leaves d) beyond)
            ∙ ap (erase l.key) (sym split),
        ap (find_key l.key) split ∙ find_key-join b l.key (l ∷ []) (leaves d) beyond ∙ found,
      )

  pub unlink-Removed :
      Removed s l.key p q
        (branch b h n (tip a l) d)
        count
        (unlink s (record { parent_h = h; child_h = a; crit = b }) >>= λ r. ok (some r))
  unfolding unlink children as_leaf other_child
  unlink-Removed =
      let root = Rep-root s d r in
      let its = IsTrie-Lies (suc n.prefix_len) (under n (not b)) d j in
      let other = child-not n b ∙ at_d in
      let off_parent = below-ne s n h (handle d) (under n (not b)) (node_of d) read root its in
      let off_leaf = away_from_leaf (handle d) (node_of d) root its in
      let apart : a ≢ h =
        λ same. (let f = subst (λ i. get s i ≡ some (leaf_node l)) same leaf_read in cc) in
      let (s₁, gone, w₁) = remove-Writes s (handle d) (suc count) (node_of d) alloc root in
      let parent : get s₁ h ≡ some (inner_node n) =
        Writes-other s s₁ (handle d) (suc count) none w₁ h (λ z. off_parent (sym z)) ∙ read in
      let (s₂, wrote, w₂) =
        put-Writes s₁ h (suc count) (inner_node n) (node_of d) w₁.alloc parent (live-node_of d) in
      let fewer = sub64 s₂.leaf_count 1 in
      let s₃ : Slab = record s₂ { header = record s₂.header { leaf_count = fewer } } in
      let last : get s₃ a ≡ some (leaf_node l) =
        get-header s₂ s₂.root_node fewer a
        ∙ Writes-other s₁ s₂ h (suc count) (some (node_of d)) w₂ a apart
        ∙ Writes-other s s₁ (handle d) (suc count) none w₁ a (λ z. off_leaf (sym z))
        ∙ leaf_read in
      let (u, freed, w₃) =
        remove-Writes s₃ a count (leaf_node l)
          (IsAlloc-header s₂ (suc count) s₂.root_node fewer w₂.alloc) last in
      rw (read, other, gone, wrote, freed)
        (removed l u (moved_to h d) (unlink-Becomes s₁ s₂ u w₁ w₂ w₃) erased.0 erased.1
          (w₃.same_leaves ∙ ap (λ n. sub64 n 1) (w₂.same_leaves ∙ w₁.same_leaves)))
