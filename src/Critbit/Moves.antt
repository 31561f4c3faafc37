-- ===== src/Critbit/Moves.antt =====
-- What may become of a part of the tree of dex/src/critbit.rs when a leaf comes in or goes; a node at
-- another handle.
use openbook_dex.Prelude.{
  ℕ, suc, ◌+◌, ◌-◌, ◌^◌, ◌≤◌, ◌<◌, ◌≡◌, ◌≢◌, refl, subst, ◌⊎◌, true, false, none, some, arith,
  length, add64, u128_mod,
}
use openbook_dex.Error.{DexResult, ok}
use openbook_dex.Critbit.Node.{AnyNode, InnerNode, LeafNode, inner_node, leaf_node}
use openbook_dex.Critbit.Alloc.{Slab, get}
use openbook_dex.Critbit.Insert.{Inserted, out_of_space, inserted}
use openbook_dex.Critbit.Free.{IsAlloc}
use openbook_dex.Critbit.Prefix.{top}
use openbook_dex.Critbit.Trie.{
  Trie, tip, fork, handle, node_of, leaves, Rep, IsTrie, Lies, under, Rep-frame, Lies-below,
}
use openbook_dex.Critbit.Sorted.{upsert, find_key}

-- A slab without room for two more nodes.
abbrev pub Full : Slab → ℕ → Type 0
Full s count = (length s.nodes < count + 2) ⊎ (2 ^ 32 - 1 < count + 2)

-- A slab that reads as before.
pub record Kept (s u : Slab) (count : ℕ) : Type 0 where
  pub reads : (k : ℕ) → get u k ≡ get s k
  pub alloc : IsAlloc u count
  pub same_root : u.root_node ≡ s.root_node
  pub same_leaves : u.leaf_count ≡ s.leaf_count

-- The trie `t` of `s`, with the prefix `q`, has become `t'` in `u`, and no other part has changed.
pub record Becomes (s : Slab) (p q : ℕ) (t : Trie) (u : Slab) (t' : Trie) (count : ℕ) : Type 0 where
  pub shape : IsTrie p q t'
  pub rep : Rep u t'
  pub same_handle : handle t' ≡ handle t
  pub frame : (k : ℕ) (v : AnyNode) → get s k ≡ some v → (Lies p q v → ⊥) → get u k ≡ some v
  pub alloc : IsAlloc u count
  pub same_root : u.root_node ≡ s.root_node

pub data Outcome (s : Slab) (l : LeafNode) (p q : ℕ) (t : Trie) (count : ℕ)
    : DexResult (Inserted × Slab) → Type 0 where
  is_full :
      (u : Slab) → Kept s u count → Full s count → Outcome s l p q t count (ok (out_of_space, u))
  is_new :
      (h : ℕ) (u : Slab) (t' : Trie)
      → Becomes s p q t u t' (suc (suc count))
      → leaves t' ≡ upsert l (leaves t)
      → find_key l.key (leaves t) ≡ none
      → u.leaf_count ≡ add64 s.leaf_count 1
      → get u h ≡ some (leaf_node l)
      → Outcome s l p q t count (ok (inserted h none, u))
  is_old :
      (h : ℕ) (old : LeafNode) (u : Slab) (t' : Trie)
      → Becomes s p q t u t' count
      → leaves t' ≡ upsert l (leaves t)
      → find_key l.key (leaves t) ≡ some old
      → u.leaf_count ≡ s.leaf_count
      → get u h ≡ some (leaf_node l)
      → Outcome s l p q t count (ok (inserted h (some old), u))

abbrev pub node_key : Trie → ℕ
node_key (tip h l) = l.key
node_key (fork h n x y) = n.key

abbrev pub reach : Trie → ℕ
reach (tip h l) = 128
reach (fork h n x y) = n.prefix_len

pub IsTrie-longer :
    (p q r : ℕ) (t : Trie) → IsTrie p q t → r ≤ reach t → IsTrie r (top r (node_key t)) t
IsTrie-longer p q r (tip h l) i le = (i.0, refl)
IsTrie-longer p q r (fork h n x y) (low, up, key, e, i, j) le = (le, up, key, refl, i, j)

-- The node moves to another handle.
abbrev pub moved_to : ℕ → Trie → Trie
moved_to m (tip h l) = tip m l
moved_to m (fork h n x y) = fork m n x y

pub moved_to-leaves : (m : ℕ) (t : Trie) → leaves (moved_to m t) ≡ leaves t
moved_to-leaves m (tip h l) = refl
moved_to-leaves m (fork h n x y) = refl

pub moved_to-handle : (m : ℕ) (t : Trie) → handle (moved_to m t) ≡ m
moved_to-handle m (tip h l) = refl
moved_to-handle m (fork h n x y) = refl

pub moved_to-IsTrie : (m p q : ℕ) (t : Trie) → IsTrie p q t → IsTrie p q (moved_to m t)
moved_to-IsTrie m p q (tip h l) i = i
moved_to-IsTrie m p q (fork h n x y) i = i

-- What lies below an inner node is elsewhere.
pub below-ne :
    (s : Slab) (n : InnerNode) (h k q : ℕ) (v : AnyNode)
    → get s h ≡ some (inner_node n)
    → get s k ≡ some v
    → Lies (suc n.prefix_len) q v
    → k ≢ h
below-ne s n h k q v g f l same =
    let read : get s h ≡ some v = subst (λ i. get s i ≡ some v) same f in
    let it : v ≡ inner_node n = cc in
    let impossible = subst (Lies (suc n.prefix_len) q) it l in absurd (omega arith)

-- The slab reads the node at `m`, and all that it read before but at the old handle.
pub moved_to-Rep :
    (s u : Slab) (m p q : ℕ) (t : Trie)
    → IsTrie p q t
    → Rep s t
    → get u m ≡ some (node_of t)
    → ((k : ℕ) (v : AnyNode) → get s k ≡ some v → Lies p q v → k ≢ handle t → get u k ≡ some v)
    → Rep u (moved_to m t)
moved_to-Rep s u m p q (tip h l) i r g f = g
moved_to-Rep s u m p q (fork h n x y) (low, up, key, e, i, j) (r, c, d, a, b) g f = (
  g,
  c,
  d,
  Rep-frame s u (suc n.prefix_len) (under n false) x i
      (λ k v g l.
        f k v g (Lies-below p q n false v low up e l) (below-ne s n h k (under n false) v r g l))
      a,
  Rep-frame s u (suc n.prefix_len) (under n true) y j
      (λ k v g l.
        f k v g (Lies-below p q n true v low up e l) (below-ne s n h k (under n true) v r g l))
      b,
)

pub IsTrie-key :
    (p q : ℕ) (t : Trie) → IsTrie p q t → (node_key t < u128_mod) × (top p (node_key t) ≡ q)
IsTrie-key p q (tip h l) i = i
IsTrie-key p q (fork h n x y) (low, up, key, e, i, j) = (key, e)

pub reach-le : (p q : ℕ) (t : Trie) → IsTrie p q t → reach t ≤ 128
reach-le p q (tip h l) i = omega arith
reach-le p q (fork h n x y) (low, up, key, e, i, j) = omega arith
