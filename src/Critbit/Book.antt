-- ===== src/Critbit/Book.antt =====
-- A slab of dex/src/critbit.rs as the sorted list of its orders, and `insert_leaf` on it.
use openbook_dex.Prelude.{
  ℕ, suc, ◌+◌, ◌-◌, ◌*◌, ◌^◌, ◌<◌, ◌≡◌, ◌≢◌, refl, sym, ap, subst, ◌∙◌, ◌⊎◌, inl, inr, List, ◌∷◌,
  [], none, some, arith, ltb, ◌==◌, length, length-append, Bool-cases, add64-eq, u128_mod,
}
use openbook_dex.Error.{DexResult, ok}
use openbook_dex.Critbit.Node.{AnyNode, LeafNode, leaf_node}
use openbook_dex.Critbit.Alloc.{Slab, get}
use openbook_dex.Critbit.Find.{path_fuel, root}
use openbook_dex.Critbit.Insert.{
  Inserted, out_of_space, inserted, insert_root, insert_leaf_from, insert_leaf,
}
use openbook_dex.Critbit.Free.{IsAlloc, Writes-self, IsAlloc-header, get-header}
use openbook_dex.Critbit.Free.Insertion.{NoRoom, insert-total}
use openbook_dex.Critbit.Trie.{Trie, tip, fork, handle, leaves, Rep, IsTrie, All-imp, Rep-frame}
use openbook_dex.Critbit.Sorted.{upsert, find_key, IsSorted, Above, find_key-below}
use openbook_dex.Critbit.Branch.{IsTrie-IsSorted}
use openbook_dex.Critbit.Moves.{Outcome, is_full, is_new, is_old}
use openbook_dex.Critbit.Descent.{insert_leaf_from-Outcome}

-- The slab holds the orders `ls`, from left to right.
pub data Holds (s : Slab) (ls : List LeafNode) : Type 0 where
  no_orders : ls ≡ [] → s.leaf_count ≡ 0 → IsAlloc s 0 → Holds s ls
  holds_trie :
      (t : Trie) (count : ℕ)
      → leaves t ≡ ls
      → IsTrie 0 0 t
      → Rep s t
      → handle t ≡ s.root_node
      → IsAlloc s count
      → count + 1 ≡ 2 * length ls
      → s.leaf_count ≡ length ls
      → Holds s ls

pub leaves-pos : (t : Trie) → 0 < length (leaves t)
leaves-pos (tip h l) = omega arith
leaves-pos (fork h n x y) = omega (arith, length-append (leaves x) (leaves y), leaves-pos x)

length-upsert_new :
    (l : LeafNode) (ls : List LeafNode)
    → find_key l.key ls ≡ none
    → length (upsert l ls) ≡ suc (length ls)
unfolding upsert find_key
length-upsert_new l [] f = refl
length-upsert_new l (x ∷ xs) f = ground (arith, length-upsert_new l xs)

length-upsert_old :
    (l old : LeafNode) (ls : List LeafNode)
    → IsSorted ls
    → find_key l.key ls ≡ some old
    → length (upsert l ls) ≡ length ls
unfolding upsert find_key
length-upsert_old l old [] s f = absurd (cc)
length-upsert_old l old (x ∷ xs) s f = elim (Bool-cases (x.key == l.key)) [
  | inl e ↦ rw e refl
  | inr e ↦
      let later : find_key l.key xs ≡ some old = rw e at f in
      elim (Bool-cases (ltb l.key x.key)) [
        | inl lt ↦
            let above = All-imp (λ y. x.key < y.key) (Above l.key) xs (λ y h. ground arith) s.0 in
            let nowhere = find_key-below l.key [] xs above in absurd (cc)
        | inr ge ↦ rw (e, ge) (ap suc (length-upsert_old l old xs s.1 later))
      ]
]

-- What `insert_leaf` makes of a slab that holds `ls`.
abbrev pub InsertSpec : Slab → LeafNode → List LeafNode → DexResult (Inserted × Slab) → Type 0
InsertSpec s l ls r =
    ((u : Slab) × (r ≡ ok (out_of_space, u))
      × Holds u ls
      × ((length s.nodes < 2 * length ls + 1) ⊎ (2 ^ 32 - 1 < 2 * length ls + 1)))
    ⊎ ((h : ℕ) × (u : Slab) × (r ≡ ok (inserted h none, u))
        × Holds u (upsert l ls)
        × (find_key l.key ls ≡ none)
        × (get u h ≡ some (leaf_node l)))
    ⊎ ((h : ℕ) × (old : LeafNode) × (u : Slab) × (r ≡ ok (inserted h (some old), u))
        × Holds u (upsert l ls)
        × (find_key l.key ls ≡ some old)
        × (get u h ≡ some (leaf_node l)))

no_node :
    (s : Slab) (v : AnyNode) → IsAlloc s 0 → NoRoom s v → (length s.nodes < 1) ⊎ (2 ^ 32 - 1 < 1)
no_node s v a (e, f, inl g) = inl (omega arith)
no_node s v a (e, f, inr g) = absurd (omega arith)

root_insert :
    (s : Slab) (l : LeafNode)
    → IsAlloc s 0
    → l.key < u128_mod
    → s.leaf_count ≡ 0
    → InsertSpec s l [] (insert_root s l)
unfolding insert_root upsert find_key
root_insert s l a keyed z = elim (insert-total s (leaf_node l) 0 a refl) [
  | inl full ↦ inl (s, rw full.0 refl, no_orders refl z a, no_node s (leaf_node l) a full)
  | inr (h, t, f) ↦ inr (
      inl (
        h,
        record t { header = record t.header { root_node = h; leaf_count = 1 } },
        rw f.inserts refl,
        holds_trie (tip h l) 1 refl (keyed, omega arith)
            (get-header t h 1 h ∙ Writes-self s t h 1 (some (leaf_node l)) (f.writes)) refl
            (IsAlloc-header t 1 h 1 (f.writes).alloc) refl refl,
        refl,
        get-header t h 1 h ∙ Writes-self s t h 1 (some (leaf_node l)) (f.writes),
      ))
]

trie_insert :
    (s : Slab) (l : LeafNode) (t : Trie) (count : ℕ) (r : DexResult (Inserted × Slab))
    → IsTrie 0 0 t
    → Rep s t
    → handle t ≡ s.root_node
    → count + 1 ≡ 2 * length (leaves t)
    → s.leaf_count ≡ length (leaves t)
    → IsAlloc s count
    → Outcome s l 0 0 t count r
    → InsertSpec s l (leaves t) r
trie_insert s l t count r i rep at size leaf_count a (is_full u k f) = inl (
  u,
  refl,
  holds_trie t count refl i (Rep-frame s u 0 0 t i (λ h v g _. k.reads h ∙ g) rep)
      (at ∙ sym k.same_root) k.alloc size (k.same_leaves ∙ leaf_count),
  omega arith,
)
trie_insert s l t count r i rep at size leaf_count a (is_new h u t' g listed new more read) =
    let longer = length-upsert_new l (leaves t) new in
    inr (
      inl (
        h,
        u,
        refl,
        holds_trie t' (suc (suc count)) listed g.shape g.rep (g.same_handle ∙ at ∙ sym g.same_root)
            g.alloc (omega arith) (omega (arith, add64-eq s.leaf_count 1 (omega arith))),
        new,
        read,
      ))
trie_insert s l t count r i rep at size leaf_count a (is_old h old u t' g listed found same read) =
    let as_long = length-upsert_old l old (leaves t) (IsTrie-IsSorted 0 0 t i) found in
    inr (
      inr (
        h,
        old,
        u,
        refl,
        holds_trie t' count listed g.shape g.rep (g.same_handle ∙ at ∙ sym g.same_root) g.alloc
            (omega arith) (omega arith),
        found,
        read,
      ))

root-cases :
    (s : Slab)
    → ((s.leaf_count ≡ 0) × (root s ≡ none)) ⊎ ((s.leaf_count ≢ 0) × (root s ≡ some s.root_node))
unfolding root
root-cases s = elim (Bool-cases (s.leaf_count == 0)) [
  | inl e ↦ inl (ground arith, rw e refl)
  | inr e ↦ inr (ground arith, rw e refl)
]

pub root-none : (s : Slab) → s.leaf_count ≡ 0 → root s ≡ none
root-none s z = elim (root-cases s) [ inl f ↦ f.1 | inr f ↦ absurd (f.0 z) ]

pub root-some : (s : Slab) → s.leaf_count ≢ 0 → root s ≡ some s.root_node
root-some s z = elim (root-cases s) [ inl f ↦ absurd (z f.0) | inr f ↦ f.1 ]

-- `insert_leaf` on a slab that holds a list of orders, sorted by key, and an order with a `u128`
-- key, never panics. It is out of space, and the slab holds the same orders, only where the slab
-- has too few nodes for one order more, or more would need handles beyond `u32`; or it gives the
-- handle of the new order, and the slab holds the list with the order put where its key belongs, in
-- the place of the order that has the key, if one has, which is given back.
pub insert_leaf_lem :
    (s : Slab) (l : LeafNode) (ls : List LeafNode)
    → Holds s ls
    → l.key < u128_mod
    → InsertSpec s l ls (insert_leaf s l)
unfolding insert_leaf
insert_leaf_lem s l ls (no_orders e z a) keyed =
    let at = root-none s z in
    subst (λ ls. InsertSpec s l ls (insert_leaf s l)) (sym e)
      (rw (at, insert_leaf) (root_insert s l a keyed z))
insert_leaf_lem s l ls (holds_trie t count e i rep at a size leaf_count) keyed =
    let some_leaves = leaves-pos t in
    let here = ap length e in
    let top_node = root-some s (λ z. absurd (omega arith)) in
    let walked =
      subst (λ h. Outcome s l 0 0 t count (insert_leaf_from path_fuel s l h)) at
        (insert_leaf_from-Outcome path_fuel s l 0 0 t count i rep a (omega arith) (omega arith)
          keyed (omega arith)) in
    rw (top_node, insert_leaf)
      (subst (λ ls. InsertSpec s l ls (insert_leaf_from path_fuel s l s.root_node)) e
        (trie_insert s l t count (insert_leaf_from path_fuel s l s.root_node) i rep at (omega arith)
          (omega arith) a walked))
