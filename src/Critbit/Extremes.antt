-- ===== src/Critbit/Extremes.antt =====
-- `find_min` and `find_max` of dex/src/critbit.rs on a slab as the sorted list of its orders, and a write
-- to the order that they find.
use mathlib.Core.List.{append_assoc}
use openbook_dex.Prelude.{
  ℕ, zero, suc, ◌+◌, ◌≤◌, ◌<◌, ◌≡◌, refl, sym, ap, ◌∙◌, ◌⊎◌, inl, inr, Bool, true, false, List, ◌∷◌,
  [], ◌++◌, Option, none, some, arith, length, length-append,
}
use openbook_dex.Error.{DexResult, ok}
use openbook_dex.Critbit.Node.{LeafNode, leaf_node, case, child}
use openbook_dex.Critbit.Alloc.{Slab, get, put}
use openbook_dex.Critbit.Find.{path_fuel, view_at, find_min_max_from, find_min_max}
use openbook_dex.Critbit.Free.{IsAlloc, put-Writes, Writes-self, Writes-other}
use openbook_dex.Critbit.Prefix.{top}
use openbook_dex.Critbit.Trie.{Trie, tip, fork, handle, leaves, Rep, IsTrie, under}
use openbook_dex.Critbit.Branch.{join}
use openbook_dex.Critbit.Moves.{Becomes}
use openbook_dex.Critbit.Grow.{root_Lies}
use openbook_dex.Critbit.Descent.{Becomes-branch}
use openbook_dex.Critbit.Book.{Holds, no_orders, holds_trie, leaves-pos, root-none, root-some}

-- A write of a leaf with the same key, at the end of the trie.
abbrev Edits : Slab → Bool → ℕ → ℕ → Trie → ℕ → ℕ → LeafNode → List LeafNode → LeafNode → Type 0
Edits s b p q t count h l rest l' =
    (u : Slab) × (t' : Trie) × (put s h (leaf_node l') ≡ ok u)
    × Becomes s p q t u t' count
    × (leaves t' ≡ join b (l' ∷ []) rest)
    × (u.leaf_count ≡ s.leaf_count)

-- The end of a trie on a side: what the walk finds.
record End (s : Slab) (b : Bool) (p q : ℕ) (t : Trie) (count : ℕ) (r : DexResult ℕ) : Type 0 where
  pub at : ℕ
  pub order : LeafNode
  pub rest : List LeafNode
  pub found : r ≡ ok at
  pub reads : get s at ≡ some (leaf_node order)
  pub ends : leaves t ≡ join b (order ∷ []) rest
  pub edit : (l' : LeafNode) → l'.key ≡ order.key → Edits s b p q t count at order rest l'

tip_edit :
    (s : Slab) (b : Bool) (p q h count : ℕ) (l l' : LeafNode)
    → IsTrie p q (tip h l)
    → Rep s (tip h l)
    → IsAlloc s count
    → l'.key ≡ l.key
    → Edits s b p q (tip h l) count h l [] l'
tip_edit s b p q h count l l' i r a same =
    let (u, wrote, w) = put-Writes s h count (leaf_node l) (leaf_node l') a r refl in
    (
      u,
      tip h l',
      wrote,
      record {
        shape = (omega arith, ap (top p) same ∙ i.1);
        rep = Writes-self s u h count (some (leaf_node l')) w;
        same_handle = refl;
        frame = λ k v f outside.
            Writes-other s u h count (some (leaf_node l')) w k
              (λ z. outside (root_Lies s p q (tip h l) k v i r f z))
            ∙ f;
        alloc = w.alloc;
        same_root = w.same_root;
      },
      alone b l',
      w.same_leaves,
    )
  where
    alone : (b : Bool) (l : LeafNode) → l ∷ [] ≡ join b (l ∷ []) []
    alone true l = refl
    alone false l = refl

find_min_max_from-End :
    (fuel : ℕ) (s : Slab) (b : Bool) (p q : ℕ) (t : Trie) (count : ℕ)
    → IsTrie p q t
    → Rep s t
    → IsAlloc s count
    → p ≤ 128
    → 128 < fuel + p
    → End s b p q t count (find_min_max_from fuel s b (handle t))
unfolding find_min_max_from view_at case child
find_min_max_from-End zero s b p q t count i r a le enough = absurd (omega arith)
find_min_max_from-End (suc fuel) s true p q (tip h l) count i r a le enough = record {
  at = h;
  order = l;
  rest = [];
  found = rw r refl;
  reads = r;
  ends = refl;
  edit = λ l' same. tip_edit s true p q h count l l' i r a same;
}
find_min_max_from-End (suc fuel) s false p q (tip h l) count i r a le enough = record {
  at = h;
  order = l;
  rest = [];
  found = rw r refl;
  reads = r;
  ends = refl;
  edit = λ l' same. tip_edit s false p q h count l l' i r a same;
}
find_min_max_from-End (suc fuel) s false p q (fork h n x y) count (low, up, key, e, i, j)
      (r, c, d, rx, ry) a le enough =
    let g =
      find_min_max_from-End fuel s false (suc n.prefix_len) (under n false) x count i rx a
        (omega arith) (omega arith) in
    record {
      at = g.at;
      order = g.order;
      rest = g.rest ++ leaves y;
      found = rw (r, c) g.found;
      reads = g.reads;
      ends = ap (λ ls. ls ++ leaves y) g.ends;
      edit = λ l' same.
          (let (u, t', wrote, b, listed, kept) = g.edit l' same in
            (
              u,
              fork h n t' y,
              wrote,
              Becomes-branch s p q h n false x y low up key e j r c d ry u t' count b,
              ap (λ ls. ls ++ leaves y) listed,
              kept,
            ));
    }
find_min_max_from-End (suc fuel) s true p q (fork h n x y) count (low, up, key, e, i, j)
      (r, c, d, rx, ry) a le enough =
    let g =
      find_min_max_from-End fuel s true (suc n.prefix_len) (under n true) y count j ry a
        (omega arith) (omega arith) in
    let shift = λ (ls : List LeafNode). append_assoc (leaves x) g.rest ls in
    record {
      at = g.at;
      order = g.order;
      rest = leaves x ++ g.rest;
      found = rw (r, d) g.found;
      reads = g.reads;
      ends = ap (λ ls. leaves x ++ ls) g.ends ∙ sym (shift (g.order ∷ []));
      edit = λ l' same.
          (let (u, t', wrote, b, listed, kept) = g.edit l' same in
            (
              u,
              fork h n x t',
              wrote,
              Becomes-branch s p q h n true y x low up key e i r d c rx u t' count b,
              ap (λ ls. leaves x ++ ls) listed ∙ sym (shift (l' ∷ [])),
              kept,
            ));
    }

-- What `find_min_max` finds in a slab that holds `ls`.
abbrev pub EndSpec : Slab → Bool → List LeafNode → DexResult (Option ℕ) → Type 0
EndSpec s find_max ls r =
    ((r ≡ ok none) × (ls ≡ []))
    ⊎ ((h : ℕ) × (l : LeafNode) × (rest : List LeafNode) × (r ≡ ok (some h))
        × (get s h ≡ some (leaf_node l))
        × (ls ≡ join find_max (l ∷ []) rest)
        × ((l' : LeafNode)
            → l'.key ≡ l.key
            → (u : Slab) × (put s h (leaf_node l') ≡ ok u)
              × Holds u (join find_max (l' ∷ []) rest)))

length-join :
    (b : Bool) (l l' : LeafNode) (rest : List LeafNode)
    → length (join b (l ∷ []) rest) ≡ length (join b (l' ∷ []) rest)
length-join false l l' rest = refl
length-join true l l' rest =
    omega (arith, length-append rest (l ∷ []), length-append rest (l' ∷ []))

-- `find_min_max` on a slab that holds a list of orders, sorted by key, never panics: it finds
-- nothing just where the list is empty, and else a handle that reads the first order of the list,
-- or the last where the greatest key is asked for; an order of the same key that is written at that
-- handle takes its place in the list that the slab holds.
pub find_min_max_lem :
    (s : Slab) (find_max : Bool) (ls : List LeafNode)
    → Holds s ls
    → EndSpec s find_max ls (find_min_max s find_max)
unfolding find_min_max
find_min_max_lem s b ls (no_orders e z a) = inl (rw (root-none s z, find_min_max) refl, e)
find_min_max_lem s b ls (holds_trie t count e i rep at a size leaf_count) =
    let here = ap length e in
    let top_node = root-some s (λ z. absurd (omega (arith, leaves-pos t))) ∙ ap some (sym at) in
    let g = find_min_max_from-End path_fuel s b 0 0 t count i rep a (omega arith) (omega arith) in
    let ends = sym e ∙ g.ends in
    inr (
      g.at,
      g.order,
      g.rest,
      rw (top_node, find_min_max, g.found) refl,
      g.reads,
      ends,
      λ l' same.
          (let (u, t', wrote, c, listed, kept) = g.edit l' same in
            let long = length-join b g.order l' g.rest in
            let all = ap length ends in
            (
              u,
              wrote,
              holds_trie t' count listed c.shape c.rep (c.same_handle ∙ at ∙ sym c.same_root)
                  c.alloc (omega arith) (omega arith),
            )),
    )
