-- ===== src/Critbit/Ends.antt =====
-- `remove_min` and `remove_max` of dex/src/critbit.rs on a slab as the sorted list of its orders, and a
-- slab that was never used.
use mathlib.Core.List.{append-nil}
use openbook_dex.Prelude.{
  ℕ, zero, suc, ◌<◌, ◌≡◌, refl, sym, ap, subst, ◌∙◌, ◌⊎◌, inl, inr, Bool, true, false, List, ◌∷◌,
  [], ◌++◌, Option, none, some, arith, ◌==◌, replicate, u128_mod,
}
use openbook_dex.Error.{DexResult, ok, ◌>>=◌}
use openbook_dex.Critbit.Node
use openbook_dex.Critbit.Node.{AnyNode, LeafNode, leaf_node, uninitialized, case}
use openbook_dex.Critbit.Alloc.{Slab, get}
use openbook_dex.Critbit.Find.{find_min_max, find_min, find_max}
use openbook_dex.Critbit.Remove.{remove_by_key, remove_at, remove_min, remove_max}
use openbook_dex.Critbit.Trie.{All, All-imp, HasPrefix, IsTrie-keys}
use openbook_dex.Critbit.Sorted.{find_key, erase, IsSorted, Below, erase-above, find_key-above}
use openbook_dex.Critbit.Branch.{join, IsTrie-IsSorted}
use openbook_dex.Critbit.Book.{Holds, no_orders, holds_trie}
use openbook_dex.Critbit.Delete.{remove_by_key_lem}
use openbook_dex.Critbit.Extremes.{find_min_max_lem}

pub Holds-IsSorted : (s : Slab) (ls : List LeafNode) → Holds s ls → IsSorted ls
Holds-IsSorted s ls (no_orders e z a) = rw e tt
Holds-IsSorted s ls (holds_trie t count e i rep at a size leaf_count) =
    subst IsSorted e (IsTrie-IsSorted 0 0 t i)

-- The keys are `u128`s.
pub Holds-words : (s : Slab) (ls : List LeafNode) → Holds s ls → All (λ l. l.key < u128_mod) ls
Holds-words s ls (no_orders e z a) = rw e tt
Holds-words s ls (holds_trie t count e i rep at a size leaf_count) =
    subst (All (λ l. l.key < u128_mod)) e
      (All-imp (HasPrefix 0 0) (λ l. l.key < u128_mod) _ (λ l h. h.0) (IsTrie-keys 0 0 t i))

pub sorted-last :
    (xs : List LeafNode) (l : LeafNode) → IsSorted (xs ++ l ∷ []) → All (Below l.key) xs
sorted-last [] l s = tt
sorted-last (x ∷ xs) l (above, s) = (last_of xs above, sorted-last xs l s)
  where
    last_of : (ys : List LeafNode) → All (λ y. x.key < y.key) (ys ++ l ∷ []) → x.key < l.key
    last_of [] a = a.0
    last_of (y ∷ ys) a = last_of ys a.1

end-erase :
    (b : Bool) (l : LeafNode) (rest : List LeafNode)
    → IsSorted (join b (l ∷ []) rest)
    → (erase l.key (join b (l ∷ []) rest) ≡ rest) × (find_key l.key (join b (l ∷ []) rest) ≡ some l)
unfolding erase find_key
end-erase false l rest s =
    let same : (l.key == l.key) ≡ true = ground arith in (rw same refl, rw same refl)
end-erase true l rest s =
    let same : (l.key == l.key) ≡ true = ground arith in
    let below = sorted-last rest l s in
    let alone : erase l.key (l ∷ []) ≡ [] = rw same refl in
    let found : find_key l.key (l ∷ []) ≡ some l = rw same refl in
    (
      erase-above l.key rest (l ∷ []) below ∙ ap (λ ls. rest ++ ls) alone ∙ append-nil rest,
      find_key-above l.key rest (l ∷ []) below ∙ found,
    )

-- The first order is taken out, or the last.
abbrev pub TakesEnd : Bool → List LeafNode → DexResult (Option (LeafNode × Slab)) → Type 0
TakesEnd b ls r =
    ((r ≡ ok none) × (ls ≡ []))
    ⊎ ((l : LeafNode) × (u : Slab) × (rest : List LeafNode) × (r ≡ ok (some (l, u)))
        × (ls ≡ join b (l ∷ []) rest)
        × Holds u rest)

remove_at-key :
    (s : Slab) (h : ℕ) (l : LeafNode)
    → get s h ≡ some (leaf_node l)
    → remove_at s (some h) ≡ remove_by_key s l.key
unfolding remove_at Node.key case
remove_at-key s h l read = rw (read, remove_at) refl

remove_end :
    (s : Slab) (b : Bool) (ls : List LeafNode)
    → Holds s ls
    → TakesEnd b ls (find_min_max s b >>= λ h. remove_at s h)
unfolding remove_at
remove_end s b ls held = elim (find_min_max_lem s b ls held) [
  | inl f ↦ inl (rw f.0 refl, f.1)
  | inr (h, l, rest, found, read, ends, edit) ↦
      let sorted = subst IsSorted ends (Holds-IsSorted s ls held) in
      let (erased, has) = end-erase b l rest sorted in
      elim (remove_by_key_lem s l.key ls held) [
        | inl g ↦
            absurd (let has' : find_key l.key ls ≡ some l = ap (find_key l.key) ends ∙ has in cc)
        | inr (m, u, taken, found', held') ↦
            let it : m ≡ l =
              (let has' : find_key l.key ls ≡ some l = ap (find_key l.key) ends ∙ has in cc) in
            inr (
              m,
              u,
              rest,
              ap (λ r. r >>= remove_at s) found ∙ remove_at-key s h l read ∙ taken,
              ends ∙ ap (λ l. join b (l ∷ []) rest) (sym it),
              subst (Holds u) (ap (erase l.key) ends ∙ erased) held',
            )
      ]
]

pub remove_min_lem : (s : Slab) (ls : List LeafNode) → Holds s ls → TakesEnd false ls (remove_min s)
unfolding remove_min find_min
remove_min_lem s ls held = remove_end s false ls held

pub remove_max_lem : (s : Slab) (ls : List LeafNode) → Holds s ls → TakesEnd true ls (remove_max s)
unfolding remove_max find_max
remove_max_lem s ls held = remove_end s true ls held

-- The slab of a new account.
abbrev pub unused_slab : ℕ → Slab
unused_slab n = record {
  header = record {
    bump_index = 0;
    free_list_len = 0;
    free_list_head = 0;
    root_node = 0;
    leaf_count = 0;
  };
  nodes = replicate n uninitialized;
}

unused-none : (n k : ℕ) → get (unused_slab n) k ≡ none
unfolding get
unused-none zero k = refl
unused-none (suc n) zero = refl
unused-none (suc n) (suc k) = unused-none n k

pub unused_slab-Holds : (n : ℕ) → Holds (unused_slab n) []
unused_slab-Holds n = no_orders refl refl (record {
  counted = refl;
  within = omega arith;
  word = omega arith;
  unborn = λ k h. unused-none n k;
  free = tt;
})
