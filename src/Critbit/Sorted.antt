-- ===== src/Critbit/Sorted.antt =====
-- What a critbit tree of dex/src/critbit.rs is for: a list of orders in strictly rising order of their
-- keys, with an order inserted, removed or looked up by its key.
use openbook_dex.Prelude.{
  ℕ, ◌<◌, ◌≡◌, refl, List, [], ◌∷◌, ◌++◌, Option, none, some, arith, ltb, ◌==◌, if◌then◌else◌,
}
use openbook_dex.Critbit.Node.{LeafNode}
use openbook_dex.Critbit.Trie.{All, All-append}

-- The order with the key of `l` is replaced, or `l` comes in before the first greater key.
unfoldable pub upsert : LeafNode → List LeafNode → List LeafNode
upsert l [] = l ∷ []
upsert l (x ∷ xs) =
    if x.key == l.key then l ∷ xs else if ltb l.key x.key then l ∷ x ∷ xs else x ∷ upsert l xs

unfoldable pub find_key : ℕ → List LeafNode → Option LeafNode
find_key k [] = none
find_key k (x ∷ xs) = if x.key == k then some x else find_key k xs

unfoldable pub erase : ℕ → List LeafNode → List LeafNode
erase k [] = []
erase k (x ∷ xs) = if x.key == k then xs else x ∷ erase k xs

abbrev pub IsSorted : List LeafNode → Type 0
IsSorted [] = Unit {0}
IsSorted (x ∷ xs) = All (λ y. x.key < y.key) xs × IsSorted xs

abbrev pub Above : ℕ → LeafNode → Type 0
Above k l = k < l.key

abbrev pub Below : ℕ → LeafNode → Type 0
Below k l = l.key < k

pub upsert-below :
    (l : LeafNode) (xs ys : List LeafNode)
    → All (Above l.key) ys
    → upsert l (xs ++ ys) ≡ upsert l xs ++ ys
unfolding upsert
upsert-below l [] [] a = refl
upsert-below l [] (y ∷ ys) a = ground arith
upsert-below l (x ∷ xs) ys a = ground (arith, upsert-below l xs ys a)

pub upsert-above :
    (l : LeafNode) (xs ys : List LeafNode)
    → All (Below l.key) xs
    → upsert l (xs ++ ys) ≡ xs ++ upsert l ys
unfolding upsert
upsert-above l [] ys a = refl
upsert-above l (x ∷ xs) ys a = ground (arith, upsert-above l xs ys a.1)

pub find_key-below :
    (k : ℕ) (xs ys : List LeafNode) → All (Above k) ys → find_key k (xs ++ ys) ≡ find_key k xs
unfolding find_key
find_key-below k [] [] a = refl
find_key-below k [] (y ∷ ys) a = ground (arith, find_key-below k [] ys a.1)
find_key-below k (x ∷ xs) ys a = ground (arith, find_key-below k xs ys a)

pub find_key-above :
    (k : ℕ) (xs ys : List LeafNode) → All (Below k) xs → find_key k (xs ++ ys) ≡ find_key k ys
unfolding find_key
find_key-above k [] ys a = refl
find_key-above k (x ∷ xs) ys a = ground (arith, find_key-above k xs ys a.1)

pub erase-below :
    (k : ℕ) (xs ys : List LeafNode) → All (Above k) ys → erase k (xs ++ ys) ≡ erase k xs ++ ys
unfolding erase
erase-below k [] [] a = refl
erase-below k [] (y ∷ ys) a = ground (arith, erase-below k [] ys a.1)
erase-below k (x ∷ xs) ys a = ground (arith, erase-below k xs ys a)

pub erase-above :
    (k : ℕ) (xs ys : List LeafNode) → All (Below k) xs → erase k (xs ++ ys) ≡ xs ++ erase k ys
unfolding erase
erase-above k [] ys a = refl
erase-above k (x ∷ xs) ys a = ground (arith, erase-above k xs ys a.1)

-- Two lists in order, the keys of one below those of the other.
pub IsSorted-append :
    (xs ys : List LeafNode)
    → All (λ x. All (Above x.key) ys) xs
    → IsSorted xs
    → IsSorted ys
    → IsSorted (xs ++ ys)
IsSorted-append [] ys a s t = t
IsSorted-append (x ∷ xs) ys a s t =
    (All-append (Above x.key) xs ys s.0 a.0, IsSorted-append xs ys a.1 s.1 t)
