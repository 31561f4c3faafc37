-- ===== src/Critbit/Branch.antt =====
-- A fork of a critbit tree of dex/src/critbit.rs, seen from the side that a walk down takes.
use openbook_dex.Prelude.{
  ℕ, suc, ◌≤◌, ◌<◌, ◌≡◌, refl, sym, ◌∙◌, Bool, true, false, not, List, ◌++◌, some, arith, u128_mod,
}
use openbook_dex.Critbit.Node.{
  AnyNode, InnerNode, LeafNode, uninitialized, inner_node, leaf_node, free_node, last_free_node,
  child,
}
use openbook_dex.Critbit.Alloc.{Slab, get}
use openbook_dex.Critbit.Prefix.{top}
use openbook_dex.Critbit.Trie.{
  Trie, fork, tip, handle, leaves, Rep, IsTrie, Lies, under, All, All-imp, HasPrefix, IsTrie-keys,
  top-lt,
}
use openbook_dex.Critbit.Sorted.{
  upsert, find_key, erase, IsSorted, Above, Below, upsert-below, upsert-above, find_key-below,
  find_key-above, erase-below, erase-above, IsSorted-append,
}

-- `c` is on the side `b` of the node and `d` on the other.
abbrev pub branch : Bool → ℕ → InnerNode → Trie → Trie → Trie
branch false h n c d = fork h n c d
branch true h n c d = fork h n d c

abbrev pub join : Bool → List LeafNode → List LeafNode → List LeafNode
join false xs ys = xs ++ ys
join true xs ys = ys ++ xs

pub leaves-branch :
    (b : Bool) (h : ℕ) (n : InnerNode) (c d : Trie)
    → leaves (branch b h n c d) ≡ join b (leaves c) (leaves d)
leaves-branch false h n c d = refl
leaves-branch true h n c d = refl

pub handle-branch : (b : Bool) (h : ℕ) (n : InnerNode) (c d : Trie) → handle (branch b h n c d) ≡ h
handle-branch false h n c d = refl
handle-branch true h n c d = refl

pub branch-IsTrie :
    (b : Bool) (p q h : ℕ) (n : InnerNode) (c d : Trie)
    → p ≤ n.prefix_len
    → n.prefix_len < 128
    → n.key < u128_mod
    → top p n.key ≡ q
    → IsTrie (suc n.prefix_len) (under n b) c
    → IsTrie (suc n.prefix_len) (under n (not b)) d
    → IsTrie p q (branch b h n c d)
branch-IsTrie false p q h n c d low up key e i j = (low, up, key, e, i, j)
branch-IsTrie true p q h n c d low up key e i j = (low, up, key, e, j, i)

pub branch-Rep :
    (b : Bool) (s : Slab) (h : ℕ) (n : InnerNode) (c d : Trie)
    → get s h ≡ some (inner_node n)
    → child n b ≡ handle c
    → child n (not b) ≡ handle d
    → Rep s c
    → Rep s d
    → Rep s (branch b h n c d)
unfolding child
branch-Rep false s h n c d g e f r k = (g, e, f, r, k)
branch-Rep true s h n c d g e f r k = (g, f, e, k, r)

-- No node lies on both sides.
pub Lies-unique : (p a b : ℕ) (v : AnyNode) → Lies p a v → Lies p b v → a ≡ b
Lies-unique p a b (inner_node n) x y = sym x.1 ∙ y.1
Lies-unique p a b (leaf_node l) x y = sym x ∙ y
Lies-unique p a b uninitialized x y = absurd x
Lies-unique p a b (free_node next) x y = absurd x
Lies-unique p a b (last_free_node next) x y = absurd x

pub sides-apart :
    (n : InnerNode) (b : Bool) (p : ℕ) (v : AnyNode)
    → Lies p (under n (not b)) v
    → Lies p (under n b) v
    → ⊥
sides-apart n false p v x y =
    absurd (omega (arith, Lies-unique p (under n true) (under n false) v x y))
sides-apart n true p v x y =
    absurd (omega (arith, Lies-unique p (under n false) (under n true) v x y))

-- The keys are all after `k`, which is on the side `b`, or all before it.
abbrev pub Beyond : Bool → ℕ → List LeafNode → Type 0
Beyond false k ls = All (Above k) ls
Beyond true k ls = All (Below k) ls

prefix-Above :
    (p a k : ℕ) (ls : List LeafNode) → top p k < a → All (HasPrefix p a) ls → All (Above k) ls
prefix-Above p a k ls h =
    All-imp (HasPrefix p a) (Above k) ls (λ l i. top-lt p k l.key (omega (arith, i.1)))

prefix-Below :
    (p a k : ℕ) (ls : List LeafNode) → a < top p k → All (HasPrefix p a) ls → All (Below k) ls
prefix-Below p a k ls h =
    All-imp (HasPrefix p a) (Below k) ls (λ l i. top-lt p l.key k (omega (arith, i.1)))

pub IsTrie-Beyond :
    (b : Bool) (n : InnerNode) (k : ℕ) (d : Trie)
    → IsTrie (suc n.prefix_len) (under n (not b)) d
    → top (suc n.prefix_len) k ≡ under n b
    → Beyond b k (leaves d)
IsTrie-Beyond false n k d i e =
    prefix-Above (suc n.prefix_len) (under n true) k (leaves d) (omega arith)
      (IsTrie-keys (suc n.prefix_len) (under n true) d i)
IsTrie-Beyond true n k d i e =
    prefix-Below (suc n.prefix_len) (under n false) k (leaves d) (omega arith)
      (IsTrie-keys (suc n.prefix_len) (under n false) d i)

pub upsert-join :
    (b : Bool) (l : LeafNode) (xs ys : List LeafNode)
    → Beyond b l.key ys
    → upsert l (join b xs ys) ≡ join b (upsert l xs) ys
upsert-join false l xs ys a = upsert-below l xs ys a
upsert-join true l xs ys a = upsert-above l ys xs a

pub find_key-join :
    (b : Bool) (k : ℕ) (xs ys : List LeafNode)
    → Beyond b k ys
    → find_key k (join b xs ys) ≡ find_key k xs
find_key-join false k xs ys a = find_key-below k xs ys a
find_key-join true k xs ys a = find_key-above k ys xs a

pub erase-join :
    (b : Bool) (k : ℕ) (xs ys : List LeafNode)
    → Beyond b k ys
    → erase k (join b xs ys) ≡ join b (erase k xs) ys
erase-join false k xs ys a = erase-below k xs ys a
erase-join true k xs ys a = erase-above k ys xs a

-- The leaves of a trie are in order.
pub IsTrie-IsSorted : (p q : ℕ) (t : Trie) → IsTrie p q t → IsSorted (leaves t)
IsTrie-IsSorted p q (tip h l) i = (tt, tt)
IsTrie-IsSorted p q (fork h n x y) (low, up, key, e, i, j) =
    IsSorted-append (leaves x) (leaves y)
      (All-imp (HasPrefix (suc n.prefix_len) (under n false)) (λ l. All (Above l.key) (leaves y))
        (leaves x) (λ l a. IsTrie-Beyond false n l.key y j a.1)
        (IsTrie-keys (suc n.prefix_len) (under n false) x i))
      (IsTrie-IsSorted (suc n.prefix_len) (under n false) x i)
      (IsTrie-IsSorted (suc n.prefix_len) (under n true) y j)
