-- ===== src/Critbit/Trie.antt =====
-- What the nodes of a slab of dex/src/critbit.rs stand for: a binary trie over the bits of the keys,
-- whose leaves, from left to right, are the orders in rising order of their keys.
use native.Mathlib.Nat.{div-lt_iff_lt-mul, div-mul-le_self}
use openbook_dex.Prelude.{
  ℕ, zero, suc, ◌+◌, ◌-◌, ◌*◌, ◌/◌, ◌^◌, ◌≤◌, ◌<◌, ◌≡◌, sym, ap, subst, ◌∙◌, Bool, true, false,
  List, [], ◌∷◌, ◌++◌, some, arith, pow_pos, u128_mod,
}
use openbook_dex.Critbit.Node.{
  AnyNode, InnerNode, LeafNode, uninitialized, inner_node, leaf_node, free_node, last_free_node,
}
use openbook_dex.Critbit.Alloc.{Slab, get}
use openbook_dex.Critbit.Prefix.{top, bit_of, top-suc}

-- A trie, with the handle of each node.
pub data Trie : Type 0 where
  tip : ℕ → LeafNode → Trie
  fork : ℕ → InnerNode → Trie → Trie → Trie

abbrev pub handle : Trie → ℕ
handle (tip h l) = h
handle (fork h n x y) = h

abbrev pub node_of : Trie → AnyNode
node_of (tip h l) = leaf_node l
node_of (fork h n x y) = inner_node n

abbrev pub leaves : Trie → List LeafNode
leaves (tip h l) = l ∷ []
leaves (fork h n x y) = leaves x ++ leaves y

-- The slab holds the trie.
abbrev pub Rep : Slab → Trie → Type 0
Rep s (tip h l) = get s h ≡ some (leaf_node l)
Rep s (fork h n x y) =
    (get s h ≡ some (inner_node n))
    × (n.child_0 ≡ handle x)
    × (n.child_1 ≡ handle y)
    × Rep s x
    × Rep s y

-- The prefix of an inner node with one more bit: that of the keys on one side of it.
abbrev pub under : InnerNode → Bool → ℕ
under n b = 2 * top n.prefix_len n.key + bit_of b

-- The keys have the first `p` bits `q`, and each fork is at the first bit in which its keys differ.
abbrev pub IsTrie : ℕ → ℕ → Trie → Type 0
IsTrie p q (tip h l) = (l.key < u128_mod) × (top p l.key ≡ q)
IsTrie p q (fork h n x y) =
    (p ≤ n.prefix_len)
    × (n.prefix_len < 128)
    × (n.key < u128_mod)
    × (top p n.key ≡ q)
    × IsTrie (suc n.prefix_len) (under n false) x
    × IsTrie (suc n.prefix_len) (under n true) y

-- A node that may stand in such a trie.
abbrev pub Lies : ℕ → ℕ → AnyNode → Type 0
Lies p q (inner_node n) = (p ≤ n.prefix_len) × (top p n.key ≡ q)
Lies p q (leaf_node l) = top p l.key ≡ q
Lies p q uninitialized = ⊥
Lies p q (free_node next) = ⊥
Lies p q (last_free_node next) = ⊥

abbrev pub All {ℓ} : (LeafNode → Type ℓ) → List LeafNode → Type ℓ
All P [] = Unit
All P (l ∷ ls) = P l × All P ls

pub All-append {ℓ} :
    (P : LeafNode → Type ℓ) (xs ys : List LeafNode) → All P xs → All P ys → All P (xs ++ ys)
All-append P [] ys a b = b
All-append P (x ∷ xs) ys a b = (a.0, All-append P xs ys a.1 b)

pub All-imp {ℓ κ} :
    (P : LeafNode → Type ℓ) (Q : LeafNode → Type κ) (xs : List LeafNode)
    → ((l : LeafNode) → P l → Q l)
    → All P xs
    → All Q xs
All-imp P Q [] f a = tt
All-imp P Q (x ∷ xs) f a = (f x a.0, All-imp P Q xs f a.1)

-- A shorter prefix is shared where a longer one is.
pub top-shorter : (r p a b : ℕ) → r + p ≤ 128 → top (r + p) a ≡ top (r + p) b → top p a ≡ top p b
top-shorter zero p a b h e = let z : 0 + p ≡ p = omega arith in rw z at e
top-shorter (suc r) p a b h e =
    let shift : suc r + p ≡ suc (r + p) = omega arith in
    let longer : top (suc (r + p)) a ≡ top (suc (r + p)) b = rw shift at e in
    top-shorter r p a b (omega arith) (
      top-suc (r + p) a (omega arith)
      ∙ ap (λ n. n / 2) longer
      ∙ sym (top-suc (r + p) b (omega arith)))

pub top-le : (p r a b : ℕ) → p ≤ r → r ≤ 128 → top r a ≡ top r b → top p a ≡ top p b
top-le p r a b h k e =
    let sum : r ≡ (r - p) + p = omega arith in
    top-shorter (r - p) p a b (omega arith) (subst (λ n. top n a ≡ top n b) sum e)

bit_of-lt : (b : Bool) → bit_of b < 2
bit_of-lt true = omega arith
bit_of-lt false = omega arith

-- A key on either side of a fork has its prefix.
pub top-below :
    (p q key : ℕ) (n : InnerNode) (b : Bool)
    → p ≤ n.prefix_len
    → n.prefix_len < 128
    → top p n.key ≡ q
    → top (suc n.prefix_len) key ≡ under n b
    → top p key ≡ q
top-below p q key n b h k e s =
    let same : top n.prefix_len key ≡ top n.prefix_len n.key =
      omega (arith, top-suc n.prefix_len key k, bit_of-lt b) in
    top-le p n.prefix_len key n.key h (omega arith) same ∙ e

pub Lies-below :
    (p q : ℕ) (n : InnerNode) (b : Bool) (v : AnyNode)
    → p ≤ n.prefix_len
    → n.prefix_len < 128
    → top p n.key ≡ q
    → Lies (suc n.prefix_len) (under n b) v
    → Lies p q v
Lies-below p q n b (inner_node m) h k e (longer, s) = (omega arith, top-below p q m.key n b h k e s)
Lies-below p q n b (leaf_node l) h k e s = top-below p q l.key n b h k e s
Lies-below p q n b uninitialized h k e s = s
Lies-below p q n b (free_node next) h k e s = s
Lies-below p q n b (last_free_node next) h k e s = s

pub IsTrie-Lies : (p q : ℕ) (t : Trie) → IsTrie p q t → Lies p q (node_of t)
IsTrie-Lies p q (tip h l) i = i.1
IsTrie-Lies p q (fork h n x y) i = (i.0, i.3)

pub Rep-root : (s : Slab) (t : Trie) → Rep s t → get s (handle t) ≡ some (node_of t)
Rep-root s (tip h l) r = r
Rep-root s (fork h n x y) r = r.0

-- A slab that reads the nodes of a prefix as another does holds what that holds there.
pub Rep-frame :
    (s u : Slab) (p q : ℕ) (t : Trie)
    → IsTrie p q t
    → ((k : ℕ) (v : AnyNode) → get s k ≡ some v → Lies p q v → get u k ≡ some v)
    → Rep s t
    → Rep u t
Rep-frame s u p q (tip h l) i f r = f h (leaf_node l) r i.1
Rep-frame s u p q (fork h n x y) (low, up, key, e, i, j) f (r, c, d, a, b) = (
  f h (inner_node n) r (low, e),
  c,
  d,
  Rep-frame s u (suc n.prefix_len) (under n false) x i
      (λ k v g l. f k v g (Lies-below p q n false v low up e l)) a,
  Rep-frame s u (suc n.prefix_len) (under n true) y j
      (λ k v g l. f k v g (Lies-below p q n true v low up e l)) b,
)

-- All the keys have the prefix.
abbrev pub HasPrefix : ℕ → ℕ → LeafNode → Type 0
HasPrefix p q l = (l.key < u128_mod) × (top p l.key ≡ q)

pub All-below :
    (p q : ℕ) (n : InnerNode) (b : Bool) (ls : List LeafNode)
    → p ≤ n.prefix_len
    → n.prefix_len < 128
    → top p n.key ≡ q
    → All (HasPrefix (suc n.prefix_len) (under n b)) ls
    → All (HasPrefix p q) ls
All-below p q n b ls low up e a =
    All-imp (HasPrefix (suc n.prefix_len) (under n b)) (HasPrefix p q) ls
      (λ l k. (k.0, top-below p q l.key n b low up e k.1)) a

pub IsTrie-keys : (p q : ℕ) (t : Trie) → IsTrie p q t → All (HasPrefix p q) (leaves t)
IsTrie-keys p q (tip h l) i = (i, tt)
IsTrie-keys p q (fork h n x y) (low, up, key, e, i, j) =
    All-append (HasPrefix p q) (leaves x) (leaves y)
      (All-below p q n false (leaves x) low up e
        (IsTrie-keys (suc n.prefix_len) (under n false) x i))
      (All-below p q n true (leaves y) low up e (IsTrie-keys (suc n.prefix_len) (under n true) y j))

-- The order of two keys is that of their prefixes.
pub top-lt : (p a b : ℕ) → top p a < top p b → a < b
top-lt p a b h =
    let width = 2 ^ (128 - p) in
    let below = (div-lt_iff_lt-mul {x = a} {y = b / width} (pow_pos (128 - p))).0 h in
    omega (arith, div-mul-le_self b width)
