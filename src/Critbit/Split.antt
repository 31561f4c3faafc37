-- ===== src/Critbit/Split.antt =====
-- Where `insert_leaf` of dex/src/critbit.rs stops: the node that comes in above the new leaf and the node
-- that it parts from.
use mathlib.Core.List.{append-nil}
use openbook_dex.Prelude.{
  ℕ, suc, ◌+◌, ◌*◌, ◌≤◌, ◌<◌, ◌≡◌, ◌≢◌, refl, sym, ap, subst, ◌∙◌, inl, inr, Bool, true, false, not,
  List, ◌∷◌, [], none, arith, if◌then◌else◌, Bool-cases, u128_mod,
}
use openbook_dex.Critbit.Node.{InnerNode, LeafNode, crit_bit, shared_prefix_len, child}
use openbook_dex.Critbit.Prefix.{top, bit_of, top-crit_bit, shared_prefix_len_iff}
use openbook_dex.Critbit.Trie.{Trie, tip, handle, leaves, IsTrie}
use openbook_dex.Critbit.Sorted.{upsert, find_key}
use openbook_dex.Critbit.Branch.{
  branch, join, Beyond, branch-IsTrie, leaves-branch, IsTrie-Beyond, upsert-join, find_key-join,
}
use openbook_dex.Critbit.Moves.{
  node_key, reach, IsTrie-longer, moved_to, moved_to-leaves, moved_to-IsTrie, IsTrie-key, reach-le,
}

-- The node that comes in above the leaf and what was there.
abbrev pub parent_node : ℕ → LeafNode → ℕ → ℕ → InnerNode
parent_node shared l leaf_handle moved_handle =
    let b = crit_bit shared l.key in
    record {
      prefix_len = shared;
      key = l.key;
      child_0 = if b then moved_handle else leaf_handle;
      child_1 = if b then leaf_handle else moved_handle;
    }

pub parent-children :
    (shared : ℕ) (l : LeafNode) (a m : ℕ)
    → let n = parent_node shared l a m in
      let b = crit_bit shared l.key in (child n b ≡ a) × (child n (not b) ≡ m)
unfolding child
parent-children shared l a m = elim (Bool-cases (crit_bit shared l.key)) [
  | inl e ↦ rw e (refl, refl)
  | inr e ↦ rw e (refl, refl)
]

other_bit : (b c : Bool) → bit_of b ≢ bit_of c → bit_of c ≡ bit_of (not b)
other_bit true true n = absurd (n refl)
other_bit true false n = refl
other_bit false true n = refl
other_bit false false n = absurd (n refl)

pub join-nil : (b : Bool) (ls : List LeafNode) → join b [] ls ≡ ls
join-nil true ls = append-nil ls
join-nil false ls = refl

upsert-alone :
    (b : Bool) (l : LeafNode) (ls : List LeafNode)
    → Beyond b l.key ls
    → join b (l ∷ []) ls ≡ upsert l ls
unfolding upsert
upsert-alone b l ls a = sym (ap (upsert l) (sym (join-nil b ls)) ∙ upsert-join b l [] ls a)

find_key-alone : (b : Bool) (k : ℕ) (ls : List LeafNode) → Beyond b k ls → find_key k ls ≡ none
unfolding find_key
find_key-alone b k ls a = ap (find_key k) (sym (join-nil b ls)) ∙ find_key-join b k [] ls a

module _ (l : LeafNode) (p q : ℕ) (t : Trie) (i : IsTrie p q t) (le : p ≤ 128)
    (keyed : l.key < u128_mod) (e : top p l.key ≡ q)
    (short : shared_prefix_len (node_key t) l.key < reach t) where
  -- The new trie, its leaf at the handle `a` and the old node moved to `m`.
  abbrev pub split_trie : ℕ → ℕ → Trie
  split_trie a m =
      let shared = shared_prefix_len (node_key t) l.key in
      branch (crit_bit shared l.key) (handle t) (parent_node shared l a m) (tip a l) (moved_to m t)

  pub shared_facts :
      let shared = shared_prefix_len (node_key t) l.key in
      let b = crit_bit shared l.key in
      (p ≤ shared)
      × (shared < 128)
      × (top (suc shared) l.key ≡ 2 * top shared l.key + bit_of b)
      × (top (suc shared) (node_key t) ≡ 2 * top shared l.key + bit_of (not b))
  shared_facts =
      let (bound, prefix) = IsTrie-key p q t i in
      let shared = shared_prefix_len (node_key t) l.key in
      let longest = reach-le p q t i in
      let same =
        λ (r : ℕ) (h : r ≤ 128). shared_prefix_len_iff r (node_key t) l.key h bound keyed in
      let agree : top shared (node_key t) ≡ top shared l.key =
        (same shared (omega arith)).0 (omega arith) in
      let differ : top (suc shared) (node_key t) ≢ top (suc shared) l.key =
        λ d. (let more = (same (suc shared) (omega arith)).1 d in absurd (omega arith)) in
      let mine = top-crit_bit shared l.key (omega arith) in
      let its = top-crit_bit shared (node_key t) (omega arith) in
      (
        (same p le).1 (prefix ∙ sym e),
        omega arith,
        mine,
        omega (
          arith,
          other_bit (crit_bit shared l.key) (crit_bit shared (node_key t))
              (λ d. differ (omega arith)),
        ),
      )

  pub split-IsTrie : (a m : ℕ) → IsTrie p q (split_trie a m)
  split-IsTrie a m =
      let shared = shared_prefix_len (node_key t) l.key in
      let b = crit_bit shared l.key in
      let (low, up, mine, its) = shared_facts in
      branch-IsTrie b p q (handle t) (parent_node shared l a m) (tip a l) (moved_to m t) low up
        keyed e (keyed, mine)
        (subst (λ q. IsTrie (suc shared) q (moved_to m t)) its
          (moved_to-IsTrie m (suc shared) (top (suc shared) (node_key t)) t
            (IsTrie-longer p q (suc shared) t i (omega arith))))

  pub split-leaves :
      (a m : ℕ)
      → (leaves (split_trie a m) ≡ upsert l (leaves t)) × (find_key l.key (leaves t) ≡ none)
  split-leaves a m =
      let shared = shared_prefix_len (node_key t) l.key in
      let b = crit_bit shared l.key in
      let n = parent_node shared l a m in
      let (low, up, mine, its) = shared_facts in
      let t' = IsTrie-longer p q (suc shared) t i (omega arith) in
      let beyond = IsTrie-Beyond b n l.key t (subst (λ q. IsTrie (suc shared) q t) its t') mine in
      (
        leaves-branch b (handle t) n (tip a l) (moved_to m t)
            ∙ ap (join b (l ∷ [])) (moved_to-leaves m t)
            ∙ upsert-alone b l (leaves t) beyond,
        find_key-alone b l.key (leaves t) beyond,
      )
