-- ===== src/Critbit/Node.antt =====
-- The nodes of dex/src/critbit.rs and the bits of their keys. An `AnyNode` is a block of bytes with a
-- tag and the other node types are views of it: here a data type with a constructor for each tag.
use Prim.Native.Nat.{bit_and, bit_xor}
use openbook_dex.Prelude.{
  ℕ, zero, suc, ◌/◌, ◌^◌, Bool, true, false, not, Option, none, some, ◌==◌, if◌then◌else◌, u64_mod,
  ◌%◌,
}
use openbook_dex.Error.{DexResult, ok, ◌>>=◌, unwrap}
use openbook_dex.Fees.{FeeTier, tier_to_u8, tier_from_u8}
use openbook_dex.Types.{Address, non_zero}

pub record InnerNode : Type 0 where
  pub prefix_len : ℕ
  pub key : ℕ
  pub child_0 : ℕ
  pub child_1 : ℕ

pub record LeafNode : Type 0 where
  pub owner_slot : ℕ
  pub fee_tier : ℕ
  pub key : ℕ
  pub owner : Address
  pub quantity : ℕ
  pub client_order_id : ℕ

-- A free node holds the next handle of the free list; the last one's is not read.
pub data AnyNode : Type 0 where
  uninitialized : AnyNode
  inner_node : InnerNode → AnyNode
  leaf_node : LeafNode → AnyNode
  free_node : ℕ → AnyNode
  last_free_node : ℕ → AnyNode

pub data NodeRef : Type 0 where
  inner : InnerNode → NodeRef
  leaf : LeafNode → NodeRef

-- `AnyNode::case`, and the accessors that match on it.
unfoldable pub case : AnyNode → Option NodeRef
case (inner_node n) = some (inner n)
case (leaf_node n) = some (leaf n)
case _ = none

unfoldable pub as_leaf : AnyNode → Option LeafNode
as_leaf (leaf_node n) = some n
as_leaf _ = none

ref_key : NodeRef → ℕ
ref_key (inner n) = n.key
ref_key (leaf n) = n.key

ref_prefix_len : NodeRef → ℕ
ref_prefix_len (inner n) = n.prefix_len
ref_prefix_len (leaf n) = 128

ref_children : NodeRef → Option (ℕ × ℕ)
ref_children (inner n) = some (n.child_0, n.child_1)
ref_children (leaf n) = none

unfoldable pub key : AnyNode → Option ℕ
unfolding case ref_key
key n = elim (case n) [ none ↦ none | some r ↦ some (ref_key r) ]

unfoldable pub prefix_len : AnyNode → DexResult ℕ
unfolding case ref_prefix_len
prefix_len n = unwrap (case n) >>= λ r. ok (ref_prefix_len r)

unfoldable pub children : AnyNode → DexResult (Option (ℕ × ℕ))
unfolding case ref_children
children n = unwrap (case n) >>= λ r. ok (ref_children r)

-- `LeafNode::new` and the accessors that compute.
unfoldable pub new_leaf : ℕ → ℕ → Address → ℕ → FeeTier → ℕ → LeafNode
new_leaf owner_slot key owner quantity fee_tier client_order_id = record {
  owner_slot = owner_slot;
  fee_tier = tier_to_u8 fee_tier;
  key = key;
  owner = owner;
  quantity = quantity;
  client_order_id = client_order_id;
}

unfoldable pub leaf_fee_tier : LeafNode → DexResult FeeTier
leaf_fee_tier n = unwrap (tier_from_u8 n.fee_tier)

unfoldable pub leaf_price : LeafNode → DexResult ℕ
leaf_price n = unwrap (non_zero (n.key / 2 ^ 64 % u64_mod))

-- `u128::leading_zeros`.
unfoldable pub leading_zeros_below : ℕ → ℕ → ℕ
leading_zeros_below zero n = 0
leading_zeros_below (suc w) n = if n / 2 ^ w == 0 then suc (leading_zeros_below w n) else 0

unfoldable pub leading_zeros : ℕ → ℕ
unfolding leading_zeros_below
leading_zeros n = leading_zeros_below 128 n

-- The number of leading bits that two keys share.
unfoldable pub shared_prefix_len : ℕ → ℕ → ℕ
unfolding leading_zeros
shared_prefix_len a b = leading_zeros (bit_xor a b)

-- `(key & ((1u128 << 127) >> len)) != 0`.
unfoldable pub crit_bit : ℕ → ℕ → Bool
crit_bit len key = not (bit_and key (2 ^ 127 / 2 ^ len) == 0)

unfoldable pub child : InnerNode → Bool → ℕ
child n true = n.child_1
child n false = n.child_0

-- `InnerNode::walk_down`.
unfoldable pub walk_down : InnerNode → ℕ → ℕ × Bool
unfolding crit_bit child
walk_down n search_key = let b = crit_bit n.prefix_len search_key in (child n b, b)
