-- ===== src/Instruction/Parts.antt =====
-- Reading back the other structs of dex/src/instruction.rs from their bytes, whatever follows them.
use openbook_dex.Prelude.{
  ℕ, ◌<◌, ◌≡◌, refl, ap, ◌∙◌, List, [], ◌++◌, some, arith, length, take, drop, length-append, IsU64,
  IsU128, take-append_exact, drop-append_exact,
}
use mathlib.Core.List.{append_assoc}
use openbook_dex.Types.{behavior_to_u8}
use openbook_dex.Instruction.{
  InitializeMarketInstruction, NewOrderInstructionV2, NewOrderInstructionV1,
  CancelOrderInstructionV2, CancelOrderInstruction, cancel_order, initialize_market, new_order_v2,
  add_self_trade_behavior,
}
use openbook_dex.Instruction.Bytes.{to_le, length-to_le, read-to_le}
use openbook_dex.Instruction.Pack.{side_index}
use openbook_dex.Instruction.Unpack.{
  unpack_cancel_order_v2, unpack_cancel_order, unpack_initialize_market, unpack_new_order_v2,
}
use openbook_dex.Instruction.Fields.{
  IsU16, side_lt, side_back, side_as, behavior_lt, behavior_as, behavior_back,
}
use openbook_dex.Instruction.Orders.{IsValidV1, v1_bytes, unpack_new_order_v1-bytes}

abbrev pub cancel_v2_bytes : CancelOrderInstructionV2 → List ℕ → List ℕ
cancel_v2_bytes i rest = to_le 4 (side_index i.side) ++ (to_le 16 i.order_id ++ rest)

pub unpack_cancel_order_v2-bytes :
    (i : CancelOrderInstructionV2) (rest : List ℕ)
    → IsU128 i.order_id
    → unpack_cancel_order_v2 (cancel_v2_bytes i rest) ≡ some i
unfolding unpack_cancel_order_v2
unpack_cancel_order_v2-bytes i rest v =
    rw
      (
        read-to_le 4 (side_index i.side) _ (side_lt i.side),
        read-to_le 16 i.order_id _ v,
        side_as i.side,
        side_back i.side,
      )
      refl

pub record IsValidCancel (i : CancelOrderInstruction) : Type 0 where
  pub order_id : IsU128 i.order_id
  pub owner_0 : IsU64 i.owner.0
  pub owner_1 : IsU64 i.owner.1
  pub owner_2 : IsU64 i.owner.2
  pub owner_3 : IsU64 i.owner.3
  pub owner_slot : i.owner_slot < 256

abbrev pub cancel_bytes : CancelOrderInstruction → List ℕ → List ℕ
cancel_bytes i rest =
    to_le 4 (side_index i.side)
    ++ (to_le 16 i.order_id
        ++ (to_le 8 i.owner.0
            ++ (to_le 8 i.owner.1
                ++ (to_le 8 i.owner.2 ++ (to_le 8 i.owner.3 ++ (to_le 1 i.owner_slot ++ rest))))))

pub unpack_cancel_order-bytes :
    (i : CancelOrderInstruction) (rest : List ℕ)
    → IsValidCancel i
    → unpack_cancel_order (cancel_bytes i rest) ≡ some (cancel_order i)
unfolding unpack_cancel_order
unpack_cancel_order-bytes i rest v =
    rw
      (
        read-to_le 4 (side_index i.side) _ (side_lt i.side),
        read-to_le 16 i.order_id _ v.order_id,
        read-to_le 8 i.owner.0 _ v.owner_0,
        read-to_le 8 i.owner.1 _ v.owner_1,
        read-to_le 8 i.owner.2 _ v.owner_2,
        read-to_le 8 i.owner.3 _ v.owner_3,
        read-to_le 1 i.owner_slot _ v.owner_slot,
        side_back i.side,
      )
      refl

pub record IsValidInitialize (i : InitializeMarketInstruction) : Type 0 where
  pub coin_lot_size : IsU64 i.coin_lot_size
  pub pc_lot_size : IsU64 i.pc_lot_size
  pub fee_rate_bps : IsU16 i.fee_rate_bps
  pub vault_signer_nonce : IsU64 i.vault_signer_nonce
  pub pc_dust_threshold : IsU64 i.pc_dust_threshold

abbrev pub initialize_bytes : InitializeMarketInstruction → List ℕ → List ℕ
initialize_bytes i rest =
    to_le 8 i.coin_lot_size
    ++ (to_le 8 i.pc_lot_size
        ++ (to_le 2 i.fee_rate_bps
            ++ (to_le 8 i.vault_signer_nonce ++ (to_le 8 i.pc_dust_threshold ++ rest))))

pub unpack_initialize_market-bytes :
    (i : InitializeMarketInstruction) (rest : List ℕ)
    → IsValidInitialize i
    → unpack_initialize_market (initialize_bytes i rest) ≡ some (initialize_market i)
unfolding unpack_initialize_market
unpack_initialize_market-bytes i rest v =
    rw
      (
        read-to_le 8 i.coin_lot_size _ v.coin_lot_size,
        read-to_le 8 i.pc_lot_size _ v.pc_lot_size,
        read-to_le 2 i.fee_rate_bps _ v.fee_rate_bps,
        read-to_le 8 i.vault_signer_nonce _ v.vault_signer_nonce,
        read-to_le 8 i.pc_dust_threshold _ v.pc_dust_threshold,
      )
      refl

-- The older order that a new order of the second version starts with.
abbrev pub v1_of : NewOrderInstructionV2 → NewOrderInstructionV1
v1_of i = record {
  side = i.side;
  limit_price = i.limit_price;
  max_qty = i.max_qty;
  order_type = i.order_type;
  client_id = i.client_id;
}

abbrev pub v2_bytes : NewOrderInstructionV2 → List ℕ → List ℕ
v2_bytes i rest = v1_bytes (v1_of i) (to_le 4 (behavior_to_u8 i.self_trade_behavior) ++ rest)

v1_bytes-append :
    (i : NewOrderInstructionV1) (rest : List ℕ) → v1_bytes i rest ≡ v1_bytes i [] ++ rest
v1_bytes-append i rest = simp (append_assoc)

length-v1_bytes : (i : NewOrderInstructionV1) → length (v1_bytes i []) ≡ 32
length-v1_bytes i = simp (length-append, length-to_le) (omega arith)

pub unpack_new_order_v2-bytes :
    (i : NewOrderInstructionV2) (rest : List ℕ)
    → IsValidV1 (v1_of i)
    → unpack_new_order_v2 (v2_bytes i rest) ≡ some (new_order_v2 i)
unfolding unpack_new_order_v2 add_self_trade_behavior
unpack_new_order_v2-bytes i rest v =
    let behind = to_le 4 (behavior_to_u8 i.self_trade_behavior) ++ rest in
    let front : take 32 (v2_bytes i rest) ≡ v1_bytes (v1_of i) [] =
      ap (take 32) (v1_bytes-append (v1_of i) behind)
      ∙ take-append_exact 32 (v1_bytes (v1_of i) []) behind (length-v1_bytes (v1_of i)) in
    let back : drop 32 (v2_bytes i rest) ≡ behind =
      ap (drop 32) (v1_bytes-append (v1_of i) behind)
      ∙ drop-append_exact 32 (v1_bytes (v1_of i) []) behind (length-v1_bytes (v1_of i)) in
    rw
      (
        front,
        back,
        read-to_le 4 (behavior_to_u8 i.self_trade_behavior) rest
            (behavior_lt i.self_trade_behavior),
        unpack_new_order_v1-bytes (v1_of i) [] v,
        behavior_as i.self_trade_behavior,
        behavior_back i.self_trade_behavior,
      )
      refl
