-- ===== src/Instruction/Pack.antt =====
-- `MarketInstruction::pack` of dex/src/instruction.rs: the value that the derived `Serialize` shows of an
-- instruction, and bincode, a parameter, which writes values.
use openbook_dex.Prelude.{ℕ, suc, ◌≡◌, List, [], ◌∷◌, ◌++◌}
use openbook_dex.Types.{Side, bid, ask, OrderType, immediate_or_cancel, post_only, behavior_to_u8}
use openbook_dex.Instruction.{
  NewOrderInstructionV3, MarketInstruction, initialize_market, new_order, match_orders,
  consume_events, cancel_order, settle_funds, cancel_order_by_client_id, disable_market, sweep_fees,
  new_order_v2, new_order_v3, cancel_order_v2, cancel_order_by_client_id_v2, send_take,
  close_open_orders, init_open_orders, prune, consume_events_permissioned,
  cancel_orders_by_client_ids, replace_order_by_client_id, replace_orders_by_client_ids,
}
use openbook_dex.Instruction.Bytes.{to_le}

-- What serde shows a serializer: an integer of so many bytes, the fields of a struct, a tuple or an
-- array, a variant of an enum with its index, and a sequence.
mutual
  pub data Value : Type 0 where
    number : ℕ → ℕ → Value
    fields : Values → Value
    variant : ℕ → Values → Value
    sequence : Values → Value

  pub data Values : Type 0 where
    done : Values
    also : Value → Values → Values

infixr 67 ◌&◌
abbrev pub ◌&◌ : Value → Values → Values
v & vs = also v vs

abbrev pub count : Values → ℕ
count done = 0
count (also v vs) = suc (count vs)

-- Values written one behind the other.
abbrev pub concat : (Value → List ℕ) → Values → List ℕ
concat serialize done = []
concat serialize (also v vs) = serialize v ++ concat serialize vs

-- What is documented of bincode's `serialize`: integers are little endian and of their own size, the
-- index of a variant is a `u32`, the length of a sequence a `u64`, and fields stand in their order.
pub record Bincode (serialize : Value → List ℕ) : Type 0 where
  pub serialize-number : (w n : ℕ) → serialize (number w n) ≡ to_le w n
  pub serialize-fields : (vs : Values) → serialize (fields vs) ≡ concat serialize vs
  pub serialize-variant :
      (i : ℕ) (vs : Values) → serialize (variant i vs) ≡ to_le 4 i ++ concat serialize vs
  pub serialize-sequence :
      (vs : Values) → serialize (sequence vs) ≡ to_le 8 (count vs) ++ concat serialize vs

-- The derived `Serialize` of the enums and the structs.
abbrev pub side_index : Side → ℕ
side_index bid = 0
side_index ask = 1

abbrev pub order_type_index : OrderType → ℕ
order_type_index OrderType.limit = 0
order_type_index immediate_or_cancel = 1
order_type_index post_only = 2

abbrev pub index_value : ℕ → Value
index_value i = variant i done

abbrev pub u64 : ℕ → Value
u64 n = number 8 n

abbrev pub u16 : ℕ → Value
u16 n = number 2 n

abbrev pub new_order_v3_value : NewOrderInstructionV3 → Value
new_order_v3_value i = fields (
    index_value (side_index i.side)
    & u64 i.limit_price
    & u64 i.max_coin_qty
    & u64 i.max_native_pc_qty_including_fees
    & index_value (behavior_to_u8 i.self_trade_behavior)
    & index_value (order_type_index i.order_type)
    & u64 i.client_order_id
    & u16 i.limit
    & u64 i.max_ts
    & done)

abbrev pub client_id_values : List ℕ → Values
client_id_values [] = done
client_id_values (n ∷ ns) = u64 n & client_id_values ns

abbrev pub new_order_values : List NewOrderInstructionV3 → Values
new_order_values [] = done
new_order_values (i ∷ is) = new_order_v3_value i & new_order_values is

unfoldable pub instruction_value : MarketInstruction → Value
instruction_value (initialize_market i) = variant 0 (
    fields (
      u64 i.coin_lot_size
      & u64 i.pc_lot_size
      & u16 i.fee_rate_bps
      & u64 i.vault_signer_nonce
      & u64 i.pc_dust_threshold
      & done)
    & done)
instruction_value (new_order i) = variant 1 (
    fields (
      index_value (side_index i.side)
      & u64 i.limit_price
      & u64 i.max_qty
      & index_value (order_type_index i.order_type)
      & u64 i.client_id
      & done)
    & done)
instruction_value (match_orders limit) = variant 2 (u16 limit & done)
instruction_value (consume_events limit) = variant 3 (u16 limit & done)
instruction_value (cancel_order i) = variant 4 (
    fields (
      index_value (side_index i.side)
      & number 16 i.order_id
      & fields (u64 i.owner.0 & u64 i.owner.1 & u64 i.owner.2 & u64 i.owner.3 & done)
      & number 1 i.owner_slot
      & done)
    & done)
instruction_value settle_funds = variant 5 done
instruction_value (cancel_order_by_client_id id) = variant 6 (u64 id & done)
instruction_value disable_market = variant 7 done
instruction_value sweep_fees = variant 8 done
instruction_value (new_order_v2 i) = variant 9 (
    fields (
      index_value (side_index i.side)
      & u64 i.limit_price
      & u64 i.max_qty
      & index_value (order_type_index i.order_type)
      & u64 i.client_id
      & index_value (behavior_to_u8 i.self_trade_behavior)
      & done)
    & done)
instruction_value (new_order_v3 i) = variant 10 (new_order_v3_value i & done)
instruction_value (cancel_order_v2 i) =
    variant 11 (fields (index_value (side_index i.side) & number 16 i.order_id & done) & done)
instruction_value (cancel_order_by_client_id_v2 id) = variant 12 (u64 id & done)
instruction_value (send_take i) = variant 13 (
    fields (
      index_value (side_index i.side)
      & u64 i.limit_price
      & u64 i.max_coin_qty
      & u64 i.max_native_pc_qty_including_fees
      & u64 i.min_coin_qty
      & u64 i.min_native_pc_qty
      & u16 i.limit
      & done)
    & done)
instruction_value close_open_orders = variant 14 done
instruction_value init_open_orders = variant 15 done
instruction_value (prune limit) = variant 16 (u16 limit & done)
instruction_value (consume_events_permissioned limit) = variant 17 (u16 limit & done)
instruction_value (cancel_orders_by_client_ids ids) =
    variant 18 (fields (client_id_values ids) & done)
instruction_value (replace_order_by_client_id i) = variant 19 (new_order_v3_value i & done)
instruction_value (replace_orders_by_client_ids is) =
    variant 20 (sequence (new_order_values is) & done)

-- `bincode::serialize(&(0u8, self)).unwrap()`.
unfoldable pub pack : (Value → List ℕ) → MarketInstruction → List ℕ
unfolding instruction_value
pack serialize i = serialize (fields (number 1 0 & instruction_value i & done))
