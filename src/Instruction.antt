-- ===== src/Instruction.antt =====
-- dex/src/instruction.rs: the instructions of the program and their bytes. `Bytes` has the little
-- endian numbers, `Unpack` the reading of an instruction, `Pack` the writing, which is bincode's, and the
-- others read back what was written.
pub mod Bytes
pub mod Unpack
pub mod Pack
pub mod Fields
pub mod Orders
pub mod Parts
pub mod Sequences
pub mod RoundTrip
mod Tests
use openbook_dex.Prelude.{ℕ, List}
use openbook_dex.Types.{Side, OrderType, SelfTradeBehavior}

-- The quantities that the source has as `NonZeroU64` are numbers here. An `i64` is its 64 bits.
pub record InitializeMarketInstruction : Type 0 where
  pub coin_lot_size : ℕ
  pub pc_lot_size : ℕ
  pub fee_rate_bps : ℕ
  pub vault_signer_nonce : ℕ
  pub pc_dust_threshold : ℕ

pub record SendTakeInstruction : Type 0 where
  pub side : Side
  pub limit_price : ℕ
  pub max_coin_qty : ℕ
  pub max_native_pc_qty_including_fees : ℕ
  pub min_coin_qty : ℕ
  pub min_native_pc_qty : ℕ
  pub limit : ℕ

pub record NewOrderInstructionV3 : Type 0 where
  pub side : Side
  pub limit_price : ℕ
  pub max_coin_qty : ℕ
  pub max_native_pc_qty_including_fees : ℕ
  pub self_trade_behavior : SelfTradeBehavior
  pub order_type : OrderType
  pub client_order_id : ℕ
  pub limit : ℕ
  pub max_ts : ℕ

pub record NewOrderInstructionV2 : Type 0 where
  pub side : Side
  pub limit_price : ℕ
  pub max_qty : ℕ
  pub order_type : OrderType
  pub client_id : ℕ
  pub self_trade_behavior : SelfTradeBehavior

pub record NewOrderInstructionV1 : Type 0 where
  pub side : Side
  pub limit_price : ℕ
  pub max_qty : ℕ
  pub order_type : OrderType
  pub client_id : ℕ

pub add_self_trade_behavior : NewOrderInstructionV1 → SelfTradeBehavior → NewOrderInstructionV2
add_self_trade_behavior i self_trade_behavior = record {
  side = i.side;
  limit_price = i.limit_price;
  max_qty = i.max_qty;
  order_type = i.order_type;
  client_id = i.client_id;
  self_trade_behavior = self_trade_behavior;
}

pub record CancelOrderInstructionV2 : Type 0 where
  pub side : Side
  pub order_id : ℕ

-- The owner's four words.
pub record CancelOrderInstruction : Type 0 where
  pub side : Side
  pub order_id : ℕ
  pub owner : ℕ × ℕ × ℕ × ℕ
  pub owner_slot : ℕ

pub data MarketInstruction : Type 0 where
  initialize_market : InitializeMarketInstruction → MarketInstruction
  new_order : NewOrderInstructionV1 → MarketInstruction
  match_orders : ℕ → MarketInstruction
  consume_events : ℕ → MarketInstruction
  cancel_order : CancelOrderInstruction → MarketInstruction
  settle_funds : MarketInstruction
  cancel_order_by_client_id : ℕ → MarketInstruction
  disable_market : MarketInstruction
  sweep_fees : MarketInstruction
  new_order_v2 : NewOrderInstructionV2 → MarketInstruction
  new_order_v3 : NewOrderInstructionV3 → MarketInstruction
  cancel_order_v2 : CancelOrderInstructionV2 → MarketInstruction
  cancel_order_by_client_id_v2 : ℕ → MarketInstruction
  send_take : SendTakeInstruction → MarketInstruction
  close_open_orders : MarketInstruction
  init_open_orders : MarketInstruction
  prune : ℕ → MarketInstruction
  consume_events_permissioned : ℕ → MarketInstruction
  cancel_orders_by_client_ids : List ℕ → MarketInstruction
  replace_order_by_client_id : NewOrderInstructionV3 → MarketInstruction
  replace_orders_by_client_ids : List NewOrderInstructionV3 → MarketInstruction
