-- ===== src/Instruction/Unpack.antt =====
-- `MarketInstruction::unpack` of dex/src/instruction.rs, and the `unpack` of the parts. `array_refs!`
-- reads the fields off the front one by one.
use openbook_dex.Prelude.{
  ℕ, zero, suc, ◌+◌, ◌-◌, ◌*◌, ◌/◌, ◌%◌, ◌^◌, not, ◌&&◌, ◌||◌, List, [], ◌∷◌, ◌++◌, Option, none,
  some, ltb, leb, ◌==◌, if◌then◌else◌, length, take, drop,
}
use openbook_dex.Types.{
  Side, bid, ask, OrderType, immediate_or_cancel, post_only, behavior_from_u8, non_zero,
}
use openbook_dex.Instruction.{
  SendTakeInstruction, NewOrderInstructionV3, NewOrderInstructionV1, add_self_trade_behavior,
  CancelOrderInstructionV2, MarketInstruction, initialize_market, new_order, match_orders,
  consume_events, cancel_order, settle_funds, cancel_order_by_client_id, disable_market, sweep_fees,
  new_order_v2, new_order_v3, cancel_order_v2, cancel_order_by_client_id_v2, send_take,
  close_open_orders, init_open_orders, prune, consume_events_permissioned,
  cancel_orders_by_client_ids, replace_order_by_client_id, replace_orders_by_client_ids,
}
use openbook_dex.Instruction.Bytes.{to_le, read}

infixl 5 ◌>>=◌
-- The `?` operator on an `Option`.
abbrev pub ◌>>=◌ {ℓ κ} : {A : Type ℓ} {B : Type κ} → Option A → (A → Option B) → Option B
none >>= f = none
some a >>= f = f a

-- The `TryFromPrimitive` of `Side` and `OrderType`, and the `match` of the older instructions, which
-- answer alike.
unfoldable pub side_from_u8 : ℕ → Option Side
side_from_u8 zero = some bid
side_from_u8 (suc zero) = some ask
side_from_u8 _ = none

unfoldable pub order_type_from_u8 : ℕ → Option OrderType
order_type_from_u8 zero = some OrderType.limit
order_type_from_u8 (suc zero) = some immediate_or_cancel
order_type_from_u8 (suc (suc zero)) = some post_only
order_type_from_u8 _ = none

-- `u32::try_into::<u8>().ok()`.
abbrev pub as_u8 : ℕ → Option ℕ
as_u8 n = if ltb n 256 then some n else none

unfoldable pub unpack_send_take : List ℕ → Option SendTakeInstruction
unfolding side_from_u8
unpack_send_take bytes =
    let (side_arr, r₁) = read 4 bytes in
    let (price, r₂) = read 8 r₁ in
    let (max_coin, r₃) = read 8 r₂ in
    let (max_native_pc, r₄) = read 8 r₃ in
    let (min_coin, r₅) = read 8 r₄ in
    let (min_native_pc, r₆) = read 8 r₅ in
    let (limit, r₇) = read 2 r₆ in
    as_u8 side_arr >>= side_from_u8 >>= λ side. non_zero price >>= λ limit_price.
    non_zero max_coin >>= λ max_coin_qty. non_zero max_native_pc >>= λ max_native_pc_qty.
    some (record {
      side = side;
      limit_price = limit_price;
      max_coin_qty = max_coin_qty;
      max_native_pc_qty_including_fees = max_native_pc_qty;
      min_coin_qty = min_coin;
      min_native_pc_qty = min_native_pc;
      limit = limit;
    })

unfoldable pub unpack_new_order_v3 : List ℕ → Option NewOrderInstructionV3
unfolding side_from_u8 order_type_from_u8
unpack_new_order_v3 bytes =
    let (side_arr, r₁) = read 4 bytes in
    let (price, r₂) = read 8 r₁ in
    let (max_coin, r₃) = read 8 r₂ in
    let (max_native_pc, r₄) = read 8 r₃ in
    let (behavior_arr, r₅) = read 4 r₄ in
    let (otype_arr, r₆) = read 4 r₅ in
    let (client_order_id, r₇) = read 8 r₆ in
    let (limit, r₈) = read 2 r₇ in
    let (max_ts, r₉) = read 8 r₈ in
    as_u8 side_arr >>= side_from_u8 >>= λ side. non_zero price >>= λ limit_price.
    non_zero max_coin >>= λ max_coin_qty. non_zero max_native_pc >>= λ max_native_pc_qty.
    as_u8 behavior_arr >>= behavior_from_u8 >>= λ behavior.
    as_u8 otype_arr >>= order_type_from_u8 >>= λ order_type. some (record {
      side = side;
      limit_price = limit_price;
      max_coin_qty = max_coin_qty;
      max_native_pc_qty_including_fees = max_native_pc_qty;
      self_trade_behavior = behavior;
      order_type = order_type;
      client_order_id = client_order_id;
      limit = limit;
      max_ts = max_ts;
    })

unfoldable pub unpack_new_order_v1 : List ℕ → Option NewOrderInstructionV1
unfolding side_from_u8 order_type_from_u8
unpack_new_order_v1 bytes =
    let (side_arr, r₁) = read 4 bytes in
    let (price, r₂) = read 8 r₁ in
    let (qty, r₃) = read 8 r₂ in
    let (otype_arr, r₄) = read 4 r₃ in
    let (client_id, r₅) = read 8 r₄ in
    side_from_u8 side_arr >>= λ side. non_zero price >>= λ limit_price. non_zero qty >>= λ max_qty.
    order_type_from_u8 otype_arr >>= λ order_type. some (record {
      side = side;
      limit_price = limit_price;
      max_qty = max_qty;
      order_type = order_type;
      client_id = client_id;
    })

unfoldable pub unpack_cancel_order_v2 : List ℕ → Option CancelOrderInstructionV2
unfolding side_from_u8
unpack_cancel_order_v2 bytes =
    let (side_arr, r₁) = read 4 bytes in
    let (order_id, r₂) = read 16 r₁ in
    as_u8 side_arr >>= side_from_u8 >>= λ side. some (record { side = side; order_id = order_id })

-- The arms of the `match` in `unpack` that read fields.
unfoldable pub unpack_initialize_market : List ℕ → Option MarketInstruction
unpack_initialize_market bytes =
    let (coin_lot_size, r₁) = read 8 bytes in
    let (pc_lot_size, r₂) = read 8 r₁ in
    let (fee_rate_bps, r₃) = read 2 r₂ in
    let (vault_signer_nonce, r₄) = read 8 r₃ in
    let (pc_dust_threshold, r₅) = read 8 r₄ in
    some (
      initialize_market (record {
        coin_lot_size = coin_lot_size;
        pc_lot_size = pc_lot_size;
        fee_rate_bps = fee_rate_bps;
        vault_signer_nonce = vault_signer_nonce;
        pc_dust_threshold = pc_dust_threshold;
      }))

unfoldable pub unpack_cancel_order : List ℕ → Option MarketInstruction
unfolding side_from_u8
unpack_cancel_order bytes =
    let (side_arr, r₁) = read 4 bytes in
    let (order_id, r₂) = read 16 r₁ in
    let (owner_0, r₃) = read 8 r₂ in
    let (owner_1, r₄) = read 8 r₃ in
    let (owner_2, r₅) = read 8 r₄ in
    let (owner_3, r₆) = read 8 r₅ in
    let (owner_slot, r₇) = read 1 r₆ in
    side_from_u8 side_arr >>= λ side. some (
      cancel_order (record {
        side = side;
        order_id = order_id;
        owner = (owner_0, owner_1, owner_2, owner_3);
        owner_slot = owner_slot;
      }))

unfoldable pub unpack_new_order_v2 : List ℕ → Option MarketInstruction
unfolding unpack_new_order_v1
unpack_new_order_v2 bytes =
    let (behavior_arr, r) = read 4 (drop 32 bytes) in
    unpack_new_order_v1 (take 32 bytes) >>= λ v1.
    as_u8 behavior_arr >>= behavior_from_u8 >>= λ behavior.
    some (new_order_v2 (add_self_trade_behavior v1 behavior))

-- Orders without a time limit get the largest `i64`.
unfoldable pub extend_new_order_v3 : List ℕ → List ℕ
unfolding to_le
extend_new_order_v3 bytes = if length bytes == 46 then bytes ++ to_le 8 (2 ^ 63 - 1) else bytes

-- `chunks_exact(8)` zipped with eight ids that start as zeros.
unfoldable pub unpack_client_ids : ℕ → List ℕ → List ℕ
unpack_client_ids zero bytes = []
unpack_client_ids (suc n) bytes =
    (if ltb (length bytes) 8 then 0 else (read 8 bytes).0) ∷ unpack_client_ids n (read 8 bytes).1

-- `chunks_exact(54)` into orders, all of which must be read; there is a round for each byte at most.
unfoldable pub unpack_new_orders : ℕ → List ℕ → Option (List NewOrderInstructionV3)
unfolding unpack_new_order_v3
unpack_new_orders zero bytes = some []
unpack_new_orders (suc n) bytes =
    let chunks : Option (List NewOrderInstructionV3) =
      unpack_new_order_v3 (take 54 bytes) >>= λ order.
      unpack_new_orders n (drop 54 bytes) >>= λ orders. some (order ∷ orders) in
    if ltb (length bytes) 54 then some [] else chunks

unfoldable pub unpack_replace_orders : List ℕ → Option MarketInstruction
unfolding unpack_new_orders
unpack_replace_orders bytes =
    let (count, rest) = read 8 bytes in
    if not (count == (length bytes - 8) / 54)
    then none
    else (unpack_new_orders (length rest) rest >>= λ orders.
        some (replace_orders_by_client_ids orders))

-- The `match` on the discriminant and the length of the data.
unfoldable pub unpack_data : ℕ → ℕ → List ℕ → Option MarketInstruction
unfolding unpack_initialize_market unpack_new_order_v1 unpack_cancel_order unpack_new_order_v2
    unpack_new_order_v3 extend_new_order_v3 unpack_cancel_order_v2 unpack_send_take
    unpack_client_ids unpack_replace_orders
unpack_data discrim len bytes =
    if discrim == 0 && len == 34
    then unpack_initialize_market bytes
    else if discrim == 1 && len == 32
    then (unpack_new_order_v1 bytes >>= λ i. some (new_order i))
    else if discrim == 2 && len == 2
    then some (match_orders (read 2 bytes).0)
    else if discrim == 3 && len == 2
    then some (consume_events (read 2 bytes).0)
    else if discrim == 4 && len == 53
    then unpack_cancel_order bytes
    else if discrim == 5 && len == 0
    then some settle_funds
    else if discrim == 6 && len == 8
    then some (cancel_order_by_client_id (read 8 bytes).0)
    else if discrim == 7 && len == 0
    then some disable_market
    else if discrim == 8 && len == 0
    then some sweep_fees
    else if discrim == 9 && len == 36
    then unpack_new_order_v2 bytes
    else if discrim == 10 && (len == 46 || len == 54)
    then (unpack_new_order_v3 (extend_new_order_v3 bytes) >>= λ i. some (new_order_v3 i))
    else if discrim == 11 && len == 20
    then (unpack_cancel_order_v2 bytes >>= λ i. some (cancel_order_v2 i))
    else if discrim == 12 && len == 8
    then some (cancel_order_by_client_id_v2 (read 8 bytes).0)
    else if discrim == 13 && len == 46
    then (unpack_send_take bytes >>= λ i. some (send_take i))
    else if discrim == 14 && len == 0
    then some close_open_orders
    else if discrim == 15 && len == 0
    then some init_open_orders
    else if discrim == 16 && len == 2
    then some (prune (read 2 bytes).0)
    else if discrim == 17 && len == 2
    then some (consume_events_permissioned (read 2 bytes).0)
    else if discrim == 18 && (len % 8 == 0 && leb len 64)
    then some (cancel_orders_by_client_ids (unpack_client_ids 8 bytes))
    else if discrim == 19 && len == 54
    then (unpack_new_order_v3 bytes >>= λ i. some (replace_order_by_client_id i))
    else if discrim == 20 && (len % 54 == 8 && leb len (8 + 8 * 54))
    then unpack_replace_orders bytes
    else none

-- The first byte is the version.
unfoldable pub unpack : List ℕ → Option MarketInstruction
unfolding unpack_data
unpack versioned_bytes =
    let (version, r₁) = read 1 versioned_bytes in
    let (discrim, rest) = read 4 r₁ in
    if ltb (length versioned_bytes) 5 || ltb (5 + 8 + 54 * 8) (length versioned_bytes)
    then none
    else if not (version == 0)
    then none
    else unpack_data discrim (length rest) rest
