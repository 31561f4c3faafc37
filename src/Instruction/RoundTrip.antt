-- ===== src/Instruction/RoundTrip.antt =====
-- What `MarketInstruction::pack` writes, `MarketInstruction::unpack` reads (dex/src/instruction.rs).
use openbook_dex.Prelude.{
  ℕ, suc, ◌+◌, ◌*◌, ◌%◌, ◌^◌, ◌<◌, ◌≤◌, ◌≡◌, refl, sym, ap, ◌∙◌, true, false, List, [], ◌∷◌, ◌++◌,
  some, arith, length, length-append, IsU64, IsU128, ltb, leb, ◌==◌,
}
use mathlib.Core.List.{append_assoc, append-nil}
use openbook_dex.Instruction.{
  NewOrderInstructionV3, MarketInstruction, initialize_market, new_order, match_orders,
  consume_events, cancel_order, settle_funds, cancel_order_by_client_id, disable_market, sweep_fees,
  new_order_v2, new_order_v3, cancel_order_v2, cancel_order_by_client_id_v2, send_take,
  close_open_orders, init_open_orders, prune, consume_events_permissioned,
  cancel_orders_by_client_ids, replace_order_by_client_id, replace_orders_by_client_ids,
}
use openbook_dex.Instruction.Bytes.{to_le, length-to_le, read-to_le}
use openbook_dex.Instruction.Fields.{IsU16}
use openbook_dex.Instruction.Orders.{
  IsValidV3, v3_bytes, length-v3_bytes, unpack_new_order_v3-bytes, IsValidV1, v1_bytes,
  unpack_new_order_v1-bytes, IsValidSendTake, send_take_bytes, unpack_send_take-bytes,
}
use openbook_dex.Instruction.Parts.{
  v1_of, v2_bytes, unpack_new_order_v2-bytes, cancel_v2_bytes, unpack_cancel_order_v2-bytes,
  IsValidCancel, cancel_bytes, unpack_cancel_order-bytes, IsValidInitialize, initialize_bytes,
  unpack_initialize_market-bytes,
}
use openbook_dex.Instruction.Sequences.{
  All, ids_bytes, length-ids_bytes, unpack_client_ids-bytes, orders_bytes, length-orders_bytes,
  unpack_replace_orders-bytes,
}
use openbook_dex.Instruction.Pack.{
  Value, Values, number, fields, variant, sequence, done, ◌&◌, concat, count, Bincode,
  new_order_v3_value, client_id_values, new_order_values, instruction_value, pack,
}
use openbook_dex.Instruction.Unpack.{unpack, unpack_data, extend_new_order_v3, unpack_client_ids}

-- The numbers of an instruction are of the types that the source gives them, eight client ids are
-- eight, and at most eight orders replace others.
abbrev pub IsValid : MarketInstruction → Type 0
IsValid (initialize_market i) = IsValidInitialize i
IsValid (new_order i) = IsValidV1 i
IsValid (match_orders limit) = IsU16 limit
IsValid (consume_events limit) = IsU16 limit
IsValid (cancel_order i) = IsValidCancel i
IsValid (cancel_order_by_client_id id) = IsU64 id
IsValid (new_order_v2 i) = IsValidV1 (v1_of i)
IsValid (new_order_v3 i) = IsValidV3 i
IsValid (cancel_order_v2 i) = IsU128 i.order_id
IsValid (cancel_order_by_client_id_v2 id) = IsU64 id
IsValid (send_take i) = IsValidSendTake i
IsValid (prune limit) = IsU16 limit
IsValid (consume_events_permissioned limit) = IsU16 limit
IsValid (cancel_orders_by_client_ids ids) = (length ids ≡ 8) × All IsU64 ids
IsValid (replace_order_by_client_id i) = IsValidV3 i
IsValid (replace_orders_by_client_ids is) = (length is ≤ 8) × All IsValidV3 is
IsValid _ = Unit

-- The version and the discriminant, and what is behind them.
unpack-header :
    (discrim n : ℕ) (bytes : List ℕ)
    → discrim < 256 ^ 4
    → length bytes ≡ n
    → n ≤ 440
    → unpack (to_le 1 0 ++ (to_le 4 discrim ++ bytes)) ≡ unpack_data discrim n bytes
unfolding unpack
unpack-header discrim n bytes h e le =
    let whole : length (to_le 1 0 ++ (to_le 4 discrim ++ bytes)) ≡ 5 + n =
      simp (length-append, length-to_le, e) (omega arith) in
    let long_enough : ltb (5 + n) 5 ≡ false = ground arith in
    let short_enough : ltb 445 (5 + n) ≡ false = ground arith in
    rw
      (
        whole,
        long_enough,
        short_enough,
        read-to_le 1 0 (to_le 4 discrim ++ bytes) (omega arith),
        read-to_le 4 discrim bytes h,
        e,
      )
      refl

ruleset sizes = (length-append, length-to_le)

count-new_order_values : (is : List NewOrderInstructionV3) → count (new_order_values is) ≡ length is
count-new_order_values [] = refl
count-new_order_values (i ∷ is) = ap suc (count-new_order_values is)

-- An order with a time limit is read as it stands.
not_extended : (bytes : List ℕ) → length bytes ≡ 54 → extend_new_order_v3 bytes ≡ bytes
unfolding extend_new_order_v3
not_extended bytes h = let no_46 : (length bytes == 46) ≡ false = ground arith in rw no_46 refl

eight_ids :
    (ids : List ℕ) → length ids ≡ 8 → All IsU64 ids → unpack_client_ids 8 (ids_bytes ids) ≡ ids
eight_ids ids len v =
    ap (λ n. unpack_client_ids n (ids_bytes ids)) (sym len) ∙ unpack_client_ids-bytes ids v

module _ (serialize : Value → List ℕ) (laws : Bincode serialize) where
  serialize-new_order_v3 :
      (i : NewOrderInstructionV3) (rest : List ℕ)
      → serialize (new_order_v3_value i) ++ rest ≡ v3_bytes i rest
  serialize-new_order_v3 i rest = simp (
    laws.serialize-fields, laws.serialize-variant, laws.serialize-number, append-nil, append_assoc,
  )

  serialize-client_ids : (ids : List ℕ) → concat serialize (client_id_values ids) ≡ ids_bytes ids
  serialize-client_ids [] = refl
  serialize-client_ids (n ∷ ns) = rw (laws.serialize-number 8 n, serialize-client_ids ns) refl

  serialize-new_orders :
      (is : List NewOrderInstructionV3) → concat serialize (new_order_values is) ≡ orders_bytes is
  serialize-new_orders [] = refl
  serialize-new_orders (i ∷ is) =
      rw (serialize-new_orders is) (serialize-new_order_v3 i (orders_bytes is))

  -- A variant that is written as its index and some bytes, which are read back.
  reads_back :
      (i : MarketInstruction) (discrim : ℕ) (vs : Values) (n : ℕ) (bytes : List ℕ)
      → instruction_value i ≡ variant discrim vs
      → concat serialize vs ≡ bytes
      → discrim < 256 ^ 4
      → length bytes ≡ n
      → n ≤ 440
      → unpack_data discrim n bytes ≡ some i
      → unpack (pack serialize i) ≡ some i
  unfolding pack
  reads_back i discrim vs n bytes shape e h len le r =
      let written : serialize (fields (number 1 0 & instruction_value i & done))
          ≡ to_le 1 0 ++ (to_le 4 discrim ++ bytes) =
        laws.serialize-fields _
        ∙ rw (laws.serialize-number 1 0, shape, laws.serialize-variant discrim vs, e, append-nil)
            refl in
      ap unpack written ∙ unpack-header discrim n bytes h len le ∙ r

  -- A variant with nothing, and one with a single number.
  reads_nothing :
      (i : MarketInstruction) (discrim : ℕ)
      → instruction_value i ≡ variant discrim done
      → discrim < 256 ^ 4
      → unpack_data discrim 0 [] ≡ some i
      → unpack (pack serialize i) ≡ some i
  reads_nothing i discrim shape h r =
      reads_back i discrim done 0 [] shape refl h refl (omega arith) r

  reads_number :
      (i : MarketInstruction) (discrim w n : ℕ)
      → instruction_value i ≡ variant discrim (number w n & done)
      → discrim < 256 ^ 4
      → w ≤ 440
      → unpack_data discrim w (to_le w n ++ []) ≡ some i
      → unpack (pack serialize i) ≡ some i
  reads_number i discrim w n shape h le r =
      reads_back i discrim (number w n & done) w (to_le w n ++ []) shape
        (rw (laws.serialize-number w n) refl) h (rw append-nil (length-to_le w n)) le r

  -- What is packed, by a serializer with the layout of bincode, is unpacked again, for every instruction
  -- whose numbers are of their types, and which replaces at most eight orders where it replaces a list
  -- of orders, and cancels eight client ids, the length of their array, where it cancels client ids.
  pub unpack-pack : (i : MarketInstruction) → IsValid i → unpack (pack serialize i) ≡ some i
  unfolding instruction_value unpack_data
  unpack-pack (initialize_market i) v =
      reads_back (initialize_market i) 0 _ 34 (initialize_bytes i []) refl
        (simp (
          laws.serialize-fields, laws.serialize-variant, laws.serialize-number, append-nil,
          append_assoc,
        ))
        (omega arith) (simp sizes (omega arith)) (omega arith)
        (rw (unpack_initialize_market-bytes i [] v) refl)
  unpack-pack (new_order i) v =
      reads_back (new_order i) 1 _ 32 (v1_bytes i []) refl
        (simp (
          laws.serialize-fields, laws.serialize-variant, laws.serialize-number, append-nil,
          append_assoc,
        ))
        (omega arith) (simp sizes (omega arith)) (omega arith)
        (rw (unpack_new_order_v1-bytes i [] v) refl)
  unpack-pack (match_orders n) v =
      reads_number (match_orders n) 2 2 n refl (omega arith) (omega arith)
        (rw (read-to_le 2 n [] v) refl)
  unpack-pack (consume_events n) v =
      reads_number (consume_events n) 3 2 n refl (omega arith) (omega arith)
        (rw (read-to_le 2 n [] v) refl)
  unpack-pack (cancel_order i) v =
      reads_back (cancel_order i) 4 _ 53 (cancel_bytes i []) refl
        (simp (
          laws.serialize-fields, laws.serialize-variant, laws.serialize-number, append-nil,
          append_assoc,
        ))
        (omega arith) (simp sizes (omega arith)) (omega arith)
        (rw (unpack_cancel_order-bytes i [] v) refl)
  unpack-pack settle_funds v = reads_nothing settle_funds 5 refl (omega arith) refl
  unpack-pack (cancel_order_by_client_id n) v =
      reads_number (cancel_order_by_client_id n) 6 8 n refl (omega arith) (omega arith)
        (rw (read-to_le 8 n [] v) refl)
  unpack-pack disable_market v = reads_nothing disable_market 7 refl (omega arith) refl
  unpack-pack sweep_fees v = reads_nothing sweep_fees 8 refl (omega arith) refl
  unpack-pack (new_order_v2 i) v =
      reads_back (new_order_v2 i) 9 _ 36 (v2_bytes i []) refl
        (simp (
          laws.serialize-fields, laws.serialize-variant, laws.serialize-number, append-nil,
          append_assoc,
        ))
        (omega arith) (simp sizes (omega arith)) (omega arith)
        (rw (unpack_new_order_v2-bytes i [] v) refl)
  unpack-pack (new_order_v3 i) v =
      reads_back (new_order_v3 i) 10 (new_order_v3_value i & done) 54 (v3_bytes i []) refl
        (serialize-new_order_v3 i []) (omega arith) (length-v3_bytes i []) (omega arith)
        (rw (not_extended (v3_bytes i []) (length-v3_bytes i []), unpack_new_order_v3-bytes i [] v)
          refl)
  unpack-pack (cancel_order_v2 i) v =
      reads_back (cancel_order_v2 i) 11 _ 20 (cancel_v2_bytes i []) refl
        (simp (
          laws.serialize-fields, laws.serialize-variant, laws.serialize-number, append-nil,
          append_assoc,
        ))
        (omega arith) (simp sizes (omega arith)) (omega arith)
        (rw (unpack_cancel_order_v2-bytes i [] v) refl)
  unpack-pack (cancel_order_by_client_id_v2 n) v =
      reads_number (cancel_order_by_client_id_v2 n) 12 8 n refl (omega arith) (omega arith)
        (rw (read-to_le 8 n [] v) refl)
  unpack-pack (send_take i) v =
      reads_back (send_take i) 13 _ 46 (send_take_bytes i []) refl
        (simp (
          laws.serialize-fields, laws.serialize-variant, laws.serialize-number, append-nil,
          append_assoc,
        ))
        (omega arith) (simp sizes (omega arith)) (omega arith)
        (rw (unpack_send_take-bytes i [] v) refl)
  unpack-pack close_open_orders v = reads_nothing close_open_orders 14 refl (omega arith) refl
  unpack-pack init_open_orders v = reads_nothing init_open_orders 15 refl (omega arith) refl
  unpack-pack (prune n) v =
      reads_number (prune n) 16 2 n refl (omega arith) (omega arith) (rw (read-to_le 2 n [] v) refl)
  unpack-pack (consume_events_permissioned n) v =
      reads_number (consume_events_permissioned n) 17 2 n refl (omega arith) (omega arith)
        (rw (read-to_le 2 n [] v) refl)
  unpack-pack (cancel_orders_by_client_ids ids) (len, v) =
      reads_back (cancel_orders_by_client_ids ids) 18 (fields (client_id_values ids) & done) 64
        (ids_bytes ids) refl
        (rw (laws.serialize-fields (client_id_values ids), append-nil) (serialize-client_ids ids))
        (omega arith) (omega (arith, length-ids_bytes ids)) (omega arith)
        (ap (λ ids. some (cancel_orders_by_client_ids ids)) (eight_ids ids len v))
  unpack-pack (replace_order_by_client_id i) v =
      reads_back (replace_order_by_client_id i) 19 (new_order_v3_value i & done) 54 (v3_bytes i [])
        refl (serialize-new_order_v3 i []) (omega arith) (length-v3_bytes i []) (omega arith)
        (rw (unpack_new_order_v3-bytes i [] v) refl)
  unpack-pack (replace_orders_by_client_ids is) (len, v) =
      let one : ((8 + 54 * length is) % 54 == 8) ≡ true = ground arith in
      let two : leb (8 + 54 * length is) 440 ≡ true = ground arith in
      reads_back (replace_orders_by_client_ids is) 20 (sequence (new_order_values is) & done)
        (8 + 54 * length is) (to_le 8 (length is) ++ orders_bytes is) refl
        (rw
          (
            laws.serialize-sequence (new_order_values is),
            append-nil,
            count-new_order_values is,
            serialize-new_orders is,
          )
          refl)
        (omega arith)
        (omega (
          arith,
          length-append (to_le 8 (length is)) (orders_bytes is),
          length-to_le 8 (length is),
          length-orders_bytes is,
        ))
        (omega arith) (rw (one, two) (unpack_replace_orders-bytes is (omega arith) v))
