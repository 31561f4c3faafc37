-- ===== src/Instruction/Tests.antt =====
-- An instruction of dex/src/instruction.rs, packed by a serializer that keeps to what is documented of
-- bincode.
use openbook_dex.Prelude.{ℕ, ◌≡◌, refl, ap, List, [], ◌++◌, some, arith}
use openbook_dex.Types.{bid, post_only, decrement_take}
use openbook_dex.Instruction.{NewOrderInstructionV3, new_order_v3}
use openbook_dex.Instruction.Bytes.{to_le}
use openbook_dex.Instruction.Orders.{IsValidV3}
use openbook_dex.Instruction.Pack.{
  Value, Values, number, fields, variant, sequence, done, also, concat, count, Bincode, pack,
}
use openbook_dex.Instruction.Unpack.{unpack}
use openbook_dex.Instruction.RoundTrip.{unpack-pack}

mutual
  unfolding to_le

  encode : Value → List ℕ
  encode (number w n) = to_le w n
  encode (fields vs) = encode_all vs
  encode (variant i vs) = to_le 4 i ++ encode_all vs
  encode (sequence vs) = to_le 8 (count vs) ++ encode_all vs

  encode_all : Values → List ℕ
  encode_all done = []
  encode_all (also v vs) = encode v ++ encode_all vs

encode_all-concat : (vs : Values) → encode_all vs ≡ concat encode vs
unfolding encode_all
encode_all-concat done = refl
encode_all-concat (also v vs) = ap (◌++◌ (encode v)) (encode_all-concat vs)

encode-Bincode : Bincode encode
unfolding encode
encode-Bincode = record {
  serialize-number = λ w n. refl;
  serialize-fields = λ vs. encode_all-concat vs;
  serialize-variant = λ i vs. ap (◌++◌ (to_le 4 i)) (encode_all-concat vs);
  serialize-sequence = λ vs. ap (◌++◌ (to_le 8 (count vs))) (encode_all-concat vs);
}

abbrev buy : NewOrderInstructionV3
buy = record {
  side = bid;
  limit_price = 100;
  max_coin_qty = 4;
  max_native_pc_qty_including_fees = 20000;
  self_trade_behavior = decrement_take;
  order_type = post_only;
  client_order_id = 0;
  limit = 10;
  max_ts = 1700000000;
}

buy-IsValidV3 : IsValidV3 buy
buy-IsValidV3 = omega arith

unpack-pack_example : unpack (pack encode (new_order_v3 buy)) ≡ some (new_order_v3 buy)
unpack-pack_example = unpack-pack encode encode-Bincode (new_order_v3 buy) buy-IsValidV3
