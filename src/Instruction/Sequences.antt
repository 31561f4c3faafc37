-- ===== src/Instruction/Sequences.antt =====
-- Reading back the sequences of dex/src/instruction.rs: eight client ids, and the orders of a
-- replacement.
use openbook_dex.Prelude.{
  ℕ, zero, suc, ◌+◌, ◌*◌, ◌-◌, ◌/◌, ◌^◌, ◌<◌, ◌≤◌, ◌≡◌, refl, ap, ◌∙◌, List, [], ◌∷◌, ◌++◌, some,
  true, false, arith, length, take, drop, length-append, IsU64, ltb, ◌==◌, take-append_exact,
  drop-append_exact,
}
use openbook_dex.Instruction.{NewOrderInstructionV3, replace_orders_by_client_ids}
use openbook_dex.Instruction.Bytes.{to_le, length-to_le, read-to_le}
use openbook_dex.Instruction.Orders.{
  IsValidV3, v3_bytes, v3_bytes-append, length-v3_bytes, unpack_new_order_v3-bytes,
}
use openbook_dex.Instruction.Unpack.{unpack_client_ids, unpack_new_orders, unpack_replace_orders}

abbrev pub All {ℓ κ} : {A : Type ℓ} → (A → Type κ) → List A → Type κ
All P [] = Unit
All P (x ∷ xs) = P x × All P xs

abbrev pub ids_bytes : List ℕ → List ℕ
ids_bytes [] = []
ids_bytes (n ∷ ns) = to_le 8 n ++ ids_bytes ns

pub length-ids_bytes : (ids : List ℕ) → length (ids_bytes ids) ≡ 8 * length ids
length-ids_bytes [] = refl
length-ids_bytes (n ∷ ns) =
    omega (arith, length-append (to_le 8 n) (ids_bytes ns), length-to_le 8 n, length-ids_bytes ns)

pub unpack_client_ids-bytes :
    (ids : List ℕ) → All IsU64 ids → unpack_client_ids (length ids) (ids_bytes ids) ≡ ids
unfolding unpack_client_ids
unpack_client_ids-bytes [] h = refl
unpack_client_ids-bytes (n ∷ ns) (h, hs) =
    let long : ltb (length (ids_bytes (n ∷ ns))) 8 ≡ false =
      (let e = length-ids_bytes (n ∷ ns) in ground arith) in
    rw (long, read-to_le 8 n (ids_bytes ns) h) (ap (◌∷◌ n) (unpack_client_ids-bytes ns hs))

abbrev pub orders_bytes : List NewOrderInstructionV3 → List ℕ
orders_bytes [] = []
orders_bytes (i ∷ is) = v3_bytes i (orders_bytes is)

pub length-orders_bytes :
    (is : List NewOrderInstructionV3) → length (orders_bytes is) ≡ 54 * length is
length-orders_bytes [] = refl
length-orders_bytes (i ∷ is) =
    omega (arith, length-v3_bytes i (orders_bytes is), length-orders_bytes is)

unpack_new_orders-bytes :
    (fuel : ℕ) (is : List NewOrderInstructionV3)
    → length is ≤ fuel
    → All IsValidV3 is
    → unpack_new_orders fuel (orders_bytes is) ≡ some is
unfolding unpack_new_orders
unpack_new_orders-bytes zero [] h v = refl
unpack_new_orders-bytes zero (i ∷ is) h v = absurd (omega arith)
unpack_new_orders-bytes (suc fuel) [] h v = refl
unpack_new_orders-bytes (suc fuel) (i ∷ is) h (v, vs) =
    let long : ltb (length (orders_bytes (i ∷ is))) 54 ≡ false =
      (let e = length-orders_bytes (i ∷ is) in ground arith) in
    let front : take 54 (v3_bytes i (orders_bytes is)) ≡ v3_bytes i [] =
      ap (take 54) (v3_bytes-append i (orders_bytes is))
      ∙ take-append_exact 54 (v3_bytes i []) (orders_bytes is) (length-v3_bytes i []) in
    let back : drop 54 (v3_bytes i (orders_bytes is)) ≡ orders_bytes is =
      ap (drop 54) (v3_bytes-append i (orders_bytes is))
      ∙ drop-append_exact 54 (v3_bytes i []) (orders_bytes is) (length-v3_bytes i []) in
    rw
      (
        long,
        front,
        back,
        unpack_new_order_v3-bytes i [] v,
        unpack_new_orders-bytes fuel is (omega arith) vs,
      )
      refl

pub unpack_replace_orders-bytes :
    (is : List NewOrderInstructionV3)
    → length is < 2 ^ 64
    → All IsValidV3 is
    → unpack_replace_orders (to_le 8 (length is) ++ orders_bytes is)
      ≡ some (replace_orders_by_client_ids is)
unfolding unpack_replace_orders
unpack_replace_orders-bytes is h v =
    let whole : length (to_le 8 (length is) ++ orders_bytes is) ≡ 8 + 54 * length is = omega (
      arith,
      length-append (to_le 8 (length is)) (orders_bytes is),
      length-to_le 8 (length is),
      length-orders_bytes is,
    ) in
    let counts : (length is == (8 + 54 * length is - 8) / 54) ≡ true = ground arith in
    rw
      (
        read-to_le 8 (length is) (orders_bytes is) h,
        whole,
        counts,
        unpack_new_orders-bytes (length (orders_bytes is)) is
            (omega (arith, length-orders_bytes is)) v,
      )
      refl
