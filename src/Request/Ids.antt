-- ===== src/Request/Ids.antt =====
-- Price and time in the order ids that `gen_order_id` of dex/src/state.rs makes.
use openbook_dex.Prelude.{
  ℕ, ◌+◌, ◌*◌, ◌%◌, ◌^◌, ◌<◌, ◌≡◌, ◌↔◌, arith, IsU64, u64_mod, u128_mod, or-add,
}
use openbook_dex.Types.{Side, bid, ask}
use openbook_dex.Request.{RequestQueue, gen_order_id, lower_half}
use openbook_dex.Matching.State.{extract_price_from_order_id}

lower_half-lt : (side : Side) (n : ℕ) → IsU64 n → lower_half side n < u64_mod
unfolding lower_half
lower_half-lt bid n h = omega arith
lower_half-lt ask n h = omega arith

-- The id is the price above the lower half.
gen_order_id-eq :
    (q : RequestQueue) (price : ℕ) (side : Side)
    → IsU64 price
    → IsU64 q.header.next_seq_num
    → (gen_order_id q price side).0 ≡ price * 2 ^ 64 + lower_half side q.header.next_seq_num
unfolding gen_order_id
gen_order_id-eq q price side h h' =
    let fits : price * 2 ^ 64 % u128_mod ≡ price * 2 ^ 64 = omega arith in
    let low = lower_half-lt side q.header.next_seq_num h' in
    rw fits (or-add 64 price (lower_half side q.header.next_seq_num) low)

-- The id is a `u128`.
pub gen_order_id-lt :
    (q : RequestQueue) (price : ℕ) (side : Side)
    → IsU64 price
    → IsU64 q.header.next_seq_num
    → (gen_order_id q price side).0 < u128_mod
gen_order_id-lt q price side h h' =
    omega (arith, gen_order_id-eq q price side h h', lower_half-lt side q.header.next_seq_num h')

-- The price that matching reads from an order's id is the price that the id was made with.
pub extract_price-gen_order_id :
    (q : RequestQueue) (price : ℕ) (side : Side)
    → IsU64 price
    → IsU64 q.header.next_seq_num
    → extract_price_from_order_id (gen_order_id q price side).0 ≡ price
unfolding extract_price_from_order_id
extract_price-gen_order_id q price side h h' =
    omega (arith, gen_order_id-eq q price side h h', lower_half-lt side q.header.next_seq_num h')

-- Price and time priority: among the bids, where the largest id is best, an order goes ahead of one
-- with an earlier sequence number just when its price is higher; among the offers, where the smallest
-- id is best, just when its price is lower.
pub gen_order_id-priority :
    (q r : RequestQueue) (price price' : ℕ)
    → IsU64 price
    → IsU64 price'
    → IsU64 r.header.next_seq_num
    → q.header.next_seq_num < r.header.next_seq_num
    → (((gen_order_id q price bid).0 < (gen_order_id r price' bid).0) ↔ (price < price'))
      × (((gen_order_id r price' ask).0 < (gen_order_id q price ask).0) ↔ (price' < price))
unfolding lower_half
gen_order_id-priority q r price price' h h' small earlier =
    let small' : IsU64 q.header.next_seq_num = omega arith in
    rw
      (
        gen_order_id-eq q price bid h small',
        gen_order_id-eq r price' bid h' small,
        gen_order_id-eq r price' ask h' small,
        gen_order_id-eq q price ask h small',
      )
      ((λ t. omega arith, λ t. omega arith), (λ t. omega arith, λ t. omega arith))
