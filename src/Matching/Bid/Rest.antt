-- ===== src/Matching/Bid/Rest.antt =====
-- How the rest of an order that buys comes to rest on the book: the end of `new_bid` in
-- dex/src/matching.rs.
use Prim.Native.Nat.{min}
use openbook_dex.Prelude.{
  ℕ, ◌-◌, ◌*◌, ◌≤◌, ◌≡◌, refl, ◌∙◌, ◌⊎◌, inl, inr, Bool, true, false, not, ◌&&◌, Option, none, some,
  arith, ltb, IsU64, sub64-eq, mul64-eq,
}
use openbook_dex.Error.{panic, ok}
use openbook_dex.Critbit.Node.{LeafNode, new_leaf, leaf_price}
use openbook_dex.Critbit.Alloc.{Slab}
use openbook_dex.Critbit.Insert.{out_of_space, inserted, insert_leaf}
use openbook_dex.Critbit.Remove.{remove_min}
use openbook_dex.Matching.State.{Context}
use openbook_dex.Matching.Post.{
  Post, returns, panics, Post->>=, Post-imp, Post-if, Post-eq, Post-unwrap, Same, Same-trans,
  push_event-Same,
}
use openbook_dex.Matching.Proceeds.{Moves, Same-Adds, unlock_native_pc-Moves}
use openbook_dex.Matching.Bid.{NewBidParams, boot, post, release, to_post, to_post_at}
use openbook_dex.Matching.Bid.Money.{unlocking, div64-Post, mul-le_pos, mul-le_left}

-- The bids of `d` are what inserting the order, with `qty` lots, has made of some slab.
abbrev pub IsPosted : NewBidParams → ℕ → Context → Type 0
IsPosted p qty d =
    (s : Slab) × (h : ℕ) × (old : Option LeafNode) × (insert_leaf s
        (new_leaf p.owner_slot p.order_id p.owner qty p.fee_tier p.client_order_id)
      ≡ ok (inserted h old, d.bids))

-- The leaf that the order becomes.
abbrev leaf_of : NewBidParams → ℕ → LeafNode
leaf_of p qty = new_leaf p.owner_slot p.order_id p.owner qty p.fee_tier p.client_order_id

boot-Post :
    (p : NewBidParams) (qty : ℕ) (c : Context)
    → Post (λ d. Same c d × IsPosted p qty d) (boot c (leaf_of p qty))
unfolding boot
boot-Post p qty c = Post->>= (Post-eq (remove_min c.bids)) λ r _.
    Post->>= (Post-unwrap r) λ removed _. Post->>= (Post-eq (leaf_price removed.0)) λ price _.
      let c₀ = record c { bids = removed.1 } in
      let same : Same c c₀ = record { proceeds = refl; market_state = refl } in
      Post->>= (push_event-Same c₀ _) λ c₁ s.
        Post->>= (Post-eq (insert_leaf c₁.bids (leaf_of p qty))) λ i.
          elim i.0
            as (λ k.
              insert_leaf c₁.bids (leaf_of p qty) ≡ ok (k, i.1)
              → Post (λ d. Same c d × IsPosted p qty d)
                  (elim k [
                    | out_of_space ↦ panic
                    | inserted _ _ ↦ ok (record c₁ { bids = i.1 })
                  ])) [
                    | out_of_space ↦ λ e. panics
                    | inserted h old ↦ λ e.
                        let t = Same-trans c c₀ c₁ same s in
                        returns (
                          record { proceeds = t.proceeds; market_state = t.market_state },
                          (c₁.bids, h, old, e),
                        )
                  ]

pub post-Post :
    (p : NewBidParams) (qty : ℕ) (c : Context)
    → Post (λ d. Same c d × IsPosted p qty d) (post p qty c)
unfolding post
post-Post p qty c = Post->>= (Post-eq (insert_leaf c.bids (leaf_of p qty))) λ i.
    let c₁ = record c { bids = i.1 } in
    let same : Same c c₁ = record { proceeds = refl; market_state = refl } in
    elim i.0
      as (λ k.
        insert_leaf c.bids (leaf_of p qty) ≡ ok (k, i.1)
        → Post (λ d. Same c d × IsPosted p qty d)
            (elim k [ out_of_space ↦ boot c₁ (leaf_of p qty) | inserted _ _ ↦ ok c₁ ])) [
              | out_of_space ↦
                  λ e. Post-imp (boot-Post p qty c₁) (λ d q. (Same-trans c c₁ d same q.0, q.1))
              | inserted h old ↦ λ e. returns (same, (c.bids, h, old, e))
            ]

-- What is to rest on the book: nothing, or lots that the money left pays for at the limit price.
abbrev pub Affordable : NewBidParams → Context → Bool → ℕ → ℕ → ℕ × ℕ → Type 0
Affordable p c crossed coin pc q =
    (q.0 ≡ 0) × (q.1 ≡ 0)
    ⊎ ((limit : ℕ) × (p.limit_price ≡ some limit)
        × (q.0 ≤ coin)
        × (q.0 * limit * c.market_state.pc_lot_size ≤ pc)
        × (q.1 ≡ q.0 * limit)
        × (crossed ≡ false)
        × (p.post_allowed ≡ true))

to_post_at-Post :
    (p : NewBidParams) (c : Context) (crossed : Bool) (coin pc : ℕ) (o : Option ℕ)
    → IsU64 pc
    → p.limit_price ≡ o
    → Post (Affordable p c crossed coin pc) (to_post_at p c crossed coin pc o)
unfolding to_post_at
to_post_at-Post p c crossed coin pc none small e = returns (inl (refl, refl))
to_post_at-Post p c crossed coin pc (some limit) small e =
    let lot = c.market_state.pc_lot_size in
    Post-if (p.post_allowed && not crossed)
      (λ t. Post->>= (div64-Post pc lot) λ lots x. Post->>= (div64-Post lots limit) λ affordable y.
        let qty = min coin affordable in
        let a = mul-le_left qty affordable limit (omega arith) in
        let b = mul-le_left (qty * limit) lots lot (omega arith) in
        let f = mul-le_pos (qty * limit) lot x.1 in
        let m = mul64-eq qty limit (omega arith) in
        returns (inr (limit, e, omega arith, omega arith, m, ground arith, ground arith)))
      (λ f. returns (inl (refl, refl)))

pub to_post-Post :
    (p : NewBidParams) (c : Context) (crossed : Bool) (coin pc : ℕ)
    → IsU64 pc
    → Post (Affordable p c crossed coin pc) (to_post p c crossed coin pc)
to_post-Post p c crossed coin pc small =
    to_post_at-Post p c crossed coin pc p.limit_price small refl

-- What is kept is paid for by the money that is left.
pub kept_lem :
    (p : NewBidParams) (c : Context) (crossed : Bool) (coin pc : ℕ) (q : ℕ × ℕ)
    → Affordable p c crossed coin pc q
    → q.1 * c.market_state.pc_lot_size ≤ pc
kept_lem p c crossed coin pc q (inl (e, e')) = rw e' (omega arith)
kept_lem p c crossed coin pc q (inr (limit, _, _, le, e, _, _)) = rw e le

pub release-Post :
    (p : NewBidParams) (pc qty kept : ℕ) (c : Context)
    → IsU64 pc
    → kept * c.market_state.pc_lot_size ≤ pc
    → Post
        (λ d.
          Moves c d (unlocking (pc - kept * c.market_state.pc_lot_size))
          × ((kept ≡ 0) ⊎ IsPosted p qty d))
        (release p pc qty kept c)
unfolding release
release-Post p pc qty kept c small le =
    let locked = kept * c.market_state.pc_lot_size in
    let e = mul64-eq kept c.market_state.pc_lot_size (omega arith) in
    let e' = sub64-eq pc locked small le in
    rw (e, e')
      (Post->>= (unlock_native_pc-Moves c (pc - locked)) λ c₁ m.
        Post->>= (push_event-Same c₁ _) λ c₂ s.
          let a = m.adds in
          let x = Same-Adds c₁ c₂ s in
          Post-if (ltb 0 kept)
            (λ _. Post-imp (post-Post p qty c₂) λ d q.
              let y = Same-Adds c₂ d q.0 in
              (
                record {
                  adds = omega arith;
                  market_state = (q.0).market_state ∙ s.market_state ∙ m.market_state;
                },
                inr q.1,
              ))
            (λ f. returns (
              record { adds = omega arith; market_state = s.market_state ∙ m.market_state },
              inl (ground arith),
            )))
