-- ===== src/Matching/Post.antt =====
-- The steps of dex/src/matching.rs that only touch the book or the event queue.
pub use openbook_dex.Error.Post.{
  Post, returns, fails, panics, Post-ok, Post-if, Post-imp, Post->>=, Post-eq, Post-unwrap,
}
use openbook_dex.Prelude.{ℕ, ◌≡◌, refl, ◌∙◌, true, false, Option, none}
use openbook_dex.Types.{Side, bid, ask}
use openbook_dex.Event.{EventView, of_view, Event}
use openbook_dex.Queue.{Pushed, pushed, rejected, push_back, EventQueueHeader, event_header}
use openbook_dex.Critbit.Node.{LeafNode, leaf_node}
use openbook_dex.Critbit.Alloc.{put, Slab}
use openbook_dex.Critbit.Remove.{remove_by_key}
use openbook_dex.Matching.State.{
  Round, returned, broke, OrderRemaining, Context, set_orders, orders, push_event, pushed_or_full,
  set_quantity, remove_order,
}

-- The step left the proceeds and the market alone.
pub record Same (c d : Context) : Type 0 where
  pub proceeds : d.proceeds ≡ c.proceeds
  pub market_state : d.market_state ≡ c.market_state

pub Same-refl : (c : Context) → Same c c
Same-refl c = record { proceeds = refl; market_state = refl }

pub Same-trans : (c d e : Context) → Same c d → Same d e → Same c e
Same-trans c d e a b = record {
  proceeds = b.proceeds ∙ a.proceeds;
  market_state = b.market_state ∙ a.market_state;
}

pub push_event-Same : (c : Context) (v : EventView) → Post (Same c) (push_event c v)
unfolding push_event
push_event-Same c v = Post->>= (Post-eq (push_back c.event_q (of_view v))) λ r _. stored r
  where
    stored : (r : Pushed EventQueueHeader Event) → Post (Same c) (pushed_or_full c r)
    stored (pushed q) = returns (record { proceeds = refl; market_state = refl })
    stored (rejected e) = fails

pub set_orders-Same : (c : Context) (side : Side) (s : Slab) → Same c (set_orders c side s)
set_orders-Same c bid s = record { proceeds = refl; market_state = refl }
set_orders-Same c ask s = record { proceeds = refl; market_state = refl }

pub set_quantity-Same :
    (c : Context) (side : Side) (h : ℕ) (l : LeafNode) (n : ℕ)
    → Post (Same c) (set_quantity c side h l n)
unfolding set_quantity
set_quantity-Same c side h l n =
    Post->>= (Post-eq (put (orders c side) h (leaf_node (record l { quantity = n }))))
      λ s _. returns (set_orders-Same c side s)

pub remove_order-Same :
    (c : Context) (side : Side) (key : ℕ) → Post (Same c) (remove_order c side key)
unfolding remove_order
remove_order-Same c side key =
    Post->>= (Post-eq (remove_by_key (orders c side) key))
      λ r _. Post->>= (Post-unwrap r) λ removed _. returns (set_orders-Same c side removed.1)

-- A round that does not trade breaks with `done` set.
abbrev pub IsDone : {A : Type 0} → Round A → Type 0
IsDone (returned o c) = false ≡ true
IsDone (broke done crossed a c) = done ≡ true

-- Nothing of the order remains.
abbrev pub IsDrained : {A : Type 0} → Option OrderRemaining × A → Type 0
IsDrained r = r.0 ≡ none
