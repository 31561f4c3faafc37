-- ===== src/Handlers/Signers.antt =====
-- Who must sign for the cancels and the pruning of dex/src/state.rs, and what they do to the accounts that
-- they load.
use openbook_dex.Prelude.{
  ℕ, ◌+◌, ◌≡◌, refl, sym, ap, ◌∙◌, inl, inr, true, false, Bool, Option, none, some, leb, ◌==◌, not,
  ==_iff,
}
use openbook_dex.Error.{
  DexResult, ok, err, panic, assert, check_or, wrong_bids_account, wrong_asks_account,
  wrong_event_queue_account, DexErrorCode, ◌>>◌, check_assert, state,
}
use openbook_dex.Error.Post.{
  Post, returns, Post-ok, Post-imp, Post->>=, Post-eq, check_assert-true, check_or-eq-ok,
}
use openbook_dex.Types.{Address}
use openbook_dex.OpenOrders.{OpenOrders}
use openbook_dex.Market.Versions.{AccountInfo, Market, market_state, load_market, prune_authority}
use openbook_dex.Market.Loads.{
  load_orders_mut, load_bids_mut, load_asks_mut, load_event_queue_mut, BookAccount, key_eq,
}
use openbook_dex.Queue.{Queue, EventQueueHeader}
use openbook_dex.Event.{Event}
use openbook_dex.Market.Claims.{load_orders_mut_lem}
use openbook_dex.Matching.State.{Context}
use openbook_dex.Handlers.Accounts.{or_unreachable, signer_account}
use openbook_dex.Handlers.Cancels.{
  CancelState, CancelAccounts, PruneAccounts, load_context, parse_cancel, CancelRequest,
  by_order_id, by_client_id, by_client_ids, cancel_request, cancel_order_v2_instruction,
  cancel_order_by_client_id_v2_instruction, cancel_orders_by_client_ids_instruction,
  process_cancel_order_v2, prune_instruction, non_zeros,
}
use openbook_dex.Handlers.Balances.{
  IsKept, cancel_order_v2-IsKept, process_cancel-Post, process_cancels-Post, process_prune-Post,
}

-- What is loaded where no rent is given is what the account holds.
loaded_as_held :
    (m : Market) (a : AccountInfo OpenOrders) (key p : Address) (o : OpenOrders)
    → load_orders_mut m a (some key) p none none ≡ ok o
    → (o ≡ a.contents) × (o.owner ≡ key) × (a.owner ≡ p)
loaded_as_held m a key p o e =
    let (loaded, how) = load_orders_mut_lem m a (some key) p none none o e in
    elim how [
      | inl same ↦ (same, (==_iff _ _).0 loaded.owned, loaded.program)
      | inr claimed ↦ let (_, missing, _) = claimed.exempt in absurd (cc)
    ]

-- The book, the queue and the market that a handler works on are those of the accounts, and these are
-- the accounts that the market names.
pub record IsOfMarket (m : Market) (bids asks : AccountInfo BookAccount)
    (event_q : AccountInfo (Queue EventQueueHeader Event)) (c : Context) : Type 0 where
  pub state : c.market_state ≡ market_state m
  pub bids_held : c.bids ≡ bids.contents.slab
  pub asks_held : c.asks ≡ asks.contents.slab
  pub events_held : c.event_q ≡ event_q.contents
  pub bids_named : bids.key ≡ (market_state m).bids
  pub asks_named : asks.key ≡ (market_state m).asks
  pub events_named : event_q.key ≡ (market_state m).event_q

or_unreachable-eq-ok :
    {A : Type 0} (line : ℕ) (r : DexResult A) {a : A} → or_unreachable line r ≡ ok a → r ≡ ok a
or_unreachable-eq-ok line (ok a) e = e
or_unreachable-eq-ok line (err x) e = absurd (cc)
or_unreachable-eq-ok line panic e = absurd (cc)

-- What the loads of a book's side and of a queue have in common.
named :
    {A : Type 0} (x y : Address) (c : DexErrorCode) (i j : Bool) (line : ℕ) (a : A)
    → Post
        (λ r. (r ≡ a) × (x ≡ y))
        (check_or (x == y) c >> (assert i >> (check_assert state line j >> ok a)))
named x y c i j line a = Post->>= (Post-eq (check_or (x == y) c)) λ _ key.
    Post->>= (Post-eq (assert i)) λ _ _.
      Post->>= (Post-eq (check_assert state line j))
        λ _ _. returns (refl, (==_iff x y).0 (check_or-eq-ok _ _ key))

load_context-IsOfMarket :
    (m : Market) (line : ℕ) (b a : AccountInfo BookAccount)
    (q : AccountInfo (Queue EventQueueHeader Event))
    → Post (IsOfMarket m b a q) (load_context m line b a q)
unfolding load_context load_bids_mut load_asks_mut load_event_queue_mut
load_context-IsOfMarket m line b a q =
    let s = market_state m in
    Post->>= (Post-eq (or_unreachable line (load_bids_mut s b))) λ _ eb.
      Post->>= (Post-eq (or_unreachable (line + 1) (load_asks_mut s a))) λ _ ea.
        Post->>= (named q.key s.event_q wrong_event_queue_account _ _ 654 q.contents) λ _ eq.
          let (bids, bids_key) =
            Post-ok (named b.key s.bids wrong_bids_account _ _ 604 b.contents.slab)
              (or_unreachable-eq-ok _ _ eb) in
          let (asks, asks_key) =
            Post-ok (named a.key s.asks wrong_asks_account _ _ 622 a.contents.slab)
              (or_unreachable-eq-ok _ _ ea) in
          returns (record {
            state = refl;
            bids_held = bids;
            asks_held = asks;
            events_held = eq.0;
            bids_named = bids_key;
            asks_named = asks_key;
            events_named = eq.1;
          })

-- What the accounts of a cancel were parsed to.
pub record IsParsed (program_id : Address) (a : CancelAccounts) (s : CancelState) : Type 0 where
  pub market : Market
  pub loads : load_market a.market program_id true ≡ ok market
  pub signed : a.open_orders_signer.is_signer ≡ true
  pub owned : a.open_orders.contents.owner ≡ a.open_orders_signer.key
  pub program : a.open_orders.owner ≡ program_id
  pub loaded : s.open_orders ≡ a.open_orders.contents
  pub of_market : IsOfMarket market a.bids a.asks a.event_q s.context

-- A cancel ran for the owner of the open orders, from what the accounts held.
pub record IsCancelRun (program_id : Address) (a : CancelAccounts) (t : CancelState) : Type 0 where
  pub start : CancelState
  pub parsed : IsParsed program_id a start
  pub kept : IsKept start t

parse_cancel-IsParsed :
    (p : Address) (line : ℕ) (a : CancelAccounts) → Post (IsParsed p a) (parse_cancel p line a)
unfolding parse_cancel signer_account
parse_cancel-IsParsed p line a =
    Post->>= (Post-eq (or_unreachable line (load_market a.market p true))) λ m market.
      Post->>= (check_assert-true state 1753 a.open_orders_signer.is_signer) λ _ signed.
        Post->>=
          (Post-eq (load_orders_mut m a.open_orders (some a.open_orders_signer.key) p none none))
          λ o loads.
            Post->>= (load_context-IsOfMarket m (line + 12) a.bids a.asks a.event_q) λ c of_market.
              let (same, owned, program) =
                loaded_as_held m a.open_orders a.open_orders_signer.key p o loads in
              returns (record {
                market = m;
                loads = or_unreachable-eq-ok _ _ market;
                signed = signed;
                owned = ap (λ (o : OpenOrders). o.owner) (sym same) ∙ owned;
                program = program;
                loaded = same;
                of_market = of_market;
              })

run_of :
    (p : Address) (a : CancelAccounts) (s t : CancelState)
    → IsParsed p a s
    → IsKept s t
    → IsCancelRun p a t
run_of p a s t v k = record { start = s; parsed = v; kept = k }

cancel_request-Post :
    (p : Address) (r : CancelRequest) (a : CancelAccounts)
    → Post (IsCancelRun p a) (cancel_request p r a)
unfolding cancel_request cancel_order_v2_instruction cancel_order_by_client_id_v2_instruction
    cancel_orders_by_client_ids_instruction process_cancel_order_v2
cancel_request-Post p (by_order_id i) a =
    Post->>= (check_assert-true state 2277 (leb 6 a.count)) λ _ _.
      Post->>= (parse_cancel-IsParsed p 2288 a) λ s v.
        Post-imp (cancel_order_v2-IsKept i.side a.open_orders.key i.order_id s)
          λ t. run_of p a s t v
cancel_request-Post p (by_client_id id) a =
    Post->>= (check_assert-true state 2338 (leb 6 a.count)) λ _ _.
      Post->>= (check_assert-true state 2349 (not (id == 0))) λ _ _.
        Post->>= (parse_cancel-IsParsed p 2351 a)
          λ s v. Post-imp (process_cancel-Post id a.open_orders.key s) λ t. run_of p a s t v
cancel_request-Post p (by_client_ids ids) a =
    Post->>= (check_assert-true state 2401 (leb 6 a.count)) λ _ _.
      Post->>= (parse_cancel-IsParsed p 2418 a) λ s v.
        Post-imp (process_cancels-Post (non_zeros ids) a.open_orders.key s) λ t. run_of p a s t v

-- A cancel, by order id, by client id or by several client ids, succeeds only for open orders of the
-- program whose owner signs; of what their account held nothing changes but the free balances, which
-- grow and not beyond the totals; and the market, whose accounts the book and the queue are, stays as
-- it is.
pub cancel_request_lem :
    (program_id : Address) (r : CancelRequest) (a : CancelAccounts) (t : CancelState)
    → cancel_request program_id r a ≡ ok t
    → IsCancelRun program_id a t
cancel_request_lem p r a t e = Post-ok (cancel_request-Post p r a) e

-- A pruning ran for the market's authority, from what the account held.
pub record IsPruneRun (program_id : Address) (a : PruneAccounts) (t : CancelState) : Type 0 where
  pub market : Market
  pub loads : load_market a.market program_id false ≡ ok market
  pub signed : a.prune_authority.is_signer ≡ true
  pub authorized : prune_authority market ≡ some a.prune_authority.key
  pub owned : a.open_orders.contents.owner ≡ a.open_orders_owner.key
  pub start : CancelState
  pub loaded : start.open_orders ≡ a.open_orders.contents
  pub of_market : IsOfMarket market a.bids a.asks a.event_q start.context
  pub kept : IsKept start t

key_eq-some : (k : Option Address) (a : Address) → key_eq k (some a) ≡ true → k ≡ some a
key_eq-some none a e = absurd (cc)
key_eq-some (some b) a e = ap some ((==_iff _ _).0 e)

prune_instruction-Post :
    (p : Address) (limit : ℕ) (a : PruneAccounts)
    → Post (IsPruneRun p a) (prune_instruction p limit a)
unfolding prune_instruction signer_account
prune_instruction-Post p limit a = Post->>= (check_assert-true state 2717 (a.count == 7)) λ _ _.
    Post->>= (check_assert-true state 1753 a.prune_authority.is_signer) λ _ signed.
      Post->>= (Post-eq (load_market a.market p false)) λ m loads.
        Post->>=
          (check_assert-true state 2731 (key_eq (prune_authority m) (some a.prune_authority.key)))
          λ _ key.
            Post->>=
              (Post-eq (load_orders_mut m a.open_orders (some a.open_orders_owner.key) p none none))
              λ o held.
                Post->>= (load_context-IsOfMarket m 2740 a.bids a.asks a.event_q) λ c of_market.
                  let s : CancelState = record { open_orders = o; context = c } in
                  let (same, owned, _) =
                    loaded_as_held m a.open_orders a.open_orders_owner.key p o held in
                  Post-imp (process_prune-Post limit a.open_orders.key s) λ t k. record {
                    market = m;
                    loads = loads;
                    signed = signed;
                    authorized = key_eq-some _ _ key;
                    owned = ap (λ (o : OpenOrders). o.owner) (sym same) ∙ owned;
                    start = s;
                    loaded = same;
                    of_market = of_market;
                    kept = k;
                  }

-- A pruning succeeds only where the authority signs that an enabled market names for it; of what the
-- account of the open orders held nothing changes but the free balances, which grow and not beyond the
-- totals; and the market, whose accounts the book and the queue are, stays as it is.
pub prune_instruction_lem :
    (program_id : Address) (limit : ℕ) (a : PruneAccounts) (t : CancelState)
    → prune_instruction program_id limit a ≡ ok t
    → IsPruneRun program_id a t
prune_instruction_lem p limit a t e = Post-ok (prune_instruction-Post p limit a) e
