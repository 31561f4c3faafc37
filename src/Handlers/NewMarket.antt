-- ===== src/Handlers/NewMarket.antt =====
-- The steps of `process_initialize_market` of dex/src/state.rs, and what the loads make of their results.
use openbook_dex.Prelude.{
  ℕ, ◌<◌, ◌≡◌, refl, ap, true, false, not, none, some, List, [], ◌∷◌, ◌⊎◌, inl, inr, arith, ltb,
  ◌==◌, ==_iff, length,
}
use openbook_dex.Error.{ok, state, request_queue_empty, event_queue_too_small}
use openbook_dex.Error.Post.{
  Post, returns, Post->>=, Post-imp, Post-eq, check_assert-true, check_or-true,
}
use openbook_dex.Types.{Address}
use Prim.Native.Nat.{bit_or}
use openbook_dex.Queue.{Queue, EventQueueHeader, event_header, request_header}
use openbook_dex.Request.{RequestQueue}
use openbook_dex.Event.{Event}
use openbook_dex.Market.{MarketState}
use openbook_dex.Critbit.Alloc.{assert_minimum_capacity}
use openbook_dex.Instruction.{InitializeMarketInstruction}
use openbook_dex.Market.{check_flags}
use openbook_dex.Market.Versions.{
  AccountInfo, Market, MarketStateV2, v1, v2, market_state, load_market, load_v1, load_v2,
  open_orders_authority, prune_authority, consume_events_authority, check_flags_v2,
}
use openbook_dex.Market.Loads.{
  BookAccount, load_request_queue_mut, load_event_queue_mut, load_bids_mut, load_asks_mut,
}
use openbook_dex.Handlers.Accounts.{KeyAccount}
use openbook_dex.Handlers.Initialize.{
  InitializeAccounts, first, rest, check_unused, words, init_req_q, init_event_q, init_book,
  market_flags, new_market, key_or, check_all_unused, init_market,
}

module _ (account : AccountInfo MarketStateV2) (program_id : Address) where
  abbrev pub IsLoadedAs : Market → Type 0
  IsLoadedAs m = load_market account program_id false ≡ ok m

  load_fresh_v1 :
      (account.owner == program_id) ≡ true
      → account.contents.inner.account_flags ≡ 3
      → IsLoadedAs (v1 account.contents.inner)
  unfolding load_market load_v1 check_flags
  load_fresh_v1 own flags = rw (flags, own) refl

  load_fresh_v2 :
      (account.owner == program_id) ≡ true
      → (account.contents.inner.account_flags ≡ 515) ⊎ (account.contents.inner.account_flags ≡ 1539)
      → IsLoadedAs (v2 account.contents)
  unfolding load_market load_v2 check_flags_v2
  load_fresh_v2 own (inl flags) = rw (flags, own) refl
  load_fresh_v2 own (inr flags) = rw (flags, own) refl

market_flags-cases :
    (x : KeyAccount) (xs : List KeyAccount)
    → (market_flags (x ∷ xs) ≡ 515) ⊎ (market_flags (x ∷ xs) ≡ 1539)
unfolding market_flags
market_flags-cases x [] = inl refl
market_flags-cases x (y ∷ []) = inl refl
market_flags-cases x (y ∷ z ∷ zs) = inr refl

-- The authorities that the handlers read from a market are those that it was made with, in this order:
-- that of the open orders, that of the pruning and that of the events. A market without any names none,
-- and the pruning has the default key where only the first is given.
abbrev pub NamesAuthorities : List KeyAccount → Market → Type 0
NamesAuthorities [] m =
    (open_orders_authority m ≡ none)
    × (prune_authority m ≡ none)
    × (consume_events_authority m ≡ ok none)
NamesAuthorities (x ∷ []) m =
    (open_orders_authority m ≡ some x.key)
    × (prune_authority m ≡ some 0)
    × (consume_events_authority m ≡ ok none)
NamesAuthorities (x ∷ y ∷ []) m =
    (open_orders_authority m ≡ some x.key)
    × (prune_authority m ≡ some y.key)
    × (consume_events_authority m ≡ ok none)
NamesAuthorities (x ∷ y ∷ z ∷ zs) m =
    (open_orders_authority m ≡ some x.key)
    × (prune_authority m ≡ some y.key)
    × (consume_events_authority m ≡ ok (some z.key))

v1-NamesAuthorities : (m : MarketState) → NamesAuthorities [] (v1 m)
unfolding open_orders_authority prune_authority consume_events_authority
v1-NamesAuthorities m = (refl, refl, refl)

v2-NamesAuthorities :
    (x : KeyAccount) (xs : List KeyAccount) (inner : MarketState) (old : Address)
    → inner.account_flags ≡ market_flags (x ∷ xs)
    → NamesAuthorities (x ∷ xs) (
        v2 (record {
          inner = inner;
          open_orders_authority = x.key;
          prune_authority = key_or 0 (first xs);
          consume_events_authority = key_or old (first (rest xs));
        }))
unfolding open_orders_authority prune_authority consume_events_authority market_flags
v2-NamesAuthorities x [] inner old e = (refl, refl, rw e refl)
v2-NamesAuthorities x (y ∷ []) inner old e = (refl, refl, rw e refl)
v2-NamesAuthorities x (y ∷ z ∷ zs) inner old e = (refl, refl, rw e refl)

-- The market loads, in the layout that its authorities ask for.
pub load_new :
    (program_id : Address) (i : InitializeMarketInstruction) (a : InitializeAccounts)
    (authorities : List KeyAccount)
    → a.remaining ≡ authorities
    → (a.market.owner == program_id) ≡ true
    → Post
        (λ contents.
          let market = a.market in
          (m : Market) × IsLoadedAs (record market { contents = contents }) program_id m
          × (market_state m ≡ new_market i a)
          × NamesAuthorities authorities m)
        (init_market i a authorities)
unfolding init_market market_flags
load_new program_id i a [] e own =
    let market = a.market in
    let old = market.contents in
    let contents = record old { inner = new_market i a } in
    Post->>= (check_assert-true _ _ _) λ _ _. returns {a = contents} (
      v1 (new_market i a),
      load_fresh_v1 (record market { contents = contents }) program_id own (ap market_flags e),
      refl,
      v1-NamesAuthorities (new_market i a),
    )
load_new program_id i a (x ∷ xs) e own =
    let old = a.market.contents in
    let contents : MarketStateV2 = record {
      inner = new_market i a;
      open_orders_authority = x.key;
      prune_authority = key_or 0 (first xs);
      consume_events_authority = key_or old.consume_events_authority (first (rest xs));
    } in
    Post->>= (check_assert-true _ _ _) λ _ _. returns {a = contents} (
      v2 contents,
      load_fresh_v2 _ program_id own (rw e (market_flags-cases x xs)),
      refl,
      v2-NamesAuthorities x xs (new_market i a) old.consume_events_authority (ap market_flags e),
    )

-- The market is made of unused accounts of the program.
check_unused-owner :
    {A : Type 0} (program_id : Address) (word : A → ℕ) (account : AccountInfo A)
    → Post (λ _. (account.owner == program_id) ≡ true) (check_unused program_id word account)
unfolding check_unused
check_unused-owner program_id word account =
    Post->>= (check_assert-true _ _ _) λ _ own. Post-imp (Post-eq _) λ _ _. own

pub check_all_unused-owner :
    (program_id : Address) (a : InitializeAccounts)
    → Post (λ _. (a.market.owner == program_id) ≡ true) (check_all_unused program_id a)
unfolding check_all_unused
check_all_unused-owner program_id a =
    Post->>= (check_unused-owner program_id (λ m. m.inner.account_flags) a.market)
      λ _ own. Post-imp (Post-eq _) λ _ _. own

self : (x : ℕ) → (x == x) ≡ true
self x = (==_iff x x).1 refl

-- What the steps make of the accounts.
abbrev pub made_req_q : AccountInfo RequestQueue → AccountInfo RequestQueue
made_req_q account =
    let q = account.contents in
    record account {
      contents = record q {
        header = record { account_flags = 9; head = 0; count = 0; next_seq_num = 0 };
      };
    }

abbrev pub made_event_q :
    AccountInfo (Queue EventQueueHeader Event) → AccountInfo (Queue EventQueueHeader Event)
made_event_q account =
    let q = account.contents in
    record account {
      contents = record q {
        header = record { account_flags = 17; head = 0; count = 0; seq_num = 0 };
      };
    }

abbrev pub made_book : ℕ → AccountInfo BookAccount → AccountInfo BookAccount
made_book flags account =
    let book = account.contents in
    record account { contents = record book { account_flags = flags } }

pub init_req_q-eq :
    (account : AccountInfo RequestQueue) → Post (λ b. b ≡ made_req_q account) (init_req_q account)
unfolding init_req_q
init_req_q-eq account =
    Post->>= (check_or-true (not (length account.contents.buf == 0)) request_queue_empty)
      λ _ _. returns {a = made_req_q account} refl

pub init_event_q-eq :
    (account : AccountInfo (Queue EventQueueHeader Event))
    → Post
        (λ b. (b ≡ made_event_q account) × (0 < length account.contents.buf))
        (init_event_q account)
unfolding init_event_q
init_event_q-eq account =
    Post->>= (check_assert-true state 3626 (ltb 4 (words account.data_len))) λ _ _.
      Post->>= (check_or-true (not (ltb (length account.contents.buf) 128)) event_queue_too_small)
        λ _ large. returns {a = made_event_q account} (refl, ground arith)

pub init_book-eq :
    (flag : ℕ) (account : AccountInfo BookAccount)
    → Post (λ b. b ≡ made_book (bit_or 1 flag) account) (init_book flag account)
unfolding init_book
init_book-eq flag account =
    Post->>= (check_assert-true state 3644 (ltb 1 (words account.data_len))) λ _ _.
      Post->>= (Post-eq (assert_minimum_capacity account.contents.slab 100))
        λ _ _. returns {a = made_book (bit_or 1 flag) account} refl

-- What the handlers load then.
module _ (m : MarketState) where
  pub loads_req_q :
      (a : AccountInfo RequestQueue)
      → m.req_q ≡ a.key
      → load_request_queue_mut m (made_req_q a) ≡ ok (made_req_q a).contents
  unfolding load_request_queue_mut
  loads_req_q a e = rw (e, self a.key) refl

  pub loads_event_q :
      (a : AccountInfo (Queue EventQueueHeader Event))
      → m.event_q ≡ a.key
      → load_event_queue_mut m (made_event_q a) ≡ ok (made_event_q a).contents
  unfolding load_event_queue_mut
  loads_event_q a e = rw (e, self a.key) refl

  pub loads_bids :
      (a : AccountInfo BookAccount)
      → m.bids ≡ a.key
      → load_bids_mut m (made_book 33 a) ≡ ok a.contents.slab
  unfolding load_bids_mut
  loads_bids a e = rw (e, self a.key) refl

  pub loads_asks :
      (a : AccountInfo BookAccount)
      → m.asks ≡ a.key
      → load_asks_mut m (made_book 65 a) ≡ ok a.contents.slab
  unfolding load_asks_mut
  loads_asks a e = rw (e, self a.key) refl
