-- ===== src/Handlers/Fresh/Tests.antt =====
-- A market with an authority for its open orders is made: `process_initialize_market` of
-- dex/src/state.rs.
use openbook_dex.Prelude.{
  ℕ, zero, suc, ◌^◌, ◌<◌, ◌≡◌, refl, true, List, [], ◌∷◌, arith, leb, length,
}
use openbook_dex.Error.{DexResult, ok, err, panic}
use openbook_dex.Types.{Address}
use openbook_dex.Request.{Request}
use openbook_dex.Critbit.Node.{leaf_node}
use openbook_dex.Critbit.Alloc.{assert_minimum_capacity}
use openbook_dex.Instruction.{InitializeMarketInstruction}
use openbook_dex.Market.Versions.{AccountInfo}
use openbook_dex.Market.Loads.{Rent, BookAccount}
use openbook_dex.Matching.Sample.{market, resting, no_event}
use openbook_dex.Handlers.Initialize.{Vault, InitializeAccounts, initialize_market_instruction}
use openbook_dex.Handlers.Fresh.{IsChecked, IsFresh, initialize_market_lem}

repeated : {A : Type 0} → ℕ → A → List A
repeated zero x = []
repeated (suc n) x = x ∷ repeated n x

abbrev account_at : {A : Type 0} → ℕ → ℕ → ℕ → A → AccountInfo A
account_at key owner data_len contents = record {
  key = key;
  owner = owner;
  is_signer = true;
  lamports = 100000;
  data_len = data_len;
  contents = contents;
}

abbrev unused_book : BookAccount
unused_book = record {
  account_flags = 0;
  slab = record {
    header = record {
      bump_index = 0;
      free_list_len = 0;
      free_list_head = 0;
      root_node = 0;
      leaf_count = 0;
    };
    nodes = repeated 201 (leaf_node resting);
  };
}

abbrev vault_at : ℕ → ℕ → Vault
vault_at key mint = record {
  account = account_at key 60 165 (record { mint = mint; owner = 99; balance = 0 });
  delegate_tag = 0;
  close_authority_tag = 0;
}

abbrev no_request : Request
no_request = record {
  request_flags = 0;
  owner_slot = 0;
  fee_tier = 0;
  self_trade_behavior = 0;
  max_coin_qty_or_cancel_id = 0;
  native_pc_qty_locked = 0;
  order_id = 0;
  owner = 0;
  client_order_id = 0;
}

abbrev accounts : InitializeAccounts
accounts = record {
  market = account_at 1 20 1476 (record {
    inner = record market { account_flags = 0 };
    open_orders_authority = 0;
    prune_authority = 0;
    consume_events_authority = 0;
  });
  req_q = account_at 6 20 132 (record {
    header = record { account_flags = 0; head = 0; count = 0; next_seq_num = 0 };
    buf = repeated 1 no_request;
  });
  event_q = account_at 8 20 11308 (record {
    header = record { account_flags = 0; head = 0; count = 0; seq_num = 0 };
    buf = repeated 128 no_event;
  });
  bids = account_at 9 20 14524 unused_book;
  asks = account_at 10 20 14524 unused_book;
  coin_vault = vault_at 4 2;
  pc_vault = vault_at 5 3;
  coin_mint = account_at 2 60 82 tt;
  pc_mint = account_at 3 60 82 tt;
  remaining = account_at 30 20 0 tt ∷ [];
}

abbrev instruction : InitializeMarketInstruction
instruction = record {
  coin_lot_size = 10;
  pc_lot_size = 50;
  fee_rate_bps = 0;
  vault_signer_nonce = 0;
  pc_dust_threshold = 1;
}

abbrev rent : Rent
rent lamports data_len = leb data_len lamports

-- The signer of every market is 99.
abbrev signer_key : ℕ → Address → Address → DexResult Address
signer_key nonce market_key program_id = ok 99

abbrev made : InitializeAccounts
made = elim (initialize_market_instruction signer_key 60 20 rent instruction accounts) [
  | ok b ↦ b
  | err e ↦ accounts
  | panic ↦ accounts
]

makes : initialize_market_instruction signer_key 60 20 rent instruction accounts ≡ ok made
unfolding initialize_market_instruction assert_minimum_capacity repeated
makes = refl

fits : length accounts.event_q.contents.buf < 2 ^ 63
unfolding repeated
fits = omega arith

initialize_market_lem_example :
    IsChecked signer_key 20 instruction accounts × IsFresh 20 instruction accounts made
initialize_market_lem_example =
    initialize_market_lem signer_key 60 20 rent instruction accounts made fits makes
