-- ===== src/Error.antt =====
-- dex/src/error.rs: the error codes, the assertion errors with their place in the source, and the
-- result of an instruction. A panic (`unwrap`, `assert!`, `unreachable!`, an index out of range)
-- aborts the transaction, as an error does, and is a third outcome.
pub mod Codes
pub mod Post
mod Tests
use openbook_dex.Prelude.{
  ℕ, ◌+◌, ◌*◌, ◌^◌, ◌≡◌, refl, Bool, true, false, Option, none, some, arith, ◌==◌, if◌then◌else◌,
}

pub data DexErrorCode : Type 0 where
  invalid_market_flags invalid_ask_flags invalid_bid_flags : DexErrorCode
  invalid_queue_length owner_account_not_provided consume_events_queue_failure : DexErrorCode
  wrong_coin_vault wrong_pc_vault wrong_coin_mint wrong_pc_mint : DexErrorCode
  coin_vault_program_id pc_vault_program_id coin_mint_program_id : DexErrorCode
  pc_mint_program_id wrong_coin_mint_size wrong_pc_mint_size : DexErrorCode
  wrong_coin_vault_size wrong_pc_vault_size uninitialized_vault : DexErrorCode
  uninitialized_mint coin_mint_uninitialized pc_mint_uninitialized wrong_mint : DexErrorCode
  wrong_vault_owner vault_has_delegate already_initialized : DexErrorCode
  wrong_account_data_alignment wrong_account_data_padding_length : DexErrorCode
  wrong_account_head_padding wrong_account_tail_padding request_queue_empty : DexErrorCode
  event_queue_too_small slab_too_small bad_vault_signer_nonce : DexErrorCode
  insufficient_funds spl_account_program_id spl_account_len : DexErrorCode
  wrong_fee_discount_account_owner wrong_fee_discount_mint : DexErrorCode
  coin_payer_program_id pc_payer_program_id client_id_not_found : DexErrorCode
  too_many_open_orders fake_error_so_we_dont_change_numbers borrow_error : DexErrorCode
  wrong_orders_account wrong_bids_account wrong_asks_account : DexErrorCode
  wrong_request_queue_account wrong_event_queue_account request_queue_full : DexErrorCode
  event_queue_full market_is_disabled wrong_signer transfer_failed : DexErrorCode
  client_order_id_is_zero wrong_rent_sysvar_account rent_not_provided : DexErrorCode
  orders_not_rent_exempt order_not_found order_not_yours would_self_trade : DexErrorCode
  invalid_open_orders_authority order_max_timestamp_exceeded unknown : DexErrorCode
  assertion_error : DexErrorCode

-- `u32::from`: the discriminants.
unfoldable pub to_u32 : DexErrorCode → ℕ
to_u32 invalid_market_flags = 0
to_u32 invalid_ask_flags = 1
to_u32 invalid_bid_flags = 2
to_u32 invalid_queue_length = 3
to_u32 owner_account_not_provided = 4
to_u32 consume_events_queue_failure = 5
to_u32 wrong_coin_vault = 6
to_u32 wrong_pc_vault = 7
to_u32 wrong_coin_mint = 8
to_u32 wrong_pc_mint = 9
to_u32 coin_vault_program_id = 10
to_u32 pc_vault_program_id = 11
to_u32 coin_mint_program_id = 12
to_u32 pc_mint_program_id = 13
to_u32 wrong_coin_mint_size = 14
to_u32 wrong_pc_mint_size = 15
to_u32 wrong_coin_vault_size = 16
to_u32 wrong_pc_vault_size = 17
to_u32 uninitialized_vault = 18
to_u32 uninitialized_mint = 19
to_u32 coin_mint_uninitialized = 20
to_u32 pc_mint_uninitialized = 21
to_u32 wrong_mint = 22
to_u32 wrong_vault_owner = 23
to_u32 vault_has_delegate = 24
to_u32 already_initialized = 25
to_u32 wrong_account_data_alignment = 26
to_u32 wrong_account_data_padding_length = 27
to_u32 wrong_account_head_padding = 28
to_u32 wrong_account_tail_padding = 29
to_u32 request_queue_empty = 30
to_u32 event_queue_too_small = 31
to_u32 slab_too_small = 32
to_u32 bad_vault_signer_nonce = 33
to_u32 insufficient_funds = 34
to_u32 spl_account_program_id = 35
to_u32 spl_account_len = 36
to_u32 wrong_fee_discount_account_owner = 37
to_u32 wrong_fee_discount_mint = 38
to_u32 coin_payer_program_id = 39
to_u32 pc_payer_program_id = 40
to_u32 client_id_not_found = 41
to_u32 too_many_open_orders = 42
to_u32 fake_error_so_we_dont_change_numbers = 43
to_u32 borrow_error = 44
to_u32 wrong_orders_account = 45
to_u32 wrong_bids_account = 46
to_u32 wrong_asks_account = 47
to_u32 wrong_request_queue_account = 48
to_u32 wrong_event_queue_account = 49
to_u32 request_queue_full = 50
to_u32 event_queue_full = 51
to_u32 market_is_disabled = 52
to_u32 wrong_signer = 53
to_u32 transfer_failed = 54
to_u32 client_order_id_is_zero = 55
to_u32 wrong_rent_sysvar_account = 56
to_u32 rent_not_provided = 57
to_u32 orders_not_rent_exempt = 58
to_u32 order_not_found = 59
to_u32 order_not_yours = 60
to_u32 would_self_trade = 61
to_u32 invalid_open_orders_authority = 62
to_u32 order_max_timestamp_exceeded = 63
to_u32 unknown = 1000
to_u32 assertion_error = 1001

pub data SourceFileId : Type 0 where
  state matching critbit : SourceFileId

unfoldable pub file_to_u8 : SourceFileId → ℕ
file_to_u8 state = 1
file_to_u8 matching = 2
file_to_u8 critbit = 3

-- `line` is a `u16`.
pub record AssertionError : Type 0 where
  pub line : ℕ
  pub file_id : SourceFileId

-- `impl From<AssertionError> for u32`: the line below, the file's number in the top byte.
unfoldable pub assertion_to_u32 : AssertionError → ℕ
unfolding file_to_u8
assertion_to_u32 e = (e.line + file_to_u8 e.file_id * 2 ^ 24)

-- `ProgramError` is the runtime's; the program makes only its `Custom` case.
pub data DexError : Type 0 where
  program_error : ℕ → DexError
  error_code : DexErrorCode → DexError

-- `impl From<AssertionError> for DexError`.
unfoldable pub from_assertion : AssertionError → DexError
unfolding assertion_to_u32
from_assertion e = program_error (assertion_to_u32 e)

-- `impl From<DexError> for ProgramError`: the number that the runtime reports.
unfoldable pub custom_code : DexError → ℕ
unfolding to_u32
custom_code (program_error n) = n
custom_code (error_code c) = to_u32 c

pub data DexResult {ℓ} (A : Type ℓ) : Type ℓ where
  ok : A → DexResult A
  err : DexError → DexResult A
  panic : DexResult A

infixl 5 ◌>>=◌ ◌>>◌
-- The `?` operator.
abbrev pub ◌>>=◌ {ℓ κ} : {A : Type ℓ} {B : Type κ} → DexResult A → (A → DexResult B) → DexResult B
ok a >>= f = f a
err e >>= f = err e
panic >>= f = panic

abbrev pub ◌>>◌ {ℓ} : {B : Type ℓ} → DexResult (Unit {0}) → DexResult B → DexResult B
m >> k = m >>= λ _. k

-- `check_assert!` and `check_assert_eq!` at a line of a file.
abbrev pub check_assert : SourceFileId → ℕ → Bool → DexResult (Unit {0})
check_assert f l true = ok tt
check_assert f l false = err (from_assertion (record { line = l; file_id = f }))

-- `ok_or(code)?`, and `map_err(|_| code)` on a check.
abbrev pub ok_or {ℓ} : {A : Type ℓ} → Option A → DexErrorCode → DexResult A
ok_or none c = err (error_code c)
ok_or (some a) c = ok a

abbrev pub check_or : Bool → DexErrorCode → DexResult (Unit {0})
check_or true c = ok tt
check_or false c = err (error_code c)

-- `unwrap()` and `assert!`.
abbrev pub unwrap {ℓ} : {A : Type ℓ} → Option A → DexResult A
unwrap none = panic
unwrap (some a) = ok a

abbrev pub assert : Bool → DexResult (Unit {0})
assert true = ok tt
assert false = panic
