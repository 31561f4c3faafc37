-- ===== src/Handlers/Accounts.antt =====
-- The account wrappers of `account_parser` in dex/src/state.rs that check a signer or a token account,
-- and the conversion of an error by `.or(check_unreachable!())`.
use openbook_dex.Prelude.{ℕ, ◌==◌}
use openbook_dex.Error.{DexResult, ok, err, panic, ◌>>=◌, ◌>>◌, check_assert, from_assertion, state}
use openbook_dex.Types.{Address}
use openbook_dex.Market.{MarketState}
use openbook_dex.Market.Versions.{AccountInfo}
use openbook_dex.Market.Loads.{
  TokenAccount, check_coin_vault, check_pc_vault, check_coin_payer, check_pc_payer,
}

-- Any error becomes the assertion error of the line.
abbrev pub or_unreachable {ℓ} : {A : Type ℓ} → ℕ → DexResult A → DexResult A
or_unreachable line (ok a) = ok a
or_unreachable line (err e) = err (from_assertion (record { line = line; file_id = state }))
or_unreachable line panic = panic

-- An account of which only the key and the signature matter.
abbrev pub KeyAccount : Type 0
KeyAccount = AccountInfo (Unit {0})

unfoldable pub signer_account : KeyAccount → DexResult (Unit {0})
signer_account account = check_assert state 1753 account.is_signer

-- `disable_authority::ID` and `fee_sweeper::ID` of dex/src/instruction.rs.
abbrev pub disable_authority : Address
disable_authority = 0x8155cffdbb34b5e594dfaa8d04095c70bdfe52256a23a819b5e71312234c1c50

abbrev pub fee_sweeper : Address
fee_sweeper = 0x8155cffdbb34b5e594dfaa8d04095c70bdfe52256a23a819b5e71312234c1c50

unfoldable pub signing_fee_sweeper : KeyAccount → DexResult (Unit {0})
signing_fee_sweeper account =
    check_assert state 1758 account.is_signer
    >> check_assert state 1759 (account.key == fee_sweeper)

unfoldable pub signing_disable_authority : KeyAccount → DexResult (Unit {0})
signing_disable_authority account =
    check_assert state 1764 account.is_signer
    >> check_assert state 1765 (account.key == disable_authority)

-- `spl_token::ID`, of the token program.
module _ (spl_token : Address) where
  unfoldable pub spl_token_program : KeyAccount → DexResult (Unit {0})
  spl_token_program account = check_assert state 1698 (account.key == spl_token)

  -- `TokenAccount::new`; that the bytes are those of an initialized account is left out, as the bytes
  -- are.
  unfoldable pub token_account : AccountInfo TokenAccount → DexResult (Unit {0})
  token_account account = check_assert state 1713 (account.owner == spl_token)

  unfoldable pub coin_vault : MarketState → AccountInfo TokenAccount → DexResult (Unit {0})
  unfolding token_account
  coin_vault m account = token_account account >> check_coin_vault m account

  unfoldable pub pc_vault : MarketState → AccountInfo TokenAccount → DexResult (Unit {0})
  unfolding token_account
  pc_vault m account = token_account account >> check_pc_vault m account

  unfoldable pub coin_wallet : MarketState → AccountInfo TokenAccount → DexResult (Unit {0})
  unfolding token_account
  coin_wallet m account = token_account account >> check_coin_payer m account

  unfoldable pub pc_wallet : MarketState → AccountInfo TokenAccount → DexResult (Unit {0})
  unfolding token_account
  pc_wallet m account = token_account account >> check_pc_payer m account

-- `gen_vault_signer_key`, a hash of the runtime, and `VaultSigner::new`.
unfoldable pub vault_signer :
    (ℕ → Address → Address → DexResult Address)
    → MarketState
    → Address
    → KeyAccount
    → DexResult (Unit {0})
vault_signer signer_key m program_id account =
    signer_key m.vault_signer_nonce m.own_address program_id >>= λ key.
    check_assert state 1798 (key == account.key)
