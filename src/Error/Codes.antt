-- ===== src/Error/Codes.antt =====
-- The numbers that dex/src/error.rs reports tell the errors apart.
use openbook_dex.Prelude.{◌≤◌, ◌<◌, ◌^◌, ◌≡◌, ◌≢◌, arith}
use openbook_dex.Error.{
  DexErrorCode, SourceFileId, AssertionError, to_u32, file_to_u8, from_assertion, custom_code,
  error_code,
}

file_to_u8-injective : (f g : SourceFileId) → file_to_u8 f ≡ file_to_u8 g → f ≡ g
unfolding file_to_u8
file_to_u8-injective f g h = ground arith

file_to_u8_bounds : (f : SourceFileId) → (1 ≤ file_to_u8 f) × (file_to_u8 f ≤ 3)
unfolding file_to_u8
file_to_u8_bounds f = ground arith

to_u32-lt : (c : DexErrorCode) → to_u32 c < 2 ^ 24
unfolding to_u32
to_u32-lt c = ground arith

-- Two assertions that stand on different lines of the source, or in different files, report
-- different numbers to the runtime.
pub custom_code-assertion_injective :
    (d e : AssertionError)
    → d.line < 2 ^ 16
    → e.line < 2 ^ 16
    → custom_code (from_assertion d) ≡ custom_code (from_assertion e)
    → (d.line ≡ e.line) × (d.file_id ≡ e.file_id)
unfolding custom_code from_assertion
custom_code-assertion_injective d e hd he h =
    (omega arith, file_to_u8-injective d.file_id e.file_id (omega arith))

-- The number of an assertion is never that of an error code.
pub custom_code-assertion-ne-code :
    (d : AssertionError) (c : DexErrorCode)
    → custom_code (from_assertion d) ≢ custom_code (error_code c)
unfolding custom_code from_assertion
custom_code-assertion-ne-code d c h = omega (arith, file_to_u8_bounds d.file_id, to_u32-lt c)
