-- ===== src/Error/Tests.antt =====
-- The numbers of concrete errors of dex/src/error.rs.
use openbook_dex.Prelude.{◌+◌, ◌*◌, ◌^◌, ◌≡◌, refl}
use openbook_dex.Error.{AssertionError, from_assertion, custom_code, state, matching}

abbrev at_state : AssertionError
at_state = record { line = 1030; file_id = state }

abbrev at_matching : AssertionError
at_matching = record { line = 631; file_id = matching }

matching_code : custom_code (from_assertion at_matching) ≡ 631 + 2 * 2 ^ 24
unfolding custom_code from_assertion
matching_code = refl
