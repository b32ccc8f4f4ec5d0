-- ===== src/PatUtils/Format.antt =====
-- `build_pat`, `parse_pat` and `mask_pat` of services/portal-backend/pat_utils.py.
pub mod Generated
pub mod RoundTrip
pub mod Mask
use api_portal.Prelude.{
  ℕ, ◌≡◌, refl, Bool, true, false, ◌&&◌, List, [], ◌∷◌, ◌++◌, ◌==◌, if◌then◌else◌, length, Text,
  codes, starts_with, split, Result, ok, err,
}

-- The two messages of `ValueError`.
pub data PatError : Type 0 where
  invalid_prefix invalid_format : PatError

unfoldable pub build_pat : Text → Text → Text
build_pat token_id secret = codes "hdpat_" ++ (token_id ++ (b'_' ∷ secret))

-- The tests on `parts` behind `pat.split("_", 2)`.
unfoldable pub check_parts : List Text → Result PatError (Text × Text)
check_parts (prefix ∷ token_id ∷ secret ∷ []) =
    if length token_id == 12 && length secret == 43
    then ok (token_id, secret)
    else err invalid_format
check_parts _ = err invalid_format

unfoldable pub parse_pat : Text → Result PatError (Text × Text)
unfolding check_parts
parse_pat pat =
    if starts_with pat (codes "hdpat_") then check_parts (split b'_' 2 pat) else err invalid_prefix
