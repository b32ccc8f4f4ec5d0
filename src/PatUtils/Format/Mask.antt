-- ===== src/PatUtils/Format/Mask.antt =====
-- `mask_pat` of services/portal-backend/pat_utils.py.
use api_portal.Prelude.{
  Bool, List, Option, Text, [], codes, if◌then◌else◌, length, none, some, suc, zero, ℕ, ◌++◌, ◌+◌,
  ◌==◌, ◌∷◌,
}
pub mod Clean
use api_portal.PatUtils.Base62.{is_alnum}
use api_portal.PatUtils.Secret.{is_urlsafe}

abbrev consume : ℕ → Option (Text × Text) → Option (Text × Text)
consume c none = none
consume c (some (found, rest)) = some (c ∷ found, rest)

-- A regular expression that is a row of character classes, matched at the head of a text: what it
-- matched, and the rest.
unfoldable pub match_row : List (ℕ → Bool) → Text → Option (Text × Text)
match_row [] s = some ([], s)
match_row (p ∷ ps) [] = none
match_row (p ∷ ps) (c ∷ s) = let rest = match_row ps s in if p c then consume c rest else none

abbrev literal : Text → List (ℕ → Bool)
literal [] = []
literal (a ∷ s) = (λ c. c == a) ∷ literal s

abbrev times : ℕ → (ℕ → Bool) → List (ℕ → Bool)
times zero p = []
times (suc n) p = p ∷ times n p

-- `(hdpat_[A-Za-z0-9]{12}_)`, and `[A-Za-z0-9_-]{43}`.
abbrev group : List (ℕ → Bool)
group = literal (codes "hdpat_") ++ (times 12 is_alnum ++ literal (codes "_"))

abbrev secret_row : List (ℕ → Bool)
secret_row = times 43 is_urlsafe

abbrev drop_secret : Text → Option (Text × Text) → Option (Text × Text)
drop_secret found none = none
drop_secret found (some (secret, rest)) = some (found, rest)

abbrev then_secret : Option (Text × Text) → Option (Text × Text)
then_secret none = none
then_secret (some (found, rest)) = drop_secret found (match_row secret_row rest)

-- A match of the whole expression at the head: the group, and the text behind the match.
unfoldable pub match_pat : Text → Option (Text × Text)
unfolding match_row
match_pat s = then_secret (match_row group s)

-- `re.sub`, with fuel: at a match the group and `****` are written and the match is skipped, at any
-- other place one character is copied. A round takes a character at least.
pub mask_from : ℕ → Text → Text
mask_from zero s = s
mask_from (suc fuel) [] = []
mask_from (suc fuel) (c ∷ s) = elim (match_pat (c ∷ s)) [
  | none ↦ c ∷ mask_from fuel s
  | some (found, rest) ↦ found ++ (codes "****" ++ mask_from fuel rest)
]

unfoldable pub mask_pat : Text → Text
unfolding mask_from match_pat
mask_pat s = mask_from (length s + 1) s
