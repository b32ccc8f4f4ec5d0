-- ===== src/Apisix/Paths.antt =====
-- The functions on paths of services/portal-backend/apisix_client.py. `re.escape` is a parameter;
-- `\d` is taken on ASCII, and `$` at the end of the text only.
use api_portal.Prelude.{
  Bool, List, Option, Text, [], codes, false, if◌then◌else◌, is_empty, leb, lstrip, none, not,
  rstrip, some, suc, text_eq, true, ℕ, ◌&&◌, ◌++◌, ◌==◌, ◌||◌, ◌∷◌,
}
use api_portal.Params.{Piece, literal, param, pieces, names_of}
use api_portal.Internal.UserEvent.{lower}

abbrev pub is_digit : ℕ → Bool
is_digit c = leb b'0' c && leb c b'9'

abbrev is_slug_char : ℕ → Bool
is_slug_char c = leb b'a' c && leb c b'z' || is_digit c

-- `re.sub(r"[^a-z0-9]+", "-", s)`, with whether the character before was replaced.
unfoldable pub dashes : Bool → Text → Text
dashes replaced [] = []
dashes replaced (c ∷ s) =
    let kept = c ∷ dashes false s in
    let gone = dashes true s in
    if is_slug_char c then kept else if replaced then gone else b'-' ∷ gone

-- `_slug`
unfoldable pub slug : Text → Text
unfolding lower dashes
slug api_code = rstrip b'-' (lstrip b'-' (dashes false (lower api_code)))

-- `\d*` at the start, and the rest.
unfoldable pub digit_span : Text → Text × Text
digit_span [] = ([], [])
digit_span (c ∷ s) =
    let (digits, rest) = digit_span s in if is_digit c then (c ∷ digits, rest) else ([], c ∷ s)

-- `(?:c|$)`
abbrev pub ends_or : ℕ → Text → Bool
ends_or c [] = true
ends_or c (x ∷ s) = x == c

abbrev pub digits_then : ℕ → Text × Text → Option Text
digits_then c (digits, rest) = if not (is_empty digits) && ends_or c rest then some digits else none

abbrev pub version_here : Text → Option Text
version_here [] = none
version_here (x ∷ []) = none
version_here (x ∷ y ∷ s) = if x == b'/' && y == b'v' then digits_then b'/' (digit_span s) else none

abbrev pub first_of {ℓ} : {A : Type ℓ} → Option A → Option A → Option A
first_of (some a) other = some a
first_of none other = other

-- `re.search(r"/v(\d+)(?:/|$)", public_path)`: the digits of the first match.
unfoldable pub search_version : Text → Option Text
unfolding digit_span
search_version [] = none
search_version (c ∷ s) = let rest = search_version s in first_of (version_here (c ∷ s)) rest

abbrev pub version_text : Option Text → Text
version_text none = codes "v1"
version_text (some digits) = b'v' ∷ digits

-- `_version_of`
unfoldable pub version_of : Text → Text
unfolding search_version
version_of public_path = version_text (search_version public_path)

unfoldable pub normalize_public_path : Text → Text → Text
normalize_public_path public_base pattern =
    let base = rstrip b'/' public_base in
    if is_empty pattern || text_eq pattern (codes "/")
    then base
    else base ++ b'/' ∷ lstrip b'/' pattern

-- The literal text before the first parameter, and each parameter with the literal text behind it.
unfoldable pub cut : List Piece → Text × List (Text × Text)
cut [] = ([], [])
cut (literal c ∷ ps) = let (first, rest) = cut ps in (c ∷ first, rest)
cut (param name ∷ ps) = let (first, rest) = cut ps in ([], (name, first) ∷ rest)

-- `(uri, None)` or `(None, uris)`.
pub data Uri : Type 0 where
  single : Text → Uri
  wildcard : List Text → Uri

abbrev uri_of : Text → Text × List (Text × Text) → Uri
uri_of path (first, []) = single path
uri_of path (first, _ ∷ _) =
    let prefix = rstrip b'/' first in wildcard (prefix ∷ (prefix ++ codes "/*") ∷ [])

-- `_path_to_apisix_uri`
unfoldable pub path_to_apisix_uri : Text → Uri
unfolding pieces cut
path_to_apisix_uri path = uri_of path (cut (pieces path))

-- The group of each parameter, and the escaped text behind it.
unfoldable pub group_parts : (Text → Text) → List (Text × Text) → Text
group_parts escape [] = []
group_parts escape ((name, behind) ∷ rest) =
    codes "([^/]+)" ++ (escape behind ++ group_parts escape rest)

abbrev regex_of : (Text → Text) → Text × List (Text × Text) → Text
regex_of escape (first, rest) = b'^' ∷ escape first ++ (group_parts escape rest ++ codes "$")

-- `_path_to_regex_with_groups`: the regular expression and the names of its groups.
unfoldable pub path_to_regex_with_groups : (Text → Text) → Text → Text × List Text
unfolding pieces cut group_parts names_of
path_to_regex_with_groups escape path =
    (regex_of escape (cut (pieces path)), names_of (pieces path))

-- `index = {name: i + 1 for i, name in enumerate(groups)}`, looked up: a later group of the same
-- name replaces an earlier one.
unfoldable pub index_from : ℕ → List Text → Text → Option ℕ
index_from i [] name = none
index_from i (g ∷ groups) name =
    let later = index_from (suc i) groups name in
    first_of later (if text_eq g name then some (suc i) else none)

-- What `repl` writes for one piece of the upstream path, or its `ValueError`.
abbrev group_ref : (ℕ → Text) → Option ℕ → Option Text
group_ref str none = none
group_ref str (some k) = some (b'$' ∷ str k)

abbrev pub put_before : Option Text → Option Text → Option Text
put_before none rest = none
put_before (some s) none = none
put_before (some s) (some rest) = some (s ++ rest)

unfoldable pub replace_pieces : (ℕ → Text) → List Text → List Piece → Option Text
unfolding index_from
replace_pieces str groups [] = some []
replace_pieces str groups (literal c ∷ ps) =
    put_before (some (c ∷ [])) (replace_pieces str groups ps)
replace_pieces str groups (param name ∷ ps) =
    put_before (group_ref str (index_from 0 groups name)) (replace_pieces str groups ps)

-- `_upstream_path_replacement`; `none` is its `ValueError`.
unfoldable pub upstream_path_replacement : (ℕ → Text) → Text → List Text → Option Text
unfolding replace_pieces pieces
upstream_path_replacement str upstream_path groups =
    replace_pieces str groups (pieces upstream_path)
