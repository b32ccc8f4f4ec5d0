-- ===== src/Catalog/Patterns.antt =====
-- `_normalize_endpoint_pattern`, `_endpoint_key`, `_assert_no_duplicate_endpoints` and
-- `check_endpoint` of services/portal-backend/routers/catalog.py. An endpoint of a request is the
-- row of its four texts; `upper` is that of ASCII letters.
pub mod Duplicates
pub mod Conflicts
use api_portal.Prelude.{
  Bool, List, Option, Result, Text, [], any, codes, err, false, if◌then◌else◌, is_empty, keep,
  length, ltb, none, not, ok, rstrip, some, starts_with, text_eq, ℕ, ◌&&◌, ◌==◌, ◌||◌, ◌∷◌,
}
use api_portal.Errors.{Reply, done, cdp_error, http, Code, cdp_4002, cdp_4010}
use api_portal.Params.{pieces, collapse}
use api_portal.Database.{Db, Api, Endpoint}
use api_portal.Internal.UserEvent.{upper}

-- The messages of `ValueError`.
pub data PatternError : Type 0 where
  no_slash double_slash : PatternError

-- `"//" in s`
unfoldable pub has_double : ℕ → Text → Bool
has_double c [] = false
has_double c (x ∷ []) = false
has_double c (x ∷ y ∷ s) = x == c && y == c || has_double c (y ∷ s)

-- `s.endswith("/")`
unfoldable pub ends_with : ℕ → Text → Bool
ends_with c [] = false
ends_with c (x ∷ []) = x == c
ends_with c (x ∷ y ∷ s) = ends_with c (y ∷ s)

unfoldable pub normalize_endpoint_pattern : Text → Result PatternError Text
unfolding pieces collapse has_double ends_with
normalize_endpoint_pattern path_pattern =
    let normalized = collapse (pieces path_pattern) in
    if is_empty path_pattern || not (starts_with path_pattern (codes "/"))
    then err no_slash
    else if has_double b'/' normalized
    then err double_slash
    else if ltb 1 (length normalized) && ends_with b'/' normalized
    then ok (rstrip b'/' normalized)
    else ok normalized

abbrev pub with_method : Text → Result PatternError Text → Result PatternError (Text × Text)
with_method method (ok p) = ok (method, p)
with_method method (err e) = err e

unfoldable pub endpoint_key : Text → Text → Result PatternError (Text × Text)
unfolding upper normalize_endpoint_pattern
endpoint_key method path_pattern =
    with_method (upper method) (normalize_endpoint_pattern path_pattern)

abbrev pub key_eq : Text × Text → Text × Text → Bool
key_eq (m, p) (n, q) = text_eq m n && text_eq p q

-- `key in seen`
unfoldable pub seen_key : List (Text × Text) → Text × Text → Bool
seen_key [] key = false
seen_key (k ∷ ks) key = key_eq k key || seen_key ks key

abbrev pub key_of : Endpoint → Result PatternError (Text × Text)
key_of e = endpoint_key e.http_method e.path_pattern

-- One round of the loop: an endpoint without a key is passed over, a key that was seen ends it.
unfoldable pub by_key :
    List (Text × Text)
    → Result PatternError (Text × Text)
    → Option Code
    → (Text × Text → Option Code)
    → Option Code
by_key seen (err _) skipped added = skipped
by_key seen (ok key) skipped added =
    let rest = added key in if seen_key seen key then some cdp_4010 else rest

-- The loop, given the keys that were seen.
unfoldable pub duplicates_from : List (Text × Text) → List Endpoint → Option Code
unfolding endpoint_key seen_key by_key
duplicates_from seen [] = none
duplicates_from seen (e ∷ es) =
    by_key seen (key_of e) (duplicates_from seen es) (λ key. duplicates_from (key ∷ seen) es)

unfoldable pub assert_no_duplicate_endpoints : List Endpoint → Option Code
unfolding duplicates_from
assert_no_duplicate_endpoints endpoints = duplicates_from [] endpoints

-- The answer of `check_endpoint`: the normalized pattern, and the row in the way.
pub data Availability : Type 0 where
  available : Text → Availability
  conflict : Text → Endpoint → Availability

-- `WHERE api_id=$1 AND http_method=$2`
unfoldable pub rows_of : Text → Text → List Endpoint → List Endpoint
rows_of api_id method =
    keep λ (e : Endpoint). text_eq e.api_id api_id && text_eq e.http_method method

abbrev pub same_key : Text × Text → Result PatternError (Text × Text) → Bool
same_key key (ok k) = key_eq k key
same_key key (err _) = false

unfoldable pub first_conflict : Text × Text → List Endpoint → Availability
unfolding endpoint_key
first_conflict key [] = available key.1
first_conflict key (r ∷ rs) =
    let rest = first_conflict key rs in if same_key key (key_of r) then conflict key.1 r else rest

unfoldable pub check_key :
    Text → Result PatternError (Text × Text) → List Endpoint → Reply Availability
unfolding first_conflict rows_of
check_key api_id (err _) rows = cdp_error cdp_4002
check_key api_id (ok key) rows = done (first_conflict key (rows_of api_id key.0 rows))

unfoldable pub check_endpoint : Text → Text → Text → Db → Reply Availability
unfolding check_key endpoint_key
check_endpoint api_id http_method path_pattern db =
    if any (λ (c : Api). text_eq c.api_id api_id) db.apis
    then check_key api_id (endpoint_key http_method path_pattern) db.endpoints
    else http 404
