-- ===== src/Params.antt =====
-- `_PARAM_TOKEN` of services/portal-backend/apisix_client.py and routers/catalog.py, the regular
-- expression `\{([A-Za-z_][A-Za-z0-9_]*)\}|:([A-Za-z_][A-Za-z0-9_]*)`: its matches from left to right.
pub mod Termination
pub mod Scan
use api_portal.Prelude.{
  Bool, List, Option, Text, [], codes, if◌then◌else◌, leb, length, none, some, suc, zero, ℕ, ◌&&◌,
  ◌++◌, ◌==◌, ◌||◌, ◌∷◌,
}

abbrev pub is_name_start : ℕ → Bool
is_name_start c = leb b'A' c && leb c b'Z' || leb b'a' c && leb c b'z' || c == b'_'

abbrev pub is_name_char : ℕ → Bool
is_name_char c = is_name_start c || leb b'0' c && leb c b'9'

-- A text is cut into characters that no match covers, and names of parameters.
pub data Piece : Type 0 where
  literal : ℕ → Piece
  param : Text → Piece

-- The longest prefix of name characters, and the rest.
unfoldable pub name_span : Text → Text × Text
name_span [] = ([], [])
name_span (c ∷ s) =
    let (name, rest) = name_span s in if is_name_char c then (c ∷ name, rest) else ([], c ∷ s)

-- `[A-Za-z_][A-Za-z0-9_]*` at the start.
abbrev pub param_name : Text → Option (Text × Text)
param_name [] = none
param_name (c ∷ s) =
    let (name, rest) = name_span s in if is_name_start c then some (c ∷ name, rest) else none

abbrev pub closed_name : Option (Text × Text) → Option (Text × Text)
closed_name none = none
closed_name (some (name, [])) = none
closed_name (some (name, c ∷ rest)) = if c == b'}' then some (name, rest) else none

-- A match at the start: the name of the parameter and what is behind the match.
unfoldable pub match_param : Text → Option (Text × Text)
unfolding name_span
match_param [] = none
match_param (c ∷ s) =
    let braced = closed_name (param_name s) in
    let colon = param_name s in if c == b'{' then braced else if c == b':' then colon else none

-- The fuel is the length of the text: each round passes a character.
unfoldable pub pieces_at : ℕ → Text → Option (Text × Text) → List Piece
unfolding match_param
pieces_at zero s m = []
pieces_at (suc n) [] m = []
pieces_at (suc n) (c ∷ s) none = literal c ∷ pieces_at n s (match_param s)
pieces_at (suc n) (c ∷ s) (some (name, rest)) = param name ∷ pieces_at n rest (match_param rest)

unfoldable pub pieces : Text → List Piece
unfolding pieces_at
pieces s = pieces_at (length s) s (match_param s)

-- `[m.group(1) or m.group(2) for m in _PARAM_TOKEN.finditer(path)]`
unfoldable pub names_of : List Piece → List Text
names_of [] = []
names_of (literal c ∷ ps) = names_of ps
names_of (param name ∷ ps) = name ∷ names_of ps

unfoldable pub extract_param_names : Text → List Text
unfolding pieces names_of
extract_param_names path = names_of (pieces path)

-- `_PARAM_TOKEN.sub("{param}", …)`
unfoldable pub collapse : List Piece → Text
collapse [] = []
collapse (literal c ∷ ps) = c ∷ collapse ps
collapse (param name ∷ ps) = codes "{param}" ++ collapse ps
