-- ===== src/Params/Termination.antt =====
-- Why the length of the text is enough fuel for the search for `_PARAM_TOKEN` of
-- services/portal-backend/apisix_client.py: a match takes a character at least.
use api_portal.Prelude.{
  Bool-cases, Option, Text, [], arith, if_both, inl, inr, length, none, some, ℕ, ◌<◌, ◌==◌, ◌∷◌,
  ◌≤◌,
}
use api_portal.Params.{is_name_char, is_name_start, param_name, closed_name, name_span, match_param}

-- What is behind a match is shorter than the text.
abbrev pub IsShorter : Text → Option (Text × Text) → Type 0
IsShorter s none = Unit {0}
IsShorter s (some (name, rest)) = length rest < length s

name_span-le : (s : Text) → length (name_span s).1 ≤ length s
unfolding name_span
name_span-le [] = omega arith
name_span-le (c ∷ s) = elim (Bool-cases (is_name_char c)) [
  | inl e ↦ rw e (omega (arith, name_span-le s))
  | inr e ↦ rw e (omega arith)
]

param_name-IsShorter : (s : Text) → IsShorter s (param_name s)
unfolding name_span
param_name-IsShorter [] = tt
param_name-IsShorter (c ∷ s) = elim (Bool-cases (is_name_start c)) [
  | inl e ↦ rw e (omega (arith, name_span-le s))
  | inr e ↦ rw e tt
]

closed_name-IsShorter :
    (s : Text) (o : Option (Text × Text)) → IsShorter s o → IsShorter s (closed_name o)
closed_name-IsShorter s none h = tt
closed_name-IsShorter s (some (name, [])) h = tt
closed_name-IsShorter s (some (name, c ∷ rest)) h = elim (Bool-cases (c == b'}')) [
  | inl e ↦ rw e (omega (arith, h))
  | inr e ↦ rw e tt
]

longer-IsShorter :
    (c : ℕ) (s : Text) (o : Option (Text × Text)) → IsShorter s o → IsShorter (c ∷ s) o
longer-IsShorter c s none h = tt
longer-IsShorter c s (some (name, rest)) h = omega (arith, h)

pub match_param-IsShorter : (s : Text) → IsShorter s (match_param s)
unfolding match_param
match_param-IsShorter [] = tt
match_param-IsShorter (c ∷ s) =
    let named = param_name-IsShorter s in
    if_both (IsShorter (c ∷ s)) (c == b'{') (closed_name (param_name s)) _
      (longer-IsShorter c s (closed_name (param_name s))
        (closed_name-IsShorter s (param_name s) named))
      (if_both (IsShorter (c ∷ s)) (c == b':') (param_name s) none
        (longer-IsShorter c s (param_name s) named) tt)
