-- ===== src/Params/Scan.antt =====
-- What the matches of `_PARAM_TOKEN` are (services/portal-backend/apisix_client.py): the regular
-- expression `\{([A-Za-z_][A-Za-z0-9_]*)\}|:([A-Za-z_][A-Za-z0-9_]*)`, scanned from left to right.
use api_portal.Prelude.{
  Bool-cases, List, Option, Text, [], ap, arith, false, inl, inr, length, none, refl, some, suc,
  sym, true, zero, ℕ, ◌++◌, ◌==◌, ◌∙◌, ◌∷◌, ◌≡◌, ◌≤◌, ◌⊎◌,
}
use api_portal.Params.{
  Piece, is_name_char, is_name_start, param_name, closed_name, name_span, match_param, pieces_at,
  pieces,
}
use api_portal.Params.Termination.{IsShorter, match_param-IsShorter}

-- `[A-Za-z_]`
abbrev pub IsLetter : ℕ → Type 0
IsLetter c = ((65 ≤ c) × (c ≤ 90)) ⊎ (((97 ≤ c) × (c ≤ 122)) ⊎ (c ≡ 95))

-- `[A-Za-z0-9_]`
abbrev pub IsWord : ℕ → Type 0
IsWord c = IsLetter c ⊎ ((48 ≤ c) × (c ≤ 57))

abbrev pub AreWords : Text → Type 0
AreWords [] = Unit {0}
AreWords (c ∷ s) = IsWord c × AreWords s

abbrev pub IsName : Text → Type 0
IsName [] = ⊥
IsName (c ∷ s) = IsLetter c × AreWords s

-- A name that ends here cannot be longer.
abbrev pub IsEnd : Text → Type 0
IsEnd [] = Unit {0}
IsEnd (c ∷ s) = ¬ IsWord c

-- A match at the start of a text, by the name in it and what is behind it.
pub data IsMatch (s name rest : Text) : Type 0 where
  braced : IsName name → s ≡ b'{' ∷ (name ++ b'}' ∷ rest) → IsMatch s name rest
  colon : IsName name → IsEnd rest → s ≡ b':' ∷ (name ++ rest) → IsMatch s name rest

-- The leftmost matches, one behind the other: a character is passed over only where no match
-- starts.
abbrev pub IsScan : Text → List Piece → Type 0
IsScan s [] = s ≡ []
IsScan s (Piece.literal c ∷ ps) =
    (rest : Text) × (s ≡ c ∷ rest)
    × (¬ ((name : Text) × (r : Text) × IsMatch s name r))
    × IsScan rest ps
IsScan s (Piece.param name ∷ ps) = (rest : Text) × IsMatch s name rest × IsScan rest ps

letter : (c : ℕ) → is_name_start c ≡ true → IsLetter c
letter c h = ground arith

letter_back : (c : ℕ) → IsLetter c → is_name_start c ≡ true
letter_back c h = ground (arith, h)

word : (c : ℕ) → is_name_char c ≡ true → IsWord c
word c h = ground arith

word_back : (c : ℕ) → IsWord c → is_name_char c ≡ true
word_back c h = ground (arith, h)

not-IsWord : (c : ℕ) → is_name_char c ≡ false → ¬ IsWord c
not-IsWord c h w = let both : true ≡ false = rw (word_back c w) at h in cc both

name_span-AreWords :
    (s : Text)
    → (s ≡ (name_span s).0 ++ (name_span s).1) × AreWords (name_span s).0 × IsEnd (name_span s).1
unfolding name_span
name_span-AreWords [] = (refl, tt, tt)
name_span-AreWords (c ∷ s) = elim (Bool-cases (is_name_char c)) [
  | inl e ↦
      let (a, b, d) = name_span-AreWords s in rw e (ap (λ (z : Text). c ∷ z) a, (word c e, b), d)
  | inr e ↦ rw e (refl, tt, not-IsWord c e)
]

end_span : (rest : Text) → IsEnd rest → name_span rest ≡ ([], rest)
unfolding name_span
end_span [] h = refl
end_span (c ∷ s) h = elim (Bool-cases (is_name_char c)) [
  | inl e ↦ absurd (h (word c e))
  | inr e ↦ rw e refl
]

name_span-append :
    (name rest : Text) → AreWords name → IsEnd rest → name_span (name ++ rest) ≡ (name, rest)
unfolding name_span
name_span-append [] rest h k = end_span rest k
name_span-append (c ∷ name) rest (w, h) k = rw (word_back c w, name_span-append name rest h k) refl

param_name-append :
    (name rest : Text) → IsName name → IsEnd rest → param_name (name ++ rest) ≡ some (name, rest)
param_name-append [] rest h k = absurd h
param_name-append (c ∷ name) rest (l, h) k =
    rw (letter_back c l, name_span-append name rest h k) refl

-- What `param_name` finds is a name that ends there.
param_name-IsName :
    (s name rest : Text)
    → param_name s ≡ some (name, rest)
    → IsName name × IsEnd rest × (s ≡ name ++ rest)
param_name-IsName [] name rest h = absurd (cc h)
param_name-IsName (c ∷ s) name rest h = elim (Bool-cases (is_name_start c)) [
  | inr e ↦ let wrong : none ≡ some (name, rest) = rw e at h in absurd (cc wrong)
  | inl e ↦
      let same : some (c ∷ (name_span s).0, (name_span s).1) ≡ some (name, rest) = rw e at h in
      let (a, b, d) = name_span-AreWords s in
      let first : c ∷ (name_span s).0 ≡ name = cc same in
      let last : (name_span s).1 ≡ rest = cc same in
      rw⁻¹ (first, last) ((letter c e, b), d, ap (λ (z : Text). c ∷ z) a)
]

same_code : (c d : ℕ) → (c == d) ≡ true → c ≡ d
same_code c d e = ground arith

closed_name-eq :
    (o : Option (Text × Text)) (name rest : Text)
    → closed_name o ≡ some (name, rest)
    → o ≡ some (name, b'}' ∷ rest)
closed_name-eq none name rest h = absurd (cc h)
closed_name-eq (some (n, [])) name rest h = absurd (cc h)
closed_name-eq (some (n, c ∷ s)) name rest h = elim (Bool-cases (c == b'}')) [
  | inr e ↦ let wrong : none ≡ some (name, rest) = rw e at h in absurd (cc wrong)
  | inl e ↦
      let same : some (n, s) ≡ some (name, rest) = rw e at h in
      let id : c ≡ b'}' = same_code c b'}' e in cc (same, id)
]

match_param-IsMatch : (s name rest : Text) → match_param s ≡ some (name, rest) → IsMatch s name rest
unfolding match_param
match_param-IsMatch [] name rest h = absurd (cc h)
match_param-IsMatch (c ∷ s) name rest h = elim (Bool-cases (c == b'{')) [
  | inl e ↦
      let found = closed_name-eq (param_name s) name rest (rw e at h) in
      let (n, _, eq) = param_name-IsName s name (b'}' ∷ rest) found in
      let id : c ≡ b'{' = same_code c b'{' e in braced n (cc (eq, id))
  | inr e ↦ elim (Bool-cases (c == b':')) [
    | inl f ↦
        let (n, end, eq) = param_name-IsName s name rest (rw (e, f) at h) in
        let id : c ≡ b':' = same_code c b':' f in colon n end (cc (eq, id))
    | inr f ↦ let wrong : none ≡ some (name, rest) = rw (e, f) at h in absurd (cc wrong)
  ]
]

brace-IsEnd : (rest : Text) → IsEnd (b'}' ∷ rest)
brace-IsEnd rest w = ground (arith, w)

match_param-found : (s name rest : Text) → IsMatch s name rest → match_param s ≡ some (name, rest)
unfolding match_param
match_param-found s name rest (braced n e) =
    rw (e, param_name-append name (b'}' ∷ rest) n (brace-IsEnd rest)) refl
match_param-found s name rest (colon n end e) = rw (e, param_name-append name rest n end) refl

-- Where the search finds nothing, no match starts.
no-IsMatch : (s : Text) → match_param s ≡ none → ¬ ((name : Text) × (r : Text) × IsMatch s name r)
no-IsMatch s h (name, r, found) =
    let wrong : none ≡ some (name, r) = sym h ∙ match_param-found s name r found in cc wrong

pieces_at-IsScan :
    (n : ℕ) (s : Text) (m : Option (Text × Text))
    → match_param s ≡ m
    → length s ≤ n
    → IsShorter s m
    → IsScan s (pieces_at n s m)
unfolding pieces_at
pieces_at-IsScan zero [] m e h k = refl
pieces_at-IsScan zero (c ∷ s) m e h k = absurd (omega (arith, h))
pieces_at-IsScan (suc n) [] m e h k = refl
pieces_at-IsScan (suc n) (c ∷ s) none e h k = (
  s,
  refl,
  no-IsMatch (c ∷ s) e,
  pieces_at-IsScan n s (match_param s) refl (omega (arith, h)) (match_param-IsShorter s),
)
pieces_at-IsScan (suc n) (c ∷ s) (some (name, rest)) e h k = (
  rest,
  match_param-IsMatch (c ∷ s) name rest e,
  pieces_at-IsScan n rest (match_param rest) refl (omega (arith, h, k))
      (match_param-IsShorter rest),
)

-- The pieces of a text are its scan by the regular expression: a piece with a name is a match of
-- `{name}` or `:name`, the latter as long as possible, where the name is a letter or an underscore
-- and then letters, digits and underscores; a single character stands only where no match starts;
-- and the pieces cover the text.
pub pieces-IsScan : (s : Text) → IsScan s (pieces s)
unfolding pieces
pieces-IsScan s =
    pieces_at-IsScan (length s) s (match_param s) refl (omega arith) (match_param-IsShorter s)
