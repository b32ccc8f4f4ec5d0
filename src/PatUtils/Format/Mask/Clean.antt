-- ===== src/PatUtils/Format/Mask/Clean.antt =====
-- What `mask_pat` leaves in a text.
use api_portal.Prelude.{
  Bool, List, Option, Option-cases, Text, [], ap, arith, codes, false, if◌then◌else◌, inl, inr,
  length, length-append, none, refl, some, suc, zero, ℕ, ◌++◌, ◌+◌, ◌<◌, ◌↔◌, ◌∷◌, ◌≡◌,
}
use api_portal.PatUtils.Base62.{is_alnum}
use api_portal.PatUtils.Secret.{is_urlsafe}
use api_portal.PatUtils.Format.Mask.{
  consume, match_row, group, secret_row, drop_secret, then_secret, match_pat, mask_from, mask_pat,
}

-- No class of the row accepts a star.
abbrev NoStar : List (ℕ → Bool) → Type 0
NoStar [] = Unit {0}
NoStar (p ∷ ps) = (p b'*' ≡ false) × NoStar ps

-- The row of the whole expression.
abbrev whole : List (ℕ → Bool)
whole = group ++ secret_row

whole-NoStar : NoStar whole
unfolding is_alnum is_urlsafe
whole-NoStar = ground arith

consume-eq-some :
    (p : ℕ → Bool) (c : ℕ) (f r found rest : Text)
    → (if p c then consume c (some (f, r)) else none) ≡ some (found, rest)
    → (found ≡ c ∷ f) × (rest ≡ r)
consume-eq-some p c f r found rest h = ground arith

match_row-append :
    (ps : List (ℕ → Bool)) (s : Text) (found rest : Text)
    → match_row ps s ≡ some (found, rest)
    → (s ≡ found ++ rest) × (length found ≡ length ps)
unfolding match_row
match_row-append [] s found rest h = ground arith
match_row-append (p ∷ ps) [] found rest h = cc
match_row-append (p ∷ ps) (c ∷ s) found rest h = elim (Option-cases (match_row ps s)) [
  | inl e ↦ absurd (ground arith)
  | inr ((f, r), e) ↦
      let (eq, len) = match_row-append ps s f r e in
      let (hf, hr) = consume-eq-some p c f r found rest (rw e at h) in
      rw (hf, hr, eq) (refl, omega (arith, ap length hf))
]

-- A row does not match across a star that comes too early.
match_row-star :
    (ps : List (ℕ → Bool)) (u v : Text)
    → NoStar ps
    → length u < length ps
    → match_row ps (u ++ b'*' ∷ v) ≡ none
unfolding match_row
match_row-star [] u v n lt = absurd (omega arith)
match_row-star (p ∷ ps) [] v n lt = rw n.0
match_row-star (p ∷ ps) (c ∷ u) v n lt = rw (match_row-star ps u v n.1 (omega arith)) (ground arith)

-- The second text is the first, up to where a star stands in it.
data Agree : Text → Text → Type 0 where
  done : Agree [] []
  same : {s o : Text} (c : ℕ) → Agree s o → Agree (c ∷ s) (c ∷ o)
  star : (s o : Text) → Agree s (b'*' ∷ o)

match_row-Agree :
    (ps : List (ℕ → Bool)) {s o : Text}
    → NoStar ps
    → Agree s o
    → match_row ps s ≡ none
    → match_row ps o ≡ none
unfolding match_row
match_row-Agree [] n a h = cc
match_row-Agree (p ∷ ps) n done h = refl
match_row-Agree (p ∷ ps) n (same {s = s} {o = o} c a) h = elim (Option-cases (match_row ps s)) [
  | inl e ↦ rw (match_row-Agree ps n.1 a e) (ground arith)
  | inr ((f, r), e) ↦ ground (arith, e)
]
match_row-Agree (p ∷ ps) n (star s o) h = rw n.0

abbrev prepend : Text → Option (Text × Text) → Option (Text × Text)
prepend f none = none
prepend f (some (g, r)) = some (f ++ g, r)

abbrev go_on : List (ℕ → Bool) → Option (Text × Text) → Option (Text × Text)
go_on qs none = none
go_on qs (some (f, r)) = prepend f (match_row qs r)

match_row-rows :
    (ps qs : List (ℕ → Bool)) (s : Text) → match_row (ps ++ qs) s ≡ go_on qs (match_row ps s)
unfolding match_row
match_row-rows [] qs s = ground arith
match_row-rows (p ∷ ps) qs [] = refl
match_row-rows (p ∷ ps) qs (c ∷ s) = rw (match_row-rows ps qs s) (ground arith)

prepend-none :
    (f : Text) (m : Option (Text × Text)) → (prepend f m ≡ none) ↔ (drop_secret f m ≡ none)
prepend-none f none = (λ h. refl, λ h. refl)
prepend-none f (some (g, r)) = (λ h. cc, λ h. cc)

go_on-none : (m : Option (Text × Text)) → (go_on secret_row m ≡ none) ↔ (then_secret m ≡ none)
go_on-none none = (λ h. refl, λ h. refl)
go_on-none (some (f, r)) = prepend-none f (match_row secret_row r)

match_pat-none : (s : Text) → (match_row whole s ≡ none) ↔ (match_pat s ≡ none)
unfolding match_pat
match_pat-none s = rw (match_row-rows group secret_row s) (go_on-none (match_row group s))

-- No place in the text starts a match.
abbrev pub IsClean : Text → Type 0
IsClean [] = Unit {0}
IsClean (c ∷ s) = (match_pat (c ∷ s) ≡ none) × IsClean s

row_star : (u v : Text) → length u < 62 → match_pat (u ++ b'*' ∷ v) ≡ none
row_star u v lt =
    (match_pat-none (u ++ b'*' ∷ v)).0 (match_row-star whole u v whole-NoStar (omega arith))

IsClean-stars : (u v : Text) → length u < 62 → IsClean v → IsClean (u ++ (codes "****" ++ v))
IsClean-stars [] v lt h = (
  row_star [] (codes "***" ++ v) lt,
  (row_star [] (codes "**" ++ v) lt, (row_star [] (codes "*" ++ v) lt, (row_star [] v lt, h))),
)
IsClean-stars (c ∷ u) v lt h =
    (row_star (c ∷ u) (codes "***" ++ v) lt, IsClean-stars u v (omega arith) h)

-- What a match says of the text.
match_pat-some :
    (s found rest : Text)
    → match_pat s ≡ some (found, rest)
    → (secret : Text) × (s ≡ found ++ (secret ++ rest)) × (length found ≡ 19) × (length secret ≡ 43)
unfolding match_pat
match_pat-some s found rest h = elim (Option-cases (match_row group s)) [
  | inl e ↦ absurd (cc (ap then_secret e))
  | inr ((f, r), e) ↦ elim (Option-cases (match_row secret_row r)) [
    | inl e' ↦ absurd (cc (ap then_secret e, ap (drop_secret f) e'))
    | inr ((g, r'), e') ↦
        let (s_eq, len_f) = match_row-append group s f r e in
        let (r_eq, len_g) = match_row-append secret_row r g r' e' in
        let same_pair : ◌≡◌ {A = Option (Text × Text)} (some (f, r')) (some (found, rest)) =
          cc (ap then_secret e, ap (drop_secret f) e') in
        let f_eq : f ≡ found = ground arith in
        let rest_eq : r' ≡ rest = ground arith in
        (g, rw (s_eq, r_eq, f_eq, rest_eq) refl, rw (← f_eq) len_f, len_g)
  ]
]

Agree-append : (u s o : Text) → Agree (u ++ s) (u ++ b'*' ∷ o)
Agree-append [] s o = star s o
Agree-append (c ∷ u) s o = same c (Agree-append u s o)

length-match :
    (c : ℕ) (s found secret rest : Text)
    → c ∷ s ≡ found ++ (secret ++ rest)
    → length found ≡ 19
    → length secret ≡ 43
    → length rest + 61 ≡ length s
length-match c s found secret rest e lf ls =
    omega (arith, ap length e, length-append found (secret ++ rest), length-append secret rest)

mask_none :
    (fuel c : ℕ) (s : Text)
    → match_pat (c ∷ s) ≡ none
    → mask_from (suc fuel) (c ∷ s) ≡ c ∷ mask_from fuel s
unfolding mask_from
mask_none fuel c s e = rw (e, mask_from)

mask_some :
    (fuel c : ℕ) (s found rest : Text)
    → match_pat (c ∷ s) ≡ some (found, rest)
    → mask_from (suc fuel) (c ∷ s) ≡ found ++ (codes "****" ++ mask_from fuel rest)
unfolding mask_from
mask_some fuel c s found rest e = rw (e, mask_from)

mask_nil : (fuel : ℕ) → mask_from fuel [] ≡ []
unfolding mask_from
mask_nil zero = refl
mask_nil (suc fuel) = refl

mask_from-Agree : (fuel : ℕ) (s : Text) → length s < fuel → Agree s (mask_from fuel s)
mask_from-Agree zero s lt = absurd (omega arith)
mask_from-Agree (suc fuel) [] lt = rw (mask_nil (suc fuel)) done
mask_from-Agree (suc fuel) (c ∷ s) lt = elim (Option-cases (match_pat (c ∷ s))) [
  | inl e ↦ rw (mask_none fuel c s e) (same c (mask_from-Agree fuel s (omega arith)))
  | inr ((found, rest), e) ↦
      let (secret, eq, lf, ls) = match_pat-some (c ∷ s) found rest e in
      rw (mask_some fuel c s found rest e, eq)
        (Agree-append found (secret ++ rest) (codes "***" ++ mask_from fuel rest))
]

mask_from-IsClean : (fuel : ℕ) (s : Text) → length s < fuel → IsClean (mask_from fuel s)
mask_from-IsClean zero s lt = absurd (omega arith)
mask_from-IsClean (suc fuel) [] lt = rw (mask_nil (suc fuel)) tt
mask_from-IsClean (suc fuel) (c ∷ s) lt = elim (Option-cases (match_pat (c ∷ s))) [
  | inl e ↦ rw (mask_none fuel c s e) (
    (match_pat-none _).0 (
        match_row-Agree whole whole-NoStar (same c (mask_from-Agree fuel s (omega arith)))
          ((match_pat-none (c ∷ s)).1 e)),
    mask_from-IsClean fuel s (omega arith),
  )
  | inr ((found, rest), e) ↦
      let (secret, eq, lf, ls) = match_pat-some (c ∷ s) found rest e in
      let len = length-match c s found secret rest eq lf ls in
      rw (mask_some fuel c s found rest e) (
        IsClean-stars found (mask_from fuel rest) (omega arith)
          (mask_from-IsClean fuel rest (omega arith)))
]

mask_from_clean : (fuel : ℕ) (s : Text) → IsClean s → mask_from fuel s ≡ s
unfolding mask_from
mask_from_clean zero s h = refl
mask_from_clean (suc fuel) [] h = refl
mask_from_clean (suc fuel) (c ∷ s) h =
    rw (mask_none fuel c s h.0) (ap (λ t. c ∷ t) (mask_from_clean fuel s h.1))

-- The masked text holds no token with its secret, whatever the text was.
pub mask_pat-IsClean : (s : Text) → IsClean (mask_pat s)
unfolding mask_pat
mask_pat-IsClean s = mask_from-IsClean (length s + 1) s (omega arith)

-- A text that holds no token with its secret is not changed.
pub mask_pat_clean : (s : Text) → IsClean s → mask_pat s ≡ s
unfolding mask_pat
mask_pat_clean s = mask_from_clean (length s + 1) s
