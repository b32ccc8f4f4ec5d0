-- ===== src/Apisix/Owned.antt =====
-- Which ids `_owns_route_id` of services/portal-backend/apisix_client.py takes for those of an API.
use api_portal.Prelude.{
  Bool-cases, Option, Option-cases, Text, [], all, and-true, ap, arith, codes, false, inl, inr,
  is_empty, none, refl, some, true, ℕ, ◌&&◌, ◌++◌, ◌==◌, ◌∷◌, ◌≡◌,
}
use mathlib.Core.Path.{subst}
use api_portal.Apisix.Paths.{
  is_digit, digit_span, digits_then, ends_or, version_here, first_of, search_version, version_of,
  slug,
}
use api_portal.Apisix.Routes.{Tools, endpoint_route_id}
use api_portal.Apisix.Admin.{behind, owns_route_id}

-- The digits of a version.
abbrev IsNumber : Text → Type 0
IsNumber ds = (all is_digit ds ≡ true) × (is_empty ds ≡ false)

digit_span-IsDigits : (s : Text) → all is_digit (digit_span s).0 ≡ true
unfolding digit_span
digit_span-IsDigits [] = refl
digit_span-IsDigits (c ∷ s) = elim (Bool-cases (is_digit c)) [
  | inl e ↦ rw e (rw e (digit_span-IsDigits s))
  | inr e ↦ rw e refl
]

digit_span-number :
    (ds rest : Text) → all is_digit ds ≡ true → digit_span (ds ++ b'-' ∷ rest) ≡ (ds, b'-' ∷ rest)
unfolding digit_span
digit_span-number [] rest h = refl
digit_span-number (c ∷ ds) rest h =
    let (a, b) = and-true (is_digit c) (all is_digit ds) h in
    rw (digit_span-number ds rest b) (rw a refl)

digits_then-IsNumber :
    (c : ℕ) (p : Text × Text) (ds : Text)
    → all is_digit p.0 ≡ true
    → digits_then c p ≡ some ds
    → IsNumber ds
digits_then-IsNumber c ([], rest) ds h e = absurd (cc e)
digits_then-IsNumber c (d ∷ digits, rest) ds h e = elim (Bool-cases (ends_or c rest)) [
  | inr f ↦ let wrong : none ≡ some ds = rw f at e in absurd (cc wrong)
  | inl f ↦
      let same : some (d ∷ digits) ≡ some ds = rw f at e in
      let eq : d ∷ digits ≡ ds = cc same in subst (λ (t : Text). IsNumber t) eq (h, refl)
]

version_here-IsNumber : (s ds : Text) → version_here s ≡ some ds → IsNumber ds
version_here-IsNumber [] ds e = absurd (cc e)
version_here-IsNumber (x ∷ []) ds e = absurd (cc e)
version_here-IsNumber (x ∷ y ∷ s) ds e = elim (Bool-cases (x == b'/' && y == b'v')) [
  | inr f ↦ let wrong : none ≡ some ds = rw f at e in absurd (cc wrong)
  | inl f ↦ digits_then-IsNumber b'/' (digit_span s) ds (digit_span-IsDigits s) (rw f at e)
]

first_of-IsNumber :
    (a b : Option Text) (ds : Text)
    → (a ≡ some ds → IsNumber ds)
    → (b ≡ some ds → IsNumber ds)
    → first_of a b ≡ some ds
    → IsNumber ds
first_of-IsNumber none b ds f g e = g e
first_of-IsNumber (some x) b ds f g e = f e

search_version-IsNumber : (s ds : Text) → search_version s ≡ some ds → IsNumber ds
unfolding search_version
search_version-IsNumber [] ds e = absurd (cc e)
search_version-IsNumber (c ∷ s) ds e =
    first_of-IsNumber (version_here (c ∷ s)) (search_version s) ds
      (version_here-IsNumber (c ∷ s) ds) (search_version-IsNumber s ds) e

version_of-IsNumber : (path : Text) → (ds : Text) × (version_of path ≡ b'v' ∷ ds) × IsNumber ds
unfolding version_of
version_of-IsNumber path = elim (Option-cases (search_version path)) [
  | inl e ↦ (codes "1", rw e refl, (refl, refl))
  | inr (ds, e) ↦ (ds, rw e refl, search_version-IsNumber path ds e)
]

behind-version : (s x : Text) → behind (s ++ codes "-v") (s ++ b'-' ∷ b'v' ∷ x) ≡ some x
unfolding behind
behind-version [] x = refl
behind-version (c ∷ s) x = rw (behind-version s x) (ground arith)

digits_then-number : (ds rest : Text) → IsNumber ds → digits_then b'-' (ds, b'-' ∷ rest) ≡ some ds
digits_then-number [] rest (h, k) = absurd (cc k)
digits_then-number (d ∷ ds) rest h = refl

owns-number :
    (s ds rest : Text)
    → IsNumber ds
    → owns_route_id s (codes "capi-" ++ (s ++ (b'-' ∷ b'v' ∷ ds ++ b'-' ∷ rest))) ≡ true
unfolding owns_route_id behind
owns-number s ds rest h =
    rw (behind-version s (ds ++ b'-' ∷ rest))
      (rw (digit_span-number ds rest h.0) (rw (digits_then-number ds rest h) refl))

-- `_owns_route_id` takes the id of every route of an API for one of that API.
pub owns_route_id-endpoint_route_id :
    (T : Tools) (code method path : Text)
    → owns_route_id (slug code) (endpoint_route_id T code method path) ≡ true
unfolding endpoint_route_id
owns_route_id-endpoint_route_id T code method path =
    let (ds, e, number) = version_of-IsNumber path in rw e (owns-number (slug code) ds _ number)

append_assoc : (a b c : Text) → ((a ++ b) ++ c) ≡ (a ++ (b ++ c))
append_assoc [] b c = refl
append_assoc (x ∷ a) b c = ap (λ (t : Text). x ∷ t) (append_assoc a b c)

-- The guard of `_owns_route_id` does not tell apart an API from one whose slug goes on with `-v` and
-- a number: the id of every route of the second is taken for one of the first.
pub owns_route_id-overlap :
    (T : Tools) (code other number method path : Text)
    → slug other ≡ slug code ++ (codes "-v" ++ number)
    → all is_digit number ≡ true
    → is_empty number ≡ false
    → owns_route_id (slug code) (endpoint_route_id T other method path) ≡ true
unfolding endpoint_route_id
owns_route_id-overlap T code other number method path same digits nonempty =
    rw (same, append_assoc (slug code) (codes "-v" ++ number))
      (owns-number (slug code) number _ (digits, nonempty))
