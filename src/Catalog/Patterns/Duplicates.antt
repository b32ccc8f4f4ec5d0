-- ===== src/Catalog/Patterns/Duplicates.antt =====
-- The search for duplicates finds one exactly where two endpoints have the same key.
use api_portal.Prelude.{
  Bool, Bool-cases, List, Option, Result, Text, [], arith, err, false, inl, inr, none, not, ok,
  refl, some, sym, text_eq, text_eq_iff, true, ◌&&◌, ◌↔◌, ◌∙◌, ◌∷◌, ◌≡◌,
}
use api_portal.Errors.{Code}
use api_portal.Database.{Endpoint}
use api_portal.Catalog.Patterns.{
  PatternError, key_eq, key_of, seen_key, by_key, duplicates_from, assert_no_duplicate_endpoints,
}

-- The keys of the endpoints that have one, in order.
abbrev pub add_key : Result PatternError (Text × Text) → List (Text × Text) → List (Text × Text)
add_key (err _) ks = ks
add_key (ok k) ks = k ∷ ks

abbrev pub keys : List Endpoint → List (Text × Text)
keys [] = []
keys (e ∷ es) = add_key (key_of e) (keys es)

-- No key occurs twice.
unfoldable pub are_distinct : List (Text × Text) → Bool
are_distinct [] = true
are_distinct (k ∷ ks) = not (seen_key ks k) && are_distinct ks

-- No key was seen.
unfoldable are_new : List (Text × Text) → List (Text × Text) → Bool
are_new seen [] = true
are_new seen (k ∷ ks) = not (seen_key seen k) && are_new seen ks

text_eq_sym : (s t : Text) → text_eq s t ≡ text_eq t s
text_eq_sym s t = elim (Bool-cases (text_eq s t)) [
  | inl e ↦ let same = (text_eq_iff s t).0 e in rw same refl
  | inr e ↦ elim (Bool-cases (text_eq t s)) [
    | inr f ↦ e ∙ sym f
    | inl f ↦ let same = (text_eq_iff t s).0 f in rw same refl
  ]
]

key_eq_sym : (k j : Text × Text) → key_eq k j ≡ key_eq j k
key_eq_sym (m, p) (n, q) = rw (text_eq_sym m n, text_eq_sym p q) refl

are_new-add :
    (seen ks : List (Text × Text)) (k : Text × Text)
    → are_new (k ∷ seen) ks ≡ (are_new seen ks && not (seen_key ks k))
unfolding are_new seen_key
are_new-add seen [] k = refl
are_new-add seen (j ∷ ks) k =
    let e = key_eq_sym k j in let rest = are_new-add seen ks k in rw (e, rest) (ground arith)

abbrev is_none : Option Code → Bool
is_none none = true
is_none (some _) = false

loop_from :
    (seen : List (Text × Text)) (key : Result PatternError (Text × Text)) (es : List Endpoint)
    → ((ks : List (Text × Text))
        → is_none (duplicates_from ks es) ≡ (are_new ks (keys es) && are_distinct (keys es)))
    → is_none (by_key seen key (duplicates_from seen es) (λ k. duplicates_from (k ∷ seen) es))
      ≡ (are_new seen (add_key key (keys es)) && are_distinct (add_key key (keys es)))
unfolding by_key are_new are_distinct
loop_from seen (err _) es h = h seen
loop_from seen (ok k) es h = elim (Bool-cases (seen_key seen k)) [
  | inl e ↦ rw e refl
  | inr e ↦ rw (e, h (k ∷ seen), are_new-add seen (keys es) k) (ground arith)
]

loop_eq :
    (seen : List (Text × Text)) (es : List Endpoint)
    → is_none (duplicates_from seen es) ≡ (are_new seen (keys es) && are_distinct (keys es))
unfolding duplicates_from are_new are_distinct
loop_eq seen [] = refl
loop_eq seen (e ∷ es) = loop_from seen (key_of e) es (λ ks. loop_eq ks es)

are_new-nil : (ks : List (Text × Text)) → are_new [] ks ≡ true
unfolding are_new seen_key
are_new-nil [] = refl
are_new-nil (k ∷ ks) = are_new-nil ks

none_iff : (o : Option Code) (b : Bool) → is_none o ≡ b → (o ≡ none) ↔ (b ≡ true)
none_iff none b e = ground arith
none_iff (some c) b e = ground arith

-- A request is accepted exactly where no two of its endpoints have the same method and the same
-- normalized pattern.
pub assert_no_duplicate_endpoints_iff :
    (es : List Endpoint)
    → (assert_no_duplicate_endpoints es ≡ none) ↔ (are_distinct (keys es) ≡ true)
unfolding assert_no_duplicate_endpoints
assert_no_duplicate_endpoints_iff es =
    none_iff (duplicates_from [] es) (are_distinct (keys es))
      (loop_eq [] es ∙ rw (are_new-nil (keys es)) refl)
