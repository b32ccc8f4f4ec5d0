-- ===== src/PatUtils/Format/RoundTrip.antt =====
-- `parse_pat` accepts exactly the texts that `build_pat` makes of an id and a secret of the right
-- lengths, and returns that id and that secret.
use api_portal.Prelude.{
  Bool-cases, List, Text, [], arith, codes, false, has, inl, inr, length, ok, parts→split_once,
  refl, split, split_once→parts, starts_with, starts_with-append, starts_with→append, ◌++◌, ◌↔◌,
  ◌∷◌, ◌≡◌,
}
use api_portal.PatUtils.Format.{build_pat, check_parts, parse_pat}

-- What `parse_pat` checks of an id and a secret.
pub record IsPatParts (token_id secret : Text) : Type 0 where
  pub id_length : length token_id ≡ 12
  pub id_plain : has b'_' token_id ≡ false
  pub secret_length : length secret ≡ 43

split_prefix :
    (rest : Text) → split b'_' 2 (codes "hdpat_" ++ rest) ≡ codes "hdpat" ∷ split b'_' 1 rest
unfolding split
split_prefix rest = refl

check_parts-eq_ok :
    (ps : List Text) (t s : Text)
    → check_parts (codes "hdpat" ∷ ps) ≡ ok (t, s)
    → (ps ≡ t ∷ s ∷ []) × (length t ≡ 12) × (length s ≡ 43)
unfolding check_parts
check_parts-eq_ok [] t s h = cc
check_parts-eq_ok (p ∷ []) t s h = cc
check_parts-eq_ok (p ∷ q ∷ []) t s h = ground arith
check_parts-eq_ok (p ∷ q ∷ r ∷ ps) t s h = cc

-- `parse_pat` returns the parts of a text `hdpat_<id>_<secret>`, where the id has twelve
-- characters and no underscore and the secret has forty-three characters, and raises on any other.
pub parse-build :
    (pat token_id secret : Text)
    → (parse_pat pat ≡ ok (token_id, secret))
      ↔ ((pat ≡ build_pat token_id secret) × IsPatParts token_id secret)
unfolding parse_pat build_pat
parse-build pat t s = (there, back)
  where
    there : parse_pat pat ≡ ok (t, s) → (pat ≡ build_pat t s) × IsPatParts t s
    there h = elim (Bool-cases (starts_with pat (codes "hdpat_"))) [
      | inr miss ↦ absurd (ground arith)
      | inl hit ↦
          let (rest, e) = starts_with→append pat (codes "hdpat_") hit in
          let h' : check_parts (codes "hdpat" ∷ split b'_' 1 rest) ≡ ok (t, s) =
            rw (← split_prefix rest, ← e) (ground arith) in
          let (parts, lt, ls) = check_parts-eq_ok (split b'_' 1 rest) t s h' in
          let (joined, plain) = split_once→parts b'_' rest t s parts in
          (rw (e, joined) refl, record { id_length = lt; id_plain = plain; secret_length = ls })
    ]

    back : (pat ≡ build_pat t s) × IsPatParts t s → parse_pat pat ≡ ok (t, s)
    back (e, v) =
        rw
          (
            e,
            starts_with-append (codes "hdpat_") (t ++ b'_' ∷ s),
            split_prefix (t ++ b'_' ∷ s),
            parts→split_once b'_' t s v.id_plain,
          )
          (ground arith)
