-- ===== src/Catalog/Patterns/Conflicts.antt =====
-- `check_endpoint` against the comparison that the requests go through.
use api_portal.Prelude.{
  Bool, Bool-cases, List, Result, Text, [], all, and-true, any, ap, arith, err, false, inl, inr,
  keep, ok, refl, sym, text_eq, text_eq_iff, true, ◌||◌, ◌↔◌, ◌∙◌, ◌∷◌, ◌≡◌,
}
use api_portal.Errors.{done}
use api_portal.Database.{Db, Api, Endpoint}
use api_portal.Internal.UserEvent.{upper}
use api_portal.Catalog.Patterns.{
  PatternError, Availability, available, conflict, key_of, seen_key, endpoint_key, with_method,
  normalize_endpoint_pattern, rows_of, same_key, first_conflict, check_key, check_endpoint,
}
use api_portal.Catalog.Patterns.Duplicates.{add_key, keys}

-- The rows of an API.
abbrev pub rows_in : Text → List Endpoint → List Endpoint
rows_in api_id = keep λ (e : Endpoint). text_eq e.api_id api_id

seen_key-add :
    (key : Text × Text) (r : Result PatternError (Text × Text)) (ks : List (Text × Text))
    → seen_key (add_key r ks) key ≡ (same_key key r || seen_key ks key)
unfolding seen_key
seen_key-add key (ok k) ks = refl
seen_key-add key (err e) ks = refl

first_conflict_iff :
    (key : Text × Text) (rows : List Endpoint)
    → (first_conflict key rows ≡ available key.1) ↔ (seen_key (keys rows) key ≡ false)
unfolding first_conflict seen_key
first_conflict_iff key [] = (λ h. refl, λ h. refl)
first_conflict_iff key (r ∷ rs) =
    let (there, back) = first_conflict_iff key rs in
    let cut = seen_key-add key (key_of r) (keys rs) in
    elim (Bool-cases (same_key key (key_of r))) [
      | inl e ↦ (
        λ h. let wrong : conflict key.1 r ≡ available key.1 = rw e at h in absurd (cc wrong),
        λ h. let wrong : true ≡ false = rw (cut, e) at h in absurd (cc wrong),
      )
      | inr e ↦ (λ h. rw (cut, e) (there (rw e at h)), λ h. rw e (back (rw (cut, e) at h)))
    ]

same_key-upper :
    (m p method : Text) (r : Result PatternError Text)
    → text_eq method m ≡ false
    → same_key (m, p) (with_method method r) ≡ false
same_key-upper m p method (ok q) h = rw h refl
same_key-upper m p method (err e) h = refl

-- Every row has a method in upper case.
abbrev pub all_upper : List Endpoint → Bool
all_upper = all λ (e : Endpoint). text_eq (upper e.http_method) e.http_method

rows_of-rows_in :
    (api_id m p : Text) (rows : List Endpoint)
    → all_upper rows ≡ true
    → seen_key (keys (rows_of api_id m rows)) (m, p) ≡ seen_key (keys (rows_in api_id rows)) (m, p)
unfolding rows_of endpoint_key
rows_of-rows_in api_id m p [] h = refl
rows_of-rows_in api_id m p (r ∷ rs) h =
    let (up, rest) = and-true (text_eq (upper r.http_method) r.http_method) (all_upper rs) h in
    let same = rows_of-rows_in api_id m p rs rest in
    let name = (text_eq_iff (upper r.http_method) r.http_method).0 up in
    elim (Bool-cases (text_eq r.api_id api_id)) [
      | inr other ↦ rw other same
      | inl own ↦ elim (Bool-cases (text_eq r.http_method m)) [
        | inl e ↦
            rw
              (
                own,
                e,
                seen_key-add (m, p) (key_of r) (keys (rows_of api_id m rs)),
                seen_key-add (m, p) (key_of r) (keys (rows_in api_id rs)),
                same,
              )
              refl
        | inr e ↦
            let off =
              same_key-upper m p (upper r.http_method) (normalize_endpoint_pattern r.path_pattern)
                (rw name e) in
            rw (own, e, seen_key-add (m, p) (key_of r) (keys (rows_in api_id rs)), off) same
      ]
    ]

done-inj : (a b : Availability) → done a ≡ done b → a ≡ b
done-inj a b h = ground arith

-- For an API that exists, whose stored methods are in upper case, and a pattern that has a key,
-- `check_endpoint` answers that it is available exactly where no stored endpoint of the API has the
-- key, which is the comparison that the requests go through.
pub check_endpoint_lem :
    (api_id method pattern : Text) (key : Text × Text) (db : Db)
    → any (λ (c : Api). text_eq c.api_id api_id) db.apis ≡ true
    → all_upper db.endpoints ≡ true
    → endpoint_key method pattern ≡ ok key
    → (check_endpoint api_id method pattern db ≡ done (available key.1))
      ↔ (seen_key (keys (rows_in api_id db.endpoints)) key ≡ false)
unfolding check_endpoint check_key
check_endpoint_lem api_id method pattern (m, p) db there up e =
    let (one, two) = first_conflict_iff (m, p) (rows_of api_id m db.endpoints) in
    let same = rows_of-rows_in api_id m p db.endpoints up in
    rw (there, e) (λ h. sym same ∙ one (done-inj _ _ h), λ h. ap done (two (same ∙ h)))
