-- ===== src/Catalog/Rows.antt =====
-- The stored endpoints of the catalog: no two of one API have the same key.
use api_portal.Prelude.{
  Bool-cases, List, Option, Text, [], ap, false, inl, inr, none, refl, some, text_eq, text_eq_iff,
  text_eq_refl, true, ◌++◌, ◌∷◌, ◌≡◌,
}
use api_portal.Errors.{Reply, done, cdp_error, http}
use api_portal.Auth.{UserClaims}
use api_portal.Redis.{Redis}
use api_portal.Database.{Endpoint}
use api_portal.Catalog.Patterns.{key_of}
use api_portal.Catalog.Patterns.Duplicates.{add_key, keys, are_distinct}
use api_portal.Catalog.Patterns.Conflicts.{rows_in}
use api_portal.Catalog.Checks.{Url}
use api_portal.Catalog.Publish.{
  Gateway, ApiCreateRequest, ApiPatchRequest, Saved, Site, rows_for, create_api,
}
use api_portal.Catalog.Publish.Laws as CreateLaws
use api_portal.Catalog.Patch.{rows_off, replace_rows, patch_api}
use api_portal.Catalog.Patch.Laws as PatchLaws

-- No two endpoints of an API have the same method and the same normalized pattern.
abbrev pub AllDistinct : List Endpoint → Type 0
AllDistinct rows = (id : Text) → are_distinct (keys (rows_in id rows)) ≡ true

rows_in-append :
    (id : Text) (xs ys : List Endpoint) → rows_in id (xs ++ ys) ≡ rows_in id xs ++ rows_in id ys
rows_in-append id [] ys = refl
rows_in-append id (x ∷ xs) ys =
    let rest = rows_in-append id xs ys in
    elim (Bool-cases (text_eq x.api_id id)) [
      | inl e ↦ rw (e, rest) refl
      | inr e ↦ rw (e, rest) refl
    ]

keys-rows_for : (id : Text) (es : List Endpoint) → keys (rows_in id (rows_for id es)) ≡ keys es
keys-rows_for id [] = refl
keys-rows_for id (e ∷ es) = rw (text_eq_refl id) (ap (add_key (key_of e)) (keys-rows_for id es))

rows_in-rows_for :
    (id j : Text) (es : List Endpoint) → text_eq id j ≡ false → rows_in j (rows_for id es) ≡ []
rows_in-rows_for id j [] h = refl
rows_in-rows_for id j (e ∷ es) h = rw h (rows_in-rows_for id j es h)

rows_in-rows_off_same : (id : Text) (rows : List Endpoint) → rows_in id (rows_off id rows) ≡ []
rows_in-rows_off_same id [] = refl
rows_in-rows_off_same id (e ∷ es) = elim (Bool-cases (text_eq e.api_id id)) [
  | inl h ↦ rw h (rows_in-rows_off_same id es)
  | inr h ↦ rw h (rw h (rows_in-rows_off_same id es))
]

rows_in-rows_off :
    (id j : Text) (rows : List Endpoint)
    → text_eq id j ≡ false
    → rows_in j (rows_off id rows) ≡ rows_in j rows
rows_in-rows_off id j [] h = refl
rows_in-rows_off id j (e ∷ es) h = elim (Bool-cases (text_eq e.api_id id)) [
  | inl k ↦
      let same = (text_eq_iff e.api_id id).0 k in
      let off : text_eq e.api_id j ≡ false = rw same h in rw (k, off) (rows_in-rows_off id j es h)
  | inr k ↦ rw k (elim (Bool-cases (text_eq e.api_id j)) [
    | inl m ↦ rw m (ap (λ r. e ∷ r) (rows_in-rows_off id j es h))
    | inr m ↦ rw m (rows_in-rows_off id j es h)
  ])
]

nil-append : (xs : List Endpoint) → xs ++ [] ≡ xs
nil-append [] = refl
nil-append (x ∷ xs) = ap (λ r. x ∷ r) (nil-append xs)

-- New rows with different keys under an identifier that has no rows left.
add-AllDistinct :
    (id : Text) (es rows : List Endpoint)
    → are_distinct (keys es) ≡ true
    → rows_in id rows ≡ []
    → ((j : Text) → text_eq id j ≡ false → are_distinct (keys (rows_in j rows)) ≡ true)
    → AllDistinct (rows_for id es ++ rows)
add-AllDistinct id es rows d gone others j = elim (Bool-cases (text_eq id j)) [
  | inl e ↦
      let same = (text_eq_iff id j).0 e in
      rw
        (
          ← same,
          rows_in-append id (rows_for id es) rows,
          gone,
          nil-append (rows_in id (rows_for id es)),
          keys-rows_for id es,
        )
        d
  | inr e ↦ rw (rows_in-append j (rows_for id es) rows, rows_in-rows_for id j es e) (others j e)
]

module _ (R : Redis) (G : Gateway) (urlparse : Text → Option Url) where
  replace-AllDistinct :
      (id path : Text) (es : Option (List Endpoint)) (rows : List Endpoint)
      → PatchLaws.Checked R G urlparse path es
      → AllDistinct rows
      → AllDistinct (replace_rows id es rows)
  unfolding replace_rows
  replace-AllDistinct id path none rows c h = h
  replace-AllDistinct id path (some es) rows (valid, distinct) h =
      add-AllDistinct id es (rows_off id rows) distinct (rows_in-rows_off_same id rows)
        λ j other. rw (rows_in-rows_off id j rows other) (h j)

  created-AllDistinct :
      (req : ApiCreateRequest) (user : UserClaims) (id : Text) (site : Site R G urlparse)
      (r : Reply Saved × Site R G urlparse)
      → CreateLaws.Promise R G urlparse req user id site r
      → rows_in id site.0.db.endpoints ≡ []
      → AllDistinct site.0.db.endpoints
      → AllDistinct r.1.0.db.endpoints
  created-AllDistinct req user id site (done saved, after) p fresh h =
      rw p.rows
        (add-AllDistinct id req.endpoints site.0.db.endpoints p.distinct fresh (λ j other. h j))
  created-AllDistinct req user id site (cdp_error c, after) p fresh h = rw p h
  created-AllDistinct req user id site (http n, after) p fresh h = rw p h

  patched-AllDistinct :
      (id : Text) (req : ApiPatchRequest) (user : UserClaims) (site : Site R G urlparse)
      (r : Reply Saved × Site R G urlparse)
      → PatchLaws.Promise R G urlparse id req user site r
      → AllDistinct site.0.db.endpoints
      → AllDistinct r.1.0.db.endpoints
  patched-AllDistinct id req user site (done saved, after) (row, p) h =
      rw p.rows (replace-AllDistinct id _ req.endpoints site.0.db.endpoints p.checked h)
  patched-AllDistinct id req user site (cdp_error c, after) p h = rw p h
  patched-AllDistinct id req user site (http n, after) (_, inl same) h = rw same h
  patched-AllDistinct id req user site (http n, after) (_, inr (path, checked, rows)) h =
      rw rows (replace-AllDistinct id path req.endpoints site.0.db.endpoints checked h)

  -- If no two stored endpoints of one API have the same method and normalized pattern, this stays so
  -- when `create_api` runs with an identifier that no endpoint has, whatever it answers.
  pub create_api-AllDistinct :
      (req : ApiCreateRequest) (user : UserClaims) (id : Text) (site : Site R G urlparse)
      → rows_in id site.0.db.endpoints ≡ []
      → AllDistinct site.0.db.endpoints
      → AllDistinct (create_api R G urlparse req user id site).1.0.db.endpoints
  create_api-AllDistinct req user id site =
      created-AllDistinct req user id site (create_api R G urlparse req user id site)
        (CreateLaws.create_api_lem R G urlparse req user id site)

  -- If no two stored endpoints of one API have the same method and normalized pattern, this stays so
  -- when `patch_api` runs, whatever it answers.
  pub patch_api-AllDistinct :
      (id : Text) (req : ApiPatchRequest) (user : UserClaims) (site : Site R G urlparse)
      → AllDistinct site.0.db.endpoints
      → AllDistinct (patch_api R G urlparse id req user site).1.0.db.endpoints
  patch_api-AllDistinct id req user site =
      patched-AllDistinct id req user site (patch_api R G urlparse id req user site)
        (PatchLaws.patch_api_lem R G urlparse id req user site)
