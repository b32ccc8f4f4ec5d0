-- ===== src/Catalog/Patch/Deletion.antt =====
-- What `delete_api` promises.
use api_portal.Prelude.{
  Bool-cases, List, Option, Text, [], false, inl, inr, keep, none, not, refl, some, text_eq, ◌∷◌,
  ◌≡◌,
}
use api_portal.Errors.{Reply, done, cdp_error, http}
use api_portal.Auth.{UserClaims}
use api_portal.Redis.{Redis}
use api_portal.Database.{Api, Endpoint}
use api_portal.Catalog.Checks.{Url, assert_can_modify}
use api_portal.Catalog.Publish.{Gateway, Site, find_api}
use api_portal.Catalog.Publish.Laws.{refuse_cases}
use api_portal.Catalog.Patch.{rows_at, rows_off, in_use, delete_found, delete_api}

module _ (R : Redis) (G : Gateway) (urlparse : Text → Option Url) where
  -- The promise of a deletion.
  abbrev pub Deletion :
      Text → UserClaims → Site R G urlparse → Reply Unit × Site R G urlparse → Type 0
  Deletion api_id user site (done _, after) =
      ((row : Api) × (find_api api_id site.0.db.apis ≡ some row)
        × (assert_can_modify row user ≡ done tt))
      × (in_use R G urlparse api_id site.0.db ≡ false)
      × (find_api api_id after.0.db.apis ≡ none)
      × (rows_at api_id after.0.db.endpoints ≡ [])
  Deletion api_id user site (cdp_error c, after) = after ≡ site
  Deletion api_id user site (http n, after) = after ≡ site

  find_api-keep :
      (api_id : Text) (apis : List Api)
      → find_api api_id (keep (λ (a : Api). not (text_eq a.api_id api_id)) apis) ≡ none
  unfolding find_api
  find_api-keep api_id [] = refl
  find_api-keep api_id (a ∷ apis) = elim (Bool-cases (text_eq a.api_id api_id)) [
    | inl e ↦ rw e (find_api-keep api_id apis)
    | inr e ↦ rw e (rw e (find_api-keep api_id apis))
  ]

  rows_at-rows_off : (api_id : Text) (es : List Endpoint) → rows_at api_id (rows_off api_id es) ≡ []
  rows_at-rows_off api_id [] = refl
  rows_at-rows_off api_id (e ∷ es) = elim (Bool-cases (text_eq e.api_id api_id)) [
    | inl h ↦ rw h (rows_at-rows_off api_id es)
    | inr h ↦ rw h (rw h (rows_at-rows_off api_id es))
  ]

  delete_found-Deletion :
      (api_id : Text) (user : UserClaims) (site : Site R G urlparse) (found : Option Api)
      → find_api api_id site.0.db.apis ≡ found
      → Deletion api_id user site (delete_found R G urlparse api_id user found site)
  unfolding delete_found
  delete_found-Deletion api_id user site none f = refl
  delete_found-Deletion api_id user site (some row) f =
      refuse_cases (Deletion api_id user site) (assert_can_modify row user) (λ r. (r, site)) _
        (λ c. refl) (λ n. refl)
        λ allowed. elim (Bool-cases (in_use R G urlparse api_id site.0.db)) [
          | inl e ↦ rw e refl
          | inr e ↦ rw e (
            (row, f, allowed),
            e,
            find_api-keep api_id site.0.db.apis,
            rows_at-rows_off api_id site.0.db.endpoints,
          )
        ]

  -- Where `delete_api` succeeds, the API was there, the caller may modify it and no application
  -- refers to it, and afterwards neither the row nor an endpoint of it is left. Where it answers
  -- with an error, nothing has changed.
  pub delete_api_lem :
      (api_id : Text) (user : UserClaims) (site : Site R G urlparse)
      → Deletion api_id user site (delete_api R G urlparse api_id user site)
  unfolding delete_api
  delete_api_lem api_id user site =
      delete_found-Deletion api_id user site (find_api api_id site.0.db.apis) refl
