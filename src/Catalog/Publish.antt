-- ===== src/Catalog/Publish.antt =====
-- `create_api`, `patch_api`, `delete_api` and `_tokens_for_api` of
-- services/portal-backend/routers/catalog.py. The operations of apisix_client.py are an interface:
-- each returns whether it came through without an exception, and the state of the gateway.
pub mod Laws
use api_portal.Prelude.{
  Bool, List, Option, Text, [], any, codes, false, if◌then◌else◌, map, none, not, some, text_eq,
  true, ℕ, ◌&&◌, ◌++◌, ◌==◌, ◌||◌, ◌∷◌,
}
use api_portal.Errors.{Reply, Code, done, cdp_error, http, cdp_4003, cdp_4010}
use api_portal.Auth.{UserClaims, has_any_role}
use api_portal.Redis.{Redis}
use api_portal.Database.{
  Db, Pat, Application, Api, Endpoint, ApiStatus, draft, published, deprecated, retired, is_active,
}
use api_portal.Database.Pats.{select_ids}
use api_portal.Portal.{Portal}
use api_portal.Catalog.Patterns.{assert_no_duplicate_endpoints}
use api_portal.Catalog.Checks.{Url, and_then, assert_valid_public_base, assert_valid_endpoints}

-- `upsert_api_routes`, `smoke_test` and `delete_api_routes`, by API code and Public Base.
pub record Gateway : Type 1 where
  pub Routes : Type 0
  pub upsert_api_routes : Text → Text → List Endpoint → Routes → Bool × Routes
  pub smoke_test : Text → Text → List Endpoint → Routes → Bool
  pub delete_api_routes : Text → Text → Routes → Bool × Routes

pub record ApiCreateRequest : Type 0 where
  pub api_code : Text
  pub name : Text
  pub description : Option Text
  pub owner_dept : Text
  pub public_path : Text
  pub required_roles : List Text
  pub endpoints : List Endpoint

-- `openapi_spec` says whether one is given; its content goes to one column and nowhere else.
pub record ApiPatchRequest : Type 0 where
  pub status : Option ApiStatus
  pub description : Option Text
  pub name : Option Text
  pub owner_dept : Option Text
  pub public_path : Option Text
  pub required_roles : Option (List Text)
  pub endpoints : Option (List Endpoint)
  pub openapi_spec : Bool

-- The status in the answer, and whether it has a warning.
pub record Saved : Type 0 where
  pub status : ApiStatus
  pub warning : Bool

abbrev pub or_old {ℓ} : {A : Type ℓ} → Option A → A → A
or_old none old = old
or_old (some a) old = a

abbrev pub given {ℓ} : {A : Type ℓ} → Option A → Bool
given none = false
given (some _) = true

abbrev number_of : ApiStatus → ℕ
number_of draft = 0
number_of published = 1
number_of deprecated = 2
number_of retired = 3

abbrev pub differs_status : Option ApiStatus → ApiStatus → Bool
differs_status none old = false
differs_status (some s) old = not (number_of s == number_of old)

abbrev pub differs_text : Option Text → Text → Bool
differs_text none old = false
differs_text (some s) old = not (text_eq s old)

-- The answer of a check that refuses.
abbrev pub refuse {ℓ} : {A : Type 0} {B : Type ℓ} → Reply Unit → (Reply A → B) → B → B
refuse (done _) stop go = go
refuse (cdp_error c) stop go = stop (cdp_error c)
refuse (http n) stop go = stop (http n)

abbrev pub no_code : Option Code → Reply Unit
no_code none = done tt
no_code (some c) = cdp_error c

abbrev pub no_duplicates : List Endpoint → Reply Unit
no_duplicates es = no_code (assert_no_duplicate_endpoints es)

abbrev pub rows_for : Text → List Endpoint → List Endpoint
rows_for api_id = map λ (e : Endpoint). record e { api_id = api_id }

-- `SELECT * FROM cdp.api_catalog WHERE api_id=$1`
unfoldable pub find_api : Text → List Api → Option Api
find_api api_id [] = none
find_api api_id (a ∷ rest) = if text_eq a.api_id api_id then some a else find_api api_id rest

unfoldable pub update_api : Text → (Api → Api) → List Api → List Api
update_api api_id set [] = []
update_api api_id set (a ∷ rest) =
    (if text_eq a.api_id api_id then set a else a) ∷ update_api api_id set rest

unfoldable pub tokens_for_api : Text → Db → List Text
tokens_for_api api_id db =
    select_ids
      (λ (p : Pat).
        any (λ (a : Application). text_eq a.app_id p.app_id && text_eq a.api_id api_id)
          db.applications
        && is_active p.status)
      db.pats

module _ (R : Redis) (G : Gateway) (urlparse : Text → Option Url) where
  open G use {Routes, upsert_api_routes, smoke_test, delete_api_routes}

  -- The database and the cache, and the gateway.
  abbrev pub Site : Type 0
  Site = Portal R × Routes

  -- `upsert_api_routes`, and the smoke test behind it.
  abbrev pub tested : Text → Text → List Endpoint → Bool × Routes → Bool × Routes
  tested code path es (false, g) = (false, g)
  tested code path es (true, g) = (smoke_test code path es g, g)

  unfoldable pub publish : Text → Text → List Endpoint → Routes → Bool × Routes
  publish code path es g = tested code path es (upsert_api_routes code path es g)

  -- The three checks of `create_api` behind that of the role.
  abbrev pub create_checks : ApiCreateRequest → Reply Unit
  create_checks req = and_then (assert_valid_public_base req.public_path) (
      and_then (assert_valid_endpoints urlparse req.public_path req.endpoints)
        (no_duplicates req.endpoints))

  -- The unique columns of `cdp.api_catalog`. The one of `cdp.api_endpoint` holds since the pairs of
  -- the request have different keys.
  abbrev pub taken : ApiCreateRequest → List Api → Bool
  taken req =
      any λ (a : Api). text_eq a.api_code req.api_code || text_eq a.public_path req.public_path

  abbrev pub new_api : ApiCreateRequest → UserClaims → Text → ApiStatus → Api
  new_api req user api_id status = record {
    api_id = api_id;
    api_code = req.api_code;
    name = req.name;
    description = req.description;
    owner_dept = req.owner_dept;
    owner_sub = user.sub;
    public_path = req.public_path;
    required_roles = req.required_roles;
    status = status;
  }

  -- The transaction, the registration with the gateway, and the UPDATE of the status of the row,
  -- which is the first one. `api_id` is a new identifier.
  unfoldable pub register : ApiCreateRequest → UserClaims → Text → Site → Reply Saved × Site
  unfolding publish
  register req user api_id (st, g) =
      let (served, g') = publish req.api_code req.public_path req.endpoints g in
      let status = if served then published else draft in
      (
        done (record { status = status; warning = not served }),
        (
          record st {
            db = record st.db {
              apis = new_api req user api_id status ∷ st.db.apis;
              endpoints = rows_for api_id req.endpoints ++ st.db.endpoints;
            };
          },
          g',
        ),
      )

  unfoldable pub create_api : ApiCreateRequest → UserClaims → Text → Site → Reply Saved × Site
  unfolding register
  create_api req user api_id site =
      let registered =
        if taken req site.0.db.apis
        then (cdp_error cdp_4010, site)
        else register req user api_id site in
      if not (has_any_role user (codes "api-owner" ∷ codes "platform-admin" ∷ []))
      then (cdp_error cdp_4003, site)
      else refuse (create_checks req) (λ r. (r, site)) registered
