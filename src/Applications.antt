-- ===== src/Applications.antt =====
-- `create_application` and `patch_application` of services/portal-backend/routers/applications.py.
-- The roles that the identity provider reports, the new identifier and the reading of a date are
-- arguments; a date that does not parse is a `ValueError` that nobody catches.
pub mod Grants
use api_portal.Prelude.{
  Bool, List, Option, Text, [], codes, contains, find, if◌then◌else◌, is_empty, keep, none, not,
  some, text_eq, ℕ, ◌&&◌, ◌∷◌,
}
use api_portal.Errors.{Reply, done, cdp_error, http, cdp_4001, cdp_4003, cdp_4009}
use api_portal.Auth.{UserClaims, has_role, has_any_role}
use api_portal.Database.{
  Db, Application, Api, AppStatus, Endpoint, pending, approved, rejected, is_pending, is_published,
}

pub record ApplicationCreateRequest : Type 0 where
  pub api_id : Text
  pub purpose : Text
  pub requested_scopes : List Text
  pub expected_tps : ℕ
  pub expected_daily : ℕ
  pub valid_until : Text

pub record ApplicationPatchRequest : Type 0 where
  pub action : Text
  pub review_comment : Option Text

-- The identifier, the missing roles, whether there are none, and the reviewer.
pub record Created : Type 0 where
  pub app_id : Text
  pub missing_roles : List Text
  pub eligible : Bool
  pub reviewer : Text × Text

pub data Patched : Type 0 where
  granted_scopes_of : Text → List Text → Patched
  rejected_of : Text → Patched

-- `SELECT * FROM cdp.api_catalog WHERE api_id=$1 AND status='PUBLISHED'`
unfoldable pub published_api : Text → Db → Option Api
published_api api_id db =
    find (λ (c : Api). text_eq c.api_id api_id && is_published c.status) db.apis

-- `SELECT DISTINCT required_scope FROM cdp.api_endpoint WHERE api_id=$1`
unfoldable pub catalog_scopes : Text → List Endpoint → List Text
catalog_scopes api_id [] = []
catalog_scopes api_id (e ∷ es) =
    let rest = catalog_scopes api_id es in
    if text_eq e.api_id api_id then e.required_scope ∷ rest else rest

abbrev pub unknown_scopes : List Text → List Text → List Text
unknown_scopes catalog = keep λ s. not (contains catalog s)

abbrev pub missing_of : List Text → UserClaims → List Text → List Text
missing_of user_roles user = keep λ r. not (contains user_roles r) && not (has_role user r)

abbrev pub new_application : ApplicationCreateRequest → UserClaims → Text → ℕ → Application
new_application req user app_id valid_until = record {
  app_id = app_id;
  api_id = req.api_id;
  user_sub = user.sub;
  user_name = user.username;
  purpose = req.purpose;
  expected_tps = req.expected_tps;
  expected_daily = req.expected_daily;
  valid_until = valid_until;
  status = pending;
  requested_scopes = req.requested_scopes;
  granted_scopes = [];
  reviewer_sub = none;
  review_comment = none;
}

-- The INSERT, with the date if it parses.
unfoldable pub insert_application :
    ApplicationCreateRequest
    → UserClaims
    → Text
    → List Text
    → Api
    → Option ℕ
    → Db
    → Reply Created × Db
insert_application req user app_id missing api none db = (http 500, db)
insert_application req user app_id missing api (some valid_until) db = (
  done (record {
    app_id = app_id;
    missing_roles = missing;
    eligible = is_empty missing;
    reviewer = (api.owner_sub, api.owner_dept);
  }),
  record db { applications = new_application req user app_id valid_until ∷ db.applications },
)

unfoldable pub create_for :
    (Text → List Text)
    → (Text → Option ℕ)
    → ApplicationCreateRequest
    → UserClaims
    → Text
    → Option Api
    → Db
    → Reply Created × Db
unfolding catalog_scopes insert_application
create_for idp_roles fromisoformat req user app_id none db = (http 404, db)
create_for idp_roles fromisoformat req user app_id (some api) db =
    let missing = missing_of (idp_roles user.sub) user api.required_roles in
    if is_empty req.requested_scopes
    then (cdp_error cdp_4001, db)
    else if not
        (is_empty (unknown_scopes (catalog_scopes req.api_id db.endpoints) req.requested_scopes))
    then (cdp_error cdp_4001, db)
    else insert_application req user app_id missing api (fromisoformat req.valid_until) db

unfoldable pub create_application :
    (Text → List Text)
    → (Text → Option ℕ)
    → ApplicationCreateRequest
    → UserClaims
    → Text
    → Db
    → Reply Created × Db
unfolding create_for published_api
create_application idp_roles fromisoformat req user app_id db =
    create_for idp_roles fromisoformat req user app_id (published_api req.api_id db) db

-- `SELECT * FROM cdp.application WHERE app_id=$1`
unfoldable pub find_application : Text → List Application → Option Application
find_application app_id [] = none
find_application app_id (a ∷ rest) =
    if text_eq a.app_id app_id then some a else find_application app_id rest

-- `UPDATE cdp.application SET … WHERE app_id=…`
unfoldable pub update_application :
    Text → (Application → Application) → List Application → List Application
update_application app_id set [] = []
update_application app_id set (a ∷ rest) =
    (if text_eq a.app_id app_id then set a else a) ∷ update_application app_id set rest

-- `[s for s in requested if s in catalog_scopes]`
abbrev pub granted_of : List Text → List Text → List Text
granted_of catalog = keep (contains catalog)

abbrev pub set_approved : List Text → Text → Option Text → Application → Application
set_approved granted sub comment a = record a {
  status = approved;
  granted_scopes = granted;
  reviewer_sub = some sub;
  review_comment = comment;
}

abbrev pub set_rejected : Text → Option Text → Application → Application
set_rejected sub comment a = record a {
  status = rejected;
  reviewer_sub = some sub;
  review_comment = comment;
}

unfoldable pub patch_found :
    Text → ApplicationPatchRequest → UserClaims → Option Application → Db → Reply Patched × Db
unfolding catalog_scopes update_application
patch_found app_id req user none db = (http 404, db)
patch_found app_id req user (some app) db =
    let granted = granted_of (catalog_scopes app.api_id db.endpoints) app.requested_scopes in
    let approve : Db = record db {
      applications =
          update_application app_id (set_approved granted user.sub req.review_comment)
            db.applications;
    } in
    let reject : Db = record db {
      applications =
          update_application app_id (set_rejected user.sub req.review_comment) db.applications;
    } in
    if not (is_pending app.status)
    then (cdp_error cdp_4009, db)
    else if text_eq req.action (codes "APPROVE")
    then (if is_empty granted
        then (cdp_error cdp_4001, db)
        else (done (granted_scopes_of app_id granted), approve))
    else if text_eq req.action (codes "REJECT")
    then (done (rejected_of app_id), reject)
    else (http 400, db)

unfoldable pub patch_application :
    Text → ApplicationPatchRequest → UserClaims → Db → Reply Patched × Db
unfolding patch_found find_application
patch_application app_id req user db =
    if has_any_role user (codes "api-owner" ∷ codes "platform-admin" ∷ [])
    then patch_found app_id req user (find_application app_id db.applications) db
    else (cdp_error cdp_4003, db)
