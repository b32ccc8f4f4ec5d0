-- ===== src/Queries.antt =====
-- The handlers of services/portal-backend/routers that only list rows: `list_all_tokens`,
-- `list_pats`, `list_applications`, `list_apis` and `get_api`. ORDER BY on the time of creation is
-- the order of the rows, which are kept newest first; rows of one time keep their order. ILIKE is a
-- parameter. FastAPI has checked that `page` and `size` are at least 1.
pub mod Pages
use api_portal.Prelude.{
  Bool, List, Option, Text, [], codes, contains, false, find, if◌then◌else◌, is_empty, keep, leb,
  length, ltb, map, none, not, some, split_commas, strip, strip_left, strip_right, suc, take,
  text_eq, true, zero, ℕ, ◌&&◌, ◌*◌, ◌++◌, ◌+◌, ◌-◌, ◌==◌, ◌||◌, ◌∷◌,
}
use api_portal.Errors.{Reply, done, cdp_error, http, cdp_4003}
use api_portal.Auth.{UserClaims, has_role, has_any_role}
use api_portal.Internal.Meta.{status_text, find_quota}
use api_portal.Catalog.Publish.{find_api}
use api_portal.Database.{
  Db, Pat, Quota, Application, Api, Endpoint, ApiStatus, AppStatus, draft, published, deprecated,
  retired, pending, approved, rejected, is_revoked,
}

-- LIMIT and OFFSET.
unfoldable pub drop {ℓ} : {A : Type ℓ} → ℕ → List A → List A
drop zero xs = xs
drop (suc n) [] = []
drop (suc n) (x ∷ xs) = drop n xs

-- The rows of a page, from 1: `offset = (page - 1) * size`.
unfoldable pub page_of {ℓ} : {A : Type ℓ} → ℕ → ℕ → List A → List A
unfolding drop
page_of page size rows = take size (drop ((page - 1) * size) rows)

-- ORDER BY with a test that says whether one row comes before another.
unfoldable pub insert_row {ℓ} : {A : Type ℓ} → (A → A → Bool) → A → List A → List A
insert_row before a [] = a ∷ []
insert_row before a (b ∷ bs) =
    let rest = insert_row before a bs in if before b a then b ∷ rest else a ∷ b ∷ bs

unfoldable pub order_by {ℓ} : {A : Type ℓ} → (A → A → Bool) → List A → List A
unfolding insert_row
order_by before [] = []
order_by before (a ∷ more) = insert_row before a (order_by before more)

pub record Paged (A : Type 0) : Type 0 where
  pub items : List A
  pub total : ℕ
  pub page : ℕ
  pub size : ℕ

-- The row of a token joined to its application and API.
pub record TokenRow : Type 0 where
  pub pat : Pat
  pub application : Application
  pub api : Api

abbrev find_app : Text → List Application → Option Application
find_app app_id = find λ a. text_eq a.app_id app_id

abbrev join_api : Pat → Application → Option Api → List TokenRow
join_api p a none = []
join_api p a (some c) = record { pat = p; application = a; api = c } ∷ []

abbrev join_app : Db → Pat → Option Application → List TokenRow
join_app db p none = []
join_app db p (some a) = join_api p a (find_api a.api_id db.apis)

-- `cdp.pat p JOIN cdp.application a … JOIN cdp.api_catalog c …`
unfoldable pub joined : Db → List Pat → List TokenRow
unfolding find_api
joined db [] = []
joined db (p ∷ ps) = join_app db p (find_app p.app_id db.applications) ++ joined db ps

pub record TokenQuery : Type 0 where
  pub expiring_in_days : Option ℕ
  pub include_expired : Bool
  pub user_subs : Option Text
  pub status : Option Text
  pub page : ℕ
  pub size : ℕ

abbrev expires_within : ℕ → Option ℕ → Pat → Bool
expires_within now none p = true
expires_within now (some days) p = leb p.expires_at (now + days * 86400000000)

abbrev has_status : Option Text → Pat → Bool
has_status none p = not (is_revoked p.status)
has_status (some s) p =
    if is_empty s then not (is_revoked p.status) else text_eq (status_text p.status) s

-- `[s.strip() for s in userSubs.replace("\n", ",").split(",") if s.strip()]`
unfoldable pub subs_of : Text → List Text
unfolding split_commas strip_left strip_right
subs_of user_subs =
    keep (λ s. not (is_empty s))
      (map strip (split_commas (map (λ c. if c == 10 then b',' else c) user_subs)))

abbrev of_users : Option Text → Pat → Bool
of_users none p = true
of_users (some user_subs) p =
    is_empty (subs_of user_subs) || contains (subs_of user_subs) p.user_sub

-- The conditions of `list_all_tokens`.
unfoldable pub matches : TokenQuery → ℕ → TokenRow → Bool
unfolding subs_of
matches q now r =
    expires_within now q.expiring_in_days r.pat
    && (q.include_expired || ltb now r.pat.expires_at)
    && has_status q.status r.pat
    && of_users q.user_subs r.pat

abbrev pub matching : TokenQuery → ℕ → Db → List TokenRow
matching q now db = keep (matches q now) (joined db db.pats)

abbrev pub sooner : TokenRow → TokenRow → Bool
sooner a b = ltb a.pat.expires_at b.pat.expires_at

unfoldable pub list_all_tokens : TokenQuery → ℕ → UserClaims → Db → Reply (Paged TokenRow)
unfolding matches joined order_by page_of
list_all_tokens q now user db =
    let rows = order_by sooner (matching q now db) in
    if not (has_role user (codes "platform-admin"))
    then cdp_error cdp_4003
    else done (record {
      items = page_of q.page q.size rows;
      total = length (matching q now db);
      page = q.page;
      size = q.size;
    })

-- `LEFT JOIN cdp.quota_policy`
pub record OwnToken : Type 0 where
  pub row : TokenRow
  pub quota : Option Quota

abbrev later : TokenRow → TokenRow → Bool
later a b = ltb b.pat.issued_at a.pat.issued_at

unfoldable pub list_pats : UserClaims → Db → List OwnToken
unfolding joined order_by
list_pats user db =
    map (λ r. record { row = r; quota = find_quota r.pat.token_id db.quotas })
      (order_by later (keep (λ r. text_eq r.pat.user_sub user.sub) (joined db db.pats)))

-- The row of an application joined to its API.
abbrev with_api : Application → Option Api → List (Application × Api)
with_api a none = []
with_api a (some c) = (a, c) ∷ []

unfoldable pub joined_applications : Db → List Application → List (Application × Api)
unfolding find_api
joined_applications db [] = []
joined_applications db (a ∷ more) =
    with_api a (find_api a.api_id db.apis) ++ joined_applications db more

abbrev app_status_text : AppStatus → Text
app_status_text pending = codes "PENDING"
app_status_text approved = codes "APPROVED"
app_status_text rejected = codes "REJECTED"

abbrev is_or_null : Option Text → Text → Bool
is_or_null none s = true
is_or_null (some t) s = text_eq s t

abbrev is_reviewer : Option Text → Bool
is_reviewer none = false
is_reviewer (some role) = text_eq role (codes "reviewer")

unfoldable pub list_applications :
    Option Text → Option Text → UserClaims → Db → List (Application × Api)
unfolding joined_applications
list_applications role status user db =
    let is_owner = has_any_role user (codes "api-owner" ∷ codes "platform-admin" ∷ []) in
    let rows =
      keep (λ ((a, c) : Application × Api). is_or_null status (app_status_text a.status))
        (joined_applications db db.applications) in
    if is_owner && is_reviewer role
    then keep (λ ((a, c) : Application × Api). text_eq c.owner_sub user.sub) rows
    else keep (λ ((a, c) : Application × Api). text_eq a.user_sub user.sub) rows

abbrev api_status_text : ApiStatus → Text
api_status_text draft = codes "DRAFT"
api_status_text published = codes "PUBLISHED"
api_status_text deprecated = codes "DEPRECATED"
api_status_text retired = codes "RETIRED"

module _ (ilike : Text → Text → Bool) where
  abbrev like_or_null : Option Text → Text → Bool
  like_or_null none q = false
  like_or_null (some s) q = ilike s q

  abbrev found_by : Text → Api → Bool
  found_by q a = ilike a.name q || like_or_null a.description q || ilike a.api_code q

  abbrev searched : Option Text → List Api → List Api
  searched none apis = apis
  searched (some q) apis = if is_empty q then apis else keep (found_by (b'%' ∷ q ++ b'%' ∷ [])) apis

  unfoldable pub list_apis : ℕ → ℕ → Option Text → Text → Db → Paged Api
  unfolding page_of
  list_apis page size q status db =
      let rows = keep (λ (a : Api). text_eq (api_status_text a.status) status) db.apis in
      record {
        items = page_of page size (searched q rows);
        total = length rows;
        page = page;
        size = size;
      }

abbrev with_endpoints : Db → Option Api → Reply (Api × List Endpoint)
with_endpoints db none = http 404
with_endpoints db (some a) =
    done (a, keep (λ (e : Endpoint). text_eq e.api_id a.api_id) db.endpoints)

-- The identifier is one: `uuid.UUID` raises on other texts.
unfoldable pub get_api : Text → Db → Reply (Api × List Endpoint)
unfolding find_api
get_api api_id db = with_endpoints db (find_api api_id db.apis)
