-- ===== src/Catalog/Publish/Laws.antt =====
-- What a successful `create_api` promises.
use api_portal.Prelude.{
  Bool, Bool-cases, List, Option, Text, [], codes, false, if◌then◌else◌, inl, inr, none, not, refl,
  rstrip, some, text_eq_refl, true, ℕ, ◌++◌, ◌∷◌, ◌≡◌,
}
use api_portal.Errors.{Reply, Code, done, cdp_error, http}
use api_portal.Auth.{UserClaims, has_any_role}
use api_portal.Redis.{Redis}
use api_portal.Database.{Endpoint, is_published, published, draft}
use api_portal.Catalog.Patterns.{assert_no_duplicate_endpoints}
use api_portal.Catalog.Patterns.Duplicates.{keys, are_distinct, assert_no_duplicate_endpoints_iff}
use api_portal.Catalog.Checks.{Url, assert_valid_public_base, assert_valid_endpoints}
use api_portal.Catalog.Checks.Valid.{AreEndpoints, assert_valid_endpoints_lem, and_then-done}
use api_portal.Catalog.Publish.{
  Gateway, ApiCreateRequest, Saved, Site, refuse, no_code, no_duplicates, find_api, create_checks,
  taken, new_api, register, create_api, publish, rows_for,
}

-- A property of a reply and a state, by the outcome of a check.
pub refuse_cases {ℓ} :
    {A : Type 0} {B : Type ℓ} (P : B → Type 0) (r : Reply Unit) (stop : Reply A → B) (go : B)
    → ((c : Code) → P (stop (cdp_error c)))
    → ((n : ℕ) → P (stop (http n)))
    → (r ≡ done tt → P go)
    → P (refuse r stop go)
refuse_cases P (done tt) stop go a b c = c refl
refuse_cases P (cdp_error e) stop go a b c = a e
refuse_cases P (http n) stop go a b c = b n

no_code-done : (o : Option Code) → no_code o ≡ done tt → o ≡ none
no_code-done none h = refl
no_code-done (some c) h = absurd (cc h)

pub no_duplicates-done :
    (es : List Endpoint) → no_duplicates es ≡ done tt → are_distinct (keys es) ≡ true
no_duplicates-done es h =
    (assert_no_duplicate_endpoints_iff es).0 (no_code-done (assert_no_duplicate_endpoints es) h)

module _ (R : Redis) (G : Gateway) (urlparse : Text → Option Url) where
  -- The row of a new API and its endpoints were checked, and its status is what the gateway says.
  pub record Registered (req : ApiCreateRequest) (user : UserClaims) (api_id : Text)
      (site : Site R G urlparse) (saved : Saved) (after : Site R G urlparse) : Type 0 where
    pub role : has_any_role user (codes "api-owner" ∷ codes "platform-admin" ∷ []) ≡ true
    pub free : taken R G urlparse req site.0.db.apis ≡ false
    pub base : assert_valid_public_base req.public_path ≡ done tt
    pub endpoints : AreEndpoints urlparse (rstrip b'/' req.public_path) req.endpoints
    pub distinct : are_distinct (keys req.endpoints) ≡ true
    pub row :
        find_api api_id after.0.db.apis ≡ some (new_api R G urlparse req user api_id saved.status)
    pub rows : after.0.db.endpoints ≡ rows_for api_id req.endpoints ++ site.0.db.endpoints
    pub served :
        is_published saved.status
        ≡ (publish R G urlparse req.api_code req.public_path req.endpoints site.1).0
    pub warned : saved.warning ≡ not (is_published saved.status)

  abbrev pub Promise :
      ApiCreateRequest
      → UserClaims
      → Text
      → Site R G urlparse
      → Reply Saved × Site R G urlparse
      → Type 0
  Promise req user api_id site (done saved, after) = Registered req user api_id site saved after
  Promise req user api_id site (cdp_error c, after) = after ≡ site
  Promise req user api_id site (http n, after) = after ≡ site

  pub published_if : (b : Bool) → is_published (if b then published else draft) ≡ b
  published_if true = refl
  published_if false = refl

  register-Promise :
      (req : ApiCreateRequest) (user : UserClaims) (api_id : Text) (site : Site R G urlparse)
      → has_any_role user (codes "api-owner" ∷ codes "platform-admin" ∷ []) ≡ true
      → taken R G urlparse req site.0.db.apis ≡ false
      → create_checks R G urlparse req ≡ done tt
      → Promise req user api_id site (register R G urlparse req user api_id site)
  unfolding register find_api
  register-Promise req user api_id (st, g) a b c =
      let (base, rest) = and_then-done (assert_valid_public_base req.public_path) _ c in
      let (valid, distinct) =
        and_then-done (assert_valid_endpoints urlparse req.public_path req.endpoints)
          (no_duplicates req.endpoints) rest in
      let ok_now = (publish R G urlparse req.api_code req.public_path req.endpoints g).0 in
      record {
        role = a;
        free = b;
        base = base;
        endpoints = (assert_valid_endpoints_lem urlparse req.public_path req.endpoints valid).0;
        distinct = no_duplicates-done req.endpoints distinct;
        row = rw (text_eq_refl api_id) refl;
        rows = refl;
        served = published_if ok_now;
        warned = rw (published_if ok_now) refl;
      }

  pub create_api_lem :
      (req : ApiCreateRequest) (user : UserClaims) (api_id : Text) (site : Site R G urlparse)
      → Promise req user api_id site (create_api R G urlparse req user api_id site)
  unfolding create_api
  create_api_lem req user api_id site =
      let P = Promise req user api_id site in
      elim (Bool-cases (has_any_role user (codes "api-owner" ∷ codes "platform-admin" ∷ []))) [
        | inr a ↦ rw a refl
        | inl a ↦ rw a (
            refuse_cases P (create_checks R G urlparse req) (λ r. (r, site)) _ (λ c. refl)
              (λ n. refl)
              λ checked. elim (Bool-cases (taken R G urlparse req site.0.db.apis)) [
                | inl b ↦ rw b refl
                | inr b ↦ rw b (register-Promise req user api_id site a b checked)
              ])
      ]
