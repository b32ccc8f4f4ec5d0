-- ===== src/Tests/Fixtures.antt =====
-- A store of functions, which obeys the laws of the Redis interface, and a small portal.
use api_portal.Prelude.{
  Bool, Bool-cases, List, Option, Text, [], codes, false, has, if◌then◌else◌, inl, inr, is_empty,
  lookup, none, not, refl, some, suc, text_eq, true, ℕ, ◌++◌, ◌||◌, ◌∷◌, ◌≡◌,
}
use api_portal.Auth.{UserClaims}
use api_portal.Redis.{Redis, Host, or_else}
use api_portal.Database.{Pat, Application, Api, Endpoint, active, approved, published}
use api_portal.Portal.{Portal}
use api_portal.Catalog.Checks.{Url}
use api_portal.Catalog.Publish.{Gateway}

pub record Memory : Type 0 where
  pub has_entry : Text → Bool
  pub entry : Text → Text → Option Text
  pub set_at : Text → List Text
  pub list_at : Text → List Text

abbrev pub empty : Memory
empty = record { has_entry = λ k. false; entry = λ k f. none; set_at = λ k. []; list_at = λ k. [] }

abbrev del : Text → Memory → Memory
del k s = record {
  has_entry = λ j. if text_eq k j then false else s.has_entry j;
  entry = λ j f. if text_eq k j then none else s.entry j f;
  set_at = λ j. if text_eq k j then [] else s.set_at j;
  list_at = λ j. if text_eq k j then [] else s.list_at j;
}

abbrev put : Text → List (Text × Text) → Memory → Memory
put k m s = record {
  has_entry = λ j. text_eq k j || s.has_entry j;
  entry = λ j f. if text_eq k j then or_else (lookup f m) (s.entry j f) else s.entry j f;
  set_at = s.set_at;
  list_at = s.list_at;
}

abbrev claimed : Text → Memory → Memory
claimed k s = record {
  has_entry = λ j. text_eq k j || s.has_entry j;
  entry = s.entry;
  set_at = s.set_at;
  list_at = s.list_at;
}

abbrev claim : Text → Text → ℕ → Memory → Bool × Memory
claim k v n s = if s.has_entry k then (false, s) else (true, claimed k s)

pub claim-set : (k v : Text) (n : ℕ) (s : Memory) → (claim k v n s).0 ≡ not (s.has_entry k)
claim-set k v n s = elim (Bool-cases (s.has_entry k)) [ inl e ↦ rw e refl | inr e ↦ rw e refl ]

pub claim_taken : (k v : Text) (n : ℕ) (s : Memory) → s.has_entry k ≡ true → (claim k v n s).1 ≡ s
claim_taken k v n s h = rw h refl

pub has_entry-claim :
    (k v j : Text) (n : ℕ) (s : Memory)
    → s.has_entry k ≡ false
    → (claim k v n s).1.has_entry j ≡ (text_eq k j || s.has_entry j)
has_entry-claim k v j n s h = rw h refl

pub entry-claim :
    (k v j f : Text) (n : ℕ) (s : Memory)
    → s.has_entry k ≡ false
    → text_eq k j ≡ false
    → (claim k v n s).1.entry j f ≡ s.entry j f
entry-claim k v j f n s h other = rw h refl

abbrev pub memory : Redis
memory = record {
  Store = Memory;
  has_key = λ s. s.has_entry;
  hget = λ s. s.entry;
  smembers = λ s. s.set_at;
  delete = del;
  hset = put;
  expire = λ k n s. s;
  has_key-delete = λ k j s. refl;
  hget-delete = λ k j f s. refl;
  smembers-delete = λ k j s. refl;
  has_key-hset = λ k j m s. refl;
  hget-hset = λ k j f m s. refl;
  set_nx_ex = claim;
  set_nx_ex-set = claim-set;
  set_nx_ex_taken = claim_taken;
  has_key-set_nx_ex = has_entry-claim;
  hget-set_nx_ex = entry-claim;
  has_key-expire = λ k j n s h. refl;
  hget-expire = λ k j f n s h. refl;
}

abbrev pub plain : Host
plain = record {
  sha256_hex = λ s. s;
  hmac_sha256_hex = λ s k. k ++ s;
  dumps = λ xs. codes "[]";
  str = λ n. n ∷ [];
  isoformat = λ n. n ∷ [];
  uuid = λ s. if is_empty s then none else some s;
  is_jsonb = λ s. not (has b'\\' s);
}

-- A gateway that takes every route and counts the calls.
abbrev pub counting : Gateway
counting = record {
  Routes = ℕ;
  upsert_api_routes = λ code path es g. (true, suc g);
  smoke_test = λ code path es g. true;
  delete_api_routes = λ code path g. (true, suc g);
}

-- Every text is the path of one server.
abbrev pub one_server : Text → Option Url
one_server s =
    some (record { scheme = codes "http"; netloc = codes "vendor"; path = s; fragment = [] })

abbrev pub alice : UserClaims
alice = record {
  sub = codes "alice";
  username = codes "alice";
  roles = codes "api-owner" ∷ codes "platform-admin" ∷ [];
}

abbrev pub first_pat : Pat
first_pat = record {
  token_id = codes "tok1";
  app_id = codes "app1";
  user_sub = codes "alice";
  token_name = codes "first";
  token_hash = codes "hash";
  token_hmac = codes "hmac";
  scopes = codes "read" ∷ [];
  status = active;
  allowed_cidr = [];
  issued_at = 0;
  expires_at = 1000;
  last_used_at = none;
  revoked_at = none;
  revoked_by = none;
  revoke_reason = none;
}

abbrev pub first_application : Application
first_application = record {
  app_id = codes "app1";
  api_id = codes "api1";
  user_sub = codes "alice";
  user_name = codes "alice";
  purpose = [];
  expected_tps = 1;
  expected_daily = 1000;
  valid_until = 20000;
  status = approved;
  requested_scopes = codes "read" ∷ [];
  granted_scopes = codes "read" ∷ [];
  reviewer_sub = none;
  review_comment = none;
}

abbrev pub first_api : Api
first_api = record {
  api_id = codes "api1";
  api_code = codes "vendor";
  name = codes "Vendor";
  description = none;
  owner_dept = codes "dept";
  owner_sub = codes "alice";
  public_path = codes "/capi/v1/vendors";
  required_roles = [];
  status = published;
}

abbrev pub first_endpoint : Endpoint
first_endpoint = record {
  api_id = codes "api1";
  required_scope = codes "read";
  http_method = codes "GET";
  path_pattern = codes "/{id}";
  upstream_url = codes "/vendors/{id}";
}

abbrev pub small : Portal memory
small = record {
  db = record {
    pats = first_pat ∷ [];
    quotas = [];
    applications = first_application ∷ [];
    apis = first_api ∷ [];
    endpoints = first_endpoint ∷ [];
    audit_log = [];
  };
  redis = empty;
}
