-- ===== src/Tests/Life.antt =====
-- Examples for the theorems on the state of the portal.
use api_portal.Prelude.{
  Bool-cases, Text, [], codes, contains, false, has, inl, inr, length, lookup, none, refl, some,
  starts_with, text_eq, true, ◌∷◌, ◌≡◌,
}
use api_portal.Config.{settings}
use api_portal.Errors.{done, http}
use api_portal.Redis.{or_else}
use api_portal.Redis.Client.{pat_key, field_of}
use api_portal.Database.{Db, Quota, revoked}
use api_portal.Database.Pats.{find_pat}
use api_portal.Auth.{has_role}
use api_portal.Portal.{Portal}
use api_portal.PatUtils.Base62.{generate_token_id}
use api_portal.Tokens.Issue.{
  TokenIssueRequest, IssueInput, issue_pat, approved_application, end_of_day, active_per_app,
  active_per_user,
}
use api_portal.Tokens.Issue.Laws as IssueLaws
use api_portal.Tokens.Revoke.{revoke_pat}
use api_portal.Tokens.UpdateQuota.{QuotaPatchRequest, model_dump, update_quota}
use api_portal.Tokens.UpdateQuota.Rows.{AreUpdated}
use api_portal.Tokens.UpdateQuota.Laws.{update_quota_lem}
use api_portal.Internal.UserEvent.{UserLifecycleEvent, receive_user_event, upper}
use api_portal.Applications.{
  ApplicationCreateRequest, ApplicationPatchRequest, create_application, patch_application,
  find_application,
}
use api_portal.Applications.Grants.{AllGranted, applications-AllGranted}
use api_portal.Catalog.Publish.{ApiCreateRequest, ApiPatchRequest, create_api}
use api_portal.Catalog.Patterns.{endpoint_key, seen_key}
use api_portal.Catalog.Patterns.Duplicates.{are_distinct}
use api_portal.Catalog.Rows.{AllDistinct, create_api-AllDistinct, patch_api-AllDistinct}
use api_portal.Catalog.Publish.Laws as CreateLaws
use api_portal.Catalog.Patch.{patch_api, delete_api}
use api_portal.Catalog.Patch.Laws as PatchLaws
use api_portal.Catalog.Patch.Deletion as DeleteLaws
use api_portal.Lifecycle.Coherence.{IsCoherent}
use api_portal.Lifecycle.Closed.{IsClosed}
use api_portal.Lifecycle.Steps.{here, next, issues, Reach-IsCoherent}
use api_portal.Lifecycle.Final.{IsClosed-forever}
use api_portal.Lifecycle.Revocation.{revoked_forever, disabled_forever}
use api_portal.Tests.Fixtures.{
  memory, plain, counting, one_server, alice, small, first_pat, first_endpoint,
}

abbrev request : TokenIssueRequest
request = record {
  app_id = codes "app1";
  token_name = codes "second";
  valid_days = 30;
  allowed_cidr = [];
}

abbrev input : IssueInput
input = record {
  id_bytes = 1 ∷ 2 ∷ 3 ∷ [];
  secret_bytes = 4 ∷ 5 ∷ 6 ∷ [];
  checked_at = 10;
  issued_at = 20;
}

issue_pat_example :
    IssueLaws.Promise settings memory plain request input alice small
      (issue_pat settings memory plain request input alice small)
issue_pat_example = IssueLaws.issue_pat_lem settings memory plain request input alice small

-- A name with a backslash: the token is there, and the caller does not get it.
broken_name_test :
    let name = codes "a\\b" in
    let r =
      issue_pat settings memory plain (record request { token_name = name }) input alice small in
    (r.0 ≡ http 500) × (length r.1.db.pats ≡ 2) × (r.1.db.audit_log ≡ small.db.audit_log)
unfolding issue_pat approved_application text_eq end_of_day active_per_app active_per_user find_pat
    generate_token_id has
broken_name_test = (refl, refl, refl)

none_cached : IsCoherent memory plain small
none_cached t h = absurd (cc h)

abbrev issued : Portal memory
issued = (issue_pat settings memory plain request input alice small).1

Reach-IsCoherent_example : IsCoherent memory plain issued
Reach-IsCoherent_example =
    Reach-IsCoherent settings memory plain (next here (issues small request input alice))
      none_cached

abbrev revoked_state : Portal memory
revoked_state = (revoke_pat memory (codes "tok1") alice 30 small).1

abbrev later : Portal memory
later = (issue_pat settings memory plain request input alice revoked_state).1

revoked_forever_example :
    ((revoke_pat memory (codes "tok1") alice 30 small).0 ≡ done tt)
    × IsClosed (codes "tok1") later.db.pats
    × (memory.has_key later.redis (pat_key (codes "tok1")) ≡ false)
unfolding find_pat text_eq
revoked_forever_example =
    revoked_forever settings memory plain (codes "tok1") alice 30 small later first_pat none_cached
      refl refl (next here (issues revoked_state request input alice))

abbrev disable : UserLifecycleEvent
disable = record { user_sub = codes "alice"; event_type = codes "Disable"; reason = none }

abbrev disabled_state : Portal memory
disabled_state = (receive_user_event memory disable 30 small).1

disabled_forever_example :
    IsClosed (codes "tok1") disabled_state.db.pats
    × (memory.has_key disabled_state.redis (pat_key (codes "tok1")) ≡ false)
unfolding find_pat text_eq upper
disabled_forever_example =
    disabled_forever settings memory plain (codes "tok1") disable 30 small disabled_state first_pat
      none_cached refl refl refl here

abbrev closed_state : Portal memory
closed_state = record small {
  db = record small.db { pats = record first_pat { status = revoked } ∷ [] };
}

IsClosed-forever_example :
    IsClosed (codes "tok1") closed_state.db.pats
    × (memory.has_key closed_state.redis (pat_key (codes "tok1")) ≡ false)
unfolding find_pat text_eq
IsClosed-forever_example =
    IsClosed-forever settings memory plain closed_state closed_state (codes "tok1") here
      (λ t h. absurd (cc h)) (record first_pat { status = revoked }, refl, refl)

abbrev limits : QuotaPatchRequest
limits = record {
  rate_limit_tps = some 50;
  burst = none;
  daily_quota = some 500;
  monthly_quota = none;
  concurrency = none;
}

abbrev old_limits : Text → Quota
old_limits t = record {
  token_id = t;
  rate_limit_tps = 10;
  burst = 20;
  daily_quota = 1000;
  monthly_quota = 20000;
  concurrency = 5;
  updated_by = none;
}

abbrev cached : Portal memory
cached = record small {
  db = record small.db { quotas = old_limits (codes "tok2") ∷ old_limits (codes "tok1") ∷ [] };
  redis = record {
    has_entry = λ k. true;
    entry = λ k f. some (codes "10");
    set_at = λ k. [];
    list_at = λ k. [];
  };
}

update_quota_example :
    AreUpdated limits alice.sub
      (codes "tok1")
      cached.db.quotas
      (update_quota memory plain (codes "tok1") limits alice cached).1.db.quotas
    × (memory.hget
          (update_quota memory plain (codes "tok1") limits alice cached).1.redis
          (pat_key (codes "tok1"))
          (codes "rate_limit_tps")
        ≡ or_else
            (lookup (codes "rate_limit_tps") (field_of plain (codes "burst") limits.burst))
            (memory.hget cached.redis (pat_key (codes "tok1")) (codes "rate_limit_tps")))
unfolding find_pat text_eq has_role contains model_dump
update_quota_example =
    update_quota_lem memory plain (codes "tok1") (codes "rate_limit_tps") limits alice cached
      first_pat refl refl refl refl

none_granted : AllGranted []
unfolding find_application
none_granted id a e = absurd (cc e)

abbrev bare : Db
bare = record small.db { applications = [] }

applications-AllGranted_example :
    ((req : ApplicationCreateRequest) (user : _) (app_id : Text)
      → AllGranted (create_application (λ s. []) (λ s. some 1) req user app_id bare).1.applications)
    × ((app_id : Text) (req : ApplicationPatchRequest) (user : _)
        → AllGranted (patch_application app_id req user bare).1.applications)
applications-AllGranted_example = applications-AllGranted (λ s. []) (λ s. some 1) bare none_granted

abbrev new_request : ApiCreateRequest
new_request = record {
  api_code = codes "orders";
  name = codes "Orders";
  description = none;
  owner_dept = codes "dept";
  public_path = codes "/capi/v1/orders";
  required_roles = [];
  endpoints = first_endpoint ∷ [];
}

abbrev patch_request : ApiPatchRequest
patch_request = record {
  status = none;
  description = none;
  name = none;
  owner_dept = none;
  public_path = none;
  required_roles = none;
  endpoints = some (first_endpoint ∷ []);
  openapi_spec = false;
}

patch_api_example :
    PatchLaws.Promise memory counting one_server
      (codes "api1")
      patch_request
      alice
      (small, 0)
      (patch_api memory counting one_server (codes "api1") patch_request alice (small, 0))
patch_api_example =
    PatchLaws.patch_api_lem memory counting one_server (codes "api1") patch_request alice (small, 0)

delete_api_example :
    DeleteLaws.Deletion memory counting one_server
      (codes "api1")
      alice
      (small, 0)
      (delete_api memory counting one_server (codes "api1") alice (small, 0))
delete_api_example =
    DeleteLaws.delete_api_lem memory counting one_server (codes "api1") alice (small, 0)

small-AllDistinct : AllDistinct small.db.endpoints
unfolding are_distinct seen_key endpoint_key starts_with
small-AllDistinct id = elim (Bool-cases (text_eq (codes "api1") id)) [
  | inl e ↦ rw e refl
  | inr e ↦ rw e refl
]

create_api-AllDistinct_example :
    AllDistinct
      (create_api memory counting one_server new_request alice
        (codes "api2")
        (small, 0)).1.0.db.endpoints
unfolding text_eq
create_api-AllDistinct_example =
    create_api-AllDistinct memory counting one_server new_request alice (codes "api2") (small, 0)
      refl small-AllDistinct

patch_api-AllDistinct_example :
    AllDistinct
      (patch_api memory counting one_server
        (codes "api1")
        patch_request
        alice
        (small, 0)).1.0.db.endpoints
patch_api-AllDistinct_example =
    patch_api-AllDistinct memory counting one_server (codes "api1") patch_request alice (small, 0)
      small-AllDistinct
