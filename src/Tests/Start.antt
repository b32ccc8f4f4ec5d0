-- ===== src/Tests/Start.antt =====
-- The migrations and the queries run on small inputs.
use api_portal.Prelude.{
  Bool, List, Option, [], arith, codes, contains, count, false, length, lookup, none, refl, some,
  take, text_eq, true, ◌++◌, ◌∷◌, ◌≡◌,
}
use api_portal.Params.{pieces}
use api_portal.Params.Scan.{IsScan, pieces-IsScan}
use api_portal.Auth.{has_role}
use api_portal.Migrations.{Schema, api_scope, upstream_url_column, run_all}
use api_portal.Migrations.Laws.{IsMigrated, run_all-idempotent}
use api_portal.Queries.{Paged, TokenRow, TokenQuery, matching, sooner, list_all_tokens}
use api_portal.Queries.Pages.{is_sorted, list_all_tokens_lem}
use api_portal.Tests.Fixtures.{alice, small, first_pat, first_application, first_api}

-- The tables of the time when an API had one upstream.
abbrev old_schema : Schema
old_schema = record {
  tables =
      (api_scope, codes "scope_id" ∷ codes "scope_name" ∷ [])
      ∷ (codes "api_catalog", upstream_url_column ∷ [])
      ∷ [];
  scopes =
      record {
        api_id = codes "x";
        scope_name = codes "read";
        http_method = codes "GET";
        path_pattern = codes "/capi/v1/x/**";
        upstream_url = none;
      }
      ∷ [];
  catalog =
      record {
        api_id = codes "x";
        public_path = codes "/capi/v1/x";
        upstream_url = codes "http://x";
      }
      ∷ [];
}

abbrev or_old : Option Schema → Schema
or_old none = old_schema
or_old (some s) = s

abbrev new_schema : Schema
new_schema = or_old (run_all (λ s p. false) old_schema)

run_all-idempotent_example :
    IsMigrated (λ s p. false) old_schema new_schema
    × (run_all (λ s p. false) new_schema ≡ some new_schema)
unfolding run_all lookup text_eq contains
run_all-idempotent_example = run_all-idempotent (λ s p. false) old_schema new_schema refl

abbrev every_token : TokenQuery
every_token = record {
  expiring_in_days = none;
  include_expired = true;
  user_subs = none;
  status = none;
  page = 1;
  size = 50;
}

abbrev one_token : Paged TokenRow
one_token = record {
  items = record { pat = first_pat; application = first_application; api = first_api } ∷ [];
  total = 1;
  page = 1;
  size = 50;
}

list_all_tokens_example :
    (has_role alice (codes "platform-admin") ≡ true)
    × (one_token.total ≡ length (matching every_token 0 small.db))
    × ((rows : List TokenRow) × (is_sorted sooner rows ≡ true)
        × ((p : TokenRow → Bool) → count p rows ≡ count p (matching every_token 0 small.db))
        × (take 0 rows ++ one_token.items ≡ take 50 rows))
unfolding list_all_tokens has_role contains text_eq take
list_all_tokens_example =
    list_all_tokens_lem every_token 0 alice small.db one_token (omega arith) refl

pieces-IsScan_example : IsScan (codes "/a/{id}/:x_1-y") (pieces (codes "/a/{id}/:x_1-y"))
pieces-IsScan_example = pieces-IsScan (codes "/a/{id}/:x_1-y")
