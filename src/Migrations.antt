-- ===== src/Migrations.antt =====
-- services/portal-backend/db_migrations.py: the columns of the tables of the schema `cdp`, and the
-- rows of the two tables that it moves. LIKE is a parameter. A statement that fails raises, and its
-- transaction is undone: `none`. Keys between tables are not checked.
pub mod Laws
use api_portal.Prelude.{
  Bool, List, Option, Text, [], all, codes, contains, false, find, if◌then◌else◌, is_empty, is_some,
  keep, lookup, map, none, not, some, text_eq, true, ◌&&◌, ◌++◌, ◌∷◌,
}
use api_portal.Apisix.Paths.{digit_span}
use api_portal.Apisix.Admin.{behind}

-- A row of `api_scope` or `api_endpoint`, and of `api_catalog`.
pub record ScopeRow : Type 0 where
  pub api_id : Text
  pub scope_name : Text
  pub http_method : Text
  pub path_pattern : Text
  pub upstream_url : Option Text

pub record CatalogRow : Type 0 where
  pub api_id : Text
  pub public_path : Text
  pub upstream_url : Text

pub record Schema : Type 0 where
  pub tables : List (Text × List Text)
  pub scopes : List ScopeRow
  pub catalog : List CatalogRow

-- `_table_exists` and `_column_exists`.
unfoldable pub table_exists : Text → Schema → Bool
table_exists table s = is_some (lookup table s.tables)

abbrev columns_have : Text → Option (List Text) → Bool
columns_have column none = false
columns_have column (some columns) = contains columns column

unfoldable pub column_exists : Text → Text → Schema → Bool
column_exists table column s = columns_have column (lookup table s.tables)

-- ALTER TABLE … ADD COLUMN, DROP COLUMN, RENAME COLUMN and RENAME TO, on what is there.
abbrev pub alter :
    Text → (List Text → List Text) → List (Text × List Text) → List (Text × List Text)
alter table change [] = []
alter table change ((t, columns) ∷ rest) =
    (t, if text_eq t table then change columns else columns) ∷ alter table change rest

abbrev pub rename_table : Text → Text → List (Text × List Text) → List (Text × List Text)
rename_table old new [] = []
rename_table old new ((t, columns) ∷ rest) =
    (if text_eq t old then new else t, columns) ∷ rename_table old new rest

abbrev pub rename_in : Text → Text → List Text → List Text
rename_in old new = map λ c. if text_eq c old then new else c

abbrev pub api_scope : Text
api_scope = codes "api_scope"

abbrev pub api_endpoint : Text
api_endpoint = codes "api_endpoint"

abbrev pub upstream_url_column : Text
upstream_url_column = codes "upstream_url"

abbrev seed_id : Text → Text
seed_id n = codes "a1000000-0000-0000-0000-00000000000" ++ n

abbrev seed_row : Text → Text → Text → Text → Text → ScopeRow
seed_row n scope method pattern path = record {
  api_id = seed_id n;
  scope_name = scope;
  http_method = method;
  path_pattern = pattern;
  upstream_url = some (codes "http://mock-internal-gw:8090/internal/api/v1/" ++ path);
}

-- The six rows of the seed.
abbrev pub seed_rows : List ScopeRow
seed_rows =
    seed_row (codes "1") (codes "capi.vendor.read") (codes "GET") (codes "/") (codes "vendors")
    ∷ seed_row (codes "1") (codes "capi.vendor.read") (codes "GET") (codes "/{id}")
        (codes "vendors/{id}")
    ∷ seed_row (codes "1") (codes "capi.vendor.write") (codes "POST") (codes "/") (codes "vendors")
    ∷ seed_row (codes "2") (codes "capi.order.read") (codes "GET") (codes "/") (codes "orders")
    ∷ seed_row (codes "2") (codes "capi.order.read") (codes "GET") (codes "/{id}")
        (codes "orders/{id}")
    ∷ seed_row (codes "3") (codes "capi.hr.read") (codes "GET") (codes "/") (codes "employees")
    ∷ []

abbrev pub is_seeded : ScopeRow → Bool
is_seeded r =
    contains (seed_id (codes "1") ∷ seed_id (codes "2") ∷ seed_id (codes "3") ∷ []) r.api_id

-- `regexp_replace(s, '/\*\*$', '')`
unfoldable pub strip_glob : Text → Text
strip_glob [] = []
strip_glob (c ∷ s) =
    let rest = strip_glob s in if text_eq (c ∷ s) (codes "/**") then [] else c ∷ rest

-- `substring(s FROM '^/capi/v\d+(.*)$')`, or the text itself.
abbrev behind_digits : Text → Text × Text → Text
behind_digits s ([], rest) = s
behind_digits s (d ∷ digits, rest) = rest

abbrev behind_version : Text → Option Text → Text
behind_version s none = s
behind_version s (some rest) = behind_digits s (digit_span rest)

unfoldable pub strip_version : Text → Text
unfolding behind digit_span
strip_version s = behind_version s (behind (codes "/capi/v") s)

abbrev url_or : Option Text → Text → Option Text
url_or none url = some url
url_or (some old) url = some old

abbrev slash_if_empty : Text → Text
slash_if_empty s = if is_empty s then codes "/" else s

abbrev text_behind : Option Text → Text
text_behind none = []
text_behind (some s) = s

module _ (like : Text → Text → Bool) where
  -- `substring(s FROM length(c.public_path) + 1)`: LIKE has a wildcard of one character, so the text
  -- that is cut off has the length of the path only.
  abbrev drop_length : Text → Text → Text
  drop_length [] s = s
  drop_length (a ∷ p) [] = []
  drop_length (a ∷ p) (b ∷ s) = drop_length p s

  abbrev pub relative_pattern : Text → Text → Text
  relative_pattern public_path pattern =
      if like pattern (public_path ++ codes "/%")
      then slash_if_empty (strip_glob (drop_length public_path pattern))
      else if text_eq pattern public_path
      then codes "/"
      else pattern

  abbrev backfill_with : ScopeRow → Option CatalogRow → ScopeRow
  backfill_with s none = s
  backfill_with s (some c) = record s {
    upstream_url =
        url_or s.upstream_url (c.upstream_url ++ strip_glob (strip_version s.path_pattern));
    path_pattern = relative_pattern c.public_path s.path_pattern;
  }

  -- The UPDATE of one row, with the one catalog row of its API.
  unfoldable pub backfill : List CatalogRow → ScopeRow → ScopeRow
  unfolding strip_glob strip_version
  backfill catalog s = backfill_with s (find (λ c. text_eq s.api_id c.api_id) catalog)

  abbrev pub backfilled : Bool → List CatalogRow → List ScopeRow → List ScopeRow
  backfilled false catalog rows = rows
  backfilled true catalog rows = map (backfill catalog) rows

  -- The transaction; SET NOT NULL fails on a row without a URL.
  unfoldable pub move_upstream : Bool → Bool → Schema → Option Schema
  unfolding backfill
  move_upstream has_scope_upstream has_catalog_upstream s =
      let kept = keep (λ r. not (is_seeded r)) s.scopes in
      let rows = backfilled has_catalog_upstream s.catalog (kept ++ seed_rows) in
      let with_column =
        if has_scope_upstream
        then s.tables
        else alter api_scope (λ cs. cs ++ upstream_url_column ∷ []) s.tables in
      let without_column =
        if has_catalog_upstream
        then alter (codes "api_catalog") (keep λ c. not (text_eq c upstream_url_column)) with_column
        else with_column in
      if all (λ (r : ScopeRow). is_some r.upstream_url) rows
      then some (record { tables = without_column; scopes = rows; catalog = s.catalog })
      else none

  -- `_migrate_endpoint_upstream`
  unfoldable pub migrate_endpoint_upstream : Schema → Option Schema
  unfolding table_exists column_exists move_upstream
  migrate_endpoint_upstream s =
      let has_scope_upstream = column_exists api_scope upstream_url_column s in
      let has_catalog_upstream = column_exists (codes "api_catalog") upstream_url_column s in
      if not (table_exists api_scope s)
      then some s
      else if has_scope_upstream && not has_catalog_upstream
      then some s
      else move_upstream has_scope_upstream has_catalog_upstream s

  abbrev pub renamed : List (Text × List Text) → List (Text × List Text)
  renamed tables = alter api_endpoint (rename_in (codes "scope_name") (codes "required_scope")) (
      alter api_endpoint (rename_in (codes "scope_id") (codes "endpoint_id"))
        (rename_table api_scope api_endpoint tables))

  -- `_migrate_scope_table_to_endpoint`; a table cannot take the name of another.
  unfoldable pub migrate_scope_table_to_endpoint : Schema → Option Schema
  unfolding table_exists
  migrate_scope_table_to_endpoint s =
      if not (table_exists api_scope s)
      then some s
      else if table_exists api_endpoint s
      then none
      else some (record s { tables = renamed s.tables })

  abbrev pub and_migrate : Option Schema → Option Schema
  and_migrate none = none
  and_migrate (some s) = migrate_scope_table_to_endpoint s

  unfoldable pub run_all : Schema → Option Schema
  unfolding migrate_endpoint_upstream migrate_scope_table_to_endpoint
  run_all s = and_migrate (migrate_endpoint_upstream s)
