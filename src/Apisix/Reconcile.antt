-- ===== src/Apisix/Reconcile.antt =====
-- `upsert_api_routes`, `delete_api_routes` and `smoke_test` of
-- services/portal-backend/apisix_client.py. A step that raises ends the function: `none` or `false`.
pub mod Refinement
pub mod Deletion
pub mod Published
use api_portal.Prelude.{
  Bool, List, Option, Result, Text, [], contains, err, false, has, if◌then◌else◌, is_some, keep,
  none, not, ok, rstrip, set_add, some, true, ℕ, ◌&&◌, ◌==◌, ◌∷◌,
}
use api_portal.Config.{Settings}
use api_portal.Internal.UserEvent.{upper}
use api_portal.Database.{Endpoint}
use api_portal.Catalog.Publish.{Gateway}
use api_portal.Apisix.Paths.{slug, normalize_public_path}
use api_portal.Apisix.Routes.{
  Tools, Route, RouteError, endpoint_route_id, legacy_api_route_id, build_endpoint_route,
  path_or_root,
}
use api_portal.Apisix.Admin.{Admin, Item, is_success, is_gone, route_ids, owns_route_id}

abbrev pub ids_of : Option (List Item) → List Text
ids_of none = []
ids_of (some items) = route_ids items

-- The path that the test calls.
unfoldable pub target_path : Text → List Endpoint → Text
unfolding normalize_public_path
target_path public_path [] = path_or_root (rstrip b'/' public_path)
target_path public_path (e ∷ es) =
    let later = target_path public_path es in
    if not (has b'{' e.path_pattern) && not (has b':' e.path_pattern)
    then normalize_public_path public_path e.path_pattern
    else later

abbrev is_unauthorized : Option ℕ → Bool
is_unauthorized none = false
is_unauthorized (some status) = status == 401

module _ (T : Tools) (S : Settings) where
  abbrev pub id_of : Text → Text → Endpoint → Text
  id_of code path e =
      endpoint_route_id T code (upper e.http_method) (normalize_public_path path e.path_pattern)

  module _ (A : Admin) where
    open A use {Routes, put, delete, list, probe}

    -- `_put_route` of a route that may have failed to build, and `_delete_route`.
    unfoldable pub put_route : Text → Result RouteError Route → Routes → Bool × Routes
    put_route rid (err _) g = (false, g)
    put_route rid (ok route) g = let (status, g') = put rid route g in (is_success status, g')

    unfoldable pub delete_route : Text → Routes → Bool × Routes
    delete_route rid g = let (status, g') = delete rid g in (is_gone status, g')

    -- The loop over the endpoints: the ids to keep.
    unfoldable pub put_each :
        Text → Text → List Text → List Endpoint → Routes → Option (List Text) × Routes
    unfolding put_route endpoint_route_id upper normalize_public_path build_endpoint_route
    put_each code path keep [] g = (some keep, g)
    put_each code path keep (e ∷ es) g =
        let rid = id_of code path e in
        let (done, g') = put_route rid (build_endpoint_route T S path e) g in
        let rest = put_each code path (set_add rid keep) es g' in if done then rest else (none, g')

    -- The loop that deletes the ids that pass a test.
    unfoldable pub delete_each : (Text → Bool) → List Text → Routes → Bool × Routes
    unfolding delete_route
    delete_each test [] g = (true, g)
    delete_each test (rid ∷ ids) g =
        let (done, g') = delete_route rid g in
        let deleted = delete_each test ids g' in
        let skipped = delete_each test ids g in
        if test rid then (if done then deleted else (false, g')) else skipped

    abbrev with_ids : List Text → Bool × Routes → Option (List Text) × Routes
    with_ids keep (true, g) = (some keep, g)
    with_ids keep (false, g) = (none, g)

    abbrev pub prune : Text → Option (List Text) × Routes → Option (List Text) × Routes
    prune code (none, g) = (none, g)
    prune code (some keep, g) = with_ids keep (
        delete_each (λ rid. owns_route_id (slug code) rid && not (contains keep rid))
          (ids_of (list g)) g)

    unfoldable pub upsert_api_routes :
        Text → Text → List Endpoint → Routes → Option (List Text) × Routes
    unfolding put_each delete_each route_ids owns_route_id slug
    upsert_api_routes code path es g = prune code (put_each code path [] es g)

    abbrev pub delete_listed : Text → Text → Option (List Item) → Routes → Bool × Routes
    delete_listed code path none g = delete_route (legacy_api_route_id T code path) g
    delete_listed code path (some items) g =
        delete_each (owns_route_id (slug code)) (route_ids items) g

    unfoldable pub delete_api_routes : Text → Text → Routes → Bool × Routes
    unfolding delete_route delete_each legacy_api_route_id owns_route_id slug
    delete_api_routes code path g = delete_listed code path (list g) g

    unfoldable pub smoke_test : Text → List Endpoint → Routes → Bool
    unfolding target_path
    smoke_test path es g = is_unauthorized (probe (target_path path es) g)

    -- The interface that the catalog takes.
    abbrev pub apisix_client : Gateway
    apisix_client = record {
      Routes = Routes;
      upsert_api_routes =
          λ code path es g. let (ids, g') = upsert_api_routes code path es g in (is_some ids, g');
      smoke_test = λ code path es g. smoke_test path es g;
      delete_api_routes = λ code path g. delete_api_routes code path g;
    }
