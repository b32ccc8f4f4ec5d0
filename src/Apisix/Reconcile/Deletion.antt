-- ===== src/Apisix/Reconcile/Deletion.antt =====
-- `delete_api_routes` of services/portal-backend/apisix_client.py, and `upsert_api_routes` run again.
use api_portal.Prelude.{
  Bool, List, Option, Text, [], contains, false, if◌then◌else◌, is_some, none, refl, some, sym,
  text_eq, true, ◌&&◌, ◌∙◌, ◌≡◌,
}
use api_portal.Redis.{or_else}
use api_portal.Config.{Settings}
use api_portal.Database.{Endpoint}
use api_portal.Apisix.Paths.{slug}
use api_portal.Apisix.Routes.{Tools, Route, legacy_api_route_id}
use api_portal.Apisix.Admin.{Admin, Item, route_ids, owns_route_id}
use api_portal.Apisix.Reconcile.{
  put_each, upsert_api_routes, delete_listed, delete_api_routes, delete_route,
}
use api_portal.Apisix.Reconcile.Refinement.{
  without, desired, listed, complete, delete_each-without, upsert_api_routes-desired,
}

-- Deleting what is listed of the ids that pass deletes all of them.
drop_listed :
    (c t : Bool) (o : Option Route)
    → (t ≡ true → is_some o ≡ true → c ≡ true)
    → (if c && t then none else o) ≡ (if t then none else o)
drop_listed true t o h = refl
drop_listed false false o h = refl
drop_listed false true none h = refl
drop_listed false true (some r) h = absurd (cc (h refl refl))

module _ (T : Tools) (S : Settings) (A : Admin) where
  open A use {Routes, get, list}

  -- The ids that a deletion is for: those of the API, or without the list only the one of the time
  -- when an API had one route.
  abbrev pub doomed : Text → Text → Bool → Text → Bool
  doomed code path true rid = owns_route_id (slug code) rid
  doomed code path false rid = text_eq (legacy_api_route_id T code path) rid

  delete_listed-without :
      (code path : Text) (o : Option (List Item)) (g : Routes) (k : Text)
      → list g ≡ o
      → (delete_listed T S A code path o g).0 ≡ true
      → get (delete_listed T S A code path o g).1 k
        ≡ without (doomed code path (is_some o)) (get g) k
  unfolding delete_route
  delete_listed-without code path none g k e h =
      A.get-delete (legacy_api_route_id T code path) k g h
  delete_listed-without code path (some items) g k e h =
      delete_each-without T S A (owns_route_id (slug code)) (route_ids items) g k h
      ∙ drop_listed (contains (route_ids items) k) (owns_route_id (slug code) k) (get g k)
          λ owned there. rw e at (complete T S A g (slug code) k (rw e refl) owned there)

  -- Where `delete_api_routes` returns, every route of the API is gone if the list of the routes
  -- came, else the one with the id of the time before the endpoints; all others are what they were.
  pub delete_api_routes-doomed :
      (code path : Text) (g : Routes) (k : Text)
      → (delete_api_routes T S A code path g).0 ≡ true
      → get (delete_api_routes T S A code path g).1 k
        ≡ without (doomed code path (listed T S A g)) (get g) k
  unfolding delete_api_routes
  delete_api_routes-doomed code path g k h = delete_listed-without code path (list g) g k refl h

  again :
      (d o : Option Route) (w now : Bool)
      → or_else d (if now && w then none else or_else d (if w then none else o))
        ≡ or_else d (if w then none else o)
  again (some r) o w now = refl
  again none o true true = refl
  again none o false true = refl
  again none o w false = refl

  -- Where `upsert_api_routes` has returned and pruned, and returns when it runs again on the same
  -- endpoints, every id has the route that it had after the first run.
  pub upsert_api_routes-idempotent :
      (code path : Text) (es : List Endpoint) (g : Routes) (ids again_ids : List Text) (k : Text)
      → (upsert_api_routes T S A code path es g).0 ≡ some ids
      → listed T S A (put_each T S A code path [] es g).1 ≡ true
      → (upsert_api_routes T S A code path es (upsert_api_routes T S A code path es g).1).0
        ≡ some again_ids
      → get (upsert_api_routes T S A code path es (upsert_api_routes T S A code path es g).1).1 k
        ≡ get (upsert_api_routes T S A code path es g).1 k
  upsert_api_routes-idempotent code path es g ids again_ids k h came h' =
      let g' = (upsert_api_routes T S A code path es g).1 in
      let (_, first) = upsert_api_routes-desired T S A code path es g ids k h in
      let (_, second) = upsert_api_routes-desired T S A code path es g' again_ids k h' in
      let settled = rw came at first in
      second
      ∙ rw settled (
          again (desired T S code path es k) (get g k) (owns_route_id (slug code) k)
            (listed T S A (put_each T S A code path [] es g').1))
      ∙ sym settled
