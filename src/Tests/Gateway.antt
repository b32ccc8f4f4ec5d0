-- ===== src/Tests/Gateway.antt =====
-- An Admin API over an association list, and the gateway client run on it.
use api_portal.Prelude.{
  Bool-cases, List, Text, [], all, any, arith, codes, contains, has, if◌then◌else◌, inl, inr,
  is_some, lookup, lstrip, none, refl, rstrip, set_add, some, starts_with, sym, take, text_eq,
  text_eq_iff, true, ◌&&◌, ◌∷◌, ◌≡◌,
}
use api_portal.Portal.{Portal}
use api_portal.Catalog.Publish.{ApiCreateRequest, create_api}
use api_portal.Catalog.Checks.{is_ok, assert_valid_public_base, assert_valid_endpoints}
use api_portal.Config.{settings}
use api_portal.Apisix.Routes.{Tools, Route, endpoint_route_id, build_endpoint_route}
use api_portal.Apisix.Routes.Buildable.{build_endpoint_route_total}
use api_portal.Apisix.Admin.{route_ids, Admin, Item, has_id, owns_route_id}
use api_portal.Apisix.Paths.{slug}
use api_portal.Apisix.Owned.{owns_route_id-overlap}
use api_portal.Apisix.Reconcile.{
  apisix_client, id_of, put_each, upsert_api_routes, delete_api_routes,
}
use api_portal.Apisix.Reconcile.Refinement.{without, desired, listed, upsert_api_routes-desired}
use api_portal.Apisix.Reconcile.Deletion.{
  doomed, delete_api_routes-doomed, upsert_api_routes-idempotent,
}
use api_portal.Apisix.Resync.{attempts, before, attempts-register}
use api_portal.Redis.{or_else}
use api_portal.Tests.Fixtures.{memory, one_server, first_endpoint, alice, small}

abbrev Shelf : Type 0
Shelf = List (Text × Route)

abbrev take_off : Text → Shelf → Shelf
take_off k [] = []
take_off k ((j, r) ∷ g) = let rest = take_off k g in if text_eq j k then rest else (j, r) ∷ rest

pub lookup-take_off :
    (k j : Text) (g : Shelf) → lookup j (take_off k g) ≡ (if text_eq k j then none else lookup j g)
unfolding lookup
lookup-take_off k j [] = elim (Bool-cases (text_eq k j)) [ inl e ↦ rw e refl | inr e ↦ rw e refl ]
lookup-take_off k j ((i, r) ∷ g) =
    ground (arith, text_eq_iff i k, text_eq_iff k j, text_eq_iff i j, lookup-take_off k j g)

pub lookup-put :
    (k j : Text) (r : Route) (g : Shelf)
    → lookup j ((k, r) ∷ g) ≡ (if text_eq k j then some r else lookup j g)
unfolding lookup
lookup-put k j r g = refl

abbrev items_of : Shelf → List Item
items_of [] = []
items_of ((j, r) ∷ g) = record { id = some j; key = none } ∷ items_of g

items_complete :
    (k : Text) (g : Shelf) → is_some (lookup k g) ≡ true → any (has_id k) (items_of g) ≡ true
unfolding lookup
items_complete k [] h = absurd (cc h)
items_complete k ((j, r) ∷ g) h = elim (Bool-cases (text_eq j k)) [
  | inl e ↦ rw e refl
  | inr e ↦ rw e (items_complete k g (rw e at h))
]

pub listed_complete :
    (k : Text) (g : Shelf) (items : List Item)
    → some (items_of g) ≡ some items
    → is_some (lookup k g) ≡ true
    → any (has_id k) items ≡ true
listed_complete k g items e h =
    let same : items_of g ≡ items = cc e in rw (sym same) (items_complete k g h)

abbrev shelf : Admin
shelf = record {
  Routes = Shelf;
  get = λ g k. lookup k g;
  put = λ k r g. (some 201, (k, r) ∷ g);
  delete = λ k g. (some 200, take_off k g);
  list = λ g. some (items_of g);
  probe = λ path g. some 401;
  get-put = λ k j r g h. lookup-put k j r g;
  get-delete = λ k j g h. lookup-take_off k j g;
  list_complete = listed_complete;
}

abbrev tools : Tools
tools = record {
  md5_hex = λ s. codes "abcdef";
  escape = λ s. s;
  str = λ n. codes "1";
  urlparse = one_server;
}

build_endpoint_route_total_example :
    all
      (λ e. is_ok (build_endpoint_route tools settings (codes "/capi/v1/orders") e))
      (first_endpoint ∷ [])
    ≡ true
unfolding assert_valid_public_base assert_valid_endpoints starts_with has rstrip text_eq contains
build_endpoint_route_total_example =
    build_endpoint_route_total tools settings (codes "/capi/v1/orders") (first_endpoint ∷ []) refl
      refl

abbrev orders : Text
orders = codes "orders"

abbrev base : Text
base = codes "/capi/v1/orders"

abbrev ids : List Text
ids = id_of tools settings orders base first_endpoint ∷ []

upsert_api_routes-desired_example :
    (contains ids (codes "x")
      ≡ is_some (desired tools settings orders base (first_endpoint ∷ []) (codes "x")))
    × (lookup
          (codes "x")
          (upsert_api_routes tools settings shelf orders base (first_endpoint ∷ []) []).1
        ≡ or_else (desired tools settings orders base (first_endpoint ∷ []) (codes "x")) (
            without
              (λ j.
                listed tools settings shelf
                  (put_each tools settings shelf orders base [] (first_endpoint ∷ []) []).1
                && owns_route_id (slug orders) j)
              (λ k. lookup k [])
              (codes "x")))
unfolding upsert_api_routes contains text_eq rstrip lstrip set_add take
upsert_api_routes-desired_example =
    upsert_api_routes-desired tools settings shelf orders base (first_endpoint ∷ []) [] ids
      (codes "x") refl

upsert_api_routes-idempotent_example :
    lookup
      (codes "x")
      (upsert_api_routes tools settings shelf orders base
        (first_endpoint ∷ [])
        (upsert_api_routes tools settings shelf orders base (first_endpoint ∷ []) []).1).1
    ≡ lookup
        (codes "x")
        (upsert_api_routes tools settings shelf orders base (first_endpoint ∷ []) []).1
unfolding upsert_api_routes contains text_eq rstrip lstrip set_add take
upsert_api_routes-idempotent_example =
    upsert_api_routes-idempotent tools settings shelf orders base (first_endpoint ∷ []) [] ids ids
      (codes "x") refl refl refl

-- The gateway after the registration of the API.
abbrev registered : Shelf
registered = (upsert_api_routes tools settings shelf orders base (first_endpoint ∷ []) []).1

delete_api_routes-doomed_example :
    lookup (codes "x") (delete_api_routes tools settings shelf orders base registered).1
    ≡ without
        (doomed tools settings shelf orders base (listed tools settings shelf registered))
        (λ k. lookup k registered)
        (codes "x")
unfolding delete_api_routes route_ids upsert_api_routes contains text_eq rstrip lstrip set_add take
delete_api_routes-doomed_example =
    delete_api_routes-doomed tools settings shelf orders base registered (codes "x") refl

owns_route_id-overlap_example :
    owns_route_id (slug orders) (endpoint_route_id tools (codes "orders-v2") (codes "GET") base)
    ≡ true
unfolding slug rstrip lstrip
owns_route_id-overlap_example =
    owns_route_id-overlap tools orders (codes "orders-v2") (codes "2") (codes "GET") base refl refl
      refl

attempts-register_example :
    ((attempts tools settings shelf (λ g. g) 10 orders base (first_endpoint ∷ []) []).0 ≡ true)
    × (lookup
          (codes "x")
          (attempts tools settings shelf (λ g. g) 10 orders base (first_endpoint ∷ []) []).1
        ≡ or_else (desired tools settings orders base (first_endpoint ∷ []) (codes "x")) (
            lookup
              (codes "x")
              (attempts tools settings shelf (λ g. g) 10 orders base (first_endpoint ∷ []) []).1))
unfolding upsert_api_routes contains text_eq rstrip lstrip set_add take before
attempts-register_example =
    attempts-register tools settings shelf (λ g. g) 10 0 orders base (first_endpoint ∷ []) []
      (codes "x") (omega arith) refl

abbrev request : ApiCreateRequest
request = record {
  api_code = orders;
  name = orders;
  description = none;
  owner_dept = codes "dept";
  public_path = base;
  required_roles = [];
  endpoints = first_endpoint ∷ [];
}

abbrev site : Portal memory × Shelf
site =
    (create_api memory (apisix_client tools settings shelf) one_server request alice (codes "api2")
      (small, [])).1
