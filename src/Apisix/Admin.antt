-- ===== src/Apisix/Admin.antt =====
-- `_list_route_ids` and `_owns_route_id` of services/portal-backend/apisix_client.py, and the Admin
-- API of APISIX behind `_put_route`, `_delete_route` and the GET of the list: a parameter, with the
-- documented effect of each request on the routes that there are.
pub mod Listing
use api_portal.Prelude.{
  Bool, List, Option, Text, [], any, codes, false, has, if◌then◌else◌, is_empty, is_some, leb, none,
  some, text_eq, true, ℕ, ◌&&◌, ◌++◌, ◌==◌, ◌||◌, ◌∷◌, ◌≡◌,
}
use api_portal.Apisix.Paths.{digit_span, digits_then}
use api_portal.Apisix.Routes.{Route}

-- One item of the answer's `list`: `item.value.id` and `item.key`, each may lack.
pub record Item : Type 0 where
  pub id : Option Text
  pub key : Option Text

abbrev text_or : Option Text → Text → Text
text_or none other = other
text_or (some s) other = if is_empty s then other else s

-- `s.rsplit("/", 1)[-1]`
unfoldable pub last_segment : Text → Text
last_segment [] = []
last_segment (c ∷ s) =
    let rest = last_segment s in if has b'/' s then rest else if c == b'/' then s else c ∷ s

abbrev key_text : Option Text → Text
key_text none = []
key_text (some s) = s

abbrev pub item_id : Item → Text
item_id item = text_or item.id (last_segment (key_text item.key))

-- The ids of the items, without the empty ones.
unfoldable pub route_ids : List Item → List Text
unfolding last_segment
route_ids [] = []
route_ids (item ∷ items) =
    let rid = item_id item in
    let rest = route_ids items in if is_empty rid then rest else rid ∷ rest

-- The text behind a prefix.
unfoldable pub behind : Text → Text → Option Text
behind [] s = some s
behind (a ∷ p) [] = none
behind (a ∷ p) (b ∷ s) = let rest = behind p s in if a == b then rest else none

abbrev pub version_follows : Option Text → Bool
version_follows none = false
version_follows (some rest) = is_some (digits_then b'-' (digit_span rest))

abbrev pub own_prefix : Text → Text
own_prefix s = codes "capi-" ++ (s ++ codes "-v")

-- `_owns_route_id(slug).match(rid)`
unfoldable pub owns_route_id : Text → Text → Bool
unfolding behind digit_span
owns_route_id slug rid = version_follows (behind (own_prefix slug) rid)

abbrev pub same_id : Option Text → Text → Bool
same_id none k = false
same_id (some rid) k = text_eq rid k

abbrev pub has_id : Text → Item → Bool
has_id k item = same_id item.id k

-- The status of the answer, `none` where there is none.
abbrev pub is_success : Option ℕ → Bool
is_success none = false
is_success (some status) = leb 200 status && leb status 299

-- `resp.status_code not in (200, 404)` and `raise_for_status`.
abbrev pub is_gone : Option ℕ → Bool
is_gone none = false
is_gone (some status) = status == 200 || status == 404 || is_success (some status)

pub record Admin : Type 1 where
  pub Routes : Type 0
  pub get : Routes → Text → Option Route
  pub put : Text → Route → Routes → Option ℕ × Routes
  pub delete : Text → Routes → Option ℕ × Routes
  -- The items, `none` where the request or reading its answer raises.
  pub list : Routes → Option (List Item)
  -- The status of a GET of a path of the gateway without credentials.
  pub probe : Text → Routes → Option ℕ
  pub get-put :
      (k j : Text) (r : Route) (g : Routes)
      → is_success (put k r g).0 ≡ true
      → get (put k r g).1 j ≡ (if text_eq k j then some r else get g j)
  pub get-delete :
      (k j : Text) (g : Routes)
      → is_gone (delete k g).0 ≡ true
      → get (delete k g).1 j ≡ (if text_eq k j then none else get g j)
  pub list_complete :
      (k : Text) (g : Routes) (items : List Item)
      → list g ≡ some items
      → is_some (get g k) ≡ true
      → any (has_id k) items ≡ true
