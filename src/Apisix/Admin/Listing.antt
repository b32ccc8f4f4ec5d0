-- ===== src/Apisix/Admin/Listing.antt =====
-- What the list of routes of services/portal-backend/apisix_client.py has of the ids in it.
use api_portal.Prelude.{
  Bool-cases, List, Option-cases, Text, [], any, arith, contains, false, if_both, inl, inr,
  is_empty, refl, text_eq_iff, text_eq_refl, true, ◌∷◌, ◌≡◌,
}
use api_portal.Apisix.Admin.{Item, has_id, item_id, same_id, route_ids, owns_route_id, behind}

item_id-same :
    (item : Item) (k : Text) → is_empty k ≡ false → same_id item.id k ≡ true → item_id item ≡ k
item_id-same item k h e = elim (Option-cases item.id) [
  | inl f ↦ let wrong : false ≡ true = rw f at e in absurd (cc wrong)
  | inr (rid, f) ↦
      let same : rid ≡ k = (text_eq_iff rid k).0 (rw f at e) in rw f (rw same (rw h refl))
]

pub contains-route_ids :
    (items : List Item) (k : Text)
    → is_empty k ≡ false
    → any (has_id k) items ≡ true
    → contains (route_ids items) k ≡ true
unfolding route_ids contains
contains-route_ids [] k h e = absurd (cc e)
contains-route_ids (item ∷ items) k h e = elim (Bool-cases (has_id k item)) [
  | inl f ↦ rw (item_id-same item k h f) (rw h (rw (text_eq_refl k) refl))
  | inr f ↦
      let rest = contains-route_ids items k h (rw f at e) in
      if_both (λ (xs : List Text). contains xs k ≡ true) (is_empty (item_id item)) (route_ids items)
        (item_id item ∷ route_ids items) rest (ground (arith, rest))
]

-- An id of the API is not empty.
pub owns-nonempty : (s k : Text) → owns_route_id s k ≡ true → is_empty k ≡ false
unfolding owns_route_id behind
owns-nonempty s [] h = absurd (cc h)
owns-nonempty s (c ∷ k) h = refl
