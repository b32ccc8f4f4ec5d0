-- ===== src/Apisix/Reconcile/Refinement.antt =====
-- What `upsert_api_routes` and `delete_api_routes` of services/portal-backend/apisix_client.py do to
-- the routes, against a specification on the map from ids to routes.
use api_portal.Prelude.{
  Bool, Bool-cases, List, Option, Option-cases, Result, Text, [], ap, arith, contains,
  contains-set_add, err, false, if_both, if◌then◌else◌, inl, inr, is_some, keep, none, not, ok,
  refl, set_add, some, sym, text_eq, text_eq_iff, true, ◌&&◌, ◌||◌, ◌∙◌, ◌∷◌, ◌≡◌,
}
use api_portal.Redis.{or_else}
use api_portal.Config.{Settings}
use api_portal.Database.{Endpoint}
use api_portal.Apisix.Paths.{slug}
use api_portal.Apisix.Routes.{Tools, Route, RouteError, build_endpoint_route}
use api_portal.Apisix.Admin.{Admin, Item, is_gone, owns_route_id}
use api_portal.Apisix.Admin.Listing.{contains-route_ids, owns-nonempty}
use api_portal.Apisix.Reconcile.{
  ids_of, id_of, put_route, delete_route, put_each, delete_each, with_ids, prune, upsert_api_routes,
}

-- The routes that a set of ids leaves.
abbrev pub without : (Text → Bool) → (Text → Option Route) → Text → Option Route
without gone routes k = if gone k then none else routes k

abbrev pub route_if : Text → Text → Result RouteError Route → Option Route
route_if rid k (err _) = none
route_if rid k (ok route) = if text_eq rid k then some route else none

or_else_assoc {ℓ} :
    {A : Type ℓ} (a b c : Option A) → or_else a (or_else b c) ≡ or_else (or_else a b) c
or_else_assoc none b c = refl
or_else_assoc (some a) b c = refl

pub or_else-again {ℓ} : {A : Type ℓ} (a b : Option A) → or_else a b ≡ or_else a (or_else a b)
or_else-again none b = refl
or_else-again (some a) b = refl

pub is_some-or_else {ℓ} :
    {A : Type ℓ} (a b : Option A) → is_some (or_else a b) ≡ (is_some a || is_some b)
is_some-or_else none b = refl
is_some-or_else (some a) b = refl

or_assoc : (a b c : Bool) → (a || (b || c)) ≡ (a || b || c)
or_assoc a b c = ground arith

hit :
    (b c t : Bool) (o : Option Route)
    → (b ≡ true → t ≡ true)
    → (if c && t then none else if b then none else o) ≡ (if (b || c) && t then none else o)
hit false c t o h = refl
hit true true t o h = rw (h refl) refl
hit true false t o h = rw (h refl) refl

skip :
    (b c t : Bool) (o : Option Route)
    → (b ≡ true → t ≡ false)
    → (if c && t then none else o) ≡ (if (b || c) && t then none else o)
skip false c t o h = refl
skip true true t o h = refl
skip true false t o h = rw (h refl) refl

or_false : (b : Bool) → (b || false) ≡ b
or_false b = ground arith

settle :
    (d o : Option Route) (l w lists : Bool)
    → (lists ≡ false → l ≡ false)
    → (lists ≡ true → w ≡ true → is_some (or_else d o) ≡ true → l ≡ true)
    → (if l && (w && not (is_some d || false)) then none else or_else d o)
      ≡ or_else d (if lists && w then none else o)
settle (some r) o true true lists h k = refl
settle (some r) o true false lists h k = refl
settle (some r) o false w lists h k = refl
settle none o true false true h k = refl
settle none o false false true h k = refl
settle none o l w false h k = rw (h refl) refl
settle none none l true true h k =
    if_both (λ (x : Option Route). x ≡ none) (l && true) none none refl refl
settle none (some r) l true true h k = rw (k refl refl refl) refl

module _ (T : Tools) (S : Settings) where
  -- The routes of the endpoints: of two endpoints with one id, the later one.
  unfoldable pub desired : Text → Text → List Endpoint → Text → Option Route
  unfolding build_endpoint_route
  desired code path [] k = none
  desired code path (e ∷ es) k =
      or_else (desired code path es k)
        (route_if (id_of T S code path e) k (build_endpoint_route T S path e))

  module _ (A : Admin) where
    open A use {Routes, get, list}

    get-put_route :
        (rid k : Text) (built : Result RouteError Route) (g : Routes)
        → (put_route T S A rid built g).0 ≡ true
        → get (put_route T S A rid built g).1 k ≡ or_else (route_if rid k built) (get g k)
    unfolding put_route
    get-put_route rid k (err e) g h = absurd (cc h)
    get-put_route rid k (ok route) g h =
        A.get-put rid k route g h
        ∙ elim (Bool-cases (text_eq rid k)) [ inl e ↦ rw e refl | inr e ↦ rw e refl ]

    put_route-built :
        (rid k : Text) (built : Result RouteError Route) (g : Routes)
        → (put_route T S A rid built g).0 ≡ true
        → is_some (route_if rid k built) ≡ text_eq rid k
    unfolding put_route
    put_route-built rid k (err e) g h = absurd (cc h)
    put_route-built rid k (ok route) g h = elim (Bool-cases (text_eq rid k)) [
      | inl e ↦ rw e refl
      | inr e ↦ rw e refl
    ]

    put_each-some :
        (code path : Text) (keep : List Text) (es : List Endpoint) (g : Routes) (kept : List Text)
        (k : Text)
        → (put_each T S A code path keep es g).0 ≡ some kept
        → (get (put_each T S A code path keep es g).1 k
            ≡ or_else (desired code path es k) (get g k))
          × (contains kept k ≡ (is_some (desired code path es k) || contains keep k))
    unfolding put_each desired
    put_each-some code path keep [] g kept k h = (refl, cc h)
    put_each-some code path keep (e ∷ es) g kept k h =
        let rid = id_of T S code path e in
        let built = build_endpoint_route T S path e in
        let first = put_route T S A rid built g in
        elim (Bool-cases first.0) [
          | inr f ↦ let wrong : none ≡ some kept = rw f at h in absurd (cc wrong)
          | inl f ↦
              let rest : (put_each T S A code path (set_add rid keep) es first.1).0 ≡ some kept =
                rw f at h in
              let (a, b) = put_each-some code path (set_add rid keep) es first.1 kept k rest in
              rw f (
                a ∙ rw (get-put_route rid k built g f) (or_else_assoc (desired code path es k) _ _),
                b
                    ∙ rw (contains-set_add rid k keep) (
                        rw (is_some-or_else (desired code path es k) (route_if rid k built)) (
                          rw (put_route-built rid k built g f) (
                            or_assoc (is_some (desired code path es k)) (text_eq rid k)
                              (contains keep k)))),
              )
        ]

    pub delete_each-without :
        (test : Text → Bool) (ids : List Text) (g : Routes) (k : Text)
        → (delete_each T S A test ids g).0 ≡ true
        → get (delete_each T S A test ids g).1 k ≡ without (λ j. contains ids j && test j) (get g) k
    unfolding delete_each delete_route contains
    delete_each-without test [] g k h = refl
    delete_each-without test (rid ∷ ids) g k h = elim (Bool-cases (test rid)) [
      | inr f ↦
          let rest : (delete_each T S A test ids g).0 ≡ true = rw f at h in
          rw f (
            delete_each-without test ids g k rest
            ∙ skip (text_eq rid k) (contains ids k) (test k) (get g k)
                λ e. ap test (sym ((text_eq_iff rid k).0 e)) ∙ f)
      | inl f ↦ elim (Bool-cases (is_gone (A.delete rid g).0)) [
        | inr d ↦ let wrong : false ≡ true = rw (f, d) at h in absurd (cc wrong)
        | inl d ↦
            let g' = (A.delete rid g).1 in
            let rest : (delete_each T S A test ids g').0 ≡ true = rw (f, d) at h in
            rw f (
              rw d (
                delete_each-without test ids g' k rest
                ∙ rw (A.get-delete rid k g d) (
                    hit (text_eq rid k) (contains ids k) (test k) (get g k)
                      λ e. ap test (sym ((text_eq_iff rid k).0 e)) ∙ f)))
      ]
    ]

    with_ids-some :
        (kept ids : List Text) (r : Bool × Routes)
        → (with_ids T S A kept r).0 ≡ some ids
        → (kept ≡ ids) × (r.0 ≡ true) × ((with_ids T S A kept r).1 ≡ r.1)
    with_ids-some kept ids (true, g) h = (cc h, refl, refl)
    with_ids-some kept ids (false, g) h = absurd (cc h)

    prune-some :
        (code : Text) (p : Option (List Text) × Routes) (ids : List Text) (k : Text)
        → (prune T S A code p).0 ≡ some ids
        → (p.0 ≡ some ids)
          × (get (prune T S A code p).1 k
              ≡ without
                  (λ j.
                    contains (ids_of (list p.1)) j
                    && (owns_route_id (slug code) j && not (contains ids j)))
                  (get p.1)
                  k)
    prune-some code (none, g) ids k h = absurd (cc h)
    prune-some code (some kept, g) ids k h =
        let test = λ (rid : Text). owns_route_id (slug code) rid && not (contains kept rid) in
        let r = delete_each T S A test (ids_of (list g)) g in
        let (same, done, state) = with_ids-some kept ids r h in
        (
          ap some same,
          ap (λ (x : Routes). get x k) state
              ∙ delete_each-without test (ids_of (list g)) g k done
              ∙ ap
                  (λ (xs : List Text).
                    without
                      (λ j.
                        contains (ids_of (list g)) j
                        && (owns_route_id (slug code) j && not (contains xs j)))
                      (get g) k)
                  same,
        )

    -- Whether the list of the routes came.
    abbrev pub listed : Routes → Bool
    listed g = is_some (list g)

    unlisted :
        (o : Option (List Item)) (k : Text) → is_some o ≡ false → contains (ids_of o) k ≡ false
    unfolding contains
    unlisted none k h = refl
    unlisted (some items) k h = absurd (cc h)

    pub complete :
        (g : Routes) (s k : Text)
        → listed g ≡ true
        → owns_route_id s k ≡ true
        → is_some (get g k) ≡ true
        → contains (ids_of (list g)) k ≡ true
    complete g s k h owned there = elim (Option-cases (list g)) [
      | inl e ↦ let wrong : false ≡ true = rw e at h in absurd (cc wrong)
      | inr (items, e) ↦
          rw e (
            contains-route_ids items k (owns-nonempty s k owned)
              (A.list_complete k g items e there))
    ]

    -- Where `upsert_api_routes` returns, the ids that it returns are those of the endpoints, each
    -- of them has the route of the last endpoint with that id, every other route of the API is gone
    -- if the list of the routes came, and all other routes are what they were.
    pub upsert_api_routes-desired :
        (code path : Text) (es : List Endpoint) (g : Routes) (ids : List Text) (k : Text)
        → (upsert_api_routes T S A code path es g).0 ≡ some ids
        → (contains ids k ≡ is_some (desired code path es k))
          × (get (upsert_api_routes T S A code path es g).1 k
              ≡ or_else (desired code path es k) (
                  without
                    (λ j.
                      listed (put_each T S A code path [] es g).1 && owns_route_id (slug code) j)
                    (get g)
                    k))
    unfolding upsert_api_routes contains
    upsert_api_routes-desired code path es g ids k h =
        let put = put_each T S A code path [] es g in
        let (kept, pruned) = prune-some code put ids k h in
        let (added, member) = put_each-some code path [] es g ids k kept in
        let d = desired code path es k in
        (
          member ∙ or_false (is_some d),
          pruned
              ∙ rw (member, added)
                  (settle d (get g k) (contains (ids_of (list put.1)) k)
                    (owns_route_id (slug code) k) (listed put.1) (unlisted (list put.1) k)
                    λ a b c. complete put.1 (slug code) k a b (ap is_some added ∙ c)),
        )
