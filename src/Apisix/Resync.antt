-- ===== src/Apisix/Resync.antt =====
-- `resync_gateway_routes` of services/portal-backend/main.py. What happens to the gateway while it
-- sleeps is a parameter. The rows of the database are read before the loop.
use api_portal.Prelude.{
  Bool, List, Option-cases, Text, [], ap, arith, false, if◌then◌else◌, inl, inr, is_some, keep,
  refl, some, suc, sym, text_eq, true, zero, ℕ, ◌<◌, ◌∙◌, ◌∷◌, ◌≡◌,
}
use api_portal.Redis.{or_else}
use api_portal.Config.{Settings}
use api_portal.Database.{Db, Api, Endpoint, is_published}
use api_portal.Apisix.Routes.{Tools}
use api_portal.Apisix.Admin.{Admin}
use api_portal.Apisix.Reconcile.{upsert_api_routes}
use api_portal.Apisix.Reconcile.Refinement.{or_else-again, desired, upsert_api_routes-desired}

module _ (T : Tools) (S : Settings) (A : Admin) (sleep : A.Routes → A.Routes) where
  open A use {Routes, get}

  -- No sleep where no attempt is left.
  abbrev slept : ℕ → Routes → Routes
  slept zero g = g
  slept (suc n) g = sleep g

  -- The attempts that are left.
  unfoldable pub attempts : ℕ → Text → Text → List Endpoint → Routes → Bool × Routes
  unfolding upsert_api_routes
  attempts zero code path es g = (false, g)
  attempts (suc n) code path es g =
      let (ids, g') = upsert_api_routes T S A code path es g in
      let rest = attempts n code path es (slept n g') in if is_some ids then (true, g') else rest

  abbrev endpoints_of : Db → Text → List Endpoint
  endpoints_of db api_id = keep (λ (e : Endpoint). text_eq e.api_id api_id) db.endpoints

  unfoldable pub resync_rows : Db → List Api → Routes → Routes
  unfolding attempts
  resync_rows db [] g = g
  resync_rows db (row ∷ rows) g =
      resync_rows db rows
        (attempts 10 row.api_code row.public_path (endpoints_of db row.api_id) g).1

  unfoldable pub resync_gateway_routes : Db → Routes → Routes
  unfolding resync_rows
  resync_gateway_routes db g =
      resync_rows db (keep (λ (row : Api). is_published row.status) db.apis) g

  -- The gateway before an attempt, if those before it fail.
  unfoldable pub before : ℕ → Text → Text → List Endpoint → Routes → Routes
  before zero code path es g = g
  before (suc i) code path es g =
      before i code path es (sleep (upsert_api_routes T S A code path es g).1)

  -- The outcome of the loop that the theorem promises.
  abbrev IsRegistered : Text → Text → List Endpoint → Text → Bool × Routes → Type 0
  IsRegistered code path es k r =
      (r.0 ≡ true) × (get r.1 k ≡ or_else (desired T S code path es k) (get r.1 k))

  first-IsRegistered :
      (n : ℕ) (code path : Text) (es : List Endpoint) (g : Routes) (k : Text) (ids : List Text)
      → (upsert_api_routes T S A code path es g).0 ≡ some ids
      → IsRegistered code path es k (attempts (suc n) code path es g)
  unfolding attempts
  first-IsRegistered n code path es g k ids e =
      let (_, routes) = upsert_api_routes-desired T S A code path es g ids k e in
      rw e (
        refl,
        routes
            ∙ or_else-again (desired T S code path es k) _
            ∙ ap (or_else (desired T S code path es k)) (sym routes),
      )

  -- Where one of the attempts would succeed on the gateway as it then is, the loop ends with a
  -- success, and the gateway has the routes of the API's endpoints.
  pub attempts-register :
      (n i : ℕ) (code path : Text) (es : List Endpoint) (g : Routes) (k : Text)
      → i < n
      → is_some (upsert_api_routes T S A code path es (before i code path es g)).0 ≡ true
      → ((attempts n code path es g).0 ≡ true)
        × (get (attempts n code path es g).1 k
            ≡ or_else (desired T S code path es k) (get (attempts n code path es g).1 k))
  unfolding attempts before
  attempts-register zero i code path es g k lt h = absurd (omega (arith, lt))
  attempts-register (suc n) zero code path es g k lt h =
      elim (Option-cases (upsert_api_routes T S A code path es g).0) [
        | inr (ids, e) ↦ first-IsRegistered n code path es g k ids e
        | inl e ↦ let wrong : false ≡ true = rw e at h in absurd (cc wrong)
      ]
  attempts-register (suc zero) (suc i) code path es g k lt h = absurd (omega (arith, lt))
  attempts-register (suc (suc n)) (suc i) code path es g k lt h =
      elim (Option-cases (upsert_api_routes T S A code path es g).0) [
        | inr (ids, e) ↦ first-IsRegistered (suc n) code path es g k ids e
        | inl e ↦ rw e (
            attempts-register (suc n) i code path es
              (sleep (upsert_api_routes T S A code path es g).1) k (omega (arith, lt)) h)
      ]
