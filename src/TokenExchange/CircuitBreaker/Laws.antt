-- ===== src/TokenExchange/CircuitBreaker/Laws.antt =====
-- When the circuit breaker opens and closes.
use api_portal.Prelude.{
  Bool, Bool-cases, List, Text, arith, codes, if◌then◌else◌, inl, inr, length, length-take, ltb,
  refl, suc, take, text_eq, ◌-◌, ◌<◌, ◌∙◌, ◌∷◌, ◌≡◌, ◌≤◌,
}
use api_portal.TokenExchange.CircuitBreaker.{
  Breaker, BreakerSettings, cb_key, cb_window_key, is_open_state, too_many, is_circuit_open,
  evaluate_window, pushed, record_success, record_failure,
}

module _ (B : Breaker) (S : BreakerSettings) where
  open B use {Store, get, lrange, setex, delete}

  -- The window after one more result.
  abbrev pub window_after : Text → Store → List Text
  window_after result s = take (suc (S.cb_window_size - 1)) (result ∷ lrange s cb_window_key)

  lrange-pushed :
      (result : Text) (s : Store)
      → lrange (pushed B S result s) cb_window_key ≡ window_after result s
  lrange-pushed result s =
      rw
        (
          B.lrange-expire cb_window_key 300 _ (omega arith),
          B.lrange-ltrim cb_window_key (S.cb_window_size - 1) _,
          B.lrange-lpush cb_window_key result s,
        )
        refl

  get-pushed : (result : Text) (s : Store) → get (pushed B S result s) cb_key ≡ get s cb_key
  get-pushed result s =
      rw
        (
          B.get-expire cb_window_key cb_key 300 _ (omega arith),
          B.get-ltrim cb_window_key cb_key (S.cb_window_size - 1) _,
          B.get-lpush cb_window_key result cb_key s,
        )
        refl

  -- The state of the circuit by the window.
  abbrev pub opens : List Text → Bool → Bool
  opens window before = if ltb (length window) 10 then before else too_many S window

  evaluate_window_lem :
      (s : Store)
      → 0 < S.cb_open_duration
      → (is_circuit_open B S (evaluate_window B S s)
          ≡ opens (lrange s cb_window_key) (is_circuit_open B S s))
        × (lrange (evaluate_window B S s) cb_window_key ≡ lrange s cb_window_key)
  unfolding evaluate_window is_circuit_open is_open_state text_eq
  evaluate_window_lem s h =
      let window = lrange s cb_window_key in
      elim (Bool-cases (ltb (length window) 10)) [
        | inl few ↦ rw few (refl, refl)
        | inr many ↦ rw many (elim (Bool-cases (too_many S window)) [
          | inl bad ↦
              rw (bad, B.get-setex cb_key (codes "OPEN") S.cb_open_duration s h)
                (refl, B.lrange-setex cb_key (codes "OPEN") cb_window_key S.cb_open_duration s refl)
          | inr fine ↦
              rw (fine, B.get-delete cb_key s) (refl, B.lrange-delete cb_key cb_window_key s refl)
        ])
      ]

  recorded :
      (result : Text) (s : Store)
      → 0 < S.cb_open_duration
      → 0 < S.cb_window_size
      → let after = evaluate_window B S (pushed B S result s) in
        (is_circuit_open B S after ≡ opens (window_after result s) (is_circuit_open B S s))
        × (lrange after cb_window_key ≡ window_after result s)
        × (length (window_after result s) ≤ S.cb_window_size)
  unfolding is_circuit_open
  recorded result s h k =
      let (state, window) = evaluate_window_lem (pushed B S result s) h in
      (
        state ∙ rw (lrange-pushed result s, get-pushed result s) refl,
        window ∙ lrange-pushed result s,
        omega (arith, length-take (suc (S.cb_window_size - 1)) (result ∷ lrange s cb_window_key)),
      )

  -- What a recorded result leaves: the window with the result in front, cut to its size, and a
  -- circuit that is open exactly where the window has ten results or more and too many failures, or
  -- has fewer results and the circuit was open before.
  abbrev pub Records : Text → (Store → Store) → Store → Type 0
  Records result step s =
      (is_circuit_open B S (step s) ≡ opens (window_after result s) (is_circuit_open B S s))
      × (lrange (step s) cb_window_key ≡ window_after result s)
      × (length (window_after result s) ≤ S.cb_window_size)

  -- A success and a failure are recorded: the window gets the result in front and never exceeds its
  -- size; with ten results or more the circuit is open afterwards exactly where the failures reach
  -- the threshold, and with fewer it stays as it was.
  pub record_lem :
      (s : Store)
      → 0 < S.cb_open_duration
      → 0 < S.cb_window_size
      → Records (codes "OK") (record_success B S) s × Records (codes "FAIL") (record_failure B S) s
  unfolding record_success record_failure
  record_lem s h k = (recorded (codes "OK") s h k, recorded (codes "FAIL") s h k)
