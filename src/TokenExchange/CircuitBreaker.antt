-- ===== src/TokenExchange/CircuitBreaker.antt =====
-- services/token-exchange-service/circuit_breaker.py. The Redis commands on values and lists are a
-- parameter with their documented effect. The threshold is a fraction, compared without rounding.
-- The size of the window is at least 1.
pub mod Laws
use api_portal.Prelude.{
  Bool, List, Option, Text, codes, count, false, if◌then◌else◌, leb, length, ltb, none, some, suc,
  take, text_eq, ℕ, ◌*◌, ◌-◌, ◌<◌, ◌||◌, ◌∷◌, ◌≡◌,
}

pub record Breaker : Type 1 where
  pub Store : Type 0
  -- GET, and LRANGE of a whole list.
  pub get : Store → Text → Option Text
  pub lrange : Store → Text → List Text
  -- LPUSH, LTRIM from 0 to an index, EXPIRE, SETEX, DEL.
  pub lpush : Text → Text → Store → Store
  pub ltrim : Text → ℕ → Store → Store
  pub expire : Text → ℕ → Store → Store
  pub setex : Text → ℕ → Text → Store → Store
  pub delete : Text → Store → Store
  pub get-lpush : (k v j : Text) (s : Store) → get (lpush k v s) j ≡ get s j
  pub get-ltrim : (k j : Text) (n : ℕ) (s : Store) → get (ltrim k n s) j ≡ get s j
  pub get-expire : (k j : Text) (n : ℕ) (s : Store) → 0 < n → get (expire k n s) j ≡ get s j
  pub get-setex : (k v : Text) (n : ℕ) (s : Store) → 0 < n → get (setex k n v s) k ≡ some v
  pub get-delete : (k : Text) (s : Store) → get (delete k s) k ≡ none
  pub lrange-lpush : (k v : Text) (s : Store) → lrange (lpush k v s) k ≡ v ∷ lrange s k
  pub lrange-ltrim :
      (k : Text) (n : ℕ) (s : Store) → lrange (ltrim k n s) k ≡ take (suc n) (lrange s k)
  pub lrange-expire : (k : Text) (n : ℕ) (s : Store) → 0 < n → lrange (expire k n s) k ≡ lrange s k
  pub lrange-setex :
      (k v j : Text) (n : ℕ) (s : Store)
      → text_eq k j ≡ false
      → lrange (setex k n v s) j ≡ lrange s j
  pub lrange-delete :
      (k j : Text) (s : Store) → text_eq k j ≡ false → lrange (delete k s) j ≡ lrange s j

-- The settings: the length of the window, the threshold, and the seconds that the circuit is open.
pub record BreakerSettings : Type 0 where
  pub cb_window_size : ℕ
  pub threshold_num : ℕ
  pub threshold_den : ℕ
  pub cb_open_duration : ℕ

abbrev pub cb_key : Text
cb_key = codes "cdp:cb:txs"

abbrev pub cb_window_key : Text
cb_window_key = codes "cdp:cb:txs:window"

-- `state in ("OPEN", "HALF_OPEN")`
unfoldable pub is_open_state : Option Text → Bool
is_open_state none = false
is_open_state (some state) = text_eq state (codes "OPEN") || text_eq state (codes "HALF_OPEN")

abbrev pub fail_count : List Text → ℕ
fail_count = count λ x. text_eq x (codes "FAIL")

-- `fail_count / len(window) >= threshold`
abbrev pub too_many : BreakerSettings → List Text → Bool
too_many S window = leb (S.threshold_num * length window) (fail_count window * S.threshold_den)

module _ (B : Breaker) (S : BreakerSettings) where
  open B use {Store, get, lrange, lpush, ltrim, expire, setex, delete}

  unfoldable pub is_circuit_open : Store → Bool
  unfolding is_open_state
  is_circuit_open s = is_open_state (get s cb_key)

  unfoldable pub evaluate_window : Store → Store
  evaluate_window s =
      let window = lrange s cb_window_key in
      if ltb (length window) 10
      then s
      else if too_many S window
      then setex cb_key S.cb_open_duration (codes "OPEN") s
      else delete cb_key s

  -- LPUSH, LTRIM to the size of the window, EXPIRE.
  abbrev pub pushed : Text → Store → Store
  pushed result s =
      expire cb_window_key 300
        (ltrim cb_window_key (S.cb_window_size - 1) (lpush cb_window_key result s))

  unfoldable pub record_success : Store → Store
  unfolding evaluate_window
  record_success s = evaluate_window (pushed (codes "OK") s)

  unfoldable pub record_failure : Store → Store
  unfolding evaluate_window
  record_failure s = evaluate_window (pushed (codes "FAIL") s)
