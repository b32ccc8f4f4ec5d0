-- ===== src/Tests/Breaker.antt =====
-- A store of functions for the circuit breaker, and an example.
use api_portal.Prelude.{
  List, Option, Text, [], arith, codes, if◌then◌else◌, none, refl, some, suc, take, text_eq,
  text_eq_refl, ◌∷◌,
}
use api_portal.TokenExchange.CircuitBreaker.{
  Breaker, BreakerSettings, record_success, record_failure,
}
use api_portal.TokenExchange.CircuitBreaker.Laws.{Records, record_lem}

record Values : Type 0 where
  value : Text → Option Text
  list : Text → List Text

abbrev set_value : Text → Option Text → Values → Values
set_value k v s = record s { value = λ j. if text_eq k j then v else s.value j }

abbrev set_list : Text → List Text → Values → Values
set_list k xs s = record s { list = λ j. if text_eq k j then xs else s.list j }

abbrev values : Breaker
values = record {
  Store = Values;
  get = λ s. s.value;
  lrange = λ s. s.list;
  lpush = λ k v s. set_list k (v ∷ s.list k) s;
  ltrim = λ k n s. set_list k (take (suc n) (s.list k)) s;
  expire = λ k n s. s;
  setex = λ k n v s. set_value k (some v) s;
  delete = λ k s. set_list k [] (set_value k none s);
  get-lpush = λ k v j s. refl;
  get-ltrim = λ k j n s. refl;
  get-expire = λ k j n s h. refl;
  get-setex = λ k v n s h. rw (text_eq_refl k) refl;
  get-delete = λ k s. rw (text_eq_refl k) refl;
  lrange-lpush = λ k v s. rw (text_eq_refl k) refl;
  lrange-ltrim = λ k n s. rw (text_eq_refl k) refl;
  lrange-expire = λ k n s h. refl;
  lrange-setex = λ k v j n s h. refl;
  lrange-delete = λ k j s h. rw h refl;
}

-- The defaults of services/token-exchange-service/config.py.
abbrev defaults : BreakerSettings
defaults = record {
  cb_window_size = 50;
  threshold_num = 1;
  threshold_den = 2;
  cb_open_duration = 30;
}

abbrev failed : Text
failed = codes "FAIL"

-- Nine failures.
abbrev failing : Values
failing = record {
  value = λ k. none;
  list = λ k. failed ∷ failed ∷ failed ∷ failed ∷ failed ∷ failed ∷ failed ∷ failed ∷ failed ∷ [];
}

record_example :
    Records values defaults (codes "OK") (record_success values defaults) failing
    × Records values defaults (codes "FAIL") (record_failure values defaults) failing
record_example = record_lem values defaults failing (omega arith) (omega arith)
