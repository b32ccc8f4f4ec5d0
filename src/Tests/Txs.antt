-- ===== src/Tests/Txs.antt =====
-- The commands of the token exchange service on the store of functions, and the service run on it.
use api_portal.Prelude.{
  Bool, Bool-cases, List, Option, Text, [], arith, codes, contains, false, has, if◌then◌else◌, inl,
  inr, is_ascii, is_some, none, not, refl, some, split_commas, strip_left, strip_right, suc, take,
  text_eq, text_eq_refl, true, ℕ, ◌&&◌, ◌||◌, ◌↔◌, ◌∷◌, ◌≡◌, ◌⊎◌,
}
use api_portal.Redis.Client.{invalidate_pat}
use api_portal.TokenExchange.CircuitBreaker.{is_circuit_open}
use api_portal.TokenExchange.Shared.{Shared}
use api_portal.TokenExchange.CallerAuth.{Addresses, Caller, passed, check_caller, client_ip}
use api_portal.TokenExchange.CallerAuth.Passing.{IsSender, IsAllowed, check_caller_iff}
use api_portal.TokenExchange.Keycloak.{Keycloak, Session}
use api_portal.TokenExchange.Cache.{
  TxsSettings, jwt, cache_key, lock_key, scope_hash, lead, get_or_exchange_jwt,
}
use api_portal.TokenExchange.Cache.Index.{is_indexed}
use api_portal.TokenExchange.Cache.Outcome.{IsLeft, lead-IsLeft, get_or_exchange_jwt-waits}
use api_portal.TokenExchange.Service.{ExchangeRequest, Answer, token_exchange, exchange_and_refresh}
use api_portal.TokenExchange.Service.Revocable.{token_exchange-revocable}
use api_portal.TokenExchange.Service.Guarded.{refreshes, token_exchange-guarded}
use api_portal.Tests.Fixtures.{Memory, memory, empty}

abbrev value : Memory → Text → Option Text
value s k = s.entry k []

abbrev set_value : Text → Text → Memory → Memory
set_value k v s = record s { entry = λ j f. if text_eq k j then some v else s.entry j f }

abbrev claim_value : Text → Text → ℕ → Memory → Bool × Memory
claim_value k v n s = if is_some (value s k) then (false, s) else (true, set_value k v s)

abbrev add_member : Text → Text → Memory → Memory
add_member k v s = record s { set_at = λ j. if text_eq k j then v ∷ s.set_at j else s.set_at j }

abbrev set_list : Text → List Text → Memory → Memory
set_list k xs s = record s { list_at = λ j. if text_eq k j then xs else s.list_at j }

pub claim_value-free :
    (k v : Text) (n : ℕ) (s : Memory) → (claim_value k v n s).0 ≡ not (is_some (value s k))
claim_value-free k v n s = elim (Bool-cases (is_some (value s k))) [
  | inl e ↦ rw e refl
  | inr e ↦ rw e refl
]

pub claim_value_taken :
    (k v : Text) (n : ℕ) (s : Memory) → is_some (value s k) ≡ true → (claim_value k v n s).1 ≡ s
claim_value_taken k v n s h = rw h refl

pub value-claim_value :
    (k v j : Text) (n : ℕ) (s : Memory)
    → is_some (value s k) ≡ false
    → value (claim_value k v n s).1 j ≡ (if text_eq k j then some v else value s j)
value-claim_value k v j n s h = rw h refl

pub members-claim_value :
    (k v j : Text) (n : ℕ) (s : Memory) → (claim_value k v n s).1.set_at j ≡ s.set_at j
members-claim_value k v j n s = elim (Bool-cases (is_some (value s k))) [
  | inl e ↦ rw e refl
  | inr e ↦ rw e refl
]

pub members-add_member :
    (k v j m : Text) (s : Memory)
    → contains ((add_member k v s).set_at j) m
      ≡ ((text_eq k j && text_eq v m) || contains (s.set_at j) m)
unfolding contains
members-add_member k v j m s = elim (Bool-cases (text_eq k j)) [
  | inl e ↦ rw e refl
  | inr e ↦ rw e refl
]

abbrev shared : Shared memory
shared = record {
  get = value;
  ttl = λ s k. if is_some (value s k) then some 10 else none;
  lrange = λ s. s.list_at;
  setex = λ k n v s. set_value k v s;
  set_nx_px = claim_value;
  sadd = add_member;
  lpush = λ k v s. set_list k (v ∷ s.list_at k) s;
  ltrim = λ k n s. set_list k (take (suc n) (s.list_at k)) s;
  get-setex = λ k v j n s h. refl;
  get-delete = λ k j s. refl;
  get-expire = λ k j n s h. refl;
  get-sadd = λ k v j s. refl;
  get-lpush = λ k v j s. refl;
  get-ltrim = λ k j n s. refl;
  set_nx_px-free = claim_value-free;
  set_nx_px_taken = claim_value_taken;
  get-set_nx_px = value-claim_value;
  smembers-setex = λ k v j n s h. refl;
  smembers-set_nx_px = λ k v j n s h. members-claim_value k v j n s;
  smembers-sadd = members-add_member;
  smembers-expire = λ k j n s h. refl;
  smembers-lpush = λ k v j s. refl;
  smembers-ltrim = λ k j n s. refl;
  lrange-lpush = λ k v s. rw (text_eq_refl k) refl;
  lrange-ltrim = λ k n s. rw (text_eq_refl k) refl;
  lrange-expire = λ k n s h. refl;
  lrange-setex = λ k v j n s h. refl;
  lrange-delete = λ k j s h. rw h refl;
}

-- A server that counts the requests and grants them all.
abbrev generous : Keycloak
generous = record {
  Server = ℕ;
  time = λ n. 1000;
  client_credentials =
      λ n. (some (record { access_token = codes "svc"; expires_in = none }), suc n);
  token_exchange = λ subject user scope n.
      (some (record { access_token = codes "jwt"; expires_in = none }), suc n);
  jti = λ t. some t;
}

abbrev anywhere : Addresses
anywhere = record { Address = Text; ip_address = λ s. some s; in_network = λ a c. some true }

abbrev txs : TxsSettings
txs = record {
  jwt_cache_ttl = 240;
  jwt_ttl = 300;
  node_id = codes "node";
  breaker = record {
    cb_window_size = 50;
    threshold_num = 1;
    threshold_den = 2;
    cb_open_duration = 30;
  };
  caller = record { internal_api_key = codes "key"; allowed_cidr = codes "10.0.0.0/8" };
}

abbrev gateway : Caller
gateway = record {
  internal_key = some (codes "key");
  forwarded_for = none;
  client_host = some (codes "10.0.0.1");
}

abbrev first_request : ExchangeRequest
first_request = record {
  token_id = codes "tok1";
  user_sub = codes "alice";
  scopes = codes "read" ∷ [];
}

abbrev fresh : Session generous
fresh = (record { token = none; expires_at = 0 }, 0)

abbrev half : ℕ × ℕ
half = (1, 2)

abbrev after_first : Answer memory shared generous anywhere txs (λ s. s) (λ s. s)
after_first =
    token_exchange memory shared generous anywhere txs (λ s. s) (λ s. s) half first_request gateway
      (empty, fresh)

token_exchange-revocable_example :
    (is_indexed memory shared (codes "tok1") (codes "read") after_first.1 ≡ true)
    × (value
          (invalidate_pat memory (codes "tok1") after_first.1)
          (cache_key (codes "tok1") (codes "read"))
        ≡ none)
unfolding has
token_exchange-revocable_example =
    token_exchange-revocable memory shared generous anywhere txs (λ s. s) (λ s. s) half
      (codes "tok1") (codes "read") first_request gateway empty fresh (omega arith) (omega arith)
      (omega arith) refl refl (λ s h. h) refl

-- The holder of the lock fills the cache.
abbrev filled : Memory → Memory
filled s = set_value (cache_key (codes "tok1") (codes "read")) (codes "jwt") s

abbrev from_filled : Answer memory shared generous anywhere txs (λ s. s) (λ s. s)
from_filled =
    token_exchange memory shared generous anywhere txs (λ s. s) (λ s. s) half first_request gateway
      (filled empty, fresh)

token_exchange-guarded_example :
    (from_filled.2 ≡ fresh)
    × (from_filled.3
        ≡ refreshes memory shared generous anywhere txs
            (λ s. s)
            (λ s. s)
            half
            first_request
            gateway
            (filled empty))
    × ((refreshes memory shared generous anywhere txs
            (λ s. s)
            (λ s. s)
            half
            first_request
            gateway
            (filled empty)
          ≡ true)
        ⊎ ((exchange_and_refresh memory shared generous anywhere txs
              (λ s. s)
              (λ s. s)
              half
              first_request
              gateway
              (filled empty, fresh)).1.1
            ≡ fresh))
unfolding check_caller is_circuit_open scope_hash take
token_exchange-guarded_example =
    token_exchange-guarded memory shared generous anywhere txs (λ s. s) (λ s. s) half first_request
      gateway (filled empty) fresh refl

abbrev held : Memory
held = set_value (lock_key (codes "tok1") (codes "read")) (codes "node") empty

lead-IsLeft_example :
    IsLeft memory shared generous txs
      (λ s. s)
      (λ s. s)
      (codes "tok1")
      (scope_hash (λ s. s) (codes "read" ∷ []))
      held
      (
        (lead memory shared generous txs
            (λ s. s)
            (λ s. s)
            (codes "tok1")
            (codes "alice")
            (codes "read" ∷ [])
            (held, fresh)).0,
        (lead memory shared generous txs
            (λ s. s)
            (λ s. s)
            (codes "tok1")
            (codes "alice")
            (codes "read" ∷ [])
            (held, fresh)).1.0,
      )
unfolding text_eq scope_hash take
lead-IsLeft_example =
    lead-IsLeft memory shared generous txs (λ s. s) (λ s. s) (codes "tok1") (codes "alice")
      (codes "read" ∷ []) held fresh (omega arith) (omega arith) refl

get_or_exchange_jwt-waits_example :
    (jwt_str : Text) × ((get_or_exchange_jwt memory shared generous txs
        (λ s. s)
        filled
        half
        (codes "tok1")
        (codes "alice")
        (codes "read" ∷ [])
        (held, fresh)).0
      ≡ jwt jwt_str true)
unfolding text_eq scope_hash take
get_or_exchange_jwt-waits_example =
    get_or_exchange_jwt-waits memory shared generous txs (λ s. s) filled half 0 (codes "tok1")
      (codes "alice") (codes "jwt") (codes "read" ∷ []) held fresh (omega arith) refl refl refl

abbrev proxied : Caller
proxied = record {
  internal_key = some (codes "key");
  forwarded_for = some (codes " 10.0.0.7 , 192.168.0.1");
  client_host = some (codes "10.0.0.1");
}

check_caller_iff_example : (check_caller anywhere txs.caller proxied ≡ passed) ↔ (
    (ip : Text) × (proxied.internal_key ≡ some txs.caller.internal_api_key)
    × IsSender proxied ip
    × IsAllowed anywhere txs.caller.allowed_cidr ip)
unfolding is_ascii
check_caller_iff_example = check_caller_iff anywhere txs.caller proxied refl refl

sender_test : client_ip proxied ≡ codes "10.0.0.7"
unfolding client_ip split_commas strip_left strip_right
sender_test = refl
