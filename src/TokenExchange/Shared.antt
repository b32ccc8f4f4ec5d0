-- ===== src/TokenExchange/Shared.antt =====
-- The Redis commands on strings, sets and lists that services/token-exchange-service sends, on the
-- store that it shares with the portal: parameters, with the documented effect of each command on
-- what GET, SMEMBERS and LRANGE read. The time to live of a key is positive, and nothing expires
-- between two commands.
use api_portal.Prelude.{
  Bool, List, Option, Text, contains, false, if◌then◌else◌, is_some, none, not, refl, some, suc,
  take, text_eq, text_eq_refl, true, ℕ, ◌&&◌, ◌<◌, ◌||◌, ◌∙◌, ◌∷◌, ◌≡◌,
}
use api_portal.Redis.{Redis}
use api_portal.TokenExchange.CircuitBreaker.{Breaker}

pub record Shared (R : Redis) : Type 0 where
  pub get : R.Store → Text → Option Text
  -- TTL, `none` where it is negative.
  pub ttl : R.Store → Text → Option ℕ
  pub lrange : R.Store → Text → List Text
  pub setex : Text → ℕ → Text → R.Store → R.Store
  -- SET with NX and PX.
  pub set_nx_px : Text → Text → ℕ → R.Store → Bool × R.Store
  pub sadd : Text → Text → R.Store → R.Store
  pub lpush : Text → Text → R.Store → R.Store
  pub ltrim : Text → ℕ → R.Store → R.Store
  pub get-setex :
      (k v j : Text) (n : ℕ) (s : R.Store)
      → 0 < n
      → get (setex k n v s) j ≡ (if text_eq k j then some v else get s j)
  pub get-delete :
      (k j : Text) (s : R.Store) → get (R.delete k s) j ≡ (if text_eq k j then none else get s j)
  pub get-expire : (k j : Text) (n : ℕ) (s : R.Store) → 0 < n → get (R.expire k n s) j ≡ get s j
  pub get-sadd : (k v j : Text) (s : R.Store) → get (sadd k v s) j ≡ get s j
  pub get-lpush : (k v j : Text) (s : R.Store) → get (lpush k v s) j ≡ get s j
  pub get-ltrim : (k j : Text) (n : ℕ) (s : R.Store) → get (ltrim k n s) j ≡ get s j
  pub set_nx_px-free :
      (k v : Text) (n : ℕ) (s : R.Store) → (set_nx_px k v n s).0 ≡ not (is_some (get s k))
  pub set_nx_px_taken :
      (k v : Text) (n : ℕ) (s : R.Store) → is_some (get s k) ≡ true → (set_nx_px k v n s).1 ≡ s
  pub get-set_nx_px :
      (k v j : Text) (n : ℕ) (s : R.Store)
      → is_some (get s k) ≡ false
      → get (set_nx_px k v n s).1 j ≡ (if text_eq k j then some v else get s j)
  pub smembers-setex :
      (k v j : Text) (n : ℕ) (s : R.Store)
      → text_eq k j ≡ false
      → R.smembers (setex k n v s) j ≡ R.smembers s j
  pub smembers-set_nx_px :
      (k v j : Text) (n : ℕ) (s : R.Store)
      → text_eq k j ≡ false
      → R.smembers (set_nx_px k v n s).1 j ≡ R.smembers s j
  pub smembers-sadd :
      (k v j m : Text) (s : R.Store)
      → contains (R.smembers (sadd k v s) j) m
        ≡ ((text_eq k j && text_eq v m) || contains (R.smembers s j) m)
  pub smembers-expire :
      (k j : Text) (n : ℕ) (s : R.Store) → 0 < n → R.smembers (R.expire k n s) j ≡ R.smembers s j
  pub smembers-lpush : (k v j : Text) (s : R.Store) → R.smembers (lpush k v s) j ≡ R.smembers s j
  pub smembers-ltrim :
      (k j : Text) (n : ℕ) (s : R.Store) → R.smembers (ltrim k n s) j ≡ R.smembers s j
  pub lrange-lpush : (k v : Text) (s : R.Store) → lrange (lpush k v s) k ≡ v ∷ lrange s k
  pub lrange-ltrim :
      (k : Text) (n : ℕ) (s : R.Store) → lrange (ltrim k n s) k ≡ take (suc n) (lrange s k)
  pub lrange-expire :
      (k : Text) (n : ℕ) (s : R.Store) → 0 < n → lrange (R.expire k n s) k ≡ lrange s k
  pub lrange-setex :
      (k v j : Text) (n : ℕ) (s : R.Store)
      → text_eq k j ≡ false
      → lrange (setex k n v s) j ≡ lrange s j
  pub lrange-delete :
      (k j : Text) (s : R.Store) → text_eq k j ≡ false → lrange (R.delete k s) j ≡ lrange s j

module _ (R : Redis) (X : Shared R) where
  pub get-setex_self :
      (k v : Text) (n : ℕ) (s : R.Store) → 0 < n → X.get (X.setex k n v s) k ≡ some v
  get-setex_self k v n s h = X.get-setex k v k n s h ∙ rw (text_eq_refl k) refl

  pub get-delete_self : (k : Text) (s : R.Store) → X.get (R.delete k s) k ≡ none
  get-delete_self k s = X.get-delete k k s ∙ rw (text_eq_refl k) refl

  -- The commands of the circuit breaker.
  abbrev pub breaker_of : Breaker
  breaker_of = record {
    Store = R.Store;
    get = X.get;
    lrange = X.lrange;
    lpush = X.lpush;
    ltrim = X.ltrim;
    expire = R.expire;
    setex = X.setex;
    delete = R.delete;
    get-lpush = X.get-lpush;
    get-ltrim = X.get-ltrim;
    get-expire = X.get-expire;
    get-setex = get-setex_self;
    get-delete = get-delete_self;
    lrange-lpush = X.lrange-lpush;
    lrange-ltrim = X.lrange-ltrim;
    lrange-expire = X.lrange-expire;
    lrange-setex = X.lrange-setex;
    lrange-delete = X.lrange-delete;
  }
