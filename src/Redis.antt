-- ===== src/Redis.antt =====
-- The Redis server and its client library as the program uses them: the store and its commands are
-- parameters, with the documented effect of each command on what the other commands read. A key
-- holds one type of value throughout, as the key schemes of the program see to.
pub mod Client
use api_portal.Prelude.{
  Bool, List, Option, Text, [], false, if◌then◌else◌, lookup, none, not, some, text_eq, true, ℕ,
  ◌<◌, ◌||◌, ◌≡◌,
}

abbrev pub or_else {ℓ} : {A : Type ℓ} → Option A → Option A → Option A
or_else none old = old
or_else (some a) old = some a

pub record Redis : Type 1 where
  pub Store : Type 0
  -- EXISTS, HGET, SMEMBERS.
  pub has_key : Store → Text → Bool
  pub hget : Store → Text → Text → Option Text
  pub smembers : Store → Text → List Text
  -- DEL of one key, HSET of a mapping with at least one field, EXPIRE.
  pub delete : Text → Store → Store
  pub hset : Text → List (Text × Text) → Store → Store
  pub expire : Text → ℕ → Store → Store
  pub has_key-delete :
      (k j : Text) (s : Store)
      → has_key (delete k s) j ≡ (if text_eq k j then false else has_key s j)
  pub hget-delete :
      (k j f : Text) (s : Store)
      → hget (delete k s) j f ≡ (if text_eq k j then none else hget s j f)
  pub smembers-delete :
      (k j : Text) (s : Store)
      → smembers (delete k s) j ≡ (if text_eq k j then [] else smembers s j)
  pub has_key-hset :
      (k j : Text) (m : List (Text × Text)) (s : Store)
      → has_key (hset k m s) j ≡ (text_eq k j || has_key s j)
  pub hget-hset :
      (k j f : Text) (m : List (Text × Text)) (s : Store)
      → hget (hset k m s) j f
        ≡ (if text_eq k j then or_else (lookup f m) (hget s j f) else hget s j f)
  -- SET with NX and EX: whether it was set, and the store.
  pub set_nx_ex : Text → Text → ℕ → Store → Bool × Store
  pub set_nx_ex-set : (k v : Text) (n : ℕ) (s : Store) → (set_nx_ex k v n s).0 ≡ not (has_key s k)
  pub set_nx_ex_taken :
      (k v : Text) (n : ℕ) (s : Store) → has_key s k ≡ true → (set_nx_ex k v n s).1 ≡ s
  pub has_key-set_nx_ex :
      (k v j : Text) (n : ℕ) (s : Store)
      → has_key s k ≡ false
      → has_key (set_nx_ex k v n s).1 j ≡ (text_eq k j || has_key s j)
  pub hget-set_nx_ex :
      (k v j f : Text) (n : ℕ) (s : Store)
      → has_key s k ≡ false
      → text_eq k j ≡ false
      → hget (set_nx_ex k v n s).1 j f ≡ hget s j f
  -- A positive time to live changes nothing now.
  pub has_key-expire :
      (k j : Text) (seconds : ℕ) (s : Store)
      → 0 < seconds
      → has_key (expire k seconds s) j ≡ has_key s j
  pub hget-expire :
      (k j f : Text) (seconds : ℕ) (s : Store)
      → 0 < seconds
      → hget (expire k seconds s) j f ≡ hget s j f

-- Functions of Python's standard library that are only passed on: digests, JSON, `str` of a number,
-- `isoformat` of a time and `uuid.UUID`, as the text of the identifier, `none` where it raises; and
-- whether PostgreSQL takes a text in a cast to `jsonb`.
pub record Host : Type 0 where
  pub sha256_hex : Text → Text
  pub hmac_sha256_hex : Text → Text → Text
  pub dumps : List Text → Text
  pub str : ℕ → Text
  pub isoformat : ℕ → Text
  pub uuid : Text → Option Text
  pub is_jsonb : Text → Bool
