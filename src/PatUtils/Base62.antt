-- ===== src/PatUtils/Base62.antt =====
-- `generate_token_id` of services/portal-backend/pat_utils.py.
use mathlib.Core.List.{reverse, reverse-cons, reverse-reverse}
use native.Mathlib.Nat.{pow-suc}
use api_portal.Prelude.{
  Bool, List, Text, [], all, all-append, ap, arith, if◌then◌else◌, leb, length, length-append, ltb,
  refl, suc, true, zero, ℕ, ◌%◌, ◌&&◌, ◌*◌, ◌+◌, ◌-◌, ◌/◌, ◌<◌, ◌^◌, ◌||◌, ◌∙◌, ◌∷◌, ◌≡◌,
}

-- BASE62[d] for d < 62: the digits, the upper case letters, the lower case letters.
unfoldable pub base62 : ℕ → ℕ
base62 d = if ltb d 10 then b'0' + d else if ltb d 36 then b'A' + (d - 10) else b'a' + (d - 36)

-- One of `[A-Za-z0-9]`.
unfoldable pub is_alnum : ℕ → Bool
is_alnum c = leb b'0' c && leb c b'9' || leb b'A' c && leb c b'Z' || leb b'a' c && leb c b'z'

-- `int.from_bytes(bytes, 'big')`, from the bytes read so far.
pub from_bytes : ℕ → List ℕ → ℕ
from_bytes acc [] = acc
from_bytes acc (b ∷ bs) = from_bytes (acc * 256 + b) bs

-- The rounds of the loop: the characters that are appended, in order.
pub append_digits : ℕ → ℕ → Text
append_digits zero value = []
append_digits (suc rounds) value = base62 (value % 62) ∷ append_digits rounds (value / 62)

unfoldable pub generate_token_id : List ℕ → Text
unfolding from_bytes append_digits base62
generate_token_id random = reverse (append_digits 12 (from_bytes 0 random))

pub base62-is_alnum : (d : ℕ) → d < 62 → is_alnum (base62 d) ≡ true
unfolding base62 is_alnum
base62-is_alnum d h = ground arith

-- The digit that a character of the alphabet stands for.
pub digit_of : ℕ → ℕ
digit_of c = if ltb c b'A' then c - b'0' else if ltb c b'a' then c - b'A' + 10 else c - b'a' + 36

digit_of-base62 : (d : ℕ) → d < 62 → digit_of (base62 d) ≡ d
unfolding digit_of base62
digit_of-base62 d h = ground arith

-- The number that a text in base 62 stands for, least significant digit first.
pub value_of : Text → ℕ
value_of [] = 0
value_of (c ∷ cs) = digit_of c + 62 * value_of cs

length-append_digits : (n v : ℕ) → length (append_digits n v) ≡ n
unfolding append_digits
length-append_digits zero v = refl
length-append_digits (suc n) v = omega (arith, length-append_digits n (v / 62))

value_of-append_digits :
    (n v : ℕ)
    → (q : ℕ) × (v ≡ value_of (append_digits n v) + 62 ^ n * q)
      × (value_of (append_digits n v) < 62 ^ n)
unfolding append_digits value_of
value_of-append_digits zero v = (v, omega arith, omega arith)
value_of-append_digits (suc n) v =
    let (q, e, lt) = value_of-append_digits n (v / 62) in
    let d = digit_of-base62 (v % 62) (omega arith) in
    (
      q,
      rw (pow-suc 62 n) (omega (arith, d, ap (λ (t : ℕ). 62 * t) e)),
      rw (pow-suc 62 n) (omega (arith, d)),
    )

all_alnum-append_digits : (n v : ℕ) → all is_alnum (append_digits n v) ≡ true
unfolding append_digits
all_alnum-append_digits zero v = refl
all_alnum-append_digits (suc n) v =
    rw (base62-is_alnum (v % 62) (omega arith)) (all_alnum-append_digits n (v / 62))

length-reverse : (s : Text) → length (reverse s) ≡ length s
length-reverse [] = refl
length-reverse (c ∷ s) =
    omega
      (arith, ap length (reverse-cons c s), length-append (reverse s) (c ∷ []), length-reverse s)

all-reverse : (p : ℕ → Bool) (s : Text) → all p s ≡ true → all p (reverse s) ≡ true
all-reverse p [] h = refl
all-reverse p (c ∷ s) h =
    rw (reverse-cons c s)
      (all-append p (reverse s) (c ∷ []) (all-reverse p s (ground arith)) (ground arith))

-- A generated token id has twelve characters, all of them letters or digits, and read back as a
-- number in base 62 it is the random number up to a multiple of 62 ^ 12.
pub generate_token_id_lem :
    (random : List ℕ)
    → (length (generate_token_id random) ≡ 12)
      × (all is_alnum (generate_token_id random) ≡ true)
      × (q : ℕ) × (from_bytes 0 random
          ≡ value_of (reverse (generate_token_id random)) + 62 ^ 12 * q)
unfolding generate_token_id
generate_token_id_lem random =
    let v = from_bytes 0 random in
    let (q, e, lt) = value_of-append_digits 12 v in
    (
      length-reverse (append_digits 12 v) ∙ length-append_digits 12 v,
      all-reverse is_alnum (append_digits 12 v) (all_alnum-append_digits 12 v),
      q,
      rw (reverse-reverse (append_digits 12 v)) e,
    )
