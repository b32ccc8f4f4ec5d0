-- ===== src/PatUtils/Secret.antt =====
-- `generate_secret` of services/portal-backend/pat_utils.py: base64url with the padding cut off.
use api_portal.Prelude.{
  Bool, List, Text, [], all, arith, false, if◌then◌else◌, length, ltb, refl, rstrip, true, ℕ, ◌%◌,
  ◌*◌, ◌+◌, ◌-◌, ◌/◌, ◌<◌, ◌==◌, ◌||◌, ◌∷◌, ◌≡◌,
}
use api_portal.PatUtils.Base62.{is_alnum}

-- The alphabet of `base64.urlsafe_b64encode`, for d < 64.
unfoldable pub base64 : ℕ → ℕ
base64 d =
    if ltb d 26
    then b'A' + d
    else if ltb d 52
    then b'a' + (d - 26)
    else if ltb d 62
    then b'0' + (d - 52)
    else if d == 62
    then b'-'
    else b'_'

-- `base64.urlsafe_b64encode(raw)`, three bytes at a time.
pub urlsafe_b64encode : List ℕ → Text
urlsafe_b64encode [] = []
urlsafe_b64encode (a ∷ []) = base64 (a / 4) ∷ base64 (a % 4 * 16) ∷ b'=' ∷ b'=' ∷ []
urlsafe_b64encode (a ∷ b ∷ []) =
    base64 (a / 4) ∷ base64 (a % 4 * 16 + b / 16) ∷ base64 (b % 16 * 4) ∷ b'=' ∷ []
urlsafe_b64encode (a ∷ b ∷ c ∷ raw) =
    base64 (a / 4)
    ∷ base64 (a % 4 * 16 + b / 16)
    ∷ base64 (b % 16 * 4 + c / 64)
    ∷ base64 (c % 64)
    ∷ urlsafe_b64encode raw

unfoldable pub generate_secret : List ℕ → Text
unfolding urlsafe_b64encode base64
generate_secret raw = rstrip b'=' (urlsafe_b64encode raw)

-- One of `[A-Za-z0-9_-]`.
unfoldable pub is_urlsafe : ℕ → Bool
unfolding is_alnum
is_urlsafe c = is_alnum c || c == b'_' || c == b'-'

abbrev pub is_byte : ℕ → Bool
is_byte b = ltb b 256

base64-is_urlsafe : (d : ℕ) → d < 64 → is_urlsafe (base64 d) ≡ true
unfolding base64 is_urlsafe
base64-is_urlsafe d h = ground arith

base64-ne-pad : (d : ℕ) → (base64 d == b'=') ≡ false
unfolding base64
base64-ne-pad d = ground arith

rstrip-base64 : (d : ℕ) (s : Text) → rstrip b'=' (base64 d ∷ s) ≡ base64 d ∷ rstrip b'=' s
unfolding rstrip
rstrip-base64 d s = rw (base64-ne-pad d)

rstrip_pad : rstrip b'=' (b'=' ∷ []) ≡ []
unfolding rstrip
rstrip_pad = refl

rstrip_pads : rstrip b'=' (b'=' ∷ b'=' ∷ []) ≡ []
unfolding rstrip
rstrip_pads = refl

rstrip_nil : rstrip b'=' [] ≡ []
unfolding rstrip
rstrip_nil = refl

ruleset strips = (rstrip-base64, rstrip_pad, rstrip_pads, rstrip_nil)

-- Of bytes, `generate_secret` makes a text of URL-safe characters only, whose length is four thirds
-- of the number of bytes, rounded up: 43 characters for 32 bytes.
pub generate_secret_safe :
    (raw : List ℕ)
    → all is_byte raw ≡ true
    → (all is_urlsafe (generate_secret raw) ≡ true)
      × (length (generate_secret raw) ≡ (length raw * 4 + 2) / 3)
unfolding generate_secret
generate_secret_safe [] h = simp strips (refl, refl)
generate_secret_safe (a ∷ []) h =
    simp strips (ground (arith, base64-is_urlsafe (a / 4), base64-is_urlsafe (a % 4 * 16)))
generate_secret_safe (a ∷ b ∷ []) h = simp strips (
    ground (
      arith,
      base64-is_urlsafe (a / 4),
      base64-is_urlsafe (a % 4 * 16 + b / 16),
      base64-is_urlsafe (b % 16 * 4),
    ))
generate_secret_safe (a ∷ b ∷ c ∷ raw) h = simp strips (
    ground (
      arith,
      base64-is_urlsafe (a / 4),
      base64-is_urlsafe (a % 4 * 16 + b / 16),
      base64-is_urlsafe (b % 16 * 4 + c / 64),
      base64-is_urlsafe (c % 64),
      generate_secret_safe raw,
    ))
