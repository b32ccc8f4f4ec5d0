-- ===== src/Auth.antt =====
-- services/portal-backend/auth.py. The JWKS request and `jose_jwt.decode` are one parameter, which
-- returns the claims of a token that verifies.
use api_portal.Prelude.{
  Bool, List, Option, Text, [], codes, contains, false, if◌then◌else◌, none, some, starts_with, suc,
  zero, ℕ, ◌||◌, ◌∷◌,
}
use api_portal.Errors.{Reply, done, http}

pub record UserClaims : Type 0 where
  pub sub : Text
  pub username : Text
  pub roles : List Text

pub record Claims : Type 0 where
  pub sub : Text
  pub preferred_username : Option Text
  pub realm_roles : Option (List Text)

-- `s[n:]`
unfoldable pub drop : ℕ → Text → Text
drop zero s = s
drop (suc n) [] = []
drop (suc n) (c ∷ s) = drop n s

abbrev get_or {ℓ} : {A : Type ℓ} → Option A → A → A
get_or none d = d
get_or (some a) d = a

abbrev user_of : Option Claims → Reply UserClaims
user_of none = http 401
user_of (some c) = done (record {
  sub = c.sub;
  username = get_or c.preferred_username c.sub;
  roles = get_or c.realm_roles [];
})

-- `not authorization` is true of the empty text, which no prefix test accepts either.
unfoldable get_current_user : (Text → Option Claims) → Option Text → Reply UserClaims
unfolding drop
get_current_user decode none = http 401
get_current_user decode (some authorization) =
    if starts_with authorization (codes "Bearer ")
    then user_of (decode (drop 7 authorization))
    else http 401

-- `role in user.roles`
unfoldable pub has_role : UserClaims → Text → Bool
has_role user role = contains user.roles role

unfoldable pub has_any_role : UserClaims → List Text → Bool
unfolding has_role
has_any_role user [] = false
has_any_role user (r ∷ rs) = has_role user r || has_any_role user rs

-- `any(r in user.roles for r in required_roles)` of `require_role`.
unfoldable require_role : List Text → UserClaims → Reply UserClaims
require_role required user = if has_any_role user required then done user else http 403
