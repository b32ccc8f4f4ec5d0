-- ===== src/DevAuth.antt =====
-- services/portal-backend/routers/dev_auth.py. The two requests to the identity provider are a
-- parameter, each with its status and the token of its answer; the registry of users is an input.
use api_portal.Prelude.{List, Option, Text, if◌then◌else◌, lookup, none, some, ℕ, ◌==◌}

pub record DevUser : Type 0 where
  pub username : Text
  pub roles : List Text

-- The server of the identity provider; `none` where a request or reading its answer raises.
pub record Provider : Type 1 where
  pub Server : Type 0
  pub client_credentials : Server → Option (ℕ × Text) × Server
  pub token_exchange : Text → Text → Server → Option (ℕ × Text) × Server

-- 400, 502, an exception, or the token with the user.
pub data LoginReply : Type 0 where
  unknown_user bad_gateway raised : LoginReply
  logged_in : Text → Text → DevUser → LoginReply

module _ (P : Provider) where
  open P use {Server, client_credentials}

  abbrev logged : Text → DevUser → Option (ℕ × Text) × Server → LoginReply × Server
  logged user_id user (none, s) = (raised, s)
  logged user_id user (some (status, token), s) =
      (if status == 200 then logged_in token user_id user else bad_gateway, s)

  abbrev with_service : Text → DevUser → Option (ℕ × Text) × Server → LoginReply × Server
  with_service user_id user (none, s) = (raised, s)
  with_service user_id user (some (status, token), s) =
      let exchanged = logged user_id user (P.token_exchange token user_id s) in
      if status == 200 then exchanged else (bad_gateway, s)

  abbrev login_for : Text → Option DevUser → Server → LoginReply × Server
  login_for user_id none s = (unknown_user, s)
  login_for user_id (some user) s = with_service user_id user (client_credentials s)

  unfoldable pub dev_login : Option Text → List (Text × DevUser) → Server → LoginReply × Server
  unfolding lookup
  dev_login none users s = (unknown_user, s)
  dev_login (some user_id) users s = login_for user_id (lookup user_id users) s
