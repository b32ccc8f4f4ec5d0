-- ===== src/Internal/UserEvent.antt =====
-- `receive_user_event` of services/portal-backend/routers/internal.py.
use api_portal.Prelude.{
  Bool, List, Option, Text, [], codes, if◌then◌else◌, is_empty, leb, length, map, none, some,
  text_eq, ℕ, ◌&&◌, ◌++◌, ◌+◌, ◌-◌, ◌||◌, ◌∷◌,
}
use api_portal.Errors.{Reply, done, http}
use api_portal.Redis.{Redis}
use api_portal.Redis.Client.{invalidate_pat, invalidate_jwt_cache}
use api_portal.Database.{Pat, revoked, is_active}
use api_portal.Database.Pats.{update_pats, select_ids}
use api_portal.Tokens.Revoke.{revoked_row}
use api_portal.Portal.{Portal}

pub record UserLifecycleEvent : Type 0 where
  pub user_sub : Text
  pub event_type : Text
  pub reason : Option Text

-- `s.upper()` and `s.lower()` on ASCII letters.
unfoldable pub upper : Text → Text
upper = map (λ c. if leb b'a' c && leb c b'z' then c - 32 else c)

unfoldable pub lower : Text → Text
lower = map (λ c. if leb b'A' c && leb c b'Z' then c + 32 else c)

-- `event.reason or 'no reason given'`
abbrev reason_text : Option Text → Text
reason_text none = codes "no reason given"
reason_text (some r) = if is_empty r then codes "no reason given" else r

pub data EventReply : Type 0 where
  revoked_all : ℕ → EventReply
  jwt_cache_cleared : ℕ → ℕ → EventReply

-- `user_sub=$1 AND status='ACTIVE'`
abbrev pub active_of : Text → Pat → Bool
active_of sub p = text_eq p.user_sub sub && is_active p.status

abbrev pub set_revoked_by_event : ℕ → Text → Pat → Pat
set_revoked_by_event now reason p = record p {
  status = revoked;
  revoked_at = some now;
  revoked_by = some (codes "keycloak-webhook");
  revoke_reason = some reason;
}

module _ (R : Redis) where
  unfoldable pub invalidate_pats : List Text → R.Store → R.Store
  invalidate_pats [] s = s
  invalidate_pats (t ∷ ts) s = invalidate_pats ts (invalidate_pat R t s)

  abbrev pub revoke_all_of : UserLifecycleEvent → ℕ → Text → Portal R → Portal R
  revoke_all_of event now event_type st =
      let ids = select_ids (active_of event.user_sub) st.db.pats in
      let reason =
        codes "user " ++ (lower event_type ++ (codes ": " ++ reason_text event.reason)) in
      record {
        db = record st.db {
          pats =
              update_pats (active_of event.user_sub) (set_revoked_by_event now reason) st.db.pats;
          audit_log = map (λ t. revoked_row t event.user_sub) ids ++ st.db.audit_log;
        };
        redis = invalidate_pats ids st.redis;
      }

  unfoldable pub receive_user_event :
      UserLifecycleEvent → ℕ → Portal R → Reply EventReply × Portal R
  unfolding upper invalidate_pats
  receive_user_event event now st =
      let event_type = upper event.event_type in
      let ids = select_ids (active_of event.user_sub) st.db.pats in
      let (dropped, redis) = invalidate_jwt_cache R ids st.redis in
      if text_eq event_type (codes "DISABLE") || text_eq event_type (codes "DELETE")
      then (if is_empty ids
          then (done (revoked_all 0), st)
          else (done (revoked_all (length ids)), revoke_all_of event now event_type st))
      else if text_eq event_type (codes "LOGOUT")
      then (done (jwt_cache_cleared (length ids) dropped), record st { redis = redis })
      else (http 400, st)
