-- ===== src/Tokens/Revoke.antt =====
-- `revoke_pat` of services/portal-backend/routers/tokens.py.
use api_portal.Prelude.{Option, Text, codes, if◌then◌else◌, none, not, some, text_eq, ℕ, ◌&&◌, ◌∷◌}
use api_portal.Errors.{Reply, done, cdp_error, http, cdp_4003}
use api_portal.Auth.{UserClaims, has_role}
use api_portal.Redis.{Redis}
use api_portal.Redis.Client.{invalidate_pat}
use api_portal.Database.{Pat, revoked, AuditRow}
use api_portal.Database.Pats.{find_pat, update_pats, by_id}
use api_portal.Portal.{Portal}

-- `SET status='REVOKED', revoked_at=now(), revoked_by=$1`
abbrev pub set_revoked : Text → ℕ → Pat → Pat
set_revoked sub now p = record p { status = revoked; revoked_at = some now; revoked_by = some sub }

abbrev pub revoked_row : Text → Text → AuditRow
revoked_row token_id sub = record {
  event_type = codes "PAT_REVOKED";
  token_id = some token_id;
  user_sub = some sub;
  request_path = none;
  status_code = none;
  error_code = none;
}

module _ (R : Redis) where
  abbrev pub revoke_row : Text → UserClaims → ℕ → Portal R → Portal R
  revoke_row token_id user now st = record {
    db = record st.db {
      pats = update_pats (by_id token_id) (set_revoked user.sub now) st.db.pats;
      audit_log = revoked_row token_id user.sub ∷ st.db.audit_log;
    };
    redis = invalidate_pat R token_id st.redis;
  }

  unfoldable pub revoke_found :
      Text → UserClaims → ℕ → Portal R → Option Pat → Reply Unit × Portal R
  revoke_found token_id user now st none = (http 404, st)
  revoke_found token_id user now st (some pat) =
      if not (text_eq pat.user_sub user.sub) && not (has_role user (codes "platform-admin"))
      then (cdp_error cdp_4003, st)
      else (done tt, revoke_row token_id user now st)

  unfoldable pub revoke_pat : Text → UserClaims → ℕ → Portal R → Reply Unit × Portal R
  unfolding revoke_found
  revoke_pat token_id user now st = revoke_found token_id user now st (find_pat token_id st.db.pats)
