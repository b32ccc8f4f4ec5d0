-- ===== src/AdminTokens.antt =====
-- services/portal-backend/routers/admin_tokens.py: `bulk_revoke`.
use api_portal.Prelude.{
  Bool, List, Option, Text, [], codes, contains, if◌then◌else◌, is_empty, ltb, map, none, not,
  set_update, some, ℕ, ◌&&◌, ◌++◌,
}
use api_portal.Errors.{Reply, done, cdp_error, cdp_4001, cdp_4003}
use api_portal.Auth.{UserClaims, has_role}
use api_portal.Redis.{Redis}
use api_portal.Database.{Pat, revoked, is_revoked}
use api_portal.Database.Pats.{update_pats, select_ids}
use api_portal.Internal.UserEvent.{invalidate_pats}
use api_portal.Tokens.Revoke.{revoked_row}
use api_portal.Portal.{Portal}

pub record BulkRevokeRequest : Type 0 where
  pub token_ids : List Text
  pub user_subs : List Text
  pub expired_only : Bool
  pub reason : Option Text

-- The three SELECTs, each of rows that are not revoked.
abbrev pub live_where : (Pat → Bool) → Pat → Bool
live_where test p = test p && not (is_revoked p.status)

unfoldable pub select_targets : BulkRevokeRequest → ℕ → List Pat → List Text
select_targets req now pats =
    let by_id =
      if is_empty req.token_ids
      then []
      else select_ids (live_where λ p. contains req.token_ids p.token_id) pats in
    let by_user =
      if is_empty req.user_subs
      then []
      else select_ids (live_where λ p. contains req.user_subs p.user_sub) pats in
    let by_date =
      if req.expired_only then select_ids (live_where λ p. ltb p.expires_at now) pats else [] in
    set_update by_date (set_update by_user (set_update by_id []))

abbrev pub reason_or : Option Text → Text
reason_or none = codes "bulk revocation by admin"
reason_or (some r) = if is_empty r then codes "bulk revocation by admin" else r

abbrev pub set_bulk_revoked : Text → ℕ → Text → Pat → Pat
set_bulk_revoked sub now reason p = record p {
  status = revoked;
  revoked_at = some now;
  revoked_by = some sub;
  revoke_reason = some reason;
}

-- `token_id = ANY(token_ids)`
abbrev pub in_targets : List Text → Pat → Bool
in_targets ids p = contains ids p.token_id

module _ (R : Redis) where
  abbrev pub revoke_targets : BulkRevokeRequest → ℕ → UserClaims → Portal R → List Text → Portal R
  revoke_targets req now user st ids = record {
    db = record st.db {
      pats =
          update_pats (in_targets ids) (set_bulk_revoked user.sub now (reason_or req.reason))
            st.db.pats;
      audit_log = map (λ t. revoked_row t user.sub) ids ++ st.db.audit_log;
    };
    redis = invalidate_pats R ids st.redis;
  }

  -- The reply holds the ids of the revoked tokens.
  unfoldable pub bulk_revoke :
      BulkRevokeRequest → ℕ → UserClaims → Portal R → Reply (List Text) × Portal R
  unfolding select_targets
  bulk_revoke req now user st =
      let ids = select_targets req now st.db.pats in
      if not (has_role user (codes "platform-admin"))
      then (cdp_error cdp_4003, st)
      else if is_empty req.token_ids && is_empty req.user_subs && not req.expired_only
      then (cdp_error cdp_4001, st)
      else if is_empty ids
      then (done [], st)
      else (done ids, revoke_targets req now user st ids)
