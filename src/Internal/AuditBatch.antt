-- ===== src/Internal/AuditBatch.antt =====
-- `receive_audit_batch` of services/portal-backend/routers/internal.py.
use api_portal.Prelude.{
  Bool, Bool-cases, List, Option, Text, [], codes, if◌then◌else◌, inl, inr, is_empty, none, not,
  some, text_eq, ℕ, ◌&&◌, ◌∷◌,
}
use api_portal.Errors.{Reply, done, http}
use api_portal.Database.{Db, Pat, AuditRow}
use api_portal.Database.Pats.{update_pats, by_id}
use api_portal.PatUtils.Format.Mask.{mask_pat}
use api_portal.PatUtils.Format.Mask.Clean.{IsClean, mask_pat-IsClean}

-- The columns that the checks below read; the other columns are passed on as they are.
pub record AuditBatchItem : Type 0 where
  pub token_id : Option Text
  pub user_sub : Option Text
  pub request_path : Option Text
  pub status_code : Option ℕ
  pub error_code : Option Text
  pub event_type : Text

abbrev or_nil : Option Text → Text
or_nil none = []
or_nil (some s) = s

abbrev pub audit_row : AuditBatchItem → AuditRow
audit_row item = record {
  event_type = item.event_type;
  token_id = item.token_id;
  user_sub = item.user_sub;
  request_path = some (mask_pat (or_nil item.request_path));
  status_code = item.status_code;
  error_code = item.error_code;
}

-- `if item.token_id and item.event_type == "API_CALL"`
unfoldable pub touch : ℕ → AuditBatchItem → Option Text → List Pat → List Pat
touch now item none pats = pats
touch now item (some t) pats =
    if not (is_empty t) && text_eq item.event_type (codes "API_CALL")
    then update_pats (by_id t) (λ p. record p { last_used_at = some now }) pats
    else pats

-- The loop. `accepts` says whether the database takes the row (a bad address or number makes the
-- INSERT fail); what was written before stays.
unfoldable pub receive_audit_batch :
    (AuditBatchItem → Bool) → ℕ → List AuditBatchItem → Db → Reply Unit × Db
unfolding touch
receive_audit_batch accepts now [] db = (done tt, db)
receive_audit_batch accepts now (item ∷ batch) db =
    let written : Db = record db {
      pats = touch now item item.token_id db.pats;
      audit_log = audit_row item ∷ db.audit_log;
    } in
    let rest = receive_audit_batch accepts now batch written in
    if accepts item then rest else (http 500, db)

abbrev PathIsClean : AuditRow → Type 0
PathIsClean row = elim row.request_path [ none ↦ Unit {0} | some s ↦ IsClean s ]

abbrev pub AllClean : List AuditRow → Type 0
AllClean [] = Unit {0}
AllClean (row ∷ rows) = PathIsClean row × AllClean rows

-- However far the batch gets, no path in the audit log holds a token with its secret, if none did.
pub receive_audit_batch-AllClean :
    (accepts : AuditBatchItem → Bool) (now : ℕ) (batch : List AuditBatchItem) (db : Db)
    → AllClean db.audit_log
    → AllClean (receive_audit_batch accepts now batch db).1.audit_log
unfolding receive_audit_batch
receive_audit_batch-AllClean accepts now [] db h = h
receive_audit_batch-AllClean accepts now (item ∷ batch) db h = elim (Bool-cases (accepts item)) [
  | inr e ↦ rw e h
  | inl e ↦ rw e (
      receive_audit_batch-AllClean accepts now batch _
        (mask_pat-IsClean (or_nil item.request_path), h))
]
