-- ===== src/Batch/Jobs.antt =====
-- `bat_cdp_03` and `bat_cdp_04` of services/portal-backend/batch.py, under the lock in Redis.
use api_portal.Prelude.{
  Bool, List, Option, Text, [], codes, if◌then◌else◌, ltb, none, some, true, ℕ, ◌&&◌, ◌*◌, ◌++◌,
  ◌-◌, ◌∷◌,
}
use api_portal.Redis.{Redis}
use api_portal.Redis.Client.{invalidate_pat}
use api_portal.Database.{Pat, PatStatus, expired, inactive, is_active}
use api_portal.Database.Pats.{update_pats, select_ids, by_id}
use api_portal.Portal.{Portal}

abbrev pub lock_key : Text → Text
lock_key job_id = codes "cdp:batch:lock:" ++ job_id

-- `UPDATE cdp.pat SET status=…`
abbrev pub set_status : PatStatus → Pat → Pat
set_status status p = record p { status = status }

-- `status='ACTIVE' AND expires_at < now()`
abbrev pub is_past : ℕ → Pat → Bool
is_past now p = is_active p.status && ltb p.expires_at now

abbrev never_or_before : ℕ → Option ℕ → Bool
never_or_before cutoff none = true
never_or_before cutoff (some t) = ltb t cutoff

abbrev pub thirty_days : ℕ
thirty_days = 30 * 86400 * 1000000

-- `status='ACTIVE' AND (last_used_at IS NULL OR last_used_at < $1) AND issued_at < $1`
abbrev pub is_unused : ℕ → Pat → Bool
is_unused cutoff p =
    is_active p.status && never_or_before cutoff p.last_used_at && ltb p.issued_at cutoff

module _ (R : Redis) where
  -- The loop over the selected rows: the UPDATE of one row, and `invalidate_pat`.
  unfoldable pub close_pats : PatStatus → List Text → Portal R → Portal R
  close_pats status [] st = st
  close_pats status (t ∷ ts) st = close_pats status ts (record {
    db = record st.db { pats = update_pats (by_id t) (set_status status) st.db.pats };
    redis = invalidate_pat R t st.redis;
  })

  -- Runs a job if its lock is free, and frees the lock behind it.
  unfoldable pub with_lock : Text → (Portal R → Portal R) → Portal R → Portal R
  with_lock job_id job st =
      let (taken, redis) = R.set_nx_ex (lock_key job_id) (codes "1") 3600 st.redis in
      let locked : Portal R = record st { redis = redis } in
      let after = job locked in
      if taken then record after { redis = R.delete (lock_key job_id) after.redis } else locked

  unfoldable pub expire_job : ℕ → Portal R → Portal R
  unfolding close_pats
  expire_job now st = close_pats expired (select_ids (is_past now) st.db.pats) st

  unfoldable pub inactivate_job : ℕ → Portal R → Portal R
  unfolding close_pats
  inactivate_job now st =
      close_pats inactive (select_ids (is_unused (now - thirty_days)) st.db.pats) st

  unfoldable pub bat_cdp_03 : ℕ → Portal R → Portal R
  unfolding with_lock expire_job
  bat_cdp_03 now = with_lock (codes "BAT-CDP-03") (expire_job now)

  unfoldable pub bat_cdp_04 : ℕ → Portal R → Portal R
  unfolding with_lock inactivate_job
  bat_cdp_04 now = with_lock (codes "BAT-CDP-04") (inactivate_job now)
