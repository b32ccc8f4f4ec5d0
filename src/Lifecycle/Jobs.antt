-- ===== src/Lifecycle/Jobs.antt =====
-- The issue of a token, a change of its limits and the jobs keep the cache coherent.
use api_portal.Prelude.{
  Bool-cases, List, Option, Text, [], codes, false, inl, inr, none, refl, some, text_eq,
  text_eq_refl, true, ℕ, ◌-◌, ◌∙◌, ◌∷◌, ◌≡◌,
}
use api_portal.Config.{Settings}
use api_portal.Auth.{UserClaims}
use api_portal.Redis.{Redis, Host}
use api_portal.Redis.Client.{pat_key}
use api_portal.Redis.Client.Effects.{delete-Shrinks}
use api_portal.Database.{Pat, PatStatus, is_active, expired, inactive}
use api_portal.Database.Pats.{find_pat, select_ids}
use api_portal.Portal.{Portal}
use api_portal.Tokens.Issue.Laws.{issue_cases}
use api_portal.Tokens.Issue.{
  TokenIssueRequest, IssueInput, new_pat, new_meta, insert_pat, audited, stored, audit_detail,
  issue_pat,
}
use api_portal.Batch.Jobs.{
  lock_key, set_status, is_past, is_unused, thirty_days, close_pats, with_lock, expire_job,
  inactivate_job, bat_cdp_03, bat_cdp_04,
}
use api_portal.Lifecycle.Coherence.{Coheres, IsCoherent, Shrinks-Coheres, cache-Coheres}
use api_portal.Lifecycle.Targets.{one-Coheres}

module _ (R : Redis) (H : Host) where
  open R use {Store, has_key, hget, hset, delete}

  find_pat_other :
      (p : Pat) (ps : List Pat) (u : Text)
      → text_eq p.token_id u ≡ false
      → find_pat u (p ∷ ps) ≡ find_pat u ps
  unfolding find_pat
  find_pat_other p ps u e = rw e

  find_pat_new : (p : Pat) (ps : List Pat) → find_pat p.token_id (p ∷ ps) ≡ some p
  unfolding find_pat
  find_pat_new p ps = rw (text_eq_refl p.token_id)

  audited-IsCoherent :
      (S : Settings) (detail : Text) (p : Pat) (st : Portal R)
      → IsCoherent R H st
      → IsCoherent R H (audited S R H detail p st).1
  unfolding audited
  audited-IsCoherent S detail p st c = elim (Bool-cases (H.is_jsonb detail)) [
    | inl j ↦ rw j c
    | inr j ↦ rw j c
  ]

  insert_pat-IsCoherent :
      (S : Settings) (detail : Text) (p : Pat) (st : Portal R) (found : Option Pat)
      → is_active p.status ≡ true
      → IsCoherent R H st
      → IsCoherent R H (insert_pat S R H detail p st found).1
  unfolding insert_pat
  insert_pat-IsCoherent S detail p st (some q) live c = c
  insert_pat-IsCoherent S detail p st none live c =
      audited-IsCoherent S detail p (stored S R H p st) (
        cache-Coheres R H st.redis st.db.pats (p ∷ st.db.pats) p.token_id (new_meta S R H p) _ p
          (find_pat_new p st.db.pats) (find_pat_other p st.db.pats)
          (record { is_alive = live; hmac = refl; sub = refl; scopes = refl; status = refl }) c)

  pub issue_pat-IsCoherent :
      (S : Settings) (req : TokenIssueRequest) (input : IssueInput) (user : UserClaims)
      (st : Portal R)
      → IsCoherent R H st
      → IsCoherent R H (issue_pat S R H req input user st).1
  issue_pat-IsCoherent S req input user st c =
      issue_cases S R H (λ r. IsCoherent R H r.1) req input user st (λ e. c) c
        λ app a.
          insert_pat-IsCoherent S (audit_detail req) (new_pat S R H req input user app) st _ refl c

  lock-ne-entry : (id t : Text) → text_eq (lock_key id) (pat_key t) ≡ false
  unfolding text_eq
  lock-ne-entry id t = refl

  lock-Coheres :
      (id : Text) (s : Store) (ps : List Pat)
      → Coheres R H s ps
      → Coheres R H (R.set_nx_ex (lock_key id) (codes "1") 3600 s).1 ps
  lock-Coheres id s ps c = elim (Bool-cases (has_key s (lock_key id))) [
    | inl held ↦ rw (R.set_nx_ex_taken (lock_key id) (codes "1") 3600 s held) c
    | inr free ↦ λ t h.
        let one = codes "1" in
        let old : has_key s (pat_key t) ≡ true =
          rw (R.has_key-set_nx_ex (lock_key id) one (pat_key t) 3600 s free, lock-ne-entry id t) at
            h in
        let same = λ (f : Text).
          R.hget-set_nx_ex (lock_key id) one (pat_key t) f 3600 s free (lock-ne-entry id t) in
        let (p, found, m) = c t old in
        (
          p,
          found,
          record {
            alive = m.alive;
            hash_field = same (codes "hash") ∙ m.hash_field;
            sub_field = same (codes "sub") ∙ m.sub_field;
            scopes_field = same (codes "scopes") ∙ m.scopes_field;
            status_field = same (codes "status") ∙ m.status_field;
          },
        )
  ]

  -- Without the lock a job changes nothing; the lock's own key is no entry of a token.
  pub with_lock-IsCoherent :
      (id : Text) (job : Portal R → Portal R) (st : Portal R)
      → ((s : Portal R) → IsCoherent R H s → IsCoherent R H (job s))
      → IsCoherent R H st
      → IsCoherent R H (with_lock R id job st)
  unfolding with_lock
  with_lock-IsCoherent id job st keeps c =
      let locked : Portal R = record st {
        redis = (R.set_nx_ex (lock_key id) (codes "1") 3600 st.redis).1;
      } in
      let lock = lock-Coheres id st.redis st.db.pats c in
      elim (Bool-cases (R.set_nx_ex (lock_key id) (codes "1") 3600 st.redis).0) [
        | inr held ↦ rw held lock
        | inl taken ↦ rw taken (
            Shrinks-Coheres R H (job locked).redis _ (job locked).db.pats
              (delete-Shrinks R (lock_key id) (job locked).redis) (keeps locked lock))
      ]

  pub close_pats-IsCoherent :
      (status : PatStatus) (ts : List Text) (st : Portal R)
      → IsCoherent R H st
      → IsCoherent R H (close_pats R status ts st)
  unfolding close_pats
  close_pats-IsCoherent status [] st c = c
  close_pats-IsCoherent status (t ∷ ts) st c =
      close_pats-IsCoherent status ts _
        (one-Coheres R H st.redis st.db.pats t (set_status status) (λ p. refl) c)

  pub bat_cdp_03-IsCoherent :
      (now : ℕ) (st : Portal R) → IsCoherent R H st → IsCoherent R H (bat_cdp_03 R now st)
  unfolding bat_cdp_03
  bat_cdp_03-IsCoherent now st =
      with_lock-IsCoherent (codes "BAT-CDP-03") (expire_job R now) st
        λ s. close_pats-IsCoherent expired (select_ids (is_past now) s.db.pats) s

  pub bat_cdp_04-IsCoherent :
      (now : ℕ) (st : Portal R) → IsCoherent R H st → IsCoherent R H (bat_cdp_04 R now st)
  unfolding bat_cdp_04
  bat_cdp_04-IsCoherent now st =
      with_lock-IsCoherent (codes "BAT-CDP-04") (inactivate_job R now) st
        λ s. close_pats-IsCoherent inactive (select_ids (is_unused (now - thirty_days)) s.db.pats) s
