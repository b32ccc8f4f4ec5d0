-- ===== src/Lifecycle/Final.antt =====
-- A token that is not active never becomes active again, and is not served from the cache.
use api_portal.Prelude.{
  Bool, Bool-cases, List, Option, Text, [], codes, false, inl, inr, is_empty, none, not, refl, some,
  text_eq, true, ℕ, ◌&&◌, ◌-◌, ◌∷◌, ◌≡◌,
}
use api_portal.Config.{Settings}
use api_portal.Redis.{Redis, Host}
use api_portal.Redis.Client.{pat_key}
use api_portal.Database.{Db, Pat, PatStatus, is_active, expired, inactive}
use api_portal.Database.Pats.{find_pat, by_id, select_ids}
use api_portal.Portal.{Portal}
use api_portal.Tokens.Revoke.{revoke_pat}
use api_portal.Internal.Meta.{get_pat_meta, find_quota}
use api_portal.Internal.AuditBatch.{AuditBatchItem, touch, receive_audit_batch}
use api_portal.Batch.Jobs.{
  set_status, is_past, is_unused, thirty_days, close_pats, with_lock, expire_job, inactivate_job,
  bat_cdp_03, bat_cdp_04, lock_key,
}
use api_portal.Lifecycle.Coherence.{IsCoherent}
use api_portal.Lifecycle.Closed.{
  IsClosed, update-IsClosed, issue_pat-IsClosed, revoke_found-IsClosed, meta_found-IsClosed,
  update_quota-IsClosed, receive_user_event-IsClosed, bulk_revoke-IsClosed,
}
use api_portal.Lifecycle.Steps.{
  Step, issues, revokes, limits, reloads, receives, reports, bulk_revokes, expires, inactivates,
  loses, elsewhere, Reach, here, next, Reach-IsCoherent,
}

touch-IsClosed :
    (u : Text) (now : ℕ) (item : AuditBatchItem) (t : Option Text) (ps : List Pat)
    → IsClosed u ps
    → IsClosed u (touch now item t ps)
unfolding touch
touch-IsClosed u now item none ps c = c
touch-IsClosed u now item (some t) ps c =
    elim (Bool-cases (not (is_empty t) && text_eq item.event_type (codes "API_CALL"))) [
      | inl e ↦ rw e (
          update-IsClosed u ps (by_id t) (λ p. record p { last_used_at = some now }) (λ p. refl)
            (λ p h. h) c)
      | inr e ↦ rw e c
    ]

receive_audit_batch-IsClosed :
    (t : Text) (accepts : AuditBatchItem → Bool) (now : ℕ) (batch : List AuditBatchItem) (db : Db)
    → IsClosed t db.pats
    → IsClosed t (receive_audit_batch accepts now batch db).1.pats
unfolding receive_audit_batch
receive_audit_batch-IsClosed t accepts now [] db c = c
receive_audit_batch-IsClosed t accepts now (item ∷ batch) db c = elim (Bool-cases (accepts item)) [
  | inr e ↦ rw e c
  | inl e ↦ rw e (
      receive_audit_batch-IsClosed t accepts now batch _
        (touch-IsClosed t now item item.token_id db.pats c))
]

module _ (R : Redis) where
  close_pats-IsClosed :
      (t : Text) (status : PatStatus) (ts : List Text) (st : Portal R)
      → is_active status ≡ false
      → IsClosed t st.db.pats
      → IsClosed t (close_pats R status ts st).db.pats
  unfolding close_pats
  close_pats-IsClosed t status [] st off c = c
  close_pats-IsClosed t status (u ∷ us) st off c =
      close_pats-IsClosed t status us _ off
        (update-IsClosed t st.db.pats (by_id u) (set_status status) (λ p. refl) (λ p h. off) c)

  with_lock-IsClosed :
      (t id : Text) (job : Portal R → Portal R) (st : Portal R)
      → ((s : Portal R) → IsClosed t s.db.pats → IsClosed t (job s).db.pats)
      → IsClosed t st.db.pats
      → IsClosed t (with_lock R id job st).db.pats
  unfolding with_lock
  with_lock-IsClosed t id job st keeps c =
      elim (Bool-cases (R.set_nx_ex (lock_key id) (codes "1") 3600 st.redis).0) [
        | inr held ↦ rw held c
        | inl taken ↦ rw taken (keeps _ c)
      ]

module _ (S : Settings) (R : Redis) (H : Host) where
  Step-IsClosed :
      {st st' : Portal R} (t : Text)
      → Step S R H st st'
      → IsClosed t st.db.pats
      → IsClosed t st'.db.pats
  unfolding revoke_pat get_pat_meta bat_cdp_03 bat_cdp_04
  Step-IsClosed t (issues st req input user) c = issue_pat-IsClosed R H S t req input user st c
  Step-IsClosed t (revokes st u user now) c =
      revoke_found-IsClosed R H t u user now st (find_pat u st.db.pats) c
  Step-IsClosed t (limits st u req user) c = update_quota-IsClosed R H t u req user st c
  Step-IsClosed t (reloads st u now) c =
      meta_found-IsClosed R H t u now st (find_quota u st.db.quotas) (find_pat u st.db.pats) c
  Step-IsClosed t (receives st event now) c = receive_user_event-IsClosed R H t event now st c
  Step-IsClosed t (reports st accepts now batch) c =
      receive_audit_batch-IsClosed t accepts now batch st.db c
  Step-IsClosed t (bulk_revokes st req now user) c = bulk_revoke-IsClosed R H t req now user st c
  Step-IsClosed t (expires st now) c =
      with_lock-IsClosed R t (codes "BAT-CDP-03") (expire_job R now) st
        (λ s. close_pats-IsClosed R t expired (select_ids (is_past now) s.db.pats) s refl) c
  Step-IsClosed t (inactivates st now) c =
      with_lock-IsClosed R t (codes "BAT-CDP-04") (inactivate_job R now) st
        (λ s.
          close_pats-IsClosed R t inactive (select_ids (is_unused (now - thirty_days)) s.db.pats) s
            refl)
        c
  Step-IsClosed t (loses st s sh) c = c
  Step-IsClosed t (elsewhere st st' same rows) c = rw rows c

  pub Reach-IsClosed :
      {st st' : Portal R} (t : Text)
      → Reach S R H st st'
      → IsClosed t st.db.pats
      → IsClosed t st'.db.pats
  Reach-IsClosed t here c = c
  Reach-IsClosed t (next r step) c = Step-IsClosed t step (Reach-IsClosed t r c)

  closed_uncached :
      (t : Text) (st : Portal R)
      → IsCoherent R H st
      → IsClosed t st.db.pats
      → R.has_key st.redis (pat_key t) ≡ false
  closed_uncached t st c (p, found, off) = elim (Bool-cases (R.has_key st.redis (pat_key t))) [
    | inr e ↦ e
    | inl e ↦ let (q, found', m) = c t e in absurd (never found found' off m.alive)
  ]
    where
      never :
          {o : Option Pat} {p q : Pat}
          → o ≡ some p
          → o ≡ some q
          → is_active p.status ≡ false
          → is_active q.status ≡ true
          → ⊥
      never found found' off alive = cc

  -- A token whose row is not active keeps a row that is not active, and has no cached entry, in
  -- every state that is reachable from a coherent one.
  pub IsClosed-forever :
      (st st' : Portal R) (t : Text)
      → Reach S R H st st'
      → IsCoherent R H st
      → IsClosed t st.db.pats
      → IsClosed t st'.db.pats × (R.has_key st'.redis (pat_key t) ≡ false)
  IsClosed-forever st st' t r c closed =
      let later = Reach-IsClosed t r closed in
      (later, closed_uncached t st' (Reach-IsCoherent S R H r c) later)
