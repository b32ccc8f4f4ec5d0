-- ===== src/Lifecycle/Limits.antt =====
-- A change of limits and the reports of the gateway keep the cache coherent.
use api_portal.Prelude.{
  Bool, Bool-cases, List, Option, Text, [], codes, if◌then◌else◌, inl, inr, is_empty, lookup, none,
  not, refl, some, text_eq, text_eq_iff, true, ℕ, ◌&&◌, ◌∙◌, ◌∷◌, ◌≡◌,
}
use api_portal.Auth.{UserClaims, has_role}
use api_portal.Redis.{Redis, Host}
use api_portal.Redis.Client.{pat_key, field_of, update_pat_quota_in_redis}
use api_portal.Database.{Db, Pat}
use api_portal.Database.Pats.{find_pat, find_pat-update, update_pats, by_id, KeepsKey}
use api_portal.Portal.{Portal}
use api_portal.Tokens.UpdateQuota.{QuotaPatchRequest, model_dump, update_found, update_quota}
use api_portal.Tokens.UpdateQuota.Laws.{quota_fields-model_dump}
use api_portal.Internal.AuditBatch.{AuditBatchItem, touch, receive_audit_batch}
use api_portal.Lifecycle.Coherence.{Mirrors, Coheres, IsCoherent}

module _ (R : Redis) (H : Host) where
  open R use {Store, has_key, hget, hset}

  -- The fields that the mirror is about are not the burst.
  burst_Mirrors :
      (s : Store) (t u : Text) (v : Text) (p : Pat)
      → Mirrors R H s u p
      → Mirrors R H (hset (pat_key t) ((codes "burst", v) ∷ []) s) u p
  burst_Mirrors s t u v p m = record {
    alive = m.alive;
    hash_field = same (codes "hash") (unfold lookup text_eq in refl) ∙ m.hash_field;
    sub_field = same (codes "sub") (unfold lookup text_eq in refl) ∙ m.sub_field;
    scopes_field = same (codes "scopes") (unfold lookup text_eq in refl) ∙ m.scopes_field;
    status_field = same (codes "status") (unfold lookup text_eq in refl) ∙ m.status_field;
  }
    where
      written : List (Text × Text)
      written = (codes "burst", v) ∷ []

      same :
          (f : Text)
          → lookup f written ≡ none
          → hget (hset (pat_key t) written s) (pat_key u) f ≡ hget s (pat_key u) f
      same f absent =
          R.hget-hset (pat_key t) (pat_key u) f written s
          ∙ (elim (Bool-cases (text_eq (pat_key t) (pat_key u))) [
            | inl e ↦ rw (e, absent) refl
            | inr e ↦ rw e refl
          ])

  burst-Coheres :
      (s : Store) (ps : List Pat) (t : Text) (burst : Option ℕ)
      → has_key s (pat_key t) ≡ true
      → Coheres R H s ps
      → Coheres R H
          (if is_empty (field_of H (codes "burst") burst)
            then s
            else hset (pat_key t) (field_of H (codes "burst") burst) s)
          ps
  burst-Coheres s ps t none cached c u h = c u h
  burst-Coheres s ps t (some n) cached c u h =
      let written : List (Text × Text) = (codes "burst", H.str n) ∷ [] in
      let old : has_key s (pat_key u) ≡ true = elim (Bool-cases (text_eq (pat_key t) (pat_key u))) [
        | inl e ↦ rw (← (text_eq_iff (pat_key t) (pat_key u)).0 e) cached
        | inr e ↦ rw (R.has_key-hset (pat_key t) (pat_key u) written s, e) at h
      ] in
      let (p, found, m) = c u old in (p, found, burst_Mirrors s t u (H.str n) p m)

  quota-Coheres :
      (s : Store) (ps : List Pat) (t : Text) (req : QuotaPatchRequest)
      → Coheres R H s ps
      → Coheres R H (update_pat_quota_in_redis R H t (model_dump req) s) ps
  unfolding update_pat_quota_in_redis
  quota-Coheres s ps t req c = elim (Bool-cases (has_key s (pat_key t))) [
    | inr absent ↦ rw absent c
    | inl cached ↦
        rw (cached, quota_fields-model_dump H req) (burst-Coheres s ps t req.burst cached c)
  ]

  update_found-IsCoherent :
      (t : Text) (req : QuotaPatchRequest) (user : UserClaims) (st : Portal R) (found : Option Pat)
      → IsCoherent R H st
      → IsCoherent R H (update_found R H t req user st found).1
  unfolding update_found
  update_found-IsCoherent t req user st none c = c
  update_found-IsCoherent t req user st (some pat) c = quota-Coheres st.redis st.db.pats t req c

  pub update_quota-IsCoherent :
      (t : Text) (req : QuotaPatchRequest) (user : UserClaims) (st : Portal R)
      → IsCoherent R H st
      → IsCoherent R H (update_quota R H t req user st).1
  unfolding update_quota
  update_quota-IsCoherent t req user st c =
      elim (Bool-cases (has_role user (codes "platform-admin"))) [
        | inl e ↦ rw e (update_found-IsCoherent t req user st (find_pat t st.db.pats) c)
        | inr e ↦ rw e c
      ]

  -- An update that leaves alone what is cached.
  same-Coheres :
      (s : Store) (ps : List Pat) (test : Pat → Bool) (set : Pat → Pat)
      → KeepsKey set
      → ((t : Text) (p : Pat) → Mirrors R H s t p → Mirrors R H s t (set p))
      → Coheres R H s ps
      → Coheres R H s (update_pats test set ps)
  same-Coheres s ps test set keeps same c t h =
      let (p, found, m) = c t h in
      (
        (if test p then set p else p),
        rw (find_pat-update t test set ps keeps, found) refl,
        elim (Bool-cases (test p)) [ inl e ↦ rw e (same t p m) | inr e ↦ rw e m ],
      )

  touch-Coheres :
      (now : ℕ) (item : AuditBatchItem) (t : Option Text) (s : Store) (ps : List Pat)
      → Coheres R H s ps
      → Coheres R H s (touch now item t ps)
  unfolding touch
  touch-Coheres now item none s ps c = c
  touch-Coheres now item (some t) s ps c =
      elim (Bool-cases (not (is_empty t) && text_eq item.event_type (codes "API_CALL"))) [
        | inl e ↦ rw e (
            same-Coheres s ps (by_id t) (λ p. record p { last_used_at = some now }) (λ p. refl)
              (λ u p m. record {
                alive = m.alive;
                hash_field = m.hash_field;
                sub_field = m.sub_field;
                scopes_field = m.scopes_field;
                status_field = m.status_field;
              })
              c)
        | inr e ↦ rw e c
      ]

  pub receive_audit_batch-Coheres :
      (accepts : AuditBatchItem → Bool) (now : ℕ) (batch : List AuditBatchItem) (db : Db)
      (s : Store)
      → Coheres R H s db.pats
      → Coheres R H s (receive_audit_batch accepts now batch db).1.pats
  unfolding receive_audit_batch
  receive_audit_batch-Coheres accepts now [] db s c = c
  receive_audit_batch-Coheres accepts now (item ∷ batch) db s c = elim (Bool-cases (accepts item)) [
    | inr e ↦ rw e c
    | inl e ↦ rw e (
        receive_audit_batch-Coheres accepts now batch _ s
          (touch-Coheres now item item.token_id s db.pats c))
  ]
