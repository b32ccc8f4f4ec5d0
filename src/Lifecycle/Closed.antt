-- ===== src/Lifecycle/Closed.antt =====
-- A row that is not active stays so under the requests that change rows.
use api_portal.Prelude.{
  Bool, Bool-cases, List, Option, Text, ap, codes, false, if◌then◌else◌, inl, inr, is_empty, ltb,
  none, not, refl, some, text_eq, text_eq_iff, ℕ, ◌&&◌, ◌-◌, ◌/◌, ◌||◌, ◌≡◌,
}
use api_portal.Config.{Settings}
use api_portal.Auth.{UserClaims, has_role}
use api_portal.Redis.{Redis, Host}
use api_portal.Database.{Pat, Quota, is_active}
use api_portal.Database.Pats.{KeepsKey, find_pat, find_pat-update, update_pats, by_id, select_ids}
use api_portal.Portal.{Portal}
use api_portal.Tokens.Issue.{
  TokenIssueRequest, IssueInput, new_pat, audit_detail, audited, stored, insert_pat, issue_pat,
}
use api_portal.Tokens.Issue.Laws.{issue_cases}
use api_portal.Tokens.Revoke.{set_revoked, revoke_found}
use api_portal.Tokens.UpdateQuota.{QuotaPatchRequest, update_found, update_quota}
use api_portal.Internal.Meta.{meta_found}
use api_portal.Internal.UserEvent.{
  UserLifecycleEvent, active_of, receive_user_event, upper, set_revoked_by_event,
}
use api_portal.AdminTokens.{
  BulkRevokeRequest, bulk_revoke, select_targets, in_targets, reason_or, set_bulk_revoked,
}

-- The token has a row, and the row is not active.
abbrev pub IsClosed : Text → List Pat → Type 0
IsClosed t ps = (p : Pat) × (find_pat t ps ≡ some p) × (is_active p.status ≡ false)

pub update-IsClosed :
    (t : Text) (ps : List Pat) (test : Pat → Bool) (set : Pat → Pat)
    → KeepsKey set
    → ((p : Pat) → is_active p.status ≡ false → is_active (set p).status ≡ false)
    → IsClosed t ps
    → IsClosed t (update_pats test set ps)
update-IsClosed t ps test set keeps closed (p, found, off) = (
  (if test p then set p else p),
  rw (find_pat-update t test set ps keeps, found) refl,
  elim (Bool-cases (test p)) [ inl e ↦ rw e (closed p off) | inr e ↦ rw e off ],
)

module _ (R : Redis) (H : Host) where
  audited-IsClosed :
      (S : Settings) (t detail : Text) (p : Pat) (st : Portal R)
      → IsClosed t st.db.pats
      → IsClosed t (audited S R H detail p st).1.db.pats
  unfolding audited
  audited-IsClosed S t detail p st c = elim (Bool-cases (H.is_jsonb detail)) [
    | inl j ↦ rw j c
    | inr j ↦ rw j c
  ]

  insert_pat-IsClosed :
      (S : Settings) (t detail : Text) (p : Pat) (st : Portal R) (found : Option Pat)
      → find_pat p.token_id st.db.pats ≡ found
      → IsClosed t st.db.pats
      → IsClosed t (insert_pat S R H detail p st found).1.db.pats
  unfolding insert_pat find_pat
  insert_pat-IsClosed S t detail p st (some q) e c = c
  insert_pat-IsClosed S t detail p st none e (q, found, off) =
      audited-IsClosed S t detail p (stored S R H p st) (elim (Bool-cases (text_eq p.token_id t)) [
        | inl same ↦
            let id : p.token_id ≡ t = (text_eq_iff p.token_id t).0 same in
            absurd (cc (found, ap (λ u. find_pat u st.db.pats) id))
        | inr other ↦ (q, rw other found, off)
      ])

  pub issue_pat-IsClosed :
      (S : Settings) (t : Text) (req : TokenIssueRequest) (input : IssueInput) (user : UserClaims)
      (st : Portal R)
      → IsClosed t st.db.pats
      → IsClosed t (issue_pat S R H req input user st).1.db.pats
  issue_pat-IsClosed S t req input user st c =
      issue_cases S R H (λ r. IsClosed t r.1.db.pats) req input user st (λ e. c) c
        λ app a.
          insert_pat-IsClosed S t (audit_detail req) (new_pat S R H req input user app) st _ refl c

  pub revoke_found-IsClosed :
      (t u : Text) (user : UserClaims) (now : ℕ) (st : Portal R) (found : Option Pat)
      → IsClosed t st.db.pats
      → IsClosed t (revoke_found R u user now st found).1.db.pats
  unfolding revoke_found
  revoke_found-IsClosed t u user now st none c = c
  revoke_found-IsClosed t u user now st (some pat) c =
      elim (Bool-cases
        (not (text_eq pat.user_sub user.sub) && not (has_role user (codes "platform-admin")))) [
          | inl e ↦ rw e c
          | inr e ↦ rw e (
              update-IsClosed t st.db.pats (by_id u) (set_revoked user.sub now) (λ p. refl)
                (λ p h. refl) c)
        ]

  pub meta_found-IsClosed :
      (t u : Text) (now : ℕ) (st : Portal R) (q : Option Quota) (found : Option Pat)
      → IsClosed t st.db.pats
      → IsClosed t (meta_found R H u now st q found).1.db.pats
  unfolding meta_found
  meta_found-IsClosed t u now st q none c = c
  meta_found-IsClosed t u now st q (some pat) c = elim (Bool-cases (is_active pat.status)) [
    | inr closed ↦ rw closed c
    | inl live ↦ rw live (elim (Bool-cases (is_empty pat.token_hmac)) [
      | inl legacy ↦ rw legacy c
      | inr sound ↦ rw sound (elim (Bool-cases (ltb 0 ((pat.expires_at - now) / 1000000))) [
        | inr late ↦ rw late c
        | inl left ↦ rw left c
      ])
    ])
  ]

  update_found-IsClosed :
      (t u : Text) (req : QuotaPatchRequest) (user : UserClaims) (st : Portal R)
      (found : Option Pat)
      → IsClosed t st.db.pats
      → IsClosed t (update_found R H u req user st found).1.db.pats
  unfolding update_found
  update_found-IsClosed t u req user st none c = c
  update_found-IsClosed t u req user st (some pat) c = c

  pub update_quota-IsClosed :
      (t u : Text) (req : QuotaPatchRequest) (user : UserClaims) (st : Portal R)
      → IsClosed t st.db.pats
      → IsClosed t (update_quota R H u req user st).1.db.pats
  unfolding update_quota
  update_quota-IsClosed t u req user st c =
      elim (Bool-cases (has_role user (codes "platform-admin"))) [
        | inl e ↦ rw e (update_found-IsClosed t u req user st (find_pat u st.db.pats) c)
        | inr e ↦ rw e c
      ]

  pub receive_user_event-IsClosed :
      (t : Text) (event : UserLifecycleEvent) (now : ℕ) (st : Portal R)
      → IsClosed t st.db.pats
      → IsClosed t (receive_user_event R event now st).1.db.pats
  unfolding receive_user_event
  receive_user_event-IsClosed t event now st c =
      let ids = select_ids (active_of event.user_sub) st.db.pats in
      let kind = upper event.event_type in
      elim (Bool-cases (text_eq kind (codes "DISABLE") || text_eq kind (codes "DELETE"))) [
        | inl e ↦ rw e (elim (Bool-cases (is_empty ids)) [
          | inl none_left ↦ rw none_left c
          | inr some_left ↦ rw some_left (
              update-IsClosed t st.db.pats (active_of event.user_sub) (set_revoked_by_event now _)
                (λ p. refl) (λ p h. refl) c)
        ])
        | inr e ↦ rw e (elim (Bool-cases (text_eq kind (codes "LOGOUT"))) [
          | inl out ↦ rw out c
          | inr other ↦ rw other c
        ])
      ]

  pub bulk_revoke-IsClosed :
      (t : Text) (req : BulkRevokeRequest) (now : ℕ) (user : UserClaims) (st : Portal R)
      → IsClosed t st.db.pats
      → IsClosed t (bulk_revoke R req now user st).1.db.pats
  unfolding bulk_revoke
  bulk_revoke-IsClosed t req now user st c =
      let ids = select_targets req now st.db.pats in
      let changed =
        update-IsClosed t st.db.pats (in_targets ids)
          (set_bulk_revoked user.sub now (reason_or req.reason)) (λ p. refl) (λ p h. refl) c in
      elim (Bool-cases (has_role user (codes "platform-admin"))) [
        | inr e ↦ rw e c
        | inl e ↦
            elim (Bool-cases
              (is_empty req.token_ids && is_empty req.user_subs && not req.expired_only)) [
                | inl bad ↦ rw (e, bad) c
                | inr good ↦
                    rw (e, good)
                      (elim (Bool-cases (is_empty ids)) [
                        | inl nothing ↦ rw nothing c
                        | inr something ↦ rw something changed
                      ])
              ]
      ]
