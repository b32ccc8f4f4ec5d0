-- ===== src/Lifecycle/Operations.antt =====
-- The requests that revoke or reload tokens keep the cache coherent.
use api_portal.Prelude.{
  Bool-cases, List, Option, Text, codes, contains, inl, inr, is_empty, ltb, none, not, refl, some,
  text_eq, true, ℕ, ◌&&◌, ◌-◌, ◌/◌, ◌||◌, ◌≡◌,
}
use api_portal.Auth.{UserClaims, has_role}
use api_portal.Redis.{Redis, Host}
use api_portal.Redis.Client.Effects.{invalidate_jwt_cache-Shrinks}
use api_portal.Database.{Pat, PatStatus, Quota, is_active, active, revoked, expired, inactive}
use api_portal.Database.Pats.{find_pat, find_pat-key, contains-select_ids, select_ids}
use api_portal.Portal.{Portal}
use api_portal.Tokens.Revoke.{set_revoked, revoke_found, revoke_pat}
use api_portal.Internal.Meta.{get_pat_meta, meta_found, meta_of, find_quota, status_text}
use api_portal.Internal.UserEvent.{
  UserLifecycleEvent, active_of, receive_user_event, upper, set_revoked_by_event,
}
use api_portal.AdminTokens.{
  BulkRevokeRequest, bulk_revoke, select_targets, in_targets, reason_or, set_bulk_revoked,
}
use api_portal.Lifecycle.Coherence.{IsCoherent, Shrinks-Coheres, cache-Coheres}
use api_portal.Lifecycle.Targets.{targets-Coheres, one-Coheres}

active_text : (s : PatStatus) → is_active s ≡ true → status_text s ≡ codes "ACTIVE"
active_text active h = refl
active_text revoked h = cc
active_text expired h = cc
active_text inactive h = cc

module _ (R : Redis) (H : Host) where
  revoke_found-IsCoherent :
      (t : Text) (user : UserClaims) (now : ℕ) (st : Portal R) (found : Option Pat)
      → IsCoherent R H st
      → IsCoherent R H (revoke_found R t user now st found).1
  unfolding revoke_found
  revoke_found-IsCoherent t user now st none c = c
  revoke_found-IsCoherent t user now st (some pat) c =
      elim (Bool-cases
        (not (text_eq pat.user_sub user.sub) && not (has_role user (codes "platform-admin")))) [
          | inl e ↦ rw e c
          | inr e ↦
              rw e (one-Coheres R H st.redis st.db.pats t (set_revoked user.sub now) (λ p. refl) c)
        ]

  pub revoke_pat-IsCoherent :
      (t : Text) (user : UserClaims) (now : ℕ) (st : Portal R)
      → IsCoherent R H st
      → IsCoherent R H (revoke_pat R t user now st).1
  unfolding revoke_pat
  revoke_pat-IsCoherent t user now st =
      revoke_found-IsCoherent t user now st (find_pat t st.db.pats)

  pub receive_user_event-IsCoherent :
      (event : UserLifecycleEvent) (now : ℕ) (st : Portal R)
      → IsCoherent R H st
      → IsCoherent R H (receive_user_event R event now st).1
  unfolding receive_user_event
  receive_user_event-IsCoherent event now st c =
      let ids = select_ids (active_of event.user_sub) st.db.pats in
      let kind = upper event.event_type in
      elim (Bool-cases (text_eq kind (codes "DISABLE") || text_eq kind (codes "DELETE"))) [
        | inl e ↦ rw e (elim (Bool-cases (is_empty ids)) [
          | inl none_left ↦ rw none_left c
          | inr some_left ↦ rw some_left (
              targets-Coheres R H st.redis st.db.pats ids (active_of event.user_sub)
                (set_revoked_by_event now _) (λ p. refl)
                (λ t p f a h. contains-select_ids t (active_of event.user_sub) st.db.pats p f h) c)
        ])
        | inr e ↦ rw e (elim (Bool-cases (text_eq kind (codes "LOGOUT"))) [
          | inl out ↦ rw out (
              Shrinks-Coheres R H st.redis _ st.db.pats
                (invalidate_jwt_cache-Shrinks R ids st.redis) c)
          | inr other ↦ rw other c
        ])
      ]

  contains-in_targets :
      (ids : List Text) (t : Text) (ps : List Pat) (p : Pat)
      → find_pat t ps ≡ some p
      → in_targets ids p ≡ true
      → contains ids t ≡ true
  contains-in_targets ids t ps p found h = rw (find_pat-key t ps p found) at h

  pub bulk_revoke-IsCoherent :
      (req : BulkRevokeRequest) (now : ℕ) (user : UserClaims) (st : Portal R)
      → IsCoherent R H st
      → IsCoherent R H (bulk_revoke R req now user st).1
  unfolding bulk_revoke
  bulk_revoke-IsCoherent req now user st c =
      let ids = select_targets req now st.db.pats in
      let changed =
        targets-Coheres R H st.redis st.db.pats ids (in_targets ids)
          (set_bulk_revoked user.sub now (reason_or req.reason)) (λ p. refl)
          (λ t p f a h. contains-in_targets ids t st.db.pats p f h) c in
      elim (Bool-cases (has_role user (codes "platform-admin"))) [
        | inr e ↦ rw e c
        | inl e ↦
            elim (Bool-cases
              (is_empty req.token_ids && is_empty req.user_subs && not req.expired_only)) [
                | inl bad ↦ rw (e, bad) c
                | inr good ↦
                    rw (e, good)
                      (elim (Bool-cases (is_empty ids)) [
                        | inl nothing ↦ rw nothing c
                        | inr something ↦ rw something changed
                      ])
              ]
      ]

  meta_found-IsCoherent :
      (t : Text) (now : ℕ) (st : Portal R) (q : Option Quota) (found : Option Pat)
      → find_pat t st.db.pats ≡ found
      → IsCoherent R H st
      → IsCoherent R H (meta_found R H t now st q found).1
  unfolding meta_found
  meta_found-IsCoherent t now st q none e c = c
  meta_found-IsCoherent t now st q (some pat) e c = elim (Bool-cases (is_active pat.status)) [
    | inr closed ↦ rw closed c
    | inl live ↦ rw live (elim (Bool-cases (is_empty pat.token_hmac)) [
      | inl legacy ↦ rw legacy c
      | inr sound ↦ rw sound (elim (Bool-cases (ltb 0 ((pat.expires_at - now) / 1000000))) [
        | inr late ↦ rw late c
        | inl left ↦ rw left (
            cache-Coheres R H st.redis st.db.pats st.db.pats t (meta_of R H pat q) _ pat e
              (λ u h. refl)
              (record {
                is_alive = live;
                hmac = refl;
                sub = refl;
                scopes = refl;
                status = active_text pat.status live;
              })
              c)
      ])
    ])
  ]

  pub get_pat_meta-IsCoherent :
      (t : Text) (now : ℕ) (st : Portal R)
      → IsCoherent R H st
      → IsCoherent R H (get_pat_meta R H t now st).1
  unfolding get_pat_meta
  get_pat_meta-IsCoherent t now st =
      meta_found-IsCoherent t now st (find_quota t st.db.quotas) (find_pat t st.db.pats) refl
