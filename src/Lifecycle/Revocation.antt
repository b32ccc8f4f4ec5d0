-- ===== src/Lifecycle/Revocation.antt =====
-- Revoking is immediate and for good: by the owner or an administrator, and by a user event.
use api_portal.Prelude.{
  Bool-cases, List, Option, Text, [], arith, codes, contains, false, inl, inr, is_empty, none, not,
  refl, some, text_eq, text_eq_iff, text_eq_refl, true, ℕ, ◌&&◌, ◌||◌, ◌∷◌, ◌≡◌,
}
use api_portal.Config.{Settings}
use api_portal.Errors.{done}
use api_portal.Auth.{UserClaims, has_role}
use api_portal.Redis.{Redis, Host}
use api_portal.Redis.Client.{pat_key}
use api_portal.Database.{Pat, is_active}
use api_portal.Database.Pats.{
  find_pat, find_pat-update, find_pat-key, contains-select_ids, update_pats, by_id, select_ids,
}
use api_portal.Portal.{Portal}
use api_portal.Tokens.Revoke.{revoke_pat, revoke_found, set_revoked}
use api_portal.Internal.UserEvent.{
  UserLifecycleEvent, active_of, receive_user_event, upper, set_revoked_by_event,
}
use api_portal.Lifecycle.Coherence.{IsCoherent}
use api_portal.Lifecycle.Operations.{revoke_pat-IsCoherent, receive_user_event-IsCoherent}
use api_portal.Lifecycle.Closed.{IsClosed}
use api_portal.Lifecycle.Steps.{Reach}
use api_portal.Lifecycle.Final.{IsClosed-forever}

module _ (R : Redis) where
  -- The caller may revoke the token of the row.
  abbrev pub MayRevoke : Pat → UserClaims → Type 0
  MayRevoke p user =
      (not (text_eq p.user_sub user.sub) && not (has_role user (codes "platform-admin"))) ≡ false

  IsClosed-row :
      (t : Text) (user : UserClaims) (now : ℕ) (ps : List Pat) (p : Pat)
      → find_pat t ps ≡ some p
      → IsClosed t (update_pats (by_id t) (set_revoked user.sub now) ps)
  IsClosed-row t user now ps p e = (
    set_revoked user.sub now p,
    rw
        (
          find_pat-update t (by_id t) (set_revoked user.sub now) ps (λ q. refl),
          e,
          find_pat-key t ps p e,
          text_eq_refl t,
        )
        refl,
    refl,
  )

  revoke_found-eq :
      (t : Text) (user : UserClaims) (now : ℕ) (st : Portal R) (p : Pat) (found : Option Pat)
      → found ≡ some p
      → find_pat t st.db.pats ≡ some p
      → MayRevoke p user
      → ((revoke_found R t user now st found).0 ≡ done tt)
        × IsClosed t (revoke_found R t user now st found).1.db.pats
  unfolding revoke_found
  revoke_found-eq t user now st p none e f may = cc
  revoke_found-eq t user now st p (some q) e f may =
      let same : q ≡ p = ground arith in
      rw (same, may) (refl, IsClosed-row t user now st.db.pats p f)

  all_revoked :
      (t sub : Text) (now : ℕ) (reason : Text) (ps : List Pat) (p : Pat)
      → find_pat t ps ≡ some p
      → text_eq p.user_sub sub ≡ true
      → IsClosed t (update_pats (active_of sub) (set_revoked_by_event now reason) ps)
  all_revoked t sub now reason ps p e own = elim (Bool-cases (is_active p.status)) [
    | inl live ↦ (
      set_revoked_by_event now reason p,
      rw
          (
            find_pat-update t (active_of sub) (set_revoked_by_event now reason) ps (λ q. refl),
            e,
            own,
            live,
          )
          refl,
      refl,
    )
    | inr off ↦ (
      p,
      rw
          (
            find_pat-update t (active_of sub) (set_revoked_by_event now reason) ps (λ q. refl),
            e,
            own,
            off,
          )
          refl,
      off,
    )
  ]

  not_in : (ts : List Text) (t : Text) → is_empty ts ≡ true → contains ts t ≡ true → ⊥
  unfolding contains
  not_in [] t h k = cc
  not_in (u ∷ us) t h k = cc

  none_active :
      (t sub : Text) (ps : List Pat) (p : Pat)
      → find_pat t ps ≡ some p
      → text_eq p.user_sub sub ≡ true
      → is_empty (select_ids (active_of sub) ps) ≡ true
      → is_active p.status ≡ false
  none_active t sub ps p e own empty = elim (Bool-cases (is_active p.status)) [
    | inr off ↦ off
    | inl live ↦
        let listed = contains-select_ids t (active_of sub) ps p e (rw (own, live) refl) in
        absurd (not_in (select_ids (active_of sub) ps) t empty listed)
  ]

  event_closes :
      (t : Text) (event : UserLifecycleEvent) (now : ℕ) (st : Portal R) (p : Pat)
      → find_pat t st.db.pats ≡ some p
      → text_eq p.user_sub event.user_sub ≡ true
      → (text_eq (upper event.event_type) (codes "DISABLE")
          || text_eq (upper event.event_type) (codes "DELETE"))
        ≡ true
      → IsClosed t (receive_user_event R event now st).1.db.pats
  unfolding receive_user_event
  event_closes t event now st p e own kind =
      let ids = select_ids (active_of event.user_sub) st.db.pats in
      rw kind (elim (Bool-cases (is_empty ids)) [
        | inl empty ↦ rw empty (p, e, none_active t event.user_sub st.db.pats p e own empty)
        | inr listed ↦ rw listed (all_revoked t event.user_sub now _ st.db.pats p e own)
      ])

module _ (S : Settings) (R : Redis) (H : Host) where
  -- When the owner of a token or an administrator revokes it in a coherent state, the request
  -- succeeds, and in every state reachable from there the row is not active and no entry is cached.
  pub revoked_forever :
      (t : Text) (user : UserClaims) (now : ℕ) (st st' : Portal R) (p : Pat)
      → IsCoherent R H st
      → find_pat t st.db.pats ≡ some p
      → MayRevoke R p user
      → Reach S R H (revoke_pat R t user now st).1 st'
      → ((revoke_pat R t user now st).0 ≡ done tt)
        × IsClosed t st'.db.pats
        × (R.has_key st'.redis (pat_key t) ≡ false)
  unfolding revoke_pat
  revoked_forever t user now st st' p c e may r =
      let (reply, closed) = revoke_found-eq R t user now st p (find_pat t st.db.pats) e e may in
      let (off, gone) =
        IsClosed-forever S R H (revoke_pat R t user now st).1 st' t r
          (revoke_pat-IsCoherent R H t user now st c) closed in
      (reply, off, gone)

  -- When a user is disabled or deleted in a coherent state, each token of the user has a row that
  -- is not active and no cached entry, in every state reachable from there.
  pub disabled_forever :
      (t : Text) (event : UserLifecycleEvent) (now : ℕ) (st st' : Portal R) (p : Pat)
      → IsCoherent R H st
      → find_pat t st.db.pats ≡ some p
      → p.user_sub ≡ event.user_sub
      → (text_eq (upper event.event_type) (codes "DISABLE")
          || text_eq (upper event.event_type) (codes "DELETE"))
        ≡ true
      → Reach S R H (receive_user_event R event now st).1 st'
      → IsClosed t st'.db.pats × (R.has_key st'.redis (pat_key t) ≡ false)
  disabled_forever t event now st st' p c e own kind r =
      IsClosed-forever S R H (receive_user_event R event now st).1 st' t r
        (receive_user_event-IsCoherent R H event now st c)
        (event_closes R t event now st p e ((text_eq_iff p.user_sub event.user_sub).1 own) kind)
