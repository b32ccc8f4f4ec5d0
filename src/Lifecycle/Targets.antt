-- ===== src/Lifecycle/Targets.antt =====
-- Tokens that change in the database while their cached entries go.
use api_portal.Prelude.{
  Bool, Bool-cases, List, Text, [], contains, false, inl, inr, some, sym, text_eq, text_eq_iff,
  text_eq_refl, true, ◌∙◌, ◌∷◌, ◌≡◌,
}
use api_portal.Redis.{Redis, Host}
use api_portal.Redis.Client.{pat_key, invalidate_pat}
use api_portal.Redis.Client.Effects.{
  Shrinks, Shrinks-refl, Shrinks-trans, gone-Shrinks, invalidate_pat-Shrinks,
}
use api_portal.Database.{Pat, is_active}
use api_portal.Database.Pats.{KeepsKey, find_pat, find_pat-key, update_pats, by_id}
use api_portal.Internal.UserEvent.{invalidate_pats}
use api_portal.Lifecycle.Coherence.{Coheres, update-Coheres}

module _ (R : Redis) where
  open R use {Store, has_key}

  -- A list of tokens is invalidated: their entries are gone.
  pub invalidate_pats-Shrinks :
      (ts : List Text) (s : Store)
      → Shrinks R s (invalidate_pats R ts s)
        × ((t : Text) → contains ts t ≡ true → has_key (invalidate_pats R ts s) (pat_key t) ≡ false)
  unfolding invalidate_pats contains
  invalidate_pats-Shrinks [] s = (Shrinks-refl R s, λ t h. cc)
  invalidate_pats-Shrinks (u ∷ us) s =
      let (first, gone) = invalidate_pat-Shrinks R u s in
      let s' = invalidate_pat R u s in
      let (rest, all_gone) = invalidate_pats-Shrinks us s' in
      (
        Shrinks-trans R s s' (invalidate_pats R us s') first rest,
        λ t h. elim (Bool-cases (text_eq u t)) [
          | inl e ↦
              gone-Shrinks R (pat_key t) s' (invalidate_pats R us s') rest
                (rw (← (text_eq_iff u t).0 e) gone)
          | inr e ↦ all_gone t (rw e at h)
        ],
      )

module _ (R : Redis) (H : Host) where
  there_gone {ℓ} : {A : Type ℓ} (b : Bool) → b ≡ true → b ≡ false → A
  there_gone b h k = cc

  -- Rows of a set of tokens change, and their entries go.
  pub targets-Coheres :
      (s : R.Store) (ps : List Pat) (ts : List Text) (test : Pat → Bool) (set : Pat → Pat)
      → KeepsKey set
      → ((t : Text) (p : Pat)
          → find_pat t ps ≡ some p
          → is_active p.status ≡ true
          → test p ≡ true
          → contains ts t ≡ true)
      → Coheres R H s ps
      → Coheres R H (invalidate_pats R ts s) (update_pats test set ps)
  targets-Coheres s ps ts test set keeps listed =
      let (sh, gone) = invalidate_pats-Shrinks R ts s in
      update-Coheres R H s (invalidate_pats R ts s) ps test set keeps sh λ t p found h alive.
        elim (Bool-cases (test p)) [
          | inl e ↦ there_gone _ h (gone t (listed t p found alive e))
          | inr e ↦ e
        ]

  contains_one : (t u : Text) → t ≡ u → contains (t ∷ []) u ≡ true
  unfolding contains
  contains_one t u e = rw (e, text_eq_refl u)

  -- The row of one token changes, and its entry goes.
  pub one-Coheres :
      (s : R.Store) (ps : List Pat) (t : Text) (set : Pat → Pat)
      → KeepsKey set
      → Coheres R H s ps
      → Coheres R H (invalidate_pat R t s) (update_pats (by_id t) set ps)
  unfolding invalidate_pats
  one-Coheres s ps t set keeps = targets-Coheres s ps (t ∷ []) (by_id t) set keeps λ u p found a h.
      contains_one t u (sym ((text_eq_iff p.token_id t).0 h) ∙ find_pat-key u ps p found)
