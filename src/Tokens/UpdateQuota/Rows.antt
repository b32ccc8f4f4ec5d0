-- ===== src/Tokens/UpdateQuota/Rows.antt =====
-- What `UPDATE cdp.quota_policy` of `update_quota` (services/portal-backend/routers/tokens.py) does
-- to the rows, said of each row and each column.
use api_portal.Prelude.{
  Bool-cases, List, Option, Text, [], false, inl, inr, none, refl, some, text_eq, text_eq_iff, true,
  ℕ, ◌∷◌, ◌≡◌, ◌≢◌, ◌⊎◌,
}
use api_portal.Database.{Quota}
use api_portal.Tokens.UpdateQuota.{QuotaPatchRequest, new_or_old, set_quota, update_quotas}

-- A column that the request gives has the value given; another one keeps its value.
abbrev pub Column : Option ℕ → ℕ → ℕ → Type 0
Column none old new = new ≡ old
Column (some n) old new = new ≡ n

-- The row of the token.
pub record HasLimits (req : QuotaPatchRequest) (sub : Text) (q q' : Quota) : Type 0 where
  pub token_id : q'.token_id ≡ q.token_id
  pub rate_limit_tps : Column req.rate_limit_tps q.rate_limit_tps q'.rate_limit_tps
  pub burst : Column req.burst q.burst q'.burst
  pub daily_quota : Column req.daily_quota q.daily_quota q'.daily_quota
  pub monthly_quota : Column req.monthly_quota q.monthly_quota q'.monthly_quota
  pub concurrency : Column req.concurrency q.concurrency q'.concurrency
  pub updated_by : q'.updated_by ≡ some sub

-- Row by row: one of the token has the limits, one of another token is as it was.
abbrev pub AreUpdated : QuotaPatchRequest → Text → Text → List Quota → List Quota → Type 0
AreUpdated req sub t [] [] = Unit {0}
AreUpdated req sub t (q ∷ qs) (q' ∷ qs') =
    (((q.token_id ≡ t) × HasLimits req sub q q') ⊎ ((q.token_id ≢ t) × (q' ≡ q)))
    × AreUpdated req sub t qs qs'
AreUpdated req sub t _ _ = ⊥

new_or_old-Column : (n : Option ℕ) (old : ℕ) → Column n old (new_or_old n old)
new_or_old-Column none old = refl
new_or_old-Column (some n) old = refl

set_quota-HasLimits :
    (req : QuotaPatchRequest) (sub : Text) (q : Quota) → HasLimits req sub q (set_quota req sub q)
unfolding set_quota
set_quota-HasLimits req sub q = record {
  token_id = refl;
  rate_limit_tps = new_or_old-Column req.rate_limit_tps q.rate_limit_tps;
  burst = new_or_old-Column req.burst q.burst;
  daily_quota = new_or_old-Column req.daily_quota q.daily_quota;
  monthly_quota = new_or_old-Column req.monthly_quota q.monthly_quota;
  concurrency = new_or_old-Column req.concurrency q.concurrency;
  updated_by = refl;
}

differs : (s t : Text) → text_eq s t ≡ false → s ≢ t
differs s t e h = let wrong : true ≡ false = rw ((text_eq_iff s t).1 h) at e in cc wrong

pub update_quotas-AreUpdated :
    (req : QuotaPatchRequest) (sub t : Text) (qs : List Quota)
    → AreUpdated req sub t qs (update_quotas req sub t qs)
unfolding update_quotas
update_quotas-AreUpdated req sub t [] = tt
update_quotas-AreUpdated req sub t (q ∷ qs) =
    let rest = update_quotas-AreUpdated req sub t qs in
    elim (Bool-cases (text_eq q.token_id t)) [
      | inl e ↦ rw e (inl ((text_eq_iff q.token_id t).0 e, set_quota-HasLimits req sub q), rest)
      | inr e ↦ rw e (inr (differs q.token_id t e, refl), rest)
    ]
