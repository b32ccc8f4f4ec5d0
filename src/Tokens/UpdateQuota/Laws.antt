-- ===== src/Tokens/UpdateQuota/Laws.antt =====
-- What `update_quota` changes in the cached entry of a token: the fields of the request reach Redis
-- under the names of the request, and redis_client.py looks for the names of the columns.
use mathlib.Core.List.{append-nil}
use api_portal.Prelude.{
  List, Option, Text, [], codes, false, if◌then◌else◌, is_empty, lookup, none, refl, some, text_eq,
  text_eq_refl, true, ℕ, ◌++◌, ◌∙◌, ◌∷◌, ◌≡◌,
}
use api_portal.Auth.{UserClaims, has_role}
use api_portal.Redis.{Redis, Host, or_else}
use api_portal.Redis.Client.{pat_key, field_of, quota_fields, update_pat_quota_in_redis}
use api_portal.Database.{Pat}
use api_portal.Database.Pats.{find_pat}
use api_portal.Portal.{Portal}
use api_portal.Tokens.UpdateQuota.{QuotaPatchRequest, given, model_dump, update_quota}
use api_portal.Tokens.UpdateQuota.Rows.{AreUpdated, update_quotas-AreUpdated}

lookup-given :
    (k name : Text) (n : Option ℕ) (rest : List (Text × ℕ))
    → text_eq name k ≡ false
    → lookup k (given name n ++ rest) ≡ lookup k rest
unfolding lookup
lookup-given k name none rest e = refl
lookup-given k name (some n) rest e = rw e

lookup-given_last :
    (k name : Text) (n : Option ℕ) → text_eq name k ≡ false → lookup k (given name n) ≡ none
unfolding lookup
lookup-given_last k name none e = refl
lookup-given_last k name (some n) e = rw e

lookup-given_own :
    (k : Text) (n : Option ℕ) (rest : List (Text × ℕ))
    → lookup k rest ≡ none
    → lookup k (given k n ++ rest) ≡ n
unfolding lookup
lookup-given_own k none rest e = e
lookup-given_own k (some n) rest e = rw (text_eq_refl k)

-- A name that is none of the request's names is not in the dict.
not_dumped :
    (k : Text) (req : QuotaPatchRequest)
    → text_eq (codes "rateLimitTps") k ≡ false
    → text_eq (codes "burst") k ≡ false
    → text_eq (codes "dailyQuota") k ≡ false
    → text_eq (codes "monthlyQuota") k ≡ false
    → text_eq (codes "concurrency") k ≡ false
    → lookup k (model_dump req) ≡ none
unfolding model_dump
not_dumped k req a b c d e =
    lookup-given k (codes "rateLimitTps") req.rate_limit_tps _ a
    ∙ lookup-given k (codes "burst") req.burst _ b
    ∙ lookup-given k (codes "dailyQuota") req.daily_quota _ c
    ∙ lookup-given k (codes "monthlyQuota") req.monthly_quota _ d
    ∙ lookup-given_last k (codes "concurrency") req.concurrency e

dumped_burst : (req : QuotaPatchRequest) → lookup (codes "burst") (model_dump req) ≡ req.burst
unfolding model_dump text_eq
dumped_burst req =
    let k = codes "burst" in
    lookup-given k (codes "rateLimitTps") req.rate_limit_tps _ refl
    ∙ lookup-given_own k req.burst _ (
        lookup-given k (codes "dailyQuota") req.daily_quota _ refl
        ∙ lookup-given k (codes "monthlyQuota") req.monthly_quota _ refl
        ∙ lookup-given_last k (codes "concurrency") req.concurrency refl)

append_nil : (l : List (Text × Text)) → l ++ [] ≡ l
append_nil l = append-nil l

-- Of the four fields only the burst is found.
pub quota_fields-model_dump :
    (H : Host) (req : QuotaPatchRequest)
    → quota_fields H (model_dump req) ≡ field_of H (codes "burst") req.burst
unfolding quota_fields text_eq
quota_fields-model_dump H req =
    rw
      (
        not_dumped (codes "rate_limit_tps") req refl refl refl refl refl,
        dumped_burst req,
        not_dumped (codes "daily_quota") req refl refl refl refl refl,
        not_dumped (codes "monthly_quota") req refl refl refl refl refl,
      )
      (append-nil (field_of H (codes "burst") req.burst))

module _ (R : Redis) (H : Host) where
  open R use {Store, has_key, hget, hset}

  burst_written :
      (s : Store) (t f : Text) (burst : Option ℕ)
      → hget
          (if is_empty (field_of H (codes "burst") burst)
            then s
            else hset (pat_key t) (field_of H (codes "burst") burst) s)
          (pat_key t)
          f
        ≡ or_else (lookup f (field_of H (codes "burst") burst)) (hget s (pat_key t) f)
  unfolding lookup
  burst_written s t f none = refl
  burst_written s t f (some n) =
      R.hget-hset (pat_key t) (pat_key t) f ((codes "burst", H.str n) ∷ []) s
      ∙ rw (text_eq_refl (pat_key t)) refl

  pub hget-update_pat_quota :
      (t f : Text) (req : QuotaPatchRequest) (s : Store)
      → has_key s (pat_key t) ≡ true
      → hget (update_pat_quota_in_redis R H t (model_dump req) s) (pat_key t) f
        ≡ or_else (lookup f (field_of H (codes "burst") req.burst)) (hget s (pat_key t) f)
  unfolding update_pat_quota_in_redis
  hget-update_pat_quota t f req s cached =
      rw (cached, quota_fields-model_dump H req) (burst_written s t f req.burst)

  -- An admin's change of the limits of a cached token, with at least one limit given. In each quota
  -- row of the token every given limit has the value given, the other limits keep theirs, and the
  -- admin is noted; the rows of other tokens are as they were. In the cached entry no field but the
  -- burst is written: every other field keeps the value that it had.
  pub update_quota_lem :
      (t f : Text) (req : QuotaPatchRequest) (user : UserClaims) (st : Portal R) (pat : Pat)
      → has_role user (codes "platform-admin") ≡ true
      → find_pat t st.db.pats ≡ some pat
      → has_key st.redis (pat_key t) ≡ true
      → is_empty (model_dump req) ≡ false
      → AreUpdated req user.sub t st.db.quotas (update_quota R H t req user st).1.db.quotas
        × (hget (update_quota R H t req user st).1.redis (pat_key t) f
            ≡ or_else
                (lookup f (field_of H (codes "burst") req.burst))
                (hget st.redis (pat_key t) f))
  unfolding update_quota
  update_quota_lem t f req user st pat admin found cached given =
      rw (admin, found, given)
        (
          update_quotas-AreUpdated req user.sub t st.db.quotas,
          hget-update_pat_quota t f req st.redis cached,
        )
