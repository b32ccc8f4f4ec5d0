-- ===== src/Lifecycle/Steps.antt =====
-- One step of the life of the tokens, and any number of them.
use api_portal.Prelude.{Bool, List, Text, ℕ, ◌≡◌}
use api_portal.Config.{Settings}
use api_portal.Auth.{UserClaims}
use api_portal.Redis.{Redis, Host}
use api_portal.Redis.Client.Effects.{Shrinks}
use api_portal.Portal.{Portal}
use api_portal.Tokens.Issue.{TokenIssueRequest, IssueInput, issue_pat}
use api_portal.Tokens.Revoke.{revoke_pat}
use api_portal.Tokens.UpdateQuota.{QuotaPatchRequest, update_quota}
use api_portal.Internal.Meta.{get_pat_meta}
use api_portal.Internal.UserEvent.{UserLifecycleEvent, receive_user_event}
use api_portal.Internal.AuditBatch.{AuditBatchItem, receive_audit_batch}
use api_portal.AdminTokens.{BulkRevokeRequest, bulk_revoke}
use api_portal.Batch.Jobs.{bat_cdp_03, bat_cdp_04}
use api_portal.Lifecycle.Coherence.{IsCoherent, Shrinks-Coheres}
use api_portal.Lifecycle.Operations.{
  revoke_pat-IsCoherent, receive_user_event-IsCoherent, bulk_revoke-IsCoherent,
  get_pat_meta-IsCoherent,
}
use api_portal.Lifecycle.Jobs.{issue_pat-IsCoherent, bat_cdp_03-IsCoherent, bat_cdp_04-IsCoherent}
use api_portal.Lifecycle.Limits.{update_quota-IsCoherent, receive_audit_batch-Coheres}

module _ (S : Settings) (R : Redis) (H : Host) where
  -- A request, a job, the loss of cached entries, or a request that touches neither the tokens nor
  -- the cache.
  pub data Step : Portal R → Portal R → Type 0 where
    issues :
        (st : Portal R) (req : TokenIssueRequest) (input : IssueInput) (user : UserClaims)
        → Step st (issue_pat S R H req input user st).1
    revokes :
        (st : Portal R) (t : Text) (user : UserClaims) (now : ℕ)
        → Step st (revoke_pat R t user now st).1
    limits :
        (st : Portal R) (t : Text) (req : QuotaPatchRequest) (user : UserClaims)
        → Step st (update_quota R H t req user st).1
    reloads : (st : Portal R) (t : Text) (now : ℕ) → Step st (get_pat_meta R H t now st).1
    receives :
        (st : Portal R) (event : UserLifecycleEvent) (now : ℕ)
        → Step st (receive_user_event R event now st).1
    reports :
        (st : Portal R) (accepts : AuditBatchItem → Bool) (now : ℕ) (batch : List AuditBatchItem)
        → Step st (record st { db = (receive_audit_batch accepts now batch st.db).1 })
    bulk_revokes :
        (st : Portal R) (req : BulkRevokeRequest) (now : ℕ) (user : UserClaims)
        → Step st (bulk_revoke R req now user st).1
    expires : (st : Portal R) (now : ℕ) → Step st (bat_cdp_03 R now st)
    inactivates : (st : Portal R) (now : ℕ) → Step st (bat_cdp_04 R now st)
    loses : (st : Portal R) (s : R.Store) → Shrinks R st.redis s → Step st (record st { redis = s })
    elsewhere : (st st' : Portal R) → st'.redis ≡ st.redis → st'.db.pats ≡ st.db.pats → Step st st'

  pub data Reach (st : Portal R) : Portal R → Type 0 where
    here : Reach st st
    next : {t u : Portal R} → Reach st t → Step t u → Reach st u

  Step-IsCoherent : {st st' : Portal R} → Step st st' → IsCoherent R H st → IsCoherent R H st'
  Step-IsCoherent (issues st req input user) c = issue_pat-IsCoherent R H S req input user st c
  Step-IsCoherent (revokes st t user now) c = revoke_pat-IsCoherent R H t user now st c
  Step-IsCoherent (limits st t req user) c = update_quota-IsCoherent R H t req user st c
  Step-IsCoherent (reloads st t now) c = get_pat_meta-IsCoherent R H t now st c
  Step-IsCoherent (receives st event now) c = receive_user_event-IsCoherent R H event now st c
  Step-IsCoherent (reports st accepts now batch) c =
      receive_audit_batch-Coheres R H accepts now batch st.db st.redis c
  Step-IsCoherent (bulk_revokes st req now user) c = bulk_revoke-IsCoherent R H req now user st c
  Step-IsCoherent (expires st now) c = bat_cdp_03-IsCoherent R H now st c
  Step-IsCoherent (inactivates st now) c = bat_cdp_04-IsCoherent R H now st c
  Step-IsCoherent (loses st s sh) c = Shrinks-Coheres R H st.redis s st.db.pats sh c
  Step-IsCoherent (elsewhere st st' same rows) c = rw (same, rows) c

  -- From a coherent state every reachable state is coherent: each cached token has an active row,
  -- and its entry holds the HMAC, the owner, the scopes and the status of that row.
  pub Reach-IsCoherent : {st st' : Portal R} → Reach st st' → IsCoherent R H st → IsCoherent R H st'
  Reach-IsCoherent here c = c
  Reach-IsCoherent (next r step) c = Step-IsCoherent step (Reach-IsCoherent r c)
