-- ===== src/Tokens/Issue/Laws.antt =====
-- What `issue_pat` guarantees of the token that it returns, and what it leaves alone.
use api_portal.Prelude.{
  Bool-cases, Option, Text, and-true, ap, arith, codes, false, inl, inr, leb, leb→le, lookup, min,
  none, refl, some, text_eq, text_eq_iff, ℕ, ◌&&◌, ◌*◌, ◌+◌, ◌<◌, ◌∷◌, ◌≡◌, ◌≤◌, ◌⊎◌,
}
use api_portal.Config.{Settings}
use api_portal.Errors.{Reply, Code, done, cdp_error, http, cdp_4001, cdp_4003, cdp_4009}
use api_portal.Auth.{UserClaims}
use api_portal.Redis.{Redis, Host}
use api_portal.Database.{Db, Pat, Application}
use api_portal.Database.Pats.{find_pat}
use api_portal.Redis.Client.{pat_key, meta_fields}
use api_portal.Lifecycle.Coherence.{own_field}
use api_portal.Portal.{Portal}
use api_portal.PatUtils.Secret.{generate_secret}
use api_portal.PatUtils.Format.{build_pat}
use api_portal.Tokens.Issue.{
  TokenIssueRequest, IssueInput, Issued, new_pat, insert_pat, store_pat, audited, stored,
  audit_detail, new_quota, new_meta, issued_row, issue_for, issue_by_id, issue_pat,
  approved_application, answer, issued_of, end_of_day, active_per_app, active_per_user, day,
}

module _ (S : Settings) (R : Redis) (H : Host) where
  -- The approved application of an identifier as the request writes it.
  abbrev pub of_id : Option Text → Db → Option Application
  of_id none db = none
  of_id (some app_id) db = approved_application app_id db

  abbrev pub approved_for : Text → Db → Option Application
  approved_for app_id db = of_id (H.uuid app_id) db

  -- What the checks of `issue_pat` establish.
  pub record Allowed (req : TokenIssueRequest) (input : IssueInput) (user : UserClaims) (db : Db)
      (app : Application) : Type 0 where
    pub days : (1 ≤ req.valid_days) × (req.valid_days ≤ S.pat_max_days)
    pub approved : approved_for req.app_id db ≡ some app
    pub owner : app.user_sub ≡ user.sub
    pub window : input.checked_at < end_of_day app.valid_until
    pub per_app : active_per_app app.app_id db.pats < S.pat_max_per_app
    pub per_user : active_per_user user.sub db.pats < S.pat_max_per_user

  abbrev inserted :
      TokenIssueRequest → IssueInput → UserClaims → Portal R → Application → Reply Unit × Portal R
  inserted req input user st app =
      let p = new_pat S R H req input user app in
      insert_pat S R H (audit_detail req) p st (find_pat p.token_id st.db.pats)

  min-right : (a b : ℕ) → min a b ≤ b
  min-right a b = omega arith

  shorter : (a n m u : ℕ) → n ≤ m → min (a + n * day) u ≤ a + m * day
  shorter a n m u h = omega arith

  not_leb : (a b : ℕ) → leb a b ≡ false → b < a
  not_leb a b h = ground arith

  issue_for_cases :
      (Q : Reply Issued × Portal R → Type 0) (req : TokenIssueRequest) (input : IssueInput)
      (user : UserClaims) (st : Portal R) (found : Option Application)
      → approved_for req.app_id st.db ≡ found
      → (1 ≤ req.valid_days) × (req.valid_days ≤ S.pat_max_days)
      → ((c : Code) → Q (cdp_error c, st))
      → ((app : Application)
          → Allowed req input user st.db app
          → Q (
            answer S R H (inserted req input user st app).0 (issued_of S R H req input user app),
            (inserted req input user st app).1,
          ))
      → Q (issue_for S R H req input user st found)
  unfolding issue_for store_pat
  issue_for_cases Q req input user st none e d same stored = same cdp_4003
  issue_for_cases Q req input user st (some app) e d same stored =
      elim (Bool-cases (text_eq app.user_sub user.sub)) [
        | inr a ↦ rw a (same cdp_4003)
        | inl a ↦ rw a (elim (Bool-cases (leb (end_of_day app.valid_until) input.checked_at)) [
          | inl b ↦ rw b (same cdp_4009)
          | inr b ↦
              rw b
                (elim (Bool-cases (leb S.pat_max_per_app (active_per_app app.app_id st.db.pats))) [
                  | inl c ↦ rw c (same cdp_4009)
                  | inr c ↦
                      rw c
                        (elim (Bool-cases
                          (leb S.pat_max_per_user (active_per_user user.sub st.db.pats))) [
                            | inl f ↦ rw f (same cdp_4009)
                            | inr f ↦ rw f (
                                stored app (record {
                                  days = d;
                                  approved = e;
                                  owner = (text_eq_iff app.user_sub user.sub).0 a;
                                  window = not_leb _ _ b;
                                  per_app = not_leb _ _ c;
                                  per_user = not_leb _ _ f;
                                }))
                          ])
                ])
        ])
      ]

  issue_by_id_cases :
      (Q : Reply Issued × Portal R → Type 0) (req : TokenIssueRequest) (input : IssueInput)
      (user : UserClaims) (st : Portal R) (id : Option Text)
      → H.uuid req.app_id ≡ id
      → (1 ≤ req.valid_days) × (req.valid_days ≤ S.pat_max_days)
      → ((c : Code) → Q (cdp_error c, st))
      → Q (http 500, st)
      → ((app : Application)
          → Allowed req input user st.db app
          → Q (
            answer S R H (inserted req input user st app).0 (issued_of S R H req input user app),
            (inserted req input user st app).1,
          ))
      → Q (issue_by_id S R H req input user st id)
  unfolding issue_by_id
  issue_by_id_cases Q req input user st none e d same broken stored = broken
  issue_by_id_cases Q req input user st (some app_id) e d same broken stored =
      issue_for_cases Q req input user st (approved_application app_id st.db)
        (ap (λ id. of_id id st.db) e) d same stored

  -- `issue_pat` leaves the state as it was, or stores the new row of some application.
  pub issue_cases :
      (Q : Reply Issued × Portal R → Type 0) (req : TokenIssueRequest) (input : IssueInput)
      (user : UserClaims) (st : Portal R)
      → ((c : Code) → Q (cdp_error c, st))
      → Q (http 500, st)
      → ((app : Application)
          → Allowed req input user st.db app
          → Q (
            answer S R H (inserted req input user st app).0 (issued_of S R H req input user app),
            (inserted req input user st app).1,
          ))
      → Q (issue_pat S R H req input user st)
  unfolding issue_pat
  issue_cases Q req input user st same broken stored =
      elim (Bool-cases (leb 1 req.valid_days && leb req.valid_days S.pat_max_days)) [
        | inl e ↦
            let (low, high) =
              and-true (leb 1 req.valid_days) (leb req.valid_days S.pat_max_days) e in
            rw e (
              issue_by_id_cases Q req input user st (H.uuid req.app_id) refl
                (leb→le _ _ low, leb→le _ _ high) same broken stored)
        | inr e ↦ rw e (same cdp_4001)
      ]

  -- The row of a new token, next to the rows that were there.
  pub record IsStored (req : TokenIssueRequest) (input : IssueInput) (user : UserClaims)
      (st : Portal R) (app : Application) (p : Pat) (st' : Portal R) : Type 0 where
    pub pats : st'.db.pats ≡ p ∷ st.db.pats
    pub quotas : st'.db.quotas ≡ new_quota S R H p ∷ st.db.quotas
    pub free : find_pat p.token_id st.db.pats ≡ none
    pub app_id : p.app_id ≡ app.app_id
    pub digest : p.token_hash ≡ H.sha256_hex (generate_secret input.secret_bytes)
    pub owner : p.user_sub ≡ user.sub
    pub scopes : p.scopes ≡ app.granted_scopes
    pub within_use : p.expires_at ≤ end_of_day app.valid_until
    pub within_limit : p.expires_at ≤ input.issued_at + S.pat_max_days * day

  -- What a reply of `issue_pat` and the state after it promise, by the reply.
  abbrev pub Promise :
      TokenIssueRequest → IssueInput → UserClaims → Portal R → Reply Issued × Portal R → Type 0
  Promise req input user st (done i, st') =
      (app : Application) × (p : Pat) × Allowed req input user st.db app
      × IsStored req input user st app p st'
      × (i.token ≡ build_pat p.token_id (generate_secret input.secret_bytes))
      × (st'.db.audit_log ≡ issued_row S R H p ∷ st.db.audit_log)
  Promise req input user st (cdp_error c, st') = st' ≡ st
  Promise req input user st (http n, st') =
      (st' ≡ st)
      ⊎ ((app : Application) × (p : Pat) × Allowed req input user st.db app
          × (H.is_jsonb (audit_detail req) ≡ false)
          × IsStored req input user st app p st'
          × (st'.db.audit_log ≡ st.db.audit_log)
          × (R.hget st'.redis (pat_key p.token_id) (codes "hash") ≡ some p.token_hmac))

  new_pat-IsStored :
      (req : TokenIssueRequest) (input : IssueInput) (user : UserClaims) (st : Portal R)
      (app : Application) (st' : Portal R)
      → let p = new_pat S R H req input user app in
        find_pat p.token_id st.db.pats ≡ none
        → Allowed req input user st.db app
        → st'.db.pats ≡ p ∷ st.db.pats
        → st'.db.quotas ≡ new_quota S R H p ∷ st.db.quotas
        → IsStored req input user st app p st'
  new_pat-IsStored req input user st app st' e a pats quotas = record {
    pats = pats;
    quotas = quotas;
    free = e;
    app_id = refl;
    digest = refl;
    owner = refl;
    scopes = refl;
    within_use = min-right _ _;
    within_limit = shorter _ _ _ _ a.days.1;
  }

  cached_hash :
      (p : Pat) (st : Portal R)
      → R.hget (stored S R H p st).redis (pat_key p.token_id) (codes "hash") ≡ some p.token_hmac
  unfolding lookup meta_fields text_eq
  cached_hash p st =
      own_field R H p.token_id (new_meta S R H p) _ st.redis (codes "hash") p.token_hmac refl

  audited-Promise :
      (req : TokenIssueRequest) (input : IssueInput) (user : UserClaims) (st : Portal R)
      (app : Application)
      → find_pat (new_pat S R H req input user app).token_id st.db.pats ≡ none
      → Allowed req input user st.db app
      → let p = new_pat S R H req input user app in
        let r = audited S R H (audit_detail req) p (stored S R H p st) in
        Promise req input user st (answer S R H r.0 (issued_of S R H req input user app), r.1)
  unfolding audited
  audited-Promise req input user st app e a =
      let p = new_pat S R H req input user app in
      elim (Bool-cases (H.is_jsonb (audit_detail req))) [
        | inl j ↦
            rw j (app, p, a, new_pat-IsStored req input user st app _ e a refl refl, refl, refl)
        | inr j ↦ rw j (
            inr (
              app,
              p,
              a,
              j,
              new_pat-IsStored req input user st app _ e a refl refl,
              refl,
              cached_hash p st,
            ))
      ]

  insert-Promise :
      (req : TokenIssueRequest) (input : IssueInput) (user : UserClaims) (st : Portal R)
      (app : Application) (found : Option Pat)
      → find_pat (new_pat S R H req input user app).token_id st.db.pats ≡ found
      → Allowed req input user st.db app
      → let r = insert_pat S R H (audit_detail req) (new_pat S R H req input user app) st found in
        Promise req input user st (answer S R H r.0 (issued_of S R H req input user app), r.1)
  unfolding insert_pat
  insert-Promise req input user st app (some q) e a = inl refl
  insert-Promise req input user st app none e a = audited-Promise req input user st app e a

  -- Where `issue_pat` answers with a token, every check held, the new row and its quota are stored,
  -- one audit row is added, the id was free, the token is built of the id and the secret, the row
  -- holds the digest of the secret, the caller and the granted scopes, and it expires at the latest
  -- with the application and after the greatest number of days. Where it answers with an error of
  -- its own, the state is as it was. Where it ends with an exception, the state is as it was, or
  -- PostgreSQL refused the detail of the audit row: then every check held and the token is stored
  -- and cached all the same, and the audit log is as it was.
  pub issue_pat_lem :
      (req : TokenIssueRequest) (input : IssueInput) (user : UserClaims) (st : Portal R)
      → Promise req input user st (issue_pat S R H req input user st)
  issue_pat_lem req input user st =
      issue_cases (Promise req input user st) req input user st (λ c. refl) (inl refl)
        λ app a. insert-Promise req input user st app _ refl a
