-- ===== src/Lifecycle/Coherence.antt =====
-- The cached entries mirror the active rows of `cdp.pat`: this is what makes the gateway, which
-- reads the cache first, agree with the database.
use api_portal.Prelude.{
  Bool, Bool-cases, List, Text, ap, codes, false, if◌then◌else◌, inl, inr, lookup, ltb, ltb→lt,
  refl, some, text_eq, text_eq-append, text_eq_iff, text_eq_refl, true, ℕ, ◌||◌, ◌∙◌, ◌≡◌,
}
use api_portal.Redis.{Redis, Host, or_else}
use api_portal.Redis.Client.{PatMeta, pat_key, meta_fields, cache_pat_meta}
use api_portal.Redis.Client.Effects.{Shrinks}
use api_portal.Database.{Pat, is_active}
use api_portal.Database.Pats.{find_pat, find_pat-update, update_pats, KeepsKey}
use api_portal.Portal.{Portal}

module _ (R : Redis) (H : Host) where
  open R use {Store, has_key, hget, hset, expire}

  -- The entry of a token holds what the row says.
  pub record Mirrors (s : Store) (t : Text) (p : Pat) : Type 0 where
    pub alive : is_active p.status ≡ true
    pub hash_field : hget s (pat_key t) (codes "hash") ≡ some p.token_hmac
    pub sub_field : hget s (pat_key t) (codes "sub") ≡ some p.user_sub
    pub scopes_field : hget s (pat_key t) (codes "scopes") ≡ some (H.dumps p.scopes)
    pub status_field : hget s (pat_key t) (codes "status") ≡ some (codes "ACTIVE")

  -- Every cached token has a row that its entry mirrors.
  abbrev pub Coheres : Store → List Pat → Type 0
  Coheres s ps =
      (t : Text)
      → has_key s (pat_key t) ≡ true
      → (p : Pat) × (find_pat t ps ≡ some p) × Mirrors s t p

  abbrev pub IsCoherent : Portal R → Type 0
  IsCoherent st = Coheres st.redis st.db.pats

  -- Entries that are left after a loss mirror the same rows.
  pub Mirrors-Shrinks :
      (s s' : Store) (t : Text) (p : Pat)
      → Shrinks R s s'
      → has_key s' (pat_key t) ≡ true
      → Mirrors s t p
      → Mirrors s' t p
  Mirrors-Shrinks s s' t p sh h m = record {
    alive = m.alive;
    hash_field = sh.fields (pat_key t) (codes "hash") h ∙ m.hash_field;
    sub_field = sh.fields (pat_key t) (codes "sub") h ∙ m.sub_field;
    scopes_field = sh.fields (pat_key t) (codes "scopes") h ∙ m.scopes_field;
    status_field = sh.fields (pat_key t) (codes "status") h ∙ m.status_field;
  }

  -- An update of rows whose entries are gone, and a loss of entries, keep the cache coherent.
  pub update-Coheres :
      (s s' : Store) (ps : List Pat) (test : Pat → Bool) (set : Pat → Pat)
      → KeepsKey set
      → Shrinks R s s'
      → ((t : Text) (p : Pat)
          → find_pat t ps ≡ some p
          → has_key s' (pat_key t) ≡ true
          → is_active p.status ≡ true
          → test p ≡ false)
      → Coheres s ps
      → Coheres s' (update_pats test set ps)
  update-Coheres s s' ps test set keeps sh spared c t h =
      let (p, found, m) = c t (sh.keys (pat_key t) h) in
      (
        p,
        rw (find_pat-update t test set ps keeps, found, spared t p found h m.alive) refl,
        Mirrors-Shrinks s s' t p sh h m,
      )

  pub Shrinks-Coheres :
      (s s' : Store) (ps : List Pat) → Shrinks R s s' → Coheres s ps → Coheres s' ps
  Shrinks-Coheres s s' ps sh c t h =
      let (p, found, m) = c t (sh.keys (pat_key t) h) in (p, found, Mirrors-Shrinks s s' t p sh h m)

  has_key-cache_pat_meta :
      (t : Text) (meta : PatMeta) (ttl : ℕ) (s : Store) (j : Text)
      → has_key (cache_pat_meta R H t meta ttl s) j ≡ (text_eq (pat_key t) j || has_key s j)
  unfolding cache_pat_meta
  has_key-cache_pat_meta t meta ttl s j =
      let m = meta_fields H meta in
      elim (Bool-cases (ltb 0 ttl)) [
        | inl e ↦ rw e (
            R.has_key-expire (pat_key t) j ttl (hset (pat_key t) m s) (ltb→lt 0 ttl e)
            ∙ R.has_key-hset (pat_key t) j m s)
        | inr e ↦ rw e (R.has_key-hset (pat_key t) j m s)
      ]

  hget-cache_pat_meta :
      (t : Text) (meta : PatMeta) (ttl : ℕ) (s : Store) (j f : Text)
      → hget (cache_pat_meta R H t meta ttl s) j f ≡ (
          if text_eq (pat_key t) j
          then or_else (lookup f (meta_fields H meta)) (hget s j f)
          else hget s j f)
  unfolding cache_pat_meta
  hget-cache_pat_meta t meta ttl s j f =
      let m = meta_fields H meta in
      elim (Bool-cases (ltb 0 ttl)) [
        | inl e ↦ rw e (
            R.hget-expire (pat_key t) j f ttl (hset (pat_key t) m s) (ltb→lt 0 ttl e)
            ∙ R.hget-hset (pat_key t) j f m s)
        | inr e ↦ rw e (R.hget-hset (pat_key t) j f m s)
      ]

  -- The metadata of an active row.
  pub record Describes (meta : PatMeta) (p : Pat) : Type 0 where
    pub is_alive : is_active p.status ≡ true
    pub hmac : meta.hmac ≡ p.token_hmac
    pub sub : meta.sub ≡ p.user_sub
    pub scopes : meta.scopes ≡ p.scopes
    pub status : meta.status ≡ codes "ACTIVE"

  -- A field of the entry that was written.
  pub own_field :
      (t : Text) (meta : PatMeta) (ttl : ℕ) (s : Store) (f v : Text)
      → lookup f (meta_fields H meta) ≡ some v
      → hget (cache_pat_meta R H t meta ttl s) (pat_key t) f ≡ some v
  own_field t meta ttl s f v e =
      rw (hget-cache_pat_meta t meta ttl s (pat_key t) f, text_eq_refl (pat_key t), e) refl

  other_field :
      (t u : Text) (meta : PatMeta) (ttl : ℕ) (s : Store) (f : Text)
      → text_eq t u ≡ false
      → hget (cache_pat_meta R H t meta ttl s) (pat_key u) f ≡ hget s (pat_key u) f
  other_field t u meta ttl s f e =
      rw (hget-cache_pat_meta t meta ttl s (pat_key u) f, text_eq-append (codes "cdp:pat:") t u, e)
        refl

  own_Mirrors :
      (t : Text) (meta : PatMeta) (ttl : ℕ) (s : Store) (p : Pat)
      → Describes meta p
      → Mirrors (cache_pat_meta R H t meta ttl s) t p
  unfolding meta_fields lookup text_eq
  own_Mirrors t meta ttl s p d = record {
    alive = d.is_alive;
    hash_field = own_field t meta ttl s (codes "hash") p.token_hmac (ap some d.hmac);
    sub_field = own_field t meta ttl s (codes "sub") p.user_sub (ap some d.sub);
    scopes_field =
        own_field t meta ttl s (codes "scopes") (H.dumps p.scopes)
          (ap (λ x. some (H.dumps x)) d.scopes);
    status_field = own_field t meta ttl s (codes "status") (codes "ACTIVE") (ap some d.status);
  }

  -- Writing the entry of an active row keeps the cache coherent, if the other rows stay.
  pub cache-Coheres :
      (s : Store) (ps ps' : List Pat) (t : Text) (meta : PatMeta) (ttl : ℕ) (p : Pat)
      → find_pat t ps' ≡ some p
      → ((u : Text) → text_eq t u ≡ false → find_pat u ps' ≡ find_pat u ps)
      → Describes meta p
      → Coheres s ps
      → Coheres (cache_pat_meta R H t meta ttl s) ps'
  cache-Coheres s ps ps' t meta ttl p found others d c u h = elim (Bool-cases (text_eq t u)) [
    | inl e ↦
        let same : t ≡ u = (text_eq_iff t u).0 e in
        (p, rw (← same) found, rw (← same) (own_Mirrors t meta ttl s p d))
    | inr e ↦
        let old : has_key s (pat_key u) ≡ true =
          rw
            (
              has_key-cache_pat_meta t meta ttl s (pat_key u),
              text_eq-append (codes "cdp:pat:") t u,
              e,
            )
            at h in
        let (q, found_q, m) = c u old in
        (
          q,
          others u e ∙ found_q,
          record {
            alive = m.alive;
            hash_field = other_field t u meta ttl s (codes "hash") e ∙ m.hash_field;
            sub_field = other_field t u meta ttl s (codes "sub") e ∙ m.sub_field;
            scopes_field = other_field t u meta ttl s (codes "scopes") e ∙ m.scopes_field;
            status_field = other_field t u meta ttl s (codes "status") e ∙ m.status_field;
          },
        )
  ]
