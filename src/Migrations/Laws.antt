-- ===== src/Migrations/Laws.antt =====
-- What services/portal-backend/db_migrations.py leaves when it comes through.
use api_portal.Prelude.{
  Bool, Bool-cases, List, Option, Option-cases, Text, [], all, ap, arith, codes, false,
  if◌then◌else◌, inl, inr, is_some, keep, lookup, none, not, refl, some, sym, text_eq, text_eq_refl,
  true, ◌&&◌, ◌++◌, ◌||◌, ◌∙◌, ◌∷◌, ◌≡◌,
}
use api_portal.Migrations.{
  Schema, ScopeRow, table_exists, column_exists, upstream_url_column, is_seeded, seed_rows, alter,
  rename_table, rename_in, api_scope, api_endpoint, backfilled, move_upstream,
  migrate_endpoint_upstream, renamed, migrate_scope_table_to_endpoint, run_all,
}

abbrev has_table : Text → List (Text × List Text) → Bool
has_table k ts = is_some (lookup k ts)

has_table-alter :
    (t k : Text) (change : List Text → List Text) (ts : List (Text × List Text))
    → has_table k (alter t change ts) ≡ has_table k ts
unfolding lookup
has_table-alter t k change [] = refl
has_table-alter t k change ((j, cs) ∷ ts) = elim (Bool-cases (text_eq j k)) [
  | inl e ↦ rw e refl
  | inr e ↦ rw e (has_table-alter t k change ts)
]

has_table-rename_old :
    (old new : Text) (ts : List (Text × List Text))
    → text_eq new old ≡ false
    → has_table old (rename_table old new ts) ≡ false
unfolding lookup
has_table-rename_old old new [] h = refl
has_table-rename_old old new ((j, cs) ∷ ts) h = elim (Bool-cases (text_eq j old)) [
  | inl e ↦ rw e (rw h (has_table-rename_old old new ts h))
  | inr e ↦ rw e (rw e (has_table-rename_old old new ts h))
]

or_true : {A : Type 0} (o : Option A) → true ≡ (is_some o || true)
or_true none = refl
or_true (some a) = refl

or_false : (b : Bool) → b ≡ (b || false)
or_false b = ground arith

has_table-rename_new :
    (old new : Text) (ts : List (Text × List Text))
    → text_eq old new ≡ false
    → has_table new (rename_table old new ts) ≡ (has_table new ts || has_table old ts)
unfolding lookup
has_table-rename_new old new [] h = refl
has_table-rename_new old new ((j, cs) ∷ ts) h = elim (Bool-cases (text_eq j old)) [
  | inl e ↦
      rw e (rw (text_eq_refl new) (or_true (if text_eq j new then some cs else lookup new ts)))
  | inr e ↦ rw e (elim (Bool-cases (text_eq j new)) [
    | inl f ↦ rw f refl
    | inr f ↦ rw f (has_table-rename_new old new ts h)
  ])
]

-- The two ALTERs of the first migration.
has_table-altered :
    (a b : Bool) (t u k : Text) (f g : List Text → List Text) (ts : List (Text × List Text))
    → has_table k
        (if b then alter u g (if a then ts else alter t f ts) else if a then ts else alter t f ts)
      ≡ has_table k ts
has_table-altered true true t u k f g ts = has_table-alter u k g ts
has_table-altered false true t u k f g ts =
    has_table-alter u k g (alter t f ts) ∙ has_table-alter t k f ts
has_table-altered true false t u k f g ts = refl
has_table-altered false false t u k f g ts = has_table-alter t k f ts

module _ (like : Text → Text → Bool) where
  move_upstream-tables :
      (a b : Bool) (s s' : Schema) (k : Text)
      → move_upstream like a b s ≡ some s'
      → has_table k s'.tables ≡ has_table k s.tables
  unfolding move_upstream
  move_upstream-tables a b s s' k h =
      let rows =
        backfilled like b s.catalog (keep (λ r. not (is_seeded r)) s.scopes ++ seed_rows) in
      elim (Bool-cases (all (λ (r : ScopeRow). is_some r.upstream_url) rows)) [
        | inr e ↦ let wrong : none ≡ some s' = rw e at h in absurd (cc wrong)
        | inl e ↦
            let made : _ ≡ some s' = rw e at h in
            ap (λ (o : Option Schema). has_table k (tables_of o)) (sym made)
            ∙ has_table-altered a b api_scope (codes "api_catalog") k _ _ s.tables
      ]
    where
      tables_of : Option Schema → List (Text × List Text)
      tables_of none = []
      tables_of (some s) = s.tables

  -- The tables before the rename are those from before.
  migrate_endpoint_upstream-tables :
      (s s' : Schema) (k : Text)
      → migrate_endpoint_upstream like s ≡ some s'
      → has_table k s'.tables ≡ has_table k s.tables
  unfolding migrate_endpoint_upstream
  migrate_endpoint_upstream-tables s s' k h = elim (Bool-cases (table_exists api_scope s)) [
    | inr e ↦
        let same : some s ≡ some s' = rw e at h in
        let eq : s ≡ s' = cc same in ap (λ (x : Schema). has_table k x.tables) (sym eq)
    | inl e ↦
        let a = column_exists api_scope upstream_url_column s in
        let b = column_exists (codes "api_catalog") upstream_url_column s in
        elim (Bool-cases (a && not b)) [
          | inl f ↦
              let same : some s ≡ some s' = rw (e, f) at h in
              let eq : s ≡ s' = cc same in ap (λ (x : Schema). has_table k x.tables) (sym eq)
          | inr f ↦ move_upstream-tables a b s s' k (rw (e, f) at h)
        ]
  ]

  -- The migrated schema: the old table is gone, and the new one is there if one of them was.
  abbrev pub IsMigrated : Schema → Schema → Type 0
  IsMigrated s s' =
      (table_exists api_scope s' ≡ false)
      × (table_exists api_endpoint s' ≡ (table_exists api_endpoint s || table_exists api_scope s))

  renamed-tables :
      (ts : List (Text × List Text))
      → (has_table api_scope (renamed like ts) ≡ false)
        × (has_table api_endpoint (renamed like ts)
            ≡ (has_table api_endpoint ts || has_table api_scope ts))
  unfolding text_eq
  renamed-tables ts =
      let moved = rename_table api_scope api_endpoint ts in
      let id_first = rename_in (codes "scope_id") (codes "endpoint_id") in
      let name_next = rename_in (codes "scope_name") (codes "required_scope") in
      let altered = λ (k : Text).
        has_table-alter api_endpoint k name_next (alter api_endpoint id_first moved)
        ∙ has_table-alter api_endpoint k id_first moved in
      (
        altered api_scope ∙ has_table-rename_old api_scope api_endpoint ts refl,
        altered api_endpoint ∙ has_table-rename_new api_scope api_endpoint ts refl,
      )

  migrate_scope-IsMigrated :
      (s s' : Schema) → migrate_scope_table_to_endpoint like s ≡ some s' → IsMigrated s s'
  unfolding migrate_scope_table_to_endpoint table_exists
  migrate_scope-IsMigrated s s' h = elim (Bool-cases (has_table api_scope s.tables)) [
    | inr e ↦
        let same : some s ≡ some s' = rw e at h in
        let eq : s ≡ s' = cc same in
        (
          ap (λ (x : Schema). has_table api_scope x.tables) (sym eq) ∙ e,
          ap (λ (x : Schema). has_table api_endpoint x.tables) (sym eq) ∙ rw e (or_false _),
        )
    | inl e ↦ elim (Bool-cases (has_table api_endpoint s.tables)) [
      | inl f ↦ let wrong : none ≡ some s' = rw (e, f) at h in absurd (cc wrong)
      | inr f ↦
          let made : some (record s { tables = renamed like s.tables }) ≡ some s' =
            rw (e, f) at h in
          let eq : record s { tables = renamed like s.tables } ≡ s' = cc made in
          let (a, b) = renamed-tables s.tables in
          (
            ap (λ (x : Schema). has_table api_scope x.tables) (sym eq) ∙ a,
            ap (λ (x : Schema). has_table api_endpoint x.tables) (sym eq) ∙ b,
          )
    ]
  ]

  migrated_again : (s : Schema) → table_exists api_scope s ≡ false → run_all like s ≡ some s
  unfolding run_all migrate_endpoint_upstream migrate_scope_table_to_endpoint
  migrated_again s h = rw h (rw h refl)

  -- Where the migrations come through, `api_scope` is gone, `api_endpoint` is there if either was,
  -- and they change nothing when they run again.
  pub run_all-idempotent :
      (s s' : Schema) → run_all like s ≡ some s' → IsMigrated s s' × (run_all like s' ≡ some s')
  unfolding run_all table_exists
  run_all-idempotent s s' h = elim (Option-cases (migrate_endpoint_upstream like s)) [
    | inl e ↦ let wrong : none ≡ some s' = rw e at h in absurd (cc wrong)
    | inr (m, e) ↦
        let (gone, there) = migrate_scope-IsMigrated m s' (rw e at h) in
        let old = migrate_endpoint_upstream-tables s m api_scope e in
        let new = migrate_endpoint_upstream-tables s m api_endpoint e in
        ((gone, there ∙ rw (old, new) refl), migrated_again s' gone)
  ]
