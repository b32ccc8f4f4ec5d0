-- ===== src/Applications/Grants.antt =====
-- Which scopes an application carries: none until it is approved, and then requested ones only.
use api_portal.Prelude.{
  Bool, Bool-cases, List, Option, Option-cases, Text, [], all, ap, arith, codes, contains, false,
  if◌then◌else◌, inl, inr, is_empty, keep, none, not, refl, some, sym, text_eq, text_eq_iff,
  text_eq_refl, true, ℕ, ◌∙◌, ◌∷◌, ◌≡◌,
}
use api_portal.Auth.{UserClaims, has_any_role}
use api_portal.Database.{
  Db, Application, Api, AppStatus, pending, approved, rejected, is_approved, is_pending,
}
use api_portal.Applications.{
  ApplicationCreateRequest, ApplicationPatchRequest, create_application, create_for,
  insert_application, patch_application, patch_found, find_application, unknown_scopes,
  update_application, new_application, set_approved, set_rejected, granted_of, catalog_scopes,
  published_api,
}

all-keep : (p q : Text → Bool) (xs : List Text) → all q xs ≡ true → all q (keep p xs) ≡ true
all-keep p q [] h = refl
all-keep p q (x ∷ xs) h = ground (arith, all-keep p q xs)

all-contains-step :
    (ts xs : List Text) (x : Text) → all (contains ts) xs ≡ true → all (contains (x ∷ ts)) xs ≡ true
unfolding contains
all-contains-step ts [] x h = refl
all-contains-step ts (y ∷ xs) x h = ground (arith, all-contains-step ts xs x)

all-contains_self : (xs : List Text) → all (contains xs) xs ≡ true
unfolding contains
all-contains_self [] = refl
all-contains_self (x ∷ xs) = rw (text_eq_refl x) (all-contains-step xs xs x (all-contains_self xs))

-- The granted scopes are requested ones, and there are any exactly when it is approved.
abbrev pub IsGranted : Application → Type 0
IsGranted a =
    (all (contains a.requested_scopes) a.granted_scopes ≡ true)
    × (is_empty a.granted_scopes ≡ not (is_approved a.status))

abbrev pub AllGranted : List Application → Type 0
AllGranted apps = (id : Text) (a : Application) → find_application id apps ≡ some a → IsGranted a

insert-AllGranted :
    (req : ApplicationCreateRequest) (user : UserClaims) (app_id : Text) (missing : List Text)
    (api : Api) (date : Option ℕ) (db : Db)
    → AllGranted db.applications
    → AllGranted (insert_application req user app_id missing api date db).1.applications
unfolding insert_application find_application
insert-AllGranted req user app_id missing api none db h = h
insert-AllGranted req user app_id missing api (some d) db h = λ id a e.
    elim (Bool-cases (text_eq app_id id)) [
      | inr other ↦ h id a (rw other at e)
      | inl same ↦
          let e' : some (new_application req user app_id d) ≡ some a = rw same at e in
          let at : new_application req user app_id d ≡ a = ground arith in rw (← at) (refl, refl)
    ]

create_for-AllGranted :
    (roles : Text → List Text) (date : Text → Option ℕ) (req : ApplicationCreateRequest)
    (user : UserClaims) (app_id : Text) (found : Option Api) (db : Db)
    → AllGranted db.applications
    → AllGranted (create_for roles date req user app_id found db).1.applications
unfolding create_for
create_for-AllGranted roles date req user app_id none db h = h
create_for-AllGranted roles date req user app_id (some api) db h =
    let unknown = unknown_scopes (catalog_scopes req.api_id db.endpoints) req.requested_scopes in
    elim (Bool-cases (is_empty req.requested_scopes)) [
      | inl e ↦ rw e h
      | inr e ↦ rw e (elim (Bool-cases (not (is_empty unknown))) [
        | inl bad ↦ rw bad h
        | inr good ↦ rw good (insert-AllGranted req user app_id _ api (date req.valid_until) db h)
      ])
    ]

abbrev set_if : Text → (Application → Application) → Option Application → Option Application
set_if app_id set none = none
set_if app_id set (some a) = some (if text_eq a.app_id app_id then set a else a)

find_application-update :
    (id app_id : Text) (set : Application → Application) (apps : List Application)
    → ((a : Application) → (set a).app_id ≡ a.app_id)
    → find_application id (update_application app_id set apps)
      ≡ set_if app_id set (find_application id apps)
unfolding find_application update_application
find_application-update id app_id set [] keeps = refl
find_application-update id app_id set (a ∷ apps) keeps =
    ground (arith, keeps a, find_application-update id app_id set apps keeps)

find_application-key :
    (id : Text) (apps : List Application) (a : Application)
    → find_application id apps ≡ some a
    → a.app_id ≡ id
unfolding find_application
find_application-key id [] a h = cc
find_application-key id (b ∷ apps) a h =
    ground (arith, text_eq_iff b.app_id id, find_application-key id apps a)

only : (a b : Application) → some a ≡ some b → a ≡ b
only a b e = ground arith

update-AllGranted :
    (app_id : Text) (set : Application → Application) (apps : List Application)
    → ((a : Application) → (set a).app_id ≡ a.app_id)
    → ((a : Application) → find_application app_id apps ≡ some a → IsGranted (set a))
    → AllGranted apps
    → AllGranted (update_application app_id set apps)
update-AllGranted app_id set apps keeps good h id a e =
    elim (Option-cases (find_application id apps)) [
      | inl gone ↦
          let e' : none ≡ some a =
            sym (find_application-update id app_id set apps keeps ∙ ap (set_if app_id set) gone)
            ∙ e in
          absurd (cc e')
      | inr (b, found) ↦
          let e' : some (if text_eq b.app_id app_id then set b else b) ≡ some a =
            sym (find_application-update id app_id set apps keeps ∙ ap (set_if app_id set) found)
            ∙ e in
          elim (Bool-cases (text_eq b.app_id app_id)) [
            | inl same ↦
                let at : some (set b) ≡ some a = rw same at e' in
                let key : id ≡ app_id =
                  sym (find_application-key id apps b found)
                  ∙ (text_eq_iff b.app_id app_id).0 same in
                rw (← only (set b) a at) (good b (rw key at found))
            | inr other ↦ let at : b ≡ a = ground arith in rw (← at) (h id b found)
          ]
    ]

approve-IsGranted :
    (sub : Text) (comment : Option Text) (catalog : List Text) (a : Application)
    → is_empty (granted_of catalog a.requested_scopes) ≡ false
    → IsGranted (set_approved (granted_of catalog a.requested_scopes) sub comment a)
approve-IsGranted sub comment catalog a h = (
  all-keep (contains catalog) (contains a.requested_scopes) a.requested_scopes
      (all-contains_self a.requested_scopes),
  h,
)

reject-IsGranted :
    (sub : Text) (comment : Option Text) (a : Application)
    → not (is_pending a.status) ≡ false
    → IsGranted a
    → IsGranted (set_rejected sub comment a)
reject-IsGranted sub comment a waiting (some_of, empty) =
    (some_of, rw empty (unapproved a.status waiting))
  where
    unapproved : (s : AppStatus) → not (is_pending s) ≡ false → not (is_approved s) ≡ true
    unapproved pending h = refl
    unapproved approved h = cc
    unapproved rejected h = cc

patch_found-AllGranted :
    (app_id : Text) (req : ApplicationPatchRequest) (user : UserClaims) (found : Option Application)
    (db : Db)
    → find_application app_id db.applications ≡ found
    → AllGranted db.applications
    → AllGranted (patch_found app_id req user found db).1.applications
unfolding patch_found
patch_found-AllGranted app_id req user none db f h = h
patch_found-AllGranted app_id req user (some app) db f h =
    let catalog = catalog_scopes app.api_id db.endpoints in
    elim (Bool-cases (not (is_pending app.status))) [
      | inl e ↦ rw e h
      | inr waiting ↦ rw waiting (elim (Bool-cases (text_eq req.action (codes "APPROVE"))) [
        | inl accepted ↦
            rw accepted (elim (Bool-cases (is_empty (granted_of catalog app.requested_scopes))) [
              | inl empty ↦ rw empty h
              | inr full ↦ rw full (
                  update-AllGranted app_id _ db.applications (λ a. refl)
                    (λ a e.
                      let same : app ≡ a = only app a (sym f ∙ e) in
                      rw (← same) (approve-IsGranted user.sub req.review_comment catalog app full))
                    h)
            ])
        | inr other ↦ rw other (elim (Bool-cases (text_eq req.action (codes "REJECT"))) [
          | inr neither ↦ rw neither h
          | inl reject ↦ rw reject (
              update-AllGranted app_id _ db.applications (λ a. refl)
                (λ a e.
                  let same : app ≡ a = only app a (sym f ∙ e) in
                  rw (← same)
                    (reject-IsGranted user.sub req.review_comment app waiting (h app_id app f)))
                h)
        ])
      ])
    ]

-- Creating and reviewing applications keep this true of every application: its granted scopes are
-- among the requested ones, and there are any exactly when it is approved.
pub applications-AllGranted :
    (roles : Text → List Text) (date : Text → Option ℕ) (db : Db)
    → AllGranted db.applications
    → ((req : ApplicationCreateRequest) (user : UserClaims) (app_id : Text)
        → AllGranted (create_application roles date req user app_id db).1.applications)
      × ((app_id : Text) (req : ApplicationPatchRequest) (user : UserClaims)
          → AllGranted (patch_application app_id req user db).1.applications)
unfolding create_application patch_application
applications-AllGranted roles date db h = (
  λ req user app_id.
      create_for-AllGranted roles date req user app_id (published_api req.api_id db) db h,
  λ app_id req user.
      elim (Bool-cases (has_any_role user (codes "api-owner" ∷ codes "platform-admin" ∷ []))) [
        | inr e ↦ rw e h
        | inl e ↦ rw e (
            patch_found-AllGranted app_id req user (find_application app_id db.applications) db refl
              h)
      ],
)
