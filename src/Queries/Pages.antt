-- ===== src/Queries/Pages.antt =====
-- What the pages of `list_all_tokens` of services/portal-backend/routers/admin_tokens.py hold.
use api_portal.Prelude.{
  Bool, Bool-cases, List, [], and-true, ap, arith, codes, count, false, inl, inr, length, not, refl,
  suc, sym, take, true, zero, ℕ, ◌&&◌, ◌*◌, ◌++◌, ◌+◌, ◌-◌, ◌<◌, ◌∙◌, ◌∷◌, ◌≡◌,
}
use native.Mathlib.Numerals.{unary_clauses}
use api_portal.Errors.{Reply, done, cdp_error, cdp_4003}
use api_portal.Auth.{UserClaims, has_role}
use api_portal.Database.{Db}
use api_portal.Queries.{
  Paged, TokenRow, TokenQuery, drop, page_of, insert_row, order_by, matching, sooner,
  list_all_tokens,
}

module _ {ℓ} {A : Type ℓ} where
  take_nil : (n : ℕ) → take {A = A} n [] ≡ []
  unfolding take
  take_nil zero = refl
  take_nil (suc n) = refl

  take-drop : (m n : ℕ) (xs : List A) → take m xs ++ take n (drop m xs) ≡ take (m + n) xs
  unfolding take drop
  take-drop zero n xs = ap (λ (k : ℕ). take k xs) (omega arith)
  take-drop (suc m) n [] = take_nil n ∙ sym (take_nil (suc m + n))
  take-drop (suc m) n (x ∷ xs) =
      ap (λ (ys : List A). x ∷ ys) (take-drop m n xs)
      ∙ ap (λ (k : ℕ). take k (x ∷ xs)) {x = suc (m + n)} (omega arith)

  -- No row is before the one in front of it.
  abbrev pub is_sorted : (A → A → Bool) → List A → Bool
  is_sorted before [] = true
  is_sorted before (a ∷ []) = true
  is_sorted before (a ∷ b ∷ bs) = not (before b a) && is_sorted before (b ∷ bs)

  insert_row-sorted :
      (before : A → A → Bool) (a : A) (bs : List A)
      → ((x y : A) → before x y ≡ true → before y x ≡ false)
      → is_sorted before bs ≡ true
      → is_sorted before (insert_row before a bs) ≡ true
  unfolding insert_row
  insert_row-sorted before a [] asym h = refl
  insert_row-sorted before a (b ∷ []) asym h = elim (Bool-cases (before b a)) [
    | inl e ↦ rw e (rw (asym b a e) refl)
    | inr e ↦ rw e (rw e refl)
  ]
  insert_row-sorted before a (b ∷ c ∷ cs) asym h =
      let (first, rest) = and-true (not (before c b)) (is_sorted before (c ∷ cs)) h in
      let later = insert_row-sorted before a (c ∷ cs) asym rest in
      elim (Bool-cases (before b a)) [
        | inr e ↦ rw e (rw e h)
        | inl e ↦ elim (Bool-cases (before c a)) [
          | inl f ↦ rw (e, f) (rw first (rw f at later))
          | inr f ↦ rw (e, f) (rw (asym b a e) (rw f at later))
        ]
      ]

  order_by-sorted :
      (before : A → A → Bool) (xs : List A)
      → ((x y : A) → before x y ≡ true → before y x ≡ false)
      → is_sorted before (order_by before xs) ≡ true
  unfolding order_by
  order_by-sorted before [] asym = refl
  order_by-sorted before (x ∷ xs) asym =
      insert_row-sorted before x (order_by before xs) asym (order_by-sorted before xs asym)

  -- An order keeps the number of the rows that pass a test.
  count-insert_row :
      (before : A → A → Bool) (p : A → Bool) (a : A) (bs : List A)
      → count p (insert_row before a bs) ≡ count p (a ∷ bs)
  unfolding insert_row
  count-insert_row before p a [] = refl
  count-insert_row before p a (b ∷ bs) = elim (Bool-cases (before b a)) [
    | inr e ↦ rw e refl
    | inl e ↦ rw e (ground (arith, count-insert_row before p a bs))
  ]

  count-order_by :
      (before : A → A → Bool) (p : A → Bool) (xs : List A)
      → count p (order_by before xs) ≡ count p xs
  unfolding order_by
  count-order_by before p [] = refl
  count-order_by before p (x ∷ xs) =
      count-insert_row before p x (order_by before xs) ∙ ground (arith, count-order_by before p xs)

pages_mul : (p s : ℕ) → 0 < p → (p - 1) * s + s ≡ p * s
pages_mul zero s h = absurd (omega (arith, h))
pages_mul (suc p) s h = simp unary_clauses (omega arith)

-- The parts of an answer.
abbrev total_of : Reply (Paged TokenRow) → ℕ
total_of (done r) = r.total
total_of _ = 0

abbrev items_of : Reply (Paged TokenRow) → List TokenRow
items_of (done r) = r.items
items_of _ = []

sooner_asym : (a b : TokenRow) → sooner a b ≡ true → sooner b a ≡ false
sooner_asym a b h = ground arith

-- Where `list_all_tokens` answers, the caller is an administrator, `total` counts the rows that
-- match, and there is an order of these rows by their expiry of which the items are the given page:
-- with the pages before it, the rows up to the page times the size.
pub list_all_tokens_lem :
    (q : TokenQuery) (now : ℕ) (user : UserClaims) (db : Db) (r : Paged TokenRow)
    → 0 < q.page
    → list_all_tokens q now user db ≡ done r
    → (has_role user (codes "platform-admin") ≡ true)
      × (r.total ≡ length (matching q now db))
      × ((rows : List TokenRow) × (is_sorted sooner rows ≡ true)
          × ((p : TokenRow → Bool) → count p rows ≡ count p (matching q now db))
          × (take ((q.page - 1) * q.size) rows ++ r.items ≡ take (q.page * q.size) rows))
unfolding list_all_tokens page_of
list_all_tokens_lem q now user db r lt h =
    let rows = order_by sooner (matching q now db) in
    elim (Bool-cases (has_role user (codes "platform-admin"))) [
      | inr e ↦ let wrong : cdp_error cdp_4003 ≡ done r = rw e at h in absurd (cc wrong)
      | inl e ↦
          let same = rw e at h in
          (
            e,
            ap total_of (sym same),
            (
              rows,
              order_by-sorted sooner (matching q now db) sooner_asym,
              λ p. count-order_by sooner p (matching q now db),
              ap (λ o. take ((q.page - 1) * q.size) rows ++ items_of o) (sym same)
                  ∙ take-drop ((q.page - 1) * q.size) q.size rows
                  ∙ ap (λ (k : ℕ). take k rows) (pages_mul q.page q.size lt),
            ),
          )
    ]
