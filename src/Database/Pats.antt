-- ===== src/Database/Pats.antt =====
-- Statements on `cdp.pat`. The rows are searched by the primary key.
use api_portal.Prelude.{
  Bool, Bool-cases, List, Option, Text, [], arith, contains, if◌then◌else◌, inl, inr, none, refl,
  some, text_eq, text_eq_iff, true, ◌∷◌, ◌≡◌,
}
use api_portal.Database.{Pat}

-- `SELECT * FROM cdp.pat WHERE token_id=$1`
unfoldable pub find_pat : Text → List Pat → Option Pat
find_pat t [] = none
find_pat t (p ∷ ps) = if text_eq p.token_id t then some p else find_pat t ps

-- `UPDATE cdp.pat SET … WHERE …`
unfoldable pub update_pats : (Pat → Bool) → (Pat → Pat) → List Pat → List Pat
update_pats test set [] = []
update_pats test set (p ∷ ps) = (if test p then set p else p) ∷ update_pats test set ps

-- `SELECT token_id FROM cdp.pat WHERE …`
unfoldable pub select_ids : (Pat → Bool) → List Pat → List Text
select_ids test [] = []
select_ids test (p ∷ ps) =
    let rest = select_ids test ps in if test p then p.token_id ∷ rest else rest

abbrev pub by_id : Text → Pat → Bool
by_id t p = text_eq p.token_id t

-- A statement that keeps the key keeps the row where it is.
abbrev pub KeepsKey : (Pat → Pat) → Type 0
KeepsKey set = (p : Pat) → (set p).token_id ≡ p.token_id

-- The row of a key after an update: the updated row.
pub find_pat-update :
    (t : Text) (test : Pat → Bool) (set : Pat → Pat) (ps : List Pat)
    → KeepsKey set
    → find_pat t (update_pats test set ps)
      ≡ elim (find_pat t ps) [ none ↦ none | some p ↦ some (if test p then set p else p) ]
unfolding find_pat update_pats
find_pat-update t test set [] keeps = refl
find_pat-update t test set (p ∷ ps) keeps =
    ground (arith, keeps p, find_pat-update t test set ps keeps)

pub find_pat-key : (t : Text) (ps : List Pat) (p : Pat) → find_pat t ps ≡ some p → p.token_id ≡ t
unfolding find_pat
find_pat-key t [] p h = cc
find_pat-key t (q ∷ ps) p h = ground (arith, text_eq_iff q.token_id t, find_pat-key t ps p)

-- A row that is found and passes the test is among the selected ones.
pub contains-select_ids :
    (t : Text) (test : Pat → Bool) (ps : List Pat) (p : Pat)
    → find_pat t ps ≡ some p
    → test p ≡ true
    → contains (select_ids test ps) t ≡ true
unfolding find_pat select_ids contains
contains-select_ids t test [] p h k = cc
contains-select_ids t test (q ∷ ps) p h k = elim (Bool-cases (text_eq q.token_id t)) [
  | inl e ↦ ground (arith, e)
  | inr e ↦ ground (arith, contains-select_ids t test ps p (rw e at h) k)
]
