-- ===== src/Prelude/Sets.antt =====
-- A `set` of texts as an ascending list, the order of `sorted`.
use mathlib.Core.Path.{◌≡◌, refl}
use mathlib.Core.Bool.{Bool, true, false, ◌&&◌, ◌||◌}
use mathlib.Core.List.{List, [], ◌∷◌}
use native.Mathlib.Omega.{arith}
use api_portal.Prelude.Tests.{ltb, ◌==◌, if◌then◌else◌}
use api_portal.Prelude.Strings.{Text, text_eq, text_eq_iff, contains}

-- `s < t`
unfoldable pub text_lt : Text → Text → Bool
text_lt [] [] = false
text_lt [] (b ∷ t) = true
text_lt (a ∷ s) [] = false
text_lt (a ∷ s) (b ∷ t) = ltb a b || (a == b && text_lt s t)

-- `us.add(t)`
unfoldable pub set_add : Text → List Text → List Text
set_add t [] = t ∷ []
set_add t (u ∷ us) =
    let rest = set_add t us in
    if text_eq t u then u ∷ us else if text_lt t u then t ∷ u ∷ us else u ∷ rest

-- `us.update(ts)`
unfoldable pub set_update : List Text → List Text → List Text
unfolding set_add
set_update [] us = us
set_update (t ∷ ts) us = set_add t (set_update ts us)

pub contains-set_add :
    (t k : Text) (us : List Text) → contains (set_add t us) k ≡ (text_eq t k || contains us k)
unfolding set_add contains
contains-set_add t k [] = refl
contains-set_add t k (u ∷ us) =
    ground (arith, text_eq_iff t u, text_eq_iff t k, text_eq_iff u k, contains-set_add t k us)
