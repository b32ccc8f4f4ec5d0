-- ===== src/Prelude/Strings.antt =====
-- Python's `str` as a list of code points, and the operations on it that the program uses.
use Prim.Native.Nat.{ℕ, zero, suc}
use Prim.Native.Char.{code}
use Prim.Native.String.{String}
use mathlib.Core.Path.{◌≡◌, refl, subst}
use mathlib.Core.Logic.{◌↔◌, inl, inr}
use mathlib.Core.Bool.{Bool, true, false, ◌&&◌, ◌||◌}
use mathlib.Core.List.{List, [], ◌∷◌, ◌++◌}
use native.Mathlib.Omega.{arith}
use mathlib.Core.Option.{Option, none, some}
use api_portal.Prelude.Tests.{◌==◌, if◌then◌else◌, Bool-cases, leb, ltb}

abbrev pub Text : Type 0
Text = List ℕ

-- A literal. `String` has its own `[]` and `∷`.
abbrev pub codes : String → Text
codes String.[] = []
codes (String.◌∷◌ c s) = code c ∷ codes s

-- `s == t`
unfoldable pub text_eq : Text → Text → Bool
text_eq [] [] = true
text_eq (a ∷ s) (b ∷ t) = a == b && text_eq s t
text_eq _ _ = false

pub text_eq_refl : (s : Text) → text_eq s s ≡ true
unfolding text_eq
text_eq_refl [] = refl
text_eq_refl (a ∷ s) = ground (arith, text_eq_refl s)

text_eq→eq : (s t : Text) → text_eq s t ≡ true → s ≡ t
unfolding text_eq
text_eq→eq [] [] h = refl
text_eq→eq [] (b ∷ t) h = cc
text_eq→eq (a ∷ s) [] h = cc
text_eq→eq (a ∷ s) (b ∷ t) h = ground (arith, text_eq→eq s t)

pub text_eq_iff : (s t : Text) → (text_eq s t ≡ true) ↔ (s ≡ t)
text_eq_iff s t = (text_eq→eq s t, λ e. rw e (text_eq_refl t))

-- `s in xs`
unfoldable pub contains : List Text → Text → Bool
contains [] s = false
contains (x ∷ xs) s = text_eq x s || contains xs s

-- `s.startswith(p)`
unfoldable pub starts_with : Text → Text → Bool
starts_with s [] = true
starts_with [] (b ∷ p) = false
starts_with (a ∷ s) (b ∷ p) = a == b && starts_with s p

pub starts_with→append : (s p : Text) → starts_with s p ≡ true → (rest : Text) × (s ≡ p ++ rest)
unfolding starts_with
starts_with→append s [] h = (s, refl)
starts_with→append [] (b ∷ p) h = cc
starts_with→append (a ∷ s) (b ∷ p) h =
    let (rest, e) = starts_with→append s p (ground arith) in (rest, ground (arith, e))

pub starts_with-append : (p rest : Text) → starts_with (p ++ rest) p ≡ true
unfolding starts_with
starts_with-append [] rest = refl
starts_with-append (a ∷ p) rest = ground (arith, starts_with-append p rest)

-- `s.lstrip(c)` and `s.rstrip(c)`, for one character.
unfoldable pub lstrip : ℕ → Text → Text
lstrip c [] = []
lstrip c (x ∷ s) = if x == c then lstrip c s else x ∷ s

abbrev pub is_empty {ℓ} : {A : Type ℓ} → List A → Bool
is_empty [] = true
is_empty (x ∷ s) = false

unfoldable pub rstrip : ℕ → Text → Text
rstrip c [] = []
rstrip c (x ∷ s) = let rest = rstrip c s in if x == c && is_empty rest then [] else x ∷ rest

-- `c in s`
unfoldable pub has : ℕ → Text → Bool
has c [] = false
has c (x ∷ s) = x == c || has c s

pub has-append : (c : ℕ) (s t : Text) → has c (s ++ t) ≡ (has c s || has c t)
unfolding has
has-append c [] t = refl
has-append c (x ∷ s) t = ground (arith, has-append c s t)

-- `s.split(c, n)`: at most `n` cuts, each at the first `c` that is left.
abbrev cons_head : ℕ → List Text → List Text
cons_head x [] = (x ∷ []) ∷ []
cons_head x (p ∷ ps) = (x ∷ p) ∷ ps

unfoldable pub split : ℕ → ℕ → Text → List Text
split c zero s = s ∷ []
split c (suc n) [] = [] ∷ []
split c (suc n) (x ∷ s) =
    let here = split c n s in
    let later = split c (suc n) s in if x == c then [] ∷ here else cons_head x later

cons_head-eq :
    (x : ℕ) (ps : List Text) (p q : Text)
    → cons_head x ps ≡ p ∷ q ∷ []
    → (p' : Text) × (p ≡ x ∷ p') × (ps ≡ p' ∷ q ∷ [])
cons_head-eq x [] p q h = cc
cons_head-eq x (p' ∷ ps) p q h = (p', ground arith, ground arith)

pub split_once→parts :
    (c : ℕ) (s p q : Text) → split c 1 s ≡ p ∷ q ∷ [] → (s ≡ p ++ c ∷ q) × (has c p ≡ false)
unfolding split has
split_once→parts c [] p q h = cc
split_once→parts c (x ∷ s) p q h = elim (Bool-cases (x == c)) [
  | inl here ↦
      let e : [] ∷ s ∷ [] ≡ p ∷ q ∷ [] = rw here at h in
      subst (λ (t : Text). (x ∷ s ≡ t ++ c ∷ q) × (has c t ≡ false)) {x = []} (ground arith)
        (ground arith, refl)
  | inr later ↦
      let (p', e, rest) = cons_head-eq x (split c 1 s) p q (rw later at h) in
      let (eq, none_in) = split_once→parts c s p' q rest in rw e (ground arith)
]

pub parts→split_once : (c : ℕ) (p q : Text) → has c p ≡ false → split c 1 (p ++ c ∷ q) ≡ p ∷ q ∷ []
unfolding split has
parts→split_once c [] q h = ground arith
parts→split_once c (x ∷ p) q h = rw (parts→split_once c p q (ground arith)) (ground arith)

-- A common prefix decides nothing.
pub text_eq-append : (p s t : Text) → text_eq (p ++ s) (p ++ t) ≡ text_eq s t
unfolding text_eq
text_eq-append [] s t = refl
text_eq-append (a ∷ p) s t = ground (arith, text_eq-append p s t)

-- `c.isspace()`
abbrev pub is_space : ℕ → Bool
is_space c =
    (leb 9 c && leb c 13)
    || (leb 28 c && leb c 32)
    || c == 133
    || c == 160
    || c == 5760
    || (leb 8192 c && leb c 8202)
    || c == 8232
    || c == 8233
    || c == 8239
    || c == 8287
    || c == 12288

-- `s.strip()`
unfoldable pub strip_left : Text → Text
strip_left [] = []
strip_left (c ∷ s) = let rest = strip_left s in if is_space c then rest else c ∷ s

unfoldable pub strip_right : Text → Text
strip_right [] = []
strip_right (c ∷ s) =
    let rest = strip_right s in if is_space c && is_empty rest then [] else c ∷ rest

abbrev pub strip : Text → Text
strip s = strip_right (strip_left s)

-- `s.isascii()`
unfoldable pub is_ascii : Text → Bool
is_ascii [] = true
is_ascii (c ∷ s) = ltb c 128 && is_ascii s

-- `hmac.compare_digest(s, t)` on two `str`: `none` for the `TypeError` on a text that is not ASCII.
unfoldable pub compare_digest : Text → Text → Option Bool
unfolding is_ascii text_eq
compare_digest s t = if is_ascii s && is_ascii t then some (text_eq s t) else none

-- `s.split(",")`
abbrev pub add_char : ℕ → List Text → List Text
add_char c [] = (c ∷ []) ∷ []
add_char c (p ∷ ps) = (c ∷ p) ∷ ps

unfoldable pub split_commas : Text → List Text
split_commas [] = [] ∷ []
split_commas (c ∷ s) = let rest = split_commas s in if c == b',' then [] ∷ rest else add_char c rest
