-- ===== src/PatUtils/Format/Generated.antt =====
-- `parse_pat` of `build_pat` of a generated id and a generated secret.
use api_portal.Prelude.{
  List, Text, [], all, and-true, arith, false, has, length, ok, refl, true, ℕ, ◌==◌, ◌∷◌, ◌≡◌,
}
use api_portal.PatUtils.Base62.{generate_token_id, generate_token_id_lem, is_alnum}
use api_portal.PatUtils.Secret.{generate_secret, generate_secret_safe, is_byte}
use api_portal.PatUtils.Format.{build_pat, parse_pat}
use api_portal.PatUtils.Format.RoundTrip.{parse-build}

alnum-ne-underscore : (c : ℕ) → is_alnum c ≡ true → (c == b'_') ≡ false
unfolding is_alnum
alnum-ne-underscore c h = ground arith

alnum_plain : (t : Text) → all is_alnum t ≡ true → has b'_' t ≡ false
unfolding has
alnum_plain [] h = refl
alnum_plain (c ∷ t) h =
    let (here, there) = and-true (is_alnum c) (all is_alnum t) h in
    rw (alnum-ne-underscore c here) (alnum_plain t there)

-- Every token that is built of a generated id and of a secret of 32 random bytes parses into these
-- two again.
pub parse-build-generate :
    (random raw : List ℕ)
    → length raw ≡ 32
    → all is_byte raw ≡ true
    → parse_pat (build_pat (generate_token_id random) (generate_secret raw))
      ≡ ok (generate_token_id random, generate_secret raw)
parse-build-generate random raw n h =
    let (id_length, alnum, _, _) = generate_token_id_lem random in
    let (_, secret_length) = generate_secret_safe raw h in
    (parse-build _ (generate_token_id random) (generate_secret raw)).1 (
      refl,
      record {
        id_length = id_length;
        id_plain = alnum_plain (generate_token_id random) alnum;
        secret_length = rw (secret_length, n) refl;
      },
    )
