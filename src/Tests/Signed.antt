-- ===== src/Tests/Signed.antt =====
-- A JWT written out as a text and read again, and the two mock services run on it.
use api_portal.Prelude.{
  List, Option, Text, [], ap, arith, codes, contains, if◌then◌else◌, inr, length, ltb, lt→ltb, none,
  refl, some, suc, text_eq, text_eq_refl, true, zero, ℕ, ◌&&◌, ◌++◌, ◌<◌, ◌==◌, ◌∷◌, ◌≡◌,
}
use api_portal.Mocks.Keycloak.{MockSettings, JwtClaims, TokenForm, token_endpoint, base_claims}
use api_portal.Mocks.InternalGw.{
  Verifier, allowed, expected_audience, get_jwks, jwt_auth_middleware,
}
use api_portal.Mocks.Accepted.{IsMade, token_endpoint-allowed}

-- A text behind its length.
abbrev write : Text → Text → Text
write s rest = length s ∷ s ++ rest

abbrev cut_at : ℕ → Text → Text × Text
cut_at zero s = ([], s)
cut_at (suc n) [] = ([], [])
cut_at (suc n) (c ∷ s) = let (first, rest) = cut_at n s in (c ∷ first, rest)

abbrev read : Text → Text × Text
read [] = ([], [])
read (n ∷ s) = cut_at n s

cut_at-append : (s rest : Text) → cut_at (length s) (s ++ rest) ≡ (s, rest)
cut_at-append [] rest = refl
cut_at-append (c ∷ s) rest =
    ap (λ ((first, r) : Text × Text). (c ∷ first, r)) (cut_at-append s rest)

unfoldable write_all : List Text → Text → Text
write_all [] rest = rest
write_all (s ∷ ss) rest = write s (write_all ss rest)

unfoldable read_all : ℕ → Text → List Text × Text
read_all zero s = ([], s)
read_all (suc n) s =
    let (first, rest) = read s in let (more, last) = read_all n rest in (first ∷ more, last)

read_all-write_all :
    (ss : List Text) (rest : Text) → read_all (length ss) (write_all ss rest) ≡ (ss, rest)
unfolding read_all write_all
read_all-write_all [] rest = refl
read_all-write_all (s ∷ ss) rest =
    rw (cut_at-append s (write_all ss rest), read_all-write_all ss rest) refl

abbrev flat : List (Text × Text) → List Text
flat [] = []
flat ((k, v) ∷ ps) = k ∷ v ∷ flat ps

abbrev unflat : List Text → List (Text × Text)
unflat [] = []
unflat (k ∷ []) = []
unflat (k ∷ v ∷ ps) = (k, v) ∷ unflat ps

unflat-flat : (ps : List (Text × Text)) → unflat (flat ps) ≡ ps
unflat-flat [] = refl
unflat-flat ((k, v) ∷ ps) = ap (λ (qs : List (Text × Text)). (k, v) ∷ qs) (unflat-flat ps)

abbrev texts_of : JwtClaims → List Text
texts_of c = c.iss ∷ c.sub ∷ c.azp ∷ c.jti ∷ c.scope ∷ c.cdp_channel ∷ []

abbrev encode : JwtClaims → Text
encode c =
    c.exp
    ∷ c.iat
    ∷ length c.aud
    ∷ length c.roles
    ∷ length (flat c.extra)
    ∷ write_all (texts_of c) (write_all c.aud (write_all c.roles (write_all (flat c.extra) [])))

abbrev claims_of : ℕ → ℕ → List Text → List Text → List Text → List Text → Option JwtClaims
claims_of exp iat (iss ∷ sub ∷ azp ∷ jti ∷ scope ∷ channel ∷ []) aud roles extra = some (record {
  iss = iss;
  sub = sub;
  aud = aud;
  azp = azp;
  exp = exp;
  iat = iat;
  jti = jti;
  scope = scope;
  roles = roles;
  cdp_channel = channel;
  extra = unflat extra;
})
claims_of _ _ _ _ _ _ = none

abbrev decode_text : Text → Option JwtClaims
decode_text (exp ∷ iat ∷ na ∷ nr ∷ ne ∷ s) =
    let (texts, s1) = read_all 6 s in
    let (aud, s2) = read_all na s1 in
    let (roles, s3) = read_all nr s2 in
    let (extra, s4) = read_all ne s3 in claims_of exp iat texts aud roles extra
decode_text _ = none

decode-encode : (c : JwtClaims) → decode_text (encode c) ≡ some c
decode-encode c =
    let s3 = write_all (flat c.extra) [] in
    let s2 = write_all c.roles s3 in
    let s1 = write_all c.aud s2 in
    rw
      (
        read_all-write_all (texts_of c) s1,
        read_all-write_all c.aud s2,
        read_all-write_all c.roles s3,
        read_all-write_all (flat c.extra) [],
        unflat-flat c.extra,
      )
      refl

abbrev valid_at : Text → Text → ℕ → Option JwtClaims → Option JwtClaims
valid_at audience issuer now none = none
valid_at audience issuer now (some c) =
    if contains c.aud audience && text_eq c.iss issuer && ltb now c.exp then some c else none

-- The key of the signer is 7.
abbrev verifier : Verifier
verifier = record {
  Jwks = ℕ;
  decode = λ t k audience issuer now.
      if k == 7 then valid_at audience issuer now (decode_text t) else none;
}

abbrev mock : MockSettings
mock = record {
  issuer = codes "http://kc/realms/hd";
  client_id = codes "gw";
  client_secret = codes "secret";
  token_ttl = 300;
}

verifier_decodes :
    (claims : JwtClaims) (time : ℕ)
    → contains claims.aud expected_audience ≡ true
    → claims.iss ≡ mock.issuer
    → time < claims.exp
    → verifier.decode (encode claims) 7 expected_audience mock.issuer time ≡ some claims
verifier_decodes claims time a b c =
    rw (decode-encode claims, a, b, text_eq_refl mock.issuer, lt→ltb time claims.exp c) refl

abbrev form : TokenForm
form = record {
  grant_type = codes "client_credentials";
  client_id = some (codes "gw");
  client_secret = some (codes "secret");
  scope = none;
  requested_subject = none;
}

abbrev service_claims : JwtClaims
service_claims =
    base_claims mock 1000 (codes "j") (codes "service-account-gw") (codes "service-account" ∷ [])
      (codes "openid" ∷ []) []

token_endpoint-allowed_example :
    (claims : JwtClaims) × ((jwt_auth_middleware verifier mock.issuer 1200
        (some 7)
        (codes "/vendors")
        (some (codes "Bearer " ++ encode service_claims))
        (record { keys = some 6; fetched_at = 800 })).0
      ≡ allowed claims)
    × IsMade mock [] (λ s. none) encode 1000 claims
unfolding token_endpoint text_eq get_jwks
token_endpoint-allowed_example =
    token_endpoint-allowed mock [] (λ s. none) encode verifier 7 1000 1200 300 (codes "j")
      (encode service_claims) (codes "/vendors") none form
      (record { keys = some 6; fetched_at = 800 }) verifier_decodes refl (omega arith) refl
      (inr (inr (omega arith)))
