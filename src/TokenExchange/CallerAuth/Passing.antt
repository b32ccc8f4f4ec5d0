-- ===== src/TokenExchange/CallerAuth/Passing.antt =====
-- Which callers `check_caller` of services/token-exchange-service/caller_auth.py lets pass.
use api_portal.Prelude.{
  Bool, Bool-cases, List, Option, Text, [], add_char, any, ap, arith, compare_digest, contains,
  false, has, if◌then◌else◌, inl, inr, is_ascii, is_empty, none, refl, some, split_commas, strip,
  sym, text_eq, text_eq_iff, text_eq_refl, true, ℕ, ◌&&◌, ◌++◌, ◌==◌, ◌||◌, ◌↔◌, ◌∙◌, ◌∷◌, ◌≡◌, ◌⊎◌,
}
use api_portal.TokenExchange.CallerAuth.{
  Addresses, Caller, CallerSettings, CallerReply, passed, refused, head_text, text_or_empty,
  is_true, in_some, client_ip, networks_of, ip_allowed, by_sent_key, check_caller,
}

-- Nothing, or what begins with a comma.
abbrev pub is_tail : Text → Bool
is_tail [] = true
is_tail (c ∷ s) = c == b','

-- The address of a request: the entry of X-Forwarded-For before the first comma, without the white
-- space around it; where this is empty, the host of the connection.
pub data IsSender (r : Caller) (ip : Text) : Type 0 where
  forwarded :
      (first rest : Text)
      → text_or_empty r.forwarded_for ≡ first ++ rest
      → has b',' first ≡ false
      → is_tail rest ≡ true
      → strip first ≡ ip
      → is_empty ip ≡ false
      → IsSender r ip
  connected :
      (first rest : Text)
      → text_or_empty r.forwarded_for ≡ first ++ rest
      → has b',' first ≡ false
      → is_tail rest ≡ true
      → is_empty (strip first) ≡ true
      → text_or_empty r.client_host ≡ ip
      → IsSender r ip

head_text-add_char : (c : ℕ) (ps : List Text) → head_text (add_char c ps) ≡ c ∷ head_text ps
head_text-add_char c [] = refl
head_text-add_char c (p ∷ ps) = refl

first_entry :
    (s : Text)
    → (rest : Text) × (s ≡ head_text (split_commas s) ++ rest)
      × (has b',' (head_text (split_commas s)) ≡ false)
      × (is_tail rest ≡ true)
unfolding split_commas has
first_entry [] = ([], refl, refl, refl)
first_entry (c ∷ s) = elim (Bool-cases (c == b',')) [
  | inl e ↦ rw e (c ∷ s, refl, refl, e)
  | inr e ↦
      let (rest, a, b, d) = first_entry s in
      rw (e, head_text-add_char c (split_commas s)) (rest, ap (λ (z : Text). c ∷ z) a, rw e b, d)
]

or-false : (a b : Bool) → (a || b) ≡ false → (a ≡ false) × (b ≡ false)
or-false a b h = ground arith

empty-eq : (xs : List Text) → is_empty xs ≡ true → xs ≡ []
empty-eq [] h = refl
empty-eq (x ∷ xs) h = absurd (cc h)

entry_first :
    (first rest : Text)
    → has b',' first ≡ false
    → is_tail rest ≡ true
    → head_text (split_commas (first ++ rest)) ≡ first
unfolding split_commas has
entry_first [] [] h k = refl
entry_first [] (c ∷ rest) h k = rw k refl
entry_first (c ∷ first) rest h k =
    let (e, f) = or-false (c == b',') (has b',' first) h in
    rw (e, head_text-add_char c (split_commas (first ++ rest)), entry_first first rest f k) refl

client_ip-IsSender : (r : Caller) → IsSender r (client_ip r)
unfolding client_ip
client_ip-IsSender r =
    let s = text_or_empty r.forwarded_for in
    let first = head_text (split_commas s) in
    let (rest, a, b, d) = first_entry s in
    elim (Bool-cases (is_empty (strip first))) [
      | inl e ↦ rw e (connected first rest a b d e refl)
      | inr e ↦ rw e (forwarded first rest a b d refl e)
    ]

IsSender→client_ip : (r : Caller) (ip : Text) → IsSender r ip → client_ip r ≡ ip
unfolding client_ip
IsSender→client_ip r ip (forwarded first rest a b d e f) =
    rw (a, entry_first first rest b d, e, f) refl
IsSender→client_ip r ip (connected first rest a b d e f) = rw (a, entry_first first rest b d, e) f

any-found :
    (f : Text → Bool) (xs : List Text)
    → any f xs ≡ true
    → (x : Text) × (contains xs x ≡ true) × (f x ≡ true)
unfolding contains
any-found f [] h = absurd (cc h)
any-found f (y ∷ ys) h = elim (Bool-cases (f y)) [
  | inl e ↦ (y, rw (text_eq_refl y) refl, e)
  | inr e ↦ let (x, a, b) = any-found f ys (rw e at h) in (x, ground (arith, a), b)
]

found-any :
    (f : Text → Bool) (xs : List Text) (x : Text)
    → contains xs x ≡ true
    → f x ≡ true
    → any f xs ≡ true
unfolding contains
found-any f [] x h k = absurd (cc h)
found-any f (y ∷ ys) x h k = elim (Bool-cases (text_eq y x)) [
  | inl e ↦ let same : f y ≡ true = ap f ((text_eq_iff y x).0 e) ∙ k in rw same refl
  | inr e ↦ let rest = found-any f ys x (rw e at h) k in ground (arith, rest)
]

module _ (I : Addresses) where
  -- No network is listed, or the address can be read and is in a listed one.
  abbrev pub IsAllowed : Text → Text → Type 0
  IsAllowed allowed_cidr ip =
      (networks_of allowed_cidr ≡ [])
      ⊎ ((addr : I.Address) × (network : Text) × (I.ip_address ip ≡ some addr)
          × (contains (networks_of allowed_cidr) network ≡ true)
          × (I.in_network addr network ≡ some true))

  is_true-some : (b : Option Bool) → is_true b ≡ true → b ≡ some true
  is_true-some none h = absurd (cc h)
  is_true-some (some b) h = ap some h

  in_some-IsAllowed :
      (allowed_cidr ip : Text) (found : Option I.Address)
      → I.ip_address ip ≡ found
      → in_some I (networks_of allowed_cidr) found ≡ true
      → IsAllowed allowed_cidr ip
  in_some-IsAllowed allowed_cidr ip none e h = absurd (cc h)
  in_some-IsAllowed allowed_cidr ip (some addr) e h =
      let (n, a, b) = any-found (λ c. is_true (I.in_network addr c)) (networks_of allowed_cidr) h in
      inr (addr, n, e, a, is_true-some (I.in_network addr n) b)

  ip_allowed-IsAllowed :
      (allowed_cidr ip : Text) → ip_allowed I allowed_cidr ip ≡ true → IsAllowed allowed_cidr ip
  unfolding ip_allowed
  ip_allowed-IsAllowed allowed_cidr ip h = elim (Bool-cases (is_empty (networks_of allowed_cidr))) [
    | inl e ↦ inl (empty-eq (networks_of allowed_cidr) e)
    | inr e ↦ in_some-IsAllowed allowed_cidr ip (I.ip_address ip) refl (rw e at h)
  ]

  IsAllowed→ip_allowed :
      (allowed_cidr ip : Text) → IsAllowed allowed_cidr ip → ip_allowed I allowed_cidr ip ≡ true
  unfolding ip_allowed
  IsAllowed→ip_allowed allowed_cidr ip (inl e) = rw e refl
  IsAllowed→ip_allowed allowed_cidr ip (inr (addr, n, e, a, b)) =
      let found =
        found-any (λ c. is_true (I.in_network addr c)) (networks_of allowed_cidr) n a (rw b refl) in
      rw e (ground (arith, found))

  key_sent :
      (given : Option Text) (key : Text)
      → is_empty key ≡ false
      → text_eq (text_or_empty given) key ≡ true
      → given ≡ some key
  key_sent none [] h e = absurd (cc h)
  key_sent none (c ∷ key) h e = absurd (cc (sym ((text_eq_iff [] (c ∷ key)).0 e)))
  key_sent (some s) key h e = ap some ((text_eq_iff s key).0 e)

  by_address : (b : Bool) → (if b then passed else refused) ≡ passed → b ≡ true
  by_address true h = refl
  by_address false h = absurd (cc h)

  by_sent_key-passed :
      (b : Option Bool) (rest : CallerReply)
      → by_sent_key I b rest ≡ passed
      → (b ≡ some true) × (rest ≡ passed)
  by_sent_key-passed none rest h = absurd (cc h)
  by_sent_key-passed (some false) rest h = absurd (cc h)
  by_sent_key-passed (some true) rest h = (refl, h)

  compare_digest-true : (s t : Text) → compare_digest s t ≡ some true → text_eq s t ≡ true
  unfolding compare_digest
  compare_digest-true s t h = elim (Bool-cases (is_ascii s && is_ascii t)) [
    | inl e ↦ let same : some (text_eq s t) ≡ some true = rw e at h in cc same
    | inr e ↦ let wrong : none ≡ some true = rw e at h in absurd (cc wrong)
  ]

  compare_digest_refl : (s : Text) → is_ascii s ≡ true → compare_digest s s ≡ some true
  unfolding compare_digest
  compare_digest_refl s h = rw (h, text_eq_refl s) refl

  -- With an ASCII key in the settings, a caller passes exactly when it sends that key and its
  -- address is allowed: the address is the first entry of X-Forwarded-For or, where this is blank,
  -- the host of the connection, and it must be in a network of the settings, if any is listed.
  pub check_caller_iff :
      (S : CallerSettings) (r : Caller)
      → is_empty S.internal_api_key ≡ false
      → is_ascii S.internal_api_key ≡ true
      → (check_caller I S r ≡ passed) ↔ (
          (ip : Text) × (r.internal_key ≡ some S.internal_api_key)
          × IsSender r ip
          × IsAllowed S.allowed_cidr ip)
  unfolding check_caller
  check_caller_iff S r h ascii =
      let key = S.internal_api_key in
      (
        λ e.
            let (same, allowed) =
              by_sent_key-passed (compare_digest (text_or_empty r.internal_key) key) _
                (rw h at e) in
            (
              client_ip r,
              key_sent r.internal_key key h (compare_digest-true _ key same),
              client_ip-IsSender r,
              ip_allowed-IsAllowed S.allowed_cidr (client_ip r) (by_address _ allowed),
            ),
        λ (ip, sent, sender, allowed).
            rw
              (
                sent,
                h,
                compare_digest_refl key ascii,
                IsSender→client_ip r ip sender,
                IsAllowed→ip_allowed S.allowed_cidr ip allowed,
              )
              refl,
      )
