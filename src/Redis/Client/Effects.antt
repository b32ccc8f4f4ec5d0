-- ===== src/Redis/Client/Effects.antt =====
-- What the operations of the cache client leave in the store.
use api_portal.Prelude.{
  Bool-cases, List, Text, [], arith, contains, false, inl, inr, is_empty, refl, text_eq,
  text_eq_refl, true, ◌∙◌, ◌∷◌, ◌≡◌,
}
use api_portal.Redis.{Redis}
use api_portal.Redis.Client.{
  pat_key, idx_key, neg_key, delete_all, invalidate_pat, invalidate_jwt_cache,
}

module _ (R : Redis) where
  open R use {Store, has_key, hget, smembers, delete, hset, expire}

  -- The second store holds no key that the first does not hold, with the same fields.
  pub record Shrinks (s s' : Store) : Type 0 where
    pub keys : (k : Text) → has_key s' k ≡ true → has_key s k ≡ true
    pub fields : (k f : Text) → has_key s' k ≡ true → hget s' k f ≡ hget s k f

  pub Shrinks-refl : (s : Store) → Shrinks s s
  Shrinks-refl s = record { keys = λ k h. h; fields = λ k f h. refl }

  pub Shrinks-trans : (s t u : Store) → Shrinks s t → Shrinks t u → Shrinks s u
  Shrinks-trans s t u a b = record {
    keys = λ k h. a.keys k (b.keys k h);
    fields = λ k f h. b.fields k f h ∙ a.fields k f (b.keys k h);
  }

  pub delete-Shrinks : (k : Text) (s : Store) → Shrinks s (delete k s)
  delete-Shrinks k s = record {
    keys = λ j h. ground (arith, R.has_key-delete k j s);
    fields = λ j f h. ground (arith, R.has_key-delete k j s, R.hget-delete k j f s);
  }

  pub delete_all-Shrinks : (ks : List Text) (s : Store) → Shrinks s (delete_all R ks s)
  unfolding delete_all
  delete_all-Shrinks [] s = Shrinks-refl s
  delete_all-Shrinks (k ∷ ks) s =
      Shrinks-trans s (delete k s) (delete_all R ks (delete k s)) (delete-Shrinks k s)
        (delete_all-Shrinks ks (delete k s))

  -- A key that is deleted stays away.
  pub gone-Shrinks :
      (k : Text) (s s' : Store) → Shrinks s s' → has_key s k ≡ false → has_key s' k ≡ false
  gone-Shrinks k s s' sh h = elim (Bool-cases (has_key s' k)) [
    | inl e ↦ absurd (cc (sh.keys k e))
    | inr e ↦ e
  ]

  pub has_key-delete_self : (k : Text) (s : Store) → has_key (delete k s) k ≡ false
  has_key-delete_self k s = rw (R.has_key-delete k k s, text_eq_refl k)

  pub has_key-delete_all :
      (k : Text) (ks : List Text) (s : Store)
      → contains ks k ≡ true
      → has_key (delete_all R ks s) k ≡ false
  unfolding delete_all contains
  has_key-delete_all k [] s h = cc
  has_key-delete_all k (j ∷ ks) s h = elim (Bool-cases (text_eq j k)) [
    | inl e ↦
        gone-Shrinks k (delete j s) (delete_all R ks (delete j s))
          (delete_all-Shrinks ks (delete j s)) (rw (R.has_key-delete j k s, e))
    | inr e ↦ has_key-delete_all k ks (delete j s) (rw e at h)
  ]

  pub invalidate_pat-Shrinks :
      (t : Text) (s : Store)
      → Shrinks s (invalidate_pat R t s) × (has_key (invalidate_pat R t s) (pat_key t) ≡ false)
  unfolding invalidate_pat
  invalidate_pat-Shrinks t s =
      let jwt_keys = smembers s (idx_key t) in
      let one = delete (pat_key t) s in
      let two = delete (neg_key t) one in
      let three = delete_all R jwt_keys two in
      let rest = Shrinks-trans one two (delete (idx_key t) three) (delete-Shrinks (neg_key t) one) (
        Shrinks-trans two three (delete (idx_key t) three) (delete_all-Shrinks jwt_keys two)
          (delete-Shrinks (idx_key t) three)) in
      (
        Shrinks-trans s one (delete (idx_key t) three) (delete-Shrinks (pat_key t) s) rest,
        gone-Shrinks (pat_key t) one (delete (idx_key t) three) rest
            (has_key-delete_self (pat_key t) s),
      )

  -- After `invalidate_pat` the store holds neither the entry of the token, nor its negative entry,
  -- nor its index; and it holds nothing that was not there.
  pub invalidate_pat_lem :
      (t : Text) (s : Store)
      → Shrinks s (invalidate_pat R t s)
        × (has_key (invalidate_pat R t s) (pat_key t) ≡ false)
        × (has_key (invalidate_pat R t s) (neg_key t) ≡ false)
        × (has_key (invalidate_pat R t s) (idx_key t) ≡ false)
  unfolding invalidate_pat
  invalidate_pat_lem t s =
      let jwt_keys = smembers s (idx_key t) in
      let one = delete (pat_key t) s in
      let two = delete (neg_key t) one in
      let three = delete_all R jwt_keys two in
      let (sh, gone) = invalidate_pat-Shrinks t s in
      (
        sh,
        gone,
        gone-Shrinks (neg_key t) two (delete (idx_key t) three)
            (Shrinks-trans two three (delete (idx_key t) three) (delete_all-Shrinks jwt_keys two)
              (delete-Shrinks (idx_key t) three))
            (has_key-delete_self (neg_key t) one),
        has_key-delete_self (idx_key t) three,
      )

  -- After `invalidate_pat` the store holds no JWT that the index of the token named.
  pub invalidate_pat_jwts :
      (t k : Text) (s : Store)
      → contains (smembers s (idx_key t)) k ≡ true
      → has_key (invalidate_pat R t s) k ≡ false
  unfolding invalidate_pat
  invalidate_pat_jwts t k s h =
      let jwt_keys = smembers s (idx_key t) in
      let two = delete (neg_key t) (delete (pat_key t) s) in
      let three = delete_all R jwt_keys two in
      gone-Shrinks k three (delete (idx_key t) three) (delete-Shrinks (idx_key t) three)
        (has_key-delete_all k jwt_keys two h)

  pub invalidate_jwt_cache-Shrinks :
      (ts : List Text) (s : Store) → Shrinks s (invalidate_jwt_cache R ts s).1
  unfolding invalidate_jwt_cache
  invalidate_jwt_cache-Shrinks [] s = Shrinks-refl s
  invalidate_jwt_cache-Shrinks (t ∷ ts) s = elim (Bool-cases (is_empty (smembers s (idx_key t)))) [
    | inl e ↦ rw e (invalidate_jwt_cache-Shrinks ts s)
    | inr e ↦
        let jwt_keys = smembers s (idx_key t) in
        let all_gone = delete_all R jwt_keys s in
        let dropped = delete (idx_key t) all_gone in
        rw e (
          Shrinks-trans s dropped (invalidate_jwt_cache R ts dropped).1
            (Shrinks-trans s all_gone dropped (delete_all-Shrinks jwt_keys s)
              (delete-Shrinks (idx_key t) all_gone))
            (invalidate_jwt_cache-Shrinks ts dropped))
  ]
