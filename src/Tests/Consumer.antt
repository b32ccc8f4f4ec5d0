-- ===== src/Tests/Consumer.antt =====
-- A stream of functions, and the consumer of security events run on it.
use api_portal.Prelude.{
  Bool, Bool-cases, List, Option, Text, [], ap, arith, codes, contains, false, if◌then◌else◌, inl,
  inr, none, not, refl, some, sym, text_eq, text_eq_iff, true, ℕ, ◌&&◌, ◌||◌, ◌∷◌, ◌≡◌,
}
use api_portal.AuditConsumer.{
  Payload, malformed, event, Entry, ids_of, Stream, created, read_and_persist, rounds,
}
use api_portal.AuditConsumer.Delivery.{writable_ids, with_rows, read_and_persist-pending}
use api_portal.AuditConsumer.Redelivery.{is_read, rounds-IsStuck}

pub record Queue : Type 0 where
  pub entries : List Entry
  pub handed_out : Text → Bool
  pub waits : Text → Bool

-- The entries that were not handed out.
abbrev unread : (Text → Bool) → List Entry → List Entry
unread seen [] = []
unread seen ((id, payload) ∷ es) =
    let rest = unread seen es in if seen id then rest else (id, payload) ∷ rest

abbrev read_new : Queue → Option (List Entry) × Queue
read_new q =
    let es = unread q.handed_out q.entries in
    (
      some es,
      record {
        entries = q.entries;
        handed_out = λ id. q.handed_out id || contains (ids_of es) id;
        waits = λ id. q.waits id || contains (ids_of es) id;
      },
    )

abbrev ack : List Text → Queue → Queue
ack ids q = record q { waits = λ id. q.waits id && not (contains ids id) }

unread_fresh :
    (seen : Text → Bool) (es : List Entry) (id : Text)
    → seen id ≡ true
    → contains (ids_of (unread seen es)) id ≡ false
unfolding contains ids_of
unread_fresh seen [] id h = refl
unread_fresh seen ((k, payload) ∷ es) id h = elim (Bool-cases (seen k)) [
  | inl e ↦ rw e (unread_fresh seen es id h)
  | inr e ↦ elim (Bool-cases (text_eq k id)) [
    | inr f ↦ rw (e, f) (unread_fresh seen es id h)
    | inl f ↦ absurd (cc (e, ap seen ((text_eq_iff k id).0 f), h))
  ]
]

pub read_new-fresh :
    (n : ℕ) (q : Queue) (es : List Entry) (id : Text)
    → (read_new q).0 ≡ some es
    → q.handed_out id ≡ true
    → contains (ids_of es) id ≡ false
read_new-fresh n q es id e h =
    let same : unread q.handed_out q.entries ≡ es = cc e in
    rw (sym same) (unread_fresh q.handed_out q.entries id h)

pub read_new-waits :
    (n : ℕ) (q : Queue) (es : List Entry) (id : Text)
    → (read_new q).0 ≡ some es
    → (read_new q).1.waits id ≡ (q.waits id || contains (ids_of es) id)
read_new-waits n q es id e = let same : unread q.handed_out q.entries ≡ es = cc e in rw same refl

pub or_true : (a b : Bool) → a ≡ true → (a || b) ≡ true
or_true a b h = ground arith

pub ack_other :
    (ids : List Text) (q : Queue) (id : Text)
    → contains ids id ≡ false
    → (ack ids q).waits id ≡ q.waits id
ack_other ids q id h = ground arith

abbrev queue : Stream
queue = record {
  Server = Queue;
  handed = λ q. q.handed_out;
  pending = λ q. q.waits;
  xgroup_create = λ q. (created, q);
  xreadgroup = λ n q. read_new q;
  xack = λ ids q. (true, ack ids q);
  read_fresh = read_new-fresh;
  handed-read = λ n q id h. or_true _ _ h;
  pending-read = read_new-waits;
  pending-read_failed = λ n q id h. or_true _ _ h;
  handed-ack = λ ids q id. refl;
  pending-ack = λ ids q id h. refl;
  pending-ack_other = ack_other;
}

abbrev waiting : Queue
waiting = record {
  entries = (codes "1", none) ∷ (codes "2", some (codes "{}")) ∷ [];
  handed_out = λ id. text_eq id (codes "1");
  waits = λ id. text_eq id (codes "1");
}

-- The payload `{}` is an event without keys; nothing else is JSON.
abbrev json : Text → Payload
json s =
    if text_eq s (codes "{}")
    then event (record {
      event_type = none;
      token_id = none;
      user_sub = none;
      request_path = none;
      status_code = none;
      error_code = none;
    })
    else malformed

-- An event and an entry that is no JSON come in.
abbrev batch : List Entry
batch = (codes "2", some (codes "{}")) ∷ (codes "3", some (codes "x")) ∷ []

abbrev two_new : Queue
two_new = record { entries = batch; handed_out = λ id. false; waits = λ id. false }

read_and_persist-pending_example :
    ((read_and_persist json (λ e. true) queue (two_new, [])).1
      ≡ with_rows json (λ e. true) batch [])
    × (queue.pending (read_and_persist json (λ e. true) queue (two_new, [])).0 (codes "2") ≡ (
        (queue.pending two_new (codes "2") || contains (ids_of batch) (codes "2"))
        && not (contains (writable_ids json (λ e. true) batch) (codes "2"))))
unfolding text_eq
read_and_persist-pending_example =
    read_and_persist-pending json (λ e. true) queue two_new [] batch (codes "2") refl refl refl

rounds-IsStuck_example :
    (is_read (λ s. malformed) (λ e. true) queue (λ q. q) 5 (codes "1") (waiting, []) ≡ false)
    × (queue.pending
          (rounds (λ s. malformed) (λ e. true) queue (λ q. q) 5 (waiting, [])).0
          (codes "1")
        ≡ true)
unfolding text_eq
rounds-IsStuck_example =
    rounds-IsStuck (λ s. malformed) (λ e. true) queue (λ q. q) 5 (codes "1") waiting [] (λ q h. h)
      (refl, refl)
