-- ===== src/AuditConsumer/Redelivery.antt =====
-- What services/portal-backend/audit_consumer.py never reads again.
use api_portal.Prelude.{
  Bool, List, Option, Option-cases, Text, [], arith, contains, false, inl, inr, none, refl, some,
  suc, text_eq, true, zero, ℕ, ◌||◌, ◌∙◌, ◌∷◌, ◌≡◌,
}
use api_portal.Database.{AuditRow}
use api_portal.AuditConsumer.{
  SecurityEvent, Payload, malformed, unusable, event, Entry, ids_of, Stream, inserted, read_payload,
  persist, Outcome, also, written, entry_outcome, Consumer, acked, read_and_persist, rounds,
}

abbrev pub entries_of : Option (List Entry) → List Entry
entries_of none = []
entries_of (some es) = es

module _ (loads : Text → Payload) (accepts : SecurityEvent → Bool) where
  -- No id of an outcome is the given one.
  abbrev HasNot : Text → Outcome loads accepts → Type 0
  HasNot k (none, log) = Unit {0}
  HasNot k (some ids, log) = contains ids k ≡ false

  also-HasNot :
      (id k : Text) (o : Outcome loads accepts)
      → text_eq id k ≡ false
      → HasNot k o
      → HasNot k (also loads accepts id o)
  unfolding contains
  also-HasNot id k (none, log) e h = tt
  also-HasNot id k (some ids, log) e h = rw e h

  written-HasNot :
      (id k : Text) (o : Option AuditRow) (log : List AuditRow)
      (rest : List AuditRow → Outcome loads accepts)
      → text_eq id k ≡ false
      → ((log : List AuditRow) → HasNot k (rest log))
      → HasNot k (written loads accepts id o log rest)
  written-HasNot id k none log rest e h = h log
  written-HasNot id k (some row) log rest e h =
      also-HasNot id k (rest (row ∷ log)) e (h (row ∷ log))

  entry-HasNot :
      (id k : Text) (p : Payload) (log : List AuditRow)
      (rest : List AuditRow → Outcome loads accepts)
      → text_eq id k ≡ false
      → ((log : List AuditRow) → HasNot k (rest log))
      → HasNot k (entry_outcome loads accepts id p log rest)
  entry-HasNot id k malformed log rest e h = h log
  entry-HasNot id k unusable log rest e h = tt
  entry-HasNot id k (event ev) log rest e h =
      written-HasNot id k (inserted loads accepts ev) log rest e h

  persist-HasNot :
      (k : Text) (es : List Entry) (log : List AuditRow)
      → contains (ids_of es) k ≡ false
      → HasNot k (persist loads accepts es log)
  unfolding persist contains ids_of
  persist-HasNot k [] log h = refl
  persist-HasNot k ((id, payload) ∷ es) log h =
      entry-HasNot id k (read_payload loads accepts payload) log (persist loads accepts es)
        (ground arith) λ log'. persist-HasNot k es log' (ground arith)

  module _ (X : Stream) (others : X.Server → X.Server) where
    open X use {Server, handed, pending, xreadgroup}

    -- An entry that the group was handed and that is not acknowledged.
    abbrev pub IsStuck : Text → Server → Type 0
    IsStuck k s = (handed s k ≡ true) × (pending s k ≡ true)

    acked-IsStuck :
        (k : Text) (s : Server) (o : Outcome loads accepts)
        → HasNot k o
        → IsStuck k s
        → IsStuck k (acked loads accepts X s o).0
    acked-IsStuck k s (none, log) h stuck = stuck
    acked-IsStuck k s (some [], log) h stuck = stuck
    acked-IsStuck k s (some (id ∷ ids), log) h (a, b) =
        (X.handed-ack (id ∷ ids) s k ∙ a, X.pending-ack_other (id ∷ ids) s k h ∙ b)

    read_and_persist-IsStuck :
        (k : Text) (s : Server) (log : List AuditRow)
        → IsStuck k s
        → IsStuck k (read_and_persist loads accepts X (s, log)).0
    unfolding read_and_persist
    read_and_persist-IsStuck k s log (a, b) = elim (Option-cases (xreadgroup 100 s).0) [
      | inl e ↦ rw e (X.handed-read 100 s k a, X.pending-read_failed 100 s k b)
      | inr (es, e) ↦ rw e (
          acked-IsStuck k (xreadgroup 100 s).1 (persist loads accepts es log)
            (persist-HasNot k es log (X.read_fresh 100 s es k e a))
            (X.handed-read 100 s k a, X.pending-read_failed 100 s k b))
    ]

    -- Whether one of some rounds reads an entry.
    unfoldable pub is_read : ℕ → Text → Consumer loads accepts X → Bool
    unfolding read_and_persist
    is_read zero k st = false
    is_read (suc n) k (s, log) =
        let (s', log') = read_and_persist loads accepts X (s, log) in
        let later = is_read n k (others s', log') in
        contains (ids_of (entries_of (xreadgroup 100 s).0)) k || later

    unread :
        (k : Text) (s : Server)
        → handed s k ≡ true
        → contains (ids_of (entries_of (xreadgroup 100 s).0)) k ≡ false
    unfolding contains ids_of
    unread k s a = elim (Option-cases (xreadgroup 100 s).0) [
      | inl e ↦ rw e refl
      | inr (es, e) ↦ rw e (X.read_fresh 100 s es k e a)
    ]

    -- An entry that was read once and not acknowledged, since its payload is no event or the database
    -- did not take the row, is read by no later round, however many there are, and stays pending.
    pub rounds-IsStuck :
        (n : ℕ) (k : Text) (s : Server) (log : List AuditRow)
        → ((s : Server) → IsStuck k s → IsStuck k (others s))
        → IsStuck k s
        → (is_read n k (s, log) ≡ false)
          × (pending (rounds loads accepts X others n (s, log)).0 k ≡ true)
    unfolding is_read rounds
    rounds-IsStuck zero k s log f stuck = (refl, stuck.1)
    rounds-IsStuck (suc n) k s log f stuck =
        let st = read_and_persist loads accepts X (s, log) in
        let (a, b) =
          rounds-IsStuck n k (others st.0) st.1 f
            (f st.0 (read_and_persist-IsStuck k s log stuck)) in
        (rw (unread k s stuck.0) a, b)
