-- ===== src/AuditConsumer/Delivery.antt =====
-- What services/portal-backend/audit_consumer.py acknowledges, and what it never sees again.
use api_portal.Prelude.{
  Bool, List, Option, Text, [], and-true, ap, arith, contains, false, none, not, refl, some, true,
  ◌&&◌, ◌||◌, ◌∙◌, ◌∷◌, ◌≡◌,
}
use api_portal.Database.{AuditRow}
use api_portal.AuditConsumer.{
  SecurityEvent, Payload, malformed, unusable, event, Entry, ids_of, Stream, inserted, read_payload,
  persist, Outcome, also, written, entry_outcome, acked, read_and_persist,
}

module _ (loads : Text → Payload) (accepts : SecurityEvent → Bool) where
  -- The row of an entry, if it gets one.
  abbrev pub row_for : Payload → Option AuditRow
  row_for malformed = none
  row_for unusable = none
  row_for (event e) = inserted loads accepts e

  abbrev pub is_unusable : Payload → Bool
  is_unusable unusable = true
  is_unusable _ = false

  -- The ids of the entries that get a row, and the log with these rows in front, the last one first.
  abbrev ids_with {ℓ} : {A : Type ℓ} → Text → Option A → List Text → List Text
  ids_with id none ids = ids
  ids_with id (some row) ids = id ∷ ids

  abbrev put_row : Option AuditRow → List AuditRow → List AuditRow
  put_row none log = log
  put_row (some row) log = row ∷ log

  abbrev pub writable_ids : List Entry → List Text
  writable_ids [] = []
  writable_ids ((id, payload) ∷ es) =
      ids_with id (row_for (read_payload loads accepts payload)) (writable_ids es)

  abbrev pub with_rows : List Entry → List AuditRow → List AuditRow
  with_rows [] log = log
  with_rows ((id, payload) ∷ es) log =
      with_rows es (put_row (row_for (read_payload loads accepts payload)) log)

  abbrev pub all_usable : List Entry → Bool
  all_usable [] = true
  all_usable ((id, payload) ∷ es) =
      not (is_unusable (read_payload loads accepts payload)) && all_usable es

  written_lem :
      (id : Text) (o : Option AuditRow) (ids : List Text) (log : List AuditRow)
      (rest : List AuditRow → Outcome loads accepts) (last : List AuditRow → List AuditRow)
      → ((log : List AuditRow) → rest log ≡ (some ids, last log))
      → written loads accepts id o log rest ≡ (some (ids_with id o ids), last (put_row o log))
  written_lem id none ids log rest last h = h log
  written_lem id (some row) ids log rest last h = ap (also loads accepts id) (h (row ∷ log))

  entry_lem :
      (id : Text) (p : Payload) (ids : List Text) (log : List AuditRow)
      (rest : List AuditRow → Outcome loads accepts) (last : List AuditRow → List AuditRow)
      → not (is_unusable p) ≡ true
      → ((log : List AuditRow) → rest log ≡ (some ids, last log))
      → entry_outcome loads accepts id p log rest
        ≡ (some (ids_with id (row_for p) ids), last (put_row (row_for p) log))
  entry_lem id malformed ids log rest last u h = h log
  entry_lem id unusable ids log rest last u h = absurd (cc u)
  entry_lem id (event e) ids log rest last u h =
      written_lem id (inserted loads accepts e) ids log rest last h

  persist_lem :
      (es : List Entry) (log : List AuditRow)
      → all_usable es ≡ true
      → persist loads accepts es log ≡ (some (writable_ids es), with_rows es log)
  unfolding persist
  persist_lem [] log h = refl
  persist_lem ((id, payload) ∷ es) log h =
      let (a, b) =
        and-true (not (is_unusable (read_payload loads accepts payload))) (all_usable es) h in
      entry_lem id (read_payload loads accepts payload) (writable_ids es) log
        (persist loads accepts es) (with_rows es) a λ log'. persist_lem es log' b

  module _ (X : Stream) where
    open X use {Server, handed, pending}

    abbrev log_after : List Entry → List AuditRow → List AuditRow
    log_after = with_rows

    acked-log :
        (s : Server) (ids : List Text) (log : List AuditRow)
        → (acked loads accepts X s (some ids, log)).1 ≡ log
    acked-log s [] log = refl
    acked-log s (id ∷ ids) log = refl

    acked-pending :
        (s : Server) (ids : List Text) (log : List AuditRow) (id : Text)
        → (X.xack ids s).0 ≡ true
        → pending (acked loads accepts X s (some ids, log)).0 id
          ≡ (pending s id && not (contains ids id))
    unfolding contains
    acked-pending s [] log id h = ground arith
    acked-pending s (i ∷ ids) log id h = X.pending-ack (i ∷ ids) s id h

    -- A round whose read came, whose payloads are JSON objects or no JSON, and whose XACK came, adds
    -- the rows of its writable events to the log and acknowledges exactly these: what else it read
    -- stays pending, with what was pending before.
    pub read_and_persist-pending :
        (s : Server) (log : List AuditRow) (es : List Entry) (id : Text)
        → (X.xreadgroup 100 s).0 ≡ some es
        → all_usable es ≡ true
        → (X.xack (writable_ids es) (X.xreadgroup 100 s).1).0 ≡ true
        → ((read_and_persist loads accepts X (s, log)).1 ≡ with_rows es log)
          × (pending (read_and_persist loads accepts X (s, log)).0 id
              ≡ ((pending s id || contains (ids_of es) id) && not (contains (writable_ids es) id)))
    unfolding read_and_persist
    read_and_persist-pending s log es id read usable came =
        let s' = (X.xreadgroup 100 s).1 in
        rw (read) (
          rw (persist_lem es log usable) (
            acked-log s' (writable_ids es) (with_rows es log),
            acked-pending s' (writable_ids es) (with_rows es log) id came
                ∙ rw (X.pending-read 100 s es id read) refl,
          ))
