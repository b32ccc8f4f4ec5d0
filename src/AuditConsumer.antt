-- ===== src/AuditConsumer.antt =====
-- services/portal-backend/audit_consumer.py. The commands on Redis streams are a parameter, with
-- their documented effect on what the group was handed and what is pending; so are `json.loads`
-- and the checks of the database on a row.
pub mod Delivery
pub mod Redelivery
use api_portal.Prelude.{
  Bool, List, Option, Text, [], contains, false, if◌then◌else◌, none, not, some, suc, true, zero, ℕ,
  ◌&&◌, ◌||◌, ◌∷◌, ◌≡◌,
}
use api_portal.Database.{AuditRow}
use api_portal.PatUtils.Format.Mask.{mask_pat}

-- The keys of an event that the columns of the model's audit log take.
pub record SecurityEvent : Type 0 where
  pub event_type : Option Text
  pub token_id : Option Text
  pub user_sub : Option Text
  pub request_path : Option Text
  pub status_code : Option ℕ
  pub error_code : Option Text

-- What `json.loads` makes of a payload: `JSONDecodeError`, a value that has no `get` or whose path
-- is no text, or an event.
pub data Payload : Type 0 where
  malformed unusable : Payload
  event : SecurityEvent → Payload

-- An entry of the stream: its id, and the field `payload`.
abbrev pub Entry : Type 0
Entry = Text × Option Text

pub data GroupReply : Type 0 where
  created busygroup error : GroupReply

unfoldable pub ids_of : List Entry → List Text
ids_of [] = []
ids_of ((id, payload) ∷ es) = id ∷ ids_of es

-- XGROUP CREATE, XREADGROUP with `>`, and XACK, for the one stream and group; `none` and `false`
-- where the client raises.
pub record Stream : Type 1 where
  pub Server : Type 0
  -- Whether the group was handed an entry, and whether that is not acknowledged.
  pub handed : Server → Text → Bool
  pub pending : Server → Text → Bool
  pub xgroup_create : Server → GroupReply × Server
  pub xreadgroup : ℕ → Server → Option (List Entry) × Server
  pub xack : List Text → Server → Bool × Server
  -- `>` asks for entries that no consumer of the group was handed.
  pub read_fresh :
      (n : ℕ) (s : Server) (es : List Entry) (id : Text)
      → (xreadgroup n s).0 ≡ some es
      → handed s id ≡ true
      → contains (ids_of es) id ≡ false
  pub handed-read :
      (n : ℕ) (s : Server) (id : Text) → handed s id ≡ true → handed (xreadgroup n s).1 id ≡ true
  pub pending-read :
      (n : ℕ) (s : Server) (es : List Entry) (id : Text)
      → (xreadgroup n s).0 ≡ some es
      → pending (xreadgroup n s).1 id ≡ (pending s id || contains (ids_of es) id)
  pub pending-read_failed :
      (n : ℕ) (s : Server) (id : Text) → pending s id ≡ true → pending (xreadgroup n s).1 id ≡ true
  pub handed-ack :
      (ids : List Text) (s : Server) (id : Text) → handed (xack ids s).1 id ≡ handed s id
  pub pending-ack :
      (ids : List Text) (s : Server) (id : Text)
      → (xack ids s).0 ≡ true
      → pending (xack ids s).1 id ≡ (pending s id && not (contains ids id))
  -- XACK of other entries, whether or not its answer arrives.
  pub pending-ack_other :
      (ids : List Text) (s : Server) (id : Text)
      → contains ids id ≡ false
      → pending (xack ids s).1 id ≡ pending s id

abbrev or_nil : Option Text → Text
or_nil none = []
or_nil (some s) = s

-- The row; the column `event_type` takes no NULL.
abbrev pub row_of : SecurityEvent → Text → AuditRow
row_of e event_type = record {
  event_type = event_type;
  token_id = e.token_id;
  user_sub = e.user_sub;
  request_path = some (mask_pat (or_nil e.request_path));
  status_code = e.status_code;
  error_code = e.error_code;
}

module _ (loads : Text → Payload) (accepts : SecurityEvent → Bool) where
  abbrev taken : SecurityEvent → Option Text → Option AuditRow
  taken e none = none
  taken e (some event_type) = if accepts e then some (row_of e event_type) else none

  -- The row that the INSERT of an event adds, if it adds one.
  abbrev pub inserted : SecurityEvent → Option AuditRow
  inserted e = taken e e.event_type

  abbrev pub read_payload : Option Text → Payload
  read_payload none = malformed
  read_payload (some raw) = loads raw

  abbrev pub Outcome : Type 0
  Outcome = Option (List Text) × List AuditRow

  abbrev pub also : Text → Outcome → Outcome
  also id (none, log) = (none, log)
  also id (some ids, log) = (some (id ∷ ids), log)

  abbrev pub written : Text → Option AuditRow → List AuditRow → (List AuditRow → Outcome) → Outcome
  written id none log rest = rest log
  written id (some row) log rest = also id (rest (row ∷ log))

  abbrev pub entry_outcome : Text → Payload → List AuditRow → (List AuditRow → Outcome) → Outcome
  entry_outcome id malformed log rest = rest log
  entry_outcome id unusable log rest = (none, log)
  entry_outcome id (event e) log rest = written id (inserted e) log rest

  -- `_persist`: the ids that were written, `none` where an exception leaves it; the log.
  unfoldable pub persist : List Entry → List AuditRow → Outcome
  persist [] log = (some [], log)
  persist ((id, payload) ∷ es) log = entry_outcome id (read_payload payload) log (persist es)

  module _ (X : Stream) where
    abbrev pub Consumer : Type 0
    Consumer = X.Server × List AuditRow

    abbrev pub acked : X.Server → Outcome → Consumer
    acked s (none, log) = (s, log)
    acked s (some [], log) = (s, log)
    acked s (some (id ∷ ids), log) = ((X.xack (id ∷ ids) s).1, log)

    abbrev pub handled : Option (List Entry) × X.Server → List AuditRow → Consumer
    handled (none, s) log = (s, log)
    handled (some es, s) log = acked s (persist es log)

    -- `_read_and_persist`; `run_consumer` goes on behind every exception.
    unfoldable pub read_and_persist : Consumer → Consumer
    unfolding persist
    read_and_persist (s, log) = handled (X.xreadgroup 100 s) log

    -- `_ensure_group`: whether it came through without an exception.
    abbrev came : GroupReply → Bool
    came created = true
    came busygroup = true
    came error = false

    unfoldable pub ensure_group : X.Server → Bool × X.Server
    ensure_group s = let (reply, s') = X.xgroup_create s in (came reply, s')

    -- The rounds of `run_consumer`, with what the gateways do between two of them.
    unfoldable pub rounds : (X.Server → X.Server) → ℕ → Consumer → Consumer
    unfolding read_and_persist
    rounds others zero st = st
    rounds others (suc n) st = let (s, log) = read_and_persist st in rounds others n (others s, log)

    unfoldable pub run_consumer : (X.Server → X.Server) → ℕ → Consumer → Consumer
    unfolding ensure_group rounds
    run_consumer others n (s, log) = rounds others n ((ensure_group s).1, log)
