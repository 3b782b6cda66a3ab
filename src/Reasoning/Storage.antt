-- ===== src/Reasoning/Storage.antt =====
-- src/reasoning/storage.rs: the durable journal with its outbox, reports and markers. The database
-- is its tables. The JSON encoding of an event, serde's, is a parameter that the store holds.
-- `outcomes` lists how SQLite ends the coming transactions; past its end every one commits.
pub mod Tables
pub mod Appends
pub mod Rows
pub mod Deployments
pub mod Validations
pub mod Ledger
pub mod Untouched
pub mod Committed
pub mod Durable
pub mod Kept
pub mod Outbox
mod Examples
use ai_sre.Prelude.{
  ℕ, zero, suc, ◌+◌, ◌-◌, ◌^◌, Bool, true, false, not, ◌&&◌, ◌||◌, Option, none, some, List, [],
  ◌∷◌, ◌++◌, map, Result, ok, err, any, length, ltb, leb, ◌==◌, if◌then◌else◌, Text, text,
  same_text,
}
use ai_sre.Prelude.Map
use ai_sre.Prelude.Map.{Map}
use ai_sre.Reasoning.Journal.{
  JournalEvent, JournalContext, JournalEntry, tool_requested, tool_context,
}
use ai_sre.Reasoning.Storage.Tables.{Reviews}

pub data JournalStoreError : Type 0 where
  sqlite encoding non_contiguous_sequence budget_exhausted reservation_not_found : JournalStoreError
  invalid_deployment : JournalStoreError

pub record OutboxMessage : Type 0 where
  pub delivery_id : Text
  pub body : Text

-- a row of `notification_outbox`
pub record OutboxRow : Type 0 where
  pub message : OutboxMessage
  pub delivered_at_ms : Option ℕ

pub record StoredReport : Type 0 where
  pub incident_id : Text
  pub html : Text

-- serde's `to_string`, which does not fail on an event, and `from_str`
pub record EventCodec : Type 0 where
  pub to_json : JournalEvent → Text
  pub from_json : Text → Option JournalEvent

-- a row of `journal_events`
pub record EventRow : Type 0 where
  pub sequence : ℕ
  pub event_json : Text
  pub incident_id : Option Text
  pub run_id : Option Text

-- how a transaction ends: its changes are kept, or not, or they are kept and an error is reported
pub data CommitEnd : Type 0 where
  commits rolls_back ambiguous : CommitEnd

pub record JournalStore : Type 0 where
  pub codec : EventCodec
  pub journal : List JournalEntry
  pub rows : List EventRow
  pub outbox : List OutboxRow
  pub reports : List StoredReport
  pub markers : Map Text
  pub reviews : Reviews
  pub outcomes : List CommitEnd

abbrev pub i64_max : ℕ
i64_max = 2 ^ 63 - 1

-- the entries that `enumerate` numbers from `start`
abbrev pub entries_from : ℕ → Option JournalContext → List JournalEvent → List JournalEntry
entries_from start context [] = []
entries_from start context (event ∷ events) =
    record { sequence = start; context = context; event = event }
    ∷ entries_from (start + 1) context events

-- every `i64::try_from(start + offset)` succeeds
abbrev pub sequences_fit : ℕ → List JournalEvent → Bool
sequences_fit start [] = true
sequences_fit start (event ∷ events) = leb start i64_max && sequences_fit (start + 1) events

-- a transaction that makes `change`
unfoldable pub transact :
    JournalStore
    → (JournalStore → JournalStore)
    → JournalStore × Result JournalStoreError (Unit {0})
transact s change = elim s.outcomes [
  | [] ↦ (change s, ok tt)
  | commits ∷ later ↦ (record (change s) { outcomes = later }, ok tt)
  | rolls_back ∷ later ↦ (record s { outcomes = later }, err sqlite)
  | ambiguous ∷ later ↦ (record (change s) { outcomes = later }, err sqlite)
]

abbrev incident_of : Option JournalContext → Option Text
incident_of none = none
incident_of (some context) = some context.incident_id

abbrev run_of : Option JournalContext → Option Text
run_of none = none
run_of (some context) = some context.run_id

-- the rows that the statements insert
abbrev pub rows_from : EventCodec → ℕ → Option JournalContext → List JournalEvent → List EventRow
rows_from codec start context [] = []
rows_from codec start context (event ∷ events) =
    record {
      sequence = start;
      event_json = codec.to_json event;
      incident_id = incident_of context;
      run_id = run_of context;
    }
    ∷ rows_from codec (start + 1) context events

-- one of the new sequence numbers is a primary key already
abbrev pub is_taken : List EventRow → ℕ → List JournalEvent → Bool
is_taken rows start events =
    any (λ row. leb start row.sequence && ltb row.sequence (start + length events)) rows

pub add_rows : Option JournalContext → List JournalEvent → JournalStore → JournalStore
add_rows context events s = record s {
  rows = s.rows ++ rows_from s.codec (length s.journal) context events;
}

-- `restore` of the entries in memory, behind a commit
abbrev pub restored :
    Option JournalContext
    → List JournalEvent
    → ℕ
    → JournalStore × Result JournalStoreError (Unit {0})
    → JournalStore × Result JournalStoreError (Unit {0})
restored context events start (t, ok _) =
    (record t { journal = t.journal ++ entries_from start context events }, ok tt)
restored context events start (t, err e) = (t, err e)

-- the appends' common part, with what else the transaction changes
unfoldable pub append_events :
    JournalStore
    → List JournalEvent
    → Option JournalContext
    → (JournalStore → JournalStore)
    → JournalStore × Result JournalStoreError (Unit {0})
unfolding add_rows transact
append_events s events context change =
    if sequences_fit (length s.journal) events && not (is_taken s.rows (length s.journal) events)
    then restored context events (length s.journal)
        (transact s (λ t. change (add_rows context events t)))
    else (s, err sqlite)

-- the result is the new event's sequence number
unfoldable pub append_scoped :
    JournalStore → JournalEvent → Option JournalContext → JournalStore × Result JournalStoreError ℕ
unfolding append_events
append_scoped s event context =
    let (t, r) = append_events s (event ∷ []) context (λ u. u) in
    (t, elim r [ ok _ ↦ ok (length s.journal) | err e ↦ err e ])

unfoldable pub append : JournalStore → JournalEvent → JournalStore × Result JournalStoreError ℕ
unfolding append_scoped
append s event = append_scoped s event none

-- `INSERT … ON CONFLICT(delivery_id) DO NOTHING`
insert_message : OutboxMessage → List OutboxRow → List OutboxRow
insert_message m [] = record { message = m; delivered_at_ms = none } ∷ []
insert_message m (row ∷ rows) =
    let rest = insert_message m rows in
    if same_text row.message.delivery_id m.delivery_id then row ∷ rows else row ∷ rest

pub add_message : Option OutboxMessage → JournalStore → JournalStore
unfolding insert_message
add_message none s = s
add_message (some m) s = record s { outbox = insert_message m s.outbox }

-- `INSERT … ON CONFLICT(incident_id) DO UPDATE SET html = excluded.html`
upsert_report : StoredReport → List StoredReport → List StoredReport
upsert_report r [] = r ∷ []
upsert_report r (q ∷ rest) =
    let tail = upsert_report r rest in
    if same_text q.incident_id r.incident_id then r ∷ rest else q ∷ tail

unfoldable pub append_with_outbox_scoped :
    JournalStore
    → List JournalEvent
    → Option OutboxMessage
    → Option JournalContext
    → JournalStore × Result JournalStoreError (Unit {0})
unfolding append_events add_message
append_with_outbox_scoped s events message context =
    append_events s events context (add_message message)

unfoldable pub append_with_outbox :
    JournalStore
    → List JournalEvent
    → Option OutboxMessage
    → JournalStore × Result JournalStoreError (Unit {0})
unfolding append_with_outbox_scoped
append_with_outbox s events message = append_with_outbox_scoped s events message none

pub add_report : Option OutboxMessage → StoredReport → JournalStore → JournalStore
unfolding add_message upsert_report
add_report message report s =
    let t = add_message message s in record t { reports = upsert_report report t.reports }

unfoldable pub append_with_outbox_and_report :
    JournalStore
    → List JournalEvent
    → Option OutboxMessage
    → StoredReport
    → JournalStore × Result JournalStoreError (Unit {0})
unfolding append_events add_report
append_with_outbox_and_report s events message report =
    append_events s events none (add_report message report)

pub marker_key : Text → Text
marker_key checkpoint_id = text "journal-checkpoint:" ++ checkpoint_id

pub add_marker : Text → JournalStore → JournalStore
add_marker checkpoint_id s = record s {
  markers = Map.insert s.markers (marker_key checkpoint_id) checkpoint_id;
}

-- by the marker that is found
checkpoint :
    JournalStore
    → Text
    → List JournalEvent
    → Option JournalContext
    → Option Text
    → JournalStore × Result JournalStoreError Bool
unfolding append_events
checkpoint s checkpoint_id events context (some _) = (s, ok false)
checkpoint s checkpoint_id events context none =
    let (t, r) = append_events s events context (add_marker checkpoint_id) in
    (t, elim r [ ok _ ↦ ok true | err e ↦ err e ])

-- the result says whether the checkpoint was new
unfoldable pub append_checkpoint_scoped :
    JournalStore
    → Text
    → List JournalEvent
    → Option JournalContext
    → JournalStore × Result JournalStoreError Bool
unfolding checkpoint add_marker marker_key
append_checkpoint_scoped s checkpoint_id events context =
    checkpoint s checkpoint_id events context (Map.get s.markers (marker_key checkpoint_id))

abbrev same_context : Option JournalContext → JournalContext → Bool
same_context none c = false
same_context (some b) c = same_text b.incident_id c.incident_id && same_text b.run_id c.run_id

abbrev requests : Text → JournalEvent → Bool
requests call_id (tool_requested _ id _ _ _ _) = same_text id call_id
requests call_id _ = false

abbrev completes : Text → JournalEvent → Bool
completes call_id (tool_context _ id _ _ _ _ _ _ _ _) = same_text id call_id
completes call_id _ = false

unfoldable pub tool_request_recorded : JournalStore → JournalContext → Text → Bool
tool_request_recorded s context call_id =
    any (λ entry. same_context entry.context context && requests call_id entry.event) s.journal

unfoldable pub tool_request_pending : JournalStore → JournalContext → Text → Bool
unfolding tool_request_recorded
tool_request_pending s context call_id =
    tool_request_recorded s context call_id
    && not (
        any (λ entry. same_context entry.context context && completes call_id entry.event)
          s.journal)

-- `pending_outbox`, in insertion order
unfoldable pub pending_messages : List OutboxRow → List OutboxMessage
pending_messages [] = []
pending_messages (row ∷ rows) = elim row.delivered_at_ms [
  | none ↦ row.message ∷ pending_messages rows
  | some _ ↦ pending_messages rows
]

-- the `UPDATE` of `mark_outbox_delivered`: `delivery_id` is the primary key
deliver : Text → ℕ → List OutboxRow → List OutboxRow × Bool
deliver delivery_id at_ms [] = ([], false)
deliver delivery_id at_ms (row ∷ rows) =
    let (rest, updated) = deliver delivery_id at_ms rows in
    if same_text row.message.delivery_id delivery_id
    then elim row.delivered_at_ms [
      | none ↦ (record row { delivered_at_ms = some at_ms } ∷ rows, true)
      | some _ ↦ (row ∷ rows, false)
    ]
    else (row ∷ rest, updated)

unfoldable pub mark_outbox_delivered :
    JournalStore → Text → ℕ → JournalStore × Result JournalStoreError Bool
unfolding deliver transact
mark_outbox_delivered s delivery_id at_ms =
    if leb at_ms i64_max
    then (let (t, r) =
          transact s (λ u. record u { outbox = (deliver delivery_id at_ms u.outbox).0 }) in
        (t, elim r [ ok _ ↦ ok (deliver delivery_id at_ms s.outbox).1 | err e ↦ err e ]))
    else (s, err sqlite)

-- `incident_id.zip(run_id)`
abbrev pub context_of : Option Text → Option Text → Option JournalContext
context_of (some incident_id) (some run_id) =
    some (record { incident_id = incident_id; run_id = run_id })
context_of _ _ = none

abbrev pub read_entry :
    EventRow
    → Option JournalEvent
    → Result JournalStoreError (List JournalEntry)
    → Result JournalStoreError (List JournalEntry)
read_entry row none rest = err encoding
read_entry row (some event) (err e) = err e
read_entry row (some event) (ok entries) = ok (
    record {
      sequence = row.sequence;
      context = context_of row.incident_id row.run_id;
      event = event;
    }
    ∷ entries)

-- the replay of `open`: the rows in order, if they are numbered from zero without a gap
unfoldable pub replay_rows :
    EventCodec → ℕ → List EventRow → Result JournalStoreError (List JournalEntry)
replay_rows codec n [] = ok []
replay_rows codec n (row ∷ rows) =
    let rest = replay_rows codec (n + 1) rows in
    if row.sequence == n
    then read_entry row (codec.from_json row.event_json) rest
    else err non_contiguous_sequence

-- a new store over the same database
unfoldable pub reopen : JournalStore → Result JournalStoreError JournalStore
reopen s = elim (replay_rows s.codec 0 s.rows) [
  | ok entries ↦ ok (record s { journal = entries })
  | err e ↦ err e
]
