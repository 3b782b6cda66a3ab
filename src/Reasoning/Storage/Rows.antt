-- ===== src/Reasoning/Storage/Rows.antt =====
-- src/reasoning/storage.rs: about the rows of the journal and what is read back from them.
use ai_sre.Prelude.{
  ℕ, ◌+◌, ◌≤◌, ◌<◌, ◌≡◌, refl, sym, ap, ◌∙◌, subst, true, Option, none, some, List, [], ◌∷◌, ◌++◌,
  ok, All, length, leb, ◌==◌, arith, inl, inr, Bool-cases, Result-cases,
}
use ai_sre.Reasoning.Journal.{JournalEvent, JournalContext, JournalEntry}
use ai_sre.Reasoning.Storage.{
  EventCodec, EventRow, entries_from, rows_from, incident_of, run_of, context_of, read_entry,
  replay_rows, is_taken,
}

-- an event is read back from its JSON
abbrev pub Reads : EventCodec → JournalEvent → Type 0
Reads codec event = codec.from_json (codec.to_json event) ≡ some event

-- numbered from `n` without a gap
abbrev pub Numbered : ℕ → List JournalEntry → Type 0
Numbered n [] = Unit
Numbered n (entry ∷ entries) = (entry.sequence ≡ n) × Numbered (n + 1) entries

context_of_columns :
    (context : Option JournalContext) → context_of (incident_of context) (run_of context) ≡ context
context_of_columns none = refl
context_of_columns (some context) = refl

pub replay_from :
    (codec : EventCodec) (n : ℕ) (context : Option JournalContext) (events : List JournalEvent)
    → All (Reads codec) events
    → replay_rows codec n (rows_from codec n context events) ≡ ok (entries_from n context events)
unfolding replay_rows
replay_from codec n context [] h = refl
replay_from codec n context (event ∷ events) h =
    let same : (n == n) ≡ true = ground arith in
    rw
      (
        same,
        h.0,
        replay_from codec (n + 1) context events h.1,
        context_of_columns context,
        replay_rows,
      )
      refl

-- the first row of a replay that succeeds
record Replayed (codec : EventCodec) (n : ℕ) (row : EventRow) (rows : List EventRow)
    (entries : List JournalEntry) : Type 0 where
  event : JournalEvent
  later : List JournalEntry
  numbered : row.sequence ≡ n
  event_read : codec.from_json row.event_json ≡ some event
  later_read : replay_rows codec (n + 1) rows ≡ ok later
  entries_are :
      entries
      ≡ record {
        sequence = row.sequence;
        context = context_of row.incident_id row.run_id;
        event = event;
      }
        ∷ later

read_entry-Replayed :
    (codec : EventCodec) (n : ℕ) (row : EventRow) (rows : List EventRow)
    (entries : List JournalEntry) (o : Option JournalEvent)
    → codec.from_json row.event_json ≡ o
    → row.sequence ≡ n
    → read_entry row o (replay_rows codec (n + 1) rows) ≡ ok entries
    → Replayed codec n row rows entries
read_entry-Replayed codec n row rows entries none e k = λ h. absurd (cc h)
read_entry-Replayed codec n row rows entries (some event) e k =
    elim (Result-cases (replay_rows codec (n + 1) rows)) [
      | inr (x, f) ↦ rw f (λ h. absurd (cc h))
      | inl (later, f) ↦ rw f (λ h. record {
        event = event;
        later = later;
        numbered = k;
        event_read = e;
        later_read = f;
        entries_are = cc h;
      })
    ]

replay-Replayed :
    (codec : EventCodec) (n : ℕ) (row : EventRow) (rows : List EventRow)
    (entries : List JournalEntry)
    → replay_rows codec n (row ∷ rows) ≡ ok entries
    → Replayed codec n row rows entries
unfolding replay_rows
replay-Replayed codec n row rows entries = elim (Bool-cases (row.sequence == n)) [
  | inr e ↦ rw (e, replay_rows) (λ h. absurd (cc h))
  | inl e ↦
      rw (e, replay_rows)
        (read_entry-Replayed codec n row rows entries (codec.from_json row.event_json) refl
          (ground (arith, e)))
]

replay_nothing :
    (codec : EventCodec) (n : ℕ) (xs : List JournalEntry) → replay_rows codec n [] ≡ ok xs → xs ≡ []
unfolding replay_rows
replay_nothing codec n xs h = cc h

replay_cons :
    (codec : EventCodec) (n : ℕ) (row : EventRow) (rows : List EventRow) (event : JournalEvent)
    (later : List JournalEntry)
    → row.sequence ≡ n
    → codec.from_json row.event_json ≡ some event
    → replay_rows codec (n + 1) rows ≡ ok later
    → replay_rows codec n (row ∷ rows)
      ≡ ok (
          record {
            sequence = row.sequence;
            context = context_of row.incident_id row.run_id;
            event = event;
          }
          ∷ later)
unfolding replay_rows
replay_cons codec n row rows event later k e f =
    let same : (row.sequence == n) ≡ true = ground (arith, k) in rw (same, e, f, replay_rows) refl

pub replay-append :
    (codec : EventCodec) (n : ℕ) (rows more : List EventRow) (xs ys : List JournalEntry)
    → replay_rows codec n rows ≡ ok xs
    → replay_rows codec (n + length xs) more ≡ ok ys
    → replay_rows codec n (rows ++ more) ≡ ok (xs ++ ys)
replay-append codec n [] more xs ys h k =
    subst
      (λ zs.
        replay_rows codec (n + length zs) more ≡ ok ys → replay_rows codec n more ≡ ok (zs ++ ys))
      (sym (replay_nothing codec n xs h))
      (λ q. subst (λ m. replay_rows codec m more ≡ ok ys) (omega arith) q) k
replay-append codec n (row ∷ rows) more xs ys h k =
    let r = replay-Replayed codec n row rows xs h in
    let size : n + length xs ≡ n + 1 + length r.later =
      omega (arith, ap (λ (x : List JournalEntry). length x) r.entries_are) in
    let rest =
      replay-append codec (n + 1) rows more r.later ys r.later_read
        (subst (λ m. replay_rows codec m more ≡ ok ys) size k) in
    replay_cons codec n row (rows ++ more) r.event (r.later ++ ys) r.numbered r.event_read rest
    ∙ ap (λ zs. ok (zs ++ ys)) (sym r.entries_are)

pub replay-Numbered :
    (codec : EventCodec) (n : ℕ) (rows : List EventRow) (xs : List JournalEntry)
    → replay_rows codec n rows ≡ ok xs
    → Numbered n xs × (length xs ≡ length rows)
replay-Numbered codec n [] xs h = rw (replay_nothing codec n xs h) (tt, refl)
replay-Numbered codec n (row ∷ rows) xs h =
    let r = replay-Replayed codec n row rows xs h in
    let (numbered, size) = replay-Numbered codec (n + 1) rows r.later r.later_read in
    rw r.entries_are ((r.numbered, numbered), omega (arith, size))

-- a sequence number of a row is taken
pub replay-is_taken :
    (codec : EventCodec) (k n : ℕ) (rows : List EventRow) (xs : List JournalEntry)
    (event : JournalEvent) (events : List JournalEvent)
    → replay_rows codec k rows ≡ ok xs
    → k ≤ n
    → n < k + length xs
    → is_taken rows n (event ∷ events) ≡ true
replay-is_taken codec k n [] xs event events h below room = absurd (
    omega
      (arith, ap (λ (x : List JournalEntry). length x) (replay_nothing codec k xs h), room, below))
replay-is_taken codec k n (row ∷ rows) xs event events h below room =
    let r = replay-Replayed codec k row rows xs h in
    let size : length xs ≡ 1 + length r.later =
      ap (λ (x : List JournalEntry). length x) r.entries_are ∙ omega arith in
    elim (Bool-cases (leb (k + 1) n)) [
      | inl e ↦ ground (
        arith,
        replay-is_taken codec (k + 1) n rows r.later event events r.later_read (ground (arith, e))
            (omega (arith, size, room)),
      )
      | inr e ↦ ground (arith, e, below, r.numbered)
    ]
