-- ===== src/Reasoning/Storage/Committed.antt =====
-- src/reasoning/storage.rs: about one append to the journal in memory and in the database.
use ai_sre.Prelude.{
  ℕ, ◌+◌, ◌<◌, ◌≡◌, refl, sym, ap, ◌∙◌, Bool, true, false, Option, List, [], ◌∷◌, ◌++◌, ok, err,
  inl, inr, ◌⊎◌, length, length-append, arith, subst, All, append-nil, append_assoc,
}
use ai_sre.Reasoning.Journal.{JournalEvent, JournalContext, JournalEntry}
use ai_sre.Reasoning.Storage.Appends.{
  stored, committed, rolled_back, unreported, append_events_cases, append-IsCertain, IsCertain,
}
use ai_sre.Reasoning.Storage.Rows.{Reads, replay_from, replay-append, replay-is_taken}
use ai_sre.Reasoning.Storage.Untouched.{KeepsJournal}
use ai_sre.Reasoning.Storage.{
  JournalStore, EventCodec, EventRow, sqlite, CommitEnd, entries_from, rows_from, is_taken,
  add_rows, append_events, replay_rows,
}

-- What memory lacks is nothing, and no coming end is ambiguous, where all ends are `certain`.
abbrev pub Exact : Bool → List JournalEntry → List CommitEnd → Type 0
Exact true more outcomes = (more ≡ []) × All IsCertain outcomes
Exact false more outcomes = Unit

-- the rows read back as the journal in memory and what memory lacks behind it
pub record IsDurable (certain : Bool) (s : JournalStore) : Type 0 where
  pub more : List JournalEntry
  pub replayed : replay_rows s.codec 0 s.rows ≡ ok (s.journal ++ more)
  pub exact : Exact certain more s.outcomes

-- a store with the same journal, rows, encoding and ends
pub same-IsDurable :
    (certain : Bool) (s t : JournalStore)
    → t.journal ≡ s.journal
    → t.rows ≡ s.rows
    → t.codec ≡ s.codec
    → (more : List JournalEntry) → replay_rows s.codec 0 s.rows ≡ ok (s.journal ++ more)
    → Exact certain more t.outcomes
    → IsDurable certain t
same-IsDurable certain s t j r c more h exact = record {
  more = more;
  replayed =
      ap (λ x. replay_rows x 0 t.rows) c
      ∙ ap (replay_rows s.codec 0) r
      ∙ h
      ∙ ap (λ x. ok (x ++ more)) (sym j);
  exact = exact;
}

module _ (s : JournalStore) (events : List JournalEvent) (context : Option JournalContext)
    (more : List JournalEntry)
    (replayed : replay_rows s.codec 0 s.rows ≡ ok (s.journal ++ more)) where
  abbrev entries : List JournalEntry
  entries = entries_from (length s.journal) context events

  -- memory lacks nothing, or nothing is appended
  nothing_lacks :
      (xs : List JournalEntry) (es : List JournalEvent)
      → more ≡ xs
      → is_taken s.rows (length s.journal) es ≡ false
      → (more ≡ []) ⊎ (es ≡ [])
  nothing_lacks [] es e free = inl e
  nothing_lacks (x ∷ xs) [] e free = inr refl
  nothing_lacks (x ∷ xs) (y ∷ ys) e free =
      let room : length s.journal < 0 + length (s.journal ++ more) =
        omega (arith, length-append s.journal more, ap (λ (l : List JournalEntry). length l) e) in
      let taken : is_taken s.rows (length s.journal) (y ∷ ys) ≡ true =
        replay-is_taken s.codec 0 (length s.journal) s.rows (s.journal ++ more) y ys replayed
          (omega arith) room in
      absurd (cc (free, taken))

  abbrev Stored : List JournalEvent → Type 0
  Stored es =
      replay_rows s.codec 0 (s.rows ++ rows_from s.codec (length s.journal) context es)
      ≡ ok ((s.journal ++ more) ++ entries_from (length s.journal) context es)

  replay-Stored : All (Reads s.codec) events → (more ≡ []) ⊎ (events ≡ []) → Stored events
  replay-Stored reads (inl e) =
      let size : length s.journal ≡ 0 + length (s.journal ++ more) =
        omega (arith, length-append s.journal more, ap (λ (l : List JournalEntry). length l) e) in
      replay-append s.codec 0 s.rows (rows_from s.codec (length s.journal) context events)
        (s.journal ++ more) entries replayed
        (subst
          (λ n.
            replay_rows s.codec n (rows_from s.codec (length s.journal) context events)
            ≡ ok entries)
          size (replay_from s.codec (length s.journal) context events reads))
  replay-Stored reads (inr e) = subst Stored (sym e) (
      ap (replay_rows s.codec 0) (append-nil s.rows)
      ∙ replayed
      ∙ ap (λ x. ok x) (sym (append-nil (s.journal ++ more))))

  -- in memory the new entries stand before those that it lacked
  turned :
      (more ≡ []) ⊎ (events ≡ []) → (s.journal ++ more) ++ entries ≡ (s.journal ++ entries) ++ more
  turned (inl e) =
      subst (λ m. (s.journal ++ m) ++ entries ≡ (s.journal ++ entries) ++ m) (sym e)
        (ap (λ x. x ++ entries) (append-nil s.journal) ∙ sym (append-nil (s.journal ++ entries)))
  turned (inr e) =
      subst
        (λ es.
          (s.journal ++ more) ++ entries_from (length s.journal) context es
          ≡ (s.journal ++ entries_from (length s.journal) context es) ++ more)
        (sym e) (append-nil (s.journal ++ more) ∙ ap (λ x. x ++ more) (sym (append-nil s.journal)))

pub outcomes-Exact :
    (certain : Bool) (more : List JournalEntry) (o p : List CommitEnd)
    → Exact certain more o
    → (All IsCertain o → All IsCertain p)
    → Exact certain more p
outcomes-Exact true more o p h f = (h.0, f h.1)
outcomes-Exact false more o p h f = tt

-- an error of a certain store has left the rows alone
unreported-Exact :
    (certain : Bool) (more : List JournalEntry) (o p : List CommitEnd) (codec : EventCodec)
    (rows : List EventRow) (n : ℕ) (context : Option JournalContext) (events : List JournalEvent)
    → Exact certain more o
    → (All IsCertain o → All IsCertain p × (rows ++ rows_from codec n context events ≡ rows))
    → Exact certain (more ++ entries_from n context events) p
unreported-Exact false more o p codec rows n context events h f = tt
unreported-Exact true more o p codec rows n context [] h f = (append-nil more ∙ h.0, (f h.1).0)
unreported-Exact true more o p codec rows n context (e ∷ es) h f = absurd (
    omega (
      arith,
      length-append rows (rows_from codec n context (e ∷ es)),
      ap (λ (x : List EventRow). length x) (f h.1).1,
    ))

journal-add_rows :
    (s : JournalStore) (events : List JournalEvent) (context : Option JournalContext)
    → (add_rows context events s).journal ≡ s.journal
unfolding add_rows
journal-add_rows s events context = refl

rows-add_rows :
    (s : JournalStore) (events : List JournalEvent) (context : Option JournalContext)
    → (add_rows context events s).rows
      ≡ s.rows ++ rows_from s.codec (length s.journal) context events
unfolding add_rows
rows-add_rows s events context = refl

outcomes-add_rows :
    (s : JournalStore) (events : List JournalEvent) (context : Option JournalContext)
    → (add_rows context events s).outcomes ≡ s.outcomes
unfolding add_rows
outcomes-add_rows s events context = refl

codec-add_rows :
    (s : JournalStore) (events : List JournalEvent) (context : Option JournalContext)
    → (add_rows context events s).codec ≡ s.codec
unfolding add_rows
codec-add_rows s events context = refl

module _ (s : JournalStore) (events : List JournalEvent) (context : Option JournalContext)
    (change : JournalStore → JournalStore) (keeps : KeepsJournal change) where
  pub journal-stored : (stored s events context change).journal ≡ s.journal
  journal-stored = keeps.journal_kept _ ∙ journal-add_rows s events context

  rows-stored :
      (stored s events context change).rows
      ≡ s.rows ++ rows_from s.codec (length s.journal) context events
  rows-stored = keeps.rows_kept _ ∙ rows-add_rows s events context

  outcomes-stored : (stored s events context change).outcomes ≡ s.outcomes
  outcomes-stored = keeps.outcomes_kept _ ∙ outcomes-add_rows s events context

  codec-stored : (stored s events context change).codec ≡ s.codec
  codec-stored = keeps.codec_kept _ ∙ codec-add_rows s events context

  abbrev after : JournalStore
  after = (append_events s events context change).0

  append_events-IsCertain :
      All IsCertain s.outcomes
      → All IsCertain after.outcomes
        × (((append_events s events context change).1 ≡ err sqlite) → after.rows ≡ s.rows)
  append_events-IsCertain h =
      append-IsCertain s events context change h (subst (All IsCertain) (sym outcomes-stored) h)

  append_events-IsDurable :
      (certain : Bool) → All (Reads s.codec) events → IsDurable certain s → IsDurable certain after
  append_events-IsDurable certain reads h = elim (append_events_cases s events context change) [
    | committed later fit free eq r ↦
        let either = nothing_lacks s events context h.more h.replayed h.more events refl free in
        record {
          more = h.more;
          replayed =
              rw (eq, codec-stored, rows-stored, journal-stored)
                (replay-Stored s events context h.more h.replayed reads either
                  ∙ ap (λ x. ok x) (turned s events context h.more h.replayed either));
          exact =
              outcomes-Exact certain h.more s.outcomes after.outcomes h.exact
                (λ c. (append_events-IsCertain c).0);
        }
    | rolled_back later eq r ↦ record {
      more = h.more;
      replayed = rw eq h.replayed;
      exact =
          outcomes-Exact certain h.more s.outcomes after.outcomes h.exact
            (λ c. (append_events-IsCertain c).0);
    }
    | unreported later fit free eq r ↦
        let either = nothing_lacks s events context h.more h.replayed h.more events refl free in
        record {
          more = h.more ++ entries_from (length s.journal) context events;
          replayed =
              rw (eq, codec-stored, rows-stored, journal-stored)
                (replay-Stored s events context h.more h.replayed reads either
                  ∙ ap (λ x. ok x) (append_assoc s.journal h.more _));
          exact =
              unreported-Exact certain h.more s.outcomes after.outcomes s.codec s.rows
                (length s.journal) context events h.exact
                (λ c.
                  let k = append_events-IsCertain c in
                  (k.0, sym rows-stored ∙ sym (ap (λ t. t.rows) eq) ∙ k.1 r));
        }
  ]

  pub codec-append_events : after.codec ≡ s.codec
  codec-append_events = elim (append_events_cases s events context change) [
    | committed later fit free eq r ↦ ap (λ t. t.codec) eq ∙ codec-stored
    | rolled_back later eq r ↦ ap (λ t. t.codec) eq
    | unreported later fit free eq r ↦ ap (λ t. t.codec) eq ∙ codec-stored
  ]

  pub append_events-Goes :
      (certain : Bool)
      → All (Reads s.codec) events
      → IsDurable certain s
      → IsDurable certain after × (after.codec ≡ s.codec)
  append_events-Goes certain reads h =
      (append_events-IsDurable certain reads h, codec-append_events)
