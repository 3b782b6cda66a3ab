-- ===== src/Reasoning/Storage/Appends.antt =====
-- src/reasoning/storage.rs: about how a transaction of the journal ends.
use ai_sre.Prelude.{
  ◌≡◌, refl, inl, inr, true, false, Option, List, [], ◌∷◌, ◌++◌, Result, ok, err, length,
  Bool-cases, All,
}
use ai_sre.Reasoning.Journal.{JournalEvent, JournalContext}
use ai_sre.Reasoning.Storage.{
  JournalStore, JournalStoreError, sqlite, CommitEnd, commits, rolls_back, ambiguous, add_rows,
  append_events, entries_from, sequences_fit, is_taken,
}

-- an end that says whether the changes are kept
abbrev pub IsCertain : CommitEnd → Type 0
IsCertain commits = Unit
IsCertain rolls_back = Unit
IsCertain ambiguous = ⊥

module _ (s : JournalStore) (events : List JournalEvent) (context : Option JournalContext)
    (change : JournalStore → JournalStore) where
  -- the database with the new rows and the other changes
  abbrev pub stored : JournalStore
  stored = change (add_rows context events s)

  -- How a transaction of the journal ends: with all its changes, in the database and in memory; with
  -- none; or with those of the database alone.
  pub data AppendCase (t : JournalStore) (r : Result JournalStoreError (Unit {0})) : Type 0 where
    committed :
        (later : List CommitEnd)
        → sequences_fit (length s.journal) events ≡ true
        → is_taken s.rows (length s.journal) events ≡ false
        → t ≡ record stored {
          journal = stored.journal ++ entries_from (length s.journal) context events;
          outcomes = later;
        }
        → r ≡ ok tt
        → AppendCase t r
    rolled_back :
        (later : List CommitEnd)
        → t ≡ record s { outcomes = later }
        → r ≡ err sqlite
        → AppendCase t r
    unreported :
        (later : List CommitEnd)
        → sequences_fit (length s.journal) events ≡ true
        → is_taken s.rows (length s.journal) events ≡ false
        → t ≡ record stored { outcomes = later }
        → r ≡ err sqlite
        → AppendCase t r

  abbrev pub Certain : JournalStore → Result JournalStoreError (Unit {0}) → Type 0
  Certain t r = All IsCertain t.outcomes × ((r ≡ err sqlite) → t.rows ≡ s.rows)

  append_by_outcomes :
      (o : List CommitEnd)
      → s.outcomes ≡ o
      → sequences_fit (length s.journal) events ≡ true
      → is_taken s.rows (length s.journal) events ≡ false
      → AppendCase
          (append_events s events context change).0
          (append_events s events context change).1
  unfolding append_events
  append_by_outcomes [] e h k =
      committed stored.outcomes h k (rw (h, k, e, append_events) refl)
        (rw (h, k, e, append_events) refl)
  append_by_outcomes (commits ∷ later) e h k =
      committed later h k (rw (h, k, e, append_events) refl) (rw (h, k, e, append_events) refl)
  append_by_outcomes (rolls_back ∷ later) e h k =
      rolled_back later (rw (h, k, e, append_events) refl) (rw (h, k, e, append_events) refl)
  append_by_outcomes (ambiguous ∷ later) e h k =
      unreported later h k (rw (h, k, e, append_events) refl) (rw (h, k, e, append_events) refl)

  -- Where no end is ambiguous, none of the coming ones is, and an error leaves the rows alone.
  outcomes-IsCertain :
      (o : List CommitEnd)
      → s.outcomes ≡ o
      → All IsCertain o
      → All IsCertain stored.outcomes
      → sequences_fit (length s.journal) events ≡ true
      → is_taken s.rows (length s.journal) events ≡ false
      → Certain (append_events s events context change).0 (append_events s events context change).1
  unfolding append_events
  outcomes-IsCertain [] e c d h k =
      let eq : append_events s events context change ≡ (
        record stored {
          journal = stored.journal ++ entries_from (length s.journal) context events;
        },
        ok tt,
      ) =
        rw (h, k, e, append_events) refl in
      rw eq (d, λ q. absurd (cc q))
  outcomes-IsCertain (commits ∷ later) e c d h k =
      let eq : append_events s events context change ≡ (
        record stored {
          journal = stored.journal ++ entries_from (length s.journal) context events;
          outcomes = later;
        },
        ok tt,
      ) =
        rw (h, k, e, append_events) refl in
      rw eq (c.1, λ q. absurd (cc q))
  outcomes-IsCertain (rolls_back ∷ later) e c d h k =
      let eq : append_events s events context change ≡ (record s { outcomes = later }, err sqlite) =
        rw (h, k, e, append_events) refl in
      rw eq (c.1, λ q. refl)
  outcomes-IsCertain (ambiguous ∷ later) e c d h k = absurd c.0

  pub append-IsCertain :
      All IsCertain s.outcomes
      → All IsCertain stored.outcomes
      → Certain (append_events s events context change).0 (append_events s events context change).1
  unfolding append_events
  append-IsCertain c d = elim (Bool-cases (sequences_fit (length s.journal) events)) [
    | inr h ↦ rw (h, append_events) (c, λ q. refl)
    | inl h ↦ elim (Bool-cases (is_taken s.rows (length s.journal) events)) [
      | inl k ↦ rw (h, k, append_events) (c, λ q. refl)
      | inr k ↦ outcomes-IsCertain s.outcomes refl c d h k
    ]
  ]

  pub append_events_cases :
      AppendCase (append_events s events context change).0 (append_events s events context change).1
  unfolding append_events
  append_events_cases = elim (Bool-cases (sequences_fit (length s.journal) events)) [
    | inr h ↦ rw (h, append_events) (rolled_back s.outcomes refl refl)
    | inl h ↦ elim (Bool-cases (is_taken s.rows (length s.journal) events)) [
      | inl k ↦ rw (h, k, append_events) (rolled_back s.outcomes refl refl)
      | inr k ↦ append_by_outcomes s.outcomes refl h k
    ]
  ]
