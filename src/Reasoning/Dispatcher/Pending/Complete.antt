-- ===== src/Reasoning/Dispatcher/Pending/Complete.antt =====
-- src/reasoning/dispatcher.rs: about the episodes under way at a restart.
use ai_sre.Prelude.{
  ℕ, Bool, true, false, Option, none, some, List, [], ◌∷◌, ◌++◌, Text, same_text, same_text_iff,
  ◌≡◌, arith, refl, ap, ◌∙◌, inl, inr, ◌⊎◌, Bool-cases, Option-cases, All, same_text_refl, subst,
  if◌then◌else◌, ◌==◌,
}
use ai_sre.Prelude.Map
use ai_sre.Prelude.Map.{Map, get-insert}
use ai_sre.Reasoning.Incident.{AlertStatus, IncidentSignal}
use ai_sre.Reasoning.Incident.Time.{parse_rfc3339_millis}
use ai_sre.Reasoning.Journal.{
  JournalEvent, JournalContext, JournalEntry, incident_opened, incident_recovered,
  incident_completed, incident_resumed,
}
use ai_sre.Reasoning.Storage.{JournalStore}
use ai_sre.Reasoning.Dispatcher.{
  LifecycleState, firing, resolved, correlation_key, episode_number, new, replay, replay_event,
  complete_key, resume_key, episode_id,
}
use ai_sre.Reasoning.Dispatcher.Pending.{
  Opening, opening_of, last_opening, taken_up, pending_one, pending_in, pending_investigations,
}

abbrev pub Listed : IncidentSignal → List IncidentSignal → Type 0
Listed i [] = ⊥
Listed i (j ∷ js) = (i ≡ j) ⊎ Listed i js

pending_in-Listed :
    (entries : List JournalEntry) (m : Map LifecycleState) (key : Text) (state : LifecycleState)
    (i : IncidentSignal)
    → Map.get m key ≡ some state
    → pending_one entries key state ≡ some i
    → Listed i (pending_in entries m)
unfolding pending_in Map.get
pending_in-Listed entries [] key state i h p = absurd (ground arith)
pending_in-Listed entries ((j, other) ∷ m) key state i h p = elim (Bool-cases (same_text j key)) [
  | inl same ↦
      let keys : j ≡ key = (same_text_iff j key).0 same in
      let states : other ≡ state = ground arith in rw (keys, states) (rw (p, pending_in) (inl refl))
  | inr differs ↦
      let rest = pending_in-Listed entries m key state i (ground arith) p in
      elim (Option-cases (pending_one entries j other)) [
        | inl e ↦ rw (e, pending_in) rest
        | inr (q, e) ↦ rw (e, pending_in) (inr rest)
      ]
]

-- the journal's event opens, recovers or completes an episode of the key
abbrev pub settles : Text → JournalEvent → Bool
settles key (incident_opened id _ _ _ _ _) = same_text (correlation_key id) key
settles key (incident_recovered id _ _) = same_text (correlation_key id) key
settles key (incident_completed id) = same_text (correlation_key id) key
settles key _ = false

-- the time and the source event of the key's last firing
abbrev pub seen : Text → Text × Text → JournalEvent → Text × Text
seen key last (incident_resumed id time src) =
    if same_text (correlation_key id) key then (time, src) else last
seen key last _ = last

unfoldable pub last_seen : Text → Text × Text → List JournalEntry → Text × Text
last_seen key last [] = last
last_seen key last (entry ∷ entries) = last_seen key (seen key last entry.event) entries

abbrev under_way : ℕ → Text × Text → LifecycleState
under_way n (time, src) = firing n false time (parse_rfc3339_millis time) src

module _ (key : Text) (n : ℕ) where
  get-complete_other :
      (m : Map LifecycleState) (k : Text) (state : Option LifecycleState)
      → Map.get m k ≡ state
      → same_text k key ≡ false
      → Map.get (complete_key m k) key ≡ Map.get m key
  unfolding complete_key
  get-complete_other m k none h other = rw (h, complete_key) refl
  get-complete_other m k (some (resolved _ _ _ _)) h other = rw (h, complete_key) refl
  get-complete_other m k (some (firing e c t ms src)) h other =
      rw (h, complete_key) (get-insert m k (firing e true t ms src) key ∙ rw other refl)

  get-resume_other :
      (m : Map LifecycleState) (k time src : Text) (state : Option LifecycleState)
      → Map.get m k ≡ state
      → same_text k key ≡ false
      → Map.get (resume_key m k time src) key ≡ Map.get m key
  unfolding resume_key
  get-resume_other m k time src none h other = rw (h, resume_key) refl
  get-resume_other m k time src (some (resolved _ _ _ _)) h other = rw (h, resume_key) refl
  get-resume_other m k time src (some (firing e c t ms s)) h other =
      rw (h, resume_key)
        (get-insert m k (firing e c time (parse_rfc3339_millis time) src) key ∙ rw other refl)

  get-resume_own :
      (m : Map LifecycleState) (k time src : Text) (last : Text × Text)
      → Map.get m key ≡ some (under_way n last)
      → k ≡ key
      → Map.get (resume_key m k time src) key ≡ some (under_way n (time, src))
  unfolding resume_key
  get-resume_own m k time src last h same =
      rw (same, h, resume_key)
        (get-insert m k (under_way n (time, src)) key ∙ rw same (rw (same_text_refl key) refl))

  event-under_way :
      (m : Map LifecycleState) (last : Text × Text) (e : JournalEvent)
      → settles key e ≡ false
      → Map.get m key ≡ some (under_way n last)
      → Map.get (replay_event m e) key ≡ some (under_way n (seen key last e))
  unfolding replay_event
  event-under_way m last (incident_opened id _ _ _ time src) other h =
      get-insert m (correlation_key id) _ key ∙ rw other h
  event-under_way m last (incident_recovered id time src) other h =
      get-insert m (correlation_key id) _ key ∙ rw other h
  event-under_way m last (incident_completed id) other h =
      get-complete_other m (correlation_key id) (Map.get m (correlation_key id)) refl other ∙ h
  event-under_way m last (incident_resumed id time src) _ h =
      elim (Bool-cases (same_text (correlation_key id) key)) [
        | inl same ↦ rw same (
            get-resume_own m (correlation_key id) time src last h
              ((same_text_iff (correlation_key id) key).0 same))
        | inr other ↦ rw other (
            get-resume_other m (correlation_key id) time src (Map.get m (correlation_key id)) refl
              other
            ∙ h)
      ]
  event-under_way m last _ other h = h

  replay-under_way :
      (m : Map LifecycleState) (last : Text × Text) (after : List JournalEntry)
      → All (λ x. settles key x.event ≡ false) after
      → Map.get m key ≡ some (under_way n last)
      → Map.get (replay m after) key ≡ some (under_way n (last_seen key last after))
  unfolding replay last_seen
  replay-under_way m last [] quiet h = h
  replay-under_way m last (x ∷ after) quiet h =
      replay-under_way (replay_event m x.event) (seen key last x.event) after quiet.1
        (event-under_way m last x.event quiet.0 h)

  opening_of-quiet : (e : JournalEvent) → settles key e ≡ false → opening_of key e ≡ none
  unfolding opening_of
  opening_of-quiet (incident_opened id _ _ _ _ _) other = rw other refl
  opening_of-quiet _ other = refl

  last_opening-quiet :
      (after : List JournalEntry)
      → All (λ x. settles key x.event ≡ false) after
      → last_opening key after ≡ none
  unfolding last_opening
  last_opening-quiet [] quiet = refl
  last_opening-quiet (x ∷ after) quiet =
      rw (last_opening-quiet after quiet.1, last_opening) (opening_of-quiet x.event quiet.0)

  last_opening-found :
      (before after : List JournalEntry) (x : JournalEntry) (o : Opening)
      → All (λ y. settles key y.event ≡ false) after
      → opening_of key x.event ≡ some o
      → last_opening key (before ++ x ∷ after) ≡ some o
  unfolding last_opening
  last_opening-found [] after x o quiet h = rw (last_opening-quiet after quiet, last_opening) h
  last_opening-found (y ∷ before) after x o quiet h =
      rw (last_opening-found before after x o quiet h, last_opening) refl

replay-append :
    (m : Map LifecycleState) (xs ys : List JournalEntry)
    → replay m (xs ++ ys) ≡ replay (replay m xs) ys
unfolding replay
replay-append m [] ys = refl
replay-append m (x ∷ xs) ys = replay-append (replay_event m x.event) xs ys

-- the signal of an episode that a journal leaves under way, by the event that opened it and by the
-- time and the source event of its last firing
abbrev pub signal_of : Text → Text → Map Text → Map Text → Text × Text → IncidentSignal
signal_of id name labels annotations (time, src) = record {
  correlation_id = correlation_key id;
  incident_id =
      if episode_number id == 1 then id else episode_id (correlation_key id) (episode_number id);
  episode = episode_number id;
  alert_name = name;
  status = AlertStatus.firing;
  labels = labels;
  annotations = annotations;
  event_time = time;
  source_event_id = src;
  event_time_ms = parse_rfc3339_millis time;
}

taken_up_lem :
    (id name : Text) (labels annotations : Map Text) (last : Text × Text)
    → taken_up
        (correlation_key id)
        (episode_number id)
        last.0
        (parse_rfc3339_millis last.0)
        last.1
        (record { incident_id = id; alert_name = name; labels = labels; annotations = annotations })
      ≡ signal_of id name labels annotations last
unfolding taken_up
taken_up_lem id name labels annotations last = refl

-- An episode that a journal opens, and behind which no event of its key opens, recovers or completes
-- one, is taken up by a dispatcher that starts over the store: its signal has the episode's key,
-- number and identity, the alert of the event that opened it, and the time and the source event of
-- the last firing that resumed it, or else of the first.
pub pending-Listed :
    (s : JournalStore) (before after : List JournalEntry) (sequence : ℕ)
    (context : Option JournalContext) (id name : Text) (labels annotations : Map Text)
    (time src : Text)
    → s.journal
      ≡ before
        ++ record {
          sequence = sequence;
          context = context;
          event = incident_opened id name labels annotations time src;
        }
          ∷ after
    → All (λ x. settles (correlation_key id) x.event ≡ false) after
    → Listed
        (signal_of id name labels annotations (last_seen (correlation_key id) (time, src) after))
        (pending_investigations (new s))
unfolding pending_investigations new
pending-Listed s before after sequence context id name labels annotations time src e quiet =
    let key = correlation_key id in
    let n = episode_number id in
    let last = last_seen key (time, src) after in
    let opened : JournalEntry = record {
      sequence = sequence;
      context = context;
      event = incident_opened id name labels annotations time src;
    } in
    let o : Opening = record {
      incident_id = id;
      alert_name = name;
      labels = labels;
      annotations = annotations;
    } in
    let start : Map.get (replay_event (replay [] before) opened.event) key
        ≡ some (under_way n (time, src)) =
      unfold replay_event in
      get-insert (replay [] before) key (under_way n (time, src)) key
      ∙ rw (same_text_refl key) refl in
    let state : Map.get (new s).lifecycle key ≡ some (under_way n last) = rw e (
      ap (λ m. Map.get m key) (replay-append [] before (opened ∷ after))
      ∙ unfold replay in
        replay-under_way key n (replay_event (replay [] before) opened.event) (time, src) after
          quiet start) in
    let found : last_opening key s.journal ≡ some o = rw e (
      last_opening-found key n before after opened o quiet
        (unfold opening_of in rw (same_text_refl key) refl)) in
    subst (λ i. Listed i (pending_investigations (new s)))
      (taken_up_lem id name labels annotations last)
      (pending_in-Listed s.journal (new s).lifecycle key (under_way n last) _ state
        (unfold pending_one in rw (found, pending_one) refl))
