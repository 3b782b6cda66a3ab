-- ===== src/Reasoning/Journal/Projection/Examples.antt =====
-- src/reasoning/journal.rs: the metrics of concrete facts.
use ai_sre.Prelude.{◌≡◌, ◌%◌, refl, true, none, some, List, [], ◌∷◌, text}
use ai_sre.Reasoning.Journal.{
  JournalEvent, JournalEntry, JournalContext, manual_validation, response_failed, phase_started,
  phase_finished, human_wait, reasoning, incident_completed, incident_recovered,
}
use ai_sre.Reasoning.Journal.Projection.{
  project, project_scoped, project_matching, project_from, project_event, incident_ids,
}
use ai_sre.Reasoning.Journal.Projection.Counts.{
  timed_failures, value, width, number_of, project_matching-counts,
}

abbrev entry : JournalEvent → JournalEntry
entry event = record { sequence = 0; context = none; event = event }

abbrev scope : JournalContext
scope = record { incident_id = text "i"; run_id = text "r" }

abbrev entries : List JournalEntry
entries =
    entry (phase_started human_wait 10)
    ∷ entry (phase_finished human_wait 25)
    ∷ entry (phase_finished reasoning 90)
    ∷ entry (manual_validation (text "a") (text "d") response_failed none (some 7))
    ∷ entry (manual_validation (text "a") (text "d") response_failed none none)
    ∷ entry (incident_recovered (text "i2") (text "t") (text "s"))
    ∷ entry (incident_recovered (text "i1") (text "t") (text "s"))
    ∷ entry (incident_recovered (text "i2") (text "u") (text "s"))
    ∷ entry (incident_completed (text "i0"))
    ∷ []

waits : ((project entries).human_wait_ms ≡ 15) × ((project entries).end_to_end_ms ≡ 25)
unfolding project project_matching project_from project_event
waits = (refl, refl)

scoped_out : (project_scoped scope entries).human_wait_ms ≡ 0
unfolding project_scoped project_matching project_from
scoped_out = refl

ids : incident_ids entries ≡ text "i1" ∷ text "i2" ∷ []
unfolding incident_ids
ids = refl

project_matching-counts_example :
    value timed_failures (project_matching (λ _. true) entries)
    ≡ number_of timed_failures (λ _. true) entries % width timed_failures
project_matching-counts_example = project_matching-counts timed_failures (λ _. true) entries
