-- ===== src/Reasoning/Journal/Projection/Counts.antt =====
-- src/reasoning/journal.rs: about the metrics that count facts.
use ai_sre.Prelude.{
  ℕ, ◌+◌, ◌^◌, ◌%◌, ◌<◌, ◌≡◌, Bool, true, false, not, ◌&&◌, Option, none, some, List, [], ◌∷◌, leb,
  if◌then◌else◌, arith, Bool-cases, inl, inr, sym, subst, ap, ◌∙◌,
}
use native.Mathlib.Nat.{add_assoc}
use ai_sre.Reasoning.Journal.{
  JournalEvent, JournalEntry, response_failed, reserved, receipt_received, recovery_authorized,
  manual_handoff_acknowledged, manual_validation, manual_repair_validated, manual_repair_prepared,
  provider_attempt, tool_context,
}
use ai_sre.Reasoning.Journal.Projection.{
  EfficiencyProjection, Progress, project_event, project_from, project_matching, is_success,
  default_projection, no_starts,
}

-- the metrics that go up by one
pub data Metric : Type 0 where
  acknowledgements timed_acknowledgements preparations handoffs reservations : Metric
  receipts timed_receipts failures timed_failures recoveries : Metric
  attempts unknown_costs calls successful_calls : Metric

abbrev pub value : Metric → EfficiencyProjection → ℕ
value acknowledgements p = p.manual_handoff_acknowledgements
value timed_acknowledgements p = p.manual_handoff_timed_acknowledgements
value preparations p = p.manual_repair_preparations
value handoffs p = p.manual_repair_validated_handoffs
value reservations p = p.manual_validation_reservations
value receipts p = p.manual_validation_receipts
value timed_receipts p = p.manual_validation_timed_receipts
value failures p = p.manual_validation_failed_responses
value timed_failures p = p.manual_validation_timed_failed_responses
value recoveries p = p.manual_validation_recoveries
value attempts p = p.provider_attempts
value unknown_costs p = p.unknown_cost_attempts
value calls p = p.tool_calls
value successful_calls p = p.successful_tool_calls

-- the number of values of a metric
abbrev pub width : Metric → ℕ
width attempts = 2 ^ 32
width unknown_costs = 2 ^ 32
width calls = 2 ^ 32
width successful_calls = 2 ^ 32
width _ = 2 ^ 64

abbrev pub is_known : Option ℕ → Bool
is_known none = false
is_known (some _) = true

-- the facts of a metric
abbrev pub counts : Metric → JournalEvent → Bool
counts acknowledgements (manual_handoff_acknowledged _ _ _ _ _ _) = true
counts timed_acknowledgements (manual_handoff_acknowledged _ _ _ _ offered acknowledged) =
    leb offered acknowledged
counts preparations (manual_repair_prepared _ _ _) = true
counts handoffs (manual_repair_validated _ _ _) = true
counts reservations (manual_validation _ _ reserved _ _) = true
counts receipts (manual_validation _ _ receipt_received _ _) = true
counts timed_receipts (manual_validation _ _ receipt_received _ elapsed) = is_known elapsed
counts failures (manual_validation _ _ response_failed _ _) = true
counts timed_failures (manual_validation _ _ response_failed _ elapsed) = is_known elapsed
counts recoveries (manual_validation _ _ recovery_authorized _ _) = true
counts attempts (provider_attempt _) = true
counts unknown_costs (provider_attempt attempt) = not (is_known attempt.facts.cost_micro_usd)
counts calls (tool_context _ _ _ _ _ _ _ _ _ _) = true
counts successful_calls (tool_context _ _ _ _ result_class _ _ _ _ _) = is_success result_class
counts _ _ = false

abbrev bit : Bool → ℕ
bit true = 1
bit false = 0

-- the number of the facts of a metric among the included entries
unfoldable pub number_of : Metric → (JournalEntry → Bool) → List JournalEntry → ℕ
number_of m include [] = 0
number_of m include (entry ∷ entries) =
    bit (include entry && counts m entry.event) + number_of m include entries

step_counts :
    (m : Metric) (progress : Progress) (e : JournalEvent)
    → value m progress.0 < width m
    → value m (project_event progress e).0 ≡ (value m progress.0 + bit (counts m e)) % width m
unfolding project_event
step_counts m (p, starts) e h = ground arith

remainder_below : (m : Metric) (v : ℕ) → v % width m < width m
remainder_below m v = ground arith

add-remainder : (m : Metric) (v n : ℕ) → (v % width m + n) % width m ≡ (v + n) % width m
add-remainder m v n = ground arith

below_width : (m : Metric) (v : ℕ) → v < width m → v ≡ v % width m
below_width m v h = ground (arith, h)

-- an entry of the loop
pub entry_counts :
    (m : Metric) (include : JournalEntry → Bool) (progress : Progress) (entry : JournalEntry)
    → value m progress.0 < width m
    → value m (if include entry then project_event progress entry.event else progress).0
      ≡ (value m progress.0 + bit (include entry && counts m entry.event)) % width m
entry_counts m include progress entry h = elim (Bool-cases (include entry)) [
  | inl e ↦ rw e (step_counts m progress entry.event h)
  | inr e ↦ rw e (ground (arith, below_width m (value m progress.0) h))
]

project_from-counts :
    (m : Metric) (include : JournalEntry → Bool) (progress : Progress) (entries : List JournalEntry)
    → value m progress.0 < width m
    → value m (project_from include progress entries).0
      ≡ (value m progress.0 + number_of m include entries) % width m
unfolding project_from number_of
project_from-counts m include progress [] h = ground (arith, below_width m (value m progress.0) h)
project_from-counts m include progress (entry ∷ entries) h =
    let next = if include entry then project_event progress entry.event else progress in
    let counted = entry_counts m include progress entry h in
    let b = bit (include entry && counts m entry.event) in
    let below : value m next.0 < width m =
      subst (λ v. v < width m) (sym counted) (remainder_below m (value m progress.0 + b)) in
    project_from-counts m include next entries below
    ∙ ap (λ v. (v + number_of m include entries) % width m) counted
    ∙ add-remainder m (value m progress.0 + b) (number_of m include entries)
    ∙ ap (λ v. v % width m) (add_assoc (value m progress.0) b (number_of m include entries))

-- Each metric of a projection that goes up by one is the number of its facts among the included
-- entries, modulo its width: of acknowledgements, timed ones, preparations, handoffs, reservations,
-- receipts, timed receipts, failures, timed failures, recoveries, attempts, attempts of unknown
-- cost, tool calls and successful tool calls.
pub project_matching-counts :
    (m : Metric) (include : JournalEntry → Bool) (entries : List JournalEntry)
    → value m (project_matching include entries) ≡ number_of m include entries % width m
unfolding project_matching
project_matching-counts m include entries =
    project_from-counts m include (default_projection, no_starts) entries (ground arith)
    ∙ ground arith
