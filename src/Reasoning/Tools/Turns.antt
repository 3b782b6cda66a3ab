-- ===== src/Reasoning/Tools/Turns.antt =====
-- src/reasoning/tools.rs: about the turns of a tool loop.
use ai_sre.Prelude.{
  subst, ◌∙◌, ℕ, ◌+◌, ◌^◌, ◌≤◌, ◌<◌, ◌≡◌, ◌≢◌, ◌↔◌, refl, false, List, [], ◌∷◌, Result, ok, err,
  length, arith, All, Text, same_text_sym, is_blank,
}
use ai_sre.Reasoning.Tools.{
  ToolCall, ToolLoop, ToolLoopError, ToolResult, ToolTurnPolicy, new_policy, new, admit, remaining,
  record_result, is_seen,
}

pub data Step : Type 0 where
  admits : ToolCall → Step
  records : ToolResult → Step

unfoldable pub step : ToolLoop → Step → ToolLoop
step l (admits call) = (admit l call).0
step l (records result) = record_result l result

unfoldable pub run : ToolLoop → List Step → ToolLoop
unfolding step
run l [] = l
run l (s ∷ steps) = run (step l s) steps

abbrev noted : Result ToolLoopError (Unit {0}) → Text → List Text → List Text
noted (ok _) id rest = id ∷ rest
noted (err _) id rest = rest

-- the calls that were admitted, in their order
unfoldable pub admitted : ToolLoop → List Step → List Text
unfolding step
admitted l [] = []
admitted l (records r ∷ steps) = admitted (record_result l r) steps
admitted l (admits call ∷ steps) =
    let rest = admitted (admit l call).0 steps in noted (admit l call).1 call.call_id rest

-- no text stands twice
abbrev pub AreDistinct : List Text → Type 0
AreDistinct [] = Unit
AreDistinct (t ∷ ts) = (is_seen t ts ≡ false) × AreDistinct ts

pub record IsLoop (l : ToolLoop) : Type 0 where
  pub width : l.policy.max_turns < 2 ^ 32
  pub within : l.turns_used ≤ l.policy.max_turns
  pub counted : l.turns_used ≡ length l.seen_call_ids

-- A call is admitted exactly when its identifier and its query are not blank, a turn is left and
-- the identifier was not admitted before. It then takes one turn; a call that is refused changes
-- nothing, not even the turns that are left.
pub admit_iff :
    (l : ToolLoop) (call : ToolCall)
    → IsLoop l
    → (((admit l call).1 ≡ ok tt) ↔ (
        (is_blank call.call_id ≡ false)
        × (is_blank call.query ≡ false)
        × (0 < remaining l)
        × (is_seen call.call_id l.seen_call_ids ≡ false)))
      × (((admit l call).1 ≡ ok tt) → remaining (admit l call).0 + 1 ≡ remaining l)
      × (((admit l call).1 ≢ ok tt) → (admit l call).0 ≡ l)
unfolding admit remaining
admit_iff l call h = ground (arith, h.width, h.within)

admit-IsLoop : (l : ToolLoop) (call : ToolCall) → IsLoop l → IsLoop (admit l call).0
unfolding admit
admit-IsLoop l call h = ground (arith, h.width, h.within, h.counted)

-- an admitted call was not seen, and is the newest
admit_ok :
    (l : ToolLoop) (call : ToolCall)
    → (admit l call).1 ≡ ok tt
    → (is_seen call.call_id l.seen_call_ids ≡ false)
      × ((admit l call).0.seen_call_ids ≡ call.call_id ∷ l.seen_call_ids)
unfolding admit
admit_ok l call e = ground arith

not_seen_behind :
    (ts seen : List Text) (t : Text)
    → All (λ u. is_seen u (t ∷ seen) ≡ false) ts
    → All (λ u. is_seen u seen ≡ false) ts × (is_seen t ts ≡ false)
not_seen_behind [] seen t h = (tt, refl)
not_seen_behind (u ∷ ts) seen t h =
    let (rest, fresh) = not_seen_behind ts seen t h.1 in ground (arith, h.0, same_text_sym t u)

-- what a run of `ids` makes of the loop `l` when it ends at `l'`
abbrev Runs : ToolLoop → ToolLoop → List Text → Type 0
Runs l l' ids =
    (remaining l' + length ids ≡ remaining l)
    × AreDistinct ids
    × All (λ t. is_seen t l.seen_call_ids ≡ false) ids

admits-Runs :
    (l l' : ToolLoop) (call : ToolCall) (ids : List Text) (r : Result ToolLoopError (Unit {0}))
    → IsLoop l
    → (admit l call).1 ≡ r
    → Runs (admit l call).0 l' ids
    → Runs l l' (noted r call.call_id ids)
admits-Runs l l' call ids (ok _) h e (total, distinct, unseen') =
    let facts = admit_iff l call h in
    let (unseen, seen) = admit_ok l call e in
    let (old, fresh) =
      not_seen_behind ids l.seen_call_ids call.call_id
        (subst (λ (seen' : List Text). All (λ t. is_seen t seen' ≡ false) ids) seen unseen') in
    (omega (arith, facts.1 e), (fresh, distinct), (unseen, old))
admits-Runs l l' call ids (err why) h e runs =
    subst (λ (m : ToolLoop). Runs m l' ids) ((admit_iff l call h).2 (λ k. cc)) runs

record_result-IsLoop : (l : ToolLoop) (r : ToolResult) → IsLoop l → IsLoop (record_result l r)
unfolding record_result
record_result-IsLoop l r h = record { width = h.width; within = h.within; counted = h.counted }

record_result-Runs :
    (l l' : ToolLoop) (r : ToolResult) (ids : List Text)
    → Runs (record_result l r) l' ids
    → Runs l l' ids
unfolding record_result remaining
record_result-Runs l l' r ids runs = runs

run-Runs : (l : ToolLoop) (steps : List Step) → IsLoop l → Runs l (run l steps) (admitted l steps)
unfolding run admitted
run-Runs l [] h = (omega arith, tt, tt)
run-Runs l (records r ∷ steps) h =
    record_result-Runs l _ r _ (run-Runs (record_result l r) steps (record_result-IsLoop l r h))
run-Runs l (admits call ∷ steps) h =
    admits-Runs l _ call _ (admit l call).1 h refl
      (run-Runs (admit l call).0 steps (admit-IsLoop l call h))

-- From a policy that is accepted, whatever a run requests and records: the identifiers of the
-- admitted calls are distinct, and with the turns that remain they make up the allowance, so no
-- more calls than the allowance are admitted.
pub run_admits :
    (max_turns : ℕ) (policy : ToolTurnPolicy) (steps : List Step)
    → max_turns < 2 ^ 32
    → new_policy max_turns ≡ ok policy
    → AreDistinct (admitted (new policy) steps)
      × (remaining (run (new policy) steps) + length (admitted (new policy) steps) ≡ max_turns)
      × (0 < max_turns)
run_admits max_turns policy steps w e =
    let p : (policy.max_turns ≡ max_turns) × (0 < max_turns) = unfold new_policy in ground arith in
    let h : IsLoop (new policy) =
      unfold new in record { width = ground (arith, p.0); within = omega arith; counted = refl } in
    let (total, distinct, _) = run-Runs (new policy) steps h in
    (distinct, total ∙ (unfold remaining new in omega (arith, p.0)), p.1)
