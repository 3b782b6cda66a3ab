-- ===== src/Reasoning/Tools/Examples.antt =====
-- src/reasoning/tools.rs: about concrete calls.
use ai_sre.Prelude.{◌≡◌, ◌+◌, ◌<◌, refl, arith, some, List, [], ◌∷◌, ok, err, length, Text, text}
use ai_sre.Reasoning.Tools.{
  ToolCall, ToolTurnPolicy, query_logs, unknown_tool, parse_tool_call, new_policy, new, admit,
  remaining,
}
use ai_sre.Reasoning.Tools.Turns.{Step, admits, run, admitted, AreDistinct, IsLoop, run_admits}

abbrev policy : ToolTurnPolicy
policy = record { max_turns = 2 }

abbrev call : Text → ToolCall
call id = record { call_id = id; tool = query_logs; query = text "{app=\"api\"}" }

abbrev calls : List Step
calls =
    admits (call (text "a"))
    ∷ admits (call (text "a"))
    ∷ admits (call (text "b"))
    ∷ admits (call (text "c"))
    ∷ []

admitted_calls : admitted (new policy) calls ≡ text "a" ∷ text "b" ∷ []
unfolding admitted admit new
admitted_calls = refl

parse_unknown : parse_tool_call some (text "1") (text "shell") (text "pwd") ≡ err unknown_tool
unfolding parse_tool_call
parse_unknown = refl

parse_logs :
    parse_tool_call some (text "a") (text "query_logs") (text "{app=\"api\"}")
    ≡ ok (call (text "a"))
unfolding parse_tool_call
parse_logs = refl

new-IsLoop : IsLoop (new policy)
unfolding new
new-IsLoop = record { width = omega arith; within = omega arith; counted = refl }

run_admits_example :
    AreDistinct (admitted (new policy) calls)
    × (remaining (run (new policy) calls) + length (admitted (new policy) calls) ≡ 2)
    × (0 < 2)
unfolding new_policy
run_admits_example = run_admits 2 policy calls (omega arith) refl
