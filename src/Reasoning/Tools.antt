-- ===== src/Reasoning/Tools.antt =====
-- src/reasoning/tools.rs: the read-only tool loop of one provider run. The reader of the JSON
-- arguments, serde's, is a parameter. `ToolResultClass` is in ai_sre.Reasoning.Journal.
pub mod Turns
mod Examples
use ai_sre.Prelude.{
  ℕ, ◌+◌, ◌-◌, ◌%◌, ◌^◌, Bool, true, false, ◌||◌, Option, none, some, List, [], ◌∷◌, ◌++◌, Result,
  ok, err, ok_or, guard, ◌>>◌, ◌>>=◌, not, any, length, leb, ltb, ◌==◌, if◌then◌else◌, Text, text,
  same_text, is_blank, utf8,
}
use ai_sre.Reasoning.Journal.{ToolResultClass}

abbrev pub max_tool_call_id_bytes : ℕ
max_tool_call_id_bytes = 128

abbrev pub max_tool_argument_bytes : ℕ
max_tool_argument_bytes = 16384

pub data ContextTool : Type 0 where
  query_logs query_metrics read_desired_state read_deployment_history read_health : ContextTool
  discover_observability : ContextTool

pub record ToolCall : Type 0 where
  pub call_id : Text
  pub tool : ContextTool
  pub query : Text

pub data ToolLoopError : Type 0 where
  empty_call_id empty_query unknown_tool invalid_arguments oversized_arguments : ToolLoopError
  duplicate_call_id turn_limit : ToolLoopError

pub record ToolResult : Type 0 where
  pub call_id : Text
  pub class : ToolResultClass
  pub evidence_id : Option Text
  pub detail : Text

pub record ToolTurnPolicy : Type 0 where
  pub max_turns : ℕ

pub data ToolPolicyError : Type 0 where
  zero_turn_limit : ToolPolicyError

-- `ToolTurnPolicy::new`
unfoldable pub new_policy : ℕ → Result ToolPolicyError ToolTurnPolicy
new_policy max_turns =
    if max_turns == 0 then err zero_turn_limit else ok (record { max_turns = max_turns })

-- the match on `name`
unfoldable pub tool_named : Text → Option ContextTool
tool_named name =
    if same_text name (text "query_logs")
    then some query_logs
    else if same_text name (text "query_metrics")
    then some query_metrics
    else if same_text name (text "read_desired_state")
    then some read_desired_state
    else if same_text name (text "read_deployment_history")
    then some read_deployment_history
    else if same_text name (text "read_health")
    then some read_health
    else if same_text name (text "discover_observability")
    then some discover_observability
    else none

-- `query_of` reads the `query` of the arguments.
unfoldable pub parse_tool_call :
    (Text → Option Text) → Text → Text → Text → Result ToolLoopError ToolCall
unfolding tool_named utf8
parse_tool_call query_of call_id name arguments = do
  guard
      (not (
        ltb max_tool_call_id_bytes (length (utf8 call_id))
        || ltb max_tool_argument_bytes (length (utf8 arguments))))
      oversized_arguments
  tool ← ok_or (tool_named name) unknown_tool
  query ← ok_or (query_of arguments) invalid_arguments
  guard (not (is_blank call_id)) empty_call_id
  guard (not (is_blank query)) empty_query
  ok (record { call_id = call_id; tool = tool; query = query })

-- `seen_call_ids` is a set: only what it holds matters.
pub record ToolLoop : Type 0 where
  pub policy : ToolTurnPolicy
  pub turns_used : ℕ
  pub results : List ToolResult
  pub seen_call_ids : List Text

-- `ToolLoop::new`
unfoldable pub new : ToolTurnPolicy → ToolLoop
new policy = record { policy = policy; turns_used = 0; results = []; seen_call_ids = [] }

-- the call identifier is new, or has been seen
abbrev pub is_seen : Text → List Text → Bool
is_seen id ids = any (λ seen. same_text seen id) ids

unfoldable pub admit : ToolLoop → ToolCall → ToolLoop × Result ToolLoopError (Unit {0})
admit l call =
    if is_blank call.call_id
    then (l, err empty_call_id)
    else if is_blank call.query
    then (l, err empty_query)
    else if leb l.policy.max_turns l.turns_used
    then (l, err turn_limit)
    else if is_seen call.call_id l.seen_call_ids
    then (l, err duplicate_call_id)
    else (
      record l {
        seen_call_ids = call.call_id ∷ l.seen_call_ids;
        turns_used = (l.turns_used + 1) % 2 ^ 32;
      },
      ok tt,
    )

unfoldable pub remaining : ToolLoop → ℕ
remaining l = l.policy.max_turns - l.turns_used

unfoldable pub record_result : ToolLoop → ToolResult → ToolLoop
record_result l result = record l { results = l.results ++ result ∷ [] }

abbrev detail_bytes : List ToolResult → ℕ
detail_bytes [] = 0
detail_bytes (r ∷ results) = length (utf8 r.detail) + detail_bytes results

unfoldable pub result_bytes : ToolLoop → ℕ
unfolding utf8
result_bytes l = detail_bytes l.results
