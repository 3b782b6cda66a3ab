-- ===== src/Promotion/Policy/Shadow.antt =====
-- src/policy/promotion.rs: the policy of the shadow gate and its flat YAML.
use ai_sre.Prelude.{
  ℕ, ◌-◌, ◌^◌, Bool, not, ◌&&◌, ◌||◌, Option, none, some, List, [], ◌∷◌, Result, ok, err, ◌>>=◌,
  ◌>>◌, guard, ok_or, any, leb, ◌==◌, if◌then◌else◌, Text, text, same_text, is_blank, trim_start,
  trim_end, trim, begins_with, lines,
}
use ai_sre.Prelude.Decimal.{parse}
use ai_sre.Prelude.Map
use ai_sre.Prelude.Map.{Map}
use ai_sre.Promotion.{PromotionError, invalid_fields}

pub record ShadowGatePolicy : Type 0 where
  pub minimum_cases : ℕ
  pub minimum_failure_classes : ℕ
  pub repeats_per_case : ℕ
  pub action_policy_disabled : Bool
  pub external_write_credentials_absent : Bool

abbrev before : ℕ → Option (Text × Text) → Option (Text × Text)
before c none = none
before c (some (key, value)) = some (c ∷ key, value)

-- `split_once(':')`
split_colon : Text → Option (Text × Text)
split_colon [] = none
split_colon (c ∷ s) = let rest = split_colon s in if c == 58 then some ([], s) else before c rest

-- a line that the filter leaves out
abbrev is_skipped : Text → Bool
is_skipped line = is_blank line || begins_with 35 (trim_start line)

abbrev add_pair : Map Text → Option (Text × Text) → Result PromotionError (Map Text)
add_pair values none = err invalid_fields
add_pair values (some (key, value)) = ok (Map.insert values (trim key) (trim value))

-- the loop over the lines
read_pairs : Map Text → List Text → Result PromotionError (Map Text)
read_pairs values [] = ok values
read_pairs values (line ∷ ls) =
    if is_skipped line
    then read_pairs values ls
    else (add_pair values (split_colon line) >>= λ more. read_pairs more ls)

abbrev allowed : List Text
allowed =
    text "schema"
    ∷ text "gate"
    ∷ text "mode"
    ∷ text "minimum_cases"
    ∷ text "minimum_failure_classes"
    ∷ text "repeats_per_case"
    ∷ text "p95_max_seconds"
    ∷ text "max_evidence_rounds"
    ∷ text "max_grafana_queries"
    ∷ text "requires_deterministic_fallback"
    ∷ text "requires_openai"
    ∷ text "requires_gemini"
    ∷ text "requires_deepseek"
    ∷ text "requires_offline_signature"
    ∷ text "action_policy"
    ∷ text "external_write_credentials"
    ∷ []

abbrev is_allowed : Text → Bool
is_allowed key = any (same_text key) allowed

abbrev required : Map Text → Text → Result PromotionError Text
required values key = ok_or (Map.get values key) invalid_fields

-- `if required(key)? != value`
abbrev expect : Map Text → Text → Text → Result PromotionError (Unit {0})
expect values key value = required values key >>= λ v. guard (same_text v value) invalid_fields

-- `required(key)?.parse()` into a usize of 64 bits
number : Map Text → Text → Result PromotionError ℕ
number values key = required values key >>= λ v. ok_or (parse (2 ^ 64 - 1) v) invalid_fields

unfoldable pub from_pairs : Map Text → Result PromotionError ShadowGatePolicy
unfolding number
from_pairs values = do
  guard (not (any (λ (key, _). not (is_allowed key)) values)) invalid_fields
  expect values (text "schema") (text "KTD21/v1")
  expect values (text "gate") (text "A")
  expect values (text "mode") (text "shadow")
  expect values (text "requires_offline_signature") (text "true")
  cases ← number values (text "minimum_cases")
  classes ← number values (text "minimum_failure_classes")
  repeats ← number values (text "repeats_per_case")
  action ← required values (text "action_policy")
  credentials ← required values (text "external_write_credentials")
  ok (record {
    minimum_cases = cases;
    minimum_failure_classes = classes;
    repeats_per_case = repeats;
    action_policy_disabled = same_text action (text "disabled");
    external_write_credentials_absent = same_text credentials (text "absent");
  })

unfoldable pub from_yaml : Text → Result PromotionError ShadowGatePolicy
unfolding read_pairs lines from_pairs trim_start trim_end split_colon
from_yaml input = read_pairs [] (lines input) >>= from_pairs

unfoldable pub admits_shadow : ShadowGatePolicy → ℕ → ℕ → ℕ → Bool
admits_shadow policy case_count class_count repeats =
    leb policy.minimum_cases case_count
    && leb policy.minimum_failure_classes class_count
    && leb policy.repeats_per_case repeats
    && policy.action_policy_disabled
    && policy.external_write_credentials_absent
