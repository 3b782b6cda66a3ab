-- ===== src/Reasoning/Dispatcher/Keys.antt =====
-- src/reasoning/dispatcher.rs: about the identities of episodes, written and read.
use ai_sre.Prelude.{
  Option, ℕ, Option-cases, inl, inr, ◌≤◌, ◌≡◌, ◌≢◌, refl, ap, ◌∙◌, none, some, [], ◌∷◌, ◌++◌, All,
  arith, Text, text, strip_prefix,
}
use ai_sre.Prelude.Decimal.{show, parse, parse-show, parse-le, show-AllDigits, AllDigits}
use ai_sre.Reasoning.Budget.{u64_max}
use ai_sre.Reasoning.Dispatcher.{
  rsplit_once, episode_mark, incident_mark, correlation_key, episode_number, episode_id, current_id,
  without_mark,
}

-- a place that does not start with the mark is passed
skip :
    (c : ℕ) (s : Text)
    → rsplit_once episode_mark s ≡ none
    → strip_prefix episode_mark (c ∷ s) ≡ none
    → rsplit_once episode_mark (c ∷ s) ≡ none
unfolding rsplit_once
skip c s h e = rw (h, e) refl

skip_char :
    (c : ℕ) (s : Text)
    → c ≢ 45
    → rsplit_once episode_mark s ≡ none
    → rsplit_once episode_mark (c ∷ s) ≡ none
skip_char c s ne h = skip c s h (ground arith)

split_plain :
    (p s : Text)
    → All (λ c. c ≢ 45) p
    → rsplit_once episode_mark s ≡ none
    → rsplit_once episode_mark (p ++ s) ≡ none
split_plain [] s h e = e
split_plain (c ∷ p) s h e = skip_char c (p ++ s) h.0 (split_plain p s h.1 e)

split_digits : (d : Text) → AllDigits d → rsplit_once episode_mark d ≡ none
unfolding rsplit_once
split_digits [] h = refl
split_digits (c ∷ d) h = skip_char c d (λ e. ground (arith, h.0)) (split_digits d h.1)

dash_digits : (d : Text) → AllDigits d → strip_prefix episode_mark (45 ∷ d) ≡ none
dash_digits [] h = refl
dash_digits (c ∷ d) h = ground (arith, h.0)

split_mark : (d : Text) → AllDigits d → rsplit_once episode_mark (episode_mark ++ d) ≡ some ([], d)
unfolding rsplit_once
split_mark d h =
    let tail : rsplit_once episode_mark (text "episode-" ++ d) ≡ none =
      split_plain (text "episode") (45 ∷ d)
        (
          omega arith,
          (
            omega arith,
            (omega arith, (omega arith, (omega arith, (omega arith, (omega arith, tt))))),
          ),
        )
        (skip 45 d (split_digits d h) (dash_digits d h)) in
    rw tail refl

split_behind :
    (p s a b : Text)
    → rsplit_once episode_mark s ≡ some (a, b)
    → rsplit_once episode_mark (p ++ s) ≡ some (p ++ a, b)
unfolding rsplit_once
split_behind [] s a b h = h
split_behind (c ∷ p) s a b h = rw (split_behind p s a b h) refl

append_nil : (p : Text) → p ++ [] ≡ p
append_nil [] = refl
append_nil (c ∷ p) = ap (◌∷◌ c) (append_nil p)

split_id :
    (key : Text) (n : ℕ)
    → rsplit_once episode_mark (episode_id key n) ≡ some (incident_mark ++ key, show n)
unfolding episode_id
split_id key n =
    split_behind (incident_mark ++ key) (episode_mark ++ show n) [] (show n)
      (split_mark (show n) (show-AllDigits n))
    ∙ ap (λ k. some (incident_mark ++ k, show n)) (append_nil key)

without_mark-incident : (key : Text) → without_mark (incident_mark ++ key) ≡ key
unfolding without_mark
without_mark-incident key = refl

pub correlation_key-episode_id : (key : Text) (n : ℕ) → correlation_key (episode_id key n) ≡ key
unfolding correlation_key
correlation_key-episode_id key n = rw (split_id key n, correlation_key) (without_mark-incident key)

-- The key and the number of an episode are read back from the identity that is written for it,
-- for every number of the width.
pub key_and_number-episode_id :
    (key : Text) (n : ℕ)
    → n ≤ u64_max
    → (correlation_key (episode_id key n) ≡ key) × (episode_number (episode_id key n) ≡ n)
unfolding episode_number
key_and_number-episode_id key n h = (
  correlation_key-episode_id key n,
  rw (split_id key n, episode_number) (rw (parse-show u64_max n h) refl),
)

-- a key whose first identity holds no mark of a later episode
abbrev pub IsClean : Text → Type 0
IsClean key = rsplit_once episode_mark (incident_mark ++ key) ≡ none

pub key_and_number-first :
    (key : Text)
    → IsClean key
    → (correlation_key (incident_mark ++ key) ≡ key) × (episode_number (incident_mark ++ key) ≡ 1)
unfolding correlation_key episode_number
key_and_number-first key h = (rw h (without_mark-incident key), rw h refl)

pub key_and_number-current_id :
    (key : Text) (n : ℕ)
    → IsClean key
    → n ≤ u64_max
    → (correlation_key (current_id key n) ≡ key) × (episode_number (current_id key n) ≡ n)
unfolding current_id
key_and_number-current_id key n clean h =
    ground (arith, key_and_number-first key clean, key_and_number-episode_id key n h)

number_by_split :
    (id : Text) (o : Option (Text × Text))
    → rsplit_once episode_mark id ≡ o
    → episode_number id ≤ u64_max
unfolding episode_number
number_by_split id none e = rw (e, episode_number) (omega arith)
number_by_split id (some (key, value)) e = elim (Option-cases (parse u64_max value)) [
  | inl bad ↦ rw (e, episode_number) (rw bad (omega arith))
  | inr (n, good) ↦ rw (e, episode_number) (rw good (parse-le u64_max value n good))
]

pub episode_number-le : (id : Text) → episode_number id ≤ u64_max
episode_number-le id = number_by_split id (rsplit_once episode_mark id) refl
