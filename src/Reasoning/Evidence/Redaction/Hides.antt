-- ===== src/Reasoning/Evidence/Redaction/Hides.antt =====
-- src/reasoning/evidence.rs: about the values that `redact_text` hides.
use ai_sre.Prelude.{
  ℕ, ◌≡◌, refl, ap, ◌∙◌, Bool, true, false, not, Option, none, some, [], ◌∷◌, ◌++◌, length, map,
  arith, ◌==◌, All, get_elem?, Text, is_whitespace,
}
use ai_sre.Reasoning.Evidence.Redaction.{
  starts_with, matches_key, find_key, keys, lower, is_separator, is_quote, is_boundary, last_or,
  ends_value, mark, hide_value, hide_assignment, round, round_by, sensitive_assignment, Round,
  prefixed,
}
use ai_sre.Reasoning.Evidence.Redaction.Ends.{redact_at, redact_at-round}
use ai_sre.Reasoning.Evidence.Redaction.Pieces.{
  StopsAt, span-append, drop-append, take-append, starts_with_of-lower, keys-AllClash, find_key_at,
  length-lower, split_at, redact_at-no_start, StopsAt-ends, hide-unquoted, hide-quoted,
}

-- a key of the list in any letter case, white space, a separator and more white space
pub record IsAssignment (i : ℕ) (auth : Bool) (key space : Text) (separator : ℕ) (space' : Text)
    : Type 0 where
  pub listed : get_elem? keys i ≡ some (map lower key, auth)
  pub spaced : All (λ c. is_whitespace c ≡ true) space
  pub separated : is_separator separator ≡ true
  pub spaced' : All (λ c. is_whitespace c ≡ true) space'

module _ (i : ℕ) (auth : Bool) (key space : Text) (separator : ℕ) (space' : Text)
    (a : IsAssignment i auth key space separator space') where
  abbrev assigned : Text → Text
  assigned t = key ++ (space ++ (separator ∷ (space' ++ t)))

  separator-not_space : is_whitespace separator ≡ false
  separator-not_space = ground (arith, a.separated)

  assigned-matches : (t : Text) → matches_key (map lower key) (assigned t) ≡ true
  unfolding matches_key
  assigned-matches t =
      let at_key = starts_with_of-lower key (space ++ (separator ∷ (space' ++ t))) in
      rw
        (
          length-lower key,
          drop-append key (space ++ (separator ∷ (space' ++ t))),
          span-append is_whitespace space (separator ∷ (space' ++ t)) a.spaced separator-not_space,
        )
        (ground (arith, at_key, a.separated))

  assigned-found :
      (before : Option ℕ) (t : Text)
      → is_boundary before ≡ true
      → sensitive_assignment before (assigned t) ≡ some (length key, auth)
  unfolding sensitive_assignment
  assigned-found before t b = rw b (
      find_key_at keys i (map lower key) (assigned t) auth keys-AllClash a.listed
        (assigned-matches t)
      ∙ ap (λ n. some (n, auth)) (length-lower key))

  hide-assigned :
      (before : Option ℕ) (t : Text)
      → StopsAt is_whitespace t
      → let copied = key ++ space ++ separator ∷ [] ++ space' in
        hide_assignment before (length key) auth (assigned t)
        ≡ prefixed copied (hide_value (last_or before copied) auth t)
  unfolding hide_assignment
  hide-assigned before t e =
      let rest = separator ∷ (space' ++ t) in
      rw
        (
          drop-append key (space ++ rest),
          take-append key (space ++ rest),
          span-append is_whitespace space rest a.spaced separator-not_space,
          split_at separator (space' ++ t) a.separated,
          span-append is_whitespace space' t a.spaced' e,
        )
        refl

redact_at-found :
    (before : Option ℕ) (n : ℕ) (auth : Bool) (t : Text)
    → sensitive_assignment before t ≡ some (n, auth)
    → let r = hide_assignment before n auth t in
      redact_at before t ≡ r.written ++ redact_at r.before r.rest
redact_at-found before n auth [] h =
    absurd (unfold sensitive_assignment find_key matches_key starts_with in ground arith)
redact_at-found before n auth (c ∷ t) h =
    redact_at-round before c t
    ∙ ap (λ (r : Round). r.written ++ redact_at r.before r.rest)
        (unfold round round_by in rw h refl)

module _ (i : ℕ) (auth : Bool) (key space : Text) (separator : ℕ) (space' : Text)
    (a : IsAssignment i auth key space separator space') (before : Option ℕ) where
  redact_at-assigned :
      (t : Text) (r : Round)
      → is_boundary before ≡ true
      → StopsAt is_whitespace t
      → let copied = key ++ space ++ separator ∷ [] ++ space' in
        hide_value (last_or before copied) auth t ≡ r
        → redact_at before (key ++ (space ++ (separator ∷ (space' ++ t))))
          ≡ copied ++ r.written ++ redact_at r.before r.rest
  redact_at-assigned t r b e h =
      let copied = key ++ space ++ separator ∷ [] ++ space' in
      redact_at-found before (length key) auth _
        (assigned-found i auth key space separator space' a before t b)
      ∙ ap (λ (r : Round). r.written ++ redact_at r.before r.rest)
          (hide-assigned i auth key space separator space' a before t e ∙ ap (prefixed copied) h)

  -- Where the loop of `redact_text` stands at a sensitive key in any letter case, not behind a
  -- letter or a digit, with a separator and white space around it, the value that follows up to
  -- its end is replaced by the mark: neither it nor its length shows in what is written from there
  -- on. For the key "authorization" the value ends with the line, else at white space or at one of
  -- the characters `,`, `}` and `]`.
  pub redact_at-hides_value :
      (v : ℕ) (value rest : Text)
      → is_boundary before ≡ true
      → is_whitespace v ≡ false
      → is_quote v ≡ false
      → All (λ c. not (ends_value auth c) ≡ true) (v ∷ value)
      → StopsAt (λ c. not (ends_value auth c)) rest
      → redact_at before (key ++ (space ++ (separator ∷ (space' ++ (v ∷ (value ++ rest))))))
        ≡ key ++ space ++ separator ∷ [] ++ space' ++ mark ++ redact_at none rest
  redact_at-hides_value v value rest b w q h e =
      let copied = key ++ space ++ separator ∷ [] ++ space' in
      redact_at-assigned (v ∷ (value ++ rest)) _ b w
        (hide-unquoted (last_or before copied) auth v value rest q h e)
      ∙ ap (λ (s : Text). copied ++ mark ++ s)
          (redact_at-no_start _ none rest (StopsAt-ends auth rest e))

  -- Where the value is quoted, all between the quotes is replaced by the mark.
  pub redact_at-hides_quoted :
      (q : ℕ) (value rest : Text)
      → is_boundary before ≡ true
      → is_quote q ≡ true
      → All (λ c. not (c == q) ≡ true) value
      → redact_at before (key ++ (space ++ (separator ∷ (space' ++ (q ∷ (value ++ (q ∷ rest)))))))
        ≡ key
          ++ space
          ++ separator ∷ []
          ++ space'
          ++ (q ∷ mark ++ q ∷ [])
          ++ redact_at (some q) rest
  redact_at-hides_quoted q value rest b h e =
      let copied = key ++ space ++ separator ∷ [] ++ space' in
      let w : is_whitespace q ≡ false = ground arith in
      redact_at-assigned (q ∷ (value ++ (q ∷ rest))) _ b w
        (hide-quoted (last_or before copied) auth q value rest h e)
