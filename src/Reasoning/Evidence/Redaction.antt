-- ===== src/Reasoning/Evidence/Redaction.antt =====
-- src/reasoning/evidence.rs: the redaction of a text. The index into `chars` is the pair of the
-- character before it and the characters from it on.
pub mod Ends
pub mod Pieces
pub mod Hides
pub mod Bearer
use ai_sre.Prelude.{
  ℕ, suc, zero, ◌+◌, Bool, true, false, not, ◌&&◌, ◌||◌, Option, none, some, List, [], ◌∷◌, ◌++◌,
  length, drop, take, leb, ◌==◌, if◌then◌else◌, Text, text, is_whitespace, is_ascii_digit,
}

abbrev pub lower : ℕ → ℕ
lower c = if leb 65 c && leb c 90 then c + 32 else c

abbrev is_ascii_alphanumeric : ℕ → Bool
is_ascii_alphanumeric c = is_ascii_digit c || (leb 65 c && leb c 90) || (leb 97 c && leb c 122)

abbrev pub is_separator : ℕ → Bool
is_separator c = c == b':' || c == b'='

abbrev pub is_quote : ℕ → Bool
is_quote c = c == b'"' || c == b'\''

-- where the loop over an unquoted value stops
abbrev pub ends_value : Bool → ℕ → Bool
ends_value true c = c == b'\n' || c == b'\r'
ends_value false c = is_whitespace c || c == b',' || c == b'}' || c == b']'

-- `index == 0 || !chars[index - 1].is_ascii_alphanumeric()`
abbrev pub is_boundary : Option ℕ → Bool
is_boundary none = true
is_boundary (some c) = not (is_ascii_alphanumeric c)

-- the character before the rest, once `passed` has been passed
abbrev pub last_or : Option ℕ → Text → Option ℕ
last_or before [] = before
last_or before (c ∷ passed) = last_or (some c) passed

-- the characters that a `while` loop passes, and those that it leaves
unfoldable pub span : (ℕ → Bool) → Text → Text × Text
span p [] = ([], [])
span p (c ∷ t) = let (passed, rest) = span p t in if p c then (c ∷ passed, rest) else ([], c ∷ t)

-- the first characters of the text are the (lower case) pattern, whatever their case
unfoldable pub starts_with : Text → Text → Bool
starts_with [] t = true
starts_with (p ∷ ps) [] = false
starts_with (p ∷ ps) (c ∷ t) = lower c == p && starts_with ps t

abbrev head_is : (ℕ → Bool) → Text → Bool
head_is p [] = false
head_is p (c ∷ t) = p c

-- the key, any white space and a separator
unfoldable pub matches_key : Text → Text → Bool
unfolding starts_with span
matches_key key t =
    starts_with key t && head_is is_separator (span is_whitespace (drop (length key) t)).1

abbrev pub authorization : Text
authorization = text "authorization"

-- `KEYS`, each with whether it is "authorization"
abbrev pub keys : List (Text × Bool)
keys =
    (text "access_token", false)
    ∷ (authorization, true)
    ∷ (text "private_key", false)
    ∷ (text "credential", false)
    ∷ (text "password", false)
    ∷ (text "api_key", false)
    ∷ (text "apikey", false)
    ∷ (text "secret", false)
    ∷ (text "token", false)
    ∷ []

unfoldable pub find_key : List (Text × Bool) → Text → Option (ℕ × Bool)
unfolding matches_key
find_key [] t = none
find_key ((key, auth) ∷ rest) t =
    if matches_key key t then some (length key, auth) else find_key rest t

unfoldable pub sensitive_assignment : Option ℕ → Text → Option (ℕ × Bool)
unfolding find_key
sensitive_assignment before t = if is_boundary before then find_key keys t else none

unfoldable pub bearer_prefix : Option ℕ → Text → Option ℕ
unfolding starts_with
bearer_prefix before t =
    if is_boundary before
    then (if starts_with (text "bearer") t && head_is is_whitespace (drop 6 t)
        then some 6
        else none)
    else none

abbrev pub mark : Text
mark = text "[REDACTED]"

-- One round of the loop: what it writes, and where it stands then.
pub record Round : Type 0 where
  pub written : Text
  pub before : Option ℕ
  pub rest : Text

-- behind the key, the separator and the white space
unfoldable pub hide_value : Option ℕ → Bool → Text → Round
unfolding span
hide_value before auth [] = record { written = mark; before = before; rest = [] }
hide_value before auth (q ∷ t) =
    let (quoted, quoted_rest) = span (λ c. not (c == q)) t in
    let (value, value_rest) = span (λ c. not (ends_value auth c)) (q ∷ t) in
    if is_quote q
    then (elim quoted_rest [
      | [] ↦ record { written = q ∷ mark; before = last_or (some q) quoted; rest = [] }
      | _ ∷ rest ↦ record { written = q ∷ mark ++ q ∷ []; before = some q; rest = rest }
    ])
    else record { written = mark; before = last_or before value; rest = value_rest }

-- the separator, if one stands first
unfoldable pub split_separator : Text → Text × Text
split_separator [] = ([], [])
split_separator (c ∷ t) = if is_separator c then (c ∷ [], t) else ([], c ∷ t)

abbrev pub prefixed : Text → Round → Round
prefixed copied r = record r { written = copied ++ r.written }

unfoldable pub hide_assignment : Option ℕ → ℕ → Bool → Text → Round
unfolding span split_separator hide_value
hide_assignment before key_len auth t =
    let (space, at_separator) = span is_whitespace (drop key_len t) in
    let (separator, behind) = split_separator at_separator in
    let (space', value) = span is_whitespace behind in
    let copied = take key_len t ++ space ++ separator ++ space' in
    prefixed copied (hide_value (last_or before copied) auth value)

-- the token behind "bearer"
unfoldable pub hide_token : Option ℕ → Text → Round
unfolding span
hide_token before [] = record { written = []; before = before; rest = [] }
hide_token before (c ∷ t) =
    let (token, rest) = span (λ d. not (is_whitespace d)) (c ∷ t) in
    record { written = mark; before = last_or before token; rest = rest }

unfoldable pub hide_bearer : Option ℕ → ℕ → Text → Round
unfolding span hide_token
hide_bearer before token_len t =
    let (space, token) = span is_whitespace (drop token_len t) in
    let copied = take token_len t ++ space in
    prefixed copied (hide_token (last_or before copied) token)

-- one round, by what is recognised at `c`
unfoldable pub round_by : Option (ℕ × Bool) → Option ℕ → Option ℕ → ℕ → Text → Round
unfolding hide_assignment hide_bearer
round_by (some (key_len, auth)) bearer before c t = hide_assignment before key_len auth (c ∷ t)
round_by none (some token_len) before c t = hide_bearer before token_len (c ∷ t)
round_by none none before c t = record { written = c ∷ []; before = some c; rest = t }

unfoldable pub round : Option ℕ → ℕ → Text → Round
unfolding sensitive_assignment bearer_prefix round_by
round before c t =
    round_by (sensitive_assignment before (c ∷ t)) (bearer_prefix before (c ∷ t)) before c t

-- a round passes a character, so the length of the text is fuel enough
unfoldable pub redact_from : ℕ → Option ℕ → Text → Text
unfolding round
redact_from zero before t = []
redact_from (suc fuel) before [] = []
redact_from (suc fuel) before (c ∷ t) =
    let r = round before c t in r.written ++ redact_from fuel r.before r.rest

unfoldable pub redact_text : Text → Text
unfolding redact_from
redact_text input = redact_from (length input) none input
