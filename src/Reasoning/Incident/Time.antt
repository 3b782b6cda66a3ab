-- ===== src/Reasoning/Incident/Time.antt =====
-- src/reasoning/incident.rs: the RFC 3339 subset of Alertmanager's timestamps. The function reads
-- the bytes of the text; dates before 1970 have negative milliseconds.
pub mod Calendar
pub mod Succession
use ai_sre.Prelude.{
  ℕ, zero, suc, ◌+◌, ◌-◌, ◌*◌, ◌/◌, ◌%◌, Bool, true, false, ◌&&◌, ◌||◌, not, Option, none, some,
  List, [], ◌∷◌, ◌++◌, all, length, take, drop, get_elem?, ltb, leb, ◌==◌, if◌then◌else◌, Text,
  utf8, is_ascii_digit,
}
use ai_sre.Prelude.Decimal.{parse}
use ai_sre.Prelude.Int.{ℤ, pos, ◌+ℤ◌, ◌-ℤ◌, ◌*ℤ◌}
use Calendar.{days_from_civil}

infixl 5 ◌>>=◌ ◌>>◌
abbrev ◌>>=◌ {ℓ κ} : {A : Type ℓ} {B : Type κ} → Option A → (A → Option B) → Option B
none >>= f = none
some a >>= f = f a

abbrev ◌>>◌ {ℓ} : {B : Type ℓ} → Option (Unit {0}) → Option B → Option B
m >> k = m >>= λ _. k

-- `if b { return None; }`
abbrev refuse_if : Bool → Option (Unit {0})
refuse_if true = none
refuse_if false = some tt

-- `bytes.get(i) == Some(&b)`
abbrev pub byte_is : List ℕ → ℕ → ℕ → Bool
byte_is bytes i b = elim (get_elem? bytes i) [ none ↦ false | some c ↦ c == b ]

-- `bytes.get(start..start + length)`, all digits, read as a `u32`
unfoldable pub digits : List ℕ → ℕ → ℕ → Option ℕ
digits bytes start len =
    let slice = take len (drop start bytes) in
    if length slice == len && all is_ascii_digit slice then parse 4294967295 slice else none

-- the digits at the front
leading_digits : List ℕ → List ℕ
leading_digits [] = []
leading_digits (b ∷ bs) = let rest = leading_digits bs in if is_ascii_digit b then b ∷ rest else []

-- the first three digits of the fraction, padded with zeros
padded_millis : List ℕ → List ℕ
padded_millis ds = take 3 (ds ++ 48 ∷ 48 ∷ 48 ∷ [])

-- The fraction at `index`, if there is one: its milliseconds and the index behind it.
fraction : List ℕ → ℕ → Option (ℕ × ℕ)
unfolding leading_digits padded_millis
fraction bytes index =
    if byte_is bytes index 46
    then (do
      let ds = leading_digits (drop (index + 1) bytes)
      refuse_if (length ds == 0)
      millis ← parse 4294967295 (padded_millis ds)
      some (millis, index + 1 + length ds))
    else some (0, index)

-- The zone at `index`: its offset in minutes, by sign.
offset_minutes : List ℕ → ℕ → Option ℤ
offset_minutes bytes index =
    if byte_is bytes index 90 && index + 1 == length bytes
    then some (pos 0)
    else if byte_is bytes index 43 || byte_is bytes index 45
    then (do
      refuse_if (not (index + 6 == length bytes) || not (byte_is bytes (index + 3) 58))
      hours ← digits bytes (index + 1) 2
      minutes ← digits bytes (index + 4) 2
      refuse_if (ltb 23 hours || ltb 59 minutes)
      some (
          if byte_is bytes index 43
          then pos (hours * 60 + minutes)
          else pos 0 -ℤ pos (hours * 60 + minutes)))
    else none

unfoldable pub parse_bytes : List ℕ → Option ℤ
unfolding fraction offset_minutes
parse_bytes bytes = do
  refuse_if (
      ltb (length bytes) 20
      || not (byte_is bytes 4 45)
      || not (byte_is bytes 7 45)
      || not (byte_is bytes 10 84)
      || not (byte_is bytes 13 58)
      || not (byte_is bytes 16 58))
  year ← digits bytes 0 4
  month ← digits bytes 5 2
  day ← digits bytes 8 2
  hour ← digits bytes 11 2
  minute ← digits bytes 14 2
  second ← digits bytes 17 2
  refuse_if (
      not (leb 1 month && leb month 12)
      || not (leb 1 day && leb day 31)
      || ltb 23 hour
      || ltb 59 minute
      || ltb 59 second)
  (millis, index) ← fraction bytes 19
  offset ← offset_minutes bytes index
  days ← days_from_civil year month day
  some (
      (days *ℤ 86400 +ℤ pos (hour * 3600) +ℤ pos (minute * 60) +ℤ pos second -ℤ offset *ℤ 60)
        *ℤ 1000
      +ℤ pos millis)

unfoldable pub parse_rfc3339_millis : Text → Option ℤ
unfolding parse_bytes
parse_rfc3339_millis value = parse_bytes (utf8 value)
