-- ===== src/Prelude/Decimal.antt =====
-- Decimal numerals, as `format!("{n}")` prints them and `parse` reads them.
use Prim.Native.Nat.{ℕ, zero, suc, ◌+◌, ◌-◌, ◌*◌, ◌/◌, ◌%◌, ◌≤◌, ◌<◌}
use mathlib.Core.Path.{◌≡◌, refl, ◌∙◌}
use mathlib.Core.Bool.{true}
use mathlib.Core.Option.{Option, none, some}
use mathlib.Core.List.{[], ◌∷◌, ◌++◌}
use mathlib.Core.Logic.{◌≢◌, inl, inr}
use native.Mathlib.Omega.{arith}
use ai_sre.Prelude.Tests.{ltb, leb, ◌==◌, if◌then◌else◌, Bool-cases}
use ai_sre.Prelude.Lists.{All, is_empty}
use ai_sre.Prelude.Texts.{Text, is_ascii_digit}

-- The fuel is more than the number.
show_fuel : ℕ → ℕ → Text
show_fuel zero n = []
show_fuel (suc f) n =
    let rest = show_fuel f (n / 10) in
    if ltb n 10 then (48 + n) ∷ [] else rest ++ (48 + n % 10) ∷ []

unfoldable pub show : ℕ → Text
unfolding show_fuel
show n = show_fuel (suc n) n

parse_digits : ℕ → ℕ → Text → Option ℕ
parse_digits max acc [] = some acc
parse_digits max acc (c ∷ t) =
    let acc' = acc * 10 + (c - 48) in
    if is_ascii_digit c then (if leb acc' max then parse_digits max acc' t else none) else none

-- `parse` into an unsigned type whose largest value is `max`: a sign `+` may stand in front
unfoldable pub parse : ℕ → Text → Option ℕ
unfolding parse_digits
parse max [] = none
parse max (c ∷ t) =
    if c == 43
    then (if is_empty t then none else parse_digits max 0 t)
    else parse_digits max 0 (c ∷ t)

parse_digits-append :
    (max acc : ℕ) (s t : Text) (v : ℕ)
    → parse_digits max acc s ≡ some v
    → parse_digits max acc (s ++ t) ≡ parse_digits max v t
unfolding parse_digits
parse_digits-append max acc [] t v h = ground arith
parse_digits-append max acc (c ∷ s) t v h =
    ground (arith, parse_digits-append max (acc * 10 + (c - 48)) s t v)

parse_digits-show : (max f n : ℕ) → n < f → n ≤ max → parse_digits max 0 (show_fuel f n) ≡ some n
unfolding show_fuel
parse_digits-show max zero n h m = elim h [ ]
parse_digits-show max (suc f) n h m = elim (Bool-cases (ltb n 10)) [
  | inl small ↦ rw small (unfold parse_digits in ground arith)
  | inr big ↦ rw big (
      parse_digits-append max 0 (show_fuel f (n / 10)) ((48 + n % 10) ∷ []) (n / 10)
        (parse_digits-show max f (n / 10) (ground arith) (ground arith))
      ∙ unfold parse_digits in ground arith)
]

-- the digits of a number
abbrev pub AllDigits : Text → Type 0
AllDigits t = All (λ c. is_ascii_digit c ≡ true) t

AllDigits-snoc :
    (s : Text) (c : ℕ) → AllDigits s → is_ascii_digit c ≡ true → AllDigits (s ++ c ∷ [])
AllDigits-snoc [] c h d = (d, tt)
AllDigits-snoc (b ∷ s) c h d = (h.0, AllDigits-snoc s c h.1 d)

show_fuel-AllDigits : (f n : ℕ) → AllDigits (show_fuel f n)
unfolding show_fuel
show_fuel-AllDigits zero n = tt
show_fuel-AllDigits (suc f) n = elim (Bool-cases (ltb n 10)) [
  | inl small ↦ rw small (ground arith, tt)
  | inr big ↦ rw big (AllDigits-snoc _ _ (show_fuel-AllDigits f (n / 10)) (ground arith))
]

pub show-AllDigits : (n : ℕ) → AllDigits (show n)
unfolding show
show-AllDigits n = show_fuel-AllDigits (suc n) n

parse_of_digits : (max : ℕ) (t : Text) → AllDigits t → t ≢ [] → parse max t ≡ parse_digits max 0 t
unfolding parse
parse_of_digits max [] d ne = absurd (ne refl)
parse_of_digits max (c ∷ t) d ne = let h = d.0 in ground arith

snoc-ne-nil : (s : Text) (c : ℕ) → s ++ c ∷ [] ≢ []
snoc-ne-nil [] c e = cc
snoc-ne-nil (b ∷ s) c e = cc

pub show-ne-nil : (n : ℕ) → show n ≢ []
unfolding show
show-ne-nil n e = ground (arith, snoc-ne-nil (show_fuel n (n / 10)) (48 + n % 10))

-- A number within the type is read back from its numeral.
pub parse-show : (max n : ℕ) → n ≤ max → parse max (show n) ≡ some n
parse-show max n h =
    parse_of_digits max (show n) (show-AllDigits n) (show-ne-nil n)
    ∙ unfold show in parse_digits-show max (suc n) n (omega arith) h

parse_digits-le :
    (max acc : ℕ) (t : Text) (v : ℕ) → acc ≤ max → parse_digits max acc t ≡ some v → v ≤ max
unfolding parse_digits
parse_digits-le max acc [] v h e = ground arith
parse_digits-le max acc (c ∷ t) v h e =
    ground (arith, parse_digits-le max (acc * 10 + (c - 48)) t v)

pub parse-le : (max : ℕ) (t : Text) (v : ℕ) → parse max t ≡ some v → v ≤ max
unfolding parse
parse-le max [] v e = ground arith
parse-le max (c ∷ t) v e =
    ground (arith, parse_digits-le max 0 t v, parse_digits-le max 0 (c ∷ t) v)

pub parse-leading_zero :
    (max : ℕ) (t : Text) → AllDigits t → t ≢ [] → parse max (48 ∷ t) ≡ parse max t
unfolding parse
parse-leading_zero max [] d ne = absurd (ne refl)
parse-leading_zero max (c ∷ t) d ne = let h = d.0 in ground arith
