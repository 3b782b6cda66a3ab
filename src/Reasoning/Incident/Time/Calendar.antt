-- ===== src/Reasoning/Incident/Time/Calendar.antt =====
-- src/reasoning/incident.rs: days since 1970-01-01 of a civil date. Years, months and days are read
-- from digits, so they are not negative; what is computed from them can be.
use ai_sre.Prelude.{
  ℕ, ◌+◌, ◌-◌, ◌*◌, ◌/◌, ◌%◌, Bool, not, ◌&&◌, ◌||◌, Option, none, some, ltb, leb, ◌==◌,
  if◌then◌else◌,
}
use ai_sre.Prelude.Int.{ℤ, pos, pos_part, ◌+ℤ◌, ◌-ℤ◌, ◌*ℤ◌, div_euclid}

abbrev pub is_leap : ℕ → Bool
is_leap year = (year % 4 == 0 && not (year % 100 == 0)) || year % 400 == 0

-- the last day of the month, if it is a month
unfoldable pub day_limit : ℕ → ℕ → Option ℕ
day_limit year month =
    if month == 2
    then some (28 + (if is_leap year then 1 else 0))
    else if month == 4 || month == 6 || month == 9 || month == 11
    then some 30
    else if month == 1
        || month == 3
        || month == 5
        || month == 7
        || month == 8
        || month == 10
        || month == 12
    then some 31
    else none

-- The year of the era is not negative, so its quotients are those of ℕ.
unfoldable pub days_of_shifted : ℤ → ℕ → ℕ → ℤ
days_of_shifted adjusted_year month_index day =
    let era = div_euclid adjusted_year 400 in
    let year_of_era = pos_part (adjusted_year -ℤ era *ℤ 400) in
    let day_of_year = pos ((153 * month_index + 2) / 5 + day) -ℤ pos 1 in
    let day_of_era =
      pos (year_of_era * 365 + year_of_era / 4) -ℤ pos (year_of_era / 100) +ℤ day_of_year in
    era *ℤ 146097 +ℤ day_of_era -ℤ pos 719468

unfoldable pub civil_days : ℕ → ℕ → ℕ → ℤ
civil_days year month day =
    days_of_shifted (pos year -ℤ pos (if leb month 2 then 1 else 0))
      (if ltb 2 month then month - 3 else month + 9) day

unfoldable pub days_from_civil : ℕ → ℕ → ℕ → Option ℤ
unfolding day_limit civil_days
days_from_civil year month day = elim (day_limit year month) [
  | none ↦ none
  | some limit ↦ if ltb limit day then none else some (civil_days year month day)
]
