-- ===== src/Reasoning/Incident/Time/Succession.antt =====
-- src/reasoning/incident.rs: about day numbers and the civil calendar.
use ai_sre.Prelude.{
  ℕ, zero, suc, ◌+◌, ◌-◌, ◌*◌, ◌/◌, ◌%◌, ◌≤◌, ◌<◌, ◌≡◌, ◌≢◌, ◌⊎◌, refl, true, false, Option, some,
  ltb, leb, arith, sym, ap, ◌∙◌, inl, inr, Bool-cases, if◌then◌else◌,
}
use ai_sre.Prelude.Int.{
  ℤ, pos, negsuc, sub_ℕ, ◌+ℤ◌, ◌-ℤ◌, ◌*ℤ◌, div_euclid, int_laws, eq_of_parts, sub_ℕ_parts, pos_part,
}
use ai_sre.Reasoning.Incident.Time.Calendar.{
  is_leap, day_limit, civil_days, days_of_shifted, days_from_civil,
}

-- the year of which March is the first month, one era ahead so that it is not negative
abbrev shifted : ℕ → ℕ → ℕ
shifted year month = year + 400 - (if leb month 2 then 1 else 0)

abbrev march_month : ℕ → ℕ
march_month month = if ltb 2 month then month - 3 else month + 9

abbrev era_days : ℕ → ℕ
era_days y = y / 400 * 146097 + (y % 400 * 365 + y % 400 / 4 - y % 400 / 100)

abbrev count : ℕ → ℕ → ℕ → ℕ
count year month day = era_days (shifted year month) + (153 * march_month month + 2) / 5 + day

-- the year of the era
era_year : (y : ℕ) → pos_part (pos y -ℤ div_euclid (pos y) 400 *ℤ 400) ≡ y % 400
unfolding div_euclid ◌-ℤ◌ ◌*ℤ◌
era_year y = ground arith

days_of_pos :
    (y month_index day : ℕ)
    → days_of_shifted (pos y) month_index day
      ≡ sub_ℕ (era_days y + (153 * month_index + 2) / 5 + day) 719469
unfolding days_of_shifted div_euclid
days_of_pos y m day =
    rw (era_year y) (
      eq_of_parts _ _ (omega (int_laws, sub_ℕ_parts (era_days y + (153 * m + 2) / 5 + day) 719469)))

era_days_next : (y : ℕ) → era_days (y + 400) ≡ era_days y + 146097
era_days_next y = omega arith

days_of_negative :
    (month_index day : ℕ)
    → days_of_shifted (negsuc 0) month_index day
      ≡ sub_ℕ (era_days 399 + (153 * month_index + 2) / 5 + day) 865566
unfolding days_of_shifted div_euclid
days_of_negative m day =
    let e : pos_part (negsuc 0 -ℤ negsuc 0 *ℤ 400) ≡ 399 = unfold ◌-ℤ◌ ◌*ℤ◌ in refl in
    rw e (
      eq_of_parts _ _
        (omega (int_laws, sub_ℕ_parts (era_days 399 + (153 * m + 2) / 5 + day) 865566)))

sub_one : (y : ℕ) → pos (suc y) -ℤ pos 1 ≡ pos y
unfolding ◌-ℤ◌
sub_one y = ground arith

sub_zero : (y : ℕ) → pos y -ℤ pos 0 ≡ pos y
unfolding ◌-ℤ◌
sub_zero y = ground arith

zero_sub_one : pos 0 -ℤ pos 1 ≡ negsuc 0
unfolding ◌-ℤ◌
zero_sub_one = refl

sub_ℕ_shift : (a b c : ℕ) → sub_ℕ (a + c) (b + c) ≡ sub_ℕ a b
sub_ℕ_shift a b c = ground arith

days_of_year :
    (year month_index day : ℕ)
    → days_of_shifted (pos year) month_index day
      ≡ sub_ℕ (era_days (year + 400) + (153 * month_index + 2) / 5 + day) 865566
days_of_year y m day =
    days_of_pos y m day
    ∙ sym (sub_ℕ_shift (era_days y + (153 * m + 2) / 5 + day) 719469 146097)
    ∙ ap (λ n. sub_ℕ n 865566) (omega (arith, era_days_next y))

civil_days_late :
    (year month day : ℕ)
    → leb month 2 ≡ false
    → civil_days year month day ≡ sub_ℕ (count year month day) 865566
unfolding civil_days
civil_days_late y m d h =
    rw (h, sub_zero)
      (days_of_year y (march_month m) d
        ∙ ap (λ n. sub_ℕ (era_days n + (153 * march_month m + 2) / 5 + d) 865566) (omega arith))

civil_days_early :
    (year month day : ℕ)
    → leb month 2 ≡ true
    → civil_days year month day ≡ sub_ℕ (count year month day) 865566
unfolding civil_days
civil_days_early zero m d h = rw (h, zero_sub_one) (days_of_negative (march_month m) d)
civil_days_early (suc y) m d h =
    rw (h, sub_one)
      (days_of_year y (march_month m) d
        ∙ ap (λ n. sub_ℕ (era_days n + (153 * march_month m + 2) / 5 + d) 865566) (omega arith))

civil_days-count :
    (year month day : ℕ) → civil_days year month day ≡ sub_ℕ (count year month day) 865566
civil_days-count y m d = elim (Bool-cases (leb m 2)) [
  | inl h ↦ civil_days_early y m d h
  | inr h ↦ civil_days_late y m d h
]

succ_of_count :
    (y m d y' m' d' : ℕ)
    → count y' m' d' ≡ count y m d + 1
    → civil_days y' m' d' ≡ civil_days y m d +ℤ pos 1
succ_of_count y m d y' m' d' h =
    civil_days-count y' m' d'
    ∙ ap (λ n. sub_ℕ n 865566) h
    ∙ eq_of_parts _ _
        (omega (int_laws, sub_ℕ_parts (count y m d + 1) 865566, sub_ℕ_parts (count y m d) 865566))
    ∙ ap (λ z. z +ℤ pos 1) (sym (civil_days-count y m d))

era_days_leap :
    (y : ℕ)
    → ((y % 4 ≡ 0) × (y % 100 ≢ 0)) ⊎ (y % 400 ≡ 0)
    → era_days (y + 400) ≡ era_days (y + 399) + 366
era_days_leap y h = omega arith

era_days_common :
    (y : ℕ)
    → (y % 4 ≢ 0) ⊎ (y % 100 ≡ 0)
    → y % 400 ≢ 0
    → era_days (y + 400) ≡ era_days (y + 399) + 365
era_days_common y h k = omega arith

leap_mods : (y : ℕ) → is_leap y ≡ true → ((y % 4 ≡ 0) × (y % 100 ≢ 0)) ⊎ (y % 400 ≡ 0)
leap_mods y h = ground arith

common_mods : (y : ℕ) → is_leap y ≡ false → ((y % 4 ≢ 0) ⊎ (y % 100 ≡ 0)) × (y % 400 ≢ 0)
common_mods y h = ground arith

february : (y limit : ℕ) → day_limit y 2 ≡ some limit → count y 3 1 ≡ count y 2 limit + 1
february y limit e = elim (Bool-cases (is_leap y)) [
  | inl h ↦
      let l : limit ≡ 29 = unfold day_limit in ground arith in
      omega (arith, era_days_leap y (leap_mods y h))
  | inr h ↦
      let l : limit ≡ 28 = unfold day_limit in ground arith in
      let k = common_mods y h in omega (arith, era_days_common y k.0 k.1)
]

month_end :
    (y m limit : ℕ) → m < 12 → day_limit y m ≡ some limit → count y (m + 1) 1 ≡ count y m limit + 1
unfolding day_limit
month_end y zero limit h e = cc
month_end y (suc zero) limit h e = ground arith
month_end y (suc (suc zero)) limit h e = february y limit e
month_end y (suc (suc (suc zero))) limit h e = ground arith
month_end y (suc (suc (suc (suc zero)))) limit h e = ground arith
month_end y (suc (suc (suc (suc (suc zero))))) limit h e = ground arith
month_end y (suc (suc (suc (suc (suc (suc zero)))))) limit h e = ground arith
month_end y (suc (suc (suc (suc (suc (suc (suc zero))))))) limit h e = ground arith
month_end y (suc (suc (suc (suc (suc (suc (suc (suc zero)))))))) limit h e = ground arith
month_end y (suc (suc (suc (suc (suc (suc (suc (suc (suc zero))))))))) limit h e = ground arith
month_end y (suc (suc (suc (suc (suc (suc (suc (suc (suc (suc zero)))))))))) limit h e =
    ground arith
month_end y (suc (suc (suc (suc (suc (suc (suc (suc (suc (suc (suc zero))))))))))) limit h e =
    ground arith
month_end y (suc (suc (suc (suc (suc (suc (suc (suc (suc (suc (suc (suc m)))))))))))) limit h e =
    absurd (omega arith)

pub record Date : Type 0 where
  pub year : ℕ
  pub month : ℕ
  pub day : ℕ

abbrev pub day_number : Date → Option ℤ
day_number d = days_from_civil d.year d.month d.day

-- the date behind a date in the calendar, whose month has `limit` days
abbrev pub next_date : ℕ → Date → Date
next_date limit d =
    if ltb d.day limit
    then record d { day = d.day + 1 }
    else if ltb d.month 12
    then record d { month = d.month + 1; day = 1 }
    else record { year = d.year + 1; month = 1; day = 1 }

-- every month has a last day
has_limit : (y m : ℕ) → 1 ≤ m → m ≤ 12 → (l : ℕ) × (day_limit y m ≡ some l) × (1 ≤ l)
unfolding day_limit
has_limit y zero h k = absurd (omega arith)
has_limit y (suc zero) h k = (31, refl, omega arith)
has_limit y (suc (suc zero)) h k = (28 + (if is_leap y then 1 else 0), refl, omega arith)
has_limit y (suc (suc (suc zero))) h k = (31, refl, omega arith)
has_limit y (suc (suc (suc (suc zero)))) h k = (30, refl, omega arith)
has_limit y (suc (suc (suc (suc (suc zero))))) h k = (31, refl, omega arith)
has_limit y (suc (suc (suc (suc (suc (suc zero)))))) h k = (30, refl, omega arith)
has_limit y (suc (suc (suc (suc (suc (suc (suc zero))))))) h k = (31, refl, omega arith)
has_limit y (suc (suc (suc (suc (suc (suc (suc (suc zero)))))))) h k = (31, refl, omega arith)
has_limit y (suc (suc (suc (suc (suc (suc (suc (suc (suc zero))))))))) h k = (30, refl, omega arith)
has_limit y (suc (suc (suc (suc (suc (suc (suc (suc (suc (suc zero)))))))))) h k =
    (31, refl, omega arith)
has_limit y (suc (suc (suc (suc (suc (suc (suc (suc (suc (suc (suc zero))))))))))) h k =
    (30, refl, omega arith)
has_limit y (suc (suc (suc (suc (suc (suc (suc (suc (suc (suc (suc (suc zero)))))))))))) h k =
    (31, refl, omega arith)
has_limit y (suc (suc (suc (suc (suc (suc (suc (suc (suc (suc (suc (suc (suc m))))))))))))) h k =
    absurd (omega arith)

day_number_of_limit :
    (y m d limit : ℕ)
    → day_limit y m ≡ some limit
    → d ≤ limit
    → days_from_civil y m d ≡ some (civil_days y m d)
unfolding days_from_civil
day_number_of_limit y m d limit e h = ground arith

limit_of_day_number :
    (y m d limit : ℕ) (n : ℤ)
    → day_limit y m ≡ some limit
    → days_from_civil y m d ≡ some n
    → (d ≤ limit) × (n ≡ civil_days y m d)
unfolding days_from_civil
limit_of_day_number y m d limit n e h = ground arith

december : (y limit : ℕ) → day_limit y 12 ≡ some limit → count (y + 1) 1 1 ≡ count y 12 limit + 1
unfolding day_limit
december y limit e = ground arith

module _ (y m d limit : ℕ) (n : ℤ) (e : day_limit y m ≡ some limit)
    (same : n ≡ civil_days y m d) where
  next_day : d < limit → days_from_civil y m (d + 1) ≡ some (n +ℤ pos 1)
  next_day h = rw same (
      day_number_of_limit y m (d + 1) limit e (omega arith)
      ∙ ap some (succ_of_count y m d y m (d + 1) (omega arith)))

  next_month : d ≡ limit → 1 ≤ m → m < 12 → days_from_civil y (m + 1) 1 ≡ some (n +ℤ pos 1)
  next_month at_end low more =
      let (l, f, pos_l) = has_limit y (m + 1) (omega arith) (omega arith) in
      rw same (
        day_number_of_limit y (m + 1) 1 l f pos_l
        ∙ ap some (
            succ_of_count y m d y (m + 1) 1
              (month_end y m limit more e ∙ ap (λ k. count y m k + 1) (sym at_end))))

  next_year : d ≡ limit → m ≡ 12 → days_from_civil (y + 1) 1 1 ≡ some (n +ℤ pos 1)
  next_year at_end last = rw same (
      day_number_of_limit (y + 1) 1 1 31 (unfold day_limit in refl) (omega arith)
      ∙ ap some
          (succ_of_count y m d (y + 1) 1 1 (rw (at_end, last) (december y limit (rw last at e)))))

-- A date that has a day number, in a month from 1 to 12 with `limit` days, is followed by the next
-- date of the Gregorian calendar, and that date has the next day number.
pub day_number-next_date :
    (d : Date) (limit : ℕ) (n : ℤ)
    → 1 ≤ d.month
    → d.month ≤ 12
    → day_limit d.year d.month ≡ some limit
    → day_number d ≡ some n
    → day_number (next_date limit d) ≡ some (n +ℤ pos 1)
day_number-next_date d limit n low high e h =
    let (le, same) = limit_of_day_number d.year d.month d.day limit n e h in
    elim (Bool-cases (ltb d.day limit)) [
      | inl inside ↦ rw inside (next_day d.year d.month d.day limit n e same (ground arith))
      | inr last_day ↦
          let at_end : d.day ≡ limit = ground arith in
          elim (Bool-cases (ltb d.month 12)) [
            | inl more ↦
                rw (last_day, more)
                  (next_month d.year d.month d.day limit n e same at_end low (ground arith))
            | inr last_month ↦
                rw (last_day, last_month)
                  (next_year d.year d.month d.day limit n e same at_end (ground arith))
          ]
    ]

-- The epoch has day number 0.
epoch : day_number (record { year = 1970; month = 1; day = 1 }) ≡ some (pos 0)
unfolding days_from_civil days_of_shifted ◌+ℤ◌ ◌-ℤ◌ ◌*ℤ◌ div_euclid
epoch = refl
