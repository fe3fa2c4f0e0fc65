-- ===== src/Date/Calendar.antt =====
-- tools/date.c: the broken-down date stands for the day that it was made from.
use qoot.Base.{
  leb, false, ◌^◌, ℕ, zero, suc, ◌+◌, ◌-◌, ◌*◌, ◌/◌, ◌%◌, ◌<◌, ◌≤◌, ◌≡◌, inl, inr, refl, arith, ltb,
  ltb→lt, ◌==◌, Bool-cases, if◌then◌else◌,
}
use mathlib.Core.Path.{subst}
use native.Mathlib.Numerals.{add-one}
use qoot.Base.Int.{pos}
use qoot.Date.{year_days, year_loop, days_of_month, month_loop, Civil, break_down}

-- The days before the first of January of year `y`, counted from year 0 of the Gregorian calendar.
abbrev pub days_before_year : ℕ → ℕ
days_before_year y = 365 * y + (y + 3) / 4 + (y + 399) / 400 - (y + 99) / 100

quarter : (y : ℕ) → (y + 1 + 3) / 4 ≡ (y + 3) / 4 + (if y % 4 == 0 then 1 else 0)
quarter y = ground arith

century : (y : ℕ) → (y + 1 + 99) / 100 ≡ (y + 99) / 100 + (if y % 100 == 0 then 1 else 0)
century y = ground arith

four_centuries : (y : ℕ) → (y + 1 + 399) / 400 ≡ (y + 399) / 400 + (if y % 400 == 0 then 1 else 0)
four_centuries y = ground arith

century_quarter : (y : ℕ) → y % 100 ≡ 0 → y % 4 ≡ 0
century_quarter y h = omega arith

four_centuries_century : (y : ℕ) → y % 400 ≡ 0 → y % 100 ≡ 0
four_centuries_century y h = omega arith

year_days_pos : (y : ℕ) → 365 ≤ year_days y
unfolding year_days
year_days_pos y = ground arith

-- One year further is its days further.
days_before_year-suc : (y : ℕ) → days_before_year (y + 1) ≡ days_before_year y + year_days y
unfolding year_days
days_before_year-suc y =
    let enough : (y + 99) / 100 ≤ 365 * y + (y + 3) / 4 = omega arith in
    rw (quarter, century, four_centuries)
      (ground (arith, century_quarter y, four_centuries_century y))

year_loop_lem :
    (f days year : ℕ)
    → days < f
    → (days_before_year (year_loop f days year).1 + (year_loop f days year).0
        ≡ days_before_year year + days)
      × ((year_loop f days year).0 < year_days (year_loop f days year).1)
unfolding year_loop
year_loop_lem zero days year h = elim h [ ]
year_loop_lem (suc f) days year h = elim (Bool-cases (ltb days (year_days year))) [
  | inl last ↦ rw last (refl, ltb→lt days (year_days year) last)
  | inr more ↦
      let full : 365 ≤ year_days year = year_days_pos year in
      let enough : year_days year ≤ days = ground arith in
      let (e, b) = year_loop_lem f (days - year_days year) (year + 1) (omega arith) in
      rw more (omega (arith, e, days_before_year-suc year), b)
]

-- The days of the year before the first of a month, counted from 0 for January.
abbrev pub days_before_month : ℕ → ℕ → ℕ
days_before_month year zero = 0
days_before_month year (suc m) = days_before_month year m + days_of_month year m

year_months : (year : ℕ) → days_before_month year 12 ≡ year_days year
unfolding days_of_month year_days
year_months year = ground arith

month_loop_lem :
    (n month year days : ℕ)
    → month + n ≡ 12
    → days_before_month year month + days < days_before_month year 12
    → let (left, m) = month_loop n year days month in
      (days_before_month year m + left ≡ days_before_month year month + days)
      × (left < days_of_month year m)
      × (m < 12)
unfolding month_loop
month_loop_lem zero month year days e h =
    let all_year : month ≡ 12 = omega arith in
    let over : days_before_month year 12 + days < days_before_month year 12 =
      subst (λ m. days_before_month year m + days < days_before_month year 12) all_year h in
    absurd (omega arith)
month_loop_lem (suc n) month year days e h =
    elim (Bool-cases (ltb days (days_of_month year month))) [
      | inl last ↦ rw last (refl, ltb→lt days (days_of_month year month) last, omega arith)
      | inr more ↦
          let enough : days_of_month year month ≤ days = ground arith in
          let next : days_before_month year (month + 1)
              ≡ days_before_month year month + days_of_month year month =
            rw add-one in
          let (eq, b, m) =
            month_loop_lem n (month + 1) year (days - days_of_month year month) (omega arith)
              (omega (arith, next)) in
          rw more (omega (arith, eq, next), b, m)
    ]

-- What it means that a broken-down time stands for `ts`.
pub record IsDateOf (ts : ℕ) (c : Civil) : Type 0 where
  pub same_day :
      days_before_year c.year + days_before_month c.year c.month + c.day
      ≡ days_before_year 1970 + ts / 86400 + 1
  pub month_range : c.month < 12
  pub first_day : 1 ≤ c.day
  pub last_day : c.day ≤ days_of_month c.year c.month
  pub same_time : c.hour * 3600 + c.min * 60 + c.sec ≡ ts % 86400
  pub hour_range : c.hour < 24
  pub min_range : c.min < 60
  pub sec_range : c.sec < 60

-- From the epoch on, as long as the days fit an `int`, year, month and day name the day of the
-- Gregorian calendar that `ts` falls on, and hour, minute and second the second of that day.
pub break_down-IsDateOf : (ts : ℕ) → ts < 86400 * 2 ^ 31 → IsDateOf ts (break_down (pos ts))
unfolding break_down
break_down-IsDateOf ts fits =
    let days = ts / 86400 % 2 ^ 32 in
    let positive : leb (2 ^ 31) days ≡ false = ground arith in
    let (ey, by) = year_loop_lem (days + 1) days 1970 (omega arith) in
    let year = (year_loop (days + 1) days 1970).1 in
    let in_year = (year_loop (days + 1) days 1970).0 in
    let (em, bm, mm) =
      month_loop_lem 12 0 year in_year (omega arith) (omega (arith, year_months year)) in
    rw positive (record {
      same_day = omega (arith, ey, em);
      month_range = mm;
      first_day = omega arith;
      last_day = omega (arith, bm);
      same_time = omega arith;
      hour_range = omega arith;
      min_range = omega arith;
      sec_range = omega arith;
    })
