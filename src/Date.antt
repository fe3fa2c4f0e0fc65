-- ===== src/Date.antt =====
-- tools/date.c: the date and the time of a number of seconds since the epoch, `tv_sec`.
pub mod Calendar
pub mod Weekday
use qoot.Base.{
  leb, ◌^◌, ℕ, zero, suc, ◌+◌, ◌-◌, ◌*◌, ◌/◌, ◌%◌, Bool, true, false, not, ◌&&◌, ◌||◌, List, [],
  ◌∷◌, ◌++◌, Bytes, codes, get_or, ltb, ◌==◌, if◌then◌else◌,
}
use qoot.Base.Int.{ℤ, pos, negsuc}
use qoot.Str.Digits.{uint_to_str}

abbrev pub day_names : List Bytes
day_names =
    codes "Thu"
    ∷ codes "Fri"
    ∷ codes "Sat"
    ∷ codes "Sun"
    ∷ codes "Mon"
    ∷ codes "Tue"
    ∷ codes "Wed"
    ∷ []

abbrev pub month_names : List Bytes
month_names =
    codes "Jan"
    ∷ codes "Feb"
    ∷ codes "Mar"
    ∷ codes "Apr"
    ∷ codes "May"
    ∷ codes "Jun"
    ∷ codes "Jul"
    ∷ codes "Aug"
    ∷ codes "Sep"
    ∷ codes "Oct"
    ∷ codes "Nov"
    ∷ codes "Dec"
    ∷ []

abbrev pub month_days : List ℕ
month_days = 31 ∷ 28 ∷ 31 ∷ 30 ∷ 31 ∷ 30 ∷ 31 ∷ 31 ∷ 30 ∷ 31 ∷ 30 ∷ 31 ∷ []

unfoldable pub is_leap : ℕ → Bool
is_leap y = y % 4 == 0 && not (y % 100 == 0) || y % 400 == 0

-- `365 + is_leap(year)`
unfoldable pub year_days : ℕ → ℕ
unfolding is_leap
year_days y = if is_leap y then 366 else 365

-- The loop over the years on fuel: the day of the year that is left, and the year.
unfoldable pub year_loop : ℕ → ℕ → ℕ → ℕ × ℕ
unfolding year_days
year_loop zero days year = (days, year)
year_loop (suc f) days year =
    let later = year_loop f (days - year_days year) (year + 1) in
    if ltb days (year_days year) then (days, year) else later

-- `month_days[month] + (month == 1 && is_leap(year) ? 1 : 0)`
unfoldable pub days_of_month : ℕ → ℕ → ℕ
unfolding is_leap
days_of_month year month = get_or month_days month 0 + (if month == 1 && is_leap year then 1 else 0)

-- The loop over the months, on the rounds left: the day that is left, and the month.
unfoldable pub month_loop : ℕ → ℕ → ℕ → ℕ → ℕ × ℕ
unfolding days_of_month
month_loop zero year days month = (days, month)
month_loop (suc n) year days month =
    let md = days_of_month year month in
    let later = month_loop n year (days - md) (month + 1) in
    if ltb days md then (days, month) else later

pub record Civil : Type 0 where
  pub dow : ℕ
  pub year : ℕ
  pub month : ℕ
  pub day : ℕ
  pub hour : ℕ
  pub min : ℕ
  pub sec : ℕ

-- `dow`, where C rounds towards zero, and a negative remainder is corrected.
unfoldable pub day_of_week : ℤ → ℕ
day_of_week (pos ts) = (ts / 86400 + 4) % 7
day_of_week (negsuc n) =
    let before = suc n / 86400 in
    let r = (before - 4) % 7 in if leb before 4 then 4 - before else if r == 0 then 0 else 7 - r

-- The bit pattern of the `int` `days`, and `time_of_day`, with the correction before the epoch.
unfoldable pub days_and_time : ℤ → ℕ × ℕ
days_and_time (pos ts) = (ts / 86400 % 2 ^ 32, ts % 86400)
days_and_time (negsuc n) =
    let before = suc n / 86400 in
    let r = suc n % 86400 in
    let days = (2 ^ 32 - (before + (if r == 0 then 0 else 1)) % 2 ^ 32) % 2 ^ 32 in
    (days, if r == 0 then 0 else 86400 - r)

-- The two loops, which a negative count of days leaves at once; the years are counted with one round
-- for each day at most.
unfoldable pub break_down : ℤ → Civil
unfolding day_of_week days_and_time year_loop month_loop
break_down ts =
    let (days, time_of_day) = days_and_time ts in
    let negative = leb (2 ^ 31) days in
    let (in_year, year) = if negative then (days, 1970) else year_loop (days + 1) days 1970 in
    let (left, month) = if negative then (in_year, 0) else month_loop 12 year in_year 0 in
    record {
      dow = day_of_week ts;
      year = year;
      month = month;
      day = (left + 1) % 2 ^ 32;
      hour = time_of_day / 3600;
      min = time_of_day % 3600 / 60;
      sec = time_of_day % 60;
    }

-- A number behind the filler that stands for its missing second digit.
two_columns : ℕ → ℕ → Bytes
two_columns filler n = (if ltb n 10 then filler ∷ [] else []) ++ (uint_to_str n).0

-- What `date` prints from the epoch on, while the days fit an `int`. Before it the day is not positive,
-- and its unsigned text is written over the end of `buf[8]`.
unfoldable pub date_text : ℕ → Bytes
unfolding break_down two_columns uint_to_str
date_text ts =
    let c = break_down (pos ts) in
    get_or day_names c.dow []
    ++ 32
      ∷ (get_or month_names c.month []
          ++ 32
            ∷ (two_columns 32 c.day
                ++ 32
                  ∷ (two_columns b'0' c.hour
                      ++ b':'
                        ∷ (two_columns b'0' c.min
                            ++ b':'
                              ∷ (two_columns b'0' c.sec
                                  ++ (codes " UTC " ++ ((uint_to_str c.year).0 ++ 10 ∷ [])))))))
