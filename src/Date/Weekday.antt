-- ===== src/Date/Weekday.antt =====
-- tools/date.c: the weekday. `day_names` begins with the day of the epoch, a Thursday.
use qoot.Base.{ℕ, zero, suc, ◌+◌, ◌/◌, ◌%◌, ◌<◌, ◌≡◌, ◌≢◌, ◌*◌, ap, [], Bytes, get_or, arith}
use qoot.Base.Int.{pos}
use qoot.Date.{day_names, break_down}

-- The name of the weekday, so many days behind the epoch, in a list that begins with its weekday.
abbrev pub weekday_name : ℕ → Bytes
weekday_name days = get_or day_names (days % 7) []

-- Two letters tell the names apart.
abbrev key : Bytes → ℕ
key name = get_or name 0 0 * 256 + get_or name 1 0

-- The seven days, each seen from the one four places further on.
shifted : (r : ℕ) → r < 7 → get_or day_names ((r + 4) % 7) [] ≢ get_or day_names r []
shifted zero h = λ e. absurd (omega (arith, ap key e))
shifted (suc zero) h = λ e. absurd (omega (arith, ap key e))
shifted (suc (suc zero)) h = λ e. absurd (omega (arith, ap key e))
shifted (suc (suc (suc zero))) h = λ e. absurd (omega (arith, ap key e))
shifted (suc (suc (suc (suc zero)))) h = λ e. absurd (omega (arith, ap key e))
shifted (suc (suc (suc (suc (suc zero))))) h = λ e. absurd (omega (arith, ap key e))
shifted (suc (suc (suc (suc (suc (suc zero)))))) h = λ e. absurd (omega (arith, ap key e))
shifted (suc (suc (suc (suc (suc (suc (suc r))))))) h = absurd (omega arith)

-- At no time from the epoch on does the weekday that is looked up in `day_names` name the weekday of the date.
pub weekday_wrong :
    (ts : ℕ) → get_or day_names (break_down (pos ts)).dow [] ≢ weekday_name (ts / 86400)
unfolding break_down
weekday_wrong ts =
    let same : (ts / 86400 + 4) % 7 ≡ (ts / 86400 % 7 + 4) % 7 = omega arith in
    rw same (shifted (ts / 86400 % 7) (omega arith))
