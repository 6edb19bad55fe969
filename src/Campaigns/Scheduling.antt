-- ===== src/Campaigns/Scheduling.antt =====
-- backend/app/modules/campaigns/scheduling.py. Instants are microseconds since the start of day 0 of
-- the proleptic calendar (`date.toordinal`), in UTC or on the local clock. The time zone database is
-- an argument: `utc_of fold t` is the UTC instant of the local time `t` with that fold, and
-- `local_day t` the local date of an instant. Times of day are microseconds since midnight.
pub mod Projection
pub mod Earliest
pub mod Calendar
pub mod Windows
use email_outreach_platform.Base.{
  ℕ, zero, suc, ◌+◌, ◌*◌, ◌/◌, ◌%◌, ◌^◌, Bool, true, false, ◌&&◌, Option, none, some, ltb, leb,
  ◌==◌, if◌then◌else◌, second,
}

abbrev pub minute : ℕ
minute = 60 * second

abbrev pub day : ℕ
day = 24 * 3600 * second

abbrev pub max_gap_scan_minutes : ℕ
max_gap_scan_minutes = 1440

abbrev pub default_max_days : ℕ
default_max_days = 400

abbrev pub calendar_horizon_days : ℕ
calendar_horizon_days = 3650

-- The settings of a campaign's sending windows.
pub record WindowSettings : Type 0 where
  pub weekday_set : ℕ
  pub window_start_local : ℕ
  pub window_end_local : ℕ

-- `date.weekday` of the day with this ordinal: 0 is Monday.
abbrev pub weekday : ℕ → ℕ
weekday d = (d + 6) % 7

-- Is bit `weekday` of the set on?
unfoldable pub is_allowed_day : ℕ → ℕ → Bool
is_allowed_day weekday_set d = weekday_set / 2 ^ weekday d % 2 == 1

-- The zone of a campaign, by what `zoneinfo` answers.
pub record Zone : Type 0 where
  pub utc_of : Bool → ℕ → ℕ
  pub local_day : ℕ → ℕ

-- The scan past a gap, a minute at a time, until the two folds agree again.
unfoldable pub scan_gap : Zone → ℕ → ℕ → Option ℕ
scan_gap zone zero probe = none
scan_gap zone (suc k) probe =
    let rest = scan_gap zone k (probe + minute) in
    if zone.utc_of false (probe + minute) == zone.utc_of true (probe + minute)
    then some (zone.utc_of false (probe + minute))
    else rest

-- The offsets of the folds compare the other way round than the instants. `none` is the AppError.
unfoldable pub resolve_local_to_utc : Zone → ℕ → Bool → Option ℕ
resolve_local_to_utc zone naive prefer_later =
    if zone.utc_of false naive == zone.utc_of true naive
    then some (zone.utc_of false naive)
    else if ltb (zone.utc_of true naive) (zone.utc_of false naive)
    then scan_gap zone max_gap_scan_minutes naive
    else some (zone.utc_of prefer_later naive)

-- The start and the end of a day's window, in UTC.
unfoldable pub window_start : Zone → WindowSettings → ℕ → Option ℕ
window_start zone s d = resolve_local_to_utc zone (d * day + s.window_start_local) true

unfoldable pub window_end : Zone → WindowSettings → ℕ → Option ℕ
window_end zone s d = resolve_local_to_utc zone (d * day + s.window_end_local) false

-- What one day of the search does.
pub data DayResult : Type 0 where
  failed next_day : DayResult
  at : ℕ → DayResult

unfoldable pub project_in : ℕ → Option ℕ → Option ℕ → DayResult
project_in lower none _ = failed
project_in lower (some start) none = failed
project_in lower (some start) (some end) =
    if ltb start end
    then if leb start lower && ltb lower end
      then at lower
      else if ltb lower start
      then at start
      else next_day
    else next_day

unfoldable pub project_day : Zone → WindowSettings → ℕ → ℕ → DayResult
unfolding project_in
project_day zone s lower d =
    if is_allowed_day s.weekday_set d
    then project_in lower (window_start zone s d) (window_end zone s d)
    else next_day

after_day : DayResult → Option ℕ → Option ℕ
after_day failed rest = none
after_day next_day rest = rest
after_day (at t) rest = some t

unfoldable pub project_from : Zone → WindowSettings → ℕ → ℕ → ℕ → Option ℕ
unfolding after_day
project_from zone s lower zero d = none
project_from zone s lower (suc k) d =
    after_day (project_day zone s lower d) (project_from zone s lower k (d + 1))

unfoldable pub project_into_window : Zone → WindowSettings → ℕ → ℕ → Option ℕ
project_into_window zone s lower max_days =
    project_from zone s lower max_days (zone.local_day lower)
