-- ===== src/Campaigns/Scheduling/Calendar.antt =====
-- `WindowCalendar` of backend/app/modules/campaigns/scheduling.py: the windows from the start of a
-- campaign on, found as they are asked for. An AppError is `none`.
use email_outreach_platform.Base.{
  ℕ, zero, suc, ◌+◌, ◌-◌, min, max, Bool, true, false, ◌||◌, Option, none, some, List, [], ◌∷◌,
  ◌++◌, leb, if◌then◌else◌, length,
}
use email_outreach_platform.Campaigns.Scheduling.{
  calendar_horizon_days, WindowSettings, is_allowed_day, Zone, window_start, window_end,
}

pub record Calendar : Type 0 where
  pub next_date : ℕ
  pub last_date : ℕ
  pub windows : List (ℕ × ℕ)

-- `__init__`
unfoldable pub new_calendar : Zone → ℕ → Calendar
new_calendar zone lower = record {
  next_date = zone.local_day lower;
  last_date = zone.local_day lower + calendar_horizon_days;
  windows = [];
}

-- What one day does to the calendar: an error, nothing, or one more window.
unfoldable pub day_window : ℕ → Option ℕ → Option ℕ → Option (Option (ℕ × ℕ))
day_window lower none _ = none
day_window lower (some start) none = none
day_window lower (some start) (some end) =
    if leb end start || leb end lower then some none else some (some (max start lower, end))

unfoldable pub window_of_day : Zone → WindowSettings → ℕ → ℕ → Option (Option (ℕ × ℕ))
unfolding day_window
window_of_day zone s lower d =
    if is_allowed_day s.weekday_set d
    then day_window lower (window_start zone s d) (window_end zone s d)
    else some none

unfoldable pub after_window :
    Calendar → Option (Option (ℕ × ℕ)) → Option (Bool × Calendar) → Option (Bool × Calendar)
after_window cal none rest = none
after_window cal (some none) rest = rest
after_window cal (some (some w)) rest =
    some (true, record cal { next_date = cal.next_date + 1; windows = cal.windows ++ (w ∷ []) })

-- The loop of `_find_next`; the days left up to the horizon are its fuel.
unfoldable pub find_from : Zone → WindowSettings → ℕ → ℕ → Calendar → Option (Bool × Calendar)
unfolding after_window
find_from zone s lower zero cal = some (false, cal)
find_from zone s lower (suc k) cal =
    after_window cal (window_of_day zone s lower cal.next_date)
      (find_from zone s lower k (record cal { next_date = cal.next_date + 1 }))

unfoldable pub find_next : Zone → WindowSettings → ℕ → Calendar → Option (Bool × Calendar)
find_next zone s lower cal = find_from zone s lower (cal.last_date + 1 - cal.next_date) cal

-- The loop of `window`: each round that goes on adds a window, so `index + 1` rounds are enough.
unfoldable pub after_find :
    Option (Bool × Calendar) → (Calendar → Option Calendar) → Option Calendar
after_find none again = none
after_find (some (false, cal)) again = some cal
after_find (some (true, cal)) again = again cal

unfoldable pub fill : Zone → WindowSettings → ℕ → ℕ → ℕ → Calendar → Option Calendar
unfolding after_find
fill zone s lower index zero cal = some cal
fill zone s lower index (suc k) cal =
    let on = after_find (find_next zone s lower cal) (fill zone s lower index k) in
    if leb (length cal.windows) index then on else some cal

unfoldable pub nth : List (ℕ × ℕ) → ℕ → Option (ℕ × ℕ)
nth [] i = none
nth (w ∷ ws) zero = some w
nth (w ∷ ws) (suc i) = nth ws i

unfoldable pub pick_from : Calendar → Option (ℕ × ℕ) → Option ((ℕ × ℕ) × Calendar)
pick_from cal none = none
pick_from cal (some w) = some (w, cal)

unfoldable pub pick : ℕ → Option Calendar → Option ((ℕ × ℕ) × Calendar)
pick index none = none
pick index (some cal) = pick_from cal (nth cal.windows (min index (length cal.windows - 1)))

-- The window of this index and the calendar as it is left; past the horizon, the last one found.
unfoldable pub window : Zone → WindowSettings → ℕ → ℕ → Calendar → Option ((ℕ × ℕ) × Calendar)
unfolding pick
window zone s lower index cal = pick index (fill zone s lower index (index + 1) cal)
