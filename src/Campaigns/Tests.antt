-- ===== src/Campaigns/Tests.antt =====
-- A campaign on weekdays from nine to five in UTC, as an input for the theorems on due times.
use email_outreach_platform.Base.{
  ℕ, ◌+◌, ◌-◌, ◌*◌, ◌/◌, ◌%◌, ◌≤◌, ◌<◌, max, ◌≡◌, refl, ◌⊎◌, some, List, [], ◌∷◌, arith, second,
  All,
}
use email_outreach_platform.Campaigns.Scheduling.{
  day, default_max_days, WindowSettings, is_allowed_day, Zone, resolve_local_to_utc, window_start,
  window_end, project_in, project_day, project_from, project_into_window,
}
use email_outreach_platform.Campaigns.Scheduling.Projection.{InWindow}
use email_outreach_platform.Campaigns.Scheduling.Earliest.{
  AreOrdered, project-InWindow, project-earliest,
}
use email_outreach_platform.Campaigns.Scheduling.Calendar.{
  Calendar, new_calendar, day_window, window_of_day, after_window, find_from, find_next, after_find,
  fill, nth, pick_from, pick, window,
}
use email_outreach_platform.Campaigns.Scheduling.Windows.{IsWindow, window-kept}
use email_outreach_platform.Campaigns.Pacing.{
  PolicyRow, pacing_from_policies, per_mailbox_daily, assigned, queue_position, jitter_cap, jitter,
  slot_length, due_in_window, due_from, planned_due_at,
}
use email_outreach_platform.Campaigns.Pacing.Planned.{planned-kept, due_in_window-spaced}
use email_outreach_platform.Campaigns.Pacing.Shares.{
  per_mailbox_daily_bounds, queue_position-ordered, Keeps, pacing_from_policies-Keeps,
}

abbrev hour : ℕ
hour = 3600 * second

abbrev utc : Zone
utc = record { utc_of = λ fold t. t; local_day = λ t. t / day }

abbrev office : WindowSettings
office = record { weekday_set = 31; window_start_local = 9 * hour; window_end_local = 17 * hour }

-- A Thursday, at six in the evening and at eleven in the morning.
abbrev evening : ℕ
evening = 738000 * day + 18 * hour

abbrev morning : ℕ
morning = 738000 * day + 11 * hour

next_morning :
    project_into_window utc office evening default_max_days ≡ some (738001 * day + 9 * hour)
unfolding project_into_window project_from project_day project_in is_allowed_day window_start
    window_end resolve_local_to_utc
next_morning = refl

office_window :
    (d : ℕ)
    → (window_start utc office d ≡ some (d * day + 9 * hour))
      × (window_end utc office d ≡ some (d * day + 17 * hour))
unfolding window_start window_end resolve_local_to_utc
office_window d = (ground arith, ground arith)

office_ends :
    (d u : ℕ) → InWindow utc office d u → (d * day + 9 * hour ≤ u) × (u < d * day + 17 * hour)
office_ends d u w =
    let (a, b) = office_window d in
    (ground (arith, a, w.starts, w.from_start), ground (arith, b, w.ends, w.before_end))

office_on_day : (d u : ℕ) → InWindow utc office d u → utc.local_day u ≡ d
office_on_day d u w = omega (arith, office_ends d u w)

office_ordered : AreOrdered utc office
unfolding AreOrdered
office_ordered c d end start before e s =
    let a = office_window d in let b = office_window c in ground arith

project-InWindow_example :
    (evening ≤ 738001 * day + 9 * hour)
    × ((d : ℕ) × (utc.local_day evening ≤ d)
        × (d < utc.local_day evening + default_max_days)
        × InWindow utc office d (738001 * day + 9 * hour))
project-InWindow_example =
    project-InWindow utc office evening default_max_days (738001 * day + 9 * hour) next_morning

project-earliest_example : 738001 * day + 9 * hour ≤ 738004 * day + 10 * hour
unfolding is_allowed_day
project-earliest_example =
    project-earliest utc office evening default_max_days (738001 * day + 9 * hour) next_morning
      office_ordered 738004 (738004 * day + 10 * hour) (omega arith)
      (record {
        allowed = refl;
        start = 738004 * day + 9 * hour;
        end = 738004 * day + 17 * hour;
        starts = (office_window 738004).0;
        ends = (office_window 738004).1;
        from_start = omega arith;
        before_end = omega arith;
      })
      (omega arith)

-- The calendar when its second window has been asked for.
abbrev second_asked : Calendar
second_asked = record {
  next_date = 738002;
  last_date = 741650;
  windows =
      (738000 * day + 11 * hour, 738000 * day + 17 * hour)
      ∷ (738001 * day + 9 * hour, 738001 * day + 17 * hour)
      ∷ [];
}

second_window :
    window utc office morning 1 (new_calendar utc morning)
    ≡ some ((738001 * day + 9 * hour, 738001 * day + 17 * hour), second_asked)
unfolding window pick pick_from nth fill after_find find_next find_from after_window window_of_day
    day_window window_start window_end resolve_local_to_utc is_allowed_day new_calendar
second_window = refl

window-kept_example :
    (morning ≤ 738001 * day + 9 * hour)
    × (738001 * day + 9 * hour < 738001 * day + 17 * hour)
    × (project_into_window utc office (738001 * day + 12 * hour) 400
        ≡ some (738001 * day + 12 * hour))
window-kept_example =
    window-kept utc office morning 1 (738001 * day + 9 * hour, 738001 * day + 17 * hour)
      second_asked (738001 * day + 12 * hour) 399 office_on_day second_window (omega arith)
      (omega arith)

-- The sixth message of a mailbox that sends four a day: the second slot of the second day.
sixth_due :
    planned_due_at utc office morning (new_calendar utc morning) 5 4 90 0
    ≡ some (738001 * day + 11 * hour, second_asked)
unfolding planned_due_at due_from due_in_window slot_length jitter jitter_cap window pick pick_from
    nth fill after_find find_next find_from after_window window_of_day day_window window_start
    window_end resolve_local_to_utc is_allowed_day new_calendar
sixth_due = refl

office_long : (w : ℕ × ℕ) → IsWindow utc office morning w → w.0 + second ≤ w.1
office_long w h =
    let (a, b) = office_window h.day in
    ground (arith, a, b, h.starts, h.ends, h.clipped, h.is_open, h.is_ahead)

planned-kept_example :
    (morning ≤ 738001 * day + 11 * hour)
    × (project_into_window utc office (738001 * day + 11 * hour) 400
        ≡ some (738001 * day + 11 * hour))
planned-kept_example =
    planned-kept utc office morning 5 4 90 0 (738001 * day + 11 * hour) 399 second_asked
      office_on_day office_long sixth_due

slots_fit :
    6
        % max 1 4
        * slot_length ((738001 * day + 17 * hour) - (738001 * day + 9 * hour)) 4 (90 * second)
      + second
    ≤ (738001 * day + 17 * hour) - (738001 * day + 9 * hour)
unfolding slot_length
slots_fit = omega arith

due_in_window-spaced_example :
    due_in_window (738001 * day + 9 * hour, 738001 * day + 17 * hour) 4 4 (90 * second) 77
      + 90 * second
    ≤ due_in_window (738001 * day + 9 * hour, 738001 * day + 17 * hour) 6 4 (90 * second) 5
due_in_window-spaced_example =
    due_in_window-spaced (738001 * day + 9 * hour) (738001 * day + 17 * hour) 4 6 4 (90 * second) 77
      5 (omega arith) (omega arith) slots_fit

per_mailbox_daily_bounds_example :
    (1 ≤ per_mailbox_daily 50 (some 100) 3)
    × (per_mailbox_daily 50 (some 100) 3 ≤ 50)
    × ((per_mailbox_daily 50 (some 100) 3 ≡ 50) ⊎ (100 ≤ 3 * per_mailbox_daily 50 (some 100) 3))
    × (3 * (per_mailbox_daily 50 (some 100) 3 - 1) < 100)
per_mailbox_daily_bounds_example = per_mailbox_daily_bounds 50 100 3 (omega arith) (omega arith)

same_mailbox : assigned 4 3 ≡ assigned 7 3
unfolding assigned
same_mailbox = refl

queue_position-ordered_example : queue_position 4 3 < queue_position 7 3
queue_position-ordered_example =
    queue_position-ordered 4 7 3 (omega arith) (omega arith) (omega arith) same_mailbox

abbrev two_rows : List PolicyRow
two_rows =
    record { limit_value = 10; window_seconds = 3600; min_spacing_seconds = 60 }
    ∷ record { limit_value = 2; window_seconds = 60; min_spacing_seconds = 90 }
    ∷ []

pacing_from_policies-Keeps_example :
    All
      (Keeps (pacing_from_policies two_rows (record { daily_cap = 50; min_spacing_seconds = 30 })))
      two_rows
pacing_from_policies-Keeps_example =
    pacing_from_policies-Keeps two_rows (record { daily_cap = 50; min_spacing_seconds = 30 })
