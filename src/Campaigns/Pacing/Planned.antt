-- ===== src/Campaigns/Pacing/Planned.antt =====
-- The times that the planner gives the first emails of a campaign.
use email_outreach_platform.Base.{
  ℕ, suc, ◌+◌, ◌-◌, ◌*◌, ◌/◌, ◌%◌, ◌≤◌, ◌<◌, max, ◌≡◌, refl, Option, none, some, arith, length,
  second,
}
use email_outreach_platform.Campaigns.Scheduling.{WindowSettings, Zone, project_into_window}
use email_outreach_platform.Campaigns.Scheduling.Calendar.{Calendar, new_calendar, window}
use email_outreach_platform.Campaigns.Scheduling.Projection.{InWindow}
use email_outreach_platform.Campaigns.Scheduling.Windows.{IsWindow, window-IsWindow, window-kept}
use email_outreach_platform.Campaigns.Pacing.{
  fraction_range, jitter_cap, jitter, slot_length, due_in_window, due_from, planned_due_at,
}

due_in_window-Within :
    (w : ℕ × ℕ) (position per_day min_spacing digest : ℕ)
    → w.0 + second ≤ w.1
    → (w.0 ≤ due_in_window w position per_day min_spacing digest)
      × (due_in_window w position per_day min_spacing digest < w.1)
unfolding due_in_window
due_in_window-Within w position per_day min_spacing digest h = (omega arith, omega arith)

due_from-cases :
    (r : Option ((ℕ × ℕ) × Calendar)) (position per_day min_spacing digest due : ℕ)
    (after : Calendar)
    → due_from r position per_day min_spacing digest ≡ some (due, after)
    → (w : ℕ × ℕ) × (c : Calendar) × (r ≡ some (w, c))
      × (due ≡ due_in_window w position per_day min_spacing digest)
unfolding due_from
due_from-cases none position per_day min_spacing digest due after h = absurd (cc)
due_from-cases (some (w, c)) position per_day min_spacing digest due after h =
    (w, c, refl, ground arith)

-- The due time planned on a new calendar is not before the campaign's start, and is one that
-- `project_into_window` gives back unchanged, when the zone puts the instants of a day's window on
-- that day and what is left of a window at the start is at least a second long.
pub planned-kept :
    (zone : Zone) (s : WindowSettings) (lower position per_day min_spacing digest due days : ℕ)
    (after : Calendar)
    → ((d u : ℕ) → InWindow zone s d u → zone.local_day u ≡ d)
    → ((w : ℕ × ℕ) → IsWindow zone s lower w → w.0 + second ≤ w.1)
    → planned_due_at zone s lower (new_calendar zone lower) position per_day min_spacing digest
      ≡ some (due, after)
    → (lower ≤ due) × (project_into_window zone s due (suc days) ≡ some due)
unfolding planned_due_at new_calendar
planned-kept zone s lower position per_day min_spacing digest due days after on_day long h =
    let (w, c, opened, e) =
      due_from-cases (window zone s lower (position / max 1 per_day) (new_calendar zone lower))
        position per_day (min_spacing * second) digest due after h in
    let held =
      (window-IsWindow zone s lower (position / max 1 per_day) (new_calendar zone lower) w c tt
        opened).0 in
    let (from, before) =
      due_in_window-Within w position per_day (min_spacing * second) digest (long w held) in
    let (ahead, proper, kept) =
      window-kept zone s lower (position / max 1 per_day) w c due days on_day opened (rw e from)
        (rw e before) in
    (omega (arith, e), kept)

product_small : (d m : ℕ) → d ≤ fraction_range → d * m ≤ fraction_range * m
product_small d m h = grind arith

slots_apart : (k l slot : ℕ) → k < l → k * slot + slot ≤ l * slot
slots_apart k l slot h = grind arith

slot_length_bound :
    (length per_day min_spacing : ℕ) → min_spacing ≤ slot_length length per_day min_spacing
unfolding slot_length
slot_length_bound length per_day min_spacing = omega arith

jitter_small :
    (digest slot min_spacing : ℕ)
    → digest ≤ fraction_range
    → jitter digest slot min_spacing ≤ slot - min_spacing
unfolding jitter jitter_cap
jitter_small digest slot min_spacing h =
    omega (arith, product_small digest (jitter_cap slot min_spacing) h)

-- Two messages of one mailbox in the same window are at least the mailbox's spacing apart, when the
-- window is long enough for the slot of the later one and a second more.
pub due_in_window-spaced :
    (start end p q per_day min_spacing d e : ℕ)
    → d ≤ fraction_range
    → p % max 1 per_day < q % max 1 per_day
    → q % max 1 per_day * slot_length (end - start) per_day min_spacing + second ≤ end - start
    → due_in_window (start, end) p per_day min_spacing d + min_spacing
      ≤ due_in_window (start, end) q per_day min_spacing e
unfolding due_in_window
due_in_window-spaced start end p q per_day min_spacing d e small before room = omega (
  arith,
  slots_apart (p % max 1 per_day) (q % max 1 per_day)
      (slot_length (end - start) per_day min_spacing) before,
  slot_length_bound (end - start) per_day min_spacing,
  jitter_small d (slot_length (end - start) per_day min_spacing) min_spacing small,
)
