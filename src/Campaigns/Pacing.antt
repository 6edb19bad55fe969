-- ===== src/Campaigns/Pacing.antt =====
-- backend/app/modules/campaigns/pacing.py. Durations are microseconds, each float rounded down to
-- one; the digest of the jitter's key is an argument, as the number of its first 32 bits.
pub mod Planned
pub mod Shares
use email_outreach_platform.Base.{
  ℕ, zero, suc, ◌+◌, ◌-◌, ◌*◌, ◌/◌, ◌%◌, min, max, Option, none, some, List, [], ◌∷◌, leb,
  if◌then◌else◌, length, get_or, second,
}
use email_outreach_platform.Campaigns.Scheduling.{WindowSettings, Zone}
use email_outreach_platform.Campaigns.Scheduling.Calendar.{Calendar, window}

abbrev pub seconds_per_day : ℕ
seconds_per_day = 86400

-- MIN_CAP_WINDOW_SECONDS of backend/app/modules/rate_limit/policy_service.py
abbrev pub min_cap_window_seconds : ℕ
min_cap_window_seconds = 3600

abbrev pub jitter_max : ℕ
jitter_max = 15 * second

abbrev pub fraction_range : ℕ
fraction_range = 4294967295

pub record MailboxPacing : Type 0 where
  pub daily_cap : ℕ
  pub min_spacing_seconds : ℕ

-- A row of the MAILBOX policies; a spacing that is missing counts as 0.
pub record PolicyRow : Type 0 where
  pub limit_value : ℕ
  pub window_seconds : ℕ
  pub min_spacing_seconds : ℕ

unfoldable pub daily_equivalent : ℕ → ℕ → ℕ
daily_equivalent limit_value window_seconds = max 1 (limit_value * seconds_per_day / window_seconds)

-- The loop of `pacing_from_policies`: the caps' minimum, if there is one, and the largest spacing.
cap_of : PolicyRow → ℕ
cap_of row = daily_equivalent row.limit_value row.window_seconds

unfoldable pub tightest_of : PolicyRow → Option ℕ → Option ℕ
unfolding cap_of
tightest_of row none =
    if leb min_cap_window_seconds row.window_seconds then some (cap_of row) else none
tightest_of row (some cap) =
    some (if leb min_cap_window_seconds row.window_seconds then min (cap_of row) cap else cap)

unfoldable pub tightest_cap : List PolicyRow → Option ℕ
tightest_cap [] = none
tightest_cap (row ∷ rows) = tightest_of row (tightest_cap rows)

unfoldable pub largest_spacing : List PolicyRow → ℕ
largest_spacing [] = 0
largest_spacing (row ∷ rows) = max row.min_spacing_seconds (largest_spacing rows)

with_cap : Option ℕ → ℕ → MailboxPacing → MailboxPacing
with_cap none spacing default = record {
  daily_cap = default.daily_cap;
  min_spacing_seconds = max spacing default.min_spacing_seconds;
}
with_cap (some cap) spacing default = record { daily_cap = cap; min_spacing_seconds = spacing }

unfoldable pub pacing_from_policies : List PolicyRow → MailboxPacing → MailboxPacing
unfolding with_cap
pacing_from_policies rows default = with_cap (tightest_cap rows) (largest_spacing rows) default

-- -(-a // b), for a positive `b`
abbrev pub ceil_div : ℕ → ℕ → ℕ
ceil_div a b = (a + (b - 1)) / b

-- A campaign limit of 0 or none leaves the mailbox's own cap.
unfoldable pub per_mailbox_daily : ℕ → Option ℕ → ℕ → ℕ
per_mailbox_daily mailbox_cap none mailbox_count = max 1 mailbox_cap
per_mailbox_daily mailbox_cap (some zero) mailbox_count = max 1 mailbox_cap
per_mailbox_daily mailbox_cap (some (suc limit)) mailbox_count =
    max 1 (min (max 1 mailbox_cap) (ceil_div (suc limit) (max 1 mailbox_count)))

-- `assign_mailbox_for_recipient` of campaigns/mailbox_assignment.py: the index in the list of the
-- campaign's mailboxes, which is not empty.
unfoldable pub assigned : ℕ → ℕ → ℕ
assigned recipient_ordinal mailbox_count = (recipient_ordinal - 1) % mailbox_count

unfoldable pub queue_position : ℕ → ℕ → ℕ
queue_position capture_ordinal mailbox_count = (capture_ordinal - 1) / max 1 mailbox_count

-- The slot is never shorter than the spacing, so the difference is at least 0.
unfoldable pub jitter_cap : ℕ → ℕ → ℕ
jitter_cap slot min_spacing = min (min (slot / 5) jitter_max) (slot - min_spacing)

unfoldable pub jitter : ℕ → ℕ → ℕ → ℕ
jitter digest slot min_spacing = digest * jitter_cap slot min_spacing / fraction_range

-- The length of a slot in a window.
unfoldable pub slot_length : ℕ → ℕ → ℕ → ℕ
slot_length length per_day min_spacing = max min_spacing (length / max 1 per_day)

-- The due time in a window, whose end is more than a second after the epoch.
unfoldable pub due_in_window : ℕ × ℕ → ℕ → ℕ → ℕ → ℕ → ℕ
due_in_window (start, end) position per_day min_spacing digest =
    let slot = slot_length (end - start) per_day min_spacing in
    let offset = min (position % max 1 per_day * slot) (end - start - second) in
    min (start + (offset + jitter digest slot min_spacing)) (end - second)

unfoldable pub due_from : Option ((ℕ × ℕ) × Calendar) → ℕ → ℕ → ℕ → ℕ → Option (ℕ × Calendar)
due_from none position per_day min_spacing digest = none
due_from (some (w, after)) position per_day min_spacing digest =
    some (due_in_window w position per_day min_spacing digest, after)

unfoldable pub planned_due_at :
    Zone → WindowSettings → ℕ → Calendar → ℕ → ℕ → ℕ → ℕ → Option (ℕ × Calendar)
unfolding due_from
planned_due_at zone s lower calendar position per_day min_spacing_seconds digest =
    due_from (window zone s lower (position / max 1 per_day) calendar) position per_day
      (min_spacing_seconds * second) digest

-- `DuePlanner`, with the digest of a message's id as an argument.
pub record DuePlanner : Type 0 where
  pub mailbox_count : ℕ
  pub daily_limit : Option ℕ
  pub pacing : ℕ → Option MailboxPacing
  pub default : MailboxPacing

unfoldable pub due_at :
    Zone → WindowSettings → ℕ → (ℕ → ℕ) → DuePlanner → Calendar → ℕ → ℕ → ℕ → Option (ℕ × Calendar)
due_at zone s lower digest_of planner calendar mailbox_id capture_ordinal message_id =
    let pacing = get_or planner.default (planner.pacing mailbox_id) in
    planned_due_at zone s lower calendar (queue_position capture_ordinal planner.mailbox_count)
      (per_mailbox_daily pacing.daily_cap planner.daily_limit planner.mailbox_count)
      pacing.min_spacing_seconds (digest_of message_id)
