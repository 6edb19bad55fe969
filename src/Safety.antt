-- ===== src/Safety.antt =====
-- backend/app/modules/safety/thresholds.py and evaluator.py: a mailbox whose bounce rate has become
-- critical is held. Rates are in hundredths of a percent; `rate_percent`, a float division rounded to
-- two decimals, is an argument.
pub mod Counted
pub mod Evaluated
mod Tests
use email_outreach_platform.Base.{
  ℕ, ◌+◌, ◌-◌, ◌*◌, ◌/◌, max, Bool, true, false, not, ◌&&◌, Option, none, some, List, [], ◌∷◌, ltb,
  leb, ◌==◌, if◌then◌else◌, is_some, second, Text, first_where,
}

pub data Level : Type 0 where
  critical warning : Level

-- BOUNCE_WARNING_PERCENT, BOUNCE_CRITICAL_PERCENT and BOUNCE_MIN_SENDS
abbrev pub bounce_warning : ℕ
bounce_warning = 200

abbrev pub bounce_critical : ℕ
bounce_critical = 500

abbrev pub bounce_min_sends : ℕ
bounce_min_sends = 20

unfoldable pub bounce_level : ℕ → ℕ → Option Level
bounce_level rate sent =
    if ltb sent bounce_min_sends
    then none
    else if ltb bounce_critical rate
    then some critical
    else if ltb bounce_warning rate
    then some warning
    else none

-- `complaints_critical`, with COMPLAINT_CRITICAL_PERCENT and COMPLAINT_MIN_SENDS.
unfoldable pub complaints_critical : ℕ → ℕ → Bool
complaints_critical rate sent = leb 50 sent && ltb 10 rate

-- A sent message with the number of its BOUNCED events.
pub record SentMessage : Type 0 where
  pub workspace_id : ℕ
  pub mailbox_id : ℕ
  pub accepted_at : ℕ
  pub bounced_events : ℕ

-- `source_work_identity`: the text of `auto_bounce_identity`, or another one.
pub data HoldIdentity : Type 0 where
  auto_bounce : ℕ → ℕ → HoldIdentity
  other_source : Text → HoldIdentity

pub record SafetyHold : Type 0 where
  pub workspace_id : ℕ
  pub identity : HoldIdentity
  pub target_mailbox_id : Option ℕ
  pub is_active : Bool

pub record SafetyTables : Type 0 where
  pub sent : List SentMessage
  pub holds : List SafetyHold

pub record SafetyEvaluation : Type 0 where
  pub sent : ℕ
  pub bounced : ℕ
  pub bounce_rate : ℕ
  pub level : Option Level
  pub held : Bool

-- EVALUATION_WINDOW
abbrev pub evaluation_window : ℕ
evaluation_window = 7 * 86400 * second

-- `_counts`: the join has a row for each BOUNCED event, and one where there is none.
unfoldable pub count_bounces : ℕ → ℕ → ℕ → List SentMessage → ℕ × ℕ
count_bounces ws mid since [] = (0, 0)
count_bounces ws mid since (m ∷ rows) =
    let (sent, bounced) = count_bounces ws mid since rows in
    if m.workspace_id == ws && m.mailbox_id == mid && leb since m.accepted_at
    then (sent + max 1 m.bounced_events, bounced + m.bounced_events)
    else (sent, bounced)

unfoldable pub targets : ℕ → Option ℕ → Bool
targets mid none = false
targets mid (some target) = target == mid

unfoldable pub is_auto : ℕ → HoldIdentity → Bool
is_auto mid (auto_bounce id day) = id == mid
is_auto mid (other_source t) = false

-- `_already_held`
unfoldable pub is_held_already : ℕ → ℕ → SafetyHold → Bool
unfolding targets is_auto
is_held_already ws mid h =
    h.workspace_id == ws && targets mid h.target_mailbox_id && h.is_active && is_auto mid h.identity

unfoldable pub same_identity : ℕ → ℕ → HoldIdentity → Bool
same_identity mid day (auto_bounce id d) = id == mid && d == day
same_identity mid day (other_source t) = false

-- The unique key on the workspace and the identity.
unfoldable pub has_identity : ℕ → ℕ → ℕ → SafetyHold → Bool
unfolding same_identity
has_identity ws mid day h = h.workspace_id == ws && same_identity mid day h.identity

unfoldable pub new_hold : ℕ → ℕ → ℕ → SafetyHold
new_hold ws mid day = record {
  workspace_id = ws;
  identity = auto_bounce mid day;
  target_mailbox_id = some mid;
  is_active = true;
}

-- `insert_safety_hold` with the identity of `auto_bounce_identity`.
unfoldable pub insert_auto_hold : ℕ → ℕ → ℕ → List SafetyHold → Bool × List SafetyHold
unfolding has_identity new_hold
insert_auto_hold ws mid day holds =
    if is_some (first_where (has_identity ws mid day) holds)
    then (false, holds)
    else (true, new_hold ws mid day ∷ holds)

unfoldable pub is_critical : Option Level → Bool
is_critical (some critical) = true
is_critical _ = false

-- The UTC day of an instant.
abbrev pub utc_day : ℕ → ℕ
utc_day now = now / (86400 * second)

module _ (rate_percent : ℕ → ℕ → ℕ) where
  unfoldable pub evaluate : SafetyTables → ℕ → ℕ → ℕ → SafetyEvaluation × SafetyTables
  unfolding is_held_already insert_auto_hold is_critical
  evaluate t ws mid now =
      let counts = count_bounces ws mid (now - evaluation_window) t.sent in
      let rate = rate_percent counts.1 counts.0 in
      let level = bounce_level rate counts.0 in
      let inserted = insert_auto_hold ws mid (utc_day now) t.holds in
      let places =
        is_critical level && not (is_some (first_where (is_held_already ws mid) t.holds)) in
      (
        record {
          sent = counts.0;
          bounced = counts.1;
          bounce_rate = rate;
          level = level;
          held = places && inserted.0;
        },
        if places then record t { holds = inserted.1 } else t,
      )
