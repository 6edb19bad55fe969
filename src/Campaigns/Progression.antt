-- ===== src/Campaigns/Progression.antt =====
-- backend/app/modules/campaigns/progression.py: the next email of a sequence. Positions and waits are
-- numbers, instants those of Campaigns/Scheduling; `ProgressionRepository`, with the suppression test
-- and the renderer, is an argument of `advance_batch`, and so is the context of the campaign: its zone,
-- the settings of its sending windows and the steps of its sequence.
pub mod Sorted
pub mod Next
pub mod Finished
pub mod Outcome
pub mod Summary
pub mod Run
mod Tests
use email_outreach_platform.Base.{
  ℕ, ◌+◌, ◌*◌, Bool, true, false, ◌&&◌, Option, none, some, List, [], ◌∷◌, leb, ◌==◌, if◌then◌else◌,
  length, is_some, get_or, Text, is_present, second,
}
use email_outreach_platform.Campaigns.Scheduling.{
  Zone, WindowSettings, project_into_window, default_max_days,
}

pub data StepKind : Type 0 where
  email wait : StepKind

pub record Step : Type 0 where
  pub id : ℕ
  pub position : ℕ
  pub kind : StepKind
  pub wait_duration_minutes : Option ℕ

pub record NextEmailPlan : Type 0 where
  pub next : Step
  pub wait_minutes : ℕ

unfoldable pub is_wait : StepKind → Bool
is_wait wait = true
is_wait email = false

-- `sorted(steps, key=lambda s: s["position"])`, which is stable.
unfoldable pub insert_step : Step → List Step → List Step
insert_step s [] = s ∷ []
insert_step s (t ∷ steps) =
    let rest = insert_step s steps in if leb s.position t.position then s ∷ t ∷ steps else t ∷ rest

unfoldable pub sort_steps : List Step → List Step
unfolding insert_step
sort_steps [] = []
sort_steps (s ∷ steps) = insert_step s (sort_steps steps)

-- The loop of `plan_next_email`, with the waits so far.
unfoldable pub next_from : ℕ → ℕ → List Step → Option NextEmailPlan
unfolding is_wait
next_from current waits [] = none
next_from current waits (s ∷ steps) =
    let skipped = next_from current waits steps in
    let waited = next_from current (waits + get_or 0 s.wait_duration_minutes) steps in
    if leb s.position current
    then skipped
    else if is_wait s.kind
    then waited
    else some (record { next = s; wait_minutes = waits })

unfoldable pub plan_next_email : List Step → ℕ → Option NextEmailPlan
unfolding sort_steps next_from
plan_next_email steps current = next_from current 0 (sort_steps steps)

-- `none` is the AppError of a campaign without a sending window.
unfoldable pub compute_due_at : Zone → WindowSettings → ℕ → ℕ → Option ℕ
compute_due_at zone settings accepted_at wait_minutes =
    project_into_window zone settings (accepted_at + wait_minutes * 60 * second) default_max_days

-- A row of `fetch_progressable_enrollments`.
pub record Progressable : Type 0 where
  pub enrollment_id : ℕ
  pub next_step_id : ℕ
  pub is_failed : Bool
  pub accepted_at : ℕ
  pub address_id : ℕ
  pub assigned_mailbox_id : Option ℕ
  pub sender_address : Option Text

pub data SkipReason : Type 0 where
  unknown_current_step concurrent_change suppressed no_sender no_sending_window : SkipReason

pub record ProgressionSummary : Type 0 where
  pub fetched : ℕ
  pub advanced : ℕ
  pub completed : ℕ
  pub failed : ℕ
  pub skipped : ℕ
  pub last_enrollment_id : Option ℕ
  pub reasons : List SkipReason

-- What happens to one row.
pub data RowResult : Type 0 where
  was_advanced was_completed was_failed : RowResult
  was_skipped : SkipReason → RowResult

unfoldable pub count_row : RowResult → ProgressionSummary → ProgressionSummary
count_row was_advanced s = record s { advanced = s.advanced + 1 }
count_row was_completed s = record s { completed = s.completed + 1 }
count_row was_failed s = record s { failed = s.failed + 1 }
count_row (was_skipped reason) s = record s {
  skipped = s.skipped + 1;
  reasons = reason ∷ s.reasons;
}

unfoldable pub find_step : ℕ → List Step → Option Step
find_step id [] = none
find_step id (s ∷ steps) = let rest = find_step id steps in if s.id == id then some s else rest

last_id : List Progressable → Option ℕ
last_id [] = none
last_id (r ∷ []) = some r.enrollment_id
last_id (r ∷ s ∷ rows) = last_id (s ∷ rows)

-- The methods of the repository, over the state `S` of the tables. `insert_followup` is
-- `insert_followup_message` with what follows it when it gives an id: `render_message`, or
-- `mark_generation_pending` for a hyper-personalized campaign.
pub record ProgressionRepository (S : Type 0) : Type 0 where
  pub fail_enrollment : ℕ → ℕ → S → Bool × S
  pub complete_enrollment : ℕ → ℕ → ℕ → S → Bool × S
  pub advance_enrollment : ℕ → ℕ → Step → ℕ → S → Bool × S
  pub insert_followup : Progressable → Step → ℕ → S → S
  pub is_suppressed : ℕ → S → Bool

module _ {S : Type 0} (repo : ProgressionRepository S) (zone : Zone) (settings : WindowSettings)
    (steps : List Step) where
  unfoldable pub reply_row : RowResult → Bool × S → RowResult × S
  reply_row result (true, s) = (result, s)
  reply_row result (false, s) = (was_skipped concurrent_change, s)

  unfoldable pub with_due : Progressable → Step → NextEmailPlan → Option ℕ → S → RowResult × S
  unfolding reply_row
  with_due r current plan none s = (was_skipped no_sending_window, s)
  with_due r current plan (some due) s = reply_row was_advanced (
      repo.advance_enrollment r.enrollment_id current.id plan.next r.accepted_at
        (repo.insert_followup r plan.next due s))

  unfoldable pub with_plan : Progressable → Step → Option NextEmailPlan → S → RowResult × S
  unfolding with_due reply_row is_present
  with_plan r current none s =
      reply_row was_completed (repo.complete_enrollment r.enrollment_id current.id r.accepted_at s)
  with_plan r current (some plan) s =
      if repo.is_suppressed r.address_id s
      then (was_skipped suppressed, s)
      else if is_some r.assigned_mailbox_id && is_present r.sender_address
      then with_due r current plan (compute_due_at zone settings r.accepted_at plan.wait_minutes) s
      else (was_skipped no_sender, s)

  unfoldable pub with_current : Progressable → Option Step → S → RowResult × S
  unfolding with_plan reply_row
  with_current r none s = (was_skipped unknown_current_step, s)
  with_current r (some current) s =
      if r.is_failed
      then reply_row was_failed (repo.fail_enrollment r.enrollment_id current.id s)
      else with_plan r current (plan_next_email steps current.position) s

  -- The body of the loop.
  unfoldable pub advance_row : Progressable → S → RowResult × S
  unfolding with_current find_step
  advance_row r s = with_current r (find_step r.next_step_id steps) s

  unfoldable pub advance_each : List Progressable → ProgressionSummary → S → ProgressionSummary × S
  unfolding advance_row count_row
  advance_each [] summary s = (summary, s)
  advance_each (r ∷ rows) summary s =
      let one = advance_row r s in advance_each rows (count_row one.0 summary) one.1

  -- `advance_batch` on the rows that were fetched.
  unfoldable pub advance_batch : List Progressable → S → ProgressionSummary × S
  unfolding advance_each last_id
  advance_batch rows s =
      advance_each rows
        (record {
          fetched = length rows;
          advanced = 0;
          completed = 0;
          failed = 0;
          skipped = 0;
          last_enrollment_id = last_id rows;
          reasons = [];
        })
        s
