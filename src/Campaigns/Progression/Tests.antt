-- ===== src/Campaigns/Progression/Tests.antt =====
-- A sequence of two emails with two waits between them.
use email_outreach_platform.Base.{
  ℕ, ◌+◌, ◌*◌, ◌/◌, ◌≡◌, refl, ◌↔◌, true, false, Option, none, some, List, [], ◌∷◌, arith, length,
  second, All, codes,
}
use email_outreach_platform.Campaigns.Scheduling.{
  Zone, WindowSettings, day, project_into_window, project_from, project_day, is_allowed_day,
  window_start, window_end, resolve_local_to_utc,
}
use email_outreach_platform.Campaigns.Progression.{
  StepKind, email, wait, Step, NextEmailPlan, is_wait, plan_next_email, Progressable,
  ProgressionRepository, compute_due_at, RowResult, advance_batch,
}
use email_outreach_platform.Campaigns.Progression.Next.{NoTie, IsNext, plan_next_email-IsNext}
use email_outreach_platform.Campaigns.Progression.Finished.{NotAhead, finished_iff}
use email_outreach_platform.Campaigns.Progression.Run.{Tallies, no_counts, Run, advance_batch-Run}

abbrev step : ℕ → StepKind → Option ℕ → Step
step position kind minutes = record {
  id = 100 + position;
  position = position;
  kind = kind;
  wait_duration_minutes = minutes;
}

-- As the database may give them.
abbrev sample_steps : List Step
sample_steps =
    step 4 email none ∷ step 2 wait (some 60) ∷ step 1 email none ∷ step 3 wait (some 30) ∷ []

abbrev sample_plan : NextEmailPlan
sample_plan = record { next = step 4 email none; wait_minutes = 90 }

sample_next : plan_next_email sample_steps 1 ≡ some sample_plan
unfolding plan_next_email
sample_next = refl

no_tie : All (NoTie 4) sample_steps
unfolding is_wait
no_tie =
    (λ e. absurd (cc), (λ e q. omega (arith, q), (λ e. absurd (cc), (λ e q. omega (arith, q), tt))))

plan_next_email-IsNext_example : IsNext sample_steps 1 sample_plan
plan_next_email-IsNext_example =
    plan_next_email-IsNext sample_steps 1 sample_plan sample_next no_tie

finished_iff_example : (plan_next_email sample_steps 4 ≡ none) ↔ All (NotAhead 4) sample_steps
finished_iff_example = finished_iff sample_steps 4

abbrev utc : Zone
utc = record { utc_of = λ fold t. t; local_day = λ t. t / day }

-- From Monday to Friday, 9:00 to 17:00.
abbrev office_hours : WindowSettings
office_hours = record {
  weekday_set = 31;
  window_start_local = 9 * 3600 * second;
  window_end_local = 17 * 3600 * second;
}

-- 90 minutes after 8:00 on a Monday, and after 16:00: the next day at 9:00.
sample_due_same_day :
    compute_due_at utc office_hours (day + 8 * 3600 * second) 90 ≡ some (day + 34200 * second)
unfolding compute_due_at project_into_window project_from project_day is_allowed_day window_start
    window_end resolve_local_to_utc
sample_due_same_day = refl

sample_due_next_day :
    compute_due_at utc office_hours (day + 16 * 3600 * second) 90
    ≡ some (2 * day + 9 * 3600 * second)
unfolding compute_due_at project_into_window project_from project_day is_allowed_day window_start
    window_end resolve_local_to_utc
sample_due_next_day = refl

-- A repository whose state counts the enrollments that have moved on.
abbrev counting : ProgressionRepository ℕ
counting = record {
  fail_enrollment = λ e s n. (true, n);
  complete_enrollment = λ e s a n. (true, n);
  advance_enrollment = λ e s t a n. (true, n + 1);
  insert_followup = λ r t due n. n;
  is_suppressed = λ a n. false;
}

abbrev at_step : ℕ → ℕ → Progressable
at_step id current = record {
  enrollment_id = id;
  next_step_id = current;
  is_failed = false;
  accepted_at = 0;
  address_id = 40;
  assigned_mailbox_id = some 30;
  sender_address = some (codes "bob@example.com");
}

abbrev sample_rows : List Progressable
sample_rows = at_step 1 101 ∷ at_step 2 104 ∷ at_step 3 999 ∷ []

sample_batch : (advance_batch counting utc office_hours sample_steps sample_rows 0).1 ≡ 1
unfolding advance_batch plan_next_email compute_due_at project_into_window project_from project_day
    is_allowed_day window_start window_end resolve_local_to_utc
sample_batch = refl

advance_batch-Run_example :
    (results : List RowResult) × Run counting utc office_hours sample_steps sample_rows 0 results
      (advance_batch counting utc office_hours sample_steps sample_rows 0).1
    × Tallies no_counts results
        (advance_batch counting utc office_hours sample_steps sample_rows 0).0
    × ((advance_batch counting utc office_hours sample_steps sample_rows 0).0.advanced
          + (advance_batch counting utc office_hours sample_steps sample_rows 0).0.completed
          + (advance_batch counting utc office_hours sample_steps sample_rows 0).0.failed
          + (advance_batch counting utc office_hours sample_steps sample_rows 0).0.skipped
        ≡ 3)
    × (length (advance_batch counting utc office_hours sample_steps sample_rows 0).0.reasons
        ≡ (advance_batch counting utc office_hours sample_steps sample_rows 0).0.skipped)
advance_batch-Run_example = advance_batch-Run counting utc office_hours sample_steps sample_rows 0
