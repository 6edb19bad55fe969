-- ===== src/Campaigns/Progression/Outcome.antt =====
-- What the loop of `advance_batch` does with one enrollment.
use mathlib.Core.List.{Memᴰ}
use mathlib.Core.List.Memᴰ.{head, tail}
use email_outreach_platform.Base.{
  ℕ, ◌≡◌, refl, sym, ◌∙◌, ◌⊎◌, inl, inr, Bool, true, false, ◌&&◌, Option, none, some, List, [], ◌∷◌,
  arith, ◌==◌, if◌then◌else◌, Bool-cases, is_some, All, Option-cases, is_present,
}
use email_outreach_platform.Campaigns.Scheduling.{Zone, WindowSettings}
use email_outreach_platform.Campaigns.Progression.{
  Step, NextEmailPlan, plan_next_email, compute_due_at, Progressable, unknown_current_step,
  concurrent_change, suppressed, no_sender, no_sending_window, RowResult, was_advanced,
  was_completed, was_failed, was_skipped, find_step, ProgressionRepository, reply_row, with_due,
  with_plan, with_current, advance_row,
}
use email_outreach_platform.Campaigns.Progression.Finished.{NotAhead, finished_iff}

find_step-none :
    (id : ℕ) (steps : List Step)
    → find_step id steps ≡ none
    → All (λ (c : Step). ¬ (c.id ≡ id)) steps
unfolding find_step
find_step-none id [] h = tt
find_step-none id (s ∷ steps) h = elim (Bool-cases (s.id == id)) [
  | inl e ↦ absurd (ground arith)
  | inr e ↦ (λ q. ground arith, find_step-none id steps (rw e at h))
]

same_some : (s c : Step) → some s ≡ some c → s ≡ c
same_some s c e = cc

find_step-some :
    (id : ℕ) (steps : List Step) (c : Step)
    → find_step id steps ≡ some c
    → Memᴰ c steps × (c.id ≡ id)
unfolding find_step
find_step-some id [] c h = absurd (cc)
find_step-some id (s ∷ steps) c h = elim (Bool-cases (s.id == id)) [
  | inl e ↦
      let same : s ≡ c = same_some s c (rw e at h) in
      (head (sym same), rw (sym same) (ground arith))
  | inr e ↦ let (there, q) = find_step-some id steps c (rw e at h) in (tail there, q)
]

sender_lem : (o : Option ℕ) (b : Bool) → (is_some o && b) ≡ false → (o ≡ none) ⊎ (b ≡ false)
sender_lem none b h = inl refl
sender_lem (some n) b h = inr h

module _ {S : Type 0} (repo : ProgressionRepository S) (zone : Zone) (settings : WindowSettings)
    (steps : List Step) where
  -- The step that the enrollment points at.
  abbrev pub IsCurrent : Progressable → Step → Type 0
  IsCurrent r c = Memᴰ c steps × (c.id ≡ r.next_step_id)

  -- A guarded write of the repository: the result, or a concurrent change where no row was hit.
  abbrev pub replied : RowResult → Bool × S → RowResult × S
  replied result reply = (if reply.0 then result else was_skipped concurrent_change, reply.1)

  -- The email sent last is accepted, and the plan for the next one.
  pub record HasNext (r : Progressable) (c : Step) (plan : NextEmailPlan) : Type 0 where
    pub current : IsCurrent r c
    pub was_sent : r.is_failed ≡ false
    pub planned : plan_next_email steps c.position ≡ some plan

  -- The ways that an enrollment may go, with what is written in each.
  pub data RowOutcome (r : Progressable) (s : S) (out : RowResult × S) : Type 0 where
    no_step :
        All (λ (c : Step). ¬ (c.id ≡ r.next_step_id)) steps
        → out ≡ (was_skipped unknown_current_step, s)
        → RowOutcome r s out
    gives_up :
        (c : Step)
        → IsCurrent r c
        → r.is_failed ≡ true
        → out ≡ replied was_failed (repo.fail_enrollment r.enrollment_id c.id s)
        → RowOutcome r s out
    ends :
        (c : Step)
        → IsCurrent r c
        → r.is_failed ≡ false
        → All (NotAhead c.position) steps
        → out
          ≡ replied was_completed (repo.complete_enrollment r.enrollment_id c.id r.accepted_at s)
        → RowOutcome r s out
    is_withheld :
        (c : Step) (plan : NextEmailPlan)
        → HasNext r c plan
        → repo.is_suppressed r.address_id s ≡ true
        → out ≡ (was_skipped suppressed, s)
        → RowOutcome r s out
    lacks_sender :
        (c : Step) (plan : NextEmailPlan)
        → HasNext r c plan
        → repo.is_suppressed r.address_id s ≡ false
        → (r.assigned_mailbox_id ≡ none) ⊎ (is_present r.sender_address ≡ false)
        → out ≡ (was_skipped no_sender, s)
        → RowOutcome r s out
    lacks_window :
        (c : Step) (plan : NextEmailPlan)
        → HasNext r c plan
        → repo.is_suppressed r.address_id s ≡ false
        → compute_due_at zone settings r.accepted_at plan.wait_minutes ≡ none
        → out ≡ (was_skipped no_sending_window, s)
        → RowOutcome r s out
    moves_on :
        (c : Step) (plan : NextEmailPlan) (due : ℕ)
        → HasNext r c plan
        → repo.is_suppressed r.address_id s ≡ false
        → is_some r.assigned_mailbox_id ≡ true
        → is_present r.sender_address ≡ true
        → compute_due_at zone settings r.accepted_at plan.wait_minutes ≡ some due
        → out
          ≡ replied was_advanced (
              repo.advance_enrollment r.enrollment_id c.id plan.next r.accepted_at
                (repo.insert_followup r plan.next due s))
        → RowOutcome r s out

  reply_lem :
      (result : RowResult) (reply : Bool × S)
      → reply_row repo zone settings steps result reply ≡ replied result reply
  unfolding reply_row
  reply_lem result (true, s) = refl
  reply_lem result (false, s) = refl

  with_plan-Outcome :
      (r : Progressable) (c : Step) (plan : NextEmailPlan) (s : S)
      → HasNext r c plan
      → RowOutcome r s (with_plan repo zone settings steps r c (some plan) s)
  unfolding with_plan with_due
  with_plan-Outcome r c plan s next = elim (Bool-cases (repo.is_suppressed r.address_id s)) [
    | inl e ↦ rw e (is_withheld c plan next e refl)
    | inr e ↦ elim (Bool-cases (is_some r.assigned_mailbox_id && is_present r.sender_address)) [
      | inr q ↦ rw (e, q) (lacks_sender c plan next e (sender_lem _ _ q) refl)
      | inl q ↦ elim (Option-cases (compute_due_at zone settings r.accepted_at plan.wait_minutes)) [
        | inl w ↦ rw (e, q, w) (lacks_window c plan next e w refl)
        | inr (due, w) ↦
            rw (e, q, w)
              (moves_on c plan due next e (ground arith) (ground arith) w
                (reply_lem was_advanced _))
      ]
    ]
  ]

  with_none_lem :
      (r : Progressable) (c : Step) (s : S)
      → with_plan repo zone settings steps r c none s
        ≡ replied was_completed (repo.complete_enrollment r.enrollment_id c.id r.accepted_at s)
  unfolding with_plan
  with_none_lem r c s = reply_lem was_completed _

  if_true : (b : Bool) (x y : RowResult × S) → b ≡ true → (if b then x else y) ≡ x
  if_true b x y e = rw e refl

  if_false : (b : Bool) (x y : RowResult × S) → b ≡ false → (if b then x else y) ≡ y
  if_false b x y e = rw e refl

  outcome_of :
      (r : Progressable) (s : S) (out other : RowResult × S)
      → out ≡ other
      → RowOutcome r s other
      → RowOutcome r s out
  outcome_of r s out other e h = rw e h

  with_current-Outcome :
      (r : Progressable) (c : Step) (s : S)
      → IsCurrent r c
      → RowOutcome r s (with_current repo zone settings steps r (some c) s)
  unfolding with_current
  with_current-Outcome r c s current = elim (Bool-cases r.is_failed) [
    | inl e ↦ gives_up c current e (if_true r.is_failed _ _ e ∙ reply_lem was_failed _)
    | inr e ↦
        outcome_of r s _ _ (if_false r.is_failed _ _ e)
          (elim (Option-cases (plan_next_email steps c.position)) [
            | inl q ↦
                rw q (ends c current e ((finished_iff steps c.position).0 q) (with_none_lem r c s))
            | inr (plan, q) ↦ rw q (
                with_plan-Outcome r c plan s
                  (record { current = current; was_sent = e; planned = q }))
          ])
  ]

  -- Every row goes one of these ways.
  pub advance_row-Outcome :
      (r : Progressable) (s : S) → RowOutcome r s (advance_row repo zone settings steps r s)
  unfolding advance_row with_current
  advance_row-Outcome r s = elim (Option-cases (find_step r.next_step_id steps)) [
    | inl e ↦ rw e (no_step (find_step-none r.next_step_id steps e) refl)
    | inr (c, e) ↦ rw e (with_current-Outcome r c s (find_step-some r.next_step_id steps c e))
  ]
