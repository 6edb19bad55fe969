-- ===== src/Campaigns/Progression/Finished.antt =====
-- When a sequence is finished.
use email_outreach_platform.Base.{
  ℕ, ◌+◌, ◌≤◌, ◌≡◌, refl, ◌↔◌, inl, inr, Bool, true, false, none, some, List, [], ◌∷◌, arith, leb,
  Bool-cases, get_or, All,
}
use email_outreach_platform.Campaigns.Progression.{
  Step, NextEmailPlan, is_wait, sort_steps, next_from, plan_next_email,
}
use email_outreach_platform.Campaigns.Progression.Sorted.{All-sort, All-unsort}

-- The step is no email after the position.
abbrev pub NotAhead : ℕ → Step → Type 0
NotAhead current s = is_wait s.kind ≡ false → s.position ≤ current

clash : {b : Bool} → b ≡ true → ¬ (b ≡ false)
clash h q = absurd (cc)

not_none : (p : NextEmailPlan) → ¬ (some p ≡ none)
not_none p e = cc

next_from-none :
    (current waits : ℕ) (steps : List Step)
    → next_from current waits steps ≡ none
    → All (NotAhead current) steps
unfolding next_from
next_from-none current waits [] h = tt
next_from-none current waits (s ∷ steps) h = elim (Bool-cases (leb s.position current)) [
  | inl e ↦ (λ k. ground arith, next_from-none current waits steps (rw e at h))
  | inr e ↦ elim (Bool-cases (is_wait s.kind)) [
    | inl k ↦ (
      λ q. absurd (clash k q),
      next_from-none current (waits + get_or 0 s.wait_duration_minutes) steps (rw (e, k) at h),
    )
    | inr k ↦ absurd (not_none _ (rw (e, k) at h))
  ]
]

next_from_past :
    (current waits : ℕ) (steps : List Step)
    → All (NotAhead current) steps
    → next_from current waits steps ≡ none
unfolding next_from
next_from_past current waits [] h = refl
next_from_past current waits (s ∷ steps) h = elim (Bool-cases (leb s.position current)) [
  | inl e ↦ rw e (next_from_past current waits steps h.1)
  | inr e ↦ elim (Bool-cases (is_wait s.kind)) [
    | inl k ↦
        rw (e, k) (next_from_past current (waits + get_or 0 s.wait_duration_minutes) steps h.1)
    | inr k ↦ let le = h.0 k in absurd (ground arith)
  ]
]

-- A sequence is finished for an enrollment, so that it is completed, exactly when no email of the
-- sequence stands after its position: waits at the end do not count.
pub finished_iff :
    (steps : List Step) (current : ℕ)
    → (plan_next_email steps current ≡ none) ↔ All (NotAhead current) steps
unfolding plan_next_email
finished_iff steps current = (
  λ h. All-unsort _ steps (next_from-none current 0 (sort_steps steps) h),
  λ h. next_from_past current 0 (sort_steps steps) (All-sort _ steps h),
)
