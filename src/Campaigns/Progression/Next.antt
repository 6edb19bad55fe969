-- ===== src/Campaigns/Progression/Next.antt =====
-- What `plan_next_email` finds.
use email_outreach_platform.Base.{
  ℕ, ◌+◌, ◌≤◌, ◌<◌, ◌≡◌, refl, inl, inr, true, false, none, some, List, [], ◌∷◌, arith, ltb, leb,
  Bool-cases, get_or, All,
}
use email_outreach_platform.Campaigns.Progression.{
  Step, NextEmailPlan, is_wait, sort_steps, next_from, plan_next_email,
}
use email_outreach_platform.Campaigns.Progression.Sorted.{
  IsOne, AreSorted, minutes_between, wait_between, All-sort, sort-AreSorted, sort-wait, sort-IsOne,
  All-unsort,
}

-- A later email than the one that the loop returns, and a step that it passes over.
abbrev pub LaterEmail : ℕ → ℕ → Step → Type 0
LaterEmail current position s =
    is_wait s.kind ≡ false → current < s.position → position ≤ s.position

abbrev pub NoTie : ℕ → Step → Type 0
NoTie position s = is_wait s.kind ≡ true → ¬ (s.position ≡ position)

-- The next email after a position: a step of the sequence, an email, after the position, no email
-- between them, and the waits between them summed.
pub record IsNext (steps : List Step) (current : ℕ) (p : NextEmailPlan) : Type 0 where
  pub one_of : IsOne p.next steps
  pub is_email : is_wait p.next.kind ≡ false
  pub is_after : current < p.next.position
  pub is_first : All (LaterEmail current p.next.position) steps
  pub waits : p.wait_minutes ≡ wait_between current p.next.position steps

later-All :
    (current position : ℕ) (steps : List Step)
    → All (λ (t : Step). position ≤ t.position) steps
    → All (LaterEmail current position) steps
later-All current position [] h = tt
later-All current position (t ∷ steps) h = (λ e lt. h.0, later-All current position steps h.1)

none_between :
    (current position : ℕ) (steps : List Step)
    → All (λ (t : Step). position ≤ t.position) steps
    → wait_between current position steps ≡ 0
unfolding wait_between minutes_between
none_between current position [] h = refl
none_between current position (t ∷ steps) h =
    let rest = none_between current position steps h.1 in
    let out : ltb t.position position ≡ false = ground (arith, h.0) in ground (arith, rest, out)

no_plan : (p : NextEmailPlan) → ¬ (none ≡ some p)
no_plan p e = cc

same_plan : (p q : NextEmailPlan) → some p ≡ some q → q ≡ p
same_plan p q e = cc

All-IsOne {ℓ} :
    (P : Step → Type ℓ) (p : Step) (steps : List Step) → All P steps → IsOne p steps → P p
All-IsOne P p [] h q = elim q [ ]
All-IsOne P p (t ∷ steps) h (inl e) = rw e h.0
All-IsOne P p (t ∷ steps) h (inr q) = All-IsOne P p steps h.1 q

-- What the loop has found in what is left of the sorted steps.
record FoundIn (steps : List Step) (current waits : ℕ) (p : NextEmailPlan) : Type 0 where
  one_of : IsOne p.next steps
  is_email : is_wait p.next.kind ≡ false
  is_after : current < p.next.position
  is_first : All (LaterEmail current p.next.position) steps
  total : p.wait_minutes ≡ waits + wait_between current p.next.position steps

found_email :
    (current waits : ℕ) (s : Step) (steps : List Step)
    → AreSorted (s ∷ steps)
    → current < s.position
    → is_wait s.kind ≡ false
    → FoundIn (s ∷ steps) current waits (record { next = s; wait_minutes = waits })
unfolding wait_between minutes_between
found_email current waits s steps sorted lt e = record {
  one_of = inl refl;
  is_email = e;
  is_after = lt;
  is_first = (λ k l. omega arith, later-All current s.position steps sorted.0);
  total =
      let rest = none_between current s.position steps sorted.0 in
      let own : minutes_between current s.position s ≡ 0 = ground arith in omega (arith, rest, own);
}

found_later :
    (current waits m : ℕ) (s : Step) (steps : List Step) (p : NextEmailPlan)
    → FoundIn steps current (waits + m) p
    → LaterEmail current p.next.position s
    → minutes_between current p.next.position s ≡ m
    → FoundIn (s ∷ steps) current waits p
unfolding wait_between
found_later current waits m s steps p f later own = record {
  one_of = inr f.one_of;
  is_email = f.is_email;
  is_after = f.is_after;
  is_first = (later, f.is_first);
  total = omega (arith, f.total, own);
}

skipped_minutes :
    (current before : ℕ) (s : Step) → s.position ≤ current → minutes_between current before s ≡ 0
unfolding minutes_between
skipped_minutes current before s le = ground arith

waited_minutes :
    (current before : ℕ) (s : Step)
    → current < s.position
    → s.position < before
    → is_wait s.kind ≡ true
    → minutes_between current before s ≡ get_or 0 s.wait_duration_minutes
unfolding minutes_between
waited_minutes current before s lt less e = ground arith

skip_zero :
    (current waits : ℕ) (s : Step) (steps : List Step) (p : NextEmailPlan)
    → leb s.position current ≡ true
    → next_from current waits (s ∷ steps) ≡ some p
    → next_from current (waits + 0) steps ≡ some p
unfolding next_from
skip_zero current waits s steps p e h =
    let zero_added : waits + 0 ≡ waits = omega arith in rw zero_added (rw e at h)

strictly : (a b : ℕ) → a ≤ b → ¬ (a ≡ b) → a < b
strictly a b le differ = elim (Bool-cases (ltb a b)) [
  | inl e ↦ ground arith
  | inr e ↦ absurd (differ (ground arith))
]

next_from-FoundIn :
    (current waits : ℕ) (steps : List Step) (p : NextEmailPlan)
    → AreSorted steps
    → next_from current waits steps ≡ some p
    → All (NoTie p.next.position) steps
    → FoundIn steps current waits p
unfolding next_from
next_from-FoundIn current waits [] p sorted h ties = absurd (no_plan p h)
next_from-FoundIn current waits (s ∷ steps) p sorted h ties =
    elim (Bool-cases (leb s.position current)) [
      | inl e ↦
          let f =
            next_from-FoundIn current (waits + 0) steps p sorted.1
              (skip_zero current waits s steps p e h) ties.1 in
          found_later current waits 0 s steps p f (λ k lt. absurd (ground arith))
            (skipped_minutes current p.next.position s (ground arith))
      | inr e ↦ elim (Bool-cases (is_wait s.kind)) [
        | inr k ↦
            let same : p ≡ record { next = s; wait_minutes = waits } =
              same_plan _ p (rw (e, k) at h) in
            rw same (found_email current waits s steps sorted (ground arith) k)
        | inl k ↦
            let m = get_or 0 s.wait_duration_minutes in
            let f =
              next_from-FoundIn current (waits + m) steps p sorted.1 (rw (e, k) at h) ties.1 in
            let le = All-IsOne _ p.next steps sorted.0 f.one_of in
            let differ = ties.0 k in
            found_later current waits m s steps p f (λ q lt. absurd (ground arith))
              (waited_minutes current p.next.position s (ground arith)
                (strictly s.position p.next.position le differ) k)
      ]
    ]

-- When no wait stands at the position of the email found, `plan_next_email` finds the next email of
-- the sequence: a step of it, after the current position, with no email between them, and its wait is
-- the sum of the waits between them, in whatever order the steps are given.
pub plan_next_email-IsNext :
    (steps : List Step) (current : ℕ) (p : NextEmailPlan)
    → plan_next_email steps current ≡ some p
    → All (NoTie p.next.position) steps
    → IsNext steps current p
unfolding plan_next_email
plan_next_email-IsNext steps current p h ties =
    let sorted = sort-AreSorted steps in
    let f =
      next_from-FoundIn current 0 (sort_steps steps) p sorted h
        (All-sort (NoTie p.next.position) steps ties) in
    record {
      one_of = sort-IsOne p.next steps f.one_of;
      is_email = f.is_email;
      is_after = f.is_after;
      is_first = All-unsort _ steps f.is_first;
      waits = omega (arith, f.total, sort-wait current p.next.position steps);
    }
