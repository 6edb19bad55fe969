-- ===== src/Campaigns/Progression/Sorted.antt =====
-- The steps of a sequence in the order of their positions, and the waits between two of them.
use email_outreach_platform.Base.{
  ℕ, ◌+◌, ◌≤◌, ◌≡◌, refl, ◌⊎◌, inl, inr, ◌&&◌, List, [], ◌∷◌, arith, ltb, leb, if◌then◌else◌,
  Bool-cases, get_or, All,
}
use email_outreach_platform.Campaigns.Progression.{Step, is_wait, insert_step, sort_steps}

abbrev pub IsOne : Step → List Step → Type 0
IsOne s [] = ⊥
IsOne s (t ∷ steps) = (s ≡ t) ⊎ IsOne s steps

abbrev pub AreSorted : List Step → Type 0
AreSorted [] = Unit {0}
AreSorted (s ∷ steps) = All (λ (t : Step). s.position ≤ t.position) steps × AreSorted steps

-- The minutes that a step adds to the wait between two positions.
unfoldable pub minutes_between : ℕ → ℕ → Step → ℕ
unfolding is_wait
minutes_between after before s =
    if ltb after s.position && ltb s.position before && is_wait s.kind
    then get_or 0 s.wait_duration_minutes
    else 0

unfoldable pub wait_between : ℕ → ℕ → List Step → ℕ
unfolding minutes_between
wait_between after before [] = 0
wait_between after before (s ∷ steps) =
    minutes_between after before s + wait_between after before steps

All-insert {ℓ} :
    (P : Step → Type ℓ) (s : Step) (steps : List Step)
    → P s
    → All P steps
    → All P (insert_step s steps)
unfolding insert_step
All-insert P s [] h all = (h, tt)
All-insert P s (t ∷ steps) h all = elim (Bool-cases (leb s.position t.position)) [
  | inl e ↦ rw e (h, all)
  | inr e ↦ rw e (all.0, All-insert P s steps h all.1)
]

pub All-sort {ℓ} : (P : Step → Type ℓ) (steps : List Step) → All P steps → All P (sort_steps steps)
unfolding sort_steps
All-sort P [] h = tt
All-sort P (s ∷ steps) h = All-insert P s (sort_steps steps) h.0 (All-sort P steps h.1)

pub All-weaken :
    (a b : ℕ) (steps : List Step)
    → a ≤ b
    → All (λ (t : Step). b ≤ t.position) steps
    → All (λ (t : Step). a ≤ t.position) steps
All-weaken a b [] le h = tt
All-weaken a b (t ∷ steps) le h = (omega (arith, le, h.0), All-weaken a b steps le h.1)

insert-AreSorted :
    (s : Step) (steps : List Step) → AreSorted steps → AreSorted (insert_step s steps)
unfolding insert_step
insert-AreSorted s [] h = (tt, tt)
insert-AreSorted s (t ∷ steps) h = elim (Bool-cases (leb s.position t.position)) [
  | inl e ↦
      let le : s.position ≤ t.position = ground arith in
      rw e ((le, All-weaken s.position t.position steps le h.0), h)
  | inr e ↦
      let le : t.position ≤ s.position = ground arith in
      rw e (All-insert _ s steps le h.0, insert-AreSorted s steps h.1)
]

pub sort-AreSorted : (steps : List Step) → AreSorted (sort_steps steps)
unfolding sort_steps
sort-AreSorted [] = tt
sort-AreSorted (s ∷ steps) = insert-AreSorted s (sort_steps steps) (sort-AreSorted steps)

insert-wait :
    (after before : ℕ) (s : Step) (steps : List Step)
    → wait_between after before (insert_step s steps)
      ≡ minutes_between after before s + wait_between after before steps
unfolding insert_step wait_between
insert-wait after before s [] = refl
insert-wait after before s (t ∷ steps) = elim (Bool-cases (leb s.position t.position)) [
  | inl e ↦ rw e refl
  | inr e ↦ rw e (omega (arith, insert-wait after before s steps))
]

pub sort-wait :
    (after before : ℕ) (steps : List Step)
    → wait_between after before (sort_steps steps) ≡ wait_between after before steps
unfolding sort_steps wait_between
sort-wait after before [] = refl
sort-wait after before (s ∷ steps) =
    omega (arith, insert-wait after before s (sort_steps steps), sort-wait after before steps)

as_one : {A B : Type 0} → A ⊎ B → A ⊎ B
as_one h = h

insert-IsOne :
    (p s : Step) (steps : List Step) → IsOne p (insert_step s steps) → (p ≡ s) ⊎ IsOne p steps
unfolding insert_step
insert-IsOne p s [] h = h
insert-IsOne p s (t ∷ steps) h = elim (Bool-cases (leb s.position t.position)) [
  | inl e ↦ rw e at h
  | inr e ↦ elim (as_one (rw e at h)) [
    | inl q ↦ inr (inl q)
    | inr q ↦ elim (insert-IsOne p s steps q) [ inl r ↦ inl r | inr r ↦ inr (inr r) ]
  ]
]

pub sort-IsOne : (p : Step) (steps : List Step) → IsOne p (sort_steps steps) → IsOne p steps
unfolding sort_steps
sort-IsOne p [] h = h
sort-IsOne p (s ∷ steps) h = elim (insert-IsOne p s (sort_steps steps) h) [
  | inl e ↦ inl e
  | inr q ↦ inr (sort-IsOne p steps q)
]

insert-All {ℓ} :
    (P : Step → Type ℓ) (s : Step) (steps : List Step)
    → All P (insert_step s steps)
    → P s × All P steps
unfolding insert_step
insert-All P s [] h = (h.0, tt)
insert-All P s (t ∷ steps) h = elim (Bool-cases (leb s.position t.position)) [
  | inl e ↦ let all = rw e at h in (all.0, all.1)
  | inr e ↦
      let all = rw e at h in let (own, rest) = insert-All P s steps all.1 in (own, (all.0, rest))
]

pub All-unsort {ℓ} :
    (P : Step → Type ℓ) (steps : List Step) → All P (sort_steps steps) → All P steps
unfolding sort_steps
All-unsort P [] h = tt
All-unsort P (s ∷ steps) h =
    let (own, rest) = insert-All P s (sort_steps steps) h in (own, All-unsort P steps rest)
