-- ===== src/Scheduler/Selection/Rounds.antt =====
-- The round robin ends, with as many candidates as there are or may be.
use email_outreach_platform.Base.{
  ℕ, zero, suc, ◌+◌, ◌*◌, ◌<◌, min, ◌≡◌, refl, sym, ap, ◌⊎◌, inl, inr, true, false, List, [], ◌∷◌,
  ◌++◌, arith, ◌==◌, Bool-cases, length,
}
use email_outreach_platform.Scheduler.Selection.{
  DueMessageCandidate, Group, group, append_to, group_onto, any_left, round_robin, select_due,
}

-- The candidates in the groups.
total : List Group → ℕ
total [] = 0
total (group ws queue ∷ groups) = length queue + total groups

-- The groups before the first that has a candidate.
distance : List Group → ℕ
distance [] = 0
distance (group ws [] ∷ groups) = suc (distance groups)
distance (group ws (c ∷ queue) ∷ groups) = 0

length-append {ℓ} : {A : Type ℓ} (xs ys : List A) → length (xs ++ ys) ≡ length xs + length ys
length-append [] ys = omega arith
length-append (x ∷ xs) ys = omega (arith, length-append xs ys)

total-append : (xs ys : List Group) → total (xs ++ ys) ≡ total xs + total ys
unfolding total
total-append [] ys = omega arith
total-append (group w q ∷ xs) ys = omega (arith, total-append xs ys)

distance_bound : (groups : List Group) → 0 < total groups → distance groups < length groups
unfolding total distance
distance_bound [] lt = absurd (omega (arith, lt))
distance_bound (group w [] ∷ groups) lt = omega (arith, distance_bound groups (omega (arith, lt)))
distance_bound (group w (c ∷ q) ∷ groups) lt = omega arith

distance-append :
    (groups rest : List Group) → 0 < total groups → distance (groups ++ rest) ≡ distance groups
unfolding total distance
distance-append [] rest lt = absurd (omega (arith, lt))
distance-append (group w [] ∷ groups) rest lt =
    ap suc (distance-append groups rest (omega (arith, lt)))
distance-append (group w (c ∷ q) ∷ groups) rest lt = refl

any_total : (groups : List Group) → 0 < total groups → any_left groups ≡ true
unfolding total any_left
any_total [] lt = absurd (omega (arith, lt))
any_total (group w [] ∷ groups) lt = any_total groups (omega (arith, lt))
any_total (group w (c ∷ q) ∷ groups) lt = refl

none_total : (groups : List Group) → total groups ≡ 0 → any_left groups ≡ false
unfolding total any_left
none_total [] e = refl
none_total (group w [] ∷ groups) e = none_total groups (omega (arith, e))
none_total (group w (c ∷ q) ∷ groups) e = absurd (omega (arith, e))

-- The rounds that the loop takes at most: to the next candidate, and one for each group and further
-- candidate.
abbrev Enough : ℕ → List Group → Type 0
Enough fuel groups = (k : ℕ) → total groups ≡ suc k → distance groups + length groups * k < fuel

zero_or_suc : (n : ℕ) → (n ≡ 0) ⊎ ((k : ℕ) × (n ≡ suc k))
zero_or_suc zero = inl refl
zero_or_suc (suc k) = inr (k, refl)

mul-suc : (n k : ℕ) → n * suc k ≡ n + n * k
mul-suc n k = omega arith

skip-Enough :
    (fuel ws : ℕ) (groups : List Group)
    → 0 < total groups
    → Enough (suc fuel) (group ws [] ∷ groups)
    → Enough fuel (groups ++ (group ws [] ∷ []))
unfolding total distance
skip-Enough fuel ws groups lt h = λ k e.
    let same = total-append groups (group ws [] ∷ []) in
    let n = length-append groups (group ws [] ∷ []) in
    let d = distance-append groups (group ws [] ∷ []) lt in
    let old = h k (omega (arith, same, e)) in
    let size : length (groups ++ (group ws [] ∷ [])) ≡ suc (length groups) = omega (arith, n) in
    rw (d, size) (omega (arith, old))

take-Enough :
    (fuel ws : ℕ) (c : DueMessageCandidate) (queue : List DueMessageCandidate) (groups : List Group)
    → Enough (suc fuel) (group ws (c ∷ queue) ∷ groups)
    → Enough fuel (groups ++ (group ws queue ∷ []))
unfolding total distance
take-Enough fuel ws c queue groups h = λ k e.
    let same = total-append groups (group ws queue ∷ []) in
    let n = length-append groups (group ws queue ∷ []) in
    let d = distance_bound (groups ++ (group ws queue ∷ [])) (omega (arith, e)) in
    let old = h (suc k) (omega (arith, same, e)) in
    let size : length (groups ++ (group ws queue ∷ [])) ≡ suc (length groups) = omega (arith, n) in
    let bound = rw size at d in rw size (omega (arith, old, bound, mul-suc (suc (length groups)) k))

round_robin-length :
    (fuel room : ℕ) (groups : List Group)
    → Enough fuel groups
    → length (round_robin fuel room groups) ≡ min room (total groups)
unfolding round_robin total
round_robin-length zero room groups h = elim (zero_or_suc (total groups)) [
  | inl e ↦ omega (arith, e)
  | inr (k, e) ↦ absurd (omega (arith, h k e))
]
round_robin-length (suc fuel) zero groups h = omega arith
round_robin-length (suc fuel) (suc room) [] h = omega arith
round_robin-length (suc fuel) (suc room) (group ws [] ∷ groups) h =
    elim (zero_or_suc (total groups)) [
      | inl e ↦ rw (none_total groups e) (omega (arith, e))
      | inr (k, e) ↦
          let rest =
            round_robin-length fuel (suc room) (groups ++ (group ws [] ∷ []))
              (skip-Enough fuel ws groups (omega (arith, e)) h) in
          rw (any_total groups (omega (arith, e)))
            (omega (arith, rest, total-append groups (group ws [] ∷ [])))
    ]
round_robin-length (suc fuel) (suc room) (group ws (c ∷ q) ∷ groups) h =
    let rest =
      round_robin-length fuel room (groups ++ (group ws q ∷ []))
        (take-Enough fuel ws c q groups h) in
    omega (arith, rest, total-append groups (group ws q ∷ []))

append_to-total :
    (c : DueMessageCandidate) (groups : List Group)
    → total (append_to c groups) ≡ suc (total groups)
unfolding append_to total
append_to-total c [] = omega arith
append_to-total c (group ws queue ∷ groups) = elim (Bool-cases (ws == c.workspace_id)) [
  | inl e ↦ rw e (omega (arith, length-append queue (c ∷ [])))
  | inr e ↦ rw e (omega (arith, append_to-total c groups))
]

group_onto-total :
    (groups : List Group) (candidates : List DueMessageCandidate)
    → total (group_onto groups candidates) ≡ total groups + length candidates
unfolding group_onto
group_onto-total groups [] = omega arith
group_onto-total groups (c ∷ rest) =
    omega (arith, group_onto-total (append_to c groups) rest, append_to-total c groups)

group_total :
    (candidates : List DueMessageCandidate) → total (group_onto [] candidates) ≡ length candidates
unfolding total
group_total candidates = omega (arith, group_onto-total [] candidates)

product-Enough : (groups : List Group) → Enough (length groups * total groups) groups
product-Enough groups = λ k e.
    let d = distance_bound groups (omega (arith, e)) in
    rw e (omega (arith, d, mul-suc (length groups) k))

-- The fair choice ends, and leaves no room and no candidate unused: with a round for each group and
-- candidate, the round robin over the workspaces picks as many messages as there are candidates, or
-- as the limit admits when there are more.
pub select_due-length :
    (limit : ℕ) (candidates : List DueMessageCandidate)
    → length (select_due limit candidates) ≡ min limit (length candidates)
unfolding select_due
select_due-length limit candidates =
    let groups = group_onto [] candidates in
    let all : total groups ≡ length candidates = group_total candidates in
    rw (sym all)
      (round_robin-length (length groups * total groups) limit groups (product-Enough groups))
