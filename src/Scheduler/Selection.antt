-- ===== src/Scheduler/Selection.antt =====
-- The fair choice of `SchedulerService.discover_and_claim_due_work` in
-- backend/app/modules/scheduler/service.py: candidates are grouped by workspace and taken in turn.
pub mod Rounds
use email_outreach_platform.Base.{
  ℕ, zero, suc, ◌-◌, ◌*◌, min, Bool, true, false, Option, none, some, List, [], ◌∷◌, ◌++◌, leb,
  ◌==◌, if◌then◌else◌, length,
}
use email_outreach_platform.Sending.Context.{MessageStatus, Purpose}

pub record DueMessageCandidate : Type 0 where
  pub id : ℕ
  pub workspace_id : ℕ
  pub campaign_id : Option ℕ
  pub mailbox_id : ℕ
  pub due_at : ℕ
  pub purpose : Purpose
  pub schedule_generation : ℕ
  pub status : MessageStatus
  pub dispatch_generation : ℕ

-- An entry of `by_workspace`: the workspace and its queue.
pub data Group : Type 0 where
  group : ℕ → List DueMessageCandidate → Group

-- `by_workspace[cand.workspace_id].append(cand)` on the dict, which keeps the order of its keys.
unfoldable pub append_to : DueMessageCandidate → List Group → List Group
append_to c [] = group c.workspace_id (c ∷ []) ∷ []
append_to c (group ws queue ∷ groups) =
    let rest = append_to c groups in
    if ws == c.workspace_id then group ws (queue ++ (c ∷ [])) ∷ groups else group ws queue ∷ rest

-- The loop over the candidates.
unfoldable pub group_onto : List Group → List DueMessageCandidate → List Group
unfolding append_to
group_onto groups [] = groups
group_onto groups (c ∷ candidates) = group_onto (append_to c groups) candidates

-- `any(by_workspace.values())`
unfoldable pub any_left : List Group → Bool
any_left [] = false
any_left (group ws [] ∷ groups) = any_left groups
any_left (group ws (c ∷ queue) ∷ groups) = true

-- The loop of the round robin, `room` short of the limit. The groups stand in the order in which the
-- index, taken modulo their number, comes to them: the first is the one of `idx`.
unfoldable pub round_robin : ℕ → ℕ → List Group → List DueMessageCandidate
unfolding any_left
round_robin zero room groups = []
round_robin (suc fuel) zero groups = []
round_robin (suc fuel) (suc room) [] = []
round_robin (suc fuel) (suc room) (group ws [] ∷ groups) =
    let rest = round_robin fuel (suc room) (groups ++ (group ws [] ∷ [])) in
    if any_left groups then rest else []
round_robin (suc fuel) (suc room) (group ws (c ∷ queue) ∷ groups) =
    c ∷ round_robin fuel room (groups ++ (group ws queue ∷ []))

-- Rounds enough: one for each group and candidate.
unfoldable pub select_due : ℕ → List DueMessageCandidate → List DueMessageCandidate
unfolding group_onto round_robin
select_due limit candidates =
    let groups = group_onto [] candidates in
    round_robin (length groups * length candidates) limit groups

-- `limit` after the backpressure: what is free of the claims that may be outstanding, or none where
-- there is no room.
unfoldable pub claim_room : ℕ → ℕ → ℕ → Option ℕ
claim_room batch_size max_outstanding outstanding =
    if leb max_outstanding outstanding
    then none
    else some (min batch_size (max_outstanding - outstanding))
