-- ===== src/Lifecycle.antt =====
-- The states of a message, as docs/architecture/MESSAGE_STATE_MACHINE.md lists them, and the steps of
-- the workers on the tables.
pub mod Rows
pub mod Refinement
mod Tests
use email_outreach_platform.Base.{ℕ, ◌≡◌, Bool, Option, some, List}
use email_outreach_platform.Sending.Context.{
  MessageStatus, planned, scheduled, queued, sending, retry_scheduled, unknown_outcome, sent,
  failed, skipped, cancelled,
}
use email_outreach_platform.Sending.Store.{Db}
use email_outreach_platform.Sending.Repository.Writes.{defer_for_capacity}
use email_outreach_platform.Sending.Recovery.{recover_stale_executions}
use email_outreach_platform.Sending.Reconciliation.{Lookups, reconcile_unknown_messages}
use email_outreach_platform.Scheduler.Store.{failed, Tables}
use email_outreach_platform.Scheduler.Claim.{NewIds, claim_due_message, recover_expired_claim}
use email_outreach_platform.Scheduler.Claim.Keys.{IsConsistent}

pub data IsFinal : MessageStatus → Type 0 where
  final_sent : IsFinal sent
  final_failed : IsFinal MessageStatus.failed
  final_skipped : IsFinal skipped
  final_cancelled : IsFinal cancelled

-- Skipped, cancelled or failed.
pub data IsStop : MessageStatus → Type 0 where
  stop_failed : IsStop MessageStatus.failed
  stop_skipped : IsStop skipped
  stop_cancelled : IsStop cancelled

-- The edges of the diagram's transition relation; every state that is not final may be stopped.
pub data Edge : MessageStatus → MessageStatus → Type 0 where
  plan : Edge planned MessageStatus.scheduled
  dispatch_first : Edge MessageStatus.scheduled queued
  dispatch_retry : Edge retry_scheduled queued
  authorize : Edge queued sending
  restore_first : Edge queued MessageStatus.scheduled
  restore_retry : Edge queued retry_scheduled
  accept : Edge sending sent
  try_later : Edge sending retry_scheduled
  lose : Edge sending unknown_outcome
  confirm : Edge unknown_outcome sent
  disprove : Edge unknown_outcome retry_scheduled
  stop : (s e : MessageStatus) → ¬ IsFinal s → IsStop e → Edge s e

-- What each worker does of it: the claim dispatches, a claim that ends gives the state back, the
-- recovery loses the outcome and the reconciliation confirms the acceptance.
pub data ClaimEdge : MessageStatus → MessageStatus → Type 0 where
  first_claim : ClaimEdge MessageStatus.scheduled queued
  next_claim : ClaimEdge retry_scheduled queued

pub data ReturnEdge : MessageStatus → MessageStatus → Type 0 where
  to_first : ReturnEdge queued MessageStatus.scheduled
  to_retry : ReturnEdge queued retry_scheduled

pub data RecoveryEdge : MessageStatus → MessageStatus → Type 0 where
  outcome_lost : RecoveryEdge sending unknown_outcome

pub data ReconciliationEdge : MessageStatus → MessageStatus → Type 0 where
  acceptance_found : ReconciliationEdge unknown_outcome sent

pub data Walk : MessageStatus → MessageStatus → Type 0 where
  done : (s : MessageStatus) → Walk s s
  more : (s t u : MessageStatus) → Edge s t → Walk t u → Walk s u

-- A step of a worker that moves messages without sending: a claim, the recovery of an expired claim, a
-- message handed back, the recovery of stale executions, a reconciliation, and a step on the
-- deliveries or on rows that are no messages.
pub data WorkerStep : Tables → Tables → Type 0 where
  claim :
      (t : Tables) (ws mid : ℕ) (is_locked : Bool) (lease now clock : ℕ) (ids : NewIds)
      → IsConsistent t
      → WorkerStep t (claim_due_message t ws mid is_locked lease now clock ids).1
  expire :
      (t u : Tables) (ws mid generation : ℕ) (is_locked : Bool)
      → recover_expired_claim t ws mid generation is_locked ≡ some u
      → WorkerStep t u
  hand_back :
      (t : Tables) (db : Db) (ws mid generation due : ℕ)
      → defer_for_capacity t.db ws mid generation due ≡ some db
      → WorkerStep t (record t { db = db })
  recover :
      (t : Tables) (seen : Db) (now : ℕ) (scope : Option ℕ) (limit : ℕ)
      → WorkerStep t (record t { db = (recover_stale_executions seen t.db now scope limit).1 })
  reconcile :
      (t : Tables) (env : Lookups) (seen : Db) (scope : Option ℕ) (limit : ℕ) (ids : List ℕ)
      → WorkerStep t
          (record t { db = (reconcile_unknown_messages env seen t.db scope limit ids).1 })
  elsewhere : (t u : Tables) → u.db.messages ≡ t.db.messages → WorkerStep t u

-- The edges of the worker that makes the step.
abbrev pub EdgeOf : {t u : Tables} → WorkerStep t u → MessageStatus → MessageStatus → Type 0
EdgeOf (claim t ws mid is_locked lease now clock ids ok) = ClaimEdge
EdgeOf (expire t u ws mid generation is_locked h) = ReturnEdge
EdgeOf (hand_back t db ws mid generation due h) = ReturnEdge
EdgeOf (recover t seen now scope limit) = RecoveryEdge
EdgeOf (reconcile t env seen scope limit ids) = ReconciliationEdge
EdgeOf (elsewhere t u e) = λ s f. ⊥

pub data WorkerReach : Tables → Tables → Type 0 where
  stay : (t : Tables) → WorkerReach t t
  step : (t u v : Tables) → WorkerStep t u → WorkerReach u v → WorkerReach t v
