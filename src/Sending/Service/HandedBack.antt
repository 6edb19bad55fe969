-- ===== src/Sending/Service/HandedBack.antt =====
-- What `defer_for_capacity` does to a claimed message, and to a late duplicate of the claim's task.
use email_outreach_platform.Base.{
  ℕ, ◌+◌, ◌≤◌, ◌≡◌, refl, inl, inr, Bool, some, arith, ltb, if◌then◌else◌, get_or, Option-cases,
}
use email_outreach_platform.Sending.Context.{MessageStatus, queued, LoadedSendContext}
use email_outreach_platform.Sending.Store.{Message, Db, message_row, put_message}
use email_outreach_platform.Sending.Repository.{found, context_of, load_message_for_send}
use email_outreach_platform.Sending.Repository.Writes.{later_due, deferred_row, defer_for_capacity}
use email_outreach_platform.Sending.Session.{ok}
use email_outreach_platform.Sending.Environment.{
  SendTaskPayload, Environment, noop_outcome, OutcomeReason,
}
use email_outreach_platform.Sending.Service.Helpers.{outcome_of}
use email_outreach_platform.Sending.Service.Execute.{execute}
use email_outreach_platform.Sending.Service.Safety.{session}
use email_outreach_platform.Sending.Service.Duplicate.{duplicate_is_ignored}

-- A message that has been handed back: it was queued by the claim of this generation, it has the next
-- generation now, and it is due no earlier than was asked for and than its own next try.
pub record HandedBack (db after : Db) (ws mid generation due : ℕ) : Type 0 where
  pub before : Message
  pub now : Message
  pub was_stored : message_row db ws mid ≡ some before
  pub is_stored : message_row after ws mid ≡ some now
  pub was_queued : before.status ≡ queued
  pub was_claimed : before.dispatch_generation ≡ generation
  pub next_claim : now.dispatch_generation ≡ generation + 1
  pub due_time : ℕ
  pub is_due : now.due_at ≡ some due_time
  pub not_early : due ≤ due_time
  pub not_before_retry : get_or 0 before.next_retry_at ≤ due_time

deferred_row_lem :
    (m : Message) (due : ℕ) (origin : MessageStatus)
    → ((deferred_row m due origin).dispatch_generation ≡ m.dispatch_generation + 1)
      × ((deferred_row m due origin).workspace_id ≡ m.workspace_id)
      × ((d : ℕ) × ((deferred_row m due origin).due_at ≡ some d)
          × (due ≤ d)
          × (get_or 0 m.next_retry_at ≤ d))
unfolding deferred_row later_due
deferred_row_lem m due origin = elim (Option-cases m.next_retry_at) [
  | inl e ↦ rw e (refl, refl, (due, refl, omega arith, omega arith))
  | inr (r, e) ↦ rw e (refl, refl, (if ltb due r then r else due, refl, ground arith, ground arith))
]

pub deferred_lem :
    (db after : Db) (ws mid gen due : ℕ)
    → defer_for_capacity db ws mid gen due ≡ some after
    → (m : Message) × (origin : MessageStatus) × (message_row db ws mid ≡ some m)
      × (m.status ≡ queued)
      × (m.dispatch_generation ≡ gen)
      × (m.dispatch_origin ≡ some origin)
      × (after ≡ put_message db mid (deferred_row m due origin))
unfolding defer_for_capacity
deferred_lem db after ws mid gen due h = elim (Option-cases (message_row db ws mid)) [
  | inl e ↦ absurd (ground arith)
  | inr (m, e) ↦ elim (Option-cases m.dispatch_origin) [
    | inl none_left ↦ absurd (ground arith)
    | inr (origin, o) ↦ (m, origin, e, ground arith, ground arith, o, ground arith)
  ]
]

stored_lem :
    (db : Db) (ws mid : ℕ) (m n : Message)
    → message_row db ws mid ≡ some m
    → n.workspace_id ≡ m.workspace_id
    → message_row (put_message db mid n) ws mid ≡ some n
unfolding message_row put_message
stored_lem db ws mid m n h w = ground arith

handed_back_lem :
    (db after : Db) (ws mid gen due : ℕ)
    → defer_for_capacity db ws mid gen due ≡ some after
    → HandedBack db after ws mid gen due
handed_back_lem db after ws mid gen due h =
    let (m, origin, row, q, g, o, e) = deferred_lem db after ws mid gen due h in
    let (next, same, (d, at_d, later, retry)) = deferred_row_lem m due origin in
    record {
      before = m;
      now = deferred_row m due origin;
      was_stored = row;
      is_stored = rw e (stored_lem db ws mid m (deferred_row m due origin) row same);
      was_queued = q;
      was_claimed = g;
      next_claim = omega (arith, next, g);
      due_time = d;
      is_due = at_d;
      not_early = later;
      not_before_retry = retry;
    }

loaded_generation :
    (is_locked : Bool) (db : Db) (ws mid : ℕ) (ctx : LoadedSendContext) (m : Message)
    → message_row db ws mid ≡ some m
    → load_message_for_send is_locked db ws mid ≡ found ctx
    → ctx.dispatch_generation ≡ m.dispatch_generation
unfolding load_message_for_send context_of
loaded_generation is_locked db ws mid ctx m row h = ground arith

-- Handing a message back takes it from the claim of this generation to the next one, due no earlier
-- than asked for and than its next try. A late duplicate of the claim's task that loads the message is
-- then a no-op: it makes no call and leaves the tables as they are.
pub hand_back_ends_claim :
    (env : Environment) (payload : SendTaskPayload) (db after : Db) (due : ℕ)
    → defer_for_capacity db payload.workspace_id payload.message_id payload.dispatch_generation due
      ≡ some after
    → HandedBack db after payload.workspace_id payload.message_id payload.dispatch_generation due
      × ((ctx : LoadedSendContext)
          → load_message_for_send env.is_locked after payload.workspace_id payload.message_id
            ≡ found ctx
          → (reason : OutcomeReason) × (execute env payload (session after)
              ≡ (ok (outcome_of ctx noop_outcome (some reason)), session after)))
hand_back_ends_claim env payload db after due h =
    let b =
      handed_back_lem db after payload.workspace_id payload.message_id payload.dispatch_generation
        due h in
    (
      b,
      λ ctx loaded. duplicate_is_ignored env payload after ctx loaded (
          inl (λ e. absurd (
            omega (
              arith,
              e,
              b.next_claim,
              loaded_generation env.is_locked after payload.workspace_id payload.message_id ctx
                  b.now b.is_stored loaded,
            )))),
    )
