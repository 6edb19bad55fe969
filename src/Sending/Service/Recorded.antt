-- ===== src/Sending/Service/Recorded.antt =====
-- What the final transaction records of the provider's answer.
use email_outreach_platform.Base.{
  ℕ, ◌+◌, ◌≤◌, ◌≡◌, refl, ap, ◌∙◌, inl, inr, Bool, true, false, Option, none, some, arith,
  Bool-cases, is_some, Option-cases, Text,
}
use email_outreach_platform.Sending.Context.{
  MessageStatus, retry_scheduled, sent, ConnectionState, reconnect_required, HealthState, degraded,
  LoadedSendContext,
}
use email_outreach_platform.Sending.RetryPolicy.{RetryDecision, classify_and_decide}
use email_outreach_platform.Sending.Store.{
  Message, AuditAction, message_sent, ambiguous_outcome, held_for_reauth, retry_was_scheduled,
  message_failed, Db, message_row, put_message, put_mailbox,
}
use email_outreach_platform.Sending.Repository.{is_sent, message_allowed}
use email_outreach_platform.Sending.Repository.Writes.{
  Finalization, finalized_message, finalize_attempt_result, update_mailbox_connection_state,
  update_mailbox_blocked_until, record_audit_event,
}
use email_outreach_platform.Sending.Session.{ok, World, M, write_or}
use email_outreach_platform.Sending.Environment.{
  SendStatus, definitively_rejected, ProviderSendResult, Environment, OutcomeName, sent_outcome,
  unknown_outcome_outcome, retry_outcome, SendOutcome,
}
use email_outreach_platform.Sending.Service.Helpers.{audit}
use email_outreach_platform.Sending.Service.Finalize.{
  or_text, is_auth_failure, is_rate_limit, cooldown, store, settle, finalize_accepted,
  finalize_unknown, finalize_auth_failure, retry_input, finalize_decision, limit_and_decide,
  finalize_rejected, by_status, finalize_send_result,
}

-- The status that a message has when the service reports an outcome of its call.
unfoldable pub status_of : OutcomeName → MessageStatus
status_of sent_outcome = sent
status_of unknown_outcome_outcome = MessageStatus.unknown_outcome
status_of retry_outcome = retry_scheduled
status_of _ = MessageStatus.failed

-- A message that agrees with a reported outcome and satisfies the table's constraints.
pub record Recorded (o : SendOutcome) (message_id : ℕ) (messages : ℕ → Option Message)
    : Type 0 where
  pub message : Message
  pub stored : messages message_id ≡ some message
  pub status : message.status ≡ status_of o.outcome
  pub in_budget : message.retry_count ≤ message.retry_budget
  pub accepted : is_some message.accepted_at ≡ is_sent message.status

-- The message that a finalization leaves.
finalized_lem :
    (db after : Db) (ws mid aid : ℕ) (f : Finalization) (m : Message)
    → message_row db ws mid ≡ some m
    → finalize_attempt_result db ws mid aid f ≡ some after
    → (after.messages mid ≡ some (finalized_message m f))
      × (message_allowed (finalized_message m f) ≡ true)
unfolding finalize_attempt_result message_row put_message
finalized_lem db after ws mid aid f m row h = (ground arith, ground arith)

allowed_lem :
    (m : Message)
    → message_allowed m ≡ true
    → (m.retry_count ≤ m.retry_budget) × (is_some m.accepted_at ≡ is_sent m.status)
unfolding message_allowed
allowed_lem m h = (ground arith, ground arith)

module _ (env : Environment) (ctx : LoadedSendContext) (aid : ℕ) where
  -- The row that a task works on.
  abbrev pub Row : Db → Message → Type 0
  Row db m = message_row db ctx.workspace_id ctx.message_id ≡ some m

  store_lem :
      (f : Finalization) (w : World) (m : Message)
      → Row w.work m
      → (store env ctx aid f w).0 ≡ ok tt
      → (((store env ctx aid f w).1).work.messages ctx.message_id ≡ some (finalized_message m f))
        × (message_allowed (finalized_message m f) ≡ true)
  unfolding store write_or
  store_lem f w m row h =
      elim (Option-cases (finalize_attempt_result w.work ctx.workspace_id ctx.message_id aid f)) [
        | inl e ↦ absurd (ground arith)
        | inr (after, e) ↦
            rw e (finalized_lem w.work after ctx.workspace_id ctx.message_id aid f m row e)
      ]

  -- A branch of the finalization: the result is stored and audited.
  settle-Recorded :
      (f : Finalization) (action : AuditAction) (made o : SendOutcome) (w : World) (m : Message)
      → Row w.work m
      → f.message_status ≡ status_of made.outcome
      → (settle env ctx aid f action made w).0 ≡ ok o
      → Recorded o ctx.message_id ((settle env ctx aid f action made w).1).work.messages
  unfolding settle audit record_audit_event finalized_message
  settle-Recorded f action made o w m row s h =
      let (stored, allowed) = store_lem f w m row (ground arith) in
      let (budget, accepted) = allowed_lem (finalized_message m f) allowed in
      let same : made ≡ o = ground arith in
      record {
        message = finalized_message m f;
        stored = ground arith;
        status = s ∙ ap (λ (p : SendOutcome). status_of p.outcome) same;
        in_budget = budget;
        accepted = accepted;
      }

  -- The state of the messages after a finalization that reports `o`.
  abbrev pub RecordedAfter : M SendOutcome → World → SendOutcome → Type 0
  RecordedAfter k w o = (k w).0 ≡ ok o → Recorded o ctx.message_id (k w).1.work.messages

  accepted_lem :
      (r : ProviderSendResult) (rfc : Option Text) (w : World) (m : Message) (o : SendOutcome)
      → Row w.work m
      → RecordedAfter (finalize_accepted env ctx aid r rfc) w o
  unfolding finalize_accepted status_of
  accepted_lem r rfc w m o row h = settle-Recorded _ message_sent _ o w m row refl h

  unknown_lem :
      (r : ProviderSendResult) (rfc : Option Text) (w : World) (m : Message) (o : SendOutcome)
      → Row w.work m
      → RecordedAfter (finalize_unknown env ctx aid r rfc) w o
  unfolding finalize_unknown status_of
  unknown_lem r rfc w m o row h = settle-Recorded _ ambiguous_outcome _ o w m row refl h

  mailbox_kept :
      (db : Db) (m : Message) (c : ConnectionState) (hs : HealthState) (g : Option ℕ) (n : ℕ)
      → Row db m
      → Row (update_mailbox_connection_state db ctx.workspace_id ctx.mailbox_id c hs g n) m
  unfolding message_row update_mailbox_connection_state put_mailbox
  mailbox_kept db m c hs g n row = ground arith

  blocked_kept :
      (db : Db) (m : Message) (until : ℕ)
      → Row db m
      → Row (update_mailbox_blocked_until db ctx.workspace_id ctx.mailbox_id until) m
  unfolding message_row update_mailbox_blocked_until put_mailbox
  blocked_kept db m until row = ground arith

  auth_lem :
      (r : ProviderSendResult) (w : World) (m : Message) (o : SendOutcome)
      → Row w.work m
      → RecordedAfter (finalize_auth_failure env ctx aid r) w o
  unfolding finalize_auth_failure status_of
  auth_lem r w m o row h =
      settle-Recorded _ held_for_reauth _ o _ m
        (mailbox_kept w.work m reconnect_required degraded none
          ctx.mailbox_current_connection_generation row)
        refl h

  decision_lem :
      (r : ProviderSendResult) (d : Option RetryDecision) (w : World) (m : Message)
      (o : SendOutcome)
      → Row w.work m
      → RecordedAfter (finalize_decision env ctx aid r d) w o
  unfolding finalize_decision status_of
  decision_lem r none w m o row h = absurd (cc)
  decision_lem r (some d) w m o row h = elim (Bool-cases d.should_retry) [
    | inl again ↦ rw again (settle-Recorded _ retry_was_scheduled _ o w m row refl (rw again at h))
    | inr over ↦ rw over (settle-Recorded _ message_failed _ o w m row refl (rw over at h))
  ]

  limited_lem :
      (r : ProviderSendResult) (limited : Bool) (w : World) (m : Message) (o : SendOutcome)
      → Row w.work m
      → RecordedAfter (limit_and_decide env ctx aid r limited) w o
  unfolding limit_and_decide
  limited_lem r false w m o row h =
      decision_lem r (classify_and_decide (retry_input env ctx aid r)) w m o row h
  limited_lem r true w m o row h =
      decision_lem r (classify_and_decide (retry_input env ctx aid r)) _ m o
        (blocked_kept w.work m (env.final_clock + cooldown r.retry_after) row) h

  rejected_lem :
      (r : ProviderSendResult) (w : World) (m : Message) (o : SendOutcome)
      → Row w.work m
      → RecordedAfter (finalize_rejected env ctx aid r) w o
  unfolding finalize_rejected
  rejected_lem r w m o row h = elim (Bool-cases (is_auth_failure r.error_category)) [
    | inl auth ↦ rw auth (auth_lem r w m o row (rw auth at h))
    | inr no_auth ↦
        rw no_auth (limited_lem r (is_rate_limit r.error_category) w m o row (rw no_auth at h))
  ]

  status_lem :
      (s : SendStatus) (r : ProviderSendResult) (rfc : Option Text) (w : World) (m : Message)
      (o : SendOutcome)
      → Row w.work m
      → RecordedAfter (by_status env ctx aid s r rfc) w o
  unfolding by_status
  status_lem SendStatus.accepted r rfc w m o row h = accepted_lem r rfc w m o row h
  status_lem SendStatus.unknown r rfc w m o row h = unknown_lem r rfc w m o row h
  status_lem definitively_rejected r rfc w m o row h = rejected_lem r w m o row h

  pub finalize_lem :
      (r : ProviderSendResult) (rfc : Text) (w : World) (m : Message) (o : SendOutcome)
      → Row w.work m
      → RecordedAfter (finalize_send_result env ctx aid r rfc) w o
  unfolding finalize_send_result
  finalize_lem r rfc w m o row h =
      status_lem r.status r (or_text r.rfc_message_id (some rfc)) w m o row h
