-- ===== src/Sending/Service/Execute.antt =====
-- `SendingService.execute` of backend/app/modules/sending/service.py.
use email_outreach_platform.Base.{Bool, true, false, not, ◌&&◌, none, some, if◌then◌else◌}
use email_outreach_platform.Sending.Context.{LoadedSendContext}
use email_outreach_platform.Sending.Gates.{
  GateClass, message_already_resolved, stale_dispatch_generation, campaign_state_rejected,
  enrollment_state_rejected, safety_hold_rejected, mailbox_state_rejected, Rejection, Check,
  is_campaign, run_pre_authorization_gates,
}
use email_outreach_platform.Sending.Store.{send_deferred}
use email_outreach_platform.Sending.Repository.{Loaded, missing, found, load_message_for_send}
use email_outreach_platform.Sending.Session.{M, ◌>>=◌, ◌>>◌, pure, query, commit, rollback, when}
use email_outreach_platform.Sending.Environment.{
  SendTaskPayload, Environment, deferred_outcome, noop_outcome, OutcomeReason,
  unsubscribe_not_configured, SendOutcome,
}
use email_outreach_platform.Sending.Service.Helpers.{audit, outcome_of, hand_back, skip}
use email_outreach_platform.Sending.Service.Authorization.{safety_hold_retry, authorize_and_send}

-- The three `except` clauses of the gates.
pub data Handling : Type 0 where
  no_operation deferral permanent : Handling

unfoldable pub handling_of : GateClass → Handling
handling_of message_already_resolved = no_operation
handling_of stale_dispatch_generation = no_operation
handling_of campaign_state_rejected = deferral
handling_of enrollment_state_rejected = deferral
handling_of mailbox_state_rejected = deferral
handling_of safety_hold_rejected = deferral
handling_of _ = permanent

is_safety_hold : GateClass → Bool
is_safety_hold safety_hold_rejected = true
is_safety_hold _ = false

module _ (env : Environment) (payload : SendTaskPayload) where
  abbrev noop : OutcomeReason → SendOutcome
  noop reason = record {
    message_id = payload.message_id;
    outcome = noop_outcome;
    reason = some reason;
    attempt_id = none;
    provider_message_id = none;
  }

  unfoldable pub handle_rejection : LoadedSendContext → Rejection → Handling → M SendOutcome
  unfolding is_safety_hold
  handle_rejection ctx r no_operation = do
    rollback
    pure (outcome_of ctx noop_outcome (some (OutcomeReason.of_gate r.terminal_reason)))
  handle_rejection ctx r deferral = do
    audit ctx send_deferred
    when (is_safety_hold r.class) (hand_back env ctx safety_hold_retry)
    commit
    pure (outcome_of ctx deferred_outcome (some (OutcomeReason.of_gate r.terminal_reason)))
  handle_rejection ctx r permanent = skip ctx r.terminal_reason

  -- After the gates: an email of a campaign needs a working opt-out.
  unfoldable pub send_gated : LoadedSendContext → Check → M SendOutcome
  send_gated ctx (some r) = handle_rejection ctx r (handling_of r.class)
  send_gated ctx none =
      if is_campaign ctx.purpose && not env.unsubscribe_ready
      then (do
        audit ctx send_deferred
        hand_back env ctx safety_hold_retry
        commit
        pure (outcome_of ctx deferred_outcome (some unsubscribe_not_configured)))
      else authorize_and_send env payload ctx

  unfoldable pub execute_loaded : Loaded → M SendOutcome
  unfolding send_gated
  execute_loaded Loaded.locked = do rollback; pure (noop OutcomeReason.locked)
  execute_loaded missing = do rollback; pure (noop OutcomeReason.message_not_found)
  execute_loaded (found ctx) = send_gated ctx (
      run_pre_authorization_gates env.sha256_hex env.safety ctx payload.dispatch_generation
        env.gate_clock)

  unfoldable pub execute : M SendOutcome
  execute = do
    loaded ←
        query (λ db. load_message_for_send env.is_locked db payload.workspace_id payload.message_id)
    execute_loaded loaded
