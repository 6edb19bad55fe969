-- ===== src/Sending/Service/Finalize.antt =====
-- `_finalize_send_result` and `_finalize_not_invoked` of backend/app/modules/sending/service.py.
use email_outreach_platform.Base.{
  ℕ, ◌+◌, ◌*◌, Bool, true, false, Option, none, some, ltb, if◌then◌else◌, second, Text, is_present,
}
use email_outreach_platform.Sending.Context.{
  MessageStatus, retry_scheduled, unknown_outcome, sent, reconnect_required, degraded,
  LoadedSendContext,
}
use email_outreach_platform.Sending.RetryPolicy.{
  auth_failure, rate_limit, network_error, unknown_outcome, CategoryText, known, TerminalReason,
  RetryDecision, default_retry_horizon, RetryInput, classify_and_decide,
}
use email_outreach_platform.Sending.Store.{
  ErrorCode, mailbox_reauth_required, StoredReason, of_retry, of_code, send_rejected, EvidenceState,
  not_invoked, AuditAction, message_sent, ambiguous_outcome, held_for_reauth, retry_was_scheduled,
  message_failed, credential_failed,
}
use email_outreach_platform.Sending.Repository.Writes.{
  Finalization, finalize_attempt_result, update_mailbox_connection_state,
  update_mailbox_blocked_until,
}
use email_outreach_platform.Sending.Repository.{is_retry_scheduled}
use email_outreach_platform.Sending.Session.{
  CredentialFailure, integrity_error, value_error, M, ◌>>◌, pure, raise, write, write_or, when,
}
use email_outreach_platform.Sending.Environment.{
  SendStatus, definitively_rejected, ProviderSendResult, Environment, OutcomeName, sent_outcome,
  failed_outcome, unknown_outcome_outcome, retry_outcome, OutcomeReason, of_category, SendOutcome,
}
use email_outreach_platform.Sending.Service.Helpers.{audit}

-- Python's `a or b` of two optional texts.
unfoldable pub or_text : Option Text → Option Text → Option Text
or_text a b = if is_present a then a else b

unfoldable pub is_auth_failure : Option CategoryText → Bool
is_auth_failure (some (known auth_failure)) = true
is_auth_failure _ = false

unfoldable pub is_rate_limit : Option CategoryText → Bool
is_rate_limit (some (known rate_limit)) = true
is_rate_limit _ = false

-- The category that is stored for an ambiguous outcome.
unfoldable pub ambiguous_category : Option CategoryText → Option CategoryText
ambiguous_category (some (known unknown_outcome)) = some (known network_error)
ambiguous_category c = c

-- `anchor_at` of the row if it has one, else `rendered_at`.
unfoldable pub or_instant : Option ℕ → Option ℕ → Option ℕ
or_instant none b = b
or_instant (some a) b = some a

unfoldable pub cooldown : Option ℕ → ℕ
cooldown none = 60 * second
cooldown (some t) = if ltb 0 t then t else 60 * second

reason_of : Option CategoryText → Option OutcomeReason
reason_of none = none
reason_of (some c) = some (of_category c)

stored_reason : Option TerminalReason → StoredReason
stored_reason none = send_rejected
stored_reason (some r) = of_retry r

module _ (env : Environment) (ctx : LoadedSendContext) (attempt_id : ℕ) where
  unfoldable pub store : Finalization → M (Unit {0})
  store f =
      write_or (λ db. finalize_attempt_result db ctx.workspace_id ctx.message_id attempt_id f)
        integrity_error

  abbrev blank : MessageStatus → EvidenceState → Finalization
  blank status evidence = record {
    message_status = status;
    evidence_state = evidence;
    provider_message_id = none;
    provider_thread_id = none;
    provider_request_id = none;
    error_category = none;
    error_code = none;
    terminal_reason = none;
    hold_reason = none;
    retry_count = none;
    next_retry_at = none;
    due_at = none;
    rfc_message_id = none;
    timestamp = env.final_clock;
  }

  abbrev result_of : OutcomeName → Option OutcomeReason → Option Text → SendOutcome
  result_of name reason provider_id = record {
    message_id = ctx.message_id;
    outcome = name;
    reason = reason;
    attempt_id = some attempt_id;
    provider_message_id = provider_id;
  }

  -- The result is stored and audited, and the outcome returned.
  unfoldable pub settle : Finalization → AuditAction → SendOutcome → M SendOutcome
  unfolding store
  settle f action o = do store f; audit ctx action; pure o

  unfoldable pub finalize_accepted : ProviderSendResult → Option Text → M SendOutcome
  unfolding or_text
  finalize_accepted r rfc = do
    settle
        (record (blank sent EvidenceState.accepted) {
          provider_message_id = r.provider_message_id;
          provider_thread_id = r.provider_thread_id;
          provider_request_id = or_text (or_text ctx.rfc_message_id rfc) r.provider_message_id;
          rfc_message_id = rfc;
        })
        message_sent (result_of sent_outcome none r.provider_message_id)

  unfoldable pub finalize_unknown : ProviderSendResult → Option Text → M SendOutcome
  unfolding ambiguous_category reason_of
  finalize_unknown r rfc = do
    settle
        (record (blank MessageStatus.unknown_outcome EvidenceState.unknown) {
          error_category = ambiguous_category r.error_category;
          error_code = r.error_code;
          rfc_message_id = rfc;
        })
        ambiguous_outcome (result_of unknown_outcome_outcome (reason_of r.error_category) none)

  unfoldable pub finalize_auth_failure : ProviderSendResult → M SendOutcome
  finalize_auth_failure r = do
    write (λ db.
        update_mailbox_connection_state db ctx.workspace_id ctx.mailbox_id reconnect_required
          degraded none ctx.mailbox_current_connection_generation)
    settle
        (record (blank retry_scheduled EvidenceState.rejected) {
          error_category = some (known auth_failure);
          error_code = r.error_code;
          retry_count = some ctx.retry_count;
          next_retry_at = some (env.final_clock + 3600 * second);
          due_at = some (env.final_clock + 3600 * second);
          hold_reason = some mailbox_reauth_required;
        })
        held_for_reauth (result_of retry_outcome (some (of_category (known auth_failure))) none)

  -- The arguments of `classify_and_decide` for a rejected send.
  abbrev pub retry_input : ProviderSendResult → RetryInput
  retry_input r = record {
    error_category = r.error_category;
    is_retryable = none;
    retry_count = ctx.retry_count;
    retry_budget = ctx.retry_budget;
    now = env.final_clock;
    provider_retry_after = r.retry_after;
    anchor_at = or_instant ctx.raw.anchor_at ctx.rendered_at;
    retry_deadline = none;
    retry_horizon = some default_retry_horizon;
    jitter = env.jitter;
  }

  unfoldable pub finalize_decision : ProviderSendResult → Option RetryDecision → M SendOutcome
  unfolding reason_of stored_reason
  finalize_decision r none = raise value_error
  finalize_decision r (some d) =
      if d.should_retry
      then (do
        settle
            (record (blank retry_scheduled EvidenceState.rejected) {
              error_category = r.error_category;
              error_code = r.error_code;
              retry_count = some (ctx.retry_count + 1);
              next_retry_at = d.next_retry_at;
              due_at = d.next_retry_at;
            })
            retry_was_scheduled (result_of retry_outcome (reason_of r.error_category) none))
      else (do
        settle
            (record (blank MessageStatus.failed EvidenceState.rejected) {
              error_category = r.error_category;
              error_code = r.error_code;
              terminal_reason = some (stored_reason d.terminal_reason);
            })
            message_failed (result_of failed_outcome (reason_of r.error_category) none))

  -- A throttled mailbox rests for a while.
  unfoldable pub limit_and_decide : ProviderSendResult → Bool → M SendOutcome
  unfolding cooldown or_instant
  limit_and_decide r limited = do
    when limited (
        write (λ db.
          update_mailbox_blocked_until db ctx.workspace_id ctx.mailbox_id
            (env.final_clock + cooldown r.retry_after)))
    finalize_decision r (classify_and_decide (retry_input r))

  unfoldable pub finalize_rejected : ProviderSendResult → M SendOutcome
  unfolding is_auth_failure is_rate_limit
  finalize_rejected r =
      if is_auth_failure r.error_category
      then finalize_auth_failure r
      else limit_and_decide r (is_rate_limit r.error_category)

  unfoldable pub by_status : SendStatus → ProviderSendResult → Option Text → M SendOutcome
  by_status SendStatus.accepted r rfc = finalize_accepted r rfc
  by_status SendStatus.unknown r rfc = finalize_unknown r rfc
  by_status definitively_rejected r rfc = finalize_rejected r

  unfoldable pub finalize_send_result : ProviderSendResult → Text → M SendOutcome
  unfolding or_text
  finalize_send_result r envelope_rfc =
      by_status r.status r (or_text r.rfc_message_id (some envelope_rfc))

  abbrev hold_time : MessageStatus → Option ℕ
  hold_time status =
      if is_retry_scheduled status then some (env.final_clock + 3600 * second) else none

  abbrev failed_code : MessageStatus → ErrorCode → Option StoredReason
  failed_code MessageStatus.failed code = some (of_code code)
  failed_code _ code = none

  unfoldable pub finalize_not_invoked : CredentialFailure → M (Unit {0})
  unfolding store is_retry_scheduled
  finalize_not_invoked f = do
    store (record (blank f.message_status not_invoked) {
      error_category = some f.error_category;
      error_code = some f.error_code;
      terminal_reason = failed_code f.message_status f.error_code;
      hold_reason = f.hold_reason;
      due_at = hold_time f.message_status;
      next_retry_at = hold_time f.message_status;
    })
    audit ctx credential_failed
