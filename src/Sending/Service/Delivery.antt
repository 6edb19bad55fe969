-- ===== src/Sending/Service/Delivery.antt =====
-- `_invoke_provider_and_finalize` of backend/app/modules/sending/service.py.
use email_outreach_platform.Base.{
  ℕ, Bool, true, false, none, some, List, [], ◌∷◌, if◌then◌else◌, get_or, Text, is_present,
}
use email_outreach_platform.Sending.Context.{MessageStatus, LoadedSendContext}
use email_outreach_platform.Sending.RetryPolicy.{network_error, known}
use email_outreach_platform.Sending.Store.{adapter_exception}
use email_outreach_platform.Sending.Session.{
  Failure, credential_failure, commit_error, Result, ok, err, Event, invoked, World, M, ◌>>=◌, ◌>>◌,
  pure, raise, attempt, commit, rollback,
}
use email_outreach_platform.Sending.Environment.{
  Credential, EnvelopeAttachment, OutboundMessageEnvelope, SendStatus, ProviderSendResult,
  SendReply, returned, escaped, Environment, OutcomeName, failed_outcome, retry_outcome,
  of_category, SendOutcome,
}
use email_outreach_platform.Sending.Service.Finalize.{finalize_send_result, finalize_not_invoked}
use email_outreach_platform.Sending.Service.Credentials.{load_and_refresh_credential}
use email_outreach_platform.Sending.Service.Attachments.{load_attachments}

-- What an exception that escapes the adapter counts as.
abbrev pub ambiguous_result : ProviderSendResult
ambiguous_result = record {
  status = SendStatus.unknown;
  provider_message_id = none;
  provider_thread_id = none;
  rfc_message_id = none;
  error_category = some (known network_error);
  error_code = some adapter_exception;
  retry_after = none;
}

unfoldable pub result_of_reply : SendReply → ProviderSendResult
result_of_reply (returned r) = r
result_of_reply escaped = ambiguous_result

outcome_name : MessageStatus → OutcomeName
outcome_name MessageStatus.failed = failed_outcome
outcome_name _ = retry_outcome

module _ (env : Environment) (ctx : LoadedSendContext) (attempt_id : ℕ) where
  from_address : Text
  from_address =
      if is_present ctx.frozen_sender_address
      then get_or [] ctx.frozen_sender_address
      else ctx.mailbox_original_address

  unfoldable pub message_header : Text
  unfolding from_address
  message_header =
      if is_present ctx.rfc_message_id
      then get_or [] ctx.rfc_message_id
      else env.generate_message_id from_address

  unfoldable pub envelope_of : List EnvelopeAttachment → OutboundMessageEnvelope
  unfolding from_address message_header
  envelope_of attachments = record {
    to_address = get_or [] ctx.frozen_destination;
    from_address = from_address;
    from_name =
        if is_present ctx.frozen_sender_name
        then ctx.frozen_sender_name
        else ctx.mailbox_sender_display_name;
    subject = get_or [] ctx.content_subject;
    content = env.compose_outbound ctx;
    rfc_message_id = message_header;
    attachments = attachments;
  }

  -- The provider was not called: the failure is stored and committed.
  unfoldable pub not_sent : Failure → M SendOutcome
  unfolding outcome_name
  not_sent (credential_failure f) = do
    finalize_not_invoked env ctx attempt_id f
    commit
    pure (record {
      message_id = ctx.message_id;
      outcome = outcome_name f.message_status;
      reason = some (of_category f.error_category);
      attempt_id = some attempt_id;
      provider_message_id = none;
    })
  not_sent e = raise e

  -- One try of the final commit; after a failed one the result is written again.
  unfoldable pub commit_or_retry : Bool → ProviderSendResult → M (Unit {0}) → M (Unit {0})
  commit_or_retry true r next = commit
  commit_or_retry false r next = do rollback; next

  unfoldable pub commit_with_retry : ProviderSendResult → M (Unit {0})
  unfolding commit_or_retry
  commit_with_retry r = commit_or_retry env.final_commits.0 r (do
    _ ← finalize_send_result env ctx attempt_id r message_header
    commit_or_retry env.final_commits.1 r (do
      _ ← finalize_send_result env ctx attempt_id r message_header
      commit_or_retry env.final_commits.2 r (raise commit_error)))

  invocation : World → Event
  invocation w = invoked (record {
    committed = w.db;
    in_transaction = w.is_open;
    message_id = ctx.message_id;
    attempt_id = attempt_id;
  })

  -- `provider.send_message`, recorded with the state in which it is called.
  unfoldable pub send : Credential → OutboundMessageEnvelope → M ProviderSendResult
  unfolding invocation result_of_reply
  send credential envelope w = (
    ok (result_of_reply (env.send_message credential envelope)),
    record w { events = invocation w ∷ w.events },
  )

  unfoldable pub deliver : Credential → List EnvelopeAttachment → M SendOutcome
  unfolding envelope_of
  deliver credential attachments = do
    r ← send credential (envelope_of attachments)
    outcome ← finalize_send_result env ctx attempt_id r message_header
    commit_with_retry r
    pure outcome

  unfoldable pub with_attachments : Credential → Result (List EnvelopeAttachment) → M SendOutcome
  with_attachments credential (err e) = not_sent e
  with_attachments credential (ok attachments) = deliver credential attachments

  unfoldable pub with_credential : Result (Credential × ℕ) → M SendOutcome
  unfolding with_attachments
  with_credential (err e) = not_sent e
  with_credential (ok (credential, generation)) = do
    attachments ← attempt (load_attachments env ctx)
    with_attachments credential attachments

  unfoldable pub invoke_provider_and_finalize : ℕ → M SendOutcome
  unfolding with_credential
  invoke_provider_and_finalize credential_generation = do
    credential ← attempt (load_and_refresh_credential env ctx credential_generation)
    with_credential credential
