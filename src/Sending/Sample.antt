-- ===== src/Sending/Sample.antt =====
-- A campaign message that is ready to go, and an environment in which it goes.
use email_outreach_platform.Base.{
  ◌*◌, true, false, none, some, [], ◌∷◌, ◌==◌, if◌then◌else◌, second, codes, text_eq, is_present,
  contains, is_space,
}
use email_outreach_platform.Sending.Context.{
  MessageStatus, queued, campaign, running, ready, active, gmail, connected, healthy, enabled,
  closed, SafetyTables,
}
use email_outreach_platform.Sending.Gates.{
  is_resolved, is_proceed_eligible, check_dispatch_generation, check_message_state, is_campaign,
  is_running, is_ready, check_campaign_state, is_active_enrollment, check_enrollment_state,
  has_reply, check_reply_outcome, is_address_suppressed, is_platform_suppressed, check_suppression,
  check_safety_holds, is_connected, is_enabled, is_degraded, is_open, is_blocked,
  check_mailbox_state, check_mailbox_ownership, is_valid_provider, check_provider_match, shown,
  digest_input, recipient_rejected, check_recipient, expected_content_digest,
  check_snapshot_integrity, run_pre_authorization_gates,
}
use email_outreach_platform.Sending.RetryPolicy.{
  ErrorCategory, known, raw_backoff, backoff, classify_and_decide,
}
use email_outreach_platform.Sending.Store.{
  Message, Mailbox, Connection, Db, message_row, mailbox_row, put_message, put_mailbox,
}
use email_outreach_platform.Sending.Repository.{
  context_of, load_message_for_send, category_allowed, message_allowed,
}
use email_outreach_platform.Sending.Repository.Writes.{
  skip_message, defer_for_capacity, has_unresolved, insert_prepared_attempt, next_attempt_ordinal,
  insert_capacity_debit, transition_message_to_sending, finalized_message, finalize_attempt_result,
  update_mailbox_connection_state, update_mailbox_blocked_until, get_mailbox_connection,
  insert_mailbox_connection, record_audit_event,
}
use email_outreach_platform.Sending.Session.{Result, World, write_or, write_maybe}
use email_outreach_platform.Sending.Deferral.{deferral_delay}
use email_outreach_platform.Sending.Environment.{
  SendTaskPayload, campaign, mailbox, RatePolicySpec, current, granted, object_missing, SendStatus,
  definitively_rejected, ProviderSendResult, returned, Environment, SendOutcome,
}
use email_outreach_platform.Sending.Service.Helpers.{audit, hand_back, skip}
use email_outreach_platform.Sending.Service.Finalize.{
  settle, finalize_accepted, finalize_unknown, finalize_auth_failure, finalize_decision,
  limit_and_decide, finalize_rejected, by_status, finalize_send_result, finalize_not_invoked,
}
use email_outreach_platform.Sending.Service.Credentials.{
  lookup, put, overlay, load_and_refresh_credential,
}
use email_outreach_platform.Sending.Service.Attachments.{load_rows, load_attachments}
use email_outreach_platform.Sending.Service.Delivery.{
  message_header, envelope_of, not_sent, commit_with_retry, send, deliver, with_attachments,
  with_credential, invoke_provider_and_finalize,
}
use email_outreach_platform.Sending.Service.Authorization.{
  has_mailbox_volume_cap, prepared_attempt, debit_of, claim, gated_claim, claim_loaded,
  rate_control_agrees, run_authorization_transaction, after_authorization, with_reservation,
  reserve_with, authorize_and_send,
}
use email_outreach_platform.Sending.Service.Execute.{
  handling_of, handle_rejection, send_gated, execute_loaded, execute,
}
use email_outreach_platform.Sending.Service.Safety.{session}
use email_outreach_platform.Sending.Gates.Email.{
  is_plain, ends_plain, domain_rest, domain, local_rest, is_email,
}

abbrev pub sample_message : Message
sample_message = record {
  workspace_id = 1;
  purpose = campaign;
  campaign_id = some 10;
  enrollment_id = some 20;
  mailbox_id = 30;
  address_id = 40;
  step_id = some 50;
  schedule_generation = 1;
  controlled_send_authorization_id = none;
  status = queued;
  dispatch_origin = some MessageStatus.scheduled;
  dispatch_generation = 1;
  claim_expires_at = some (900 * second);
  version = 4;
  retry_count = 0;
  retry_budget = 3;
  next_retry_at = none;
  due_at = some (100 * second);
  accepted_at = none;
  content_subject = some (codes "Hello");
  content_body_html = some (codes "<p>Hi</p>");
  content_digest = some (codes "d1");
  renderer_version = 1;
  rendered_at = some (50 * second);
  frozen_destination = some (codes "ann@example.org");
  frozen_sender_address = some (codes "bob@example.com");
  frozen_sender_name = none;
  rfc_message_id = none;
  provider_message_id = none;
  terminal_reason = none;
  hold_reason = none;
}

abbrev pub sample_mailbox : Mailbox
sample_mailbox = record {
  workspace_id = 1;
  provider = gmail;
  provider_account_id = none;
  connection_state = connected;
  health_state = healthy;
  policy_state = enabled;
  policy_reason = none;
  circuit_state = closed;
  blocked_until = none;
  connected_generation = some 2;
  current_connection_generation = 2;
  original_address = codes "bob@example.com";
  sender_display_name = none;
  pending_safety_count = 0;
}

abbrev pub sample_connection : Connection
sample_connection = record {
  workspace_id = 1;
  mailbox_id = 30;
  generation = 2;
  credential = some (codes "cipher");
  protected_config = [];
  expires_at = some (500 * second);
  is_destroyed = false;
}

abbrev pub sample_db : Db
sample_db = record {
  messages = λ id. if id == 7 then some sample_message else none;
  campaigns = λ id.
      if id == 10
      then some (record {
        workspace_id = 1;
        status = running;
        planning_status = ready;
        schedule_generation = 1;
      })
      else none;
  enrollments = λ id. if id == 20 then some (record { workspace_id = 1; state = active }) else none;
  mailboxes = λ id. if id == 30 then some sample_mailbox else none;
  addresses = λ id.
      if id == 40
      then some (record { workspace_id = 1; canonical_address = codes "ann@example.org" })
      else none;
  connections = sample_connection ∷ [];
  attempts = [];
  debits = [];
  audits = [];
}

abbrev pub no_tables : SafetyTables
no_tables = record { suppressions = []; platform_suppressions = []; recipient_outcomes = [] }

abbrev pub daily_cap : RatePolicySpec
daily_cap = record { kind = mailbox; source_id = 3; window_seconds = 86400; limit_value = 50 }

abbrev pub accepted_result : ProviderSendResult
accepted_result = record {
  status = SendStatus.accepted;
  provider_message_id = some (codes "g1");
  provider_thread_id = none;
  rfc_message_id = none;
  error_category = none;
  error_code = none;
  retry_after = none;
}

abbrev pub rejected_result : ErrorCategory → ProviderSendResult
rejected_result c = record accepted_result {
  status = definitively_rejected;
  provider_message_id = none;
  error_category = some (known c);
}

abbrev pub sample_env : Environment
sample_env = record {
  sha256_hex = λ t. codes "d1";
  sha256_file = λ content. codes "f1";
  is_locked = false;
  is_locked_later = false;
  safety = no_tables;
  safety_later = no_tables;
  gate_clock = 200 * second;
  gate_clock_later = 201 * second;
  hand_back_clock = 202 * second;
  authorization_clock = 203 * second;
  refresh_clock = 204 * second;
  final_clock = 205 * second;
  unsubscribe_ready = true;
  policies = daily_cap ∷ [];
  current_generation = current (some 9);
  reserve =
      λ policies generation. granted (record { reservation_id = 77; generation = generation });
  deferral_random = 0;
  rate_control = some (record { is_ready = true; generation = 9 });
  attempt_id = 60;
  decrypt = λ conn. some ((codes "refresh_token", codes "r1") ∷ []);
  encrypt = λ c. codes "cipher2";
  can_refresh = λ p. true;
  refresh_token = λ t. some (record {
    access_token = codes "a2";
    refresh_token = none;
    token_type = codes "Bearer";
    expires_in = 3600;
  });
  step_attachments = λ step. [];
  download = λ key. object_missing;
  generate_message_id = λ a. codes "<m1@example.com>";
  compose_outbound = λ ctx. record { body_html = []; body_text = none; extra_headers = [] };
  send_message = λ c e. returned accepted_result;
  jitter = 1000000;
  final_commits = (true, true, true);
}

abbrev pub sample_payload : SendTaskPayload
sample_payload = record { workspace_id = 1; message_id = 7; dispatch_generation = 1 }

-- A run of the service on given tables, which computes.
unfoldable pub run : Environment → SendTaskPayload → Db → Result SendOutcome × World
unfolding execute execute_loaded send_gated handle_rejection handling_of skip load_message_for_send
    context_of message_row mailbox_row put_message put_mailbox run_pre_authorization_gates
    check_dispatch_generation check_message_state check_campaign_state check_enrollment_state
    check_suppression is_address_suppressed is_platform_suppressed check_reply_outcome has_reply
    check_safety_holds check_mailbox_state check_mailbox_ownership check_provider_match
    check_snapshot_integrity expected_content_digest digest_input shown check_recipient
    recipient_rejected is_email local_rest domain domain_rest ends_plain is_plain is_space contains
    is_campaign is_running is_ready is_active_enrollment is_resolved is_proceed_eligible
    is_connected is_enabled is_degraded is_open is_blocked is_valid_provider is_present text_eq
    authorize_and_send has_mailbox_volume_cap with_reservation reserve_with
    run_authorization_transaction rate_control_agrees claim_loaded gated_claim claim
    prepared_attempt debit_of after_authorization next_attempt_ordinal insert_prepared_attempt
    has_unresolved insert_capacity_debit transition_message_to_sending write_or write_maybe audit
    hand_back record_audit_event defer_for_capacity skip_message deferral_delay
    invoke_provider_and_finalize with_credential with_attachments load_and_refresh_credential
    get_mailbox_connection lookup overlay put insert_mailbox_connection
    update_mailbox_connection_state update_mailbox_blocked_until load_attachments load_rows deliver
    send envelope_of message_header not_sent commit_with_retry finalize_send_result settle
    limit_and_decide by_status finalize_accepted finalize_unknown finalize_rejected
    finalize_auth_failure finalize_decision finalize_not_invoked finalize_attempt_result
    finalized_message message_allowed category_allowed classify_and_decide backoff raw_backoff
run env payload db = execute env payload (session db)
