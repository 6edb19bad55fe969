-- ===== src/Sending/Gates.antt =====
-- backend/app/modules/sending/gates.py and backend/app/modules/suppression/checks.py: the checks
-- before a send. A gate returns the rejection that it raises, or `none` when it passes. The message
-- texts of the exceptions, logging and metrics are left out; `sha256_hex` stands for hashlib's
-- digest of the UTF-8 text, as hexadecimal digits.
pub mod Email
pub mod Address
pub mod Conditions
pub mod Sendable
use email_outreach_platform.Base.{
  ℕ, Bool, true, false, not, ◌&&◌, ◌||◌, Option, none, some, List, [], ◌∷◌, ◌++◌, ltb, ◌==◌,
  if◌then◌else◌, is_some, get_or, Text, codes, text_eq, is_present, contains, decimal,
}
use email_outreach_platform.Sending.Context.{
  MessageStatus, queued, sending, unknown_outcome, sent, failed, skipped, cancelled, Purpose,
  campaign, controlled_test, CampaignStatus, running, PlanningStatus, ready, EnrollmentState,
  active, Provider, other, ConnectionState, connected, HealthState, degraded, PolicyState, enabled,
  restricted, CircuitState, open_circuit, LoadedSendContext, Suppression, PlatformSuppression,
  OutcomeKind, replied, RecipientOutcome, SafetyTables,
}
use Email.{is_email}

-- The subclasses of `SendGateRejected`.
pub data GateClass : Type 0 where
  message_already_resolved stale_dispatch_generation message_state_rejected : GateClass
  campaign_state_rejected enrollment_state_rejected recipient_replied_rejected : GateClass
  suppression_rejected safety_hold_rejected mailbox_state_rejected : GateClass
  mailbox_ownership_rejected provider_mismatch_rejected : GateClass
  snapshot_integrity_rejected recipient_validation_rejected : GateClass

-- The values of `terminal_reason`.
pub data GateReason : Type 0 where
  stale_generation already_resolved invalid_message_state campaign_not_running : GateReason
  enrollment_not_active recipient_replied suppressed safety_hold_active : GateReason
  mailbox_disconnected mailbox_restricted mailbox_degraded mailbox_circuit_open : GateReason
  mailbox_blocked cross_tenant_mailbox unsupported_provider missing_snapshot : GateReason
  snapshot_digest_mismatch invalid_recipient : GateReason

pub record Rejection : Type 0 where
  pub class : GateClass
  pub terminal_reason : GateReason

abbrev pub Check : Type 0
Check = Option Rejection

abbrev pub pass : Check
pass = none

abbrev pub raise_if : Bool → GateClass → GateReason → Check
raise_if b c r = if b then some (record { class = c; terminal_reason = r }) else none

-- The first rejection is the one that is raised.
infixl 10 ◌>>◌
abbrev pub ◌>>◌ : Check → Check → Check
none >> k = k
some r >> k = some r

-- `MESSAGE_RESOLVED_STATES`
unfoldable pub is_resolved : MessageStatus → Bool
is_resolved sent = true
is_resolved MessageStatus.failed = true
is_resolved skipped = true
is_resolved cancelled = true
is_resolved unknown_outcome = true
is_resolved _ = false

-- `MESSAGE_PROCEED_ELIGIBLE_STATES`
unfoldable pub is_proceed_eligible : MessageStatus → Bool
is_proceed_eligible queued = true
is_proceed_eligible sending = true
is_proceed_eligible _ = false

unfoldable pub check_dispatch_generation : LoadedSendContext → ℕ → Check
check_dispatch_generation ctx expected =
    raise_if (not (ctx.dispatch_generation == expected)) stale_dispatch_generation stale_generation

unfoldable pub check_message_state : LoadedSendContext → Check
unfolding is_resolved is_proceed_eligible
check_message_state ctx =
    raise_if (is_resolved ctx.message_status) message_already_resolved already_resolved
    >> raise_if (not (is_proceed_eligible ctx.message_status)) message_state_rejected
        invalid_message_state

unfoldable pub is_campaign : Purpose → Bool
is_campaign campaign = true
is_campaign controlled_test = false

unfoldable pub is_running : Option CampaignStatus → Bool
is_running (some running) = true
is_running _ = false

unfoldable pub is_ready : Option PlanningStatus → Bool
is_ready (some ready) = true
is_ready _ = false

unfoldable pub check_campaign_state : LoadedSendContext → Check
unfolding is_campaign is_running is_ready
check_campaign_state ctx =
    if not (is_campaign ctx.purpose)
    then pass
    else raise_if
        (not (is_running ctx.campaign_status) || not (is_ready ctx.campaign_planning_status))
        campaign_state_rejected campaign_not_running

unfoldable pub is_active_enrollment : Option EnrollmentState → Bool
is_active_enrollment (some active) = true
is_active_enrollment _ = false

unfoldable pub check_enrollment_state : LoadedSendContext → Check
unfolding is_campaign is_active_enrollment
check_enrollment_state ctx =
    if not (is_campaign ctx.purpose)
    then pass
    else raise_if (not (is_active_enrollment ctx.enrollment_state)) enrollment_state_rejected
        enrollment_not_active

unfoldable pub is_replied : OutcomeKind → Bool
is_replied replied = true
is_replied _ = false

-- The query on recipient_outcomes: is there a row that fits?
unfoldable pub has_reply : List RecipientOutcome → ℕ → ℕ → Bool
unfolding is_replied
has_reply [] ws eid = false
has_reply (o ∷ rows) ws eid =
    (o.workspace_id == ws && o.enrollment_id == eid && is_replied o.kind) || has_reply rows ws eid

reply_of : SafetyTables → ℕ → Option ℕ → Check
unfolding has_reply
reply_of tables ws none = pass
reply_of tables ws (some eid) =
    raise_if (has_reply tables.recipient_outcomes ws eid) recipient_replied_rejected
      recipient_replied

unfoldable pub check_reply_outcome : SafetyTables → LoadedSendContext → Check
unfolding is_campaign reply_of
check_reply_outcome tables ctx =
    if not (is_campaign ctx.purpose)
    then pass
    else reply_of tables ctx.workspace_id ctx.enrollment_id

unfoldable pub is_address_suppressed : List Suppression → ℕ → ℕ → Bool
is_address_suppressed [] ws aid = false
is_address_suppressed (s ∷ rows) ws aid =
    (s.workspace_id == ws && s.address_id == aid && s.is_active)
    || is_address_suppressed rows ws aid

unfoldable pub is_platform_suppressed : List PlatformSuppression → Text → Bool
is_platform_suppressed [] address = false
is_platform_suppressed (p ∷ rows) address =
    (text_eq p.canonical_address address && p.normalization_version == 1 && p.is_active)
    || is_platform_suppressed rows address

unfoldable pub check_suppression : SafetyTables → LoadedSendContext → Check
check_suppression tables ctx =
    raise_if (is_address_suppressed tables.suppressions ctx.workspace_id ctx.address_id)
      suppression_rejected suppressed
    >> raise_if (is_platform_suppressed tables.platform_suppressions ctx.canonical_address)
        suppression_rejected suppressed

unfoldable pub check_safety_holds : LoadedSendContext → Check
check_safety_holds ctx =
    raise_if (ltb 0 ctx.mailbox_pending_safety_count) safety_hold_rejected safety_hold_active

unfoldable pub is_connected : ConnectionState → Bool
is_connected connected = true
is_connected _ = false

unfoldable pub is_enabled : PolicyState → Bool
is_enabled enabled = true
is_enabled restricted = false

unfoldable pub is_degraded : HealthState → Bool
is_degraded degraded = true
is_degraded _ = false

unfoldable pub is_open : CircuitState → Bool
is_open open_circuit = true
is_open _ = false

unfoldable pub is_blocked : Option ℕ → ℕ → Bool
is_blocked none now = false
is_blocked (some blocked_until) now = ltb now blocked_until

unfoldable pub check_mailbox_state : LoadedSendContext → ℕ → Check
unfolding is_connected is_enabled is_degraded is_open is_blocked
check_mailbox_state ctx now =
    raise_if (not (is_connected ctx.mailbox_connection_state)) mailbox_state_rejected
      mailbox_disconnected
    >> raise_if (not (is_enabled ctx.mailbox_policy_state)) mailbox_state_rejected
        mailbox_restricted
    >> raise_if (is_degraded ctx.mailbox_health_state) mailbox_state_rejected mailbox_degraded
    >> raise_if (is_open ctx.mailbox_circuit_state) mailbox_state_rejected mailbox_circuit_open
    >> raise_if (is_blocked ctx.mailbox_blocked_until now) mailbox_state_rejected mailbox_blocked

unfoldable pub check_mailbox_ownership : LoadedSendContext → Check
check_mailbox_ownership ctx =
    raise_if (not (ctx.mailbox_workspace_id == ctx.workspace_id)) mailbox_ownership_rejected
      cross_tenant_mailbox

-- `_VALID_PROVIDERS`
unfoldable pub is_valid_provider : Provider → Bool
is_valid_provider (other name) = false
is_valid_provider _ = true

unfoldable pub check_provider_match : LoadedSendContext → Check
unfolding is_valid_provider
check_provider_match ctx =
    raise_if (not (is_valid_provider ctx.mailbox_provider)) provider_mismatch_rejected
      unsupported_provider

-- A missing text prints as `None` in the f-strings below.
unfoldable pub shown : Option Text → Text
shown none = codes "None"
shown (some t) = t

unfoldable pub digest_input : LoadedSendContext → Text
unfolding is_campaign shown
digest_input ctx =
    if is_campaign ctx.purpose
    then shown ctx.content_subject
      ++ (0 ∷ (shown ctx.content_body_html ++ (0 ∷ decimal ctx.renderer_version)))
    else shown ctx.content_subject ++ (10 ∷ shown ctx.content_body_html)

unfoldable pub recipient_rejected : Text → Bool
recipient_rejected destination =
    not (is_email destination) || (contains 13 destination || contains 10 destination)

unfoldable pub check_recipient : LoadedSendContext → Check
unfolding recipient_rejected
check_recipient ctx =
    raise_if (recipient_rejected (get_or [] ctx.frozen_destination)) recipient_validation_rejected
      invalid_recipient

module _ (sha256_hex : Text → Text) where
  unfoldable pub expected_content_digest : LoadedSendContext → Text
  unfolding digest_input
  expected_content_digest ctx = sha256_hex (digest_input ctx)

  unfoldable pub check_snapshot_integrity : LoadedSendContext → Check
  unfolding expected_content_digest
  check_snapshot_integrity ctx =
      raise_if
        (not (is_some ctx.rendered_at)
          || not (is_present ctx.content_subject)
          || not (is_present ctx.content_body_html)
          || not (is_present ctx.content_digest)
          || not (is_present ctx.frozen_destination)
          || not (is_present ctx.frozen_sender_address))
        snapshot_integrity_rejected missing_snapshot
      >> raise_if (not (text_eq (expected_content_digest ctx) (shown ctx.content_digest)))
          snapshot_integrity_rejected snapshot_digest_mismatch

  -- Every gate, in the documented order; `now` is the clock that `check_mailbox_state` reads.
  unfoldable pub run_pre_authorization_gates : SafetyTables → LoadedSendContext → ℕ → ℕ → Check
  run_pre_authorization_gates tables ctx expected_dispatch_generation now =
      check_dispatch_generation ctx expected_dispatch_generation
      >> check_message_state ctx
      >> check_campaign_state ctx
      >> check_enrollment_state ctx
      >> check_suppression tables ctx
      >> check_reply_outcome tables ctx
      >> check_safety_holds ctx
      >> check_mailbox_state ctx now
      >> check_mailbox_ownership ctx
      >> check_provider_match ctx
      >> check_snapshot_integrity ctx
      >> check_recipient ctx
