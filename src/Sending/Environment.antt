-- ===== src/Sending/Environment.antt =====
-- What the send service is given: the task's payload, the settings, the clocks, and the answers of the
-- other systems. The limiter, the providers, storage and the cipher are arguments; so are the
-- compliance footer and the tracking pixel, which only build the outgoing text.
use email_outreach_platform.Base.{ℕ, Bool, Option, List, Text}
use email_outreach_platform.Sending.Context.{Provider, LoadedSendContext, SafetyTables}
use email_outreach_platform.Sending.RetryPolicy.{CategoryText}
use email_outreach_platform.Sending.Gates.{GateReason}
use email_outreach_platform.Sending.Session.{AbortReason}
use email_outreach_platform.Sending.Store.{ErrorCode, Connection}

pub record SendTaskPayload : Type 0 where
  pub workspace_id : ℕ
  pub message_id : ℕ
  pub dispatch_generation : ℕ

-- backend/app/modules/rate_limit/schemas.py
pub data RateScopeKind : Type 0 where
  platform provider provider_account workspace campaign mailbox : RateScopeKind

pub record RatePolicySpec : Type 0 where
  pub kind : RateScopeKind
  pub source_id : ℕ
  pub window_seconds : ℕ
  pub limit_value : ℕ

pub record RateReservation : Type 0 where
  pub reservation_id : ℕ
  pub generation : ℕ

-- The limiter's answers; `unavailable` covers RateLimitUnavailable and RateLimitGenerationStale.
pub data GenerationReply : Type 0 where
  unavailable : GenerationReply
  current : Option ℕ → GenerationReply

pub data ReserveReply : Type 0 where
  unavailable : ReserveReply
  denied : Option ℕ → ReserveReply
  granted : RateReservation → ReserveReply

-- The durable row of rate_control.
pub record RateControl : Type 0 where
  pub is_ready : Bool
  pub generation : ℕ

abbrev pub Credential : Type 0
Credential = List (Text × Text)

pub record TokenRefreshResult : Type 0 where
  pub access_token : Text
  pub refresh_token : Option Text
  pub token_type : Text
  pub expires_in : ℕ

pub record AttachmentRow : Type 0 where
  pub storage_key : Text
  pub filename : Text
  pub content_type : Text
  pub size_bytes : ℕ
  pub sha256 : Text
  pub is_inline : Bool
  pub content_id : Option Text

pub record EnvelopeAttachment : Type 0 where
  pub filename : Text
  pub content_type : Text
  pub content : List ℕ
  pub content_id : Option Text

pub data Download : Type 0 where
  bytes : List ℕ → Download
  object_missing storage_down storage_error : Download

-- `_compose_outbound`: HTML body, plain text and extra headers.
pub record Composed : Type 0 where
  pub body_html : Text
  pub body_text : Option Text
  pub extra_headers : List (Text × Text)

pub record OutboundMessageEnvelope : Type 0 where
  pub to_address : Text
  pub from_address : Text
  pub from_name : Option Text
  pub subject : Text
  pub content : Composed
  pub rfc_message_id : Text
  pub attachments : List EnvelopeAttachment

pub data SendStatus : Type 0 where
  accepted definitively_rejected unknown : SendStatus

pub record ProviderSendResult : Type 0 where
  pub status : SendStatus
  pub provider_message_id : Option Text
  pub provider_thread_id : Option Text
  pub rfc_message_id : Option Text
  pub error_category : Option CategoryText
  pub error_code : Option ErrorCode
  pub retry_after : Option ℕ

-- `send_message` returns, or an exception escapes the adapter.
pub data SendReply : Type 0 where
  returned : ProviderSendResult → SendReply
  escaped : SendReply

pub record Environment : Type 0 where
  -- hashlib over a text's UTF-8 bytes and over a file's bytes
  pub sha256_hex : Text → Text
  pub sha256_file : List ℕ → Text
  -- does another worker hold the message row at the first and at the second load?
  pub is_locked : Bool
  pub is_locked_later : Bool
  -- the suppression and reply tables as the first and the second run of the gates read them
  pub safety : SafetyTables
  pub safety_later : SafetyTables
  -- datetime.now at the gates, at a hand-back, at authorization, at a refresh and at the end
  pub gate_clock : ℕ
  pub gate_clock_later : ℕ
  pub hand_back_clock : ℕ
  pub authorization_clock : ℕ
  pub refresh_clock : ℕ
  pub final_clock : ℕ
  pub unsubscribe_ready : Bool
  pub policies : List RatePolicySpec
  pub current_generation : GenerationReply
  pub reserve : List RatePolicySpec → ℕ → ReserveReply
  pub deferral_random : ℕ
  pub rate_control : Option RateControl
  -- uuid4 for the attempt
  pub attempt_id : ℕ
  pub decrypt : Connection → Option Credential
  pub encrypt : Credential → Text
  pub can_refresh : Provider → Bool
  pub refresh_token : Text → Option TokenRefreshResult
  pub step_attachments : ℕ → List AttachmentRow
  pub download : Text → Download
  pub generate_message_id : Text → Text
  pub compose_outbound : LoadedSendContext → Composed
  pub send_message : Credential → OutboundMessageEnvelope → SendReply
  -- the random factor of the backoff, in millionths
  pub jitter : ℕ
  -- does the final commit succeed, at each of its three tries?
  pub final_commits : Bool × Bool × Bool

-- The outcomes of SendOutcome.
pub data OutcomeName : Type 0 where
  sent_outcome failed_outcome unknown_outcome_outcome retry_outcome : OutcomeName
  skipped_outcome deferred_outcome noop_outcome : OutcomeName

pub data OutcomeReason : Type 0 where
  locked message_not_found unsubscribe_not_configured mailbox_limits_missing : OutcomeReason
  limiter_unavailable limiter_denied already_claimed : OutcomeReason
  of_gate : GateReason → OutcomeReason
  of_abort : AbortReason → OutcomeReason
  of_category : CategoryText → OutcomeReason

pub record SendOutcome : Type 0 where
  pub message_id : ℕ
  pub outcome : OutcomeName
  pub reason : Option OutcomeReason
  pub attempt_id : Option ℕ
  pub provider_message_id : Option Text
