-- ===== src/Sending/Context.antt =====
-- The rows and states that a send decision reads: `LoadedSendContext` and `SendOutcome` of
-- backend/app/modules/sending/schemas.py. Identifiers are natural numbers, texts are code points,
-- and the states are those of the CHECK constraints in supabase/migrations.
use email_outreach_platform.Base.{ℕ, Bool, Option, List, Text}

pub data MessageStatus : Type 0 where
  planned scheduled queued sending retry_scheduled : MessageStatus
  unknown_outcome sent failed skipped cancelled : MessageStatus

pub data Purpose : Type 0 where
  campaign controlled_test : Purpose

pub data CampaignStatus : Type 0 where
  draft scheduled running paused error completed archived : CampaignStatus

pub data PlanningStatus : Type 0 where
  pending ready : PlanningStatus

pub data EnrollmentState : Type 0 where
  active completed stopped failed : EnrollmentState

-- The mailbox's provider; `other` is a text outside the three.
pub data Provider : Type 0 where
  gmail microsoft smtp : Provider
  other : Text → Provider

pub data ConnectionState : Type 0 where
  connecting connected reconnect_required disconnected : ConnectionState

pub data HealthState : Type 0 where
  unknown healthy degraded : HealthState

pub data PolicyState : Type 0 where
  enabled restricted : PolicyState

pub data CircuitState : Type 0 where
  closed open_circuit half_open : CircuitState

-- The keys of `raw` that the service reads: the SELECT of `load_message_for_send` has `step_id`
-- among its columns and no `anchor_at`.
pub record RawRow : Type 0 where
  pub step_id : Option ℕ
  pub anchor_at : Option ℕ

pub record LoadedSendContext : Type 0 where
  pub message_id : ℕ
  pub workspace_id : ℕ
  pub purpose : Purpose
  pub campaign_id : Option ℕ
  pub enrollment_id : Option ℕ
  pub mailbox_id : ℕ
  pub address_id : ℕ
  pub message_status : MessageStatus
  pub dispatch_generation : ℕ
  pub message_version : ℕ
  pub retry_count : ℕ
  pub retry_budget : ℕ
  pub content_subject : Option Text
  pub content_body_html : Option Text
  pub content_digest : Option Text
  pub renderer_version : ℕ
  pub rendered_at : Option ℕ
  pub frozen_destination : Option Text
  pub frozen_sender_address : Option Text
  pub frozen_sender_name : Option Text
  pub rfc_message_id : Option Text
  pub campaign_status : Option CampaignStatus
  pub campaign_planning_status : Option PlanningStatus
  pub enrollment_state : Option EnrollmentState
  pub canonical_address : Text
  pub mailbox_workspace_id : ℕ
  pub mailbox_provider : Provider
  pub mailbox_provider_account_id : Option Text
  pub mailbox_connection_state : ConnectionState
  pub mailbox_health_state : HealthState
  pub mailbox_policy_state : PolicyState
  pub mailbox_policy_reason : Option Text
  pub mailbox_circuit_state : CircuitState
  pub mailbox_blocked_until : Option ℕ
  pub mailbox_current_connection_generation : ℕ
  pub mailbox_original_address : Text
  pub mailbox_sender_display_name : Option Text
  pub raw : RawRow
  pub mailbox_pending_safety_count : ℕ

-- The tables that the suppression and reply checks query.
pub record Suppression : Type 0 where
  pub workspace_id : ℕ
  pub address_id : ℕ
  pub is_active : Bool

pub record PlatformSuppression : Type 0 where
  pub canonical_address : Text
  pub normalization_version : ℕ
  pub is_active : Bool

pub data OutcomeKind : Type 0 where
  replied unsubscribed hard_bounce complaint : OutcomeKind

pub record RecipientOutcome : Type 0 where
  pub workspace_id : ℕ
  pub enrollment_id : ℕ
  pub kind : OutcomeKind

pub record SafetyTables : Type 0 where
  pub suppressions : List Suppression
  pub platform_suppressions : List PlatformSuppression
  pub recipient_outcomes : List RecipientOutcome
