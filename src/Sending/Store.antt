-- ===== src/Sending/Store.antt =====
-- The tables that the send worker writes, as the queries of
-- backend/app/modules/sending/repository.py see them. A table with a primary key is a function from
-- the key; attempts, debits and audit events are lists, the newest first. Row-level security, roles
-- and the SQLite variant are left out.
use email_outreach_platform.Base.{ℕ, Bool, Option, none, some, List, ◌==◌, if◌then◌else◌, Text}
use email_outreach_platform.Sending.Context.{
  MessageStatus, Purpose, CampaignStatus, PlanningStatus, EnrollmentState, Provider,
  ConnectionState, HealthState, PolicyState, CircuitState,
}
use email_outreach_platform.Sending.Gates.{GateReason}
use email_outreach_platform.Sending.RetryPolicy.{CategoryText, TerminalReason}

-- Codes that the service writes itself, and those that a provider reports.
pub data ErrorCode : Type 0 where
  attachment_missing attachment_storage_unavailable attachment_unreadable : ErrorCode
  attachment_corrupt credentials_missing credential_decrypt_failed : ErrorCode
  refresh_token_unavailable refresh_failed adapter_exception execution_lease_expired : ErrorCode
  reported : Text → ErrorCode

pub data HoldReason : Type 0 where
  storage_unavailable mailbox_reauth_required : HoldReason

-- The texts of `terminal_reason` on a message.
pub data StoredReason : Type 0 where
  of_gate : GateReason → StoredReason
  of_retry : TerminalReason → StoredReason
  of_code : ErrorCode → StoredReason
  send_rejected : StoredReason

pub record Message : Type 0 where
  pub workspace_id : ℕ
  pub purpose : Purpose
  pub campaign_id : Option ℕ
  pub enrollment_id : Option ℕ
  pub mailbox_id : ℕ
  pub address_id : ℕ
  pub step_id : Option ℕ
  pub schedule_generation : ℕ
  pub controlled_send_authorization_id : Option ℕ
  pub status : MessageStatus
  pub dispatch_origin : Option MessageStatus
  pub dispatch_generation : ℕ
  pub claim_expires_at : Option ℕ
  pub version : ℕ
  pub retry_count : ℕ
  pub retry_budget : ℕ
  pub next_retry_at : Option ℕ
  pub due_at : Option ℕ
  pub accepted_at : Option ℕ
  pub content_subject : Option Text
  pub content_body_html : Option Text
  pub content_digest : Option Text
  pub renderer_version : ℕ
  pub rendered_at : Option ℕ
  pub frozen_destination : Option Text
  pub frozen_sender_address : Option Text
  pub frozen_sender_name : Option Text
  pub rfc_message_id : Option Text
  pub provider_message_id : Option Text
  pub terminal_reason : Option StoredReason
  pub hold_reason : Option HoldReason

pub record Campaign : Type 0 where
  pub workspace_id : ℕ
  pub status : CampaignStatus
  pub planning_status : PlanningStatus
  pub schedule_generation : ℕ

pub record Enrollment : Type 0 where
  pub workspace_id : ℕ
  pub state : EnrollmentState

pub record Mailbox : Type 0 where
  pub workspace_id : ℕ
  pub provider : Provider
  pub provider_account_id : Option Text
  pub connection_state : ConnectionState
  pub health_state : HealthState
  pub policy_state : PolicyState
  pub policy_reason : Option Text
  pub circuit_state : CircuitState
  pub blocked_until : Option ℕ
  pub connected_generation : Option ℕ
  pub current_connection_generation : ℕ
  pub original_address : Text
  pub sender_display_name : Option Text
  pub pending_safety_count : ℕ

pub record Address : Type 0 where
  pub workspace_id : ℕ
  pub canonical_address : Text

-- A row of mailbox_connections; `credential` is the ciphertext with its key and nonce.
pub record Connection : Type 0 where
  pub workspace_id : ℕ
  pub mailbox_id : ℕ
  pub generation : ℕ
  pub credential : Option Text
  pub protected_config : List (Text × Text)
  pub expires_at : Option ℕ
  pub is_destroyed : Bool

pub data EvidenceState : Type 0 where
  prepared accepted rejected unknown not_invoked : EvidenceState

pub record Attempt : Type 0 where
  pub id : ℕ
  pub workspace_id : ℕ
  pub message_id : ℕ
  pub mailbox_id : ℕ
  pub ordinal : ℕ
  pub credential_generation : ℕ
  pub authorization_deadline : ℕ
  pub dispatch_generation : ℕ
  pub evidence_state : EvidenceState
  pub completed_at : Option ℕ
  pub provider_request_id : Option Text
  pub provider_message_ref : Option Text
  pub provider_thread_ref : Option Text
  pub error_category : Option CategoryText
  pub error_code : Option ErrorCode

-- A row of capacity_debits; its scopes are the policies that it counts against.
pub record Debit : Type 0 where
  pub workspace_id : ℕ
  pub attempt_id : ℕ
  pub reservation_id : ℕ
  pub quantity : ℕ
  pub scopes : List ℕ

pub data AuditAction : Type 0 where
  send_deferred rate_limit_unavailable message_sent ambiguous_outcome held_for_reauth : AuditAction
  retry_was_scheduled message_failed credential_failed message_skipped : AuditAction
  stale_execution_recovered reconciliation_unsupported reconciled_accepted : AuditAction
  reconciliation_checked : AuditAction

pub record Audit : Type 0 where
  pub workspace_id : ℕ
  pub action : AuditAction
  pub target_id : ℕ

pub record Db : Type 0 where
  pub messages : ℕ → Option Message
  pub campaigns : ℕ → Option Campaign
  pub enrollments : ℕ → Option Enrollment
  pub mailboxes : ℕ → Option Mailbox
  pub addresses : ℕ → Option Address
  pub connections : List Connection
  pub attempts : List Attempt
  pub debits : List Debit
  pub audits : List Audit

-- `UPDATE … WHERE workspace_id = :ws AND id = :id AND guard`: the row after, if it is one that the
-- guard allows; `none` is a row count of 0.
module _ {ℓ} {R : Type ℓ} where
  abbrev pub update : (ℕ → Option R) → ℕ → R → ℕ → Option R
  update table id row key = if key == id then some row else table key

-- The row of a workspace.
abbrev pub in_workspace {ℓ} : {R : Type ℓ} → (R → ℕ) → ℕ → Option R → Option R
in_workspace ws_of ws none = none
in_workspace ws_of ws (some r) = if ws_of r == ws then some r else none

unfoldable pub message_row : Db → ℕ → ℕ → Option Message
message_row db ws id = in_workspace (λ (m : Message). m.workspace_id) ws (db.messages id)

unfoldable pub mailbox_row : Db → ℕ → ℕ → Option Mailbox
mailbox_row db ws id = in_workspace (λ (m : Mailbox). m.workspace_id) ws (db.mailboxes id)

-- A write of one row, where the WHERE clause found it.
unfoldable pub put_message : Db → ℕ → Message → Db
put_message db id m = record db { messages = update db.messages id m }

unfoldable pub put_mailbox : Db → ℕ → Mailbox → Db
put_mailbox db id m = record db { mailboxes = update db.mailboxes id m }
