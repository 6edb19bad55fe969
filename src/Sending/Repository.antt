-- ===== src/Sending/Repository.antt =====
-- backend/app/modules/sending/repository.py: each query as a function on the tables, with the CHECK
-- constraints of supabase/migrations/0004_messages_events_inbox.sql that a result can violate.
pub mod Writes
use text.Mathlib.Text.{◌==◌ as str_eq}
use email_outreach_platform.Base.{
  ℕ, Bool, true, false, not, ◌&&◌, Option, none, some, [], leb, if◌then◌else◌, is_some, Text,
}
use email_outreach_platform.Sending.Context.{
  MessageStatus, retry_scheduled, unknown_outcome, sent, other, LoadedSendContext,
}
use email_outreach_platform.Sending.Gates.{is_campaign}
use email_outreach_platform.Sending.RetryPolicy.{
  insufficient_scope, unknown_outcome, CategoryText, known, other,
}
use email_outreach_platform.Sending.Store.{
  Message, Campaign, Enrollment, Mailbox, Address, Db, in_workspace, message_row, mailbox_row,
}

-- What `load_message_for_send` does: it raises MessageLockedByAnotherWorker, or returns.
pub data Loaded : Type 0 where
  locked missing : Loaded
  found : LoadedSendContext → Loaded

map_row {ℓ κ} : {R : Type ℓ} {A : Type κ} → (R → A) → Option R → Option A
map_row f none = none
map_row f (some r) = some (f r)

bind_id {ℓ} : {A : Type ℓ} → Option ℕ → (ℕ → Option A) → Option A
bind_id none f = none
bind_id (some id) f = f id

-- The campaign row is read for campaign messages only, and so is the enrollment row.
campaign_of : Db → ℕ → Message → Option Campaign
campaign_of db ws m =
    if is_campaign m.purpose
    then bind_id m.campaign_id
        (λ id. in_workspace (λ (c : Campaign). c.workspace_id) ws (db.campaigns id))
    else none

enrollment_of : Db → ℕ → Message → Option Enrollment
enrollment_of db ws m =
    if is_campaign m.purpose
    then bind_id m.enrollment_id
        (λ id. in_workspace (λ (e : Enrollment). e.workspace_id) ws (db.enrollments id))
    else none

address_of : Db → ℕ → Message → Text
address_of db ws m =
    elim (in_workspace (λ (a : Address). a.workspace_id) ws (db.addresses m.address_id)) [
      | none ↦ []
      | some a ↦ a.canonical_address
    ]

unfoldable pub context_of : Db → ℕ → ℕ → Message → Mailbox → LoadedSendContext
unfolding campaign_of enrollment_of address_of map_row bind_id is_campaign
context_of db ws mid m b = record {
  message_id = mid;
  workspace_id = m.workspace_id;
  purpose = m.purpose;
  campaign_id = m.campaign_id;
  enrollment_id = m.enrollment_id;
  mailbox_id = m.mailbox_id;
  address_id = m.address_id;
  message_status = m.status;
  dispatch_generation = m.dispatch_generation;
  message_version = m.version;
  retry_count = m.retry_count;
  retry_budget = m.retry_budget;
  content_subject = m.content_subject;
  content_body_html = m.content_body_html;
  content_digest = m.content_digest;
  renderer_version = m.renderer_version;
  rendered_at = m.rendered_at;
  frozen_destination = m.frozen_destination;
  frozen_sender_address = m.frozen_sender_address;
  frozen_sender_name = m.frozen_sender_name;
  rfc_message_id = m.rfc_message_id;
  campaign_status = map_row (λ (c : Campaign). c.status) (campaign_of db ws m);
  campaign_planning_status = map_row (λ (c : Campaign). c.planning_status) (campaign_of db ws m);
  enrollment_state = map_row (λ (e : Enrollment). e.state) (enrollment_of db ws m);
  canonical_address = address_of db ws m;
  mailbox_workspace_id = b.workspace_id;
  mailbox_provider = b.provider;
  mailbox_provider_account_id = b.provider_account_id;
  mailbox_connection_state = b.connection_state;
  mailbox_health_state = b.health_state;
  mailbox_policy_state = b.policy_state;
  mailbox_policy_reason = b.policy_reason;
  mailbox_circuit_state = b.circuit_state;
  mailbox_blocked_until = b.blocked_until;
  mailbox_current_connection_generation = b.current_connection_generation;
  mailbox_original_address = b.original_address;
  mailbox_sender_display_name = b.sender_display_name;
  mailbox_pending_safety_count = b.pending_safety_count;
  raw = record { step_id = m.step_id; anchor_at = none };
}

load_mailbox : Db → ℕ → ℕ → Message → Option Mailbox → Loaded
load_mailbox db ws mid m none = locked
load_mailbox db ws mid m (some b) = found (context_of db ws mid m b)

load_row : Bool → Db → ℕ → ℕ → Option Message → Loaded
load_row is_locked db ws mid none = missing
load_row is_locked db ws mid (some m) =
    if is_locked then locked else load_mailbox db ws mid m (mailbox_row db ws m.mailbox_id)

-- `is_locked`: another transaction holds the message row, so SKIP LOCKED passes over it.
unfoldable pub load_message_for_send : Bool → Db → ℕ → ℕ → Loaded
unfolding load_row load_mailbox
load_message_for_send is_locked db ws mid = load_row is_locked db ws mid (message_row db ws mid)

-- message_attempts_error_category_check
unfoldable pub category_allowed : Option CategoryText → Bool
category_allowed none = true
category_allowed (some (known insufficient_scope)) = false
category_allowed (some (known unknown_outcome)) = false
category_allowed (some (known _)) = true
category_allowed (some (other t)) = str_eq t "CONFIGURATION_FAILURE"

unfoldable pub is_sent : MessageStatus → Bool
is_sent sent = true
is_sent _ = false

unfoldable pub is_retry_scheduled : MessageStatus → Bool
is_retry_scheduled retry_scheduled = true
is_retry_scheduled _ = false

due_after_retry : Option ℕ → Option ℕ → Bool
due_after_retry (some retry_at) (some due) = leb retry_at due
due_after_retry _ _ = false

-- messages_retry_state_check and messages_acceptance_state_check
unfoldable pub message_allowed : Message → Bool
unfolding is_sent is_retry_scheduled due_after_retry
message_allowed m =
    leb m.retry_count m.retry_budget
    && (if is_retry_scheduled m.status then due_after_retry m.next_retry_at m.due_at else true)
    && (if is_sent m.status then is_some m.accepted_at else not (is_some m.accepted_at))
