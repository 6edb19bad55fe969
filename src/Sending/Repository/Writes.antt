-- ===== src/Sending/Repository/Writes.antt =====
-- The writes of backend/app/modules/sending/repository.py.
use email_outreach_platform.Base.{
  ℕ, ◌+◌, max, Bool, true, false, not, ◌&&◌, ◌||◌, Option, none, some, List, [], ◌∷◌, ltb, ◌==◌,
  if◌then◌else◌, get_or, Text,
}
use email_outreach_platform.Sending.Context.{
  MessageStatus, queued, sending, skipped, ConnectionState, HealthState, unknown,
}
use email_outreach_platform.Sending.RetryPolicy.{CategoryText}
use email_outreach_platform.Sending.Store.{
  ErrorCode, HoldReason, StoredReason, Message, Mailbox, Connection, EvidenceState, prepared,
  unknown, Attempt, Debit, Audit, Db, message_row, mailbox_row, put_message, put_mailbox,
}
use email_outreach_platform.Sending.Repository.{category_allowed, is_sent, message_allowed}

-- `skip_message`; a row count of 0 is `none`.
skip_row : Db → ℕ → ℕ → StoredReason → Option Message → Option Db
skip_row db mid expected_version reason none = none
skip_row db mid expected_version reason (some m) =
    if m.version == expected_version
    then some (
        put_message db mid
          (record m { status = skipped; terminal_reason = some reason; version = m.version + 1 }))
    else none

unfoldable pub skip_message : Db → ℕ → ℕ → ℕ → StoredReason → Option Db
unfolding skip_row
skip_message db ws mid expected_version reason =
    skip_row db mid expected_version reason (message_row db ws mid)

-- Is there an attempt of this message at this dispatch generation?
unfoldable pub has_attempt_of : List Attempt → ℕ → ℕ → ℕ → Bool
has_attempt_of [] ws mid gen = false
has_attempt_of (a ∷ rows) ws mid gen =
    (a.workspace_id == ws && a.message_id == mid && a.dispatch_generation == gen)
    || has_attempt_of rows ws mid gen

unfoldable pub is_queued : MessageStatus → Bool
is_queued queued = true
is_queued _ = false

unfoldable pub later_due : Option ℕ → ℕ → ℕ
later_due none due = due
later_due (some next_retry) due = if ltb due next_retry then next_retry else due

unfoldable pub deferred_row : Message → ℕ → MessageStatus → Message
unfolding later_due
deferred_row m due origin = record m {
  status = origin;
  dispatch_origin = none;
  claim_expires_at = none;
  dispatch_generation = m.dispatch_generation + 1;
  due_at = some (later_due m.next_retry_at due);
  version = m.version + 1;
}

defer_origin : Db → ℕ → ℕ → ℕ → ℕ → Message → Option MessageStatus → Option Db
unfolding has_attempt_of is_queued deferred_row
defer_origin db ws mid gen due m none = none
defer_origin db ws mid gen due m (some origin) =
    if is_queued m.status
      && m.dispatch_generation == gen
      && not (has_attempt_of db.attempts ws mid gen)
    then some (put_message db mid (deferred_row m due origin))
    else none

defer_row : Db → ℕ → ℕ → ℕ → ℕ → Option Message → Option Db
unfolding defer_origin
defer_row db ws mid gen due none = none
defer_row db ws mid gen due (some m) = defer_origin db ws mid gen due m m.dispatch_origin

unfoldable pub defer_for_capacity : Db → ℕ → ℕ → ℕ → ℕ → Option Db
unfolding defer_row
defer_for_capacity db ws mid gen due = defer_row db ws mid gen due (message_row db ws mid)

-- The partial unique index on attempts that are PREPARED or UNKNOWN.
unfoldable pub is_unresolved : EvidenceState → Bool
is_unresolved prepared = true
is_unresolved unknown = true
is_unresolved _ = false

unfoldable pub has_unresolved : List Attempt → ℕ → ℕ → Bool
unfolding is_unresolved
has_unresolved [] ws mid = false
has_unresolved (a ∷ rows) ws mid =
    (a.workspace_id == ws && a.message_id == mid && is_unresolved a.evidence_state)
    || has_unresolved rows ws mid

-- `none` is AttemptAlreadyClaimed. The other constraints on the table are taken to hold.
unfoldable pub insert_prepared_attempt : Db → Attempt → Option Db
insert_prepared_attempt db a =
    if has_unresolved db.attempts a.workspace_id a.message_id
    then none
    else some (record db { attempts = a ∷ db.attempts })

max_ordinal : List Attempt → ℕ → ℕ → ℕ
max_ordinal [] ws mid = 0
max_ordinal (a ∷ rows) ws mid =
    let rest = max_ordinal rows ws mid in
    if a.workspace_id == ws && a.message_id == mid then max a.ordinal rest else rest

unfoldable pub next_attempt_ordinal : Db → ℕ → ℕ → ℕ
unfolding max_ordinal
next_attempt_ordinal db ws mid = max_ordinal db.attempts ws mid + 1

unfoldable pub insert_capacity_debit : Db → Debit → Db
insert_capacity_debit db d = record db { debits = d ∷ db.debits }

sending_row : Db → ℕ → ℕ → Option Message → Option Db
sending_row db mid expected_version none = none
sending_row db mid expected_version (some m) =
    if m.version == expected_version
    then some (put_message db mid (record m { status = sending; version = m.version + 1 }))
    else none

unfoldable pub transition_message_to_sending : Db → ℕ → ℕ → ℕ → Option Db
unfolding sending_row
transition_message_to_sending db ws mid expected_version =
    sending_row db mid expected_version (message_row db ws mid)

-- The arguments of `finalize_attempt_result`, and its transaction's timestamp.
pub record Finalization : Type 0 where
  pub message_status : MessageStatus
  pub evidence_state : EvidenceState
  pub provider_message_id : Option Text
  pub provider_thread_id : Option Text
  pub provider_request_id : Option Text
  pub error_category : Option CategoryText
  pub error_code : Option ErrorCode
  pub terminal_reason : Option StoredReason
  pub hold_reason : Option HoldReason
  pub retry_count : Option ℕ
  pub next_retry_at : Option ℕ
  pub due_at : Option ℕ
  pub rfc_message_id : Option Text
  pub timestamp : ℕ

-- SQL's COALESCE of two values.
unfoldable pub coalesce {ℓ} : {A : Type ℓ} → Option A → Option A → Option A
coalesce none b = b
coalesce (some a) b = some a

unfoldable pub is_unknown : EvidenceState → Bool
is_unknown unknown = true
is_unknown _ = false

finalized_attempt : Attempt → Finalization → Attempt
unfolding is_unknown
finalized_attempt a f = record a {
  evidence_state = f.evidence_state;
  completed_at = if is_unknown f.evidence_state then none else some f.timestamp;
  provider_request_id = f.provider_request_id;
  provider_message_ref = f.provider_message_id;
  provider_thread_ref = f.provider_thread_id;
  error_category = f.error_category;
  error_code = f.error_code;
}

finalize_attempts : List Attempt → ℕ → ℕ → Finalization → List Attempt
unfolding finalized_attempt
finalize_attempts [] ws aid f = []
finalize_attempts (a ∷ rows) ws aid f =
    (if a.workspace_id == ws && a.id == aid then finalized_attempt a f else a)
    ∷ finalize_attempts rows ws aid f

unfoldable pub finalized_message : Message → Finalization → Message
unfolding coalesce is_sent
finalized_message m f = record m {
  status = f.message_status;
  accepted_at = if is_sent f.message_status then some f.timestamp else none;
  provider_message_id = coalesce f.provider_message_id m.provider_message_id;
  rfc_message_id = coalesce m.rfc_message_id f.rfc_message_id;
  terminal_reason = f.terminal_reason;
  hold_reason = f.hold_reason;
  retry_count = get_or m.retry_count f.retry_count;
  next_retry_at = f.next_retry_at;
  due_at = coalesce f.due_at m.due_at;
  version = m.version + 1;
}

finalize_row : Db → ℕ → Finalization → Option Message → Option Db
finalize_row db mid f none = some db
finalize_row db mid f (some m) =
    if message_allowed (finalized_message m f)
    then some (put_message db mid (finalized_message m f))
    else none

-- `none` is the error of a violated CHECK constraint.
unfoldable pub finalize_attempt_result : Db → ℕ → ℕ → ℕ → Finalization → Option Db
unfolding finalize_attempts finalize_row
finalize_attempt_result db ws mid aid f =
    if category_allowed f.error_category
    then finalize_row (record db { attempts = finalize_attempts db.attempts ws aid f }) mid f
        (message_row db ws mid)
    else none

-- `update_mailbox_connection_state` and `update_mailbox_blocked_until`.
connection_state_row : Db → ℕ → ConnectionState → HealthState → Option ℕ → ℕ → Option Mailbox → Db
connection_state_row db id c h g current none = db
connection_state_row db id c h g current (some b) = put_mailbox db id (record b {
  connection_state = c;
  health_state = h;
  connected_generation = g;
  current_connection_generation = current;
})

unfoldable pub update_mailbox_connection_state :
    Db → ℕ → ℕ → ConnectionState → HealthState → Option ℕ → ℕ → Db
unfolding connection_state_row
update_mailbox_connection_state db ws id c h g current =
    connection_state_row db id c h g current (mailbox_row db ws id)

blocked_row : Db → ℕ → ℕ → Option Mailbox → Db
blocked_row db id until none = db
blocked_row db id until (some b) = put_mailbox db id (record b { blocked_until = some until })

unfoldable pub update_mailbox_blocked_until : Db → ℕ → ℕ → ℕ → Db
unfolding blocked_row
update_mailbox_blocked_until db ws id until = blocked_row db id until (mailbox_row db ws id)

find_connection : List Connection → ℕ → ℕ → ℕ → Option Connection
find_connection [] ws id gen = none
find_connection (c ∷ rows) ws id gen =
    if c.workspace_id == ws && c.mailbox_id == id && c.generation == gen && not c.is_destroyed
    then some c
    else find_connection rows ws id gen

unfoldable pub get_mailbox_connection : Db → ℕ → ℕ → ℕ → Option Connection
unfolding find_connection
get_mailbox_connection db ws id gen = find_connection db.connections ws id gen

unfoldable pub insert_mailbox_connection : Db → Connection → Db
insert_mailbox_connection db c = record db { connections = c ∷ db.connections }

unfoldable pub record_audit_event : Db → Audit → Db
record_audit_event db a = record db { audits = a ∷ db.audits }
