-- ===== src/Lifecycle/Tests.antt =====
-- A crashed send that is held and then found at the provider, and inputs for the theorems on it.
use email_outreach_platform.Base.{
  ◌*◌, ◌≡◌, refl, ◌⊎◌, true, none, some, [], ◌∷◌, ◌++◌, ◌==◌, if◌then◌else◌, second, codes,
  is_present, first_where,
}
use email_outreach_platform.Sending.Context.{
  MessageStatus, sending, unknown_outcome, skipped, unknown,
}
use email_outreach_platform.Sending.Store.{
  Message, prepared, unknown, Attempt, Db, message_row, mailbox_row,
}
use email_outreach_platform.Sending.Repository.Writes.{get_mailbox_connection}
use email_outreach_platform.Sending.Recovery.{
  StaleExecution, is_sending, find_stale_executions, is_stale_attempt, recover_stale_executions,
}
use email_outreach_platform.Sending.Recovery.Held.{KeptOrHeld, recover-OnlyHolds}
use email_outreach_platform.Sending.Reconciliation.{
  was_accepted, Lookups, is_unknown_outcome, find_unknown_messages, reconcile_accepted,
  after_lookup, look_up_with, look_up_through, with_rfc_id, reconcile_one,
  reconcile_unknown_messages,
}
use email_outreach_platform.Scheduler.Store.{Tables}
use email_outreach_platform.Sending.Sample.{sample_message, sample_db}
use email_outreach_platform.Sending.Recovery.Resolved.{IsHeld, StillStale, stale-IsHeld}
use email_outreach_platform.Lifecycle.{
  final_skipped, Edge, ReconciliationEdge, recover, reconcile, WorkerReach,
}
use email_outreach_platform.Lifecycle.Rows.{OriginAllowed}
use email_outreach_platform.Lifecycle.Refinement.{WorkerStep-Edge, final_stays}

abbrev sending_message : Message
sending_message = record sample_message { status = sending; dispatch_origin = none; version = 5 }

abbrev open_attempt : Attempt
open_attempt = record {
  id = 60;
  workspace_id = 1;
  message_id = 7;
  mailbox_id = 30;
  ordinal = 1;
  credential_generation = 2;
  authorization_deadline = 300 * second;
  dispatch_generation = 1;
  evidence_state = prepared;
  completed_at = none;
  provider_request_id = none;
  provider_message_ref = none;
  provider_thread_ref = none;
  error_category = none;
  error_code = none;
}

abbrev crashed_db : Db
crashed_db = record sample_db {
  messages = λ id. if id == 7 then some sending_message else none;
  attempts = open_attempt ∷ [];
}

crashed_row : message_row crashed_db 1 7 ≡ some sending_message
unfolding message_row
crashed_row = refl

recover-OnlyHolds_example :
    (n : Message) × (message_row
        (recover_stale_executions crashed_db crashed_db (400 * second) none 50).1
        1
        7
      ≡ some n)
    × KeptOrHeld sending_message n
recover-OnlyHolds_example =
    recover-OnlyHolds crashed_db crashed_db (400 * second) none 50 1 7 sending_message crashed_row

abbrev stale_execution : StaleExecution
stale_execution = record {
  attempt_id = 60;
  workspace_id = 1;
  message_id = 7;
  version = 5;
  authorization_deadline = 300 * second;
}

crashed_found :
    find_stale_executions crashed_db (400 * second) none 50 ≡ [] ++ (stale_execution ∷ [])
unfolding find_stale_executions message_row is_sending
crashed_found = refl

crashed-StillStale : StillStale stale_execution crashed_db
unfolding is_stale_attempt first_where
crashed-StillStale = record {
  message = sending_message;
  stored = crashed_row;
  is_live = refl;
  same_version = refl;
  has_attempt = refl;
}

stale-IsHeld_example :
    IsHeld 1 7 (recover_stale_executions crashed_db crashed_db (400 * second) none 50).1
stale-IsHeld_example =
    stale-IsHeld crashed_db crashed_db (400 * second) none 50 [] [] stale_execution crashed_found tt
      crashed-StillStale

abbrev lost_message : Message
lost_message = record sending_message {
  status = unknown_outcome;
  rfc_message_id = some (codes "<m1@example.com>");
}

abbrev lost_db : Db
lost_db = record crashed_db {
  messages = λ id. if id == 7 then some lost_message else none;
  attempts = record open_attempt { evidence_state = unknown } ∷ [];
}

abbrev found_at_provider : Lookups
found_at_provider = record {
  can_look_up = λ p. true;
  decrypt = λ conn. some [];
  lookup_message = λ p c t. was_accepted (record {
    accepted_at = some (350 * second);
    provider_message_id = some (codes "g1");
    provider_thread_id = none;
  });
  now = 500 * second;
}

lost_is_settled :
    (reconcile_unknown_messages found_at_provider lost_db lost_db none 50 (7 ∷ [])).0
    ≡ record { reconciled_sent = 1; pending = 0; unsupported = 0 }
unfolding reconcile_unknown_messages is_unknown_outcome reconcile_one with_rfc_id look_up_through
    look_up_with after_lookup reconcile_accepted get_mailbox_connection is_present
    find_unknown_messages mailbox_row
lost_is_settled = refl

abbrev crashed_tables : Tables
crashed_tables = record {
  db = crashed_db;
  authorizations = λ id. none;
  works = [];
  deliveries = [];
}

abbrev held_tables : Tables
held_tables = record crashed_tables {
  db = (recover_stale_executions crashed_db crashed_db (400 * second) none 50).1;
}

none_is_some : (o : MessageStatus) → ¬ (none ≡ some o)
none_is_some o e = cc

no_origin_lem : OriginAllowed sending_message
no_origin_lem o e = absurd (none_is_some o e)

-- The reconciliation of the message that the recovery has held.
abbrev settled_tables : Tables
settled_tables = record held_tables {
  db =
      (reconcile_unknown_messages found_at_provider held_tables.db held_tables.db none 50
        (7 ∷ [])).1;
}

WorkerStep-Edge_example :
    (n : Message) × (k : Message) × (message_row held_tables.db 1 7 ≡ some n)
    × (message_row settled_tables.db 1 7 ≡ some k)
    × ((k.status ≡ n.status) ⊎ (ReconciliationEdge n.status k.status × Edge n.status k.status))
WorkerStep-Edge_example =
    WorkerStep-Edge crashed_tables held_tables settled_tables 1 7 sending_message
      (WorkerReach.step _ _ _ (recover crashed_tables crashed_db (400 * second) none 50)
        (WorkerReach.stay _))
      (reconcile held_tables found_at_provider held_tables.db none 50 (7 ∷ [])) crashed_row
      no_origin_lem

abbrev skipped_message : Message
skipped_message = record sending_message { status = skipped }

abbrev skipped_tables : Tables
skipped_tables = record crashed_tables {
  db = record crashed_db { messages = λ id. if id == 7 then some skipped_message else none };
}

skipped_stored : message_row skipped_tables.db 1 7 ≡ some skipped_message
unfolding message_row
skipped_stored = refl

abbrev later_tables : Tables
later_tables = record skipped_tables {
  db = (recover_stale_executions crashed_db skipped_tables.db (400 * second) none 50).1;
}

final_stays_example :
    (n : Message) × (message_row later_tables.db 1 7 ≡ some n) × (n.status ≡ skipped)
final_stays_example =
    final_stays skipped_tables later_tables 1 7 skipped_message
      (WorkerReach.step _ _ _ (recover skipped_tables crashed_db (400 * second) none 50)
        (WorkerReach.stay _))
      skipped_stored no_origin_lem final_skipped
