-- ===== src/Sending/Reconciliation.antt =====
-- backend/app/modules/sending/reconciliation_service.py: messages with an unknown outcome are looked up
-- at the provider. The rows are found in the tables `seen`, by the ids in the order of updated_at; the
-- writes meet the tables as they are by then. Each row is one transaction. The metadata of an attempt
-- is left out, and of its provider's registry only whether an adapter can look messages up.
pub mod Settled
use email_outreach_platform.Base.{
  ℕ, ◌+◌, Bool, true, false, ◌&&◌, Option, none, some, List, [], ◌∷◌, ◌++◌, ◌==◌, if◌then◌else◌,
  take, get_or, Text, is_present, update_where, first_where,
}
use email_outreach_platform.Sending.Context.{MessageStatus, unknown_outcome, sent, Provider}
use email_outreach_platform.Sending.Store.{
  Message, Mailbox, Connection, EvidenceState, accepted, Attempt, AuditAction,
  reconciliation_unsupported, reconciled_accepted, reconciliation_checked, Db, message_row,
  mailbox_row, put_message,
}
use email_outreach_platform.Sending.Repository.Writes.{
  coalesce, is_unknown, get_mailbox_connection, record_audit_event,
}
use email_outreach_platform.Sending.Environment.{Credential, accepted}
use email_outreach_platform.Sending.Service.Credentials.{overlay}

-- A ProviderSendResult of ACCEPTED, another result or none, or an exception of the adapter.
pub record Acceptance : Type 0 where
  pub accepted_at : Option ℕ
  pub provider_message_id : Option Text
  pub provider_thread_id : Option Text

pub data Lookup : Type 0 where
  was_accepted : Acceptance → Lookup
  inconclusive raised : Lookup

pub record Lookups : Type 0 where
  pub can_look_up : Provider → Bool
  pub decrypt : Connection → Option Credential
  pub lookup_message : Provider → Credential → Text → Lookup
  pub now : ℕ

pub record UnknownMessage : Type 0 where
  pub message_id : ℕ
  pub workspace_id : ℕ
  pub mailbox_id : ℕ
  pub rfc_message_id : Option Text
  pub version : ℕ
  pub provider : Provider
  pub connection_generation : ℕ
  pub attempt_id : Option ℕ

pub record Counts : Type 0 where
  pub reconciled_sent : ℕ
  pub pending : ℕ
  pub unsupported : ℕ

unfoldable pub is_unknown_outcome : MessageStatus → Bool
is_unknown_outcome unknown_outcome = true
is_unknown_outcome _ = false

is_unresolved_of : ℕ → ℕ → Attempt → Bool
is_unresolved_of ws mid a =
    a.workspace_id == ws && a.message_id == mid && is_unknown a.evidence_state

in_scope : Option ℕ → ℕ → Bool
in_scope none ws = true
in_scope (some w) ws = w == ws

attempt_id_of : Option Attempt → Option ℕ
attempt_id_of none = none
attempt_id_of (some a) = some a.id

-- The LEFT JOIN has one row, since a message has one unresolved attempt at most.
with_mailbox : Db → ℕ → Message → Option Mailbox → List UnknownMessage
unfolding is_unresolved_of attempt_id_of
with_mailbox seen mid m none = []
with_mailbox seen mid m (some b) =
    record {
      message_id = mid;
      workspace_id = m.workspace_id;
      mailbox_id = m.mailbox_id;
      rfc_message_id = m.rfc_message_id;
      version = m.version;
      provider = b.provider;
      connection_generation = b.current_connection_generation;
      attempt_id = attempt_id_of (first_where (is_unresolved_of m.workspace_id mid) seen.attempts);
    }
    ∷ []

unknown_row_of : Db → Option ℕ → ℕ → Option Message → List UnknownMessage
unfolding with_mailbox in_scope
unknown_row_of seen scope mid none = []
unknown_row_of seen scope mid (some m) =
    if is_unknown_outcome m.status && in_scope scope m.workspace_id
    then with_mailbox seen mid m (mailbox_row seen m.workspace_id m.mailbox_id)
    else []

unknown_in : Db → Option ℕ → List ℕ → List UnknownMessage
unfolding unknown_row_of
unknown_in seen scope [] = []
unknown_in seen scope (id ∷ ids) =
    unknown_row_of seen scope id (seen.messages id) ++ unknown_in seen scope ids

unfoldable pub find_unknown_messages : Db → Option ℕ → ℕ → List ℕ → List UnknownMessage
unfolding unknown_in
find_unknown_messages seen scope limit ids = take limit (unknown_in seen scope ids)

unfoldable pub audit_row : UnknownMessage → AuditAction → Db → Db
audit_row r action db =
    record_audit_event db
      (record { workspace_id = r.workspace_id; action = action; target_id = r.message_id })

-- Guarded by the attempt's id only.
accepted_attempt : UnknownMessage → Text → Acceptance → ℕ → Attempt → Attempt
accepted_attempt r rfc a at attempt = record attempt {
  evidence_state = EvidenceState.accepted;
  completed_at = some at;
  provider_message_ref = a.provider_message_id;
  provider_thread_ref = a.provider_thread_id;
  provider_request_id = some rfc;
}

unfoldable pub accept_attempts :
    UnknownMessage → Text → Acceptance → ℕ → Option ℕ → List Attempt → List Attempt
unfolding accepted_attempt
accept_attempts r rfc a at none rows = rows
accept_attempts r rfc a at (some id) rows =
    update_where (λ (x : Attempt). x.workspace_id == r.workspace_id && x.id == id)
      (accepted_attempt r rfc a at) rows

unfoldable pub settled_row : Acceptance → ℕ → Message → Message
settled_row a at m = record m {
  status = sent;
  accepted_at = some at;
  provider_message_id = coalesce a.provider_message_id m.provider_message_id;
  version = m.version + 1;
}

settle_found : UnknownMessage → Acceptance → ℕ → Db → Option Message → Db
unfolding settled_row is_unknown_outcome
settle_found r a at db none = db
settle_found r a at db (some m) =
    if is_unknown_outcome m.status && m.version == r.version
    then put_message db r.message_id (settled_row a at m)
    else db

unfoldable pub settle_message : UnknownMessage → Acceptance → ℕ → Db → Db
unfolding settle_found
settle_message r a at db = settle_found r a at db (message_row db r.workspace_id r.message_id)

abbrev pub one_sent : Counts
one_sent = record { reconciled_sent = 1; pending = 0; unsupported = 0 }

abbrev pub one_pending : Counts
one_pending = record { reconciled_sent = 0; pending = 1; unsupported = 0 }

abbrev pub one_unsupported : Counts
one_unsupported = record { reconciled_sent = 0; pending = 0; unsupported = 1 }

module _ (env : Lookups) where
  unfoldable pub reconcile_accepted : UnknownMessage → Text → Acceptance → Db → Counts × Db
  unfolding accept_attempts settle_message audit_row
  reconcile_accepted r rfc a db =
      let at = get_or env.now a.accepted_at in
      let marked = record db { attempts = accept_attempts r rfc a at r.attempt_id db.attempts } in
      (one_sent, audit_row r reconciled_accepted (settle_message r a at marked))

  unfoldable pub after_lookup : UnknownMessage → Text → Lookup → Db → Counts × Db
  unfolding reconcile_accepted audit_row
  after_lookup r rfc (was_accepted a) db = reconcile_accepted r rfc a db
  after_lookup r rfc inconclusive db = (one_pending, audit_row r reconciliation_checked db)
  after_lookup r rfc raised db = (one_pending, audit_row r reconciliation_checked db)

  unfoldable pub look_up_with :
      UnknownMessage → Text → Connection → Option Credential → Db → Counts × Db
  unfolding after_lookup overlay
  look_up_with r rfc conn none db = (one_pending, db)
  look_up_with r rfc conn (some creds) db =
      after_lookup r rfc (env.lookup_message r.provider (overlay creds conn.protected_config) rfc)
        db

  unfoldable pub look_up_through : UnknownMessage → Text → Option Connection → Db → Counts × Db
  unfolding look_up_with is_present
  look_up_through r rfc none db = (one_pending, db)
  look_up_through r rfc (some conn) db =
      if is_present conn.credential
      then look_up_with r rfc conn (env.decrypt conn) db
      else (one_pending, db)

  unfoldable pub with_rfc_id : UnknownMessage → Option Text → Db → Counts × Db
  unfolding look_up_through audit_row
  with_rfc_id r none db = (one_unsupported, audit_row r reconciliation_unsupported db)
  with_rfc_id r (some []) db = (one_unsupported, audit_row r reconciliation_unsupported db)
  with_rfc_id r (some (c ∷ t)) db =
      look_up_through r (c ∷ t)
        (get_mailbox_connection db r.workspace_id r.mailbox_id r.connection_generation) db

  -- The body of the loop.
  unfoldable pub reconcile_one : UnknownMessage → Db → Counts × Db
  unfolding with_rfc_id
  reconcile_one r db =
      if env.can_look_up r.provider
      then with_rfc_id r r.rfc_message_id db
      else (one_unsupported, audit_row r reconciliation_unsupported db)

  abbrev pub add_counts : Counts → Counts → Counts
  add_counts a b = record {
    reconciled_sent = a.reconciled_sent + b.reconciled_sent;
    pending = a.pending + b.pending;
    unsupported = a.unsupported + b.unsupported;
  }

  unfoldable pub reconcile_each : List UnknownMessage → Db → Counts × Db
  reconcile_each [] db = (record { reconciled_sent = 0; pending = 0; unsupported = 0 }, db)
  reconcile_each (r ∷ rows) db =
      let one = reconcile_one r db in
      let rest = reconcile_each rows one.1 in (add_counts one.0 rest.0, rest.1)

  unfoldable pub reconcile_unknown_messages : Db → Db → Option ℕ → ℕ → List ℕ → Counts × Db
  unfolding find_unknown_messages reconcile_each
  reconcile_unknown_messages seen db scope limit ids =
      reconcile_each (find_unknown_messages seen scope limit ids) db
