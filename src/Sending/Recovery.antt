-- ===== src/Sending/Recovery.antt =====
-- backend/app/modules/sending/recovery_service.py: sends that a crashed worker has left in SENDING. The
-- rows are found in the tables `seen`; the writes meet the tables as they are by then.
pub mod Held
pub mod Resolved
use email_outreach_platform.Base.{
  ℕ, ◌+◌, Bool, true, false, ◌&&◌, Option, none, some, List, [], ◌∷◌, leb, ◌==◌, if◌then◌else◌,
  take, is_some, update_where, first_where,
}
use email_outreach_platform.Sending.Context.{MessageStatus, sending, unknown_outcome, unknown}
use email_outreach_platform.Sending.RetryPolicy.{network_error, unknown_outcome, known}
use email_outreach_platform.Sending.Store.{
  execution_lease_expired, Message, EvidenceState, prepared, unknown, Attempt,
  stale_execution_recovered, Db, message_row, put_message,
}
use email_outreach_platform.Sending.Repository.Writes.{record_audit_event}

pub record StaleExecution : Type 0 where
  pub attempt_id : ℕ
  pub workspace_id : ℕ
  pub message_id : ℕ
  pub version : ℕ
  pub authorization_deadline : ℕ

is_prepared : EvidenceState → Bool
is_prepared prepared = true
is_prepared _ = false

unfoldable pub is_sending : MessageStatus → Bool
is_sending sending = true
is_sending _ = false

in_scope : Option ℕ → ℕ → Bool
in_scope none ws = true
in_scope (some w) ws = w == ws

-- The row of the join for one attempt.
stale_of : Db → ℕ → Option ℕ → Attempt → Option Message → Option StaleExecution
unfolding is_prepared is_sending in_scope
stale_of db now scope a none = none
stale_of db now scope a (some m) =
    if is_sending m.status
      && is_prepared a.evidence_state
      && leb a.authorization_deadline now
      && in_scope scope a.workspace_id
    then some (record {
      attempt_id = a.id;
      workspace_id = a.workspace_id;
      message_id = a.message_id;
      version = m.version;
      authorization_deadline = a.authorization_deadline;
    })
    else none

maybe_cons : Option StaleExecution → List StaleExecution → List StaleExecution
maybe_cons none rows = rows
maybe_cons (some r) rows = r ∷ rows

stale_in : Db → ℕ → Option ℕ → List Attempt → List StaleExecution
stale_in db now scope [] = []
stale_in db now scope (a ∷ rows) =
    maybe_cons (stale_of db now scope a (message_row db a.workspace_id a.message_id))
      (stale_in db now scope rows)

-- `ORDER BY a.authorization_deadline`
insert_stale : StaleExecution → List StaleExecution → List StaleExecution
insert_stale r [] = r ∷ []
insert_stale r (s ∷ rows) =
    let rest = insert_stale r rows in
    if leb r.authorization_deadline s.authorization_deadline then r ∷ s ∷ rows else s ∷ rest

sort_stale : List StaleExecution → List StaleExecution
sort_stale [] = []
sort_stale (r ∷ rows) = insert_stale r (sort_stale rows)

unfoldable pub find_stale_executions : Db → ℕ → Option ℕ → ℕ → List StaleExecution
unfolding stale_of maybe_cons stale_in insert_stale sort_stale
find_stale_executions seen now scope limit =
    take limit (sort_stale (stale_in seen now scope seen.attempts))

unfoldable pub is_stale_attempt : StaleExecution → Attempt → Bool
unfolding is_prepared
is_stale_attempt r a =
    a.workspace_id == r.workspace_id && a.id == r.attempt_id && is_prepared a.evidence_state

unknown_attempt : Attempt → Attempt
unknown_attempt a = record a {
  evidence_state = unknown;
  completed_at = none;
  error_category = some (known network_error);
  error_code = some execution_lease_expired;
}

-- `none` is a row count of 0.
unfoldable pub abandon_attempt : Db → StaleExecution → Option Db
unfolding unknown_attempt
abandon_attempt db r =
    if is_some (first_where (is_stale_attempt r) db.attempts)
    then some
        (record db { attempts = update_where (is_stale_attempt r) unknown_attempt db.attempts })
    else none

unfoldable pub unknown_row : Message → Message
unknown_row m = record m {
  status = unknown_outcome;
  terminal_reason = none;
  version = m.version + 1;
}

unknown_found : Db → StaleExecution → Option Message → Option Db
unfolding is_sending unknown_row
unknown_found db r none = none
unknown_found db r (some m) =
    if is_sending m.status && m.version == r.version
    then some (put_message db r.message_id (unknown_row m))
    else none

unfoldable pub hold_message : Db → StaleExecution → Option Db
unfolding unknown_found
hold_message db r = unknown_found db r (message_row db r.workspace_id r.message_id)

unfoldable pub audited : StaleExecution → Db → Db
audited r db = record_audit_event db (record {
  workspace_id = r.workspace_id;
  action = stale_execution_recovered;
  target_id = r.message_id;
})

-- The body of the loop: a `continue` counts nothing and keeps what has been written.
unfoldable pub held_or : StaleExecution → Db → Option Db → ℕ × Db
unfolding audited
held_or r db none = (0, db)
held_or r db (some after) = (1, audited r after)

unfoldable pub abandoned_or : StaleExecution → Db → Option Db → ℕ × Db
unfolding held_or
abandoned_or r db none = (0, db)
abandoned_or r db (some after) = held_or r after (hold_message after r)

unfoldable pub recover_one : StaleExecution → Db → ℕ × Db
unfolding abandoned_or
recover_one r db = abandoned_or r db (abandon_attempt db r)

unfoldable pub recover_each : List StaleExecution → Db → ℕ × Db
recover_each [] db = (0, db)
recover_each (r ∷ rows) db =
    let one = recover_one r db in let rest = recover_each rows one.1 in (one.0 + rest.0, rest.1)

unfoldable pub recover_stale_executions : Db → Db → ℕ → Option ℕ → ℕ → ℕ × Db
unfolding find_stale_executions recover_each
recover_stale_executions seen db now scope limit =
    recover_each (find_stale_executions seen now scope limit) db
