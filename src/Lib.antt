-- ===== src/Lib.antt =====
-- Models and proofs for the outreach platform, a backend that sends the emails of campaigns through
-- the mailboxes of its users and follows their replies. Paths are from the repository's root; M is
-- backend/app/modules.
--
-- Parts and how they interact. A campaign is planned once: M/campaigns/pacing.py gives each first
-- email a due time inside the sending windows of M/campaigns/scheduling.py. When it is due, the
-- scheduler of M/scheduler claims it under the next dispatch generation and writes a work and a
-- delivery of the outbox, the publisher leases the delivery and sends the task to the queue, and a
-- worker runs it, `SendingService.execute` of M/sending/service.py:
-- it loads the message by M/sending/repository.py, runs the gates of M/sending/gates.py, reserves
-- capacity at the limiter, repeats load and gates in the authorization transaction, which writes the
-- attempt, the debit and the SENDING status, calls the provider, and records the result, with the
-- next try decided by M/sending/retry_policy.py. A send that a crash has left open is held with an
-- unknown outcome and looked up at the provider. When a message is sent, its enrollment moves on to
-- the next email of the sequence, and a mailbox whose messages bounce is held. When mail arrives, M/replies/matcher.py finds the
-- message that it answers.
--
-- Files.
--   Base: shared names, Boolean tests, texts (lists of code points).
--   Sending/RetryPolicy: M/sending/retry_policy.py (`classify_and_decide`); Bounds has its lemmas.
--   Sending/Context: `LoadedSendContext` of M/sending/schemas.py and the states of its fields.
--   Sending/Gates: M/sending/gates.py and M/suppression/checks.py, a function for each `check_...`;
--     Gates/Email is `_EMAIL_PATTERN`; Gates/Address, Gates/Conditions and Gates/Sendable say
--     independently what they accept.
--   Sending/Store, Sending/Repository: the tables' rows and M/sending/repository.py, a function for
--     each method with its name; an UPDATE that meets no row and a refused constraint give `none`.
--   Sending/Session: the transaction. A `World` has the committed tables, the working copy, whether
--     a transaction is open, and the calls made so far; a method is a function on it.
--   Sending/Environment: what a task is given by other systems.
--   Sending/Service: `SendingService`, a file for each group of methods: Execute for `execute`,
--     Authorization for `_authorize_and_send` and `_run_authorization_transaction`, Credentials,
--     Attachments, Delivery, Finalize and Helpers for the rest; Held, Invoked, Claimed, Gated and
--     Safety follow a task to the provider's call, Recorded and Committed to the final commit;
--     StorageDown is about one failure, HandedBack and Duplicate about tasks that come again.
--   Sending/Deferral: `deferral_delay`.
--   Sending/Recovery, Sending/Reconciliation: M/sending/recovery_service.py and
--     M/sending/reconciliation_service.py, with the tables that a run has read and the tables that its
--     writes meet apart; Recovery/Held, Recovery/Resolved and Reconciliation/Settled are about what
--     becomes of a message. Sending/Stored has the lemmas on reading a row back.
--   Lifecycle: the diagram of docs/architecture/MESSAGE_STATE_MACHINE.md, and the steps of the
--     scheduler and of these services over one set of tables.
--   Campaigns/Scheduling: `project_into_window` and, in Calendar, `WindowCalendar`.
--   Campaigns/Pacing: M/campaigns/pacing.py and M/campaigns/mailbox_assignment.py.
--   Campaigns/Progression: M/campaigns/progression.py over an interface to its repository; Sorted, Next
--     and Finished are about `plan_next_email`, Outcome, Run and Summary about a batch.
--   Safety: M/safety/thresholds.py and M/safety/evaluator.py, with the insert of a hold that they call
--     in M/replies/repository.py; Counted and Evaluated are about which mailboxes are held.
--   Replies/Matcher: `ReplyMatcher.match` of M/replies/matcher.py; Replies/Texts the text functions
--     that it uses; Matcher/Evidence what a match rests on.
--   Scheduler/Store: the tables of the outbox beside those of Sending/Store. Scheduler/Claim:
--     `claim_due_message` and `recover_expired_claim` of M/scheduler/repository.py; Claim/Outcome,
--     Eligible, Freed and Recovered say when they write and what, Keys and Steps follow the keys of the
--     outbox.
--   Scheduler/Outbox: M/scheduler/outbox_repository.py, a function on the deliveries for each method;
--     Allowed has the table's CHECK constraints, Steps the transactions, Fencing, Marks, Reclaimed and
--     Overdue the leases that are over. Scheduler/Key is the text of a key.
--   Scheduler/Publisher: `publish_pending_deliveries` of M/scheduler/service.py; Found, Leased and Backoff
--     are about what it sends and when it tries again. Scheduler/LateTask runs a task of a claim that has
--     been recovered. Scheduler/Selection is the round robin of `discover_and_claim_due_work`.
--   Tests in each folder: runs on concrete inputs.
--
-- Bounds and fuel. Instants and durations are natural numbers of microseconds; floats are rounded
-- down to one. The searches run on the bounds that the code gives them: 1440 minutes for a gap of
-- the clock, `max_days` days for a window, 3650 days for a calendar; the loop of `window` runs
-- `index + 1` rounds, each of which adds a window or ends the loop. The round robin of the scheduler
-- runs a round for each pair of a workspace and a candidate, which is more than it needs.
--
-- Not modelled. The database engine, the broker, the limiter's store, the cipher, object storage,
-- hashing, the time zone database and the providers' adapters are arguments. Logs, metrics, message
-- texts and row-level security settings are left out, as are the HTTP routes, the user interface
-- and the deployment files.
pub mod Base
pub mod Campaigns
pub mod Lifecycle
pub mod Replies
pub mod Safety
pub mod Scheduler
pub mod Sending
