-- ===== src/Scheduler/Tests.antt =====
-- Runs of the scheduler and the outbox, and inputs for their theorems.
use email_outreach_platform.Base.{
  ℕ, ◌*◌, ◌<◌, min, ◌≡◌, refl, ◌↔◌, ◌⊎◌, true, false, none, some, List, [], ◌∷◌, arith, ◌==◌,
  if◌then◌else◌, length, get_or, second, All, codes, update_where, select_where, first_where,
}
use email_outreach_platform.Sending.Context.{MessageStatus, skipped, Purpose, LoadedSendContext}
use email_outreach_platform.Sending.Gates.{
  invalid_message_state, is_campaign, is_running, is_ready, is_blocked,
}
use email_outreach_platform.Sending.Store.{Message, Db, message_row, mailbox_row, put_message}
use email_outreach_platform.Sending.Session.{ok}
use email_outreach_platform.Sending.Environment.{skipped_outcome, OutcomeReason}
use email_outreach_platform.Sending.Repository.{found, context_of, load_message_for_send}
use email_outreach_platform.Sending.Repository.Writes.{has_attempt_of, is_queued}
use email_outreach_platform.Sending.Service.Helpers.{outcome_of}
use email_outreach_platform.Sending.Service.Execute.{execute}
use email_outreach_platform.Sending.Service.Safety.{session}
use email_outreach_platform.Sending.Sample.{
  sample_message, sample_mailbox, sample_db, sample_env, sample_payload,
}
use email_outreach_platform.Scheduler.Selection.{DueMessageCandidate, select_due}
use email_outreach_platform.Scheduler.Selection.Rounds.{select_due-length}
use email_outreach_platform.Scheduler.Store.{
  email_send, OutboxWork, Delivery, Tables, same_key, has_key, has_work, has_delivery,
  send_consumer,
}
use email_outreach_platform.Scheduler.Claim.{
  ClaimRefusal, claimed, refused, NewIds, is_scheduled, is_due, campaign_gate, mailbox_gate,
  campaign_row, parent_gates, insert_work, insert_delivery, new_work, new_delivery, with_delivery,
  dispatch, claim_due_message, recovered_row, recover_expired_claim,
}
use email_outreach_platform.Scheduler.Claim.Keys.{IsConsistent}
use email_outreach_platform.Scheduler.Claim.Outcome.{Claimable}
use email_outreach_platform.Scheduler.Claim.Eligible.{after_claim, claim_iff}
use email_outreach_platform.Scheduler.Claim.Recovered.{
  after_recovery, Recoverable, Freed, recover_iff,
}
use email_outreach_platform.Scheduler.Claim.Steps.{claim, Reach, Reach-IsConsistent}
use email_outreach_platform.Scheduler.LateTask.{late_task_skips}
use email_outreach_platform.Scheduler.Outbox.{
  is_row, count_of, leased_row, can_lease, lease_delivery, is_lease_of, mark_published, mark_retry,
  can_reclaim, reclaim_each,
}
use email_outreach_platform.Scheduler.Outbox.Allowed.{delivery_allowed, AllAllowed}
use email_outreach_platform.Scheduler.Outbox.Steps.{lease, OutboxReach, OutboxReach-Allowed}
use email_outreach_platform.Scheduler.Outbox.Marks.{published_once}
use email_outreach_platform.Scheduler.Outbox.Overdue.{reclaimed_is_fenced}
use email_outreach_platform.Scheduler.Key.{semantic_key, generation_of_key, generation_round_trip}
use email_outreach_platform.Scheduler.Publisher.{Publisher, publish_pending_deliveries}
use email_outreach_platform.Scheduler.Publisher.Leased.{SentUnderLease, publish-SentUnderLease}

abbrev due_message : Message
due_message = record sample_message {
  status = MessageStatus.scheduled;
  dispatch_origin = none;
  claim_expires_at = none;
}

abbrev due_db : Db
due_db = record sample_db { messages = λ id. if id == 7 then some due_message else none }

abbrev due_tables : Tables
due_tables = record { db = due_db; authorizations = λ id. none; works = []; deliveries = [] }

abbrev new_ids : NewIds
new_ids = record { work_id = 100; delivery_id = 101; correlation_id = 102 }

due_row : message_row due_db 1 7 ≡ some due_message
unfolding message_row
due_row = refl

due-IsConsistent : IsConsistent due_tables
due-IsConsistent = record { behind = tt; differ = tt }

sample_claim :
    (claim_due_message due_tables 1 7 false (300 * second) (200 * second) (200 * second) new_ids).0
    ≡ claimed 2
unfolding claim_due_message message_row mailbox_row parent_gates campaign_gate mailbox_gate
    campaign_row is_campaign is_running is_ready is_blocked is_scheduled is_due dispatch insert_work
    insert_delivery with_delivery has_key has_work has_delivery new_work new_delivery same_key
sample_claim = refl

claim_iff_example :
    ((claim_due_message due_tables 1 7 false (300 * second) (200 * second) (200 * second) new_ids
        ≡ (claimed 2, after_claim due_tables 1 7 due_message (300 * second) (200 * second) new_ids))
      ↔ ((false ≡ false) × Claimable due_tables 1 7 (200 * second) (200 * second) due_message))
    × (((r : ClaimRefusal) × (claim_due_message due_tables 1 7 false
              (300 * second)
              (200 * second)
              (200 * second)
              new_ids
            ≡ (refused r, due_tables)))
        ⊎ ((false ≡ false) × Claimable due_tables 1 7 (200 * second) (200 * second) due_message))
claim_iff_example =
    claim_iff due_tables 1 7 false (300 * second) (200 * second) (200 * second) new_ids due_message
      due-IsConsistent due_row

Reach-IsConsistent_example :
    IsConsistent
      (claim_due_message due_tables 1 7 false
        (300 * second)
        (200 * second)
        (200 * second)
        new_ids).1
Reach-IsConsistent_example =
    Reach-IsConsistent
      (Reach.step _ _ _
        (claim due_tables 1 7 false (300 * second) (200 * second) (200 * second) new_ids)
        (Reach.stay _))
      due-IsConsistent

-- The claim of the sample's message, expired.
abbrev queued_tables : Tables
queued_tables = record due_tables { db = sample_db }

recover_iff_example :
    (((u : Tables) × (recover_expired_claim queued_tables 1 7 1 false ≡ some u))
      ↔ ((m : Message) × Recoverable queued_tables 1 7 1 false m))
    × ((recover_expired_claim queued_tables 1 7 1 false ≡ none)
        ⊎ ((u : Tables) × (recover_expired_claim queued_tables 1 7 1 false ≡ some u)
            × Freed queued_tables u 1 7 1))
recover_iff_example = recover_iff queued_tables 1 7 1 false

abbrev freed_tables : Tables
freed_tables = after_recovery queued_tables 1 7 1 sample_message

sample_row : message_row sample_db 1 7 ≡ some sample_message
unfolding message_row
sample_row = refl

sample_recovered : recover_expired_claim queued_tables 1 7 1 false ≡ some freed_tables
unfolding recover_expired_claim message_row has_attempt_of is_queued
sample_recovered = refl

abbrev freed_context : LoadedSendContext
freed_context = context_of freed_tables.db 1 7 (recovered_row sample_message) sample_mailbox

freed_loaded : load_message_for_send false freed_tables.db 1 7 ≡ found freed_context
unfolding load_message_for_send message_row mailbox_row put_message recovered_row
freed_loaded = refl

origin_lem : is_scheduled (get_or MessageStatus.scheduled sample_message.dispatch_origin) ≡ true
unfolding is_scheduled
origin_lem = refl

late_task_skips_example :
    (n : Message) × ((execute sample_env sample_payload (session freed_tables.db)).0
      ≡ ok (
          outcome_of freed_context skipped_outcome
            (some (OutcomeReason.of_gate invalid_message_state))))
    × (message_row (execute sample_env sample_payload (session freed_tables.db)).1.db 1 7 ≡ some n)
    × (n.status ≡ skipped)
    × ((execute sample_env sample_payload (session freed_tables.db)).1.events ≡ [])
late_task_skips_example =
    late_task_skips sample_env sample_payload queued_tables freed_tables false sample_message
      freed_context sample_row origin_lem sample_recovered freed_loaded

abbrev one_row : List Delivery
one_row = new_delivery 1 new_ids 0 ∷ []

abbrev leased_rows : List Delivery
leased_rows = (lease_delivery 1 101 5 60 0 one_row).1

one-Allowed : AllAllowed one_row
unfolding delivery_allowed new_delivery
one-Allowed = (refl, tt)

OutboxReach-Allowed_example : AllAllowed leased_rows
OutboxReach-Allowed_example =
    OutboxReach-Allowed (OutboxReach.step _ _ _ (lease one_row 1 101 5 60 0) (OutboxReach.stay _))
      one-Allowed

one_of_key : (count_of 1 101 one_row ≡ 1) × (count_of 1 101 leased_rows ≡ 1)
unfolding count_of select_where lease_delivery update_where new_delivery is_row
one_of_key = (refl, refl)

lease_of_two : (lease_delivery 1 101 5 60 0 one_row).0 ≡ some 2
unfolding lease_delivery first_where new_delivery can_lease
lease_of_two = refl

was_marked : (mark_published 1 101 5 2 30 leased_rows).0 ≡ true
unfolding mark_published first_where lease_delivery update_where new_delivery is_lease_of leased_row
    can_lease
was_marked = refl

published_once_example :
    (mark_published 1 101 6 2 40 (mark_published 1 101 5 2 30 leased_rows).1
      ≡ (false, (mark_published 1 101 5 2 30 leased_rows).1))
    × (mark_retry 1 101 6 2 9 (codes "late") 40 (mark_published 1 101 5 2 30 leased_rows).1
        ≡ (false, (mark_published 1 101 5 2 30 leased_rows).1))
published_once_example =
    published_once 1 101 5 2 30 leased_rows (mark_published 1 101 5 2 30 leased_rows).1 6 40 9
      (codes "late") one_of_key.1 was_marked (OutboxReach.stay _)

abbrev stale_row : Delivery
stale_row = new_delivery 1 new_ids 0

abbrev freed_rows : List Delivery
freed_rows = (reclaim_each 70 (stale_row ∷ []) leased_rows).1

stale_key : (stale_row.workspace_id ≡ 1) × (stale_row.id ≡ 101)
unfolding new_delivery
stale_key = (refl, refl)

was_reclaimed : 0 < (reclaim_each 70 (stale_row ∷ []) leased_rows).0
unfolding reclaim_each select_where lease_delivery update_where new_delivery can_reclaim leased_row
    can_lease
was_reclaimed = omega arith

reclaimed_is_fenced_example :
    (mark_published 1 101 5 2 80 freed_rows ≡ (false, freed_rows))
    × (mark_retry 1 101 5 2 9 (codes "late") 80 freed_rows ≡ (false, freed_rows))
reclaimed_is_fenced_example =
    reclaimed_is_fenced 1 101 5 2 60 0 one_row leased_rows freed_rows freed_rows stale_row 5 70 80 9
      (codes "late") one_of_key.0 lease_of_two (OutboxReach.stay _) stale_key was_reclaimed refl
      (OutboxReach.stay _)

generation_round_trip_example :
    generation_of_key (semantic_key (λ id. codes "7f:2a") (email_send 7 12)) ≡ 12
generation_round_trip_example = generation_round_trip (λ id. codes "7f:2a") 7 12

abbrev sample_publisher : Publisher
sample_publisher = record {
  publisher_id = 5;
  lease_seconds = 60 * second;
  shown = λ id. codes "7f";
  send = λ task. none;
  jitter = λ id. 1000000;
  lease_fails = λ id. false;
  record_fails = λ id. false;
  lease_clock = λ id. 200 * second;
  record_clock = λ id. 201 * second;
}

abbrev one_work : List OutboxWork
one_work = new_work 1 7 2 new_ids 0 ∷ []

publish-SentUnderLease_example :
    All
      (SentUnderLease sample_publisher send_consumer (200 * second) one_work one_row)
      (publish_pending_deliveries sample_publisher send_consumer 50
        (200 * second)
        one_work
        (record { rows = one_row; sent = [] })).1.sent
publish-SentUnderLease_example =
    publish-SentUnderLease sample_publisher send_consumer (200 * second) one_work one_row 50

abbrev candidate : ℕ → ℕ → DueMessageCandidate
candidate id ws = record {
  id = id;
  workspace_id = ws;
  campaign_id = some 10;
  mailbox_id = 30;
  due_at = 0;
  purpose = Purpose.campaign;
  schedule_generation = 1;
  status = MessageStatus.scheduled;
  dispatch_generation = 1;
}

abbrev four_candidates : List DueMessageCandidate
four_candidates = candidate 1 1 ∷ candidate 2 1 ∷ candidate 3 1 ∷ candidate 4 2 ∷ []

-- The second workspace gets its turn before the first's queue is empty.
sample_selection : select_due 2 four_candidates ≡ candidate 1 1 ∷ candidate 4 2 ∷ []
unfolding select_due
sample_selection = refl

select_due-length_example : length (select_due 3 four_candidates) ≡ min 3 4
select_due-length_example = select_due-length 3 four_candidates
