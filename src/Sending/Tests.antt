-- ===== src/Sending/Tests.antt =====
-- Runs of the send service, and inputs for its theorems.
use email_outreach_platform.Base.{
  ◌*◌, ◌≤◌, min, max, ◌≡◌, refl, ◌≢◌, ◌↔◌, inl, true, false, none, some, [], ◌∷◌, arith, ◌==◌,
  if◌then◌else◌, second, codes,
}
use email_outreach_platform.Sending.Context.{MessageStatus, LoadedSendContext}
use email_outreach_platform.Sending.Gates.{
  pass, is_campaign, recipient_rejected, run_pre_authorization_gates,
}
use email_outreach_platform.Sending.Gates.Sendable.{Sendable, gates_pass_iff}
use email_outreach_platform.Sending.Gates.Address.{IsAddress, recipient_accepted_iff}
use email_outreach_platform.Sending.Store.{Message, Db, message_row, mailbox_row, put_message}
use email_outreach_platform.Sending.Repository.{found, context_of, load_message_for_send}
use email_outreach_platform.Sending.Repository.Writes.{deferred_row, defer_for_capacity}
use email_outreach_platform.Sending.Deferral.{
  min_deferral, max_deferral, deferral_delay, deferral_delay_bounds,
}
use email_outreach_platform.Sending.Session.{integrity_error, ok, err}
use email_outreach_platform.Sending.Environment.{
  AttachmentRow, storage_down, Environment, sent_outcome, noop_outcome, OutcomeReason, SendOutcome,
}
use email_outreach_platform.Sending.Service.Helpers.{outcome_of}
use email_outreach_platform.Sending.Service.Delivery.{deliver, with_credential}
use email_outreach_platform.Sending.Service.Execute.{execute}
use email_outreach_platform.Sending.Service.Safety.{session, Calls, IsAuthorized, execute-Calls}
use email_outreach_platform.Sending.Service.Recorded.{Recorded}
use email_outreach_platform.Sending.Service.Committed.{deliver-Recorded}
use email_outreach_platform.Sending.Service.StorageDown.{storage_down_lem}
use email_outreach_platform.Sending.Service.Duplicate.{duplicate_is_ignored}
use email_outreach_platform.Sending.Service.HandedBack.{HandedBack, hand_back_ends_claim}
use email_outreach_platform.Sending.Sample.{
  sample_message, sample_mailbox, sample_db, no_tables, sample_env, sample_payload, run,
}

sample_is_sent :
    (run sample_env sample_payload sample_db).0
    ≡ ok (record {
      message_id = 7;
      outcome = sent_outcome;
      reason = none;
      attempt_id = some 60;
      provider_message_id = some (codes "g1");
    })
unfolding run
sample_is_sent = refl

execute-Calls_example :
    Calls
      (IsAuthorized sample_env sample_payload sample_db)
      (execute sample_env sample_payload (session sample_db)).1.events
execute-Calls_example = execute-Calls sample_env sample_payload sample_db

abbrev sample_context : LoadedSendContext
sample_context = context_of sample_db 1 7 sample_message sample_mailbox

gates_pass_iff_example :
    (run_pre_authorization_gates (λ t. codes "d1") no_tables sample_context 1 (200 * second) ≡ pass)
    ↔ Sendable (λ t. codes "d1") no_tables sample_context 1 (200 * second)
gates_pass_iff_example = gates_pass_iff (λ t. codes "d1") no_tables sample_context 1 (200 * second)

recipient_accepted_iff_example :
    (recipient_rejected (codes "ann@example.org") ≡ false) ↔ IsAddress (codes "ann@example.org")
recipient_accepted_iff_example = recipient_accepted_iff (codes "ann@example.org")

deferral_delay_bounds_example :
    (min_deferral ≤ deferral_delay (some (600 * second)) 400000)
    × (min (600 * second) max_deferral ≤ deferral_delay (some (600 * second)) 400000)
    × (10 * deferral_delay (some (600 * second)) 400000
        ≤ 11 * min (max (600 * second) min_deferral) max_deferral)
deferral_delay_bounds_example = deferral_delay_bounds (some (600 * second)) 400000 (omega arith)

-- The tables of a task that has claimed its message, and its session.
abbrev claimed_message : Message
claimed_message = record sample_message { status = MessageStatus.sending; version = 5 }

abbrev claimed_db : Db
claimed_db = record sample_db { messages = λ id. if id == 7 then some claimed_message else none }

abbrev claimed_context : LoadedSendContext
claimed_context = context_of claimed_db 1 7 claimed_message sample_mailbox

claimed_row :
    message_row claimed_db claimed_context.workspace_id claimed_context.message_id
    ≡ some claimed_message
unfolding message_row context_of
claimed_row = refl

abbrev sent_result : SendOutcome
sent_result = record {
  message_id = 7;
  outcome = sent_outcome;
  reason = none;
  attempt_id = some 60;
  provider_message_id = some (codes "g1");
}

-- The first try of the final commit fails.
abbrev flaky_env : Environment
flaky_env = record sample_env { final_commits = (false, true, true) }

delivered_late :
    (deliver flaky_env claimed_context 60 [] [] (session claimed_db)).0 ≡ ok sent_result
unfolding run
delivered_late = refl

deliver-Recorded_example :
    Recorded sent_result 7
      (deliver flaky_env claimed_context 60 [] [] (session claimed_db)).1.db.messages
unfolding context_of
deliver-Recorded_example =
    deliver-Recorded flaky_env claimed_context 60 [] [] (session claimed_db) claimed_message
      sent_result claimed_row claimed_row delivered_late

abbrev one_file : AttachmentRow
one_file = record {
  storage_key = codes "k1";
  filename = codes "a.pdf";
  content_type = codes "application/pdf";
  size_bytes = 3;
  sha256 = codes "f1";
  is_inline = false;
  content_id = none;
}

abbrev down_env : Environment
down_env = record sample_env {
  step_attachments = λ step. one_file ∷ [];
  download = λ key. storage_down;
}

campaign_lem : is_campaign claimed_context.purpose ≡ true
unfolding is_campaign context_of
campaign_lem = refl

storage_down_example :
    ((with_credential down_env claimed_context 60 (ok ([], 2)) (session claimed_db)).0
      ≡ err integrity_error)
    × ((with_credential down_env claimed_context 60 (ok ([], 2)) (session claimed_db)).1.db
        ≡ claimed_db)
    × ((with_credential down_env claimed_context 60 (ok ([], 2)) (session claimed_db)).1.events
        ≡ [])
unfolding context_of
storage_down_example =
    storage_down_lem down_env claimed_context 60 [] 2 50 one_file [] (session claimed_db)
      campaign_lem refl refl refl

-- The task of the first dispatch, delivered again when the message has moved on to the second.
abbrev moved_on : Message
moved_on = record sample_message { dispatch_generation = 2 }

abbrev moved_db : Db
moved_db = record sample_db { messages = λ id. if id == 7 then some moved_on else none }

moved_loaded :
    load_message_for_send sample_env.is_locked moved_db 1 7
    ≡ found (context_of moved_db 1 7 moved_on sample_mailbox)
unfolding load_message_for_send message_row mailbox_row
moved_loaded = refl

moved_stale :
    (context_of moved_db 1 7 moved_on sample_mailbox).dispatch_generation
    ≢ sample_payload.dispatch_generation
unfolding context_of
moved_stale h = absurd (omega (arith, h))

duplicate_is_ignored_example :
    (reason : OutcomeReason) × (execute sample_env sample_payload (session moved_db) ≡ (
      ok (outcome_of (context_of moved_db 1 7 moved_on sample_mailbox) noop_outcome (some reason)),
      session moved_db,
    ))
duplicate_is_ignored_example =
    duplicate_is_ignored sample_env sample_payload moved_db
      (context_of moved_db 1 7 moved_on sample_mailbox) moved_loaded (inl moved_stale)

abbrev handed_db : Db
handed_db =
    put_message sample_db 7 (deferred_row sample_message (900 * second) MessageStatus.scheduled)

sample_handed : defer_for_capacity sample_db 1 7 1 (900 * second) ≡ some handed_db
unfolding defer_for_capacity message_row
sample_handed = refl

hand_back_ends_claim_example :
    HandedBack sample_db handed_db 1 7 1 (900 * second)
    × ((ctx : LoadedSendContext)
        → load_message_for_send sample_env.is_locked handed_db 1 7 ≡ found ctx
        → (reason : OutcomeReason) × (execute sample_env sample_payload (session handed_db)
            ≡ (ok (outcome_of ctx noop_outcome (some reason)), session handed_db)))
hand_back_ends_claim_example =
    hand_back_ends_claim sample_env sample_payload sample_db handed_db (900 * second) sample_handed
