-- ===== src/Sending/Service/Authorization.antt =====
-- `_authorize_and_send` and `_run_authorization_transaction` of
-- backend/app/modules/sending/service.py, and `has_mailbox_volume_cap` of
-- backend/app/modules/rate_limit/policy_service.py.
use email_outreach_platform.Base.{
  ℕ, ◌+◌, ◌*◌, Bool, true, false, not, ◌&&◌, ◌||◌, Option, none, some, List, [], ◌∷◌, map, leb,
  ◌==◌, if◌then◌else◌, second,
}
use email_outreach_platform.Sending.Context.{LoadedSendContext}
use email_outreach_platform.Sending.Gates.{Check, is_campaign, run_pre_authorization_gates}
use email_outreach_platform.Sending.Store.{prepared, Attempt, Debit, AuditAction, send_deferred}
use email_outreach_platform.Sending.Repository.{Loaded, missing, found, load_message_for_send}
use email_outreach_platform.Sending.Repository.Writes.{
  insert_prepared_attempt, next_attempt_ordinal, insert_capacity_debit,
  transition_message_to_sending,
}
use email_outreach_platform.Sending.Session.{
  AbortReason, rate_control_generation_mismatch, locked_by_concurrent_worker,
  message_version_conflict, attempt_already_claimed, authorization_aborted, Result, ok, err,
  reserved, released, M, ◌>>=◌, ◌>>◌, pure, raise, attempt, query, write, write_or, commit,
  rollback, emit,
}
use email_outreach_platform.Sending.Deferral.{deferral_delay}
use email_outreach_platform.Sending.Environment.{
  SendTaskPayload, RateScopeKind, mailbox, RatePolicySpec, RateReservation, GenerationReply,
  current, ReserveReply, denied, granted, RateControl, Environment, deferred_outcome, noop_outcome,
  mailbox_limits_missing, limiter_unavailable, limiter_denied, already_claimed, of_abort,
  SendOutcome,
}
use email_outreach_platform.Sending.Service.Helpers.{audit, outcome_of, hand_back}
use email_outreach_platform.Sending.Service.Delivery.{invoke_provider_and_finalize}

-- MIN_CAP_WINDOW_SECONDS
abbrev pub min_cap_window_seconds : ℕ
min_cap_window_seconds = 3600

is_mailbox_kind : RateScopeKind → Bool
is_mailbox_kind mailbox = true
is_mailbox_kind _ = false

unfoldable pub has_mailbox_volume_cap : List RatePolicySpec → Bool
unfolding is_mailbox_kind
has_mailbox_volume_cap [] = false
has_mailbox_volume_cap (p ∷ rest) =
    (is_mailbox_kind p.kind && leb min_cap_window_seconds p.window_seconds)
    || has_mailbox_volume_cap rest

-- SAFETY_HOLD_RETRY and AUTHORIZATION_WINDOW_SECONDS
abbrev pub safety_hold_retry : ℕ
safety_hold_retry = 15 * 60 * second

abbrev authorization_window : ℕ
authorization_window = 30 * second

-- What the authorization transaction returns.
pub record Authorized : Type 0 where
  pub attempt_id : ℕ
  pub context : LoadedSendContext
  pub credential_generation : ℕ

module _ (env : Environment) (payload : SendTaskPayload) where
  unfoldable pub prepared_attempt : LoadedSendContext → ℕ → Attempt
  prepared_attempt ctx ordinal = record {
    id = env.attempt_id;
    workspace_id = ctx.workspace_id;
    message_id = ctx.message_id;
    mailbox_id = ctx.mailbox_id;
    ordinal = ordinal;
    credential_generation = ctx.mailbox_current_connection_generation;
    authorization_deadline = env.authorization_clock + authorization_window;
    dispatch_generation = ctx.dispatch_generation;
    evidence_state = prepared;
    completed_at = none;
    provider_request_id = none;
    provider_message_ref = none;
    provider_thread_ref = none;
    error_category = none;
    error_code = none;
  }

  unfoldable pub debit_of : LoadedSendContext → RateReservation → Debit
  debit_of ctx reservation = record {
    workspace_id = ctx.workspace_id;
    attempt_id = env.attempt_id;
    reservation_id = reservation.reservation_id;
    quantity = 1;
    scopes = map (λ (p : RatePolicySpec). p.source_id) env.policies;
  }

  -- The claim, the debit and the transition, committed together.
  unfoldable pub claim : LoadedSendContext → RateReservation → M Authorized
  unfolding prepared_attempt debit_of
  claim ctx reservation = do
    ordinal ← query (λ db. next_attempt_ordinal db ctx.workspace_id ctx.message_id)
    write_or (λ db. insert_prepared_attempt db (prepared_attempt ctx ordinal))
        attempt_already_claimed
    write (λ db. insert_capacity_debit db (debit_of ctx reservation))
    write_or
        (λ db. transition_message_to_sending db ctx.workspace_id ctx.message_id ctx.message_version)
        (authorization_aborted message_version_conflict)
    commit
    pure (record {
      attempt_id = env.attempt_id;
      context = ctx;
      credential_generation = ctx.mailbox_current_connection_generation;
    })

  unfoldable pub gated_claim : LoadedSendContext → RateReservation → Check → M Authorized
  unfolding claim
  gated_claim ctx reservation none = claim ctx reservation
  gated_claim ctx reservation (some r) =
      raise (authorization_aborted (AbortReason.gate_rejected r.terminal_reason))

  unfoldable pub claim_loaded : RateReservation → Loaded → M Authorized
  unfolding gated_claim
  claim_loaded reservation Loaded.locked = raise (authorization_aborted locked_by_concurrent_worker)
  claim_loaded reservation missing = raise (authorization_aborted AbortReason.message_not_found)
  claim_loaded reservation (found ctx) = gated_claim ctx reservation (
      run_pre_authorization_gates env.sha256_hex env.safety_later ctx payload.dispatch_generation
        env.gate_clock_later)

  unfoldable pub rate_control_agrees : Option RateControl → RateReservation → Bool
  rate_control_agrees none reservation = false
  rate_control_agrees (some status) reservation =
      status.is_ready && status.generation == reservation.generation

  unfoldable pub run_authorization_transaction : LoadedSendContext → RateReservation → M Authorized
  unfolding rate_control_agrees claim_loaded
  run_authorization_transaction ctx reservation =
      if rate_control_agrees env.rate_control reservation
      then (do
        loaded ←
            query
              (λ db. load_message_for_send env.is_locked_later db ctx.workspace_id ctx.message_id)
        claim_loaded reservation loaded)
      else raise (authorization_aborted rate_control_generation_mismatch)

  -- The handlers of the exceptions of the authorization transaction.
  unfoldable pub after_authorization :
      LoadedSendContext → RateReservation → Result Authorized → M SendOutcome
  after_authorization ctx reservation (ok a) =
      invoke_provider_and_finalize env a.context a.attempt_id a.credential_generation
  after_authorization ctx reservation (err (authorization_aborted reason)) = do
    emit (released reservation.reservation_id)
    rollback
    pure (outcome_of ctx deferred_outcome (some (of_abort reason)))
  after_authorization ctx reservation (err attempt_already_claimed) = do
    emit (released reservation.reservation_id)
    rollback
    pure (outcome_of ctx noop_outcome (some already_claimed))
  after_authorization ctx reservation (err e) = raise e

  -- The limiter's answer; a generation that is not set counts as unavailable.
  unfoldable pub with_reservation : LoadedSendContext → ReserveReply → M SendOutcome
  with_reservation ctx ReserveReply.unavailable = do
    rollback
    audit ctx AuditAction.rate_limit_unavailable
    commit
    pure (outcome_of ctx deferred_outcome (some limiter_unavailable))
  with_reservation ctx (denied retry_after) = do
    rollback
    hand_back env ctx (deferral_delay retry_after env.deferral_random)
    commit
    pure (outcome_of ctx deferred_outcome (some limiter_denied))
  with_reservation ctx (granted reservation) = do
    emit (reserved reservation.reservation_id)
    a ← attempt (run_authorization_transaction ctx reservation)
    after_authorization ctx reservation a

  unfoldable pub reserve_with : GenerationReply → ReserveReply
  reserve_with GenerationReply.unavailable = ReserveReply.unavailable
  reserve_with (current none) = ReserveReply.unavailable
  reserve_with (current (some generation)) = env.reserve env.policies generation

  unfoldable pub authorize_and_send : LoadedSendContext → M SendOutcome
  unfolding with_reservation reserve_with
  authorize_and_send ctx =
      if is_campaign ctx.purpose && not (has_mailbox_volume_cap env.policies)
      then (do
        audit ctx send_deferred
        hand_back env ctx safety_hold_retry
        commit
        pure (outcome_of ctx deferred_outcome (some mailbox_limits_missing)))
      else with_reservation ctx (reserve_with env.current_generation)
