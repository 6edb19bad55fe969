-- ===== src/Sending/Service/Gated.antt =====
-- A successful authorization transaction read the message afresh and ran every gate on it.
use email_outreach_platform.Base.{◌≡◌, refl, inl, inr, true, none, some, List, arith, Bool-cases}
use email_outreach_platform.Sending.Context.{LoadedSendContext}
use email_outreach_platform.Sending.Gates.{Check, pass, run_pre_authorization_gates}
use email_outreach_platform.Sending.Store.{Db}
use email_outreach_platform.Sending.Repository.{Loaded, missing, found, load_message_for_send}
use email_outreach_platform.Sending.Session.{ok, Event, World, write_or}
use email_outreach_platform.Sending.Environment.{SendTaskPayload, RateReservation, Environment}
use email_outreach_platform.Sending.Service.Held.{claims_of}
use email_outreach_platform.Sending.Service.Authorization.{
  Authorized, claim, gated_claim, claim_loaded, rate_control_agrees, run_authorization_transaction,
}
use email_outreach_platform.Sending.Service.Claimed.{IsClaimed, claim_writes, IsClaimed-of}

module _ (env : Environment) (payload : SendTaskPayload) where
  -- What the transaction from the tables `before` has done when it returns `a` in the world `w`.
  pub record HasAuthorized (ctx : LoadedSendContext) (before : Db) (events : List Event)
      (a : Authorized) (w : World) : Type 0 where
    pub reloaded :
        load_message_for_send env.is_locked_later before ctx.workspace_id ctx.message_id
        ≡ found a.context
    pub gated :
        run_pre_authorization_gates env.sha256_hex env.safety_later a.context
          payload.dispatch_generation env.gate_clock_later
        ≡ pass
    pub same_attempt : a.attempt_id ≡ env.attempt_id
    pub claimed : IsClaimed a.context.message_id env.attempt_id (claims_of w.db)
    pub committed : w.work ≡ w.db
    pub same_events : w.events ≡ events

  module _ (ctx : LoadedSendContext) (reservation : RateReservation) (before : Db) where
    abbrev gates_on : LoadedSendContext → Check
    gates_on fresh =
        run_pre_authorization_gates env.sha256_hex env.safety_later fresh
          payload.dispatch_generation env.gate_clock_later

    gated_claim-HasAuthorized :
        (fresh : LoadedSendContext) (check : Check) (w : World) (a : Authorized)
        → load_message_for_send env.is_locked_later before ctx.workspace_id ctx.message_id
          ≡ found fresh
        → gates_on fresh ≡ check
        → (gated_claim env payload fresh reservation check w).0 ≡ ok a
        → HasAuthorized ctx before w.events a (gated_claim env payload fresh reservation check w).1
    unfolding gated_claim
    gated_claim-HasAuthorized fresh (some r) w a l g h = absurd (cc)
    gated_claim-HasAuthorized fresh none w a l g h =
        let (aid, same, moved, settled, quiet) = claim_writes env payload fresh reservation w a h in
        record {
          reloaded = rw same l;
          gated = rw same g;
          same_attempt = aid;
          claimed = rw same (
              IsClaimed-of env payload fresh reservation w.work
                (claim env payload fresh reservation w).1.db moved);
          committed = settled;
          same_events = quiet;
        }

    claim_loaded-HasAuthorized :
        (loaded : Loaded) (w : World) (a : Authorized)
        → load_message_for_send env.is_locked_later before ctx.workspace_id ctx.message_id ≡ loaded
        → (claim_loaded env payload reservation loaded w).0 ≡ ok a
        → HasAuthorized ctx before w.events a (claim_loaded env payload reservation loaded w).1
    unfolding claim_loaded
    claim_loaded-HasAuthorized Loaded.locked w a l h = absurd (cc)
    claim_loaded-HasAuthorized missing w a l h = absurd (cc)
    claim_loaded-HasAuthorized (found fresh) w a l h =
        gated_claim-HasAuthorized fresh (gates_on fresh) w a l refl h

  pub run-HasAuthorized :
      (ctx : LoadedSendContext) (reservation : RateReservation) (w : World) (a : Authorized)
      → (run_authorization_transaction env payload ctx reservation w).0 ≡ ok a
      → HasAuthorized ctx w.work w.events a
          (run_authorization_transaction env payload ctx reservation w).1
  unfolding run_authorization_transaction
  run-HasAuthorized ctx reservation w a h =
      elim (Bool-cases (rate_control_agrees env payload env.rate_control reservation)) [
        | inl agrees ↦ rw agrees (
            claim_loaded-HasAuthorized ctx reservation w.work
              (load_message_for_send env.is_locked_later w.work ctx.workspace_id ctx.message_id)
              (record w { is_open = true }) a refl (ground arith))
        | inr stale ↦ absurd (ground arith)
      ]

  -- A transaction that fails has called nothing.
  pub events-run :
      (ctx : LoadedSendContext) (reservation : RateReservation) (w : World)
      → (run_authorization_transaction env payload ctx reservation w).1.events ≡ w.events
  unfolding run_authorization_transaction claim_loaded gated_claim claim write_or
  events-run ctx reservation w = ground arith
