-- ===== src/Sending/Service/Duplicate.antt =====
-- A task that is delivered again, after its message has been handed back or resolved.
use email_outreach_platform.Base.{
  ◌≡◌, refl, ◌≢◌, ◌⊎◌, inl, inr, true, false, some, arith, ◌==◌, Bool-cases,
}
use email_outreach_platform.Sending.Context.{LoadedSendContext}
use email_outreach_platform.Sending.Gates.{
  message_already_resolved, stale_dispatch_generation, stale_generation, already_resolved,
  Rejection, is_resolved, check_dispatch_generation, check_message_state,
  run_pre_authorization_gates,
}
use email_outreach_platform.Sending.Store.{Db}
use email_outreach_platform.Sending.Repository.{found, load_message_for_send}
use email_outreach_platform.Sending.Session.{ok, World}
use email_outreach_platform.Sending.Environment.{
  SendTaskPayload, Environment, noop_outcome, OutcomeReason,
}
use email_outreach_platform.Sending.Service.Helpers.{outcome_of}
use email_outreach_platform.Sending.Service.Execute.{
  no_operation, handling_of, handle_rejection, send_gated, execute_loaded, execute,
}
use email_outreach_platform.Sending.Service.Safety.{session}

module _ (env : Environment) (payload : SendTaskPayload) where
  stale_lem :
      (ctx : LoadedSendContext)
      → (ctx.dispatch_generation ≢ payload.dispatch_generation)
        ⊎ (is_resolved ctx.message_status ≡ true)
      → (r : Rejection) × (run_pre_authorization_gates env.sha256_hex env.safety ctx
            payload.dispatch_generation env.gate_clock
          ≡ some r)
        × (handling_of r.class ≡ no_operation)
  unfolding run_pre_authorization_gates check_dispatch_generation check_message_state handling_of
  stale_lem ctx h = elim (Bool-cases (ctx.dispatch_generation == payload.dispatch_generation)) [
    | inl same ↦ (
      record { class = message_already_resolved; terminal_reason = already_resolved },
      ground arith,
      refl,
    )
    | inr stale ↦ (
      record { class = stale_dispatch_generation; terminal_reason = stale_generation },
      ground arith,
      refl,
    )
  ]

  rejected_lem :
      (ctx : LoadedSendContext) (r : Rejection) (w : World)
      → handling_of r.class ≡ no_operation
      → send_gated env payload ctx (some r) w ≡ (
        ok (outcome_of ctx noop_outcome (some (OutcomeReason.of_gate r.terminal_reason))),
        record w { work = w.db; is_open = false },
      )
  unfolding send_gated handle_rejection
  rejected_lem ctx r w h = rw h refl

  -- A task whose message has another dispatch generation by now, or is already resolved, does nothing:
  -- it reports a no-op, makes no call of the limiter or the provider, and leaves the tables as they are.
  pub duplicate_is_ignored :
      (db : Db) (ctx : LoadedSendContext)
      → load_message_for_send env.is_locked db payload.workspace_id payload.message_id ≡ found ctx
      → (ctx.dispatch_generation ≢ payload.dispatch_generation)
        ⊎ (is_resolved ctx.message_status ≡ true)
      → (reason : OutcomeReason) × (execute env payload (session db)
          ≡ (ok (outcome_of ctx noop_outcome (some reason)), session db))
  unfolding execute execute_loaded
  duplicate_is_ignored db ctx loaded h =
      let (r, refused, handled) = stale_lem ctx h in
      (
        OutcomeReason.of_gate r.terminal_reason,
        rw (loaded, refused) (rejected_lem ctx r (record (session db) { is_open = true }) handled),
      )
