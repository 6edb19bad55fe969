-- ===== src/Scheduler/LateTask.antt =====
-- A task of a claim that expired, run after `recover_expired_claim` has put its message back: the
-- delivery was published already, so the queue may still hold the task.
use email_outreach_platform.Base.{
  ℕ, ◌+◌, ◌≡◌, refl, sym, ap, ◌∙◌, Bool, true, false, some, [], arith, get_or,
}
use email_outreach_platform.Sending.Context.{
  MessageStatus, retry_scheduled, skipped, LoadedSendContext,
}
use email_outreach_platform.Sending.Gates.{
  message_state_rejected, GateReason, invalid_message_state, Rejection, is_resolved,
  is_proceed_eligible, check_dispatch_generation, check_message_state, run_pre_authorization_gates,
}
use email_outreach_platform.Sending.Store.{
  StoredReason, Message, message_skipped, Db, message_row, put_message,
}
use email_outreach_platform.Sending.Session.{ok, write_maybe}
use email_outreach_platform.Sending.Environment.{
  SendTaskPayload, Environment, skipped_outcome, OutcomeReason,
}
use email_outreach_platform.Sending.Repository.{found, context_of, load_message_for_send}
use email_outreach_platform.Sending.Repository.Writes.{skip_message, record_audit_event}
use email_outreach_platform.Sending.Service.Helpers.{audit, outcome_of, skip}
use email_outreach_platform.Sending.Service.Execute.{
  handling_of, handle_rejection, send_gated, execute_loaded, execute,
}
use email_outreach_platform.Sending.Service.Safety.{session}
use email_outreach_platform.Sending.Stored.{==-refl, some_injective, put_read}
use email_outreach_platform.Scheduler.Store.{Tables}
use email_outreach_platform.Scheduler.Claim.{is_scheduled, recovered_row, recover_expired_claim}
use email_outreach_platform.Scheduler.Claim.Recovered.{recover_cases}

context_lem :
    (is_locked : Bool) (db : Db) (ws mid : ℕ) (m : Message) (ctx : LoadedSendContext)
    → message_row db ws mid ≡ some m
    → load_message_for_send is_locked db ws mid ≡ found ctx
    → (ctx.dispatch_generation ≡ m.dispatch_generation)
      × (ctx.message_status ≡ m.status)
      × (ctx.message_version ≡ m.version)
      × (ctx.message_id ≡ mid)
      × (ctx.workspace_id ≡ ws)
unfolding load_message_for_send context_of message_row
context_lem is_locked db ws mid m ctx row h = ground arith

waiting_states :
    (s : MessageStatus)
    → is_scheduled s ≡ true
    → (is_resolved s ≡ false) × (is_proceed_eligible s ≡ false)
unfolding is_scheduled is_resolved is_proceed_eligible
waiting_states MessageStatus.scheduled h = (refl, refl)
waiting_states retry_scheduled h = (refl, refl)
waiting_states s h = absurd (ground arith)

abbrev state_rejection : Rejection
state_rejection = record { class = message_state_rejected; terminal_reason = invalid_message_state }

abbrev pub skipped_row : Message → GateReason → Message
skipped_row m reason = record m {
  status = skipped;
  terminal_reason = some (StoredReason.of_gate reason);
  version = m.version + 1;
}

-- The tables that a skip leaves.
abbrev pub after_skip : Db → LoadedSendContext → Message → GateReason → Db
after_skip db ctx m reason =
    record_audit_event (put_message db ctx.message_id (skipped_row m reason)) (record {
      workspace_id = ctx.workspace_id;
      action = message_skipped;
      target_id = ctx.message_id;
    })

skip_message_lem :
    (db : Db) (ws mid : ℕ) (m : Message) (version : ℕ) (reason : GateReason)
    → message_row db ws mid ≡ some m
    → version ≡ m.version
    → skip_message db ws mid version (StoredReason.of_gate reason)
      ≡ some (put_message db mid (skipped_row m reason))
unfolding skip_message
skip_message_lem db ws mid m version reason row same = rw (row, same, ==-refl m.version) refl

skip_lem :
    (db : Db) (ctx : LoadedSendContext) (m : Message) (reason : GateReason)
    → message_row db ctx.workspace_id ctx.message_id ≡ some m
    → ctx.message_version ≡ m.version
    → skip ctx reason (record (session db) { is_open = true }) ≡ (
      ok (outcome_of ctx skipped_outcome (some (OutcomeReason.of_gate reason))),
      session (after_skip db ctx m reason),
    )
unfolding skip audit write_maybe
skip_lem db ctx m reason row same =
    rw (skip_message_lem db ctx.workspace_id ctx.message_id m ctx.message_version reason row same)
      refl

module _ (env : Environment) (payload : SendTaskPayload) where
  state_rejected :
      (ctx : LoadedSendContext)
      → ctx.dispatch_generation ≡ payload.dispatch_generation
      → is_scheduled ctx.message_status ≡ true
      → run_pre_authorization_gates env.sha256_hex env.safety ctx payload.dispatch_generation
          env.gate_clock
        ≡ some state_rejection
  unfolding run_pre_authorization_gates check_dispatch_generation check_message_state
  state_rejected ctx same h =
      let (open_message, waits) = waiting_states ctx.message_status h in
      rw (same, ==-refl payload.dispatch_generation, open_message, waits) refl

  -- A task that meets its message scheduled, at the task's generation, skips it.
  pub scheduled_is_skipped :
      (db : Db) (ctx : LoadedSendContext) (m : Message)
      → load_message_for_send env.is_locked db payload.workspace_id payload.message_id ≡ found ctx
      → message_row db payload.workspace_id payload.message_id ≡ some m
      → m.dispatch_generation ≡ payload.dispatch_generation
      → is_scheduled m.status ≡ true
      → execute env payload (session db) ≡ (
        ok (outcome_of ctx skipped_outcome (some (OutcomeReason.of_gate invalid_message_state))),
        session (after_skip db ctx m invalid_message_state),
      )
  unfolding execute execute_loaded send_gated handle_rejection handling_of
  scheduled_is_skipped db ctx m loaded row same waits =
      let (g, s, v, id, ws) =
        context_lem env.is_locked db payload.workspace_id payload.message_id m ctx row loaded in
      rw (loaded, state_rejected ctx (g ∙ same) (rw s waits))
        (skip_lem db ctx m invalid_message_state (rw (id, ws) row) v)

  after_skip-put :
      (db : Db) (ctx : LoadedSendContext) (ws mid : ℕ) (m : Message)
      → message_row db ws mid ≡ some m
      → ctx.message_id ≡ mid
      → message_row (after_skip db ctx m invalid_message_state) ws mid
        ≡ some (skipped_row m invalid_message_state)
  unfolding record_audit_event message_row
  after_skip-put db ctx ws mid m row id =
      rw id (put_read db ws mid m (skipped_row m invalid_message_state) row refl)

  -- When an expired claim has been recovered, the task of that claim, run before the next claim,
  -- passes the generation check, meets its message scheduled, and skips it for good: nothing is sent,
  -- and the message is terminal although nothing is wrong with it.
  pub late_task_skips :
      (t u : Tables) (is_locked : Bool) (m : Message) (ctx : LoadedSendContext)
      → message_row t.db payload.workspace_id payload.message_id ≡ some m
      → is_scheduled (get_or MessageStatus.scheduled m.dispatch_origin) ≡ true
      → recover_expired_claim t payload.workspace_id payload.message_id payload.dispatch_generation
          is_locked
        ≡ some u
      → load_message_for_send env.is_locked u.db payload.workspace_id payload.message_id ≡ found ctx
      → (n : Message) × ((execute env payload (session u.db)).0
          ≡ ok
              (outcome_of ctx skipped_outcome (some (OutcomeReason.of_gate invalid_message_state))))
        × (message_row
              (execute env payload (session u.db)).1.db
              payload.workspace_id
              payload.message_id
            ≡ some n)
        × (n.status ≡ skipped)
        × ((execute env payload (session u.db)).1.events ≡ [])
  unfolding recovered_row
  late_task_skips t u is_locked m ctx row origin recovered loaded =
      let (k, r, e) =
        recover_cases t u payload.workspace_id payload.message_id payload.dispatch_generation
          is_locked recovered in
      let same : k ≡ m = some_injective k m (sym r.stored ∙ row) in
      let after : message_row u.db payload.workspace_id payload.message_id
          ≡ some (recovered_row k) =
        rw e (
          put_read t.db payload.workspace_id payload.message_id k (recovered_row k) r.stored
            refl) in
      let run =
        scheduled_is_skipped u.db ctx (recovered_row k) loaded after r.same_generation
          (rw same origin) in
      let ids =
        context_lem env.is_locked u.db payload.workspace_id payload.message_id (recovered_row k) ctx
          after loaded in
      (
        skipped_row (recovered_row k) invalid_message_state,
        ap (λ o. o.0) run,
        rw run (
            after_skip-put u.db ctx payload.workspace_id payload.message_id (recovered_row k) after
              ids.3),
        refl,
        ap (λ o. o.1.events) run,
      )
