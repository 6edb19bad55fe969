-- ===== src/Sending/Service/Safety.antt =====
-- When the provider is called, from a fresh session to the end of `execute`.
use mathlib.Core.Path.{subst}
use email_outreach_platform.Base.{
  ℕ, ◌≡◌, refl, ap, ◌∙◌, inl, inr, Bool, true, false, not, ◌&&◌, none, some, List, [], ◌∷◌, arith,
  Bool-cases,
}
use email_outreach_platform.Sending.Context.{LoadedSendContext}
use email_outreach_platform.Sending.Gates.{
  Rejection, Check, pass, is_campaign, run_pre_authorization_gates,
}
use email_outreach_platform.Sending.Store.{Db, message_row}
use email_outreach_platform.Sending.Repository.{
  Loaded, missing, found, context_of, load_message_for_send,
}
use email_outreach_platform.Sending.Session.{
  Failure, attempt_already_claimed, authorization_aborted, Result, ok, err, Invocation, Event,
  reserved, released, invoked, World, write_maybe,
}
use email_outreach_platform.Sending.Environment.{
  SendTaskPayload, RateReservation, ReserveReply, denied, granted, Environment,
}
use email_outreach_platform.Sending.Service.Helpers.{audit, hand_back, skip}
use email_outreach_platform.Sending.Service.Delivery.{invoke_provider_and_finalize}
use email_outreach_platform.Sending.Service.Held.{Claims, claims_of, holds_transaction}
use email_outreach_platform.Sending.Service.Invoked.{
  CalledOnce, not_called, called, invoke-CalledOnce,
}
use email_outreach_platform.Sending.Service.Authorization.{
  has_mailbox_volume_cap, Authorized, run_authorization_transaction, after_authorization,
  with_reservation, reserve_with, authorize_and_send,
}
use email_outreach_platform.Sending.Service.Claimed.{IsClaimed}
use email_outreach_platform.Sending.Service.Gated.{HasAuthorized, run-HasAuthorized, events-run}
use email_outreach_platform.Sending.Gates.Sendable.{Sendable, gates_pass_iff}
use email_outreach_platform.Sending.Service.Execute.{
  Handling, no_operation, deferral, permanent, handling_of, handle_rejection, send_gated,
  execute_loaded, execute,
}

-- The calls among the events, the latest first.
abbrev pub invocations : List Event → List Invocation
invocations [] = []
invocations (invoked i ∷ rest) = i ∷ invocations rest
invocations (reserved r ∷ rest) = invocations rest
invocations (released r ∷ rest) = invocations rest

-- A session that has read nothing yet.
abbrev pub session : Db → World
session db = record { db = db; work = db; is_open = false; events = [] }

-- No call was made, or one that `P` holds of.
pub data Calls (P : Invocation → Type 0) (events : List Event) : Type 0 where
  no_call : invocations events ≡ [] → Calls P events
  one_call : (i : Invocation) → invocations events ≡ i ∷ [] → P i → Calls P events

load_ids :
    (is_locked : Bool) (db : Db) (ws mid : ℕ) (ctx : LoadedSendContext)
    → load_message_for_send is_locked db ws mid ≡ found ctx
    → (ctx.message_id ≡ mid) × (ctx.workspace_id ≡ ws)
unfolding load_message_for_send context_of message_row
load_ids is_locked db ws mid ctx h = ground arith

module _ (env : Environment) (payload : SendTaskPayload) (db : Db) where
  -- What holds when the provider is called: the message as it is read in the authorization
  -- transaction passes the gates, and the committed tables show it being sent, with this call's
  -- prepared attempt and its debit.
  pub record IsAuthorized (i : Invocation) : Type 0 where
    pub context : LoadedSendContext
    pub loaded :
        load_message_for_send env.is_locked_later db payload.workspace_id payload.message_id
        ≡ found context
    pub sendable :
        Sendable env.sha256_hex env.safety_later context payload.dispatch_generation
          env.gate_clock_later
    pub claimed : IsClaimed payload.message_id env.attempt_id (claims_of i.committed)
    pub for_message : i.message_id ≡ payload.message_id
    pub for_attempt : i.attempt_id ≡ env.attempt_id
    pub in_transaction : i.in_transaction ≡ holds_transaction context

  module _ (ctx : LoadedSendContext) (same_message : ctx.message_id ≡ payload.message_id)
      (same_workspace : ctx.workspace_id ≡ payload.workspace_id) where
    of_called :
        (c : Claims) (fresh : LoadedSendContext) (m a : ℕ) (before after : List Event)
        → invocations before ≡ []
        → load_message_for_send env.is_locked_later db payload.workspace_id payload.message_id
          ≡ found fresh
        → run_pre_authorization_gates env.sha256_hex env.safety_later fresh
            payload.dispatch_generation env.gate_clock_later
          ≡ pass
        → IsClaimed payload.message_id env.attempt_id c
        → m ≡ payload.message_id
        → a ≡ env.attempt_id
        → CalledOnce c m a (holds_transaction fresh) before after
        → Calls IsAuthorized after
    of_called c fresh m a before after q l s cl em ea (not_called e) = no_call (rw e q)
    of_called c fresh m a before after q l s cl em ea (called i e same for_m for_a tx) =
        one_call i (rw e (ap (λ r. i ∷ r) q)) (record {
          context = fresh;
          loaded = l;
          sendable =
              (gates_pass_iff env.sha256_hex env.safety_later fresh payload.dispatch_generation
                  env.gate_clock_later).0
                s;
          claimed = rw same cl;
          for_message = for_m ∙ em;
          for_attempt = for_a ∙ ea;
          in_transaction = tx;
        })

    authorized-Calls :
        (reservation : RateReservation) (a : Authorized) (before : List Event) (w : World)
        → HasAuthorized env payload ctx db before a w
        → invocations before ≡ []
        → Calls IsAuthorized (after_authorization env payload ctx reservation (ok a) w).1.events
    unfolding after_authorization
    authorized-Calls reservation a before w h q =
        let l = rw (same_message, same_workspace) at h.reloaded in
        let ids =
          load_ids env.is_locked_later db payload.workspace_id payload.message_id a.context l in
        of_called (claims_of w.db) a.context a.context.message_id a.attempt_id before
          (invoke_provider_and_finalize env a.context a.attempt_id a.credential_generation
            w).1.events
          q l h.gated (rw ids.0 at h.claimed) ids.0 h.same_attempt
          (invoke-CalledOnce env a.context a.attempt_id (claims_of w.db) before
            a.credential_generation w
            (record {
              committed = refl;
              working = ap claims_of h.committed;
              same_events = h.same_events;
            }))

    refused-Calls :
        (reservation : RateReservation) (f : Failure) (w : World)
        → invocations w.events ≡ []
        → Calls IsAuthorized (after_authorization env payload ctx reservation (err f) w).1.events
    unfolding after_authorization
    refused-Calls reservation (authorization_aborted reason) w q = no_call q
    refused-Calls reservation attempt_already_claimed w q = no_call q
    refused-Calls reservation _ w q = no_call q

    granted-Calls :
        (reservation : RateReservation) (w : World) (r : Result Authorized)
        → w.work ≡ db
        → invocations w.events ≡ []
        → (run_authorization_transaction env payload ctx reservation w).0 ≡ r
        → Calls IsAuthorized
            (after_authorization env payload ctx reservation r
              (run_authorization_transaction env payload ctx reservation w).1).1.events
    granted-Calls reservation w (ok a) t q e =
        authorized-Calls reservation a w.events
          (run_authorization_transaction env payload ctx reservation w).1
          (subst
            (λ d.
              HasAuthorized env payload ctx d w.events a
                (run_authorization_transaction env payload ctx reservation w).1)
            t (run-HasAuthorized env payload ctx reservation w a e))
          q
    granted-Calls reservation w (err f) t q e =
        refused-Calls reservation f (run_authorization_transaction env payload ctx reservation w).1
          (rw (events-run env payload ctx reservation w) q)

    reserved-Calls :
        (reply : ReserveReply) (w : World)
        → w.work ≡ db
        → invocations w.events ≡ []
        → Calls IsAuthorized (with_reservation env payload ctx reply w).1.events
    unfolding with_reservation audit hand_back write_maybe
    reserved-Calls ReserveReply.unavailable w t q = no_call q
    reserved-Calls (denied after) w t q = no_call (ground arith)
    reserved-Calls (granted reservation) w t q =
        granted-Calls reservation
          (record w { events = reserved reservation.reservation_id ∷ w.events })
          (run_authorization_transaction env payload ctx reservation
            (record w { events = reserved reservation.reservation_id ∷ w.events })).0
          t q refl

    authorize-Calls :
        (w : World)
        → w.work ≡ db
        → invocations w.events ≡ []
        → Calls IsAuthorized (authorize_and_send env payload ctx w).1.events
    unfolding authorize_and_send audit hand_back write_maybe
    authorize-Calls w t q =
        elim (Bool-cases (is_campaign ctx.purpose && not (has_mailbox_volume_cap env.policies))) [
          | inl no_cap ↦ rw no_cap (no_call (ground arith))
          | inr capped ↦
              rw capped (reserved-Calls (reserve_with env payload env.current_generation) w t q)
        ]

    rejected-Calls :
        (r : Rejection) (h : Handling) (w : World)
        → invocations w.events ≡ []
        → Calls IsAuthorized (handle_rejection env payload ctx r h w).1.events
    unfolding handle_rejection skip audit hand_back write_maybe
    rejected-Calls r no_operation w q = no_call q
    rejected-Calls r deferral w q = no_call (ground arith)
    rejected-Calls r permanent w q = no_call (ground arith)

    send_gated-Calls :
        (check : Check) (w : World)
        → w.work ≡ db
        → invocations w.events ≡ []
        → Calls IsAuthorized (send_gated env payload ctx check w).1.events
    unfolding send_gated audit hand_back write_maybe
    send_gated-Calls (some r) w t q = rejected-Calls r (handling_of r.class) w q
    send_gated-Calls none w t q =
        elim (Bool-cases (is_campaign ctx.purpose && not env.unsubscribe_ready)) [
          | inl off ↦ rw off (no_call (ground arith))
          | inr on ↦ rw on (authorize-Calls w t q)
        ]

  loaded-Calls :
      (loaded : Loaded) (w : World)
      → w.work ≡ db
      → invocations w.events ≡ []
      → load_message_for_send env.is_locked db payload.workspace_id payload.message_id ≡ loaded
      → Calls IsAuthorized (execute_loaded env payload loaded w).1.events
  unfolding execute_loaded
  loaded-Calls Loaded.locked w t q e = no_call q
  loaded-Calls missing w t q e = no_call q
  loaded-Calls (found ctx) w t q e =
      let (m, ws) = load_ids env.is_locked db payload.workspace_id payload.message_id ctx e in
      send_gated-Calls ctx m ws
        (run_pre_authorization_gates env.sha256_hex env.safety ctx payload.dispatch_generation
          env.gate_clock)
        w t q

  -- One task calls the provider at most once. When it does, the message as read in the authorization
  -- transaction passes every gate on the suppression tables of that moment, and the committed tables
  -- show it as being sent, with this task's prepared attempt and its capacity debit. No transaction
  -- is open then, unless the message belongs to no campaign or has no step.
  pub execute-Calls : Calls IsAuthorized (execute env payload (session db)).1.events
  unfolding execute
  execute-Calls =
      loaded-Calls (load_message_for_send env.is_locked db payload.workspace_id payload.message_id)
        (record (session db) { is_open = true }) refl refl refl
