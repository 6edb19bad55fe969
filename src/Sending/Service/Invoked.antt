-- ===== src/Sending/Service/Invoked.antt =====
-- The calls of the provider that one delivery makes.
use email_outreach_platform.Base.{ℕ, ◌≡◌, refl, ap, ◌∙◌, Bool, true, List, ◌∷◌, arith}
use email_outreach_platform.Sending.Context.{LoadedSendContext}
use email_outreach_platform.Sending.Session.{
  Failure, Result, ok, err, Invocation, Event, invoked, World, write_or,
}
use email_outreach_platform.Sending.Environment.{
  Credential, EnvelopeAttachment, ProviderSendResult, Environment,
}
use email_outreach_platform.Sending.Service.Helpers.{audit}
use email_outreach_platform.Sending.Service.Finalize.{finalize_not_invoked}
use email_outreach_platform.Sending.Service.Credentials.{load_and_refresh_credential}
use email_outreach_platform.Sending.Service.Attachments.{load_attachments}
use email_outreach_platform.Sending.Service.Delivery.{
  not_sent, commit_with_retry, send, deliver, with_attachments, with_credential,
  invoke_provider_and_finalize,
}
use email_outreach_platform.Sending.Service.Held.{
  Claims, claims_of, Held, credential-Held, attachments-Held, events-finalize, holds_transaction,
  credential_open, attachments_open,
}

-- No call, or one, made while the committed claims are `c`.
pub data CalledOnce (c : Claims) (message_id attempt_id : ℕ) (open_at_call : Bool)
    (before after : List Event) : Type 0 where
  not_called : after ≡ before → CalledOnce c message_id attempt_id open_at_call before after
  called :
      (i : Invocation)
      → after ≡ invoked i ∷ before
      → claims_of i.committed ≡ c
      → i.message_id ≡ message_id
      → i.attempt_id ≡ attempt_id
      → i.in_transaction ≡ open_at_call
      → CalledOnce c message_id attempt_id open_at_call before after

module _ (env : Environment) (ctx : LoadedSendContext) (aid : ℕ) where
  events-not_sent : (f : Failure) (w : World) → (not_sent env ctx aid f w).1.events ≡ w.events
  unfolding not_sent finalize_not_invoked audit write_or
  events-not_sent f w = ground arith

  events-commit :
      (r : ProviderSendResult) (w : World) → (commit_with_retry env ctx aid r w).1.events ≡ w.events
  unfolding commit_with_retry
  events-commit r w = grind (arith, events-finalize)

  called_with : World → Invocation
  called_with w = record {
    committed = w.db;
    in_transaction = w.is_open;
    message_id = ctx.message_id;
    attempt_id = aid;
  }

  -- Delivery records one call, whatever becomes of its result.
  events-deliver :
      (credential : Credential) (files : List EnvelopeAttachment) (w : World)
      → (deliver env ctx aid credential files w).1.events ≡ invoked (called_with w) ∷ w.events
  unfolding deliver send called_with
  events-deliver credential files w = grind (arith, events-finalize, events-commit)

  deliver-CalledOnce :
      (c : Claims) (events : List Event) (credential : Credential) (files : List EnvelopeAttachment)
      (w : World)
      → Held c events w
      → w.is_open ≡ holds_transaction ctx
      → CalledOnce c ctx.message_id aid
          (holds_transaction ctx)
          events
          (deliver env ctx aid credential files w).1.events
  unfolding called_with
  deliver-CalledOnce c events credential files w h o =
      called (called_with w)
        (rw (events-deliver credential files w)
          (ap (λ l. invoked (called_with w) ∷ l) h.same_events))
        h.committed refl refl o

  attachments-CalledOnce :
      (c : Claims) (events : List Event) (credential : Credential)
      (files : Result (List EnvelopeAttachment)) (w : World)
      → Held c events w
      → w.is_open ≡ holds_transaction ctx
      → CalledOnce c ctx.message_id aid
          (holds_transaction ctx)
          events
          (with_attachments env ctx aid credential files w).1.events
  unfolding with_attachments
  attachments-CalledOnce c events credential (ok files) w h o =
      deliver-CalledOnce c events credential files w h o
  attachments-CalledOnce c events credential (err f) w h o =
      not_called (events-not_sent f w ∙ h.same_events)

  credential-CalledOnce :
      (c : Claims) (events : List Event) (credential : Result (Credential × ℕ)) (w : World)
      → Held c events w
      → w.is_open ≡ true
      → CalledOnce c ctx.message_id aid
          (holds_transaction ctx)
          events
          (with_credential env ctx aid credential w).1.events
  unfolding with_credential
  credential-CalledOnce c events (ok (credential, g)) w h o =
      attachments-CalledOnce c events credential (load_attachments env ctx w).0
        (load_attachments env ctx w).1 (attachments-Held env ctx c events w h)
        (attachments_open env ctx w o)
  credential-CalledOnce c events (err f) w h o = not_called (events-not_sent f w ∙ h.same_events)

  -- The provider is called at most once, on the claims that stand committed at the start.
  pub invoke-CalledOnce :
      (c : Claims) (events : List Event) (generation : ℕ) (w : World)
      → Held c events w
      → CalledOnce c ctx.message_id aid
          (holds_transaction ctx)
          events
          (invoke_provider_and_finalize env ctx aid generation w).1.events
  unfolding invoke_provider_and_finalize
  invoke-CalledOnce c events g w h =
      credential-CalledOnce c events (load_and_refresh_credential env ctx g w).0
        (load_and_refresh_credential env ctx g w).1 (credential-Held env ctx c events g w h)
        (credential_open env ctx g w)
