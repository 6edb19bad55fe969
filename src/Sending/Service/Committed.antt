-- ===== src/Sending/Service/Committed.antt =====
-- What stands committed when a delivery has returned.
use mathlib.Core.Path.{subst}
use email_outreach_platform.Base.{ℕ, ◌≡◌, refl, Bool, true, false, some, List, arith}
use email_outreach_platform.Sending.Context.{LoadedSendContext}
use email_outreach_platform.Sending.Store.{Message, message_row}
use email_outreach_platform.Sending.Session.{
  Result, ok, err, World, M, continue, ◌>>◌, pure, write_or,
}
use email_outreach_platform.Sending.Environment.{
  Credential, EnvelopeAttachment, ProviderSendResult, Environment, SendOutcome,
}
use email_outreach_platform.Sending.Service.Helpers.{audit}
use email_outreach_platform.Sending.Service.Finalize.{
  store, settle, finalize_accepted, finalize_unknown, finalize_auth_failure, finalize_decision,
  limit_and_decide, finalize_rejected, by_status, finalize_send_result,
}
use email_outreach_platform.Sending.Service.Delivery.{
  result_of_reply, message_header, envelope_of, commit_or_retry, commit_with_retry, send, deliver,
}
use email_outreach_platform.Sending.Service.Recorded.{Recorded, Row, finalize_lem}

module _ (env : Environment) (ctx : LoadedSendContext) (aid : ℕ) where
  abbrev final : ProviderSendResult → M SendOutcome
  final r = finalize_send_result env ctx aid r (message_header env ctx aid)

  -- A finalization leaves the committed tables, and what it reports does not depend on them.
  final_db : (r : ProviderSendResult) (w : World) → (final r w).1.db ≡ w.db
  unfolding finalize_send_result by_status finalize_accepted finalize_unknown finalize_rejected
      limit_and_decide finalize_auth_failure finalize_decision settle store audit write_or
  final_db r w = ground arith

  final_same :
      (r : ProviderSendResult) (w v : World) (o p : SendOutcome)
      → (final r w).0 ≡ ok o
      → (final r v).0 ≡ ok p
      → p ≡ o
  unfolding finalize_send_result by_status finalize_accepted finalize_unknown finalize_rejected
      limit_and_decide finalize_auth_failure finalize_decision settle store audit write_or
  final_same r w v o p h k = ground arith

  -- The committed message after a step that reports success agrees with `o`.
  abbrev Commits : SendOutcome → M (Unit {0}) → World → Type 0
  Commits o k w = (k w).0 ≡ ok tt → Recorded o ctx.message_id (k w).1.db.messages

  tried :
      (c : Bool) (r : ProviderSendResult) (o : SendOutcome) (m : Message) (next : M (Unit {0}))
      (w : World)
      → Recorded o ctx.message_id w.work.messages
      → Row env ctx aid w.db m
      → ((v : World) → Row env ctx aid v.work m → Row env ctx aid v.db m → Commits o next v)
      → Commits o (commit_or_retry env ctx aid c r next) w
  unfolding commit_or_retry
  tried true r o m next w rec row again h = rec
  tried false r o m next w rec row again h =
      again (record w { work = w.db; is_open = false }) row row h

  written_again :
      (r : ProviderSendResult) (o : SendOutcome) (m : Message) (rest : M (Unit {0})) (w : World)
      (f : Result SendOutcome)
      → Row env ctx aid w.work m
      → Row env ctx aid w.db m
      → (final r w).0 ≡ f
      → ((p : SendOutcome) → (final r w).0 ≡ ok p → p ≡ o)
      → ((v : World)
          → Recorded o ctx.message_id v.work.messages
          → Row env ctx aid v.db m
          → Commits o rest v)
      → (continue f (λ x. rest) (final r w).1).0 ≡ ok tt
      → Recorded o ctx.message_id ((continue f (λ x. rest) (final r w).1).1).db.messages
  written_again r o m rest w (err e) row held q same go h = absurd (cc)
  written_again r o m rest w (ok p) row held q same go h =
      go (final r w).1
        (subst (λ x. Recorded x ctx.message_id (final r w).1.work.messages) (same p q)
          (finalize_lem env ctx aid r (message_header env ctx aid) w m p row q))
        (rw (final_db r w) held) h

  commit_lem :
      (r : ProviderSendResult) (o : SendOutcome) (m : Message) (w : World)
      → Recorded o ctx.message_id w.work.messages
      → Row env ctx aid w.db m
      → ((v : World) (p : SendOutcome) → (final r v).0 ≡ ok p → p ≡ o)
      → Commits o (commit_with_retry env ctx aid r) w
  unfolding commit_with_retry
  commit_lem r o m w rec held same = tried env.final_commits.0 r o m _ w rec held (λ v row held.
      written_again r o m _ v (final r v).0 row held refl (same v) (λ u rec held.
        tried env.final_commits.1 r o m _ u rec held (λ v row held.
          written_again r o m _ v (final r v).0 row held refl (same v) (λ u rec held.
            tried env.final_commits.2 r o m _ u rec held (λ v row held h. absurd (cc))))))

  closing :
      (p o : SendOutcome) (x : Result (Unit {0})) (w : World)
      → (continue x (λ u. pure p) w).0 ≡ ok o
      → (x ≡ ok tt) × (p ≡ o) × ((continue x (λ u. pure p) w).1 ≡ w)
  closing p o (err e) w h = absurd (cc)
  closing p o (ok u) w h = (refl, cc, refl)

  delivered :
      (r : ProviderSendResult) (m : Message) (w : World) (f : Result SendOutcome) (o : SendOutcome)
      → Row env ctx aid w.work m
      → Row env ctx aid w.db m
      → (final r w).0 ≡ f
      → ((continue f (λ p. commit_with_retry env ctx aid r >> pure p) (final r w).1).0 ≡ ok o)
      → Recorded o ctx.message_id
          ((continue f (λ p. commit_with_retry env ctx aid r >> pure p) (final r w).1).1
            ).db.messages
  delivered r m w (err e) o row held q h = absurd (cc)
  delivered r m w (ok p) o row held q h =
      let k = commit_with_retry env ctx aid r (final r w).1 in
      let (done, same, state) = closing p o k.0 k.1 h in
      let rec =
        commit_lem r p m (final r w).1
          (finalize_lem env ctx aid r (message_header env ctx aid) w m p row q)
          (rw (final_db r w) held) (λ v x e. final_same r w v p x q e) done in
      rw state (subst (λ x. Recorded x ctx.message_id k.1.db.messages) same rec)

  -- When a delivery returns an outcome, the message is committed in the state that the outcome names:
  -- sent, unknown, waiting for a retry or failed. Its retries are within its budget, and it has a time
  -- of acceptance exactly when it is sent. This holds for each of the tries of the final commit.
  pub deliver-Recorded :
      (credential : Credential) (files : List EnvelopeAttachment) (w : World) (m : Message)
      (o : SendOutcome)
      → message_row w.work ctx.workspace_id ctx.message_id ≡ some m
      → message_row w.db ctx.workspace_id ctx.message_id ≡ some m
      → (deliver env ctx aid credential files w).0 ≡ ok o
      → Recorded o ctx.message_id (deliver env ctx aid credential files w).1.db.messages
  unfolding deliver send
  deliver-Recorded credential files w m o row held h =
      let r = result_of_reply (env.send_message credential (envelope_of env ctx aid files)) in
      delivered r m (send env ctx aid credential (envelope_of env ctx aid files) w).1
        (final r (send env ctx aid credential (envelope_of env ctx aid files) w).1).0 o row held
        refl h
