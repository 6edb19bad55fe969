-- ===== src/Sending/Service/Helpers.antt =====
-- `_audit`, `_hand_back` and `_skip` of backend/app/modules/sending/service.py. Metrics and log lines
-- are left out, and of an audit event its action and target are kept.
use email_outreach_platform.Base.{ℕ, ◌+◌, Option, none, some}
use email_outreach_platform.Sending.Context.{LoadedSendContext}
use email_outreach_platform.Sending.Gates.{GateReason}
use email_outreach_platform.Sending.Store.{StoredReason, AuditAction, message_skipped}
use email_outreach_platform.Sending.Repository.Writes.{
  skip_message, defer_for_capacity, record_audit_event,
}
use email_outreach_platform.Sending.Session.{M, ◌>>◌, pure, write, write_maybe, commit}
use email_outreach_platform.Sending.Environment.{
  Environment, OutcomeName, skipped_outcome, OutcomeReason, SendOutcome,
}

unfoldable pub audit : LoadedSendContext → AuditAction → M (Unit {0})
audit ctx action = write (λ db.
    record_audit_event db
      (record { workspace_id = ctx.workspace_id; action = action; target_id = ctx.message_id }))

abbrev pub outcome_of : LoadedSendContext → OutcomeName → Option OutcomeReason → SendOutcome
outcome_of ctx name reason = record {
  message_id = ctx.message_id;
  outcome = name;
  reason = reason;
  attempt_id = none;
  provider_message_id = none;
}

module _ (env : Environment) where
  unfoldable pub hand_back : LoadedSendContext → ℕ → M (Unit {0})
  hand_back ctx delay = write_maybe (λ db.
      defer_for_capacity db ctx.workspace_id ctx.message_id ctx.dispatch_generation
        (env.hand_back_clock + delay))

unfoldable pub skip : LoadedSendContext → GateReason → M SendOutcome
skip ctx reason = do
  write_maybe (λ db.
      skip_message db ctx.workspace_id ctx.message_id ctx.message_version
        (StoredReason.of_gate reason))
  audit ctx message_skipped
  commit
  pure (outcome_of ctx skipped_outcome (some (OutcomeReason.of_gate reason)))
