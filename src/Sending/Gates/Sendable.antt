-- ===== src/Sending/Gates/Sendable.antt =====
-- What a message, its campaign, its recipient and its mailbox must be like for the gates to pass.
use email_outreach_platform.Base.{ℕ, ◌≡◌, ◌↔◌, ◌⊎◌, [], arith, get_or, Text}
use email_outreach_platform.Sending.Context.{
  queued, sending, controlled_test, gmail, microsoft, smtp, LoadedSendContext, SafetyTables,
}
use email_outreach_platform.Sending.Gates.{pass, run_pre_authorization_gates}
use email_outreach_platform.Sending.Gates.Address.{IsAddress}
use email_outreach_platform.Sending.Gates.Conditions.{
  NoActiveSuppression, NoPlatformBlock, CampaignLive, MailboxUsable, Snapshot, generation_iff,
  status_iff, campaign_iff, suppression_iff, holds_iff, mailbox_iff, ownership_iff, provider_iff,
  Snapshot-iff, recipient_iff,
}

-- All that a send needs.
pub record Sendable (sha256_hex : Text → Text) (tables : SafetyTables) (ctx : LoadedSendContext)
    (generation now : ℕ) : Type 0 where
  pub current : ctx.dispatch_generation ≡ generation
  pub claimed : (ctx.message_status ≡ queued) ⊎ (ctx.message_status ≡ sending)
  pub live : (ctx.purpose ≡ controlled_test) ⊎ CampaignLive tables ctx
  pub wanted : NoActiveSuppression ctx.workspace_id ctx.address_id tables.suppressions
  pub allowed : NoPlatformBlock ctx.canonical_address tables.platform_suppressions
  pub unheld : ctx.mailbox_pending_safety_count ≡ 0
  pub mailbox : MailboxUsable ctx now
  pub own_mailbox : ctx.mailbox_workspace_id ≡ ctx.workspace_id
  pub provider :
      (ctx.mailbox_provider ≡ gmail)
      ⊎ (ctx.mailbox_provider ≡ microsoft)
      ⊎ (ctx.mailbox_provider ≡ smtp)
  pub snapshot : Snapshot sha256_hex ctx
  pub recipient : IsAddress (get_or [] ctx.frozen_destination)

module _ (sha256_hex : Text → Text) (tables : SafetyTables) (ctx : LoadedSendContext)
    (generation now : ℕ) where
  gates_need :
      run_pre_authorization_gates sha256_hex tables ctx generation now ≡ pass
      → Sendable sha256_hex tables ctx generation now
  unfolding run_pre_authorization_gates
  gates_need h =
      let sup = (suppression_iff tables ctx).0 (ground arith) in
      record {
        current = (generation_iff ctx generation).0 (ground arith);
        claimed = (status_iff ctx).0 (ground arith);
        live = (campaign_iff tables ctx).0 (ground arith, ground arith, ground arith);
        wanted = sup.0;
        allowed = sup.1;
        unheld = (holds_iff ctx).0 (ground arith);
        mailbox = (mailbox_iff ctx now).0 (ground arith);
        own_mailbox = (ownership_iff ctx).0 (ground arith);
        provider = (provider_iff ctx).0 (ground arith);
        snapshot = (Snapshot-iff sha256_hex ctx).0 (ground arith);
        recipient = (recipient_iff ctx).0 (ground arith);
      }

  gates_suffice :
      Sendable sha256_hex tables ctx generation now
      → run_pre_authorization_gates sha256_hex tables ctx generation now ≡ pass
  unfolding run_pre_authorization_gates
  gates_suffice s = ground (
    arith,
    (generation_iff ctx generation).1 s.current,
    (status_iff ctx).1 s.claimed,
    (campaign_iff tables ctx).1 s.live,
    (suppression_iff tables ctx).1 (s.wanted, s.allowed),
    (holds_iff ctx).1 s.unheld,
    (mailbox_iff ctx now).1 s.mailbox,
    (ownership_iff ctx).1 s.own_mailbox,
    (provider_iff ctx).1 s.provider,
    (Snapshot-iff sha256_hex ctx).1 s.snapshot,
    (recipient_iff ctx).1 s.recipient,
  )

  -- The gates pass exactly when the message of this claim is waiting or being sent, a campaign
  -- message's campaign, enrollment and replies allow it, no suppression or hold applies, the mailbox
  -- is usable and of the same workspace and a known provider, the rendered content matches its digest
  -- and the destination is an address.
  pub gates_pass_iff :
      (run_pre_authorization_gates sha256_hex tables ctx generation now ≡ pass)
      ↔ Sendable sha256_hex tables ctx generation now
  gates_pass_iff = (gates_need, gates_suffice)
