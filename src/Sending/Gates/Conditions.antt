-- ===== src/Sending/Gates/Conditions.antt =====
-- The condition that each gate of backend/app/modules/sending/gates.py checks, in words of its own.
use email_outreach_platform.Base.{
  ℕ, ◌≤◌, ◌≡◌, refl, ◌≢◌, ◌↔◌, ◌⊎◌, inl, inr, true, false, Option, none, some, List, [], ◌∷◌, arith,
  get_or, All, Option-cases, Text, text_eq→eq, text_eq_refl, is_present,
}
use email_outreach_platform.Sending.Context.{
  queued, sending, Purpose, campaign, controlled_test, running, ready, active, gmail, microsoft,
  smtp, connected, degraded, enabled, open_circuit, LoadedSendContext, Suppression,
  PlatformSuppression, replied, RecipientOutcome, SafetyTables,
}
use email_outreach_platform.Sending.Gates.{
  Check, pass, ◌>>◌, check_dispatch_generation, check_message_state, is_campaign, is_running,
  is_ready, check_campaign_state, is_active_enrollment, check_enrollment_state, has_reply, reply_of,
  check_reply_outcome, is_address_suppressed, is_platform_suppressed, check_suppression,
  check_safety_holds, check_mailbox_state, check_mailbox_ownership, check_provider_match, shown,
  digest_input, check_recipient, expected_content_digest, check_snapshot_integrity,
}
use email_outreach_platform.Sending.Gates.Address.{IsAddress, recipient_accepted_iff}

abbrev pub NoActiveSuppression : ℕ → ℕ → List Suppression → Type 0
NoActiveSuppression ws aid =
    All (λ s. ¬ ((s.workspace_id ≡ ws) × (s.address_id ≡ aid) × (s.is_active ≡ true)))

abbrev pub NoPlatformBlock : Text → List PlatformSuppression → Type 0
NoPlatformBlock address = All (λ p.
    ¬ ((p.canonical_address ≡ address) × (p.normalization_version ≡ 1) × (p.is_active ≡ true)))

abbrev pub NoReply : ℕ → ℕ → List RecipientOutcome → Type 0
NoReply ws eid = All (λ o. ¬ ((o.workspace_id ≡ ws) × (o.enrollment_id ≡ eid) × (o.kind ≡ replied)))

-- A campaign message needs a running, planned campaign and an active enrollment with no reply.
pub record CampaignLive (tables : SafetyTables) (ctx : LoadedSendContext) : Type 0 where
  pub live : ctx.campaign_status ≡ some running
  pub planned : ctx.campaign_planning_status ≡ some ready
  pub enrolled : ctx.enrollment_state ≡ some active
  pub no_reply :
      (ctx.enrollment_id ≡ none)
      ⊎ ((eid : ℕ) × (ctx.enrollment_id ≡ some eid)
          × NoReply ctx.workspace_id eid tables.recipient_outcomes)

pub record MailboxUsable (ctx : LoadedSendContext) (now : ℕ) : Type 0 where
  pub connection : ctx.mailbox_connection_state ≡ connected
  pub policy : ctx.mailbox_policy_state ≡ enabled
  pub healthy : ctx.mailbox_health_state ≢ degraded
  pub circuit : ctx.mailbox_circuit_state ≢ open_circuit
  pub unblocked :
      (ctx.mailbox_blocked_until ≡ none)
      ⊎ ((t : ℕ) × (ctx.mailbox_blocked_until ≡ some t) × (t ≤ now))

module _ (check : Check) where
  -- A chain of gates passes when every one of them does.
  pub then_pass : (rest : Check) → ((check >> rest) ≡ pass) ↔ ((check ≡ pass) × (rest ≡ pass))
  then_pass rest = (λ h. ground arith, λ h. ground arith)

pub suppressed_iff :
    (ws aid : ℕ) (rows : List Suppression)
    → (is_address_suppressed rows ws aid ≡ false) ↔ NoActiveSuppression ws aid rows
unfolding is_address_suppressed
suppressed_iff ws aid [] = (λ h. tt, λ h. refl)
suppressed_iff ws aid (s ∷ rows) = (
  λ h. ground (arith, (suppressed_iff ws aid rows).0),
  λ h. ground (arith, (suppressed_iff ws aid rows).1 h.1),
)

pub platform_iff :
    (address : Text) (rows : List PlatformSuppression)
    → (is_platform_suppressed rows address ≡ false) ↔ NoPlatformBlock address rows
unfolding is_platform_suppressed
platform_iff address [] = (λ h. tt, λ h. refl)
platform_iff address (p ∷ rows) = (
  λ h. ground (arith, (platform_iff address rows).0, text_eq_refl address),
  λ h. ground (arith, (platform_iff address rows).1 h.1, text_eq→eq p.canonical_address address),
)

pub reply_iff :
    (ws eid : ℕ) (rows : List RecipientOutcome)
    → (has_reply rows ws eid ≡ false) ↔ NoReply ws eid rows
unfolding has_reply
reply_iff ws eid [] = (λ h. tt, λ h. refl)
reply_iff ws eid (o ∷ rows) = (
  λ h. ground (arith, (reply_iff ws eid rows).0),
  λ h. ground (arith, (reply_iff ws eid rows).1 h.1),
)

abbrev pub Present : Option Text → Type 0
Present o = (c : ℕ) × (s : Text) × (o ≡ some (c ∷ s))

-- The rendered content is complete and its recorded digest is that of the content.
pub record Snapshot (sha256_hex : Text → Text) (ctx : LoadedSendContext) : Type 0 where
  pub rendered : (t : ℕ) × (ctx.rendered_at ≡ some t)
  pub subject : Present ctx.content_subject
  pub body : Present ctx.content_body_html
  pub recorded : Present ctx.content_digest
  pub destination : Present ctx.frozen_destination
  pub sender : Present ctx.frozen_sender_address
  pub digest : sha256_hex (digest_input ctx) ≡ get_or [] ctx.content_digest

pub generation_iff :
    (ctx : LoadedSendContext) (g : ℕ)
    → (check_dispatch_generation ctx g ≡ pass) ↔ (ctx.dispatch_generation ≡ g)
unfolding check_dispatch_generation
generation_iff ctx g = (λ h. ground arith, λ h. ground arith)

pub status_iff :
    (ctx : LoadedSendContext)
    → (check_message_state ctx ≡ pass)
      ↔ ((ctx.message_status ≡ queued) ⊎ (ctx.message_status ≡ sending))
unfolding check_message_state
status_iff ctx = (λ h. ground arith, λ h. ground arith)

pub Purpose-cases : (p : Purpose) → (p ≡ controlled_test) ⊎ (p ≡ campaign)
Purpose-cases campaign = inr refl
Purpose-cases controlled_test = inl refl

NoReply-of :
    (tables : SafetyTables) (ws : ℕ) (o : Option ℕ)
    → reply_of tables ws o ≡ pass
    → (o ≡ none) ⊎ ((eid : ℕ) × (o ≡ some eid) × NoReply ws eid tables.recipient_outcomes)
unfolding reply_of
NoReply-of tables ws none h = inl refl
NoReply-of tables ws (some eid) h =
    inr (eid, refl, (reply_iff ws eid tables.recipient_outcomes).0 (ground arith))

reply_of-none :
    (tables : SafetyTables) (ws : ℕ) (o : Option ℕ)
    → ((o ≡ none) ⊎ ((eid : ℕ) × (o ≡ some eid) × NoReply ws eid tables.recipient_outcomes))
    → reply_of tables ws o ≡ pass
unfolding reply_of
reply_of-none tables ws none h = refl
reply_of-none tables ws (some eid) (inl e) = cc
reply_of-none tables ws (some eid) (inr (e, p, free)) =
    ground (arith, (reply_iff ws e tables.recipient_outcomes).1 free)

pub campaign_iff :
    (tables : SafetyTables) (ctx : LoadedSendContext)
    → ((check_campaign_state ctx ≡ pass)
        × (check_enrollment_state ctx ≡ pass)
        × (check_reply_outcome tables ctx ≡ pass))
      ↔ ((ctx.purpose ≡ controlled_test) ⊎ CampaignLive tables ctx)
unfolding check_campaign_state check_enrollment_state check_reply_outcome is_campaign is_running
    is_ready is_active_enrollment
campaign_iff tables ctx = (
  λ h. elim (Purpose-cases ctx.purpose) [
    | inl test ↦ inl test
    | inr e ↦ inr (record {
      live = ground arith;
      planned = ground arith;
      enrolled = ground arith;
      no_reply = NoReply-of tables ctx.workspace_id ctx.enrollment_id (ground arith);
    })
  ],
  λ h. elim h [
    | inl test ↦ ground arith
    | inr c ↦ ground (arith, reply_of-none tables ctx.workspace_id ctx.enrollment_id c.no_reply)
  ],
)

pub suppression_iff :
    (tables : SafetyTables) (ctx : LoadedSendContext)
    → (check_suppression tables ctx ≡ pass) ↔ (
        NoActiveSuppression ctx.workspace_id ctx.address_id tables.suppressions
        × NoPlatformBlock ctx.canonical_address tables.platform_suppressions)
unfolding check_suppression
suppression_iff tables ctx =
    let a = suppressed_iff ctx.workspace_id ctx.address_id tables.suppressions in
    let b = platform_iff ctx.canonical_address tables.platform_suppressions in
    (λ h. (a.0 (ground arith), b.0 (ground arith)), λ h. ground (arith, a.1 h.0, b.1 h.1))

pub holds_iff :
    (ctx : LoadedSendContext)
    → (check_safety_holds ctx ≡ pass) ↔ (ctx.mailbox_pending_safety_count ≡ 0)
unfolding check_safety_holds
holds_iff ctx = (λ h. ground arith, λ h. ground arith)

pub mailbox_iff :
    (ctx : LoadedSendContext) (now : ℕ)
    → (check_mailbox_state ctx now ≡ pass) ↔ MailboxUsable ctx now
unfolding check_mailbox_state
mailbox_iff ctx now = (
  λ h. record {
    connection = ground arith;
    policy = ground arith;
    healthy = ground arith;
    circuit = ground arith;
    unblocked = elim (Option-cases ctx.mailbox_blocked_until) [
      | inl e ↦ inl e
      | inr (t, e) ↦ inr (t, e, ground arith)
    ];
  },
  λ h. ground arith,
)

pub ownership_iff :
    (ctx : LoadedSendContext)
    → (check_mailbox_ownership ctx ≡ pass) ↔ (ctx.mailbox_workspace_id ≡ ctx.workspace_id)
unfolding check_mailbox_ownership
ownership_iff ctx = (λ h. ground arith, λ h. ground arith)

pub provider_iff :
    (ctx : LoadedSendContext)
    → (check_provider_match ctx ≡ pass) ↔ (
        (ctx.mailbox_provider ≡ gmail)
        ⊎ (ctx.mailbox_provider ≡ microsoft)
        ⊎ (ctx.mailbox_provider ≡ smtp))
unfolding check_provider_match
provider_iff ctx = (λ h. ground arith, λ h. ground arith)

pub Present-of : (o : Option Text) → is_present o ≡ true → Present o
unfolding is_present
Present-of none h = absurd (cc)
Present-of (some []) h = absurd (cc)
Present-of (some (c ∷ s)) h = (c, s, refl)

pub Snapshot-iff :
    (sha256_hex : Text → Text) (ctx : LoadedSendContext)
    → (check_snapshot_integrity sha256_hex ctx ≡ pass) ↔ Snapshot sha256_hex ctx
unfolding check_snapshot_integrity expected_content_digest shown is_present
Snapshot-iff sha256_hex ctx = (
  λ h. record {
    rendered = ground arith;
    subject = Present-of ctx.content_subject (ground arith);
    body = Present-of ctx.content_body_html (ground arith);
    recorded = Present-of ctx.content_digest (ground arith);
    destination = Present-of ctx.frozen_destination (ground arith);
    sender = Present-of ctx.frozen_sender_address (ground arith);
    digest =
        ground
          (arith, text_eq→eq (expected_content_digest sha256_hex ctx) (shown ctx.content_digest));
  },
  λ h. ground (arith, text_eq_refl (sha256_hex (digest_input ctx)), h.digest),
)

pub recipient_iff :
    (ctx : LoadedSendContext)
    → (check_recipient ctx ≡ pass) ↔ IsAddress (get_or [] ctx.frozen_destination)
unfolding check_recipient
recipient_iff ctx =
    let r = recipient_accepted_iff (get_or [] ctx.frozen_destination) in
    (λ h. r.0 (ground arith), λ h. ground (arith, r.1 h))
