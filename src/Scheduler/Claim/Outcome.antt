-- ===== src/Scheduler/Claim/Outcome.antt =====
-- When a message is claimed, and what the claim leaves.
use email_outreach_platform.Base.{
  ℕ, ◌≤◌, ◌≡◌, refl, sym, ◌∙◌, ◌↔◌, ◌⊎◌, inl, inr, true, Option, none, some, arith, Option-cases,
}
use email_outreach_platform.Sending.Context.{
  MessageStatus, retry_scheduled, Purpose, controlled_test, running, ready,
}
use email_outreach_platform.Sending.Gates.{is_campaign}
use email_outreach_platform.Sending.Store.{Message, Campaign, Mailbox, Db, message_row, mailbox_row}
use email_outreach_platform.Scheduler.Store.{Tables}
use email_outreach_platform.Scheduler.Claim.{
  is_scheduled, campaign_gate, mailbox_gate, campaign_row, parent_gates,
}

-- The campaign of a campaign message runs, is planned, and has the message's schedule.
pub record CampaignReady (db : Db) (ws : ℕ) (m : Message) : Type 0 where
  pub campaign_id : ℕ
  pub campaign : Campaign
  pub of_message : m.campaign_id ≡ some campaign_id
  pub stored : db.campaigns campaign_id ≡ some campaign
  pub in_same : campaign.workspace_id ≡ ws
  pub is_live : campaign.status ≡ running
  pub is_planned : campaign.planning_status ≡ ready
  pub same_schedule : campaign.schedule_generation ≡ m.schedule_generation

abbrev pub MailboxFree : Db → ℕ → Message → ℕ → Type 0
MailboxFree db ws m clock =
    (b : Mailbox)
    → mailbox_row db ws m.mailbox_id ≡ some b
    → (until : ℕ) → b.blocked_until ≡ some until
    → until ≤ clock

-- A message that waits, is due, and whose parents let it go.
pub record Claimable (t : Tables) (ws mid now clock : ℕ) (m : Message) : Type 0 where
  pub stored : message_row t.db ws mid ≡ some m
  pub waits : (m.status ≡ MessageStatus.scheduled) ⊎ (m.status ≡ retry_scheduled)
  pub due_time : ℕ
  pub has_due : m.due_at ≡ some due_time
  pub is_past : due_time ≤ now
  pub parent : (m.purpose ≡ controlled_test) ⊎ CampaignReady t.db ws m
  pub mailbox_free : MailboxFree t.db ws m clock

campaign_gate_lem :
    (db : Db) (ws : ℕ) (m : Message)
    → campaign_gate m (campaign_row db ws m.campaign_id) ≡ none
    → CampaignReady db ws m
unfolding campaign_gate campaign_row
campaign_gate_lem db ws m h = elim (Option-cases m.campaign_id) [
  | inl e ↦ absurd (ground arith)
  | inr (id, e) ↦ elim (Option-cases (db.campaigns id)) [
    | inl q ↦ absurd (ground arith)
    | inr (c, q) ↦ record {
      campaign_id = id;
      campaign = c;
      of_message = e;
      stored = q;
      in_same = ground arith;
      is_live = ground arith;
      is_planned = ground arith;
      same_schedule = ground arith;
    }
  ]
]

campaign_gate_open :
    (db : Db) (ws : ℕ) (m : Message)
    → CampaignReady db ws m
    → campaign_gate m (campaign_row db ws m.campaign_id) ≡ none
unfolding campaign_gate campaign_row
campaign_gate_open db ws m c = ground arith

mailbox_gate_lem :
    (b : Option Mailbox) (clock : ℕ)
    → (mailbox_gate b clock ≡ none)
      ↔ ((r : Mailbox) → b ≡ some r → (until : ℕ) → r.blocked_until ≡ some until → until ≤ clock)
unfolding mailbox_gate
mailbox_gate_lem none clock = (λ h r e. absurd (cc), λ h. refl)
mailbox_gate_lem (some b) clock = elim (Option-cases b.blocked_until) [
  | inl e ↦ (λ h r q until p. absurd (ground arith), λ h. ground arith)
  | inr (u, e) ↦ (λ h r q until p. ground arith, λ h. ground (arith, h b refl u e))
]

parents_of_campaign :
    (db : Db) (ws : ℕ) (m : Message) (clock : ℕ)
    → m.purpose ≡ Purpose.campaign
    → (parent_gates db ws m clock ≡ none) ↔ (CampaignReady db ws m × MailboxFree db ws m clock)
unfolding parent_gates is_campaign
parents_of_campaign db ws m clock e =
    let free = mailbox_gate_lem (mailbox_row db ws m.mailbox_id) clock in
    (
      λ h. elim (Option-cases (campaign_gate m (campaign_row db ws m.campaign_id))) [
        | inr (r, q) ↦ absurd (ground arith)
        | inl q ↦ (campaign_gate_lem db ws m q, free.0 (ground arith))
      ],
      λ (c, h).
          let open_campaign = campaign_gate_open db ws m c in
          let open_mailbox = free.1 h in ground arith,
    )

parents_of_test :
    (db : Db) (ws : ℕ) (m : Message) (clock : ℕ)
    → m.purpose ≡ controlled_test
    → (parent_gates db ws m clock ≡ none) ↔ MailboxFree db ws m clock
unfolding parent_gates is_campaign
parents_of_test db ws m clock e =
    let free = mailbox_gate_lem (mailbox_row db ws m.mailbox_id) clock in
    (λ h. free.0 (ground arith), λ h. let open_mailbox = free.1 h in ground arith)

Purpose-cases : (p : Purpose) → (p ≡ Purpose.campaign) ⊎ (p ≡ controlled_test)
Purpose-cases Purpose.campaign = inl refl
Purpose-cases controlled_test = inr refl

Purposes-differ : ¬ (Purpose.campaign ≡ controlled_test)
Purposes-differ e = cc

-- The parents of a message let it go.
pub parents_open :
    (db : Db) (ws : ℕ) (m : Message) (clock : ℕ)
    → (parent_gates db ws m clock ≡ none)
      ↔ (((m.purpose ≡ controlled_test) ⊎ CampaignReady db ws m) × MailboxFree db ws m clock)
parents_open db ws m clock = elim (Purpose-cases m.purpose) [
  | inr e ↦ let p = parents_of_test db ws m clock e in (λ h. (inl e, p.0 h), λ (_, h). p.1 h)
  | inl e ↦
      let p = parents_of_campaign db ws m clock e in
      (
        λ h. let (c, f) = p.0 h in (inr c, f),
        λ (parent, h). elim parent [
          | inl q ↦ absurd (Purposes-differ (sym e ∙ q))
          | inr c ↦ p.1 (c, h)
        ],
      )
]

pub is_scheduled_lem :
    (s : MessageStatus)
    → is_scheduled s ≡ true
    → (s ≡ MessageStatus.scheduled) ⊎ (s ≡ retry_scheduled)
unfolding is_scheduled
is_scheduled_lem MessageStatus.scheduled h = inl refl
is_scheduled_lem retry_scheduled h = inr refl
is_scheduled_lem s h = absurd (ground arith)
