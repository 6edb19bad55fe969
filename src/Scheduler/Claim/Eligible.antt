-- ===== src/Scheduler/Claim/Eligible.antt =====
-- When a message is claimed.
use email_outreach_platform.Base.{
  ℕ, ◌+◌, ◌≤◌, ◌≡◌, refl, sym, ap, ◌∙◌, ◌↔◌, ◌⊎◌, inl, inr, Bool, true, false, not, ◌&&◌, Option,
  none, some, ◌∷◌, arith, if◌then◌else◌, Bool-cases, Option-cases,
}
use email_outreach_platform.Sending.Context.{MessageStatus, queued, retry_scheduled}
use email_outreach_platform.Sending.Store.{Message, message_row, put_message}
use email_outreach_platform.Sending.Stored.{==-refl}
use email_outreach_platform.Scheduler.Store.{
  email_send, OutboxWork, DeliveryState, Delivery, Tables, has_key, has_work, has_delivery,
  send_consumer,
}
use email_outreach_platform.Scheduler.Claim.{
  ClaimRefusal, not_claimable, ClaimReply, claimed, refused, NewIds, is_scheduled, is_due,
  parent_gates, claimed_row, insert_work, insert_delivery, new_work, new_delivery, with_delivery,
  dispatch, claim_gated, claim_found, claim_due_message,
}
use email_outreach_platform.Scheduler.Claim.Keys.{IsConsistent, next_key_fresh}
use email_outreach_platform.Scheduler.Claim.Outcome.{Claimable, parents_open, is_scheduled_lem}

-- The message that a claim leaves: queued under its next generation, with its status as the origin.
abbrev pub queued_message : Message → ℕ → Message
queued_message m expires_at = record m {
  status = queued;
  dispatch_origin = some m.status;
  dispatch_generation = m.dispatch_generation + 1;
  claim_expires_at = some expires_at;
  version = m.version + 1;
}

-- The work that a claim adds, available at once.
abbrev added_work : ℕ → ℕ → ℕ → NewIds → ℕ → OutboxWork
added_work ws mid generation ids now = record {
  id = ids.work_id;
  workspace_id = ws;
  key = email_send mid generation;
  resource_id = mid;
  correlation_id = some ids.correlation_id;
  available_at = now;
  is_superseded = false;
}

-- The delivery of that work to the senders, open and unleased.
abbrev added_delivery : ℕ → NewIds → ℕ → Delivery
added_delivery ws ids now = record {
  id = ids.delivery_id;
  workspace_id = ws;
  work_id = ids.work_id;
  consumer = send_consumer;
  state = DeliveryState.pending;
  lease_owner = none;
  lease_generation = 1;
  lease_expires_at = none;
  next_attempt_at = some now;
  attempts = 0;
  safe_error = none;
  published_at = none;
}

-- The tables after a claim of a message whose next key is new.
abbrev pub after_claim : Tables → ℕ → ℕ → Message → ℕ → ℕ → NewIds → Tables
after_claim t ws mid m lease now ids = record t {
  db = put_message t.db mid (queued_message m (now + lease));
  works = added_work ws mid (m.dispatch_generation + 1) ids now ∷ t.works;
  deliveries =
      if has_delivery ws ids.work_id send_consumer t.deliveries
      then t.deliveries
      else added_delivery ws ids now ∷ t.deliveries;
}

dispatch_lem :
    (t : Tables) (ws mid : ℕ) (m : Message) (lease now : ℕ) (ids : NewIds)
    → has_key ws (email_send mid (m.dispatch_generation + 1)) t.works ≡ false
    → dispatch t ws mid m lease now ids
      ≡ (claimed (m.dispatch_generation + 1), after_claim t ws mid m lease now ids)
unfolding dispatch claimed_row insert_work insert_delivery with_delivery new_work new_delivery
    has_work
dispatch_lem t ws mid m lease now ids fresh = rw (fresh, ==-refl ws, ==-refl ids.work_id) refl

claim_gated_lem :
    (t : Tables) (ws mid : ℕ) (m : Message) (lease now : ℕ) (ids : NewIds) (o : Option ClaimRefusal)
    → has_key ws (email_send mid (m.dispatch_generation + 1)) t.works ≡ false
    → o ≡ none
    → claim_gated t ws mid m lease now ids o
      ≡ (claimed (m.dispatch_generation + 1), after_claim t ws mid m lease now ids)
unfolding claim_gated
claim_gated_lem t ws mid m lease now ids none fresh h = dispatch_lem t ws mid m lease now ids fresh
claim_gated_lem t ws mid m lease now ids (some r) fresh h = absurd (cc)

gated_refusal :
    (t : Tables) (ws mid : ℕ) (m : Message) (lease now : ℕ) (ids : NewIds) (o : Option ClaimRefusal)
    → ((r : ClaimRefusal) × (claim_gated t ws mid m lease now ids o ≡ (refused r, t))) ⊎ (o ≡ none)
unfolding claim_gated
gated_refusal t ws mid m lease now ids none = inr refl
gated_refusal t ws mid m lease now ids (some r) = inl (r, refl)

waits_lem :
    (s : MessageStatus)
    → (s ≡ MessageStatus.scheduled) ⊎ (s ≡ retry_scheduled)
    → is_scheduled s ≡ true
unfolding is_scheduled
waits_lem s (inl e) = rw e refl
waits_lem s (inr e) = rw e refl

due_lem : (o : Option ℕ) (d now : ℕ) → o ≡ some d → d ≤ now → is_due o now ≡ true
unfolding is_due
due_lem o d now e le = ground arith

due_cases : (o : Option ℕ) (now : ℕ) → is_due o now ≡ true → (d : ℕ) × (o ≡ some d) × (d ≤ now)
unfolding is_due
due_cases none now h = absurd (cc)
due_cases (some d) now h = (d, refl, ground arith)

-- The claim of a message that may be claimed: the tables it leaves.
pub claim_open :
    (t : Tables) (ws mid lease now clock : ℕ) (ids : NewIds) (m : Message)
    → IsConsistent t
    → Claimable t ws mid now clock m
    → claim_due_message t ws mid false lease now clock ids
      ≡ (claimed (m.dispatch_generation + 1), after_claim t ws mid m lease now ids)
unfolding claim_due_message claim_found
claim_open t ws mid lease now clock ids m ok c =
    let fresh = next_key_fresh t.db ws mid m t.works c.stored ok.behind in
    let parents = (parents_open t.db ws m clock).1 (c.parent, c.mailbox_free) in
    rw (c.stored, waits_lem m.status c.waits, due_lem m.due_at c.due_time now c.has_due c.is_past)
      (claim_gated_lem t ws mid m lease now ids _ fresh parents)

waiting_cases :
    (t : Tables) (ws mid : ℕ) (m : Message) (now clock : ℕ) (is_locked : Bool)
    → message_row t.db ws mid ≡ some m
    → (is_scheduled m.status && is_due m.due_at now && not is_locked) ≡ true
    → parent_gates t.db ws m clock ≡ none
    → (is_locked ≡ false) × Claimable t ws mid now clock m
waiting_cases t ws mid m now clock is_locked row waits parents =
    let (d, has_due, is_past) = due_cases m.due_at now (ground arith) in
    let (parent, free) = (parents_open t.db ws m clock).0 parents in
    (
      ground arith,
      record {
        stored = row;
        waits = is_scheduled_lem m.status (ground arith);
        due_time = d;
        has_due = has_due;
        is_past = is_past;
        parent = parent;
        mailbox_free = free;
      },
    )

-- A reply is a refusal that changes nothing, or the message may be claimed.
pub claim_cases :
    (t : Tables) (ws mid : ℕ) (is_locked : Bool) (lease now clock : ℕ) (ids : NewIds)
    → ((r : ClaimRefusal) × (claim_due_message t ws mid is_locked lease now clock ids
          ≡ (refused r, t)))
      ⊎ ((m : Message) × (is_locked ≡ false) × Claimable t ws mid now clock m)
unfolding claim_due_message claim_found
claim_cases t ws mid is_locked lease now clock ids = elim (Option-cases (message_row t.db ws mid)) [
  | inl e ↦ inl (not_claimable, rw e refl)
  | inr (m, e) ↦ elim (Bool-cases (is_scheduled m.status && is_due m.due_at now && not is_locked)) [
    | inr h ↦ inl (not_claimable, rw (e, h) refl)
    | inl h ↦ elim (gated_refusal t ws mid m lease now ids (parent_gates t.db ws m clock)) [
      | inl (r, q) ↦ inl (r, rw (e, h) q)
      | inr q ↦
          let (free, c) = waiting_cases t ws mid m now clock is_locked e h q in inr (m, free, c)
    ]
  ]
]

get_or_some : (n m : Message) → some n ≡ some m → n ≡ m
get_or_some n m e = cc

Claimable-stored :
    (t : Tables) (ws mid now clock : ℕ) (m n : Message)
    → message_row t.db ws mid ≡ some m
    → Claimable t ws mid now clock n
    → Claimable t ws mid now clock m
Claimable-stored t ws mid now clock m n row c =
    let same : n ≡ m = get_or_some n m (sym c.stored ∙ row) in rw (sym same) c

refused_not_claimed :
    (out : ClaimReply × Tables) (r : ClaimRefusal) (g : ℕ) (t u : Tables)
    → out ≡ (refused r, t)
    → ¬ (out ≡ (claimed g, u))
refused_not_claimed out r g t u e h =
    let same : refused r ≡ claimed g = sym (ap (λ o. o.0) e) ∙ ap (λ o. o.0) h in absurd (cc)

-- With consistent tables, `claim_due_message` claims a message exactly when no other transaction holds
-- its row, it is scheduled (or scheduled for a retry) and due, the campaign of a campaign message is
-- running, planned and of the message's schedule, and the mailbox is not blocked. The generation it
-- returns is then the message's next one, the message is queued under it with its status as the
-- origin and the lease as the end of the claim, and the outbox has one work more, of that key, with
-- an open delivery unless one of that work stands there. Otherwise it refuses and changes nothing;
-- it never violates a constraint of the outbox.
pub claim_iff :
    (t : Tables) (ws mid : ℕ) (is_locked : Bool) (lease now clock : ℕ) (ids : NewIds) (m : Message)
    → IsConsistent t
    → message_row t.db ws mid ≡ some m
    → ((claim_due_message t ws mid is_locked lease now clock ids
          ≡ (claimed (m.dispatch_generation + 1), after_claim t ws mid m lease now ids))
        ↔ ((is_locked ≡ false) × Claimable t ws mid now clock m))
      × (((r : ClaimRefusal) × (claim_due_message t ws mid is_locked lease now clock ids
              ≡ (refused r, t)))
          ⊎ ((is_locked ≡ false) × Claimable t ws mid now clock m))
claim_iff t ws mid is_locked lease now clock ids m ok row =
    let cases = claim_cases t ws mid is_locked lease now clock ids in
    let same = λ (n : Message) (c : Claimable t ws mid now clock n).
      Claimable-stored t ws mid now clock m n row c in
    (
      (
        λ h. elim cases [
          | inr (n, e, c) ↦ (e, same n c)
          | inl (r, q) ↦ absurd (refused_not_claimed _ r _ t _ q h)
        ],
        λ (e, c). rw e (claim_open t ws mid lease now clock ids m ok c),
      ),
      elim cases [ inl refusal ↦ inl refusal | inr (n, e, c) ↦ inr (e, same n c) ],
    )
