-- ===== src/Scheduler/Claim.antt =====
-- `claim_due_message`, `find_expired_claims` and `recover_expired_claim` of
-- backend/app/modules/scheduler/repository.py. `is_locked` tells whether another transaction holds the
-- message row, which SKIP LOCKED passes over; `clock` is the worker's clock, `now` the database's.
pub mod Keys
pub mod Outcome
pub mod Eligible
pub mod Freed
pub mod Recovered
pub mod Steps
use email_outreach_platform.Base.{
  ℕ, ◌+◌, Bool, true, false, not, ◌&&◌, ◌||◌, Option, none, some, List, [], ◌∷◌, leb, ◌==◌,
  if◌then◌else◌, get_or, update_where,
}
use email_outreach_platform.Sending.Context.{
  MessageStatus, scheduled, queued, retry_scheduled, pending,
}
use email_outreach_platform.Sending.Gates.{is_campaign, is_running, is_ready, is_blocked}
use email_outreach_platform.Sending.Store.{
  Message, Campaign, Mailbox, Db, in_workspace, message_row, mailbox_row, put_message,
}
use email_outreach_platform.Sending.Repository.Writes.{has_attempt_of, is_queued}
use email_outreach_platform.Scheduler.Store.{
  WorkKey, email_send, OutboxWork, DeliveryState, pending, leased, retry, superseded, Delivery,
  Tables, same_key, has_key, has_work, has_delivery, send_consumer,
}

-- The reasons of a `ClaimResult` that is not claimed.
pub data ClaimRefusal : Type 0 where
  not_claimable campaign_not_running schedule_changed mailbox_blocked : ClaimRefusal

-- A `ClaimResult`, or the error of a constraint that the inserts violate.
pub data ClaimReply : Type 0 where
  claimed : ℕ → ClaimReply
  refused : ClaimRefusal → ClaimReply
  integrity_error : ClaimReply

-- The uuids of the new rows.
pub record NewIds : Type 0 where
  pub work_id : ℕ
  pub delivery_id : ℕ
  pub correlation_id : ℕ

unfoldable pub is_scheduled : MessageStatus → Bool
is_scheduled MessageStatus.scheduled = true
is_scheduled retry_scheduled = true
is_scheduled _ = false

unfoldable pub is_due : Option ℕ → ℕ → Bool
is_due none now = false
is_due (some due) now = leb due now

-- Of the campaign of a campaign message: running, planned, and of the message's schedule.
unfoldable pub campaign_gate : Message → Option Campaign → Option ClaimRefusal
unfolding is_running is_ready
campaign_gate m none = some campaign_not_running
campaign_gate m (some c) =
    if not (is_running (some c.status)) || not (is_ready (some c.planning_status))
    then some campaign_not_running
    else if c.schedule_generation == m.schedule_generation
    then none
    else some schedule_changed

unfoldable pub mailbox_gate : Option Mailbox → ℕ → Option ClaimRefusal
unfolding is_blocked
mailbox_gate none clock = none
mailbox_gate (some b) clock =
    if is_blocked b.blocked_until clock then some mailbox_blocked else none

unfoldable pub campaign_row : Db → ℕ → Option ℕ → Option Campaign
campaign_row db ws none = none
campaign_row db ws (some id) = in_workspace (λ (c : Campaign). c.workspace_id) ws (db.campaigns id)

unfoldable pub parent_gates : Db → ℕ → Message → ℕ → Option ClaimRefusal
unfolding campaign_gate mailbox_gate campaign_row is_campaign
parent_gates db ws m clock =
    elim (if is_campaign m.purpose
      then campaign_gate m (campaign_row db ws m.campaign_id)
      else none) [ some r ↦ some r | none ↦ mailbox_gate (mailbox_row db ws m.mailbox_id) clock ]

-- The UPDATE to QUEUED; its guard repeats what the locked row was read with.
unfoldable pub claimed_row : Message → ℕ → Message
claimed_row m expires_at = record m {
  status = queued;
  dispatch_origin = some m.status;
  dispatch_generation = m.dispatch_generation + 1;
  claim_expires_at = some expires_at;
  version = m.version + 1;
}

unfoldable pub insert_work : OutboxWork → List OutboxWork → List OutboxWork
insert_work w rows = if has_key w.workspace_id w.key rows then rows else w ∷ rows

-- `none` is the error of the foreign key.
unfoldable pub insert_delivery : Delivery → List OutboxWork → List Delivery → Option (List Delivery)
insert_delivery d works rows =
    if has_work d.workspace_id d.work_id works
    then some (if has_delivery d.workspace_id d.work_id d.consumer rows then rows else d ∷ rows)
    else none

unfoldable pub new_work : ℕ → ℕ → ℕ → NewIds → ℕ → OutboxWork
new_work ws mid generation ids now = record {
  id = ids.work_id;
  workspace_id = ws;
  key = email_send mid generation;
  resource_id = mid;
  correlation_id = some ids.correlation_id;
  available_at = now;
  is_superseded = false;
}

unfoldable pub new_delivery : ℕ → NewIds → ℕ → Delivery
new_delivery ws ids now = record {
  id = ids.delivery_id;
  workspace_id = ws;
  work_id = ids.work_id;
  consumer = send_consumer;
  state = pending;
  lease_owner = none;
  lease_generation = 1;
  lease_expires_at = none;
  next_attempt_at = some now;
  attempts = 0;
  safe_error = none;
  published_at = none;
}

unfoldable pub with_delivery :
    Tables → List OutboxWork → Db → ℕ → Option (List Delivery) → ClaimReply × Tables
with_delivery t works db generation none = (integrity_error, t)
with_delivery t works db generation (some rows) =
    (claimed generation, record t { db = db; works = works; deliveries = rows })

unfoldable pub dispatch : Tables → ℕ → ℕ → Message → ℕ → ℕ → NewIds → ClaimReply × Tables
unfolding claimed_row insert_work insert_delivery new_work new_delivery with_delivery
dispatch t ws mid m lease now ids =
    let works = insert_work (new_work ws mid (m.dispatch_generation + 1) ids now) t.works in
    with_delivery t works (put_message t.db mid (claimed_row m (now + lease)))
      (m.dispatch_generation + 1) (insert_delivery (new_delivery ws ids now) works t.deliveries)

unfoldable pub claim_gated :
    Tables → ℕ → ℕ → Message → ℕ → ℕ → NewIds → Option ClaimRefusal → ClaimReply × Tables
unfolding dispatch
claim_gated t ws mid m lease now ids (some r) = (refused r, t)
claim_gated t ws mid m lease now ids none = dispatch t ws mid m lease now ids

unfoldable pub claim_found :
    Tables → ℕ → ℕ → Bool → ℕ → ℕ → ℕ → NewIds → Option Message → ClaimReply × Tables
unfolding claim_gated parent_gates is_scheduled is_due
claim_found t ws mid is_locked lease now clock ids none = (refused not_claimable, t)
claim_found t ws mid is_locked lease now clock ids (some m) =
    if is_scheduled m.status && is_due m.due_at now && not is_locked
    then claim_gated t ws mid m lease now ids (parent_gates t.db ws m clock)
    else (refused not_claimable, t)

unfoldable pub claim_due_message : Tables → ℕ → ℕ → Bool → ℕ → ℕ → ℕ → NewIds → ClaimReply × Tables
unfolding claim_found
claim_due_message t ws mid is_locked lease now clock ids =
    claim_found t ws mid is_locked lease now clock ids (message_row t.db ws mid)

unfoldable pub recovered_row : Message → Message
recovered_row m = record m {
  status = get_or MessageStatus.scheduled m.dispatch_origin;
  dispatch_origin = none;
  claim_expires_at = none;
  version = m.version + 1;
}

unfoldable pub is_uncompleted : DeliveryState → Bool
is_uncompleted pending = true
is_uncompleted leased = true
is_uncompleted retry = true
is_uncompleted _ = false

-- Is the delivery's work the one with this key?
unfoldable pub is_work_of : ℕ → WorkKey → List OutboxWork → ℕ → Bool
is_work_of ws key [] id = false
is_work_of ws key (w ∷ rows) id =
    (w.workspace_id == ws && same_key w.key key && w.id == id) || is_work_of ws key rows id

unfoldable pub supersede : ℕ → WorkKey → List OutboxWork → List Delivery → List Delivery
unfolding is_uncompleted is_work_of
supersede ws key works =
    update_where
      (λ (d : Delivery).
        d.workspace_id == ws && is_work_of ws key works d.work_id && is_uncompleted d.state)
      (λ d. record d { state = superseded })

unfoldable pub recover_found : Tables → ℕ → ℕ → ℕ → Bool → Option Message → Option Tables
unfolding is_queued has_attempt_of recovered_row supersede
recover_found t ws mid generation is_locked none = none
recover_found t ws mid generation is_locked (some m) =
    if is_queued m.status
      && m.dispatch_generation == generation
      && not is_locked
      && not (has_attempt_of t.db.attempts ws mid generation)
    then some (record t {
      db = put_message t.db mid (recovered_row m);
      deliveries = supersede ws (email_send mid generation) t.works t.deliveries;
    })
    else none

-- `none` is False: nothing is recovered.
unfoldable pub recover_expired_claim : Tables → ℕ → ℕ → ℕ → Bool → Option Tables
unfolding recover_found
recover_expired_claim t ws mid generation is_locked =
    recover_found t ws mid generation is_locked (message_row t.db ws mid)
