-- ===== src/Scheduler/Outbox/Steps.antt =====
-- The transactions that write deliveries, and what every sequence of them keeps.
use email_outreach_platform.Base.{
  ℕ, ◌+◌, ◌≡◌, refl, ◌⊎◌, inl, inr, true, some, List, [], ◌∷◌, arith, take, All, Text,
}
use email_outreach_platform.Scheduler.Store.{WorkKey, OutboxWork, superseded, Delivery}
use email_outreach_platform.Scheduler.Claim.{
  NewIds, insert_delivery, new_delivery, is_uncompleted, supersede,
}
use email_outreach_platform.Scheduler.Outbox.{
  count_of, leased_row, lease_delivery, published_row, retry_row, mark_published, mark_retry,
  reclaimed_row, reclaim_each,
}
use email_outreach_platform.Scheduler.Outbox.Allowed.{
  delivery_allowed, AllAllowed, All-update, leased-Allowed, published-Allowed, retry-Allowed,
  reclaimed-Allowed, superseded-Allowed,
}

-- One statement on the deliveries: of the publisher, of the recovery of leases, or of the scheduler's
-- claims. A new row has a new primary key.
pub data OutboxStep : List Delivery → List Delivery → Type 0 where
  lease :
      (rows : List Delivery) (ws id owner seconds now : ℕ)
      → OutboxStep rows (lease_delivery ws id owner seconds now rows).1
  publish :
      (rows : List Delivery) (ws id owner generation now : ℕ)
      → OutboxStep rows (mark_published ws id owner generation now rows).1
  fail :
      (rows : List Delivery) (ws id owner generation backoff : ℕ) (error : Text) (now : ℕ)
      → OutboxStep rows (mark_retry ws id owner generation backoff error now rows).1
  reclaim : (rows stale : List Delivery) (now : ℕ) → OutboxStep rows (reclaim_each now stale rows).1
  withdraw :
      (rows : List Delivery) (ws : ℕ) (key : WorkKey) (works : List OutboxWork)
      → OutboxStep rows (supersede ws key works rows)
  insert :
      (rows after : List Delivery) (ws : ℕ) (ids : NewIds) (now : ℕ) (works : List OutboxWork)
      → count_of ws ids.delivery_id rows ≡ 0
      → insert_delivery (new_delivery ws ids now) works rows ≡ some after
      → OutboxStep rows after

pub data OutboxReach : List Delivery → List Delivery → Type 0 where
  stay : (rows : List Delivery) → OutboxReach rows rows
  step : (t u v : List Delivery) → OutboxStep t u → OutboxReach u v → OutboxReach t v

pub insert_cases :
    (d : Delivery) (works : List OutboxWork) (rows after : List Delivery)
    → insert_delivery d works rows ≡ some after
    → (after ≡ rows) ⊎ (after ≡ d ∷ rows)
unfolding insert_delivery
insert_cases d works rows after h = ground arith

-- A property of rows that every operation keeps: of the rows it writes, and of a new one.
module _ {ℓ} (P : Delivery → Type ℓ)
    (when_leased : (owner expires : ℕ) (d : Delivery) → P d → P (leased_row owner expires d))
    (when_published : (now : ℕ) (d : Delivery) → P d → P (published_row now d))
    (when_retried : (due : ℕ) (error : Text) (d : Delivery) → P d → P (retry_row due error d))
    (when_reclaimed : (now : ℕ) (d : Delivery) → P d → P (reclaimed_row now d))
    (when_superseded : (d : Delivery)
      → is_uncompleted d.state ≡ true
      → P d
      → P (record d { state = superseded })) where
  reclaim_each-All :
      (now : ℕ) (stale rows : List Delivery) → All P rows → All P (reclaim_each now stale rows).1
  unfolding reclaim_each
  reclaim_each-All now [] rows h = h
  reclaim_each-All now (s ∷ stale) rows h =
      reclaim_each-All now stale _ (All-update _ _ rows (λ d e. when_reclaimed now d) h)

  pub OutboxStep-All :
      {rows after : List Delivery}
      → OutboxStep rows after
      → ((ws : ℕ) (ids : NewIds) (now : ℕ)
          → count_of ws ids.delivery_id rows ≡ 0
          → P (new_delivery ws ids now))
      → All P rows
      → All P after
  unfolding lease_delivery mark_published mark_retry supersede
  OutboxStep-All (lease rows ws id owner seconds now) new h =
      All-update _ _ rows (λ d e. when_leased owner (now + seconds) d) h
  OutboxStep-All (publish rows ws id owner generation now) new h =
      All-update _ _ rows (λ d e. when_published now d) h
  OutboxStep-All (fail rows ws id owner generation backoff error now) new h =
      All-update _ _ rows (λ d e. when_retried (now + backoff) (take 500 error) d) h
  OutboxStep-All (reclaim rows stale now) new h = reclaim_each-All now stale rows h
  OutboxStep-All (withdraw rows ws key works) new h =
      All-update _ _ rows (λ d e. when_superseded d (ground arith)) h
  OutboxStep-All (insert rows after ws ids now works free e) new h =
      elim (insert_cases (new_delivery ws ids now) works rows after e) [
        | inl q ↦ rw q h
        | inr q ↦ rw q (new ws ids now free, h)
      ]

new-Allowed : (ws : ℕ) (ids : NewIds) (now : ℕ) → delivery_allowed (new_delivery ws ids now) ≡ true
unfolding delivery_allowed new_delivery
new-Allowed ws ids now = refl

-- No sequence of claims, recoveries of claims, leases, publications, failures and recoveries of leases
-- makes a row of outbox_deliveries that a CHECK constraint of the table refuses, so none of these
-- statements fails on one: a leased row has an owner, an owner has an expiry, a published row its time,
-- and an open row the time of its next attempt.
pub OutboxReach-Allowed :
    {rows after : List Delivery} → OutboxReach rows after → AllAllowed rows → AllAllowed after
OutboxReach-Allowed (stay rows) h = h
OutboxReach-Allowed (step t u v s r) h = OutboxReach-Allowed r (
    OutboxStep-All _ leased-Allowed published-Allowed retry-Allowed reclaimed-Allowed
      (λ d q a. superseded-Allowed d a q) s (λ ws ids now free. new-Allowed ws ids now) h)
