-- ===== src/Scheduler/Publisher.antt =====
-- `OutboxPublisherService.publish_pending_deliveries` of backend/app/modules/scheduler/service.py, and
-- `find_pending_deliveries` of backend/app/modules/scheduler/outbox_repository.py. `send` stands for
-- Celery's send_task and gives the text of its exception, if it raises one; `lease_fails` and
-- `record_fails` tell for which deliveries the lease and the commit of the result raise, and the clocks
-- are the database's.
pub mod Backoff
pub mod Found
pub mod Leased
use email_outreach_platform.Base.{
  ℕ, ◌+◌, ◌*◌, ◌^◌, min, Bool, false, not, ◌&&◌, ◌||◌, Option, none, some, List, [], ◌∷◌, ◌++◌, ltb,
  leb, ◌==◌, if◌then◌else◌, take, get_or, second, Text, text_eq, select_where,
}
use email_outreach_platform.Scheduler.Store.{OutboxWork, Delivery}
use email_outreach_platform.Scheduler.Outbox.{is_open, lease_delivery, mark_published, mark_retry}
use email_outreach_platform.Scheduler.Key.{semantic_key, generation_of_key}

-- A row of the query's result: the delivery and its work.
pub record PendingDelivery : Type 0 where
  pub delivery : Delivery
  pub work : OutboxWork

-- `SendTaskPayload`, less the schema version and the two fields that repeat others.
pub record SendTask : Type 0 where
  pub work_id : ℕ
  pub delivery_id : ℕ
  pub resource_id : ℕ
  pub workspace_id : ℕ
  pub dispatch_generation : ℕ
  pub correlation_id : Option ℕ

pub record Publisher : Type 0 where
  pub publisher_id : ℕ
  pub lease_seconds : ℕ
  pub shown : ℕ → Text
  pub send : SendTask → Option Text
  pub jitter : ℕ → ℕ
  pub lease_fails : ℕ → Bool
  pub record_fails : ℕ → Bool
  pub lease_clock : ℕ → ℕ
  pub record_clock : ℕ → ℕ

-- The deliveries as committed, and the tasks sent, the latest first, each with the deliveries that
-- stood committed when it was sent.
pub record Outbox : Type 0 where
  pub rows : List Delivery
  pub sent : List (SendTask × List Delivery)

-- `d.next_attempt_at <= now`
unfoldable pub attempt_due : Option ℕ → ℕ → Bool
attempt_due none now = false
attempt_due (some at) now = leb at now

unfoldable pub is_pending : Text → ℕ → Delivery → Bool
unfolding attempt_due is_open
is_pending consumer now d =
    text_eq d.consumer consumer && is_open d.state && attempt_due d.next_attempt_at now

-- The join with the work that is not superseded.
unfoldable pub works_of : Delivery → List OutboxWork → List PendingDelivery
works_of d [] = []
works_of d (w ∷ works) =
    let rest = works_of d works in
    if w.workspace_id == d.workspace_id && w.id == d.work_id && not w.is_superseded
    then record { delivery = d; work = w } ∷ rest
    else rest

unfoldable pub join_works : List OutboxWork → List Delivery → List PendingDelivery
join_works works [] = []
join_works works (d ∷ rows) = works_of d works ++ join_works works rows

-- `ORDER BY d.next_attempt_at, d.id`
pub is_before : PendingDelivery → PendingDelivery → Bool
is_before a b =
    let s = get_or 0 a.delivery.next_attempt_at in
    let t = get_or 0 b.delivery.next_attempt_at in
    ltb s t || (s == t && leb a.delivery.id b.delivery.id)

unfoldable pub insert_pending : PendingDelivery → List PendingDelivery → List PendingDelivery
insert_pending a [] = a ∷ []
insert_pending a (b ∷ rows) =
    let rest = insert_pending a rows in if is_before a b then a ∷ b ∷ rows else b ∷ rest

unfoldable pub sort_pending : List PendingDelivery → List PendingDelivery
sort_pending [] = []
sort_pending (a ∷ rows) = insert_pending a (sort_pending rows)

unfoldable pub find_pending_deliveries :
    Text → ℕ → ℕ → List OutboxWork → List Delivery → List PendingDelivery
unfolding is_pending works_of join_works is_before insert_pending sort_pending
find_pending_deliveries consumer limit now works rows =
    take limit (sort_pending (join_works works (select_where (is_pending consumer now) rows)))

-- `min(300.0, 2.0 ** min(attempts, 8) + random.uniform(0.5, 2.0))` seconds
unfoldable pub publish_backoff : ℕ → ℕ → ℕ
publish_backoff attempts jitter = min (300 * second) (2 ^ min attempts 8 * second + jitter)

module _ (p : Publisher) where
  unfoldable pub task_of : PendingDelivery → SendTask
  task_of row = record {
    work_id = row.delivery.work_id;
    delivery_id = row.delivery.id;
    resource_id = row.work.resource_id;
    workspace_id = row.delivery.workspace_id;
    dispatch_generation = generation_of_key (semantic_key p.shown row.work.key);
    correlation_id = row.work.correlation_id;
  }

  -- Step 4, for the reply of the queue.
  recorded : PendingDelivery → ℕ → Option Text → List Delivery → List Delivery
  unfolding publish_backoff
  recorded row generation none rows =
      (mark_published row.delivery.workspace_id row.delivery.id p.publisher_id generation
        (p.record_clock row.delivery.id) rows).1
  recorded row generation (some error) rows =
      (mark_retry row.delivery.workspace_id row.delivery.id p.publisher_id generation
        (publish_backoff (row.delivery.attempts + 1) (p.jitter row.delivery.id)) error
        (p.record_clock row.delivery.id) rows).1

  -- `published_count += 1` stands before the commit.
  is_counted : Option Text → ℕ
  is_counted none = 1
  is_counted (some error) = 0

  -- Steps 3 and 4.
  unfoldable pub send_leased : PendingDelivery → ℕ → Outbox → Option ℕ × Outbox
  unfolding task_of recorded is_counted
  send_leased row generation o =
      let task = task_of row in
      let reply = p.send task in
      let after = recorded row generation reply o.rows in
      (
        some (is_counted reply),
        record {
          rows = if p.record_fails row.delivery.id then o.rows else after;
          sent = (task, o.rows) ∷ o.sent;
        },
      )

  -- Step 2: a payload whose generation is not positive raises; the loop does not catch it.
  publish_leased : PendingDelivery → Option ℕ → Outbox → Option ℕ × Outbox
  unfolding send_leased
  publish_leased row none o = (some 0, o)
  publish_leased row (some generation) o =
      if ltb 0 (task_of row).dispatch_generation then send_leased row generation o else (none, o)

  -- The body of the loop: what it adds to the count, or `none` where it raises.
  unfoldable pub publish_one : PendingDelivery → Outbox → Option ℕ × Outbox
  unfolding publish_leased
  publish_one row o =
      let id = row.delivery.id in
      let leasing =
        lease_delivery row.delivery.workspace_id id p.publisher_id p.lease_seconds
          (p.lease_clock id) o.rows in
      if p.lease_fails id
      then (some 0, o)
      else publish_leased row leasing.0 (record o { rows = leasing.1 })

  add_count : ℕ → Option ℕ × Outbox → Option ℕ × Outbox
  add_count n (none, o) = (none, o)
  add_count n (some m, o) = (some (n + m), o)

  unfoldable pub continue_with : Option ℕ → Outbox → Option ℕ × Outbox → Option ℕ × Outbox
  unfolding add_count
  continue_with none o rest = (none, o)
  continue_with (some n) o rest = add_count n rest

  unfoldable pub publish_each : List PendingDelivery → Outbox → Option ℕ × Outbox
  unfolding continue_with publish_one
  publish_each [] o = (some 0, o)
  publish_each (row ∷ rest) o =
      let (n, after) = publish_one row o in continue_with n after (publish_each rest after)

  unfoldable pub publish_pending_deliveries :
      Text → ℕ → ℕ → List OutboxWork → Outbox → Option ℕ × Outbox
  unfolding publish_each find_pending_deliveries
  publish_pending_deliveries consumer limit now works o =
      publish_each (find_pending_deliveries consumer limit now works o.rows) o
