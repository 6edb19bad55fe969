-- ===== src/Scheduler/Publisher/Leased.antt =====
-- Under which committed state a task is sent.
use mathlib.Core.List.{Memᴰ}
use email_outreach_platform.Base.{
  ℕ, ◌+◌, ◌<◌, ◌≡◌, refl, ap, inl, inr, Bool, true, ◌&&◌, Option, none, some, List, [], ◌∷◌, arith,
  ltb, ◌==◌, Bool-cases, is_some, All, Option-cases, Text, update_where, first_where,
  first_where-Mem,
}
use email_outreach_platform.Scheduler.Store.{OutboxWork, DeliveryState, Delivery}
use email_outreach_platform.Scheduler.Key.{semantic_key, generation_of_key}
use email_outreach_platform.Scheduler.Publisher.Found.{IsFound, find_pending-IsFound}
use email_outreach_platform.Scheduler.Outbox.{
  is_row, is_leased, leased_row, can_lease, leased_generation, lease_delivery, holds_lease,
}
use email_outreach_platform.Scheduler.Publisher.{
  PendingDelivery, SendTask, Publisher, Outbox, find_pending_deliveries, task_of, send_leased,
  publish_one, continue_with, publish_each, publish_pending_deliveries,
}

unfoldable held_by : ℕ → ℕ → ℕ → Delivery → Bool
unfolding is_row is_leased
held_by owner ws id d = is_row ws id d && is_leased d.state && holds_lease d.lease_owner owner

-- The lease stands in these deliveries.
pub record LeasedIn (owner ws id : ℕ) (rows : List Delivery) : Type 0 where
  pub row : Delivery
  pub stands : Memᴰ row rows
  pub same_workspace : row.workspace_id ≡ ws
  pub same_id : row.id ≡ id
  pub state_leased : row.state ≡ DeliveryState.leased
  pub owned : row.lease_owner ≡ some owner

-- A task that was sent and the deliveries that stood committed then: the task is of a delivery of the
-- query with its work, and the delivery stood leased.
pub record SentUnderLease (p : Publisher) (consumer : Text) (now : ℕ) (works : List OutboxWork)
    (rows : List Delivery) (o : SendTask × List Delivery) : Type 0 where
  pub source : PendingDelivery
  pub found : IsFound consumer now works rows source
  pub same_task : o.0 ≡ record {
    work_id = source.work.id;
    delivery_id = source.delivery.id;
    resource_id = source.work.resource_id;
    workspace_id = source.delivery.workspace_id;
    dispatch_generation = generation_of_key (semantic_key p.shown source.work.key);
    correlation_id = source.work.correlation_id;
  }
  pub is_held : LeasedIn p.publisher_id source.delivery.workspace_id source.delivery.id o.1
  pub is_positive : 0 < o.0.dispatch_generation

leased_lem : (s : DeliveryState) → is_leased s ≡ true → s ≡ DeliveryState.leased
unfolding is_leased
leased_lem s h = ground arith

owner_lem : (o : Option ℕ) (owner : ℕ) → holds_lease o owner ≡ true → o ≡ some owner
unfolding holds_lease
owner_lem none owner h = absurd (cc)
owner_lem (some n) owner h = let same : n ≡ owner = ground arith in ap some same

held-LeasedIn :
    (owner ws id : ℕ) (rows : List Delivery)
    → is_some (first_where (held_by owner ws id) rows) ≡ true
    → LeasedIn owner ws id rows
unfolding held_by
held-LeasedIn owner ws id rows h =
    let (d, there, e) = first_where-Mem (held_by owner ws id) rows h in
    record {
      row = d;
      stands = there;
      same_workspace = ground arith;
      same_id = ground arith;
      state_leased = leased_lem d.state (ground arith);
      owned = owner_lem d.lease_owner owner (ground arith);
    }

found_after :
    (p q : Delivery → Bool) (f : Delivery → Delivery) (rows : List Delivery)
    → ((d : Delivery) → p d ≡ true → q (f d) ≡ true)
    → is_some (first_where p rows) ≡ true
    → is_some (first_where q (update_where p f rows)) ≡ true
unfolding first_where update_where
found_after p q f [] then_q found = found
found_after p q f (d ∷ rows) then_q found = elim (Bool-cases (p d)) [
  | inl e ↦ rw (e, then_q d e) refl
  | inr e ↦
      let rest = found_after p q f rows then_q (rw e at found) in
      elim (Bool-cases (q d)) [ inl h ↦ rw (e, h) refl | inr h ↦ rw (e, h) rest ]
]

lease_held :
    (owner ws id expires : ℕ) (d : Delivery)
    → can_lease ws id d ≡ true
    → held_by owner ws id (leased_row owner expires d) ≡ true
unfolding can_lease held_by leased_row is_row is_leased holds_lease
lease_held owner ws id expires d h =
    let key : (d.workspace_id == ws && d.id == id) ≡ true = ground arith in
    let same : (owner == owner) ≡ true = ground arith in rw (key, same) refl

given_some : (o : Option Delivery) (g : ℕ) → leased_generation o ≡ some g → is_some o ≡ true
unfolding leased_generation
given_some none g h = absurd (cc)
given_some (some d) g h = refl

lease_found :
    (ws id owner seconds now g : ℕ) (rows : List Delivery)
    → (lease_delivery ws id owner seconds now rows).0 ≡ some g
    → is_some (first_where (held_by owner ws id) (lease_delivery ws id owner seconds now rows).1)
      ≡ true
unfolding lease_delivery
lease_found ws id owner seconds now g rows e =
    found_after (can_lease ws id) (held_by owner ws id) (leased_row owner (now + seconds)) rows
      (λ d. lease_held owner ws id (now + seconds) d) (given_some _ g e)

module _ (p : Publisher) (consumer : Text) (now : ℕ) (works : List OutboxWork)
    (rows : List Delivery) where
  abbrev AllSent : List (SendTask × List Delivery) → Type 0
  AllSent = All (SentUnderLease p consumer now works rows)

  publish_one-Sent :
      (row : PendingDelivery) (o : Outbox)
      → IsFound consumer now works rows row
      → AllSent o.sent
      → AllSent (publish_one p row o).1.sent
  unfolding publish_one send_leased
  publish_one-Sent row o from h =
      let ws = row.delivery.workspace_id in
      let id = row.delivery.id in
      let leasing = lease_delivery ws id p.publisher_id p.lease_seconds (p.lease_clock id) o.rows in
      elim (Bool-cases (p.lease_fails id)) [
        | inl e ↦ rw e h
        | inr e ↦ elim (Option-cases leasing.0) [
          | inl q ↦ rw (e, q) h
          | inr (g, q) ↦ elim (Bool-cases (ltb 0 (task_of p row).dispatch_generation)) [
            | inr k ↦ rw (e, q, k) h
            | inl k ↦
                rw (e, q, k)
                  (
                    record {
                      source = row;
                      found = from;
                      same_task = rw from.same_work refl;
                      is_held = held-LeasedIn p.publisher_id ws id leasing.1 (
                          lease_found ws id p.publisher_id p.lease_seconds (p.lease_clock id) g
                            o.rows q);
                      is_positive = ground arith;
                    },
                    h,
                  )
          ]
        ]
      ]

  continued :
      (n : Option ℕ) (o : Outbox) (rest : Option ℕ × Outbox)
      → AllSent o.sent
      → AllSent rest.1.sent
      → AllSent (continue_with p n o rest).1.sent
  unfolding continue_with
  continued none o rest h r = h
  continued (some n) o (none, after) h r = r
  continued (some n) o (some m, after) h r = r

  publish_each-Sent :
      (pending : List PendingDelivery) (o : Outbox)
      → All (IsFound consumer now works rows) pending
      → AllSent o.sent
      → AllSent (publish_each p pending o).1.sent
  unfolding publish_each
  publish_each-Sent [] o from h = h
  publish_each-Sent (row ∷ rest) o from h =
      let one = publish_one-Sent row o from.0 h in
      continued (publish_one p row o).0 (publish_one p row o).1 _ one
        (publish_each-Sent rest (publish_one p row o).1 from.1 one)

  -- A task is sent only for a delivery of the table that is for the consumer, pending or to be tried
  -- again, and due, and whose work is not superseded. The task has the ids of that delivery and of
  -- that work, the work's resource, and the positive generation of the work's key; and when it was
  -- sent, the committed deliveries showed that delivery leased to this publisher.
  pub publish-SentUnderLease :
      (limit : ℕ)
      → All
          (SentUnderLease p consumer now works rows)
          (publish_pending_deliveries p consumer limit now works
            (record { rows = rows; sent = [] })).1.sent
  unfolding publish_pending_deliveries
  publish-SentUnderLease limit =
      publish_each-Sent (find_pending_deliveries consumer limit now works rows) _
        (find_pending-IsFound consumer limit now works rows) tt
