-- ===== src/Scheduler/Outbox.antt =====
-- backend/app/modules/scheduler/outbox_repository.py: the leases of outbox deliveries. Each UPDATE is a
-- function on the rows, with the row count that the method returns. The database's clock is an
-- argument; a lease or a backoff is its length.
pub mod Allowed
pub mod Steps
pub mod Fencing
pub mod Marks
pub mod Reclaimed
pub mod Overdue
use email_outreach_platform.Base.{
  ℕ, ◌+◌, Bool, true, false, ◌&&◌, Option, none, some, List, [], ◌∷◌, leb, ◌==◌, length, take,
  is_some, Text, update_where, select_where, first_where,
}
use email_outreach_platform.Scheduler.Store.{
  DeliveryState, pending, leased, published, retry, Delivery,
}

-- `WHERE workspace_id = :ws AND id = :delivery_id`
unfoldable pub is_row : ℕ → ℕ → Delivery → Bool
is_row ws id d = d.workspace_id == ws && d.id == id

-- The rows of a primary key.
unfoldable pub count_of : ℕ → ℕ → List Delivery → ℕ
unfolding is_row
count_of ws id rows = length (select_where (is_row ws id) rows)

-- `state IN ('PENDING', 'RETRY')`
unfoldable pub is_open : DeliveryState → Bool
is_open pending = true
is_open retry = true
is_open _ = false

unfoldable pub is_leased : DeliveryState → Bool
is_leased leased = true
is_leased _ = false

unfoldable pub leased_row : ℕ → ℕ → Delivery → Delivery
leased_row owner expires_at d = record d {
  state = leased;
  lease_owner = some owner;
  lease_generation = d.lease_generation + 1;
  lease_expires_at = some expires_at;
}

unfoldable pub can_lease : ℕ → ℕ → Delivery → Bool
unfolding is_row is_open
can_lease ws id d = is_row ws id d && is_open d.state

unfoldable pub leased_generation : Option Delivery → Option ℕ
leased_generation none = none
leased_generation (some d) = some (d.lease_generation + 1)

-- The generation of the row that RETURNING gives, if there is one.
unfoldable pub lease_delivery : ℕ → ℕ → ℕ → ℕ → ℕ → List Delivery → Option ℕ × List Delivery
unfolding leased_generation leased_row can_lease
lease_delivery ws id owner lease now rows = (
  leased_generation (first_where (can_lease ws id) rows),
  update_where (can_lease ws id) (leased_row owner (now + lease)) rows,
)

unfoldable pub holds_lease : Option ℕ → ℕ → Bool
holds_lease none owner = false
holds_lease (some o) owner = o == owner

-- The guard of `mark_published` and `mark_retry`: the lease, and not the state.
unfoldable pub is_lease_of : ℕ → ℕ → ℕ → ℕ → Delivery → Bool
unfolding is_row holds_lease
is_lease_of ws id owner generation d =
    is_row ws id d && holds_lease d.lease_owner owner && d.lease_generation == generation

unfoldable pub published_row : ℕ → Delivery → Delivery
published_row now d = record d {
  state = published;
  attempts = d.attempts + 1;
  published_at = some now;
  lease_owner = none;
  lease_expires_at = none;
}

unfoldable pub retry_row : ℕ → Text → Delivery → Delivery
retry_row due error d = record d {
  state = retry;
  attempts = d.attempts + 1;
  next_attempt_at = some due;
  safe_error = some error;
  lease_owner = none;
  lease_expires_at = none;
}

abbrev pub mark : (Delivery → Bool) → (Delivery → Delivery) → List Delivery → Bool × List Delivery
mark p f rows = (is_some (first_where p rows), update_where p f rows)

unfoldable pub mark_published : ℕ → ℕ → ℕ → ℕ → ℕ → List Delivery → Bool × List Delivery
unfolding is_lease_of published_row
mark_published ws id owner generation now =
    mark (is_lease_of ws id owner generation) (published_row now)

-- `safe_error[:500]`
unfoldable pub mark_retry : ℕ → ℕ → ℕ → ℕ → ℕ → Text → ℕ → List Delivery → Bool × List Delivery
unfolding is_lease_of retry_row
mark_retry ws id owner generation backoff error now =
    mark (is_lease_of ws id owner generation) (retry_row (now + backoff) (take 500 error))

is_expired : Option ℕ → ℕ → Bool
is_expired none now = false
is_expired (some expires_at) now = leb expires_at now

unfoldable pub is_stale : ℕ → Delivery → Bool
unfolding is_leased is_expired
is_stale now d = is_leased d.state && is_expired d.lease_expires_at now

unfoldable pub reclaimed_row : ℕ → Delivery → Delivery
reclaimed_row now d = record d {
  state = retry;
  lease_owner = none;
  lease_expires_at = none;
  next_attempt_at = some now;
}

unfoldable pub can_reclaim : ℕ → ℕ → Delivery → Bool
unfolding is_row is_leased
can_reclaim ws id d = is_row ws id d && is_leased d.state

-- The loop of `recover_stale_leases` over the rows it has found.
unfoldable pub reclaim_each : ℕ → List Delivery → List Delivery → ℕ × List Delivery
unfolding can_reclaim reclaimed_row
reclaim_each now [] rows = (0, rows)
reclaim_each now (s ∷ stale) rows =
    let p = can_reclaim s.workspace_id s.id in
    let (n, after) = reclaim_each now stale (update_where p (reclaimed_row now) rows) in
    (length (select_where p rows) + n, after)

-- `choose` is the database's choice of at most `limit` rows: the query has no ORDER BY.
unfoldable pub recover_stale_leases :
    (List Delivery → List Delivery) → ℕ → List Delivery → ℕ × List Delivery
unfolding is_stale reclaim_each
recover_stale_leases choose now rows =
    reclaim_each now (choose (select_where (is_stale now) rows)) rows

unfoldable pub get_pending_outbox_backlog_count : List Delivery → ℕ
unfolding is_open
get_pending_outbox_backlog_count rows =
    length (select_where (λ (d : Delivery). is_open d.state) rows)
