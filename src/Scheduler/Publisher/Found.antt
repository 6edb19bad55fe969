-- ===== src/Scheduler/Publisher/Found.antt =====
-- Which rows `find_pending_deliveries` gives.
use mathlib.Core.List.{Memᴰ}
use mathlib.Core.List.Memᴰ.{head, tail}
use email_outreach_platform.Base.{
  ℕ, zero, suc, ◌≤◌, ◌≡◌, refl, ◌⊎◌, inl, inr, true, false, not, ◌&&◌, Option, none, some, List, [],
  ◌∷◌, ◌++◌, arith, ◌==◌, Bool-cases, take, All, Text, text_eq→eq, select_where-All,
}
use email_outreach_platform.Scheduler.Store.{OutboxWork, DeliveryState, Delivery}
use email_outreach_platform.Scheduler.Outbox.{is_open}
use email_outreach_platform.Scheduler.Publisher.{
  PendingDelivery, attempt_due, is_pending, works_of, join_works, is_before, insert_pending,
  sort_pending, find_pending_deliveries,
}

-- A delivery of the table for this consumer that is open and due.
pub record IsDue (consumer : Text) (now : ℕ) (rows : List Delivery) (d : Delivery) : Type 0 where
  pub in_table : Memᴰ d rows
  pub for_consumer : d.consumer ≡ consumer
  pub is_waiting : (d.state ≡ DeliveryState.pending) ⊎ (d.state ≡ DeliveryState.retry)
  pub due_time : ℕ
  pub has_due : d.next_attempt_at ≡ some due_time
  pub is_past : due_time ≤ now

-- Such a delivery with its work, which is not superseded.
pub record IsFound (consumer : Text) (now : ℕ) (works : List OutboxWork) (rows : List Delivery)
    (a : PendingDelivery) : Type 0 where
  pub is_due : IsDue consumer now rows a.delivery
  pub has_work : Memᴰ a.work works
  pub same_workspace : a.work.workspace_id ≡ a.delivery.workspace_id
  pub same_work : a.work.id ≡ a.delivery.work_id
  pub is_live : a.work.is_superseded ≡ false

open_lem :
    (s : DeliveryState) → is_open s ≡ true → (s ≡ DeliveryState.pending) ⊎ (s ≡ DeliveryState.retry)
unfolding is_open
open_lem DeliveryState.pending h = inl refl
open_lem DeliveryState.retry h = inr refl
open_lem s h = absurd (ground arith)

due_lem : (o : Option ℕ) (now : ℕ) → attempt_due o now ≡ true → (t : ℕ) × (o ≡ some t) × (t ≤ now)
unfolding attempt_due
due_lem none now h = absurd (cc)
due_lem (some t) now h = (t, refl, ground arith)

pending-IsDue :
    (consumer : Text) (now : ℕ) (rows : List Delivery) (d : Delivery)
    → Memᴰ d rows
    → is_pending consumer now d ≡ true
    → IsDue consumer now rows d
unfolding is_pending
pending-IsDue consumer now rows d there h =
    let (t, has_due, past) = due_lem d.next_attempt_at now (ground arith) in
    record {
      in_table = there;
      for_consumer = text_eq→eq d.consumer consumer (ground arith);
      is_waiting = open_lem d.state (ground arith);
      due_time = t;
      has_due = has_due;
      is_past = past;
    }

module _ (P : PendingDelivery → Type 0) where
  append-All : (xs ys : List PendingDelivery) → All P xs → All P ys → All P (xs ++ ys)
  append-All [] ys hx hy = hy
  append-All (x ∷ xs) ys hx hy = (hx.0, append-All xs ys hx.1 hy)

  take-All : (n : ℕ) (xs : List PendingDelivery) → All P xs → All P (take n xs)
  take-All zero xs h = tt
  take-All (suc n) [] h = tt
  take-All (suc n) (x ∷ xs) h = (h.0, take-All n xs h.1)

  insert-All :
      (a : PendingDelivery) (xs : List PendingDelivery)
      → P a
      → All P xs
      → All P (insert_pending a xs)
  unfolding insert_pending
  insert-All a [] ha h = (ha, tt)
  insert-All a (b ∷ xs) ha h =
      let rest = insert-All a xs ha h.1 in
      elim (Bool-cases (is_before a b)) [ inl e ↦ rw e (ha, h) | inr e ↦ rw e (h.0, rest) ]

  sort-All : (xs : List PendingDelivery) → All P xs → All P (sort_pending xs)
  unfolding sort_pending
  sort-All [] h = tt
  sort-All (x ∷ xs) h = insert-All x (sort_pending xs) h.0 (sort-All xs h.1)

  works-All :
      (d : Delivery) (works : List OutboxWork)
      → ((w : OutboxWork)
          → Memᴰ w works
          → (w.workspace_id == d.workspace_id && w.id == d.work_id && not w.is_superseded) ≡ true
          → P (record { delivery = d; work = w }))
      → All P (works_of d works)
  unfolding works_of
  works-All d [] h = tt
  works-All d (w ∷ works) h =
      let rest = works-All d works (λ v there e. h v (tail there) e) in
      elim (Bool-cases
        (w.workspace_id == d.workspace_id && w.id == d.work_id && not w.is_superseded)) [
          | inl e ↦ rw e (h w (head refl) e, rest)
          | inr e ↦ rw e rest
        ]

join-IsFound :
    (consumer : Text) (now : ℕ) (works : List OutboxWork) (rows due : List Delivery)
    → All (IsDue consumer now rows) due
    → All (IsFound consumer now works rows) (join_works works due)
unfolding join_works
join-IsFound consumer now works rows [] h = tt
join-IsFound consumer now works rows (d ∷ due) h =
    let P = IsFound consumer now works rows in
    append-All P (works_of d works) (join_works works due)
      (works-All P d works (λ w there e. record {
        is_due = h.0;
        has_work = there;
        same_workspace = ground arith;
        same_work = ground arith;
        is_live = ground arith;
      }))
      (join-IsFound consumer now works rows due h.1)

pub find_pending-IsFound :
    (consumer : Text) (limit now : ℕ) (works : List OutboxWork) (rows : List Delivery)
    → All (IsFound consumer now works rows) (find_pending_deliveries consumer limit now works rows)
unfolding find_pending_deliveries
find_pending-IsFound consumer limit now works rows =
    let P = IsFound consumer now works rows in
    let due =
      select_where-All (IsDue consumer now rows) (is_pending consumer now) rows
        (λ d there e. pending-IsDue consumer now rows d there e) in
    take-All P limit _ (sort-All P _ (join-IsFound consumer now works rows _ due))
