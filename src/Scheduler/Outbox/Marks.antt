-- ===== src/Scheduler/Outbox/Marks.antt =====
-- What `mark_published` and `mark_retry` do under a lease that is over.
use email_outreach_platform.Base.{
  ℕ, ◌≤◌, ◌<◌, ◌≡◌, refl, ap, ◌∙◌, ◌⊎◌, inl, inr, Bool, true, false, none, List, [], ◌∷◌, arith,
  ltb, Bool-cases, is_some, All, Text, update_where, select_where, first_where,
}
use email_outreach_platform.Scheduler.Store.{Delivery}
use email_outreach_platform.Scheduler.Outbox.{
  is_row, count_of, is_lease_of, published_row, mark, mark_published, mark_retry,
}
use email_outreach_platform.Scheduler.Outbox.Steps.{OutboxReach}
use email_outreach_platform.Scheduler.Outbox.Fencing.{
  Fence, count_put, Bool-clash, Settled, OutboxReach-Settled,
}

lease_over :
    (ws id g owner : ℕ) (d : Delivery) → Fence ws id g d → is_lease_of ws id owner g d ≡ false
unfolding is_lease_of
lease_over ws id g owner d h = elim (Bool-cases (is_row ws id d)) [
  | inr e ↦ rw e refl
  | inl e ↦ elim (h e) [ inl lt ↦ ground arith | inr (eq, free) ↦ rw (e, free) refl ]
]

-- An UPDATE that finds no row.
mark_miss :
    (p : Delivery → Bool) (f : Delivery → Delivery) (rows : List Delivery)
    → All (λ d. p d ≡ false) rows
    → mark p f rows ≡ (false, rows)
unfolding first_where update_where
mark_miss p f [] h = refl
mark_miss p f (d ∷ rows) h =
    let rest = mark_miss p f rows h.1 in
    rw h.0 (ap (λ (o : Bool × List Delivery). (o.0, d ∷ o.1)) rest)

All-lease_over :
    (ws id g owner : ℕ) (rows : List Delivery)
    → All (Fence ws id g) rows
    → All (λ d. is_lease_of ws id owner g d ≡ false) rows
All-lease_over ws id g owner [] h = tt
All-lease_over ws id g owner (d ∷ rows) h =
    (lease_over ws id g owner d h.0, All-lease_over ws id g owner rows h.1)

-- The row of the key is under lease `g` at most, once an UPDATE that ends leases has found one.
module _ (ws id g : ℕ) (p : Delivery → Bool) (f : Delivery → Delivery)
    (of_key : (d : Delivery) → p d ≡ true → is_row ws id d ≡ true)
    (same_generation : (d : Delivery) → (f d).lease_generation ≡ d.lease_generation)
    (frees : (d : Delivery) → (f d).lease_owner ≡ none) where
  not_of_key : (d : Delivery) → is_row ws id d ≡ false → p d ≡ false
  not_of_key d e = elim (Bool-cases (p d)) [
    | inl h ↦ absurd (Bool-clash (of_key d h) e)
    | inr h ↦ h
  ]

  other_rows :
      (rows : List Delivery)
      → count_of ws id rows ≡ 0
      → (is_some (first_where p rows) ≡ false) × All (Fence ws id g) (update_where p f rows)
  unfolding count_of select_where first_where update_where
  other_rows [] none_left = (refl, tt)
  other_rows (d ∷ rows) none_left = elim (Bool-cases (is_row ws id d)) [
    | inl e ↦ absurd (ground arith)
    | inr e ↦
        let (missed, fenced) = other_rows rows (rw e at none_left) in
        let skips : p d ≡ false = not_of_key d e in
        (rw skips missed, rw skips (λ q. absurd (Bool-clash q e), fenced))
  ]

  ended :
      (d : Delivery)
      → g ≤ d.lease_generation
      → (g < (f d).lease_generation) ⊎ (((f d).lease_generation ≡ g) × ((f d).lease_owner ≡ none))
  ended d le = elim (Bool-cases (ltb g d.lease_generation)) [
    | inl h ↦ inl (rw (same_generation d) (ground arith))
    | inr h ↦ inr (same_generation d ∙ ground arith, frees d)
  ]

  pub settles :
      (rows : List Delivery)
      → count_of ws id rows ≡ 1
      → All (λ d. p d ≡ true → g ≤ d.lease_generation) rows
      → is_some (first_where p rows) ≡ true
      → All (Fence ws id g) (update_where p f rows)
  unfolding count_of select_where first_where update_where
  settles [] one behind found = absurd (omega (arith, one))
  settles (d ∷ rows) one behind found = elim (Bool-cases (p d)) [
    | inl e ↦
        let rest : count_of ws id rows ≡ 0 = omega (arith, rw (of_key d e) at one) in
        rw e (λ q. ended d (behind.0 e), (other_rows rows rest).1)
    | inr e ↦ elim (Bool-cases (is_row ws id d)) [
      | inl q ↦
          let rest : count_of ws id rows ≡ 0 = omega (arith, rw q at one) in
          absurd (Bool-clash (rw e at found) (other_rows rows rest).0)
      | inr q ↦
          rw e (λ k. absurd (Bool-clash k q), settles rows (rw q at one) behind.1 (rw e at found))
    ]
  ]

All-of {ℓ} : {P : Delivery → Type ℓ} (rows : List Delivery) → ((d : Delivery) → P d) → All P rows
All-of [] h = tt
All-of (d ∷ rows) h = (h d, All-of rows h)

lease_of_generation :
    (ws id g owner : ℕ) (d : Delivery)
    → is_lease_of ws id owner g d ≡ true
    → (is_row ws id d ≡ true) × (g ≤ d.lease_generation)
unfolding is_lease_of
lease_of_generation ws id g owner d h = (ground arith, ground arith)

-- A mark that has found its row ends the lease.
pub mark-Settled :
    (ws id g owner : ℕ) (f : Delivery → Delivery) (rows : List Delivery)
    → ((d : Delivery) → is_row ws id (f d) ≡ is_row ws id d)
    → ((d : Delivery) → (f d).lease_generation ≡ d.lease_generation)
    → ((d : Delivery) → (f d).lease_owner ≡ none)
    → count_of ws id rows ≡ 1
    → is_some (first_where (is_lease_of ws id owner g) rows) ≡ true
    → Settled ws id g (update_where (is_lease_of ws id owner g) f rows)
mark-Settled ws id g owner f rows key same free one found = record {
  one = count_put ws id (is_lease_of ws id owner g) f rows key ∙ one;
  fenced =
      settles ws id g (is_lease_of ws id owner g) f
        (λ d h. (lease_of_generation ws id g owner d h).0) same free rows one
        (All-of rows (λ d h. (lease_of_generation ws id g owner d h).1)) found;
}

pub Settled-mark :
    (ws id g owner : ℕ) (f : Delivery → Delivery) (rows : List Delivery)
    → Settled ws id g rows
    → mark (is_lease_of ws id owner g) f rows ≡ (false, rows)
Settled-mark ws id g owner f rows h =
    mark_miss (is_lease_of ws id owner g) f rows (All-lease_over ws id g owner rows h.fenced)

-- A publisher records one result of a lease. Once `mark_published` has found the delivery under a
-- lease, then whatever the publishers, the recovery of leases and the scheduler do after that, a
-- `mark_published` or a `mark_retry` under the same lease finds no row and changes nothing.
pub published_once :
    (ws id owner g now : ℕ) (rows after : List Delivery) (other later backoff : ℕ) (error : Text)
    → count_of ws id rows ≡ 1
    → (mark_published ws id owner g now rows).0 ≡ true
    → OutboxReach (mark_published ws id owner g now rows).1 after
    → (mark_published ws id other g later after ≡ (false, after))
      × (mark_retry ws id other g backoff error later after ≡ (false, after))
unfolding mark_published mark_retry is_row published_row
published_once ws id owner g now rows after other later backoff error one found reach =
    let start =
      mark-Settled ws id g owner (published_row now) rows (λ d. refl) (λ d. refl) (λ d. refl) one
        found in
    let settled = OutboxReach-Settled ws id g reach start in
    (Settled-mark ws id g other _ after settled, Settled-mark ws id g other _ after settled)
