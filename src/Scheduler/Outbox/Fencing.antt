-- ===== src/Scheduler/Outbox/Fencing.antt =====
-- The fencing of leases: a publisher that has lost its lease changes nothing.
use email_outreach_platform.Base.{
  ℕ, suc, ◌≤◌, ◌<◌, ◌≡◌, refl, sym, ap, ◌∙◌, ◌⊎◌, inl, inr, Bool, true, false, ◌&&◌, none, List, [],
  ◌∷◌, arith, ◌==◌, Bool-cases, All, update_where, select_where,
}
use email_outreach_platform.Scheduler.Store.{Delivery}
use email_outreach_platform.Scheduler.Claim.{NewIds, new_delivery, supersede}
use email_outreach_platform.Scheduler.Outbox.{
  is_row, count_of, leased_row, lease_delivery, published_row, retry_row, mark_published,
  mark_retry, reclaimed_row, can_reclaim, reclaim_each,
}
use email_outreach_platform.Scheduler.Outbox.Steps.{
  OutboxStep, lease, publish, fail, reclaim, withdraw, insert, OutboxReach, stay, step,
  insert_cases, OutboxStep-All,
}

-- No row of this primary key is under lease `g` any more, and none can be again.
abbrev pub Fence : ℕ → ℕ → ℕ → Delivery → Type 0
Fence ws id g d =
    is_row ws id d ≡ true
    → (g < d.lease_generation) ⊎ ((d.lease_generation ≡ g) × (d.lease_owner ≡ none))

-- The row of the primary key has had lease `g`.
abbrev pub HasHad : ℕ → ℕ → ℕ → Delivery → Type 0
HasHad ws id g d = is_row ws id d ≡ true → g ≤ d.lease_generation

pub count_put :
    (ws id : ℕ) (p : Delivery → Bool) (f : Delivery → Delivery) (rows : List Delivery)
    → ((d : Delivery) → is_row ws id (f d) ≡ is_row ws id d)
    → count_of ws id (update_where p f rows) ≡ count_of ws id rows
unfolding count_of update_where select_where
count_put ws id p f [] same = refl
count_put ws id p f (d ∷ rows) same =
    let rest = count_put ws id p f rows same in
    elim (Bool-cases (p d)) [
      | inl e ↦ elim (Bool-cases (is_row ws id d)) [
        | inl q ↦ rw (e, same d, q) (ap suc rest)
        | inr q ↦ rw (e, same d, q) rest
      ]
      | inr e ↦ elim (Bool-cases (is_row ws id d)) [
        | inl q ↦ rw (e, q) (ap suc rest)
        | inr q ↦ rw (e, q) rest
      ]
    ]

leased-Fence :
    (ws id g owner expires : ℕ) (d : Delivery)
    → Fence ws id g d
    → Fence ws id g (leased_row owner expires d)
unfolding leased_row is_row
leased-Fence ws id g owner expires d h =
    λ e. inl (elim (h e) [ inl lt ↦ omega arith | inr (eq, free) ↦ omega arith ])

pub new-Fence :
    (ws id v : ℕ) (ids : NewIds) (now : ℕ) (rows : List Delivery)
    → count_of ws id rows ≡ 1
    → count_of v ids.delivery_id rows ≡ 0
    → is_row ws id (new_delivery v ids now) ≡ false
unfolding is_row new_delivery
new-Fence ws id v ids now rows one free = elim (Bool-cases (v == ws && ids.delivery_id == id)) [
  | inr e ↦ e
  | inl e ↦
      let same_ws : v ≡ ws = ground arith in
      let same_id : ids.delivery_id ≡ id = ground arith in
      absurd (omega (arith, one, rw (same_ws, same_id) at free))
]

pub Bool-clash : {b : Bool} → b ≡ true → ¬ (b ≡ false)
Bool-clash h q = absurd (cc)

count_cons :
    (ws id : ℕ) (d : Delivery) (rows : List Delivery)
    → is_row ws id d ≡ false
    → count_of ws id rows ≡ 1
    → count_of ws id (d ∷ rows) ≡ 1
unfolding count_of select_where
count_cons ws id d rows other one = rw other one

reclaim_each-count :
    (ws id now : ℕ) (stale rows : List Delivery)
    → count_of ws id (reclaim_each now stale rows).1 ≡ count_of ws id rows
unfolding reclaim_each is_row
reclaim_each-count ws id now [] rows = refl
reclaim_each-count ws id now (s ∷ stale) rows =
    reclaim_each-count ws id now stale _
    ∙ count_put ws id (can_reclaim s.workspace_id s.id) (reclaimed_row now) rows (λ d. refl)

-- A primary key keeps its one row.
pub OutboxStep-count :
    (ws id : ℕ) {rows after : List Delivery}
    → OutboxStep rows after
    → count_of ws id rows ≡ 1
    → count_of ws id after ≡ 1
unfolding lease_delivery mark_published mark_retry supersede is_row
OutboxStep-count ws id (lease rows w i owner seconds now) one =
    count_put ws id _ _ rows (λ d. refl) ∙ one
OutboxStep-count ws id (publish rows w i owner generation now) one =
    count_put ws id _ _ rows (λ d. refl) ∙ one
OutboxStep-count ws id (fail rows w i owner generation backoff error now) one =
    count_put ws id _ _ rows (λ d. refl) ∙ one
OutboxStep-count ws id (reclaim rows stale now) one = reclaim_each-count ws id now stale rows ∙ one
OutboxStep-count ws id (withdraw rows w key works) one = count_put ws id _ _ rows (λ d. refl) ∙ one
OutboxStep-count ws id (insert rows after w ids now works free e) one =
    elim (insert_cases (new_delivery w ids now) works rows after e) [
      | inl q ↦ rw q one
      | inr q ↦ rw q (
          count_cons ws id (new_delivery w ids now) rows (new-Fence ws id w ids now rows one free)
            one)
    ]

-- The row of a primary key whose lease `g` is over.
pub record Settled (ws id g : ℕ) (rows : List Delivery) : Type 0 where
  pub one : count_of ws id rows ≡ 1
  pub fenced : All (Fence ws id g) rows

freed-Fence :
    (ws id g : ℕ) (d n : Delivery)
    → is_row ws id n ≡ is_row ws id d
    → n.lease_generation ≡ d.lease_generation
    → n.lease_owner ≡ none
    → Fence ws id g d
    → Fence ws id g n
freed-Fence ws id g d n key same free h =
    λ e. elim (h (sym key ∙ e)) [ inl lt ↦ inl (rw same lt) | inr (eq, _) ↦ inr (same ∙ eq, free) ]

pub OutboxReach-Settled :
    (ws id g : ℕ) {rows after : List Delivery}
    → OutboxReach rows after
    → Settled ws id g rows
    → Settled ws id g after
unfolding is_row published_row retry_row reclaimed_row
OutboxReach-Settled ws id g (stay rows) h = h
OutboxReach-Settled ws id g (step t u v s r) h = OutboxReach-Settled ws id g r (record {
  one = OutboxStep-count ws id s h.one;
  fenced =
      OutboxStep-All (Fence ws id g) (leased-Fence ws id g)
        (λ now d. freed-Fence ws id g d (published_row now d) refl refl refl)
        (λ due error d. freed-Fence ws id g d (retry_row due error d) refl refl refl)
        (λ now d. freed-Fence ws id g d (reclaimed_row now d) refl refl refl) (λ d q f. f) s
        (λ w ids now free e. absurd (Bool-clash e (new-Fence ws id w ids now t h.one free)))
        h.fenced;
})
