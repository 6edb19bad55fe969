-- ===== src/Scheduler/Outbox/Overdue.antt =====
-- A publisher whose lease has been taken back, and what it may still write.
use email_outreach_platform.Base.{
  ℕ, ◌+◌, ◌≤◌, ◌<◌, ◌≡◌, refl, sym, ◌∙◌, inl, inr, Bool, true, false, some, List, [], ◌∷◌, arith,
  Bool-cases, length, is_some, All, Text, update_where, select_where, first_where,
}
use email_outreach_platform.Scheduler.Store.{Delivery}
use email_outreach_platform.Scheduler.Outbox.{
  is_row, count_of, leased_row, can_lease, lease_delivery, published_row, retry_row, mark_published,
  mark_retry, reclaimed_row, can_reclaim, reclaim_each,
}
use email_outreach_platform.Scheduler.Outbox.Steps.{OutboxReach, stay, step, OutboxStep-All}
use email_outreach_platform.Scheduler.Outbox.Fencing.{
  HasHad, count_put, new-Fence, Bool-clash, OutboxStep-count, Settled, OutboxReach-Settled,
}
use email_outreach_platform.Scheduler.Outbox.Marks.{settles, Settled-mark}
use email_outreach_platform.Scheduler.Outbox.Reclaimed.{leased-HasHad}

-- The row of the primary key has had lease `g`.
record Known (ws id g : ℕ) (rows : List Delivery) : Type 0 where
  one : count_of ws id rows ≡ 1
  had : All (HasHad ws id g) rows

grown-HasHad :
    (ws id g : ℕ) (d n : Delivery)
    → is_row ws id n ≡ is_row ws id d
    → d.lease_generation ≤ n.lease_generation
    → HasHad ws id g d
    → HasHad ws id g n
grown-HasHad ws id g d n key le h = λ e. omega (arith, h (sym key ∙ e), le)

OutboxReach-Known :
    (ws id g : ℕ) {rows after : List Delivery}
    → OutboxReach rows after
    → Known ws id g rows
    → Known ws id g after
unfolding is_row leased_row published_row retry_row reclaimed_row
OutboxReach-Known ws id g (stay rows) h = h
OutboxReach-Known ws id g (step t u v s r) h = OutboxReach-Known ws id g r (record {
  one = OutboxStep-count ws id s h.one;
  had =
      OutboxStep-All (HasHad ws id g)
        (λ o e d. grown-HasHad ws id g d (leased_row o e d) refl (omega arith))
        (λ now d. grown-HasHad ws id g d (published_row now d) refl (omega arith))
        (λ due e d. grown-HasHad ws id g d (retry_row due e d) refl (omega arith))
        (λ now d. grown-HasHad ws id g d (reclaimed_row now d) refl (omega arith)) (λ d q f. f) s
        (λ w ids now free e. absurd (Bool-clash e (new-Fence ws id w ids now t h.one free))) h.had;
})

found_of_count :
    (p : Delivery → Bool) (rows : List Delivery)
    → 0 < length (select_where p rows)
    → is_some (first_where p rows) ≡ true
unfolding select_where first_where
found_of_count p [] lt = absurd (omega (arith, lt))
found_of_count p (d ∷ rows) lt = elim (Bool-cases (p d)) [
  | inl e ↦ rw e refl
  | inr e ↦ rw e (found_of_count p rows (rw e at lt))
]

reclaim_key : (ws id : ℕ) (d : Delivery) → can_reclaim ws id d ≡ true → is_row ws id d ≡ true
unfolding can_reclaim
reclaim_key ws id d h = ground arith

behind_of :
    (ws id g : ℕ) (rows : List Delivery)
    → All (HasHad ws id g) rows
    → All (λ d. can_reclaim ws id d ≡ true → g ≤ d.lease_generation) rows
behind_of ws id g [] h = tt
behind_of ws id g (d ∷ rows) h = (λ e. h.0 (reclaim_key ws id d e), behind_of ws id g rows h.1)

reclaimed-Settled :
    (ws id g now : ℕ) (rows : List Delivery)
    → Known ws id g rows
    → is_some (first_where (can_reclaim ws id) rows) ≡ true
    → Settled ws id g (update_where (can_reclaim ws id) (reclaimed_row now) rows)
unfolding is_row reclaimed_row
reclaimed-Settled ws id g now rows h found = record {
  one = count_put ws id (can_reclaim ws id) (reclaimed_row now) rows (λ d. refl) ∙ h.one;
  fenced =
      settles ws id g (can_reclaim ws id) (reclaimed_row now) (reclaim_key ws id) (λ d. refl)
        (λ d. refl) rows h.one (behind_of ws id g rows h.had) found;
}

-- A publisher whose lease is taken back is fenced off. When a delivery is leased with generation `g`,
-- and some time later the recovery of stale leases reclaims it, then at any time after that, whoever
-- has leased it since, `mark_published` and `mark_retry` under `g` find no row and change nothing.
pub reclaimed_is_fenced :
    (ws id owner g seconds now : ℕ) (rows later freed after : List Delivery) (stale : Delivery)
    (other clock due backoff : ℕ) (error : Text)
    → count_of ws id rows ≡ 1
    → (lease_delivery ws id owner seconds now rows).0 ≡ some g
    → OutboxReach (lease_delivery ws id owner seconds now rows).1 later
    → (stale.workspace_id ≡ ws) × (stale.id ≡ id)
    → 0 < (reclaim_each clock (stale ∷ []) later).0
    → freed ≡ (reclaim_each clock (stale ∷ []) later).1
    → OutboxReach freed after
    → (mark_published ws id other g due after ≡ (false, after))
      × (mark_retry ws id other g backoff error due after ≡ (false, after))
unfolding mark_published mark_retry reclaim_each lease_delivery is_row leased_row
reclaimed_is_fenced ws id owner g seconds now rows later freed after stale other clock due backoff
      error one got reach key found eq next =
    let had = leased-HasHad ws id g owner seconds now rows one got in
    let one_after =
      count_put ws id (can_lease ws id) (leased_row owner (now + seconds)) rows (λ d. refl) ∙ one in
    let known = OutboxReach-Known ws id g reach (record { one = one_after; had = had }) in
    let reclaimed : Settled ws id g freed =
      rw (eq, key.0, key.1)
        (reclaimed-Settled ws id g clock later known
          (found_of_count (can_reclaim ws id) later (omega (arith, rw (key.0, key.1) at found)))) in
    let settled = OutboxReach-Settled ws id g next reclaimed in
    (Settled-mark ws id g other _ after settled, Settled-mark ws id g other _ after settled)
