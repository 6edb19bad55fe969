-- ===== src/Scheduler/Outbox/Reclaimed.antt =====
-- A publisher that is slower than its lease: the recovery of stale leases has taken its delivery back.
use email_outreach_platform.Base.{
  ℕ, ◌+◌, ◌≤◌, ◌≡◌, refl, ◌∙◌, inl, inr, Bool, true, none, some, List, [], ◌∷◌, arith, Bool-cases,
  All, update_where, select_where, first_where,
}
use email_outreach_platform.Scheduler.Store.{Delivery}
use email_outreach_platform.Scheduler.Outbox.{
  is_row, count_of, leased_row, can_lease, lease_delivery,
}
use email_outreach_platform.Scheduler.Outbox.Fencing.{HasHad, Bool-clash}

had_by_no_row :
    (ws id g : ℕ) (p : Delivery → Bool) (f : Delivery → Delivery) (rows : List Delivery)
    → ((d : Delivery) → is_row ws id (f d) ≡ is_row ws id d)
    → count_of ws id rows ≡ 0
    → All (HasHad ws id g) (update_where p f rows)
unfolding count_of select_where update_where
had_by_no_row ws id g p f [] key gone = tt
had_by_no_row ws id g p f (d ∷ rows) key gone = elim (Bool-cases (is_row ws id d)) [
  | inl e ↦ absurd (ground arith)
  | inr e ↦
      let rest = had_by_no_row ws id g p f rows key (rw e at gone) in
      elim (Bool-cases (p d)) [
        | inl h ↦ rw h (λ q. absurd (Bool-clash q (key d ∙ e)), rest)
        | inr h ↦ rw h (λ q. absurd (Bool-clash q e), rest)
      ]
]

none_lease : (g : ℕ) → ¬ (none ≡ some g)
none_lease g e = cc

some_generation : (n g : ℕ) → some (n + 1) ≡ some g → n + 1 ≡ g
some_generation n g e = cc

lease_key : (ws id : ℕ) (d : Delivery) → can_lease ws id d ≡ true → is_row ws id d ≡ true
unfolding can_lease
lease_key ws id d h = ground arith

leased_key :
    (ws id owner expires : ℕ) (d : Delivery)
    → is_row ws id (leased_row owner expires d) ≡ is_row ws id d
unfolding is_row leased_row
leased_key ws id owner expires d = refl

leased_generation_lem :
    (owner expires g : ℕ) (d : Delivery)
    → d.lease_generation + 1 ≡ g
    → g ≤ (leased_row owner expires d).lease_generation
unfolding leased_row
leased_generation_lem owner expires g d e = omega arith

not_leasable :
    (ws id : ℕ) (rows : List Delivery)
    → count_of ws id rows ≡ 0
    → first_where (can_lease ws id) rows ≡ none
unfolding count_of select_where first_where
not_leasable ws id [] gone = refl
not_leasable ws id (d ∷ rows) gone = elim (Bool-cases (is_row ws id d)) [
  | inl e ↦ absurd (ground arith)
  | inr e ↦ elim (Bool-cases (can_lease ws id d)) [
    | inl h ↦ absurd (Bool-clash (lease_key ws id d h) e)
    | inr h ↦ rw h (not_leasable ws id rows (rw e at gone))
  ]
]

pub leased-HasHad :
    (ws id g owner seconds now : ℕ) (rows : List Delivery)
    → count_of ws id rows ≡ 1
    → (lease_delivery ws id owner seconds now rows).0 ≡ some g
    → All (HasHad ws id g) (lease_delivery ws id owner seconds now rows).1
unfolding lease_delivery count_of select_where update_where first_where
leased-HasHad ws id g owner seconds now [] one e = tt
leased-HasHad ws id g owner seconds now (d ∷ rows) one e = elim (Bool-cases (can_lease ws id d)) [
  | inl h ↦
      let k : is_row ws id d ≡ true = lease_key ws id d h in
      let rest : count_of ws id rows ≡ 0 = omega (arith, rw k at one) in
      let same : d.lease_generation + 1 ≡ g = some_generation d.lease_generation g (rw h at e) in
      rw h (
        λ q. leased_generation_lem owner (now + seconds) g d same,
        had_by_no_row ws id g (can_lease ws id) (leased_row owner (now + seconds)) rows
            (λ n. leased_key ws id owner (now + seconds) n) rest,
      )
  | inr h ↦ elim (Bool-cases (is_row ws id d)) [
    | inl k ↦
        let rest : count_of ws id rows ≡ 0 = omega (arith, rw k at one) in
        absurd (none_lease g (rw (h, not_leasable ws id rows rest) at e))
    | inr k ↦ rw h (
      λ q. absurd (Bool-clash q k),
      leased-HasHad ws id g owner seconds now rows (rw k at one) (rw h at e),
    )
  ]
]
