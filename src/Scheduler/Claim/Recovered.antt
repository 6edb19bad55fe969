-- ===== src/Scheduler/Claim/Recovered.antt =====
-- When the recovery of an expired claim writes, and what.
use email_outreach_platform.Scheduler.Claim.Freed.{freed_message, Each, IsSuperseded, supersede_lem}
use email_outreach_platform.Sending.Stored.{==-refl}
use email_outreach_platform.Base.{
  ℕ, ◌≡◌, refl, ◌↔◌, ◌⊎◌, inl, inr, Bool, true, false, not, ◌&&◌, List, [], ◌∷◌, All, none, some,
  arith, ◌==◌, Bool-cases, Option-cases,
}
use email_outreach_platform.Sending.Context.{MessageStatus, queued}
use email_outreach_platform.Sending.Store.{Message, Attempt, message_row, put_message}
use email_outreach_platform.Sending.Repository.Writes.{has_attempt_of, is_queued}
use email_outreach_platform.Scheduler.Store.{email_send, Tables}
use email_outreach_platform.Scheduler.Claim.{
  recovered_row, supersede, recover_found, recover_expired_claim,
}

abbrev pub after_recovery : Tables → ℕ → ℕ → ℕ → Message → Tables
after_recovery t ws mid generation m = record t {
  db = put_message t.db mid (freed_message m);
  deliveries = supersede ws (email_send mid generation) t.works t.deliveries;
}

-- No attempt of the message at this generation is committed.
abbrev pub NoAttempt : ℕ → ℕ → ℕ → List Attempt → Type 0
NoAttempt ws mid generation = All (λ (a : Attempt).
    ¬ ((a.workspace_id ≡ ws) × (a.message_id ≡ mid) × (a.dispatch_generation ≡ generation)))

no_attempt_lem :
    (rows : List Attempt) (ws mid generation : ℕ)
    → (has_attempt_of rows ws mid generation ≡ false) ↔ NoAttempt ws mid generation rows
unfolding has_attempt_of
no_attempt_lem [] ws mid generation = (λ h. tt, λ h. refl)
no_attempt_lem (a ∷ rows) ws mid generation =
    let rest = no_attempt_lem rows ws mid generation in
    let this = a.workspace_id == ws && a.message_id == mid && a.dispatch_generation == generation in
    (
      λ h. (λ (w, n, g). ground arith, rest.0 (ground arith)),
      λ (apart, others).
          let none_later = rest.1 others in
          elim (Bool-cases this) [
            | inl e ↦ absurd (apart (ground arith, ground arith, ground arith))
            | inr e ↦ ground arith
          ],
    )

-- A queued message of this generation without an attempt of it, whose row no one holds.
pub record Recoverable (t : Tables) (ws mid generation : ℕ) (is_locked : Bool) (m : Message)
    : Type 0 where
  pub stored : message_row t.db ws mid ≡ some m
  pub is_waiting : m.status ≡ queued
  pub same_generation : m.dispatch_generation ≡ generation
  pub is_free : is_locked ≡ false
  pub no_attempt : NoAttempt ws mid generation t.db.attempts

queued_lem : (s : MessageStatus) → is_queued s ≡ true → s ≡ queued
unfolding is_queued
queued_lem s h = ground arith

some_tables : (t u : Tables) → some t ≡ some u → u ≡ t
some_tables t u e = cc

not_none : (u : Tables) → ¬ (none ≡ some u)
not_none u e = cc

recover_guards :
    (t : Tables) (ws mid generation : ℕ) (is_locked : Bool) (m : Message)
    → message_row t.db ws mid ≡ some m
    → (is_queued m.status
        && m.dispatch_generation == generation
        && not is_locked
        && not (has_attempt_of t.db.attempts ws mid generation))
      ≡ true
    → Recoverable t ws mid generation is_locked m
recover_guards t ws mid generation is_locked m row h = record {
  stored = row;
  is_waiting = queued_lem m.status (ground arith);
  same_generation = ground arith;
  is_free = ground arith;
  no_attempt = (no_attempt_lem t.db.attempts ws mid generation).0 (ground arith);
}

-- A recovery that writes: the row it found, and the tables after.
pub recover_cases :
    (t u : Tables) (ws mid generation : ℕ) (is_locked : Bool)
    → recover_expired_claim t ws mid generation is_locked ≡ some u
    → (m : Message) × Recoverable t ws mid generation is_locked m
      × (u ≡ after_recovery t ws mid generation m)
unfolding recover_expired_claim recover_found recovered_row
recover_cases t u ws mid generation is_locked h = elim (Option-cases (message_row t.db ws mid)) [
  | inl e ↦ absurd (not_none u (rw e at h))
  | inr (m, e) ↦
      elim (Bool-cases (
        is_queued m.status
        && m.dispatch_generation == generation
        && not is_locked
        && not (has_attempt_of t.db.attempts ws mid generation))) [
          | inr q ↦ absurd (not_none u (rw (e, q) at h))
          | inl q ↦
              let r = recover_guards t ws mid generation is_locked m e q in
              (m, r, some_tables _ u (rw (e, q) at h))
        ]
]

pub recover_open :
    (t : Tables) (ws mid generation : ℕ) (is_locked : Bool) (m : Message)
    → Recoverable t ws mid generation is_locked m
    → recover_expired_claim t ws mid generation is_locked
      ≡ some (after_recovery t ws mid generation m)
unfolding recover_expired_claim recover_found is_queued recovered_row
recover_open t ws mid generation is_locked m r =
    let no_attempt = (no_attempt_lem t.db.attempts ws mid generation).1 r.no_attempt in
    rw (r.stored, r.is_waiting, r.same_generation, r.is_free, no_attempt, ==-refl generation) refl

-- The tables after a recovery: the message is back in the state it was claimed from, and the open
-- deliveries of the claim's work are superseded.
pub record Freed (t u : Tables) (ws mid generation : ℕ) : Type 0 where
  pub message : Message
  pub stored : message_row t.db ws mid ≡ some message
  pub freed : u.db ≡ put_message t.db mid (freed_message message)
  pub same_works : u.works ≡ t.works
  pub withdrawn : Each (IsSuperseded ws mid generation t.works) t.deliveries u.deliveries

after_recovery-Freed :
    (t u : Tables) (ws mid generation : ℕ) (m : Message)
    → message_row t.db ws mid ≡ some m
    → u ≡ after_recovery t ws mid generation m
    → Freed t u ws mid generation
after_recovery-Freed t u ws mid generation m row e = rw e (record {
  message = m;
  stored = row;
  freed = refl;
  same_works = refl;
  withdrawn = supersede_lem ws mid generation t.works t.deliveries;
})

-- A claim is recovered exactly when its message is still queued under this generation, no other
-- transaction holds its row, and no attempt of the generation was committed. Then the message is back
-- in the state it was claimed from (scheduled, where none is kept) without a claim and with a new
-- version, the open deliveries of the claim's work are superseded, and nothing else of the messages,
-- works and deliveries changes; otherwise nothing is written.
pub recover_iff :
    (t : Tables) (ws mid generation : ℕ) (is_locked : Bool)
    → (((u : Tables) × (recover_expired_claim t ws mid generation is_locked ≡ some u))
        ↔ ((m : Message) × Recoverable t ws mid generation is_locked m))
      × ((recover_expired_claim t ws mid generation is_locked ≡ none)
          ⊎ ((u : Tables) × (recover_expired_claim t ws mid generation is_locked ≡ some u)
              × Freed t u ws mid generation))
recover_iff t ws mid generation is_locked = (
  (
    λ (u, h). let (m, r, _) = recover_cases t u ws mid generation is_locked h in (m, r),
    λ (m, r).
        (after_recovery t ws mid generation m, recover_open t ws mid generation is_locked m r),
  ),
  elim (Option-cases (recover_expired_claim t ws mid generation is_locked)) [
    | inl e ↦ inl e
    | inr (u, e) ↦
        let (m, r, same) = recover_cases t u ws mid generation is_locked e in
        inr (u, e, after_recovery-Freed t u ws mid generation m r.stored same)
  ],
)
