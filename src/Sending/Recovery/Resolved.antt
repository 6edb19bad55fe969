-- ===== src/Sending/Recovery/Resolved.antt =====
-- That the recovery of stale executions does not leave out the messages it is for.
use email_outreach_platform.Base.{
  ℕ, ◌≡◌, refl, sym, ap, ◌∙◌, inl, inr, Bool, true, false, Option, some, List, [], ◌∷◌, ◌++◌, arith,
  ◌==◌, if◌then◌else◌, Bool-cases, is_some, All, Option-cases, update_where, first_where,
}
use email_outreach_platform.Sending.Context.{sending, unknown_outcome}
use email_outreach_platform.Sending.Store.{Message, Attempt, Db, message_row, put_message}
use email_outreach_platform.Sending.Stored.{==-refl, put_read}
use email_outreach_platform.Sending.Repository.Writes.{record_audit_event}
use email_outreach_platform.Sending.Recovery.{
  StaleExecution, is_sending, find_stale_executions, is_stale_attempt, unknown_attempt,
  abandon_attempt, unknown_row, hold_message, audited, held_or, abandoned_or, recover_one,
  recover_each, recover_stale_executions,
}
use email_outreach_platform.Sending.Recovery.Held.{
  kept, held, OnlyHolds, not_both, hold_cases, recover_each-OnlyHolds,
}

-- The message waits with an unknown outcome.
pub record IsHeld (ws mid : ℕ) (db : Db) : Type 0 where
  pub message : Message
  pub stored : message_row db ws mid ≡ some message
  pub is_unknown : message.status ≡ unknown_outcome

-- A row as it was found: the attempt is still prepared and the message still being sent.
pub record StillStale (r : StaleExecution) (db : Db) : Type 0 where
  pub message : Message
  pub stored : message_row db r.workspace_id r.message_id ≡ some message
  pub is_live : message.status ≡ sending
  pub same_version : message.version ≡ r.version
  pub has_attempt : is_some (first_where (is_stale_attempt r) db.attempts) ≡ true

-- Two rows of different messages and different attempts.
abbrev pub Apart : StaleExecution → StaleExecution → Type 0
Apart r s = (¬ (r.message_id ≡ s.message_id)) × (¬ (r.attempt_id ≡ s.attempt_id))

-- The tables after the two writes of a row and its audit event.
abbrev after_hold : StaleExecution → Message → Db → Db
after_hold r m db = audited r (
    put_message
      (record db { attempts = update_where (is_stale_attempt r) unknown_attempt db.attempts })
      r.message_id (unknown_row m))

recover_one_lem :
    (r : StaleExecution) (db : Db) (h : StillStale r db)
    → recover_one r db ≡ (1, after_hold r h.message db)
unfolding recover_one abandoned_or abandon_attempt hold_message held_or is_sending message_row
recover_one_lem r db h =
    rw (h.has_attempt, h.stored, h.is_live, h.same_version, ==-refl r.version) refl

after_hold-IsHeld :
    (r : StaleExecution) (db : Db) (h : StillStale r db)
    → IsHeld r.workspace_id r.message_id (after_hold r h.message db)
unfolding audited record_audit_event message_row unknown_row put_message
after_hold-IsHeld r db h = record {
  message = unknown_row h.message;
  stored = put_read db r.workspace_id r.message_id h.message (unknown_row h.message) h.stored refl;
  is_unknown = refl;
}

OnlyHolds-IsHeld :
    (ws mid : ℕ) (db after : Db) → OnlyHolds db after → IsHeld ws mid db → IsHeld ws mid after
OnlyHolds-IsHeld ws mid db after only h =
    let (n, there, change) = only ws mid h.message h.stored in
    elim change [
      | kept e ↦ record {
        message = n;
        stored = there;
        is_unknown = ap (λ (m : Message). m.status) e ∙ h.is_unknown;
      }
      | held s e ↦ absurd (not_both (sym h.is_unknown ∙ s))
    ]

found_in_rest :
    (p : Attempt → Bool) (a : Attempt) (rows : List Attempt)
    → is_some (first_where p rows) ≡ true
    → is_some (first_where p (a ∷ rows)) ≡ true
unfolding first_where
found_in_rest p a rows h = elim (Bool-cases (p a)) [ inl e ↦ rw e refl | inr e ↦ rw e h ]

still_found :
    (p q : Attempt → Bool) (f : Attempt → Attempt) (rows : List Attempt)
    → ((a : Attempt) → p a ≡ true → q a ≡ false)
    → is_some (first_where p rows) ≡ true
    → is_some (first_where p (update_where q f rows)) ≡ true
unfolding first_where update_where
still_found p q f [] differ found = found
still_found p q f (a ∷ rows) differ found = elim (Bool-cases (p a)) [
  | inl e ↦ rw (differ a e, e) refl
  | inr e ↦
      let rest = still_found p q f rows differ (rw e at found) in
      found_in_rest p (if q a then f a else a) (update_where q f rows) rest
]

other_attempt :
    (r s : StaleExecution) (a : Attempt)
    → Apart r s
    → is_stale_attempt r a ≡ true
    → is_stale_attempt s a ≡ false
unfolding is_stale_attempt
other_attempt r s a apart h =
    let mine : a.id ≡ r.attempt_id = ground arith in
    elim (Bool-cases (a.id == s.attempt_id)) [
      | inl e ↦ absurd (apart.1 (sym mine ∙ ground arith))
      | inr e ↦ ground arith
    ]

row_elsewhere :
    (db : Db) (ws mid k : ℕ) (m n : Message)
    → ¬ (mid ≡ k)
    → message_row db ws mid ≡ some m
    → message_row (put_message db k n) ws mid ≡ some m
unfolding message_row put_message
row_elsewhere db ws mid k m n differ row = elim (Bool-cases (mid == k)) [
  | inl e ↦ absurd (differ (ground arith))
  | inr e ↦ rw e row
]

held_or-StillStale :
    (r s : StaleExecution) (middle : Db)
    → Apart r s
    → StillStale r middle
    → StillStale r (held_or s middle (hold_message middle s)).1
unfolding held_or audited record_audit_event message_row put_message
held_or-StillStale r s middle apart h = elim (Option-cases (hold_message middle s)) [
  | inl e ↦ rw e h
  | inr (after, e) ↦
      let (m, row, live, v, same) = hold_cases middle s after e in
      rw (e, same)
        (record {
          message = h.message;
          stored =
              row_elsewhere middle r.workspace_id r.message_id s.message_id h.message
                (unknown_row m) apart.0 h.stored;
          is_live = h.is_live;
          same_version = h.same_version;
          has_attempt = h.has_attempt;
        })
]

abbrev attempts_after : StaleExecution → Db → Db
attempts_after s db = record db {
  attempts = update_where (is_stale_attempt s) unknown_attempt db.attempts;
}

-- An earlier row of another message leaves this one as it was found.
recover_one-StillStale :
    (r s : StaleExecution) (db : Db)
    → Apart r s
    → StillStale r db
    → StillStale r (recover_one s db).1
unfolding recover_one abandoned_or abandon_attempt message_row
recover_one-StillStale r s db apart h =
    elim (Bool-cases (is_some (first_where (is_stale_attempt s) db.attempts))) [
      | inr e ↦ rw e h
      | inl e ↦ rw e (
          held_or-StillStale r s (attempts_after s db) apart (record {
            message = h.message;
            stored = h.stored;
            is_live = h.is_live;
            same_version = h.same_version;
            has_attempt =
                still_found (is_stale_attempt r) (is_stale_attempt s) unknown_attempt db.attempts
                  (λ a. other_attempt r s a apart) h.has_attempt;
          }))
    ]

recover_head :
    (r : StaleExecution) (rest : List StaleExecution) (db : Db)
    → StillStale r db
    → IsHeld r.workspace_id r.message_id (recover_each (r ∷ rest) db).1
unfolding recover_each
recover_head r rest db h =
    let held_now : IsHeld r.workspace_id r.message_id (recover_one r db).1 =
      rw (recover_one_lem r db h) (after_hold-IsHeld r db h) in
    OnlyHolds-IsHeld r.workspace_id r.message_id (recover_one r db).1 _
      (recover_each-OnlyHolds rest (recover_one r db).1) held_now

recover_each-IsHeld :
    (before : List StaleExecution) (r : StaleExecution) (rest : List StaleExecution) (db : Db)
    → All (Apart r) before
    → StillStale r db
    → IsHeld r.workspace_id r.message_id (recover_each (before ++ (r ∷ rest)) db).1
unfolding recover_each
recover_each-IsHeld [] r rest db apart h = recover_head r rest db h
recover_each-IsHeld (s ∷ before) r rest db apart h =
    recover_each-IsHeld before r rest (recover_one s db).1 apart.1
      (recover_one-StillStale r s db apart.0 h)

-- A send that a crashed worker has left behind is held. When the recovery finds the row of an attempt,
-- none of the rows before it is of the same message or attempt, and at the writes the attempt is
-- still prepared and the message still being sent at the version that was read, then the message has
-- an unknown outcome afterwards.
pub stale-IsHeld :
    (seen db : Db) (now : ℕ) (scope : Option ℕ) (limit : ℕ) (before rest : List StaleExecution)
    (r : StaleExecution)
    → find_stale_executions seen now scope limit ≡ before ++ (r ∷ rest)
    → All (Apart r) before
    → StillStale r db
    → IsHeld r.workspace_id r.message_id (recover_stale_executions seen db now scope limit).1
unfolding recover_stale_executions
stale-IsHeld seen db now scope limit before rest r found apart h =
    rw found (recover_each-IsHeld before r rest db apart h)
