-- ===== src/Sending/Recovery/Held.antt =====
-- What the recovery of stale executions may do to a message.
use email_outreach_platform.Base.{
  ℕ, ◌+◌, ◌≡◌, refl, sym, ap, ◌∙◌, inl, inr, true, ◌&&◌, Option, none, some, List, [], ◌∷◌, arith,
  ◌==◌, Bool-cases, is_some, Option-cases, first_where,
}
use email_outreach_platform.Sending.Context.{MessageStatus, sending, unknown_outcome}
use email_outreach_platform.Sending.Store.{Message, Db, message_row, put_message}
use email_outreach_platform.Sending.Stored.{found_row, stored_row, some_injective}
use email_outreach_platform.Sending.Repository.Writes.{record_audit_event}
use email_outreach_platform.Sending.Recovery.{
  StaleExecution, is_sending, find_stale_executions, is_stale_attempt, abandon_attempt, unknown_row,
  hold_message, audited, held_or, abandoned_or, recover_one, recover_each, recover_stale_executions,
}

-- The message with an unknown outcome: no reason, and a new version.
abbrev held_message : Message → Message
held_message m = record m {
  status = unknown_outcome;
  terminal_reason = none;
  version = m.version + 1;
}

-- The message is as it was, or it was being sent and now waits with an unknown outcome.
pub data KeptOrHeld (m n : Message) : Type 0 where
  kept : n ≡ m → KeptOrHeld m n
  held : m.status ≡ sending → n ≡ held_message m → KeptOrHeld m n

-- Every message of the tables is still there, kept or held.
abbrev pub OnlyHolds : Db → Db → Type 0
OnlyHolds db after =
    (ws mid : ℕ) (m : Message)
    → message_row db ws mid ≡ some m
    → (n : Message) × (message_row after ws mid ≡ some n) × KeptOrHeld m n

sending_lem : (s : MessageStatus) → is_sending s ≡ true → s ≡ sending
unfolding is_sending
sending_lem s h = ground arith

pub not_both : ¬ (unknown_outcome ≡ sending)
not_both e = cc

no_tables : (db : Db) → ¬ (none ≡ some db)
no_tables db e = cc

some_db : (db after : Db) → some db ≡ some after → after ≡ db
some_db db after e = cc

pub KeptOrHeld-then : (m n k : Message) → KeptOrHeld m n → KeptOrHeld n k → KeptOrHeld m k
KeptOrHeld-then m n k (kept e) (kept q) = kept (q ∙ e)
KeptOrHeld-then m n k (kept e) (held s q) =
    held (ap (λ (x : Message). x.status) (sym e) ∙ s) (q ∙ ap held_message e)
KeptOrHeld-then m n k (held s e) (kept q) = held s (q ∙ e)
KeptOrHeld-then m n k (held s e) (held t q) =
    absurd (not_both (sym (ap (λ (x : Message). x.status) e) ∙ t))

OnlyHolds-then : (db mid after : Db) → OnlyHolds db mid → OnlyHolds mid after → OnlyHolds db after
OnlyHolds-then db middle after h k = λ ws mid m row.
    let (n, there, one) = h ws mid m row in
    let (o, then, two) = k ws mid n there in (o, then, KeptOrHeld-then m n o one two)

pub hold_cases :
    (db : Db) (r : StaleExecution) (after : Db)
    → hold_message db r ≡ some after
    → (m : Message) × (message_row db r.workspace_id r.message_id ≡ some m)
      × (m.status ≡ sending)
      × (m.version ≡ r.version)
      × (after ≡ put_message db r.message_id (unknown_row m))
unfolding hold_message
hold_cases db r after h = elim (Option-cases (message_row db r.workspace_id r.message_id)) [
  | inl e ↦ absurd (no_tables after (rw e at h))
  | inr (m, e) ↦ elim (Bool-cases (is_sending m.status && m.version == r.version)) [
    | inr q ↦ absurd (no_tables after (rw (e, q) at h))
    | inl q ↦
        (m, e, sending_lem m.status (ground arith), ground arith, some_db _ after (rw (e, q) at h))
  ]
]

put-OnlyHolds :
    (db : Db) (ws mid : ℕ) (m : Message)
    → message_row db ws mid ≡ some m
    → m.status ≡ sending
    → OnlyHolds db (put_message db mid (unknown_row m))
unfolding message_row put_message unknown_row
put-OnlyHolds db ws mid m row s = λ w k p old. elim (Bool-cases (k == mid)) [
  | inr e ↦ (p, rw e old, kept refl)
  | inl e ↦
      let same_id : k ≡ mid = ground arith in
      let (stored, of_w) = found_row _ w p old in
      let same : p ≡ m =
        some_injective p m (sym stored ∙ ap db.messages same_id ∙ (found_row _ ws m row).0) in
      (
        unknown_row m,
        rw e (stored_row _ w (unknown_row m) refl (rw same at of_w)),
        held (rw same s) (ap held_message (sym same)),
      )
]

-- The second write and the audit event, after the attempt's.
held_or-OnlyHolds :
    (r : StaleExecution) (db middle : Db)
    → OnlyHolds db middle
    → OnlyHolds db (held_or r middle (hold_message middle r)).1
unfolding held_or audited record_audit_event message_row
held_or-OnlyHolds r db middle h = elim (Option-cases (hold_message middle r)) [
  | inl e ↦ rw e h
  | inr (after, e) ↦
      let (m, row, s, v, same) = hold_cases middle r after e in
      let put = put-OnlyHolds middle r.workspace_id r.message_id m row s in
      rw (e, same)
        (OnlyHolds-then db middle (put_message middle r.message_id (unknown_row m)) h put)
]

recover_one-OnlyHolds : (r : StaleExecution) (db : Db) → OnlyHolds db (recover_one r db).1
unfolding recover_one abandon_attempt hold_message put_message message_row abandoned_or
recover_one-OnlyHolds r db =
    elim (Bool-cases (is_some (first_where (is_stale_attempt r) db.attempts))) [
      | inr e ↦ rw e (λ ws mid m row. (m, row, kept refl))
      | inl e ↦ rw e (held_or-OnlyHolds r db _ (λ ws mid m row. (m, row, kept refl)))
    ]

pub recover_each-OnlyHolds :
    (rows : List StaleExecution) (db : Db) → OnlyHolds db (recover_each rows db).1
unfolding recover_each
recover_each-OnlyHolds [] db = λ ws mid m row. (m, row, kept refl)
recover_each-OnlyHolds (r ∷ rows) db =
    OnlyHolds-then db (recover_one r db).1 _ (recover_one-OnlyHolds r db)
      (recover_each-OnlyHolds rows (recover_one r db).1)

-- The recovery of stale executions leaves every message as it is, or holds it: a message that was
-- being sent gets an unknown outcome and no terminal reason, with its version raised and nothing else
-- of it changed. It never makes
-- a message due again, nor failed, whatever has happened to it since it was found.
pub recover-OnlyHolds :
    (seen db : Db) (now : ℕ) (scope : Option ℕ) (limit ws mid : ℕ) (m : Message)
    → message_row db ws mid ≡ some m
    → (n : Message) × (message_row (recover_stale_executions seen db now scope limit).1 ws mid
        ≡ some n)
      × KeptOrHeld m n
unfolding recover_stale_executions
recover-OnlyHolds seen db now scope limit =
    recover_each-OnlyHolds (find_stale_executions seen now scope limit) db
