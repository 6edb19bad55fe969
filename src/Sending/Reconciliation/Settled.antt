-- ===== src/Sending/Reconciliation/Settled.antt =====
-- What the reconciliation may do to a message.
use email_outreach_platform.Base.{
  ℕ, ◌+◌, ◌≡◌, refl, sym, ap, ◌∙◌, inl, inr, true, ◌&&◌, Option, none, some, List, [], ◌∷◌, arith,
  ◌==◌, Bool-cases, get_or, Option-cases, Text, is_present,
}
use email_outreach_platform.Sending.Context.{MessageStatus, unknown_outcome, sent, Provider}
use email_outreach_platform.Sending.Store.{Message, Connection, Db, message_row, put_message}
use email_outreach_platform.Sending.Stored.{found_row, stored_row, some_injective}
use email_outreach_platform.Sending.Repository.Writes.{coalesce, record_audit_event}
use email_outreach_platform.Sending.Environment.{Credential}
use email_outreach_platform.Sending.Reconciliation.{
  Acceptance, Lookup, was_accepted, inconclusive, raised, Lookups, UnknownMessage,
  is_unknown_outcome, find_unknown_messages, audit_row, accept_attempts, settled_row,
  settle_message, reconcile_accepted, after_lookup, look_up_with, look_up_through, with_rfc_id,
  reconcile_one, reconcile_each, reconcile_unknown_messages,
}

-- The provider's id, and the one that was known where the provider gives none.
abbrev known_id : Option Text → Option Text → Option Text
known_id none old = old
known_id (some id) old = some id

-- The message as sent, at this time, with the provider's id where the acceptance has one.
abbrev sent_message : Acceptance → ℕ → Message → Message
sent_message a at m = record m {
  status = sent;
  accepted_at = some at;
  provider_message_id = known_id a.provider_message_id m.provider_message_id;
  version = m.version + 1;
}

known_id_lem : (new old : Option Text) → coalesce new old ≡ known_id new old
unfolding coalesce
known_id_lem none old = refl
known_id_lem (some id) old = refl

settled_row_lem : (a : Acceptance) (at : ℕ) (m : Message) → settled_row a at m ≡ sent_message a at m
unfolding settled_row
settled_row_lem a at m = rw (known_id_lem a.provider_message_id m.provider_message_id) refl

module _ (env : Lookups) where
  -- The adapter has reported an acceptance.
  pub record Reported (a : Acceptance) : Type 0 where
    pub provider : Provider
    pub credential : Credential
    pub rfc_message_id : Text
    pub reply : env.lookup_message provider credential rfc_message_id ≡ was_accepted a

  -- The message is as it was, or its outcome was unknown and the provider has reported it accepted.
  pub data KeptOrSettled (m n : Message) : Type 0 where
    kept : n ≡ m → KeptOrSettled m n
    settled :
        (a : Acceptance)
        → Reported a
        → m.status ≡ unknown_outcome
        → n ≡ sent_message a (get_or env.now a.accepted_at) m
        → KeptOrSettled m n

  abbrev pub OnlySettles : Db → Db → Type 0
  OnlySettles db after =
      (ws mid : ℕ) (m : Message)
      → message_row db ws mid ≡ some m
      → (n : Message) × (message_row after ws mid ≡ some n) × KeptOrSettled m n

  not_both_states : ¬ (sent ≡ unknown_outcome)
  not_both_states e = cc

  KeptOrSettled-then : (m n k : Message) → KeptOrSettled m n → KeptOrSettled n k → KeptOrSettled m k
  KeptOrSettled-then m n k (kept e) (kept q) = kept (q ∙ e)
  KeptOrSettled-then m n k (kept e) (settled a r s q) =
      settled a r (ap (λ (x : Message). x.status) (sym e) ∙ s) (q ∙ ap (sent_message a _) e)
  KeptOrSettled-then m n k (settled a r s e) (kept q) = settled a r s (q ∙ e)
  KeptOrSettled-then m n k (settled a r s e) (settled b p t q) =
      absurd (not_both_states (sym (ap (λ (x : Message). x.status) e) ∙ t))

  OnlySettles-then :
      (db middle after : Db)
      → OnlySettles db middle
      → OnlySettles middle after
      → OnlySettles db after
  OnlySettles-then db middle after h k = λ ws mid m row.
      let (n, there, one) = h ws mid m row in
      let (o, then, two) = k ws mid n there in (o, then, KeptOrSettled-then m n o one two)

  same_rows : (db : Db) → OnlySettles db db
  same_rows db = λ ws mid m row. (m, row, kept refl)

  unknown_lem : (s : MessageStatus) → is_unknown_outcome s ≡ true → s ≡ unknown_outcome
  unfolding is_unknown_outcome
  unknown_lem s h = ground arith

  put-OnlySettles :
      (db : Db) (ws mid : ℕ) (m : Message) (a : Acceptance)
      → Reported a
      → message_row db ws mid ≡ some m
      → m.status ≡ unknown_outcome
      → OnlySettles db (put_message db mid (settled_row a (get_or env.now a.accepted_at) m))
  unfolding message_row put_message settled_row
  put-OnlySettles db ws mid m a r row s = λ w k p old. elim (Bool-cases (k == mid)) [
    | inr e ↦ (p, rw e old, kept refl)
    | inl e ↦
        let same_id : k ≡ mid = ground arith in
        let (stored, of_w) = found_row _ w p old in
        let same : p ≡ m =
          some_injective p m (sym stored ∙ ap db.messages same_id ∙ (found_row _ ws m row).0) in
        let after = settled_row a (get_or env.now a.accepted_at) m in
        (
          after,
          rw e (stored_row _ w after refl (rw same at of_w)),
          settled a r (rw same s) (
              settled_row_lem a (get_or env.now a.accepted_at) m
              ∙ ap (sent_message a (get_or env.now a.accepted_at)) (sym same)),
        )
  ]

  settle-OnlySettles :
      (r : UnknownMessage) (a : Acceptance) (db : Db)
      → Reported a
      → OnlySettles db (settle_message r a (get_or env.now a.accepted_at) db)
  unfolding settle_message
  settle-OnlySettles r a db told =
      elim (Option-cases (message_row db r.workspace_id r.message_id)) [
        | inl e ↦ rw e (same_rows db)
        | inr (m, e) ↦ elim (Bool-cases (is_unknown_outcome m.status && m.version == r.version)) [
          | inr q ↦ rw (e, q) (same_rows db)
          | inl q ↦
              rw (e, q)
                (put-OnlySettles db r.workspace_id r.message_id m a told e
                  (unknown_lem m.status (ground arith)))
        ]
      ]

  accepted-OnlySettles :
      (r : UnknownMessage) (rfc : Text) (a : Acceptance) (db : Db)
      → Reported a
      → OnlySettles db (reconcile_accepted env r rfc a db).1
  unfolding reconcile_accepted audit_row record_audit_event message_row
  accepted-OnlySettles r rfc a db told =
      settle-OnlySettles r a
        (record db {
          attempts =
              accept_attempts r rfc a (get_or env.now a.accepted_at) r.attempt_id db.attempts;
        })
        told

  lookup-OnlySettles :
      (r : UnknownMessage) (credential : Credential) (rfc : Text) (reply : Lookup) (db : Db)
      → env.lookup_message r.provider credential rfc ≡ reply
      → OnlySettles db (after_lookup env r rfc reply db).1
  unfolding after_lookup audit_row record_audit_event message_row
  lookup-OnlySettles r credential rfc (was_accepted a) db e =
      accepted-OnlySettles r rfc a db
        (record { provider = r.provider; credential = credential; rfc_message_id = rfc; reply = e })
  lookup-OnlySettles r credential rfc inconclusive db e = λ ws mid m row. (m, row, kept refl)
  lookup-OnlySettles r credential rfc raised db e = λ ws mid m row. (m, row, kept refl)

  with-OnlySettles :
      (r : UnknownMessage) (rfc : Text) (conn : Connection) (o : Option Credential) (db : Db)
      → OnlySettles db (look_up_with env r rfc conn o db).1
  unfolding look_up_with
  with-OnlySettles r rfc conn none db = same_rows db
  with-OnlySettles r rfc conn (some creds) db = lookup-OnlySettles r _ rfc _ db refl

  through-OnlySettles :
      (r : UnknownMessage) (rfc : Text) (o : Option Connection) (db : Db)
      → OnlySettles db (look_up_through env r rfc o db).1
  unfolding look_up_through
  through-OnlySettles r rfc none db = same_rows db
  through-OnlySettles r rfc (some conn) db = elim (Bool-cases (is_present conn.credential)) [
    | inl e ↦ rw e (with-OnlySettles r rfc conn (env.decrypt conn) db)
    | inr e ↦ rw e (same_rows db)
  ]

  rfc-OnlySettles :
      (r : UnknownMessage) (o : Option Text) (db : Db) → OnlySettles db (with_rfc_id env r o db).1
  unfolding with_rfc_id audit_row record_audit_event message_row
  rfc-OnlySettles r none db = λ ws mid m row. (m, row, kept refl)
  rfc-OnlySettles r (some []) db = λ ws mid m row. (m, row, kept refl)
  rfc-OnlySettles r (some (c ∷ t)) db = through-OnlySettles r (c ∷ t) _ db

  one-OnlySettles : (r : UnknownMessage) (db : Db) → OnlySettles db (reconcile_one env r db).1
  unfolding reconcile_one audit_row record_audit_event message_row
  one-OnlySettles r db = elim (Bool-cases (env.can_look_up r.provider)) [
    | inl e ↦ rw e (rfc-OnlySettles r r.rfc_message_id db)
    | inr e ↦ rw e (λ ws mid m row. (m, row, kept refl))
  ]

  each-OnlySettles :
      (rows : List UnknownMessage) (db : Db) → OnlySettles db (reconcile_each env rows db).1
  unfolding reconcile_each
  each-OnlySettles [] db = same_rows db
  each-OnlySettles (r ∷ rows) db =
      OnlySettles-then db (reconcile_one env r db).1 _ (one-OnlySettles r db)
        (each-OnlySettles rows (reconcile_one env r db).1)

  pub reconcile-OnlySettles :
      (seen db : Db) (scope : Option ℕ) (limit : ℕ) (ids : List ℕ) (ws mid : ℕ) (m : Message)
      → message_row db ws mid ≡ some m
      → (n : Message) × (message_row
            (reconcile_unknown_messages env seen db scope limit ids).1
            ws
            mid
          ≡ some n)
        × KeptOrSettled m n
  unfolding reconcile_unknown_messages
  reconcile-OnlySettles seen db scope limit ids =
      each-OnlySettles (find_unknown_messages seen scope limit ids) db
