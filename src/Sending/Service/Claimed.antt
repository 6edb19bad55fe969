-- ===== src/Sending/Service/Claimed.antt =====
-- What stands committed when the authorization transaction has succeeded.
use email_outreach_platform.Base.{ℕ, ◌+◌, ◌≡◌, refl, inl, inr, some, List, ◌∷◌, arith, Option-cases}
use email_outreach_platform.Sending.Context.{sending, LoadedSendContext}
use email_outreach_platform.Sending.Store.{
  Message, prepared, Attempt, Debit, Db, message_row, put_message,
}
use email_outreach_platform.Sending.Repository.Writes.{
  insert_prepared_attempt, next_attempt_ordinal, insert_capacity_debit,
  transition_message_to_sending,
}
use email_outreach_platform.Sending.Session.{ok, World, write_or}
use email_outreach_platform.Sending.Environment.{SendTaskPayload, RateReservation, Environment}
use email_outreach_platform.Sending.Service.Held.{Claims, claims_of}
use email_outreach_platform.Sending.Service.Authorization.{
  Authorized, prepared_attempt, debit_of, claim,
}

-- The message is being sent, its newest attempt is the prepared one of this call, and the newest
-- debit counts it.
pub record IsClaimed (message_id attempt_id : ℕ) (c : Claims) : Type 0 where
  pub message : Message
  pub stored : c.messages message_id ≡ some message
  pub status : message.status ≡ sending
  pub newest_attempt : Attempt
  pub older_attempts : List Attempt
  pub attempts : c.attempts ≡ newest_attempt ∷ older_attempts
  pub attempt :
      (newest_attempt.id ≡ attempt_id)
      × (newest_attempt.message_id ≡ message_id)
      × (newest_attempt.evidence_state ≡ prepared)
  pub newest_debit : Debit
  pub older_debits : List Debit
  pub debits : c.debits ≡ newest_debit ∷ older_debits
  pub debit : (newest_debit.attempt_id ≡ attempt_id) × (newest_debit.quantity ≡ 1)

-- The rows of an UPDATE to SENDING.
pub transition_lem :
    (db : Db) (ws mid v : ℕ) (after : Db)
    → transition_message_to_sending db ws mid v ≡ some after
    → (m : Message) × (after ≡ put_message db mid m) × (m.status ≡ sending)
unfolding transition_message_to_sending
transition_lem db ws mid v after h = elim (Option-cases (message_row db ws mid)) [
  | inl e ↦ absurd (ground arith)
  | inr (m, e) ↦ (record m { status = sending; version = m.version + 1 }, ground arith, refl)
]

module _ (env : Environment) (payload : SendTaskPayload) (ctx : LoadedSendContext)
    (reservation : RateReservation) where
  -- The tables when the attempt and the debit are written.
  abbrev pub debited : Db → Db
  debited db =
      insert_capacity_debit
        (record db {
          attempts =
              prepared_attempt env payload ctx
                (next_attempt_ordinal db ctx.workspace_id ctx.message_id)
              ∷ db.attempts;
        })
        (debit_of env payload ctx reservation)

  -- A claim that succeeds has inserted the attempt and the debit and moved the message.
  pub claim_writes :
      (w : World) (a : Authorized)
      → (claim env payload ctx reservation w).0 ≡ ok a
      → (a.attempt_id ≡ env.attempt_id)
        × (a.context ≡ ctx)
        × (transition_message_to_sending
              (debited w.work)
              ctx.workspace_id
              ctx.message_id
              ctx.message_version
            ≡ some (claim env payload ctx reservation w).1.db)
        × ((claim env payload ctx reservation w).1.work
            ≡ (claim env payload ctx reservation w).1.db)
        × ((claim env payload ctx reservation w).1.events ≡ w.events)
  unfolding claim write_or insert_prepared_attempt
  claim_writes w a h = ground arith

  pub IsClaimed-of :
      (db after : Db)
      → transition_message_to_sending
          (debited db)
          ctx.workspace_id
          ctx.message_id
          ctx.message_version
        ≡ some after
      → IsClaimed ctx.message_id env.attempt_id (claims_of after)
  unfolding put_message insert_capacity_debit prepared_attempt debit_of
  IsClaimed-of db after h =
      let (m, e, s) =
        transition_lem (debited db) ctx.workspace_id ctx.message_id ctx.message_version after h in
      record {
        message = m;
        stored = ground arith;
        status = s;
        newest_attempt =
            prepared_attempt env payload ctx
              (next_attempt_ordinal db ctx.workspace_id ctx.message_id);
        older_attempts = db.attempts;
        attempts = ground arith;
        attempt = (refl, refl, refl);
        newest_debit = debit_of env payload ctx reservation;
        older_debits = db.debits;
        debits = ground arith;
        debit = (refl, refl);
      }
