-- ===== src/Sending/Service/Held.antt =====
-- What the steps between authorization and the provider's call leave alone: the messages, attempts
-- and debits, in the transaction and committed, and the events.
use email_outreach_platform.Base.{
  ℕ, ◌≡◌, refl, Bool, true, not, ◌&&◌, Option, List, arith, is_some, Text,
}
use email_outreach_platform.Sending.Context.{ConnectionState, HealthState, LoadedSendContext}
use email_outreach_platform.Sending.Gates.{is_campaign}
use email_outreach_platform.Sending.Store.{Message, Connection, Attempt, Debit, Db, put_mailbox}
use email_outreach_platform.Sending.Repository.Writes.{
  update_mailbox_connection_state, insert_mailbox_connection,
}
use email_outreach_platform.Sending.Session.{Event, World, write_or}
use email_outreach_platform.Sending.Environment.{ProviderSendResult, Environment}
use email_outreach_platform.Sending.Service.Helpers.{audit}
use email_outreach_platform.Sending.Service.Finalize.{
  settle, finalize_accepted, finalize_unknown, finalize_auth_failure, finalize_decision,
  limit_and_decide, finalize_rejected, by_status, finalize_send_result,
}
use email_outreach_platform.Sending.Service.Credentials.{load_and_refresh_credential}
use email_outreach_platform.Sending.Service.Attachments.{load_attachments}

-- The rows that a claim is made of.
pub record Claims : Type 0 where
  pub messages : ℕ → Option Message
  pub attempts : List Attempt
  pub debits : List Debit

abbrev pub claims_of : Db → Claims
claims_of db = record { messages = db.messages; attempts = db.attempts; debits = db.debits }

pub record Held (c : Claims) (events : List Event) (w : World) : Type 0 where
  pub committed : claims_of w.db ≡ c
  pub working : claims_of w.work ≡ c
  pub same_events : w.events ≡ events

pub claims-state :
    (db : Db) (ws id : ℕ) (c : ConnectionState) (h : HealthState) (g : Option ℕ) (n : ℕ)
    → claims_of (update_mailbox_connection_state db ws id c h g n) ≡ claims_of db
unfolding update_mailbox_connection_state put_mailbox
claims-state db ws id c h g n = ground arith

pub claims-insert :
    (db : Db) (c : Connection) → claims_of (insert_mailbox_connection db c) ≡ claims_of db
unfolding insert_mailbox_connection
claims-insert db c = refl

module _ (env : Environment) (ctx : LoadedSendContext) where
  pub credential-Held :
      (c : Claims) (events : List Event) (generation : ℕ) (w : World)
      → Held c events w
      → Held c events (load_and_refresh_credential env ctx generation w).1
  unfolding load_and_refresh_credential
  credential-Held c events generation w h = grind (arith, claims-state, claims-insert)

  pub attachments-Held :
      (c : Claims) (events : List Event) (w : World)
      → Held c events w
      → Held c events (load_attachments env ctx w).1
  unfolding load_attachments
  attachments-Held c events w h = ground arith

  pub events-finalize :
      (aid : ℕ) (r : ProviderSendResult) (rfc : Text) (w : World)
      → (finalize_send_result env ctx aid r rfc w).1.events ≡ w.events
  unfolding finalize_send_result settle limit_and_decide by_status finalize_accepted
      finalize_unknown finalize_rejected finalize_auth_failure finalize_decision audit write_or
  events-finalize aid r rfc w = ground arith

-- Is a transaction open when the files are loaded? Reading the rows of a step's files ends it.
unfoldable pub holds_transaction : LoadedSendContext → Bool
unfolding is_campaign
holds_transaction ctx = not (is_campaign ctx.purpose && is_some ctx.raw.step_id)

module _ (env : Environment) (ctx : LoadedSendContext) where
  pub credential_open :
      (generation : ℕ) (w : World)
      → (load_and_refresh_credential env ctx generation w).1.is_open ≡ true
  unfolding load_and_refresh_credential
  credential_open generation w = ground arith

  pub attachments_open :
      (w : World)
      → w.is_open ≡ true
      → (load_attachments env ctx w).1.is_open ≡ holds_transaction ctx
  unfolding load_attachments holds_transaction
  attachments_open w h = ground arith
