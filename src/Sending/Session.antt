-- ===== src/Sending/Session.antt =====
-- A database session with its transaction, and what the worker asks of other systems. Reads and
-- writes open a transaction and see its working copy; commit publishes the copy, rollback drops it.
use email_outreach_platform.Base.{
  ℕ, Bool, true, false, Option, none, some, List, ◌∷◌, if◌then◌else◌,
}
use email_outreach_platform.Sending.Context.{MessageStatus}
use email_outreach_platform.Sending.Gates.{GateReason}
use email_outreach_platform.Sending.RetryPolicy.{CategoryText}
use email_outreach_platform.Sending.Store.{ErrorCode, HoldReason, Db}

-- `_CredentialFailure`
pub record CredentialFailure : Type 0 where
  pub error_category : CategoryText
  pub error_code : ErrorCode
  pub message_status : MessageStatus
  pub hold_reason : Option HoldReason

-- The reasons of `_AuthorizationAborted`.
pub data AbortReason : Type 0 where
  rate_control_generation_mismatch locked_by_concurrent_worker : AbortReason
  message_not_found message_version_conflict : AbortReason
  gate_rejected : GateReason → AbortReason

-- The exceptions that the service raises or lets through.
pub data Failure : Type 0 where
  message_locked attempt_already_claimed rate_limit_unavailable : Failure
  rate_limit_denied : Option ℕ → Failure
  authorization_aborted : AbortReason → Failure
  credential_failure : CredentialFailure → Failure
  integrity_error value_error commit_error : Failure

pub data Result {ℓ} (A : Type ℓ) : Type ℓ where
  ok : A → Result A
  err : Failure → Result A

-- A call of the provider: the committed tables and the state of the transaction at that moment.
pub record Invocation : Type 0 where
  pub committed : Db
  pub in_transaction : Bool
  pub message_id : ℕ
  pub attempt_id : ℕ

pub data Event : Type 0 where
  reserved released : ℕ → Event
  invoked : Invocation → Event

pub record World : Type 0 where
  pub db : Db
  pub work : Db
  pub is_open : Bool
  pub events : List Event

abbrev pub M {ℓ} : Type ℓ → Type ℓ
M A = World → Result A × World

abbrev pub continue {ℓ κ} :
    {A : Type ℓ} {B : Type κ} → Result A → (A → M B) → World → Result B × World
continue (ok a) f w = f a w
continue (err e) f w = (err e, w)

infixl 5 ◌>>=◌ ◌>>◌
abbrev pub ◌>>=◌ {ℓ κ} : {A : Type ℓ} {B : Type κ} → M A → (A → M B) → M B
◌>>=◌ m f w = continue (m w).0 f (m w).1

abbrev pub ◌>>◌ {ℓ} : {B : Type ℓ} → M (Unit {0}) → M B → M B
m >> k = m >>= λ _. k

abbrev pub pure {ℓ} : {A : Type ℓ} → A → M A
pure a w = (ok a, w)

abbrev pub raise {ℓ} : {A : Type ℓ} → Failure → M A
raise e w = (err e, w)

-- A `try`: the result or the exception as a value.
abbrev pub attempt {ℓ} : {A : Type ℓ} → M A → M (Result A)
attempt m w = (ok (m w).0, (m w).1)

abbrev pub query {ℓ} : {A : Type ℓ} → (Db → A) → M A
query f w = (ok (f w.work), record w { is_open = true })

abbrev pub write : (Db → Db) → M (Unit {0})
write f w = (ok tt, record w { work = f w.work; is_open = true })

write_result : Option Db → Failure → World → Result (Unit {0}) × World
write_result none e w = (err e, record w { is_open = true })
write_result (some d) e w = (ok tt, record w { work = d; is_open = true })

-- A write that may fail.
unfoldable pub write_or : (Db → Option Db) → Failure → M (Unit {0})
unfolding write_result
write_or f e w = write_result (f w.work) e w

-- A guarded UPDATE whose row count is not looked at.
write_maybe_result : Option Db → World → Result (Unit {0}) × World
write_maybe_result none w = (ok tt, record w { is_open = true })
write_maybe_result (some d) w = (ok tt, record w { work = d; is_open = true })

unfoldable pub write_maybe : (Db → Option Db) → M (Unit {0})
unfolding write_maybe_result
write_maybe f w = write_maybe_result (f w.work) w

abbrev pub commit : M (Unit {0})
commit w = (ok tt, record w { db = w.work; is_open = false })

abbrev pub rollback : M (Unit {0})
rollback w = (ok tt, record w { work = w.db; is_open = false })

abbrev pub emit : Event → M (Unit {0})
emit e w = (ok tt, record w { events = e ∷ w.events })

abbrev pub when : Bool → M (Unit {0}) → M (Unit {0})
when b m = if b then m else pure tt
