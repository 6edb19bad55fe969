-- ===== src/Scheduler/Store.antt =====
-- The tables that backend/app/modules/scheduler/ reads and writes beside those of the send worker.
-- Rows of a table are a list, the newest first.
use email_outreach_platform.Base.{
  ℕ, Bool, false, ◌&&◌, ◌||◌, Option, List, [], ◌∷◌, ◌==◌, Text, codes, text_eq,
}
use email_outreach_platform.Sending.Store.{Db}

-- `kind` and `semantic_key` of outbox_work. The key of an `email.send` is the text of the message id
-- and the dispatch generation, which Scheduler/Key prints and reads.
pub data WorkKey : Type 0 where
  email_send : ℕ → ℕ → WorkKey
  other_work : Text → Text → WorkKey

pub record OutboxWork : Type 0 where
  pub id : ℕ
  pub workspace_id : ℕ
  pub key : WorkKey
  pub resource_id : ℕ
  pub correlation_id : Option ℕ
  pub available_at : ℕ
  pub is_superseded : Bool

pub data DeliveryState : Type 0 where
  pending leased published retry completed failed superseded : DeliveryState

pub record Delivery : Type 0 where
  pub id : ℕ
  pub workspace_id : ℕ
  pub work_id : ℕ
  pub consumer : Text
  pub state : DeliveryState
  pub lease_owner : Option ℕ
  pub lease_generation : ℕ
  pub lease_expires_at : Option ℕ
  pub next_attempt_at : Option ℕ
  pub attempts : ℕ
  pub safe_error : Option Text
  pub published_at : Option ℕ

-- A row of controlled_send_authorizations.
pub record Authorization : Type 0 where
  pub workspace_id : ℕ
  pub revoked_at : Option ℕ
  pub expires_at : ℕ

pub record Tables : Type 0 where
  pub db : Db
  pub authorizations : ℕ → Option Authorization
  pub works : List OutboxWork
  pub deliveries : List Delivery

unfoldable pub same_key : WorkKey → WorkKey → Bool
same_key (email_send m g) (email_send n h) = m == n && g == h
same_key (other_work k t) (other_work l u) = text_eq k l && text_eq t u
same_key _ _ = false

-- outbox_work_semantic_key
unfoldable pub has_key : ℕ → WorkKey → List OutboxWork → Bool
has_key ws key [] = false
has_key ws key (w ∷ rows) = (w.workspace_id == ws && same_key w.key key) || has_key ws key rows

-- outbox_deliveries_work_fkey
unfoldable pub has_work : ℕ → ℕ → List OutboxWork → Bool
has_work ws id [] = false
has_work ws id (w ∷ rows) = (w.workspace_id == ws && w.id == id) || has_work ws id rows

-- outbox_deliveries_consumer_key
unfoldable pub has_delivery : ℕ → ℕ → Text → List Delivery → Bool
has_delivery ws work consumer [] = false
has_delivery ws work consumer (d ∷ rows) =
    (d.workspace_id == ws && d.work_id == work && text_eq d.consumer consumer)
    || has_delivery ws work consumer rows

abbrev pub send_consumer : Text
send_consumer = codes "worker-send"
