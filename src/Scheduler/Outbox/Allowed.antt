-- ===== src/Scheduler/Outbox/Allowed.antt =====
-- The CHECK constraints of outbox_deliveries (supabase/migrations/0004_messages_events_inbox.sql) over
-- the updates of the outbox.
use email_outreach_platform.Base.{
  ℕ, ◌≡◌, inl, inr, Bool, true, false, not, ◌&&◌, List, [], ◌∷◌, arith, ltb, if◌then◌else◌,
  Bool-cases, is_some, All, Text, update_where,
}
use email_outreach_platform.Scheduler.Store.{DeliveryState, published, superseded, Delivery}
use email_outreach_platform.Scheduler.Claim.{is_uncompleted}
use email_outreach_platform.Scheduler.Outbox.{
  is_open, is_leased, leased_row, published_row, retry_row, reclaimed_row,
}

same_bool : Bool → Bool → Bool
same_bool true b = b
same_bool false b = not b

is_published : DeliveryState → Bool
is_published published = true
is_published _ = false

-- outbox_deliveries_lease_generation_check, _lease_shape_check, _publication_check and _due_check
unfoldable pub delivery_allowed : Delivery → Bool
unfolding same_bool is_leased is_published is_open
delivery_allowed d =
    ltb 0 d.lease_generation
    && same_bool (is_some d.lease_owner) (is_some d.lease_expires_at)
    && (if is_leased d.state then is_some d.lease_owner else true)
    && (if is_published d.state then is_some d.published_at else true)
    && (if is_open d.state then is_some d.next_attempt_at else true)

abbrev pub AllAllowed : List Delivery → Type 0
AllAllowed = All (λ (d : Delivery). delivery_allowed d ≡ true)

-- An update keeps what its rows keep.
pub All-update {ℓ κ} :
    {R : Type ℓ} {P : R → Type κ} (p : R → Bool) (f : R → R) (rows : List R)
    → ((r : R) → p r ≡ true → P r → P (f r))
    → All P rows
    → All P (update_where p f rows)
unfolding update_where
All-update p f [] keep h = tt
All-update {P = P} p f (r ∷ rows) keep h = elim (Bool-cases (p r)) [
  | inl e ↦ (rw e (keep r e h.0), All-update p f rows keep h.1)
  | inr e ↦ (rw e h.0, All-update p f rows keep h.1)
]

pub leased-Allowed :
    (owner expires : ℕ) (d : Delivery)
    → delivery_allowed d ≡ true
    → delivery_allowed (leased_row owner expires d) ≡ true
unfolding delivery_allowed leased_row
leased-Allowed owner expires d h = ground arith

pub published-Allowed :
    (now : ℕ) (d : Delivery)
    → delivery_allowed d ≡ true
    → delivery_allowed (published_row now d) ≡ true
unfolding delivery_allowed published_row
published-Allowed now d h = ground arith

pub retry-Allowed :
    (due : ℕ) (error : Text) (d : Delivery)
    → delivery_allowed d ≡ true
    → delivery_allowed (retry_row due error d) ≡ true
unfolding delivery_allowed retry_row
retry-Allowed due error d h = ground arith

pub reclaimed-Allowed :
    (now : ℕ) (d : Delivery)
    → delivery_allowed d ≡ true
    → delivery_allowed (reclaimed_row now d) ≡ true
unfolding delivery_allowed reclaimed_row
reclaimed-Allowed now d h = ground arith

pub superseded-Allowed :
    (d : Delivery)
    → delivery_allowed d ≡ true
    → is_uncompleted d.state ≡ true
    → delivery_allowed (record d { state = superseded }) ≡ true
unfolding delivery_allowed is_uncompleted
superseded-Allowed d h q = ground arith
