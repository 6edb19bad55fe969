-- ===== src/Scheduler/Claim/Freed.antt =====
-- What the recovery of an expired claim does to the message and to the deliveries of its work.
use email_outreach_platform.Base.{
  ℕ, ◌+◌, ◌≡◌, refl, ◌↔◌, ◌⊎◌, inl, inr, Bool, true, false, ◌&&◌, none, List, [], ◌∷◌, arith, ◌==◌,
  Bool-cases, get_or, update_where,
}
use email_outreach_platform.Sending.Context.{MessageStatus}
use email_outreach_platform.Sending.Store.{Message}
use email_outreach_platform.Scheduler.Store.{
  WorkKey, email_send, other_work, OutboxWork, DeliveryState, Delivery, same_key,
}
use email_outreach_platform.Scheduler.Claim.{is_uncompleted, is_work_of, supersede}

-- The message back in the state it was claimed from, without a claim.
abbrev pub freed_message : Message → Message
freed_message m = record m {
  status = get_or MessageStatus.scheduled m.dispatch_origin;
  dispatch_origin = none;
  claim_expires_at = none;
  version = m.version + 1;
}

-- A predicate on some item of a list.
abbrev pub Any {ℓ} : {A : Type ℓ} → (A → Type 0) → List A → Type 0
Any P [] = ⊥
Any P (x ∷ xs) = P x ⊎ Any P xs

-- Two lists item by item.
abbrev pub Each {ℓ} : {A : Type ℓ} → (A → A → Type 0) → List A → List A → Type 0
Each R [] [] = Unit
Each R (x ∷ xs) (y ∷ ys) = R x y × Each R xs ys
Each R _ _ = ⊥

-- The work with this id is the one of the claim of this generation.
abbrev pub IsWork : ℕ → ℕ → ℕ → ℕ → OutboxWork → Type 0
IsWork ws mid generation id w =
    (w.workspace_id ≡ ws) × (w.key ≡ email_send mid generation) × (w.id ≡ id)

-- A delivery of the claim's work that is waiting, leased or to be tried again.
abbrev pub IsOpenOf : ℕ → ℕ → ℕ → List OutboxWork → Delivery → Type 0
IsOpenOf ws mid generation works d =
    (d.workspace_id ≡ ws)
    × Any (IsWork ws mid generation d.work_id) works
    × ((d.state ≡ DeliveryState.pending)
        ⊎ ((d.state ≡ DeliveryState.leased) ⊎ (d.state ≡ DeliveryState.retry)))

-- The open deliveries of the claim's work are superseded, all others as they were.
abbrev pub IsSuperseded : ℕ → ℕ → ℕ → List OutboxWork → Delivery → Delivery → Type 0
IsSuperseded ws mid generation works d e =
    (IsOpenOf ws mid generation works d × (e ≡ record d { state = DeliveryState.superseded }))
    ⊎ ((¬ IsOpenOf ws mid generation works d) × (e ≡ d))

sends_lem :
    (m g mid generation : ℕ)
    → email_send m g ≡ email_send mid generation
    → (m ≡ mid) × (g ≡ generation)
sends_lem m g mid generation e = (cc, cc)

key_lem :
    (key : WorkKey) (mid generation : ℕ)
    → (same_key key (email_send mid generation) ≡ true) ↔ (key ≡ email_send mid generation)
unfolding same_key
key_lem (email_send m g) mid generation = (
  λ h.
      let m_same : m ≡ mid = ground arith in
      let g_same : g ≡ generation = ground arith in rw (m_same, g_same) refl,
  λ e. let (m_same, g_same) = sends_lem m g mid generation e in ground arith,
)
key_lem (other_work kind text) mid generation = (λ h. absurd (cc), λ e. absurd (cc))

work_lem :
    (ws mid generation id : ℕ) (works : List OutboxWork)
    → (is_work_of ws (email_send mid generation) works id ≡ true)
      ↔ Any (IsWork ws mid generation id) works
unfolding is_work_of
work_lem ws mid generation id [] = (λ h. absurd (cc), λ h. absurd h)
work_lem ws mid generation id (w ∷ works) =
    let key = key_lem w.key mid generation in
    let rest = work_lem ws mid generation id works in
    let this = w.workspace_id == ws && same_key w.key (email_send mid generation) && w.id == id in
    (
      λ h. elim (Bool-cases this) [
        | inl e ↦ inl (ground arith, key.0 (ground arith), ground arith)
        | inr e ↦ inr (rest.0 (ground arith))
      ],
      λ h. elim h [
        | inl (of_ws, of_key, of_id) ↦ let same = key.1 of_key in ground arith
        | inr later ↦ let found = rest.1 later in ground arith
      ],
    )

uncompleted_lem :
    (s : DeliveryState)
    → (is_uncompleted s ≡ true)
      ↔ ((s ≡ DeliveryState.pending) ⊎ ((s ≡ DeliveryState.leased) ⊎ (s ≡ DeliveryState.retry)))
unfolding is_uncompleted
uncompleted_lem DeliveryState.pending = (λ h. inl refl, λ h. refl)
uncompleted_lem DeliveryState.leased = (λ h. inr (inl refl), λ h. refl)
uncompleted_lem DeliveryState.retry = (λ h. inr (inr refl), λ h. refl)
uncompleted_lem s = (λ h. absurd (ground arith), λ h. ground arith)

open_lem :
    (ws mid generation : ℕ) (works : List OutboxWork) (d : Delivery)
    → ((d.workspace_id == ws
          && is_work_of ws (email_send mid generation) works d.work_id
          && is_uncompleted d.state)
        ≡ true)
      ↔ IsOpenOf ws mid generation works d
open_lem ws mid generation works d =
    let work = work_lem ws mid generation d.work_id works in
    let state = uncompleted_lem d.state in
    (
      λ h. (ground arith, work.0 (ground arith), state.0 (ground arith)),
      λ (of_ws, of_work, of_state).
          let w = work.1 of_work in let s = state.1 of_state in ground arith,
    )

no_test : (b : Bool) → b ≡ false → ¬ (b ≡ true)
no_test b e h = cc

pub supersede_lem :
    (ws mid generation : ℕ) (works : List OutboxWork) (rows : List Delivery)
    → Each
        (IsSuperseded ws mid generation works)
        rows
        (supersede ws (email_send mid generation) works rows)
unfolding supersede update_where
supersede_lem ws mid generation works [] = tt
supersede_lem ws mid generation works (d ∷ rows) =
    let rest = supersede_lem ws mid generation works rows in
    let this = open_lem ws mid generation works d in
    elim (Bool-cases (
      d.workspace_id == ws
      && is_work_of ws (email_send mid generation) works d.work_id
      && is_uncompleted d.state)) [
        | inl e ↦ (inl (this.0 e, rw e refl), rest)
        | inr e ↦ (inr (λ h. no_test _ e (this.1 h), rw e refl), rest)
      ]
