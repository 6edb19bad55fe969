-- ===== src/Safety/Counted.antt =====
-- What the counts of a mailbox are, and the holds that stand on it.
use mathlib.Core.List.{Memᴰ}
use email_outreach_platform.Base.{
  ℕ, ◌+◌, ◌-◌, ◌*◌, ◌≤◌, max, ◌≡◌, refl, ap, ◌⊎◌, inl, inr, true, ◌&&◌, Option, none, some, List,
  [], ◌∷◌, arith, leb, ◌==◌, Bool-cases, is_some, second, first_where, first_where-Mem,
}
use email_outreach_platform.Safety.{
  SentMessage, HoldIdentity, auto_bounce, other_source, SafetyHold, evaluation_window,
  count_bounces, targets, is_auto, is_held_already, same_identity, has_identity,
}

-- A message of the mailbox that was accepted in the last seven days.
abbrev pub IsRecent : ℕ → ℕ → ℕ → SentMessage → Type 0
IsRecent ws mid now m =
    (m.workspace_id ≡ ws) × (m.mailbox_id ≡ mid) × (now ≤ m.accepted_at + 7 * 86400 * second)

-- The sends and the bounces of the recent messages of the mailbox. A message counts as one send, and
-- one with several BOUNCED events as that many sends and bounces.
pub data Counts (ws mid now : ℕ) : List SentMessage → ℕ → ℕ → Type 0 where
  no_rows : Counts ws mid now [] 0 0
  recent :
      (m : SentMessage) (rows : List SentMessage) (sent bounced : ℕ)
      → IsRecent ws mid now m
      → Counts ws mid now rows sent bounced
      → Counts ws mid now (m ∷ rows) (sent + max 1 m.bounced_events) (bounced + m.bounced_events)
  passed :
      (m : SentMessage) (rows : List SentMessage) (sent bounced : ℕ)
      → ¬ IsRecent ws mid now m
      → Counts ws mid now rows sent bounced
      → Counts ws mid now (m ∷ rows) sent bounced

pub count_bounces-Counts :
    (ws mid now : ℕ) (rows : List SentMessage)
    → let counts = count_bounces ws mid (now - evaluation_window) rows in
      Counts ws mid now rows counts.0 counts.1
unfolding count_bounces
count_bounces-Counts ws mid now [] = no_rows
count_bounces-Counts ws mid now (m ∷ rows) =
    let counts = count_bounces ws mid (now - evaluation_window) rows in
    let rest = count_bounces-Counts ws mid now rows in
    elim (Bool-cases (
      m.workspace_id == ws && m.mailbox_id == mid && leb (now - evaluation_window) m.accepted_at)) [
        | inl e ↦
            rw e (recent m rows counts.0 counts.1 (ground arith, ground arith, ground arith) rest)
        | inr e ↦ rw e (passed m rows counts.0 counts.1 (λ (w, b, t). ground arith) rest)
      ]

-- A hold of the mailbox: an active automatic one, or the automatic one of this day, active or not.
pub record StandingHold (holds : List SafetyHold) (ws mid day : ℕ) : Type 0 where
  pub hold : SafetyHold
  pub in_table : Memᴰ hold holds
  pub same_workspace : hold.workspace_id ≡ ws
  pub stands :
      ((hold.is_active ≡ true)
        × (hold.target_mailbox_id ≡ some mid)
        × ((d : ℕ) × (hold.identity ≡ auto_bounce mid d)))
      ⊎ (hold.identity ≡ auto_bounce mid day)

target_lem : (mid : ℕ) (o : Option ℕ) → targets mid o ≡ true → o ≡ some mid
unfolding targets
target_lem mid none h = absurd (cc)
target_lem mid (some n) h = let same : n ≡ mid = ground arith in ap some same

auto_lem : (mid : ℕ) (i : HoldIdentity) → is_auto mid i ≡ true → (d : ℕ) × (i ≡ auto_bounce mid d)
unfolding is_auto
auto_lem mid (auto_bounce n d) h = let same : n ≡ mid = ground arith in (d, rw same refl)
auto_lem mid (other_source t) h = absurd (cc)

identity_lem :
    (mid day : ℕ) (i : HoldIdentity) → same_identity mid day i ≡ true → i ≡ auto_bounce mid day
unfolding same_identity
identity_lem mid day (auto_bounce n d) h =
    let same : n ≡ mid = ground arith in
    let same_day : d ≡ day = ground arith in rw (same, same_day) refl
identity_lem mid day (other_source t) h = absurd (cc)

pub active-StandingHold :
    (holds : List SafetyHold) (ws mid day : ℕ)
    → is_some (first_where (is_held_already ws mid) holds) ≡ true
    → StandingHold holds ws mid day
unfolding is_held_already
active-StandingHold holds ws mid day h =
    let (hold, there, e) = first_where-Mem (is_held_already ws mid) holds h in
    record {
      hold = hold;
      in_table = there;
      same_workspace = ground arith;
      stands = inl (
        ground arith,
        target_lem mid hold.target_mailbox_id (ground arith),
        auto_lem mid hold.identity (ground arith),
      );
    }

pub today-StandingHold :
    (holds : List SafetyHold) (ws mid day : ℕ)
    → is_some (first_where (has_identity ws mid day) holds) ≡ true
    → StandingHold holds ws mid day
unfolding has_identity
today-StandingHold holds ws mid day h =
    let (hold, there, e) = first_where-Mem (has_identity ws mid day) holds h in
    record {
      hold = hold;
      in_table = there;
      same_workspace = ground arith;
      stands = inr (identity_lem mid day hold.identity (ground arith));
    }
