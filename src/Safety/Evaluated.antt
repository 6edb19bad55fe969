-- ===== src/Safety/Evaluated.antt =====
-- Which mailboxes are held, by the numbers of their messages and not by the rounded rate.
use email_outreach_platform.Base.{ℕ, ◌+◌, ◌*◌, ◌≤◌, ◌<◌, ◌≡◌, ◌⊎◌, true, List, is_some, first_where}
use email_outreach_platform.Safety.{SafetyHold, is_held_already, has_identity}

-- The rate is the hundredth of a percent that is nearest.
abbrev pub IsNearest : (ℕ → ℕ → ℕ) → Type 0
IsNearest rate =
    (count sent : ℕ)
    → 0 < sent
    → (20000 * count ≤ 2 * (sent * rate count sent) + sent)
      × (2 * (sent * rate count sent) ≤ 20000 * count + sent)

-- The mailbox has an active automatic hold, or one of this day.
abbrev HeldToday : List SafetyHold → ℕ → ℕ → ℕ → Type 0
HeldToday holds ws mid day =
    (is_some (first_where (is_held_already ws mid) holds) ≡ true)
    ⊎ (is_some (first_where (has_identity ws mid day) holds) ≡ true)
