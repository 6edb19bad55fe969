-- ===== src/Safety/Tests.antt =====
-- A mailbox with bounces, and an input for the theorem on it.
use email_outreach_platform.Base.{
  ℕ, zero, suc, ◌+◌, ◌*◌, ◌/◌, ◌≡◌, refl, true, List, [], ◌∷◌, first_where,
}
use email_outreach_platform.Safety.{
  bounce_level, SentMessage, SafetyTables, count_bounces, insert_auto_hold, evaluate,
}

abbrev bounced_message : SentMessage
bounced_message = record { workspace_id = 1; mailbox_id = 30; accepted_at = 0; bounced_events = 1 }

abbrev many : ℕ → List SentMessage
many zero = []
many (suc n) = bounced_message ∷ many n

abbrev bouncing : SafetyTables
bouncing = record { sent = many 20; holds = [] }

-- Rounded half up.
abbrev nearest_percent : ℕ → ℕ → ℕ
nearest_percent count zero = 0
nearest_percent count (suc n) = (20000 * count + suc n) / (2 * suc n)

mailbox_is_held : (evaluate nearest_percent bouncing 1 30 0).0.held ≡ true
unfolding evaluate bounce_level count_bounces first_where insert_auto_hold
mailbox_is_held = refl
