-- ===== src/Scheduler/Claim/Keys.antt =====
-- The keys of the outbox: one for each claim of a message, and none that a message has not reached.
use email_outreach_platform.Base.{
  ℕ, ◌+◌, ◌≤◌, ◌≡◌, refl, inl, inr, false, ◌&&◌, some, List, [], ◌∷◌, arith, ◌==◌, Bool-cases, All,
}
use email_outreach_platform.Sending.Store.{Message, Db, message_row}
use email_outreach_platform.Scheduler.Store.{
  WorkKey, email_send, other_work, OutboxWork, Tables, same_key, has_key,
}

-- A key of a message is of a dispatch generation that the message has had.
abbrev pub KeyBehind : Db → ℕ → WorkKey → Type 0
KeyBehind db ws (email_send mid g) =
    (m : Message) → message_row db ws mid ≡ some m → g ≤ m.dispatch_generation
KeyBehind db ws (other_work kind key) = Unit {0}

abbrev pub AllBehind : Db → List OutboxWork → Type 0
AllBehind db = All (λ (w : OutboxWork). KeyBehind db w.workspace_id w.key)

-- No two rows of a workspace have the same key.
abbrev pub KeysDiffer : List OutboxWork → Type 0
KeysDiffer [] = Unit {0}
KeysDiffer (w ∷ rows) = (has_key w.workspace_id w.key rows ≡ false) × KeysDiffer rows

pub record IsConsistent (t : Tables) : Type 0 where
  pub behind : AllBehind t.db t.works
  pub differ : KeysDiffer t.works

-- The generations of the messages of a workspace do not go down.
abbrev pub GenerationsGrow : Db → Db → Type 0
GenerationsGrow db after =
    (ws mid : ℕ) (n : Message)
    → message_row after ws mid ≡ some n
    → (m : Message) × (message_row db ws mid ≡ some m)
      × (m.dispatch_generation ≤ n.dispatch_generation)

KeyBehind-grow :
    (db after : Db) (ws : ℕ) (key : WorkKey)
    → GenerationsGrow db after
    → KeyBehind db ws key
    → KeyBehind after ws key
KeyBehind-grow db after ws (email_send mid g) grow h =
    λ n row. let (m, old, le) = grow ws mid n row in omega (arith, h m old, le)
KeyBehind-grow db after ws (other_work kind key) grow h = tt

pub AllBehind-grow :
    (db after : Db) (works : List OutboxWork)
    → GenerationsGrow db after
    → AllBehind db works
    → AllBehind after works
AllBehind-grow db after [] grow h = tt
AllBehind-grow db after (w ∷ rows) grow h =
    (KeyBehind-grow db after w.workspace_id w.key grow h.0, AllBehind-grow db after rows grow h.1)

fresh_key :
    (db : Db) (ws mid : ℕ) (m : Message) (w : ℕ) (key : WorkKey)
    → message_row db ws mid ≡ some m
    → KeyBehind db w key
    → (w == ws && same_key key (email_send mid (m.dispatch_generation + 1))) ≡ false
unfolding same_key
fresh_key db ws mid m w (other_work kind text) row h = ground arith
fresh_key db ws mid m w (email_send n g) row h =
    elim (Bool-cases (w == ws && (n == mid && g == m.dispatch_generation + 1))) [
      | inr no_match ↦ no_match
      | inl match ↦
          let same_ws : w ≡ ws = ground arith in
          let same_id : n ≡ mid = ground arith in
          let same_generation : g ≡ m.dispatch_generation + 1 = ground arith in
          absurd (omega (arith, h m (rw (same_ws, same_id) row), same_generation))
    ]

-- The key of the next claim of a message is new.
pub next_key_fresh :
    (db : Db) (ws mid : ℕ) (m : Message) (works : List OutboxWork)
    → message_row db ws mid ≡ some m
    → AllBehind db works
    → has_key ws (email_send mid (m.dispatch_generation + 1)) works ≡ false
unfolding has_key
next_key_fresh db ws mid m [] row h = refl
next_key_fresh db ws mid m (w ∷ rows) row h =
    rw (fresh_key db ws mid m w.workspace_id w.key row h.0)
      (next_key_fresh db ws mid m rows row h.1)
