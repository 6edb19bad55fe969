-- ===== src/Sending/Stored.antt =====
-- Reading a message row back from the tables.
use email_outreach_platform.Base.{
  ℕ, ◌≡◌, refl, ◌∙◌, inl, inr, true, Option, none, some, arith, ◌==◌, Bool-cases,
}
use email_outreach_platform.Sending.Store.{Message, Db, in_workspace, message_row, put_message}

pub ==-refl : (n : ℕ) → (n == n) ≡ true
==-refl n = ground arith

pub found_row :
    (o : Option Message) (ws : ℕ) (m : Message)
    → in_workspace (λ (r : Message). r.workspace_id) ws o ≡ some m
    → (o ≡ some m) × (m.workspace_id ≡ ws)
found_row none ws m h = absurd (cc)
found_row (some r) ws m h = elim (Bool-cases (r.workspace_id == ws)) [
  | inr e ↦ absurd (ground arith)
  | inl e ↦ let same : some r ≡ some m = ground arith in (same, ground arith)
]

pub stored_row :
    (o : Option Message) (ws : ℕ) (m : Message)
    → o ≡ some m
    → m.workspace_id ≡ ws
    → in_workspace (λ (r : Message). r.workspace_id) ws o ≡ some m
stored_row o ws m e q = rw e (ground arith)

pub some_injective : (n m : Message) → some n ≡ some m → n ≡ m
some_injective n m e = cc

pub put_read :
    (db : Db) (ws mid : ℕ) (m n : Message)
    → message_row db ws mid ≡ some m
    → n.workspace_id ≡ m.workspace_id
    → message_row (put_message db mid n) ws mid ≡ some n
unfolding message_row put_message
put_read db ws mid m n row same =
    rw (==-refl mid) (stored_row _ ws n refl (same ∙ (found_row _ ws m row).1))
