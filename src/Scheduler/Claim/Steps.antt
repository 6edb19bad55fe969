-- ===== src/Scheduler/Claim/Steps.antt =====
-- The scheduler's transactions as steps on the tables, and what every sequence of them keeps.
use email_outreach_platform.Base.{
  ℕ, ◌+◌, ◌≤◌, ◌≡◌, refl, sym, ap, ◌∙◌, inl, inr, Bool, some, List, arith, ◌==◌, Bool-cases,
}
use email_outreach_platform.Sending.Store.{Message, Db, message_row, put_message}
use email_outreach_platform.Sending.Stored.{==-refl, found_row, stored_row, some_injective}
use email_outreach_platform.Scheduler.Store.{Delivery, Tables}
use email_outreach_platform.Scheduler.Claim.{
  NewIds, claim_due_message, recovered_row, recover_expired_claim,
}
use email_outreach_platform.Scheduler.Claim.Keys.{
  IsConsistent, GenerationsGrow, AllBehind-grow, next_key_fresh,
}
use email_outreach_platform.Scheduler.Claim.Eligible.{
  after_claim, queued_message, claim_open, claim_cases,
}
use email_outreach_platform.Scheduler.Claim.Recovered.{recover_cases}

-- A write of a message's row that does not lower its generation.
put-GenerationsGrow :
    (db : Db) (ws mid : ℕ) (m n : Message)
    → message_row db ws mid ≡ some m
    → n.workspace_id ≡ m.workspace_id
    → m.dispatch_generation ≤ n.dispatch_generation
    → GenerationsGrow db (put_message db mid n)
unfolding message_row put_message
put-GenerationsGrow db ws mid m n row same le = λ w k r h. elim (Bool-cases (k == mid)) [
  | inl e ↦
      let (is_n, of_w) = found_row _ w r h in
      let r_is_n : r ≡ n = some_injective r n (sym is_n ∙ rw e refl) in
      let k_is_mid : k ≡ mid = ground arith in
      let (stored, of_ws) = found_row _ ws m row in
      (
        m,
        stored_row _ w m (rw k_is_mid stored)
            (sym same ∙ ap (λ (x : Message). x.workspace_id) (sym r_is_n) ∙ of_w),
        rw r_is_n le,
      )
  | inr e ↦ (r, rw e at h, omega arith)
]

-- One transaction: a claim, the recovery of an expired claim, one of another worker, which may write
-- any row of the send tables but does not lower the generation of a message, or one of the publisher,
-- which writes deliveries only.
pub data Step : Tables → Tables → Type 0 where
  claim :
      (t : Tables) (ws mid : ℕ) (is_locked : Bool) (lease now clock : ℕ) (ids : NewIds)
      → Step t (claim_due_message t ws mid is_locked lease now clock ids).1
  recover :
      (t u : Tables) (ws mid generation : ℕ) (is_locked : Bool)
      → recover_expired_claim t ws mid generation is_locked ≡ some u
      → Step t u
  work : (t : Tables) (db : Db) → GenerationsGrow t.db db → Step t (record t { db = db })
  publish : (t : Tables) (rows : List Delivery) → Step t (record t { deliveries = rows })

pub data Reach : Tables → Tables → Type 0 where
  stay : (t : Tables) → Reach t t
  step : (t u v : Tables) → Step t u → Reach u v → Reach t v

-- The written row reads back.
put_row_lem :
    (db : Db) (ws mid : ℕ) (n r : Message)
    → message_row (put_message db mid n) ws mid ≡ some r
    → r ≡ n
unfolding message_row put_message
put_row_lem db ws mid n r found =
    some_injective r n (sym (found_row _ ws r found).0 ∙ rw (==-refl mid) refl)

after_claim-IsConsistent :
    (t : Tables) (ws mid : ℕ) (m : Message) (lease now : ℕ) (ids : NewIds)
    → IsConsistent t
    → message_row t.db ws mid ≡ some m
    → IsConsistent (after_claim t ws mid m lease now ids)
after_claim-IsConsistent t ws mid m lease now ids ok row =
    let n = queued_message m (now + lease) in
    let grow = put-GenerationsGrow t.db ws mid m n row refl (omega arith) in
    record {
      behind = (
        λ r found. rw (put_row_lem t.db ws mid n r found) (omega arith),
        AllBehind-grow t.db _ t.works grow ok.behind,
      );
      differ = (next_key_fresh t.db ws mid m t.works row ok.behind, ok.differ);
    }

claim-IsConsistent :
    (t : Tables) (ws mid : ℕ) (is_locked : Bool) (lease now clock : ℕ) (ids : NewIds)
    → IsConsistent t
    → IsConsistent (claim_due_message t ws mid is_locked lease now clock ids).1
claim-IsConsistent t ws mid is_locked lease now clock ids ok =
    elim (claim_cases t ws mid is_locked lease now clock ids) [
      | inl (r, e) ↦ rw e ok
      | inr (m, free, c) ↦
          rw (free, claim_open t ws mid lease now clock ids m ok c)
            (after_claim-IsConsistent t ws mid m lease now ids ok c.stored)
    ]

recover-IsConsistent :
    (t u : Tables) (ws mid generation : ℕ) (is_locked : Bool)
    → IsConsistent t
    → recover_expired_claim t ws mid generation is_locked ≡ some u
    → IsConsistent u
unfolding recovered_row
recover-IsConsistent t u ws mid generation is_locked ok h =
    let (m, r, e) = recover_cases t u ws mid generation is_locked h in
    let grow = put-GenerationsGrow t.db ws mid m (recovered_row m) r.stored refl (omega arith) in
    rw e (record { behind = AllBehind-grow t.db _ t.works grow ok.behind; differ = ok.differ })

-- Every transaction keeps the outbox consistent.
Step-IsConsistent : {t u : Tables} → Step t u → IsConsistent t → IsConsistent u
Step-IsConsistent (claim t ws mid is_locked lease now clock ids) ok =
    claim-IsConsistent t ws mid is_locked lease now clock ids ok
Step-IsConsistent (recover t u ws mid generation is_locked h) ok =
    recover-IsConsistent t u ws mid generation is_locked ok h
Step-IsConsistent (work t db grow) ok = record {
  behind = AllBehind-grow t.db db t.works grow ok.behind;
  differ = ok.differ;
}
Step-IsConsistent (publish t rows) ok = record { behind = ok.behind; differ = ok.differ }

-- However claims, recoveries of expired claims, tasks of other workers and the publisher follow one
-- another, the outbox stays consistent: no workspace has two works of one key, so each claim of a
-- message (each of its generations) has one, and no work is of a generation that its message has not
-- reached.
pub Reach-IsConsistent : {t u : Tables} → Reach t u → IsConsistent t → IsConsistent u
Reach-IsConsistent (stay t) ok = ok
Reach-IsConsistent (step t u v s r) ok = Reach-IsConsistent r (Step-IsConsistent s ok)
