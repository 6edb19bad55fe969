-- ===== src/Lifecycle/Refinement.antt =====
-- The workers' steps follow the diagram of the message states.
use email_outreach_platform.Base.{
  ℕ, ◌+◌, ◌≡◌, refl, ◌∙◌, ◌⊎◌, inl, inr, Bool, none, some, Option-cases,
}
use email_outreach_platform.Sending.Context.{MessageStatus, queued, retry_scheduled}
use email_outreach_platform.Sending.Store.{Message, Db, message_row}
use email_outreach_platform.Sending.Repository.Writes.{deferred_row, defer_for_capacity}
use email_outreach_platform.Sending.Recovery.Held.{KeptOrHeld, held, recover-OnlyHolds}
use email_outreach_platform.Sending.Reconciliation.{Lookups}
use email_outreach_platform.Sending.Reconciliation.Settled.{
  KeptOrSettled, settled, reconcile-OnlySettles,
}
use email_outreach_platform.Sending.Service.HandedBack.{deferred_lem}
use email_outreach_platform.Scheduler.Store.{Tables}
use email_outreach_platform.Scheduler.Claim.{NewIds, claim_due_message, recover_expired_claim}
use email_outreach_platform.Scheduler.Claim.Keys.{IsConsistent}
use email_outreach_platform.Scheduler.Claim.Eligible.{queued_message, claim_open, claim_cases}
use email_outreach_platform.Scheduler.Claim.Freed.{freed_message}
use email_outreach_platform.Scheduler.Claim.Recovered.{recover_cases}
use email_outreach_platform.Lifecycle.{
  IsFinal, Edge, plan, dispatch_first, dispatch_retry, authorize, restore_first, restore_retry,
  accept, try_later, lose, confirm, disprove, stop, ClaimEdge, first_claim, next_claim, ReturnEdge,
  to_first, to_retry, RecoveryEdge, outcome_lost, ReconciliationEdge, acceptance_found, EdgeOf,
  Walk, done, more, WorkerStep, claim, expire, hand_back, recover, reconcile, elsewhere,
  WorkerReach, stay, step,
}
use email_outreach_platform.Lifecycle.Rows.{
  OriginAllowed, AtMostOne, RowStep, Moves, Walks, same_Walks, same_row, same_messages, put-Moves,
  Moves-then,
}

some_status : (o s : MessageStatus) → some s ≡ some o → o ≡ s
some_status o s e = cc

claimed-RowStep :
    (m : Message) (expires : ℕ)
    → (m.status ≡ MessageStatus.scheduled) ⊎ (m.status ≡ retry_scheduled)
    → RowStep ClaimEdge m (queued_message m expires)
claimed-RowStep m expires (inl e) =
    λ ok. (inr (rw e first_claim), λ o q. inl (some_status o m.status q ∙ e))
claimed-RowStep m expires (inr e) =
    λ ok. (inr (rw e next_claim), λ o q. inr (some_status o m.status q ∙ e))

no_origin : (o : MessageStatus) → ¬ (none ≡ some o)
no_origin o e = cc

return_to :
    (o : MessageStatus)
    → (o ≡ MessageStatus.scheduled) ⊎ (o ≡ retry_scheduled)
    → ReturnEdge queued o
return_to o (inl e) = rw e to_first
return_to o (inr e) = rw e to_retry

freed-RowStep : (m : Message) → m.status ≡ queued → RowStep ReturnEdge m (freed_message m)
freed-RowStep m q = λ ok. elim (Option-cases m.dispatch_origin) [
  | inl e ↦ (inr (rw (q, e) to_first), λ o n. absurd (no_origin o n))
  | inr (o, e) ↦ (inr (rw (q, e) (return_to o (ok o e))), λ p n. absurd (no_origin p n))
]

deferred-RowStep :
    (m : Message) (due : ℕ) (origin : MessageStatus)
    → m.status ≡ queued
    → m.dispatch_origin ≡ some origin
    → RowStep ReturnEdge m (deferred_row m due origin)
unfolding deferred_row
deferred-RowStep m due origin q e =
    λ ok. (inr (rw q (return_to origin (ok origin e))), λ p n. absurd (no_origin p n))

claim-Moves :
    (t : Tables) (ws mid : ℕ) (is_locked : Bool) (lease now clock : ℕ) (ids : NewIds)
    → IsConsistent t
    → Moves ClaimEdge t.db (claim_due_message t ws mid is_locked lease now clock ids).1.db
claim-Moves t ws mid is_locked lease now clock ids ok =
    elim (claim_cases t ws mid is_locked lease now clock ids) [
      | inl (r, e) ↦ rw e (same_messages ClaimEdge t.db t.db refl)
      | inr (m, free, c) ↦
          rw (free, claim_open t ws mid lease now clock ids m ok c)
            (put-Moves ClaimEdge t.db ws mid m (queued_message m (now + lease)) c.stored refl
              (claimed-RowStep m (now + lease) c.waits))
    ]

expire-Moves :
    (t u : Tables) (ws mid generation : ℕ) (is_locked : Bool)
    → recover_expired_claim t ws mid generation is_locked ≡ some u
    → Moves ReturnEdge t.db u.db
expire-Moves t u ws mid generation is_locked h =
    let (m, r, e) = recover_cases t u ws mid generation is_locked h in
    rw e (
      put-Moves ReturnEdge t.db ws mid m (freed_message m) r.stored refl
        (freed-RowStep m r.is_waiting))

hand_back-Moves :
    (db after : Db) (ws mid generation due : ℕ)
    → defer_for_capacity db ws mid generation due ≡ some after
    → Moves ReturnEdge db after
unfolding deferred_row
hand_back-Moves db after ws mid generation due h =
    let (m, origin, row, waits, g, same, e) = deferred_lem db after ws mid generation due h in
    rw e (
      put-Moves ReturnEdge db ws mid m (deferred_row m due origin) row refl
        (deferred-RowStep m due origin waits same))

held-RowStep : (m n : Message) → KeptOrHeld m n → RowStep RecoveryEdge m n
held-RowStep m n (KeptOrHeld.kept e) = rw e (same_row RecoveryEdge m)
held-RowStep m n (held s e) = λ ok. (inr (rw (e, s) outcome_lost), rw e ok)

settled-RowStep :
    (env : Lookups) (m n : Message) → KeptOrSettled env m n → RowStep ReconciliationEdge m n
settled-RowStep env m n (KeptOrSettled.kept e) = rw e (same_row ReconciliationEdge m)
settled-RowStep env m n (settled a r s e) = λ ok. (inr (rw (e, s) acceptance_found), rw e ok)

WorkerStep-Moves : {t u : Tables} (s : WorkerStep t u) → Moves (EdgeOf s) t.db u.db
WorkerStep-Moves (claim t ws mid is_locked lease now clock ids ok) =
    claim-Moves t ws mid is_locked lease now clock ids ok
WorkerStep-Moves (expire t u ws mid generation is_locked h) =
    expire-Moves t u ws mid generation is_locked h
WorkerStep-Moves (hand_back t db ws mid generation due h) =
    hand_back-Moves t.db db ws mid generation due h
WorkerStep-Moves (recover t seen now scope limit) = λ ws mid m row.
    let (n, there, change) = recover-OnlyHolds seen t.db now scope limit ws mid m row in
    (n, there, held-RowStep m n change)
WorkerStep-Moves (reconcile t env seen scope limit ids) = λ ws mid m row.
    let (n, there, change) = reconcile-OnlySettles env seen t.db scope limit ids ws mid m row in
    (n, there, settled-RowStep env m n change)
WorkerStep-Moves (elsewhere t u e) = same_messages (λ s f. ⊥) t.db u.db e

ClaimEdge-Edge : {s e : MessageStatus} → ClaimEdge s e → Edge s e
ClaimEdge-Edge first_claim = dispatch_first
ClaimEdge-Edge next_claim = dispatch_retry

ReturnEdge-Edge : {s e : MessageStatus} → ReturnEdge s e → Edge s e
ReturnEdge-Edge to_first = restore_first
ReturnEdge-Edge to_retry = restore_retry

RecoveryEdge-Edge : {s e : MessageStatus} → RecoveryEdge s e → Edge s e
RecoveryEdge-Edge outcome_lost = lose

ReconciliationEdge-Edge : {s e : MessageStatus} → ReconciliationEdge s e → Edge s e
ReconciliationEdge-Edge acceptance_found = confirm

EdgeOf-Edge : {t u : Tables} (s : WorkerStep t u) (a b : MessageStatus) → EdgeOf s a b → Edge a b
EdgeOf-Edge (claim t ws mid is_locked lease now clock ids ok) a b e = ClaimEdge-Edge e
EdgeOf-Edge (expire t u ws mid generation is_locked h) a b e = ReturnEdge-Edge e
EdgeOf-Edge (hand_back t db ws mid generation due h) a b e = ReturnEdge-Edge e
EdgeOf-Edge (recover t seen now scope limit) a b e = RecoveryEdge-Edge e
EdgeOf-Edge (reconcile t env seen scope limit ids) a b e = ReconciliationEdge-Edge e
EdgeOf-Edge (elsewhere t u q) a b e = absurd e

WorkerReach-Walks : {t u : Tables} → WorkerReach t u → Walks t.db u.db
WorkerReach-Walks (stay t) = same_Walks t.db
WorkerReach-Walks (step t u v s r) =
    Moves-then (EdgeOf s) t.db u.db v.db (EdgeOf-Edge s) (WorkerStep-Moves s) (WorkerReach-Walks r)

step_edge :
    {t u : Tables} (s : WorkerStep t u) (m n : Message)
    → AtMostOne (EdgeOf s) m n
    → (n.status ≡ m.status) ⊎ (EdgeOf s m.status n.status × Edge m.status n.status)
step_edge s m n (inl e) = inl e
step_edge s m n (inr e) = inr (e, EdgeOf-Edge s m.status n.status e)

-- The workers implement the documented state machine, step by step. After any sequence of claims,
-- recoveries of expired claims, hand-backs, recoveries of stale executions and reconciliations, a
-- further step keeps every message, and each message's state, or changes the state along one edge of
-- the diagram, one that this worker may take: a claim from scheduled or retry to queued, the end of a
-- claim back, a recovery from sending to an unknown outcome, a reconciliation from that to sent. The
-- dispatch origin at the start is one that the table allows.
pub WorkerStep-Edge :
    (t u v : Tables) (ws mid : ℕ) (m : Message)
    → WorkerReach t u
    → (s : WorkerStep u v) → message_row t.db ws mid ≡ some m
    → OriginAllowed m
    → (n : Message) × (k : Message) × (message_row u.db ws mid ≡ some n)
      × (message_row v.db ws mid ≡ some k)
      × ((k.status ≡ n.status) ⊎ (EdgeOf s n.status k.status × Edge n.status k.status))
WorkerStep-Edge t u v ws mid m reach s row ok =
    let (n, there, walk, ok_n) = WorkerReach-Walks reach ws mid m row ok in
    let (k, then, change) = WorkerStep-Moves s ws mid n there in
    (n, k, there, then, step_edge s n k (change ok_n).0)

Edge-IsFinal : {s e : MessageStatus} → Edge s e → ¬ IsFinal s
Edge-IsFinal (stop s e open_state q) f = open_state f
Edge-IsFinal plan f = elim f [ ]
Edge-IsFinal dispatch_first f = elim f [ ]
Edge-IsFinal dispatch_retry f = elim f [ ]
Edge-IsFinal authorize f = elim f [ ]
Edge-IsFinal restore_first f = elim f [ ]
Edge-IsFinal restore_retry f = elim f [ ]
Edge-IsFinal accept f = elim f [ ]
Edge-IsFinal try_later f = elim f [ ]
Edge-IsFinal lose f = elim f [ ]
Edge-IsFinal confirm f = elim f [ ]
Edge-IsFinal disprove f = elim f [ ]

Walk-IsFinal : {s e : MessageStatus} → IsFinal s → Walk s e → e ≡ s
Walk-IsFinal f (done s) = refl
Walk-IsFinal f (more s t u e w) = absurd (Edge-IsFinal e f)

-- A message that is sent, failed, skipped or cancelled stays so.
pub final_stays :
    (t u : Tables) (ws mid : ℕ) (m : Message)
    → WorkerReach t u
    → message_row t.db ws mid ≡ some m
    → OriginAllowed m
    → IsFinal m.status
    → (n : Message) × (message_row u.db ws mid ≡ some n) × (n.status ≡ m.status)
final_stays t u ws mid m reach row ok f =
    let (n, there, walk, _) = WorkerReach-Walks reach ws mid m row ok in
    (n, there, Walk-IsFinal f walk)
