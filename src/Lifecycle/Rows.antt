-- ===== src/Lifecycle/Rows.antt =====
-- Changes of message rows that follow the diagram.
use email_outreach_platform.Base.{
  ℕ, ◌≡◌, refl, sym, ap, ◌∙◌, ◌⊎◌, inl, inr, some, arith, ◌==◌, Bool-cases,
}
use email_outreach_platform.Sending.Context.{MessageStatus, retry_scheduled}
use email_outreach_platform.Sending.Store.{Message, Db, message_row, put_message}
use email_outreach_platform.Sending.Stored.{found_row, stored_row, some_injective}
use email_outreach_platform.Lifecycle.{Edge, Walk, done, more}

-- messages_dispatch_origin_check
abbrev pub OriginAllowed : Message → Type 0
OriginAllowed m =
    (o : MessageStatus)
    → m.dispatch_origin ≡ some o
    → (o ≡ MessageStatus.scheduled) ⊎ (o ≡ retry_scheduled)

-- The state is as it was, or has changed along one edge of `E`.
abbrev pub AtMostOne : (MessageStatus → MessageStatus → Type 0) → Message → Message → Type 0
AtMostOne E m n = (n.status ≡ m.status) ⊎ E m.status n.status

abbrev pub RowStep : (MessageStatus → MessageStatus → Type 0) → Message → Message → Type 0
RowStep E m n = OriginAllowed m → AtMostOne E m n × OriginAllowed n

-- Every message is still there, and has made a step.
abbrev pub Moves : (MessageStatus → MessageStatus → Type 0) → Db → Db → Type 0
Moves E db after =
    (ws mid : ℕ) (m : Message)
    → message_row db ws mid ≡ some m
    → (n : Message) × (message_row after ws mid ≡ some n) × RowStep E m n

-- Every message is still there, and has walked along the diagram.
abbrev pub Walks : Db → Db → Type 0
Walks db after =
    (ws mid : ℕ) (m : Message)
    → message_row db ws mid ≡ some m
    → OriginAllowed m
    → (n : Message) × (message_row after ws mid ≡ some n) × Walk m.status n.status × OriginAllowed n

pub same_Walks : (db : Db) → Walks db db
same_Walks db = λ ws mid m row ok. (m, row, done m.status, ok)

module _ (E : MessageStatus → MessageStatus → Type 0) where
  pub same_row : (m : Message) → RowStep E m m
  same_row m = λ h. (inl refl, h)

  pub same_messages : (db after : Db) → after.messages ≡ db.messages → Moves E db after
  unfolding message_row
  same_messages db after e = λ ws mid m row. (m, rw e row, same_row m)

  pub put-Moves :
      (db : Db) (ws mid : ℕ) (m n : Message)
      → message_row db ws mid ≡ some m
      → n.workspace_id ≡ m.workspace_id
      → RowStep E m n
      → Moves E db (put_message db mid n)
  unfolding message_row put_message
  put-Moves db ws mid m n row same_ws change = λ w k p old. elim (Bool-cases (k == mid)) [
    | inr e ↦ (p, rw e old, same_row p)
    | inl e ↦
        let same_id : k ≡ mid = ground arith in
        let (stored, of_w) = found_row _ w p old in
        let same : p ≡ m =
          some_injective p m (sym stored ∙ ap db.messages same_id ∙ (found_row _ ws m row).0) in
        (n, rw e (stored_row _ w n refl (same_ws ∙ rw same at of_w)), rw same change)
  ]

  Walk-on :
      (m n : Message) (s : MessageStatus)
      → ((a b : MessageStatus) → E a b → Edge a b)
      → AtMostOne E m n
      → Walk n.status s
      → Walk m.status s
  Walk-on m n s in_edge (inl e) w = rw (sym e) w
  Walk-on m n s in_edge (inr e) w = more m.status n.status s (in_edge _ _ e) w

  -- A step and a walk are a walk.
  pub Moves-then :
      (db middle after : Db)
      → ((a b : MessageStatus) → E a b → Edge a b)
      → Moves E db middle
      → Walks middle after
      → Walks db after
  Moves-then db middle after in_edge h k = λ ws mid m row ok.
      let (n, there, change) = h ws mid m row in
      let (one, ok_n) = change ok in
      let (o, then, walk, ok_o) = k ws mid n there ok_n in
      (o, then, Walk-on m n o.status in_edge one walk, ok_o)
