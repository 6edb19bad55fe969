-- ===== src/Replies/Matcher/Evidence.antt =====
-- What a match rests on.
use mathlib.Core.Path.{sym, subst}
use mathlib.Core.List.{Memᴰ}
use mathlib.Core.List.Memᴰ.{head, tail}
use email_outreach_platform.Base.{
  ℕ, ◌≡◌, refl, sym, ap, ◌∙◌, ◌⊎◌, inl, inr, Bool, true, false, some, List, [], ◌∷◌, arith,
  if◌then◌else◌, Bool-cases, Text, text_eq→eq,
}
use email_outreach_platform.Replies.Texts.{clean}
use email_outreach_platform.Replies.Matcher.{
  ReplyEvidenceType, rfc_header_match, provider_thread_corroborated, ReplyConfidence, high, medium,
  InboundClassification, NormalizedInboundMessage, OutboundMessageCandidate, ReplyMatchCandidate,
  ReplyMatchResult, filter, last_of, first_of, candidate_of, one_enrollment, unmatched, settle,
  is_corroborated, replies_to, refers_to, shares_thread, match_corroborated, match_reply,
}

abbrev Choice : Type 0
Choice = OutboundMessageCandidate → List OutboundMessageCandidate → OutboundMessageCandidate

-- A step of the matcher that settles on `k`: one of the candidates has the step's evidence, and
-- every candidate that has it is of the same enrollment.
pub record Settled (p : OutboundMessageCandidate → Bool) (evidence : ReplyEvidenceType)
    (confidence : ReplyConfidence) (cs : List OutboundMessageCandidate) (k : ReplyMatchCandidate)
    : Type 0 where
  pub answered : OutboundMessageCandidate
  pub member : Memᴰ answered cs
  pub has_evidence : p answered ≡ true
  pub made : candidate_of answered evidence confidence ≡ k
  pub alone :
      (c : OutboundMessageCandidate) → Memᴰ c cs → p c ≡ true → c.enrollment_id ≡ k.enrollment_id

mem_kept :
    (p : OutboundMessageCandidate → Bool) (c d : OutboundMessageCandidate)
    (ds : List OutboundMessageCandidate) (b : Bool)
    → p d ≡ b
    → (Memᴰ c (filter p ds) → Memᴰ c ds × (p c ≡ true))
    → Memᴰ c (if b then d ∷ filter p ds else filter p ds)
    → Memᴰ c (d ∷ ds) × (p c ≡ true)
mem_kept p c d ds true e f (head q) = (head q, ap p q ∙ e)
mem_kept p c d ds true e f (tail m) = (tail (f m).0, (f m).1)
mem_kept p c d ds false e f m = (tail (f m).0, (f m).1)

mem_filter :
    (p : OutboundMessageCandidate → Bool) (c : OutboundMessageCandidate)
    (cs : List OutboundMessageCandidate)
    → Memᴰ c (filter p cs)
    → Memᴰ c cs × (p c ≡ true)
unfolding filter
mem_filter p c [] m = elim m [ ]
mem_filter p c (d ∷ ds) m = mem_kept p c d ds (p d) refl (mem_filter p c ds) m

filter_mem :
    (p : OutboundMessageCandidate → Bool) (c : OutboundMessageCandidate)
    (cs : List OutboundMessageCandidate)
    → Memᴰ c cs
    → p c ≡ true
    → Memᴰ c (filter p cs)
unfolding filter
filter_mem p c [] m h = elim m [ ]
filter_mem p c (d ∷ ds) (head e) h = rw (ap p (sym e) ∙ h) (head e)
filter_mem p c (d ∷ ds) (tail m) h = elim (Bool-cases (p d)) [
  | inl kept ↦ rw kept (tail (filter_mem p c ds m h))
  | inr dropped ↦ rw dropped (filter_mem p c ds m h)
]

one_enrollment_lem :
    (e : ℕ) (cs : List OutboundMessageCandidate) (c : OutboundMessageCandidate)
    → one_enrollment e cs ≡ true
    → Memᴰ c cs
    → c.enrollment_id ≡ e
unfolding one_enrollment
one_enrollment_lem e [] c h m = elim m [ ]
one_enrollment_lem e (d ∷ ds) c h (head q) = rw q (ground arith)
one_enrollment_lem e (d ∷ ds) c h (tail m) = one_enrollment_lem e ds c (ground arith) m

first_mem :
    (c : OutboundMessageCandidate) (cs : List OutboundMessageCandidate)
    → Memᴰ (first_of c cs) (c ∷ cs)
unfolding first_of
first_mem c cs = head refl

last_mem :
    (c : OutboundMessageCandidate) (cs : List OutboundMessageCandidate)
    → Memᴰ (last_of c cs) (c ∷ cs)
unfolding last_of
last_mem c [] = head refl
last_mem c (d ∷ ds) = tail (last_mem d ds)

module _ (classification : InboundClassification) (choose : Choice)
    (chosen : (c : OutboundMessageCandidate) (cs : List OutboundMessageCandidate)
      → Memᴰ (choose c cs) (c ∷ cs))
    (evidence : ReplyEvidenceType) (confidence : ReplyConfidence)
    (p : OutboundMessageCandidate → Bool) (cs : List OutboundMessageCandidate)
    (next : ReplyMatchResult) (k : ReplyMatchCandidate) where
  enrolled :
      (c : OutboundMessageCandidate) (rest : List OutboundMessageCandidate)
      (x : OutboundMessageCandidate)
      → one_enrollment c.enrollment_id rest ≡ true
      → Memᴰ x (c ∷ rest)
      → x.enrollment_id ≡ c.enrollment_id
  enrolled c rest x h (head e) = ap (λ (y : OutboundMessageCandidate). y.enrollment_id) e
  enrolled c rest x h (tail m) = one_enrollment_lem c.enrollment_id rest x h m

  found_lem :
      (c : OutboundMessageCandidate) (rest : List OutboundMessageCandidate)
      → filter p cs ≡ c ∷ rest
      → one_enrollment c.enrollment_id rest ≡ true
      → candidate_of (choose c rest) evidence confidence ≡ k
      → Settled p evidence confidence cs k
  unfolding candidate_of
  found_lem c rest e h made =
      let inside = mem_filter p (choose c rest) cs (rw e (chosen c rest)) in
      record {
        answered = choose c rest;
        member = inside.0;
        has_evidence = inside.1;
        made = made;
        alone = λ x m q.
            enrolled c rest x h (subst (λ l. Memᴰ x l) e (filter_mem p x cs m q))
            ∙ sym (enrolled c rest (choose c rest) h (chosen c rest))
            ∙ ap (λ (y : ReplyMatchCandidate). y.enrollment_id) made;
      }

  -- A step settles on `k`, or it has no candidate and a later step does.
  settle_lem :
      (found : List OutboundMessageCandidate)
      → filter p cs ≡ found
      → (settle classification choose evidence confidence found next).matched_candidate ≡ some k
      → Settled p evidence confidence cs k ⊎ ((found ≡ []) × (next.matched_candidate ≡ some k))
  unfolding settle
  settle_lem [] e h = inr (refl, h)
  settle_lem (c ∷ rest) e h = elim (Bool-cases (one_enrollment c.enrollment_id rest)) [
    | inl one ↦ inl (found_lem c rest e one (ground arith))
    | inr more ↦ absurd (ground arith)
  ]

module _ (lower : Text → Text) (inbound : NormalizedInboundMessage) where
  abbrev corroborated : List OutboundMessageCandidate → List OutboundMessageCandidate
  corroborated = filter (is_corroborated lower inbound)

  -- The ground of a match, among candidates whose destination is the sender: the message replied to;
  -- else a referenced message; else a message of the thread.
  pub data Ground (cs : List OutboundMessageCandidate) (k : ReplyMatchCandidate) : Type 0 where
    by_reply : Settled (replies_to lower inbound) rfc_header_match high cs k → Ground cs k
    by_reference :
        filter (replies_to lower inbound) cs ≡ []
        → Settled (refers_to lower inbound) rfc_header_match high cs k
        → Ground cs k
    by_thread :
        filter (replies_to lower inbound) cs ≡ []
        → filter (refers_to lower inbound) cs ≡ []
        → Settled (shares_thread lower inbound) provider_thread_corroborated medium cs k
        → Ground cs k

  corroborated_lem :
      (c : OutboundMessageCandidate)
      → is_corroborated lower inbound c ≡ true
      → clean lower c.frozen_destination ≡ clean lower inbound.from_address
  unfolding is_corroborated
  corroborated_lem c h =
      text_eq→eq (clean lower c.frozen_destination) (clean lower inbound.from_address) h

  corroborated-Ground :
      (cs : List OutboundMessageCandidate) (k : ReplyMatchCandidate)
      → (match_corroborated lower inbound cs).matched_candidate ≡ some k
      → Ground cs k
  unfolding match_corroborated unmatched
  corroborated-Ground cs k h =
      elim (settle_lem inbound.classification first_of first_mem rfc_header_match high
        (replies_to lower inbound) cs _ k (filter (replies_to lower inbound) cs) refl h) [
          | inl s ↦ by_reply s
          | inr (no_reply, h2) ↦
              elim (settle_lem inbound.classification last_of last_mem rfc_header_match high
                (refers_to lower inbound) cs _ k (filter (refers_to lower inbound) cs) refl h2) [
                  | inl s ↦ by_reference no_reply s
                  | inr (no_reference, h3) ↦
                      elim (settle_lem inbound.classification last_of last_mem
                        provider_thread_corroborated medium (shares_thread lower inbound) cs _ k
                        (filter (shares_thread lower inbound) cs) refl h3) [
                          | inl s ↦ by_thread no_reply no_reference s
                          | inr (no_thread, h4) ↦ absurd (cc)
                        ]
                ]
        ]

  -- A match names one of the given candidates whose destination, cleaned up, is the sender's address.
  -- It rests on the strongest evidence that any such candidate has (the message replied to, else a
  -- referenced one, else the thread), and all candidates with that evidence are of one enrollment.
  pub match_reply-Ground :
      (cs : List OutboundMessageCandidate) (k : ReplyMatchCandidate)
      → (match_reply lower inbound cs).matched_candidate ≡ some k
      → Ground (filter (is_corroborated lower inbound) cs) k
        × ((c : OutboundMessageCandidate)
            → Memᴰ c (filter (is_corroborated lower inbound) cs)
            → Memᴰ c cs × (clean lower c.frozen_destination ≡ clean lower inbound.from_address))
  unfolding match_reply unmatched
  match_reply-Ground cs k h = (
    corroborated-Ground (corroborated cs) k (ground arith),
    λ c m.
        let (here, same) = mem_filter (is_corroborated lower inbound) c cs m in
        (here, corroborated_lem c same),
  )
