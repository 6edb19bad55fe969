-- ===== src/Replies/Matcher.antt =====
-- `ReplyMatcher.match` of backend/app/modules/replies/matcher.py, with the fields of
-- backend/app/modules/replies/schemas.py that it reads.
pub mod Evidence
use email_outreach_platform.Base.{
  ℕ, Bool, true, false, ◌&&◌, ◌||◌, Option, none, some, List, [], ◌∷◌, map, ◌==◌, if◌then◌else◌,
  Text, text_eq, is_present,
}
use email_outreach_platform.Replies.Texts.{strip, clean, normalize_message_id}

pub data ReplyEvidenceType : Type 0 where
  rfc_header_match provider_thread_corroborated ambiguous_candidate : ReplyEvidenceType

pub data ReplyConfidence : Type 0 where
  high medium low : ReplyConfidence

pub data AssociationStatus : Type 0 where
  matched unresolved : AssociationStatus

pub data InboundClassification : Type 0 where
  human_reply out_of_office automated bounce unresolved : InboundClassification

pub record NormalizedInboundMessage : Type 0 where
  pub provider_thread_id : Option Text
  pub in_reply_to : Option Text
  pub references : List Text
  pub from_address : Text
  pub classification : InboundClassification

pub record OutboundMessageCandidate : Type 0 where
  pub message_id : ℕ
  pub campaign_id : ℕ
  pub enrollment_id : ℕ
  pub rfc_message_id : Option Text
  pub provider_thread_id : Option Text
  pub frozen_destination : Text

pub record ReplyMatchCandidate : Type 0 where
  pub outbound_message_id : ℕ
  pub campaign_id : ℕ
  pub enrollment_id : ℕ
  pub evidence_type : ReplyEvidenceType
  pub confidence : ReplyConfidence

pub record ReplyMatchResult : Type 0 where
  pub is_matched : Bool
  pub association_status : AssociationStatus
  pub matched_candidate : Option ReplyMatchCandidate
  pub candidates : List ReplyMatchCandidate
  pub classification : InboundClassification

unfoldable pub filter {ℓ} : {A : Type ℓ} → (A → Bool) → List A → List A
filter p [] = []
filter p (x ∷ xs) = if p x then x ∷ filter p xs else filter p xs

unfoldable pub last_of {ℓ} : {A : Type ℓ} → A → List A → A
last_of x [] = x
last_of x (y ∷ ys) = last_of y ys

unfoldable pub first_of {ℓ} : {A : Type ℓ} → A → List A → A
first_of x xs = x

unfoldable pub candidate_of :
    OutboundMessageCandidate → ReplyEvidenceType → ReplyConfidence → ReplyMatchCandidate
candidate_of c evidence confidence = record {
  outbound_message_id = c.message_id;
  campaign_id = c.campaign_id;
  enrollment_id = c.enrollment_id;
  evidence_type = evidence;
  confidence = confidence;
}

unfoldable pub same_id : Option Text → Option Text → Bool
same_id (some a) (some b) = text_eq a b
same_id _ _ = false

unfoldable pub any_reference : (Text → Option Text) → List Text → Option Text → Bool
unfolding same_id
any_reference f [] id = false
any_reference f (r ∷ rs) id = same_id (f r) id || any_reference f rs id

-- `len({c.enrollment_id ...}) == 1` for a list that begins with a candidate of this enrollment
unfoldable pub one_enrollment : ℕ → List OutboundMessageCandidate → Bool
one_enrollment e [] = true
one_enrollment e (c ∷ cs) = (c.enrollment_id == e) && one_enrollment e cs

module _ (classification : InboundClassification) where
  unfoldable pub unmatched : List ReplyMatchCandidate → ReplyMatchResult
  unmatched candidates = record {
    is_matched = false;
    association_status = AssociationStatus.unresolved;
    matched_candidate = none;
    candidates = candidates;
    classification = classification;
  }

  unfoldable pub matched_by : ReplyMatchCandidate → ReplyMatchResult
  matched_by k = record {
    is_matched = true;
    association_status = matched;
    matched_candidate = some k;
    candidates = k ∷ [];
    classification = classification;
  }

  unfoldable pub create_ambiguous_result : List OutboundMessageCandidate → ReplyMatchResult
  unfolding candidate_of unmatched
  create_ambiguous_result cs = unmatched (map (λ c. candidate_of c ambiguous_candidate low) cs)

  -- The candidates of one step: the chosen one when all are of one enrollment, none for the next step.
  unfoldable pub settle :
      (OutboundMessageCandidate → List OutboundMessageCandidate → OutboundMessageCandidate)
      → ReplyEvidenceType
      → ReplyConfidence
      → List OutboundMessageCandidate
      → ReplyMatchResult
      → ReplyMatchResult
  unfolding matched_by candidate_of create_ambiguous_result
  settle choose evidence confidence [] next = next
  settle choose evidence confidence (c ∷ cs) next =
      if one_enrollment c.enrollment_id cs
      then matched_by (candidate_of (choose c cs) evidence confidence)
      else create_ambiguous_result (c ∷ cs)

module _ (lower : Text → Text) (inbound : NormalizedInboundMessage) where
  unfoldable pub is_corroborated : OutboundMessageCandidate → Bool
  is_corroborated c = text_eq (clean lower c.frozen_destination) (clean lower inbound.from_address)

  unfoldable pub replies_to : OutboundMessageCandidate → Bool
  replies_to c =
      same_id (normalize_message_id lower inbound.in_reply_to)
        (normalize_message_id lower c.rfc_message_id)

  unfoldable pub refers_to : OutboundMessageCandidate → Bool
  refers_to c =
      any_reference (λ r. normalize_message_id lower (some r)) inbound.references
        (normalize_message_id lower c.rfc_message_id)

  thread_of : Option Text → Option Text
  thread_of none = none
  thread_of (some []) = none
  thread_of (some (c ∷ s)) = some (strip (c ∷ s))

  unfoldable pub shares_thread : OutboundMessageCandidate → Bool
  unfolding thread_of
  shares_thread c = same_id (thread_of inbound.provider_thread_id) (thread_of c.provider_thread_id)

  -- The steps on the corroborated candidates.
  unfoldable pub match_corroborated : List OutboundMessageCandidate → ReplyMatchResult
  unfolding first_of
  match_corroborated cs =
      settle inbound.classification first_of rfc_header_match high (filter replies_to cs) (
        settle inbound.classification last_of rfc_header_match high (filter refers_to cs) (
          settle inbound.classification last_of provider_thread_corroborated medium
            (filter shares_thread cs) (unmatched inbound.classification [])))

  -- An empty list of candidates or of corroborated ones goes through every step and is unresolved.
  unfoldable pub match_reply : List OutboundMessageCandidate → ReplyMatchResult
  match_reply candidates =
      if is_present (some (clean lower inbound.from_address))
      then match_corroborated (filter is_corroborated candidates)
      else unmatched inbound.classification []
