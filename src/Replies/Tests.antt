-- ===== src/Replies/Tests.antt =====
-- A reply to the second of two campaigns' messages.
use mathlib.Core.List.{Memᴰ}
use email_outreach_platform.Base.{
  ◌+◌, ◌≡◌, refl, ◌&&◌, some, [], ◌∷◌, map, leb, if◌then◌else◌, Text, codes, text_eq, is_present,
  contains, is_space,
}
use email_outreach_platform.Replies.Texts.{strip_of, strip, is_bracket, clean, normalize_message_id}
use email_outreach_platform.Replies.Matcher.{
  rfc_header_match, high, human_reply, NormalizedInboundMessage, OutboundMessageCandidate,
  ReplyMatchCandidate, filter, last_of, first_of, candidate_of, same_id, any_reference,
  one_enrollment, unmatched, matched_by, create_ambiguous_result, settle, is_corroborated,
  replies_to, refers_to, shares_thread, match_corroborated, match_reply,
}
use email_outreach_platform.Replies.Matcher.Evidence.{Ground, match_reply-Ground}

-- `str.lower` on the Latin letters of ASCII.
abbrev lower : Text → Text
lower = map (λ c. if leb 65 c && leb c 90 then c + 32 else c)

abbrev first_message : OutboundMessageCandidate
first_message = record {
  message_id = 7;
  campaign_id = 10;
  enrollment_id = 20;
  rfc_message_id = some (codes "<m1@example.com>");
  provider_thread_id = some (codes "t1");
  frozen_destination = codes "ann@example.org";
}

abbrev second_message : OutboundMessageCandidate
second_message = record first_message {
  message_id = 8;
  campaign_id = 11;
  enrollment_id = 21;
  rfc_message_id = some (codes "<M2@example.com>");
}

abbrev reply : NormalizedInboundMessage
reply = record {
  provider_thread_id = some (codes "t1");
  in_reply_to = some (codes " <m2@example.com> ");
  references = codes "<m1@example.com>" ∷ [];
  from_address = codes "Ann@example.org ";
  classification = human_reply;
}

abbrev second_matched : ReplyMatchCandidate
second_matched = record {
  outbound_message_id = 8;
  campaign_id = 11;
  enrollment_id = 21;
  evidence_type = rfc_header_match;
  confidence = high;
}

second_found :
    (match_reply lower reply (first_message ∷ second_message ∷ [])).matched_candidate
    ≡ some second_matched
unfolding match_reply match_corroborated settle matched_by candidate_of filter is_corroborated
    replies_to refers_to shares_thread same_id any_reference one_enrollment last_of first_of clean
    strip strip_of is_bracket normalize_message_id is_space contains text_eq is_present unmatched
    create_ambiguous_result
second_found = refl

match_reply-Ground_example :
    Ground lower reply
      (filter (is_corroborated lower reply) (first_message ∷ second_message ∷ []))
      second_matched
    × ((c : OutboundMessageCandidate)
        → Memᴰ c (filter (is_corroborated lower reply) (first_message ∷ second_message ∷ []))
        → Memᴰ c (first_message ∷ second_message ∷ [])
          × (clean lower c.frozen_destination ≡ clean lower reply.from_address))
match_reply-Ground_example =
    match_reply-Ground lower reply (first_message ∷ second_message ∷ []) second_matched second_found
