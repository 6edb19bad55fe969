-- ===== src/Replies/Texts.antt =====
-- The text functions of the reply matcher: `str.strip`, and `normalize_message_id` of
-- backend/app/modules/mailboxes/providers/message_builder.py. `lower` stands for `str.lower`, whose
-- tables are Unicode's.
use email_outreach_platform.Base.{
  ℕ, Bool, ◌||◌, Option, none, some, [], ◌∷◌, ◌==◌, if◌then◌else◌, Text, is_space,
}

trim_start : (ℕ → Bool) → Text → Text
trim_start p [] = []
trim_start p (c ∷ s) = let rest = trim_start p s in if p c then rest else c ∷ s

keep_end : (ℕ → Bool) → ℕ → Text → Text
keep_end p c [] = if p c then [] else c ∷ []
keep_end p c (d ∷ rest) = c ∷ d ∷ rest

trim_end : (ℕ → Bool) → Text → Text
unfolding keep_end
trim_end p [] = []
trim_end p (c ∷ s) = keep_end p c (trim_end p s)

-- `strip` of the code points that `p` holds of.
unfoldable pub strip_of : (ℕ → Bool) → Text → Text
unfolding trim_start trim_end
strip_of p t = trim_end p (trim_start p t)

unfoldable pub strip : Text → Text
unfolding is_space
strip t = strip_of is_space t

unfoldable pub is_bracket : ℕ → Bool
is_bracket c = c == 60 || c == 62

non_empty : Text → Option Text
non_empty [] = none
non_empty (c ∷ s) = some (c ∷ s)

module _ (lower : Text → Text) where
  -- `(value or "").strip().lower()`
  unfoldable pub clean : Text → Text
  clean t = lower (strip t)

  unfoldable pub normalize_message_id : Option Text → Option Text
  unfolding non_empty
  normalize_message_id none = none
  normalize_message_id (some []) = none
  normalize_message_id (some (c ∷ s)) =
      non_empty (lower (strip (strip_of is_bracket (strip (c ∷ s)))))
