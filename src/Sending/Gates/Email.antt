-- ===== src/Sending/Gates/Email.antt =====
-- The regular expression `^[^@\s]+@[^@\s]+\.[^@\s]+$` under `re.match`.
use email_outreach_platform.Base.{ℕ, Bool, false, not, ◌&&◌, ◌||◌, [], ◌∷◌, ◌==◌, Text, is_space}

-- `[^@\s]`
unfoldable pub is_plain : ℕ → Bool
is_plain c = not (c == b'@') && not (is_space c)

-- One or more plain characters to the end, where `$` also matches before a final line feed.
unfoldable pub ends_plain : Text → Bool
ends_plain [] = false
ends_plain (c ∷ []) = is_plain c
ends_plain (c ∷ d ∷ []) = is_plain c && (is_plain d || d == 10)
ends_plain (c ∷ rest) = is_plain c && ends_plain rest

-- After one plain character of the domain: more of them, or a dot and the last part.
unfoldable pub domain_rest : Text → Bool
domain_rest [] = false
domain_rest (c ∷ rest) = (c == b'.' && ends_plain rest) || (is_plain c && domain_rest rest)

unfoldable pub domain : Text → Bool
domain [] = false
domain (c ∷ rest) = is_plain c && domain_rest rest

unfoldable pub local_rest : Text → Bool
local_rest [] = false
local_rest (c ∷ rest) = (c == b'@' && domain rest) || (is_plain c && local_rest rest)

unfoldable pub is_email : Text → Bool
is_email [] = false
is_email (c ∷ rest) = is_plain c && local_rest rest
