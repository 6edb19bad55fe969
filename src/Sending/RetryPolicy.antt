-- ===== src/Sending/RetryPolicy.antt =====
-- backend/app/modules/sending/retry_policy.py and the error categories of
-- backend/app/modules/mailboxes/providers/base.py. The random factor of the backoff is an argument,
-- in millionths, so that a whole number of seconds times the factor is a whole number of
-- microseconds; arithmetic is exact where Python rounds to a float.
pub mod Bounds
mod Tests
use email_outreach_platform.Base.{
  ℕ, ◌+◌, ◌*◌, ◌^◌, min, max, String, Bool, true, false, ◌&&◌, Option, none, some, ltb, leb,
  if◌then◌else◌, get_or, second,
}

pub data ErrorCategory : Type 0 where
  auth_failure insufficient_scope rate_limit temporary_provider_error : ErrorCategory
  permanent_recipient_failure policy_rejection network_error unknown_outcome : ErrorCategory

-- The text of a category: a member of the enum, or a text that `ErrorCategory(...)` refuses. The
-- empty text counts as no text in the source and has no value here.
pub data CategoryText : Type 0 where
  known : ErrorCategory → CategoryText
  other : String → CategoryText

-- `_RETRYABLE_CATEGORIES`
unfoldable pub is_retryable_category : ErrorCategory → Bool
is_retryable_category rate_limit = true
is_retryable_category temporary_provider_error = true
is_retryable_category network_error = true
is_retryable_category _ = false

-- The texts of `terminal_reason`; `lower_name` is a category's name in lower case.
pub data TerminalReason : Type 0 where
  retry_budget_exhausted retry_deadline_exceeded non_retryable : TerminalReason
  lower_name : ErrorCategory → TerminalReason

pub record RetryDecision : Type 0 where
  pub should_retry : Bool
  pub next_retry_at : Option ℕ
  pub terminal_reason : Option TerminalReason

abbrev pub stop : TerminalReason → RetryDecision
stop r = record { should_retry = false; next_retry_at = none; terminal_reason = some r }

abbrev pub base_backoff : ℕ
base_backoff = 30 * second

abbrev pub max_backoff : ℕ
max_backoff = 3600 * second

abbrev pub default_retry_horizon : ℕ
default_retry_horizon = 48 * 3600 * second

-- `raw_backoff`, in seconds.
unfoldable pub raw_backoff : ℕ → ℕ
raw_backoff retry_count = min 3600 (30 * 2 ^ retry_count)

-- The backoff in microseconds, for a factor in millionths.
unfoldable pub backoff : ℕ → ℕ → ℕ
backoff retry_count jitter = min max_backoff (max base_backoff (raw_backoff retry_count * jitter))

-- A provider's wait that is absent or not positive counts as 0.
unfoldable pub wait_for_provider : ℕ → Option ℕ → ℕ
wait_for_provider b none = b
wait_for_provider b (some retry_after) = if ltb 0 retry_after then max b retry_after else b

-- The guards on the instants: `retry_deadline`, then `anchor_at` with `retry_horizon`.
unfoldable pub past_deadline : ℕ → Option ℕ → Bool
past_deadline now none = false
past_deadline now (some deadline) = leb deadline now

unfoldable pub past_horizon : ℕ → Option ℕ → Option ℕ → Bool
past_horizon now (some anchor) (some horizon) = leb (anchor + horizon) now
past_horizon now _ _ = false

-- The last part of the function, once the category is known to be retryable or not.
unfoldable pub decide_category :
    Option ErrorCategory → Option Bool → ℕ → ℕ → Option ℕ → ℕ → RetryDecision
unfolding is_retryable_category
decide_category none is_retryable retry_count now retry_after jitter = stop non_retryable
decide_category (some c) is_retryable retry_count now retry_after jitter =
    if is_retryable_category c && get_or true is_retryable
    then record {
      should_retry = true;
      next_retry_at = some (now + wait_for_provider (backoff retry_count jitter) retry_after);
      terminal_reason = none;
    }
    else stop (lower_name c)

-- The arguments of `classify_and_decide`, with the random factor that it draws.
pub record RetryInput : Type 0 where
  pub error_category : Option CategoryText
  pub is_retryable : Option Bool
  pub retry_count : ℕ
  pub retry_budget : ℕ
  pub now : ℕ
  pub provider_retry_after : Option ℕ
  pub anchor_at : Option ℕ
  pub retry_deadline : Option ℕ
  pub retry_horizon : Option ℕ
  pub jitter : ℕ

-- `none` is the ValueError of `ErrorCategory(error_category)`.
unfoldable pub decide_text : RetryInput → Option CategoryText → Option RetryDecision
decide_text i none =
    some (decide_category none i.is_retryable i.retry_count i.now i.provider_retry_after i.jitter)
decide_text i (some (known c)) =
    some
      (decide_category (some c) i.is_retryable i.retry_count i.now i.provider_retry_after i.jitter)
decide_text i (some (other _)) = none

unfoldable pub classify_and_decide : RetryInput → Option RetryDecision
unfolding decide_text decide_category past_deadline past_horizon wait_for_provider
classify_and_decide i =
    if leb i.retry_budget i.retry_count
    then some (stop retry_budget_exhausted)
    else if past_deadline i.now i.retry_deadline
    then some (stop retry_deadline_exceeded)
    else if past_horizon i.now i.anchor_at i.retry_horizon
    then some (stop retry_deadline_exceeded)
    else decide_text i i.error_category
