-- ===== src/Sending/RetryPolicy/Tests.antt =====
-- Inputs for the theorems on the retry policy.
use email_outreach_platform.Base.{
  ◌+◌, ◌*◌, ◌≤◌, ◌≡◌, refl, ◌↔◌, ◌⊎◌, true, none, some, arith, get_or, second,
}
use email_outreach_platform.Sending.RetryPolicy.{
  rate_limit, known, retry_budget_exhausted, RetryDecision, stop, base_backoff, max_backoff,
  default_retry_horizon, raw_backoff, backoff, RetryInput, classify_and_decide,
}
use email_outreach_platform.Sending.RetryPolicy.Bounds.{
  MayRetry, Retries, retry_wait, retry_iff, backoff-le-suc,
}

-- A throttled send, ten seconds after rendering, with a Retry-After of two minutes.
abbrev throttled : RetryInput
throttled = record {
  error_category = some (known rate_limit);
  is_retryable = none;
  retry_count = 1;
  retry_budget = 3;
  now = 10 * second;
  provider_retry_after = some (120 * second);
  anchor_at = some 0;
  retry_deadline = none;
  retry_horizon = some default_retry_horizon;
  jitter = 1100000;
}

abbrev throttled_decision : RetryDecision
throttled_decision = record {
  should_retry = true;
  next_retry_at = some (130 * second);
  terminal_reason = none;
}

throttled_decided : classify_and_decide throttled ≡ some throttled_decision
unfolding classify_and_decide backoff raw_backoff
throttled_decided = refl

throttled_exhausted :
    classify_and_decide (record throttled { retry_count = 3 }) ≡ some (stop retry_budget_exhausted)
unfolding classify_and_decide
throttled_exhausted = refl

retry_iff_example : Retries throttled ↔ MayRetry throttled rate_limit
retry_iff_example = retry_iff throttled rate_limit refl

retry_wait_example :
    (10 * second + base_backoff ≤ 130 * second)
    × (10 * second + get_or 0 (some (120 * second)) ≤ 130 * second)
    × ((130 * second ≤ 10 * second + max_backoff)
        ⊎ (130 * second ≡ 10 * second + get_or 0 (some (120 * second))))
retry_wait_example = retry_wait throttled throttled_decision (130 * second) throttled_decided refl

backoff-le-suc_example : backoff 1 1200000 ≤ backoff 2 800000
backoff-le-suc_example = backoff-le-suc 1 1200000 800000 (omega arith) (omega arith) (omega arith)
