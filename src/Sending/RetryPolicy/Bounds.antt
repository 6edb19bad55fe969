-- ===== src/Sending/RetryPolicy/Bounds.antt =====
-- When a failed attempt is retried, and how long the wait is.
use email_outreach_platform.Base.{
  ℕ, zero, suc, ◌+◌, ◌*◌, ◌≤◌, ◌<◌, min, max, ◌≡◌, ◌≢◌, refl, ◌↔◌, ◌⊎◌, inl, inr, Bool, true, false,
  Option, none, some, arith, get_or,
}
use email_outreach_platform.Sending.RetryPolicy.{
  ErrorCategory, rate_limit, temporary_provider_error, network_error, known, is_retryable_category,
  RetryDecision, base_backoff, max_backoff, raw_backoff, backoff, wait_for_provider, past_deadline,
  past_horizon, RetryInput, classify_and_decide,
}

-- What it takes for an attempt to be retried.
pub record MayRetry (i : RetryInput) (c : ErrorCategory) : Type 0 where
  pub within_budget : i.retry_count < i.retry_budget
  pub before_deadline : (d : ℕ) → i.retry_deadline ≡ some d → i.now < d
  pub before_horizon : (a h : ℕ) → i.anchor_at ≡ some a → i.retry_horizon ≡ some h → i.now < a + h
  pub category : (c ≡ rate_limit) ⊎ ((c ≡ temporary_provider_error) ⊎ (c ≡ network_error))
  pub provider_agrees : i.is_retryable ≢ some false

abbrev pub Retries : RetryInput → Type 0
Retries i =
    (t : ℕ) × (classify_and_decide i
      ≡ some (record { should_retry = true; next_retry_at = some t; terminal_reason = none }))

category_lem :
    (c : ErrorCategory)
    → (is_retryable_category c ≡ true)
      ↔ ((c ≡ rate_limit) ⊎ ((c ≡ temporary_provider_error) ⊎ (c ≡ network_error)))
unfolding is_retryable_category
category_lem rate_limit = (λ h. inl refl, λ h. refl)
category_lem temporary_provider_error = (λ h. inr (inl refl), λ h. refl)
category_lem network_error = (λ h. inr (inr refl), λ h. refl)
category_lem c = (λ h. absurd (ground arith), λ h. ground arith)

deadline_lem :
    (now : ℕ) (o : Option ℕ) → (past_deadline now o ≡ false) ↔ ((d : ℕ) → o ≡ some d → now < d)
unfolding past_deadline
deadline_lem now none = (λ h d e. absurd (cc), λ h. refl)
deadline_lem now (some d) =
    (λ h e q. ground arith, λ h. let later : now < d = h d refl in ground arith)

horizon_lem :
    (now : ℕ) (o p : Option ℕ)
    → (past_horizon now o p ≡ false) ↔ ((a h : ℕ) → o ≡ some a → p ≡ some h → now < a + h)
unfolding past_horizon
horizon_lem now none p = (λ h a k e q. absurd (cc), λ h. refl)
horizon_lem now (some a) none = (λ h b k e q. absurd (cc), λ h. refl)
horizon_lem now (some a) (some k) =
    (λ h b l e q. ground arith, λ h. let later : now < a + k = h a k refl refl in ground arith)

agrees_lem : (o : Option Bool) → (get_or true o ≡ true) ↔ (o ≢ some false)
agrees_lem none = (λ h e. cc, λ h. refl)
agrees_lem (some true) = (λ h e. cc, λ h. refl)
agrees_lem (some false) = (λ h e. cc, λ h. absurd (h refl))

retry_needs :
    (i : RetryInput) (c : ErrorCategory)
    → i.error_category ≡ some (known c)
    → Retries i
    → MayRetry i c
unfolding classify_and_decide
retry_needs i c e h =
    let category : is_retryable_category c ≡ true = ground arith in
    let deadline : past_deadline i.now i.retry_deadline ≡ false = ground arith in
    let horizon : past_horizon i.now i.anchor_at i.retry_horizon ≡ false = ground arith in
    let agrees : get_or true i.is_retryable ≡ true = ground arith in
    record {
      within_budget = ground arith;
      before_deadline = (deadline_lem i.now i.retry_deadline).0 deadline;
      before_horizon = (horizon_lem i.now i.anchor_at i.retry_horizon).0 horizon;
      category = (category_lem c).0 category;
      provider_agrees = (agrees_lem i.is_retryable).0 agrees;
    }

retry_suffices :
    (i : RetryInput) (c : ErrorCategory)
    → i.error_category ≡ some (known c)
    → MayRetry i c
    → Retries i
unfolding classify_and_decide
retry_suffices i c e h =
    let budget = h.within_budget in
    let category = (category_lem c).1 h.category in
    let deadline = (deadline_lem i.now i.retry_deadline).1 h.before_deadline in
    let horizon = (horizon_lem i.now i.anchor_at i.retry_horizon).1 h.before_horizon in
    let agrees = (agrees_lem i.is_retryable).1 h.provider_agrees in
    (
      i.now + wait_for_provider (backoff i.retry_count i.jitter) i.provider_retry_after,
      ground arith,
    )

-- The wait before a retry: at least the base backoff and at least what the provider asked for, and
-- at most an hour unless the provider asked for more.
pub retry_wait :
    (i : RetryInput) (d : RetryDecision) (t : ℕ)
    → classify_and_decide i ≡ some d
    → d.next_retry_at ≡ some t
    → (i.now + base_backoff ≤ t)
      × (i.now + get_or 0 i.provider_retry_after ≤ t)
      × ((t ≤ i.now + max_backoff) ⊎ (t ≡ i.now + get_or 0 i.provider_retry_after))
unfolding classify_and_decide backoff
retry_wait i d t h e = ground arith

-- One more failure multiplies the unjittered backoff by 3/2 or more, while it is under half an hour.
raw_step : (n : ℕ) → n ≤ 6 → 3 * raw_backoff n ≤ 2 * raw_backoff (suc n)
unfolding raw_backoff
raw_step zero h = omega arith
raw_step (suc zero) h = omega arith
raw_step (suc (suc zero)) h = omega arith
raw_step (suc (suc (suc zero))) h = omega arith
raw_step (suc (suc (suc (suc zero)))) h = omega arith
raw_step (suc (suc (suc (suc (suc zero))))) h = omega arith
raw_step (suc (suc (suc (suc (suc (suc zero)))))) h = omega arith
raw_step (suc (suc (suc (suc (suc (suc (suc n))))))) h = absurd (omega arith)

module _ (a b j k : ℕ) (step : 3 * a ≤ 2 * b) (j_max : j ≤ 1200000) (k_min : 800000 ≤ k) where
  product_step : a * j ≤ b * k
  product_step = grind arith

-- A failure with a known category is retried exactly when its retries are fewer than the budget, the
-- present is before the deadline and before the end of the horizon, where there are these, its
-- category is a rate limit, a temporary provider error or a network error, and the provider does not
-- call it permanent.
pub retry_iff :
    (i : RetryInput) (c : ErrorCategory)
    → i.error_category ≡ some (known c)
    → Retries i ↔ MayRetry i c
retry_iff i c e = (retry_needs i c e, retry_suffices i c e)

clamp_mono :
    (x y : ℕ) → x ≤ y → min max_backoff (max base_backoff x) ≤ min max_backoff (max base_backoff y)
clamp_mono x y h = omega arith

-- From each of the first seven retries to the next, with `n` from 0 to 6, the backoff does not shrink
-- when the earlier random factor is at most 1.2 and the later one at least 0.8.
pub backoff-le-suc :
    (n j k : ℕ) → n ≤ 6 → j ≤ 1200000 → 800000 ≤ k → backoff n j ≤ backoff (suc n) k
unfolding backoff
backoff-le-suc n j k h j_max k_min =
    clamp_mono (raw_backoff n * j) (raw_backoff (suc n) * k)
      (product_step (raw_backoff n) (raw_backoff (suc n)) j k (raw_step n h) j_max k_min)
