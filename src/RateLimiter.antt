-- ===== src/RateLimiter.antt =====
-- src/rate_limiter.c: a limiter keeps the time that its callers have to wait. The numbers and their
-- operations are those of double; a call of the limiter's clock is an argument, and the mutex makes a
-- call one step. Reading the clock and sleeping are calls of the system.
pub mod Queue
mod Tests
use cachefs.Prelude.{ℕ, Bool, List, [], ◌∷◌, if◌then◌else◌}

pub record DoubleOps (R : Type 0) : Type 0 where
  pub zero : R
  -- The number that -0.n stands for, n a digit.
  pub minus_tenths : ℕ → R
  pub plus : R → R → R
  pub minus : R → R → R
  -- A size_t by a double.
  pub over : ℕ → R → R
  pub less : R → R → Bool

pub record RateLimiter (R : Type 0) : Type 0 where
  pub rate : R
  pub last_modified : R
  pub accumulated_sleep_time : R

module _ {R : Type 0} (d : DoubleOps R) where
  unfoldable pub rate_limiter_idle_credit : R
  rate_limiter_idle_credit = d.minus_tenths 2

  unfoldable pub rate_limiter_init : R → R → RateLimiter R
  rate_limiter_init rate now = record {
    rate = rate;
    last_modified = now;
    accumulated_sleep_time = rate_limiter_idle_credit;
  }

  unfoldable pub elapsed_since : R → R → R
  elapsed_since last now =
      let elapsed = d.minus now last in if d.less elapsed d.zero then d.zero else elapsed

  -- What is left to wait, but no more than the credit below 0.
  unfoldable pub time_left : R → R → R
  time_left accumulated elapsed =
      let left = d.minus accumulated elapsed in
      if d.less left rate_limiter_idle_credit then rate_limiter_idle_credit else left

  unfoldable pub rate_limiter_wait_nosleep : RateLimiter R → ℕ → R → R × RateLimiter R
  rate_limiter_wait_nosleep limiter size now =
      let time_to_add = d.over size limiter.rate in
      let time_to_sleep =
        d.plus (time_left limiter.accumulated_sleep_time (elapsed_since limiter.last_modified now))
          time_to_add in
      (
        time_to_sleep,
        record limiter { accumulated_sleep_time = time_to_sleep; last_modified = now },
      )

  -- Several requests, each a size and the time of the call.
  unfoldable pub wait_all : RateLimiter R → List (ℕ × R) → RateLimiter R
  wait_all limiter [] = limiter
  wait_all limiter ((size, now) ∷ requests) =
      wait_all (rate_limiter_wait_nosleep limiter size now).1 requests
