-- ===== src/RateLimiter/Tests.antt =====
-- src/rate_limiter.c at concrete inputs, with tenths of a second from -0.2 up as the numbers.
use cachefs.Prelude.{List, ℕ, ◌+◌, ◌-◌, ◌*◌, ◌/◌, ◌≡◌, refl, [], ◌∷◌, ltb}
use cachefs.RateLimiter.{
  DoubleOps, RateLimiter, rate_limiter_idle_credit, rate_limiter_init, elapsed_since, time_left,
  rate_limiter_wait_nosleep, wait_all,
}

-- n stands for n - 2 tenths, so that a rate of 12 is one unit in a second.
abbrev tenths : DoubleOps ℕ
tenths = record {
  zero = 2;
  minus_tenths = λ n. 2 - n;
  plus = λ x y. x + y - 2;
  minus = λ x y. x + 2 - y;
  over = λ n rate. 2 + 100 * n / (rate - 2);
  less = ltb;
}

abbrev limiter : RateLimiter ℕ
limiter = record { rate = 12; last_modified = 50; accumulated_sleep_time = 0 }

starts : rate_limiter_init tenths 12 50 ≡ limiter
unfolding rate_limiter_init rate_limiter_idle_credit
starts = refl

-- Two requests at one time and one ten seconds later, when the queue has gone down to the credit.
abbrev requests : List (ℕ × ℕ)
requests = (1, 50) ∷ (2, 50) ∷ (1, 150) ∷ []

-- The second of two requests at one time is told to wait 2.8 seconds.
two_waits : (wait_all tenths limiter ((1, 50) ∷ (2, 50) ∷ [])).accumulated_sleep_time ≡ 30
unfolding wait_all rate_limiter_wait_nosleep elapsed_since time_left rate_limiter_idle_credit
two_waits = refl

-- After a pause no more than the credit of 0.2 seconds is taken off.
after_pause : (wait_all tenths limiter requests).accumulated_sleep_time ≡ 10
unfolding wait_all rate_limiter_wait_nosleep elapsed_since time_left rate_limiter_idle_credit
after_pause = refl
