-- ===== src/RateLimiter/Queue.antt =====
-- Any row of requests to one limiter of src/rate_limiter.c, against queues without a bound below.
use cachefs.Prelude.{ℕ, ◌≡◌, true, false, List, [], ◌∷◌}
use cachefs.RateLimiter.{DoubleOps, RateLimiter, rate_limiter_idle_credit, elapsed_since}

-- What is relied on of double: `<` is a strict order, and rounding keeps what is not below. All of it
-- holds of infinities and of NaN too, with which no comparison holds.
pub record IsDoubleOps {R : Type 0} (d : DoubleOps R) : Type 0 where
  pub less_irrefl : (x : R) → d.less x x ≡ false
  pub less_trans : (x y z : R) → d.less x y ≡ true → d.less y z ≡ true → d.less x z ≡ true
  pub plus_mono : (x y a : R) → d.less x y ≡ false → d.less (d.plus x a) (d.plus y a) ≡ false
  pub minus_mono : (x y a : R) → d.less x y ≡ false → d.less (d.minus x a) (d.minus y a) ≡ false

module _ {R : Type 0} (d : DoubleOps R) where
  -- The work that is left of a queue at the time of its last request, if it stood at `kept` at the
  -- time `last`: time takes off what passes, and each request adds its size by the rate. Nothing
  -- bounds it below.
  abbrev pub queue : R → R → R → List (ℕ × R) → R
  queue rate last kept [] = kept
  queue rate last kept ((size, now) ∷ rs) =
      queue rate now (d.plus (d.minus kept (elapsed_since d last now)) (d.over size rate)) rs

  -- The queue of the requests from one of them on, with the idle credit to begin with.
  abbrev pub queue_from : R → ℕ × R → List (ℕ × R) → R
  queue_from rate (size, now) rs =
      queue rate now (d.plus (rate_limiter_idle_credit d) (d.over size rate)) rs

  -- A time is not below the queue from any of the requests on.
  abbrev pub CoversStarts : R → R → List (ℕ × R) → Type 0
  CoversStarts rate kept [] = Unit
  CoversStarts rate kept (r ∷ rs) =
      (d.less kept (queue_from rate r rs) ≡ false) × CoversStarts rate kept rs
