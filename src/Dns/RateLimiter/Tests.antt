-- ===== src/Dns/RateLimiter/Tests.antt =====
-- The limiter at ten ticks a second, two requests per second and a burst of two, with room for one
-- identity.
use squawk.Prelude.{text_eq, ◌+◌, ◌*◌, ◌≤◌, true, some, [], ◌∷◌, ◌≡◌, codes, arith, refl}
use squawk.Prelude.Int.{pos}
use squawk.Dns.RateLimiter.{
  TokenBucket, Backend, tokens_available, allow, allow_all, check_and_consume, evict, without,
  lookup_bucket,
}
use squawk.Dns.RateLimiter.Bounds.{allow_all-bound}

abbrev full : TokenBucket
full = record { capacity = 20; tokens = pos 20; refill_rate = 2; last_refill = 100 }

abbrev limiter : Backend
limiter = record { rps = 2; burst = 20; max_keys = 1; buckets = (codes "a", full) ∷ [] }

-- Three calls in one tick and one five ticks later: the third is denied.
burst_then_refill : (allow_all 10 full (100 ∷ 100 ∷ 100 ∷ 105 ∷ [])).0 ≡ 3
unfolding allow_all allow tokens_available
burst_then_refill = refl

allow_all-bound_example :
    (allow_all 10 full (100 ∷ 100 ∷ 100 ∷ 105 ∷ [])).0 * 10 + 100 * 2
    ≤ 20 + (allow_all 10 full (100 ∷ 100 ∷ 100 ∷ 105 ∷ [])).1.last_refill * 2
allow_all-bound_example =
    allow_all-bound 10 (100 ∷ 100 ∷ 100 ∷ 105 ∷ []) full 20 (refl, omega arith)
      (omega arith, (omega arith, (omega arith, (omega arith, tt))))

abbrev after_b : Backend
after_b = record limiter {
  buckets = (codes "b", record full { tokens = pos 10; last_refill = 105 }) ∷ [];
}

evicts : check_and_consume 10 limiter (codes "b") 105 ≡ some (true, after_b)
unfolding check_and_consume evict without lookup_bucket allow tokens_available text_eq
evicts = refl
