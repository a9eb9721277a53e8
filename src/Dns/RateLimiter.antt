-- ===== src/Dns/RateLimiter.antt =====
-- dns-server/app/services/rate_limiter.py, the bucket and the backend in memory. `unit` is the
-- number of clock ticks in a second: times are whole ticks, an amount of tokens is a whole number of
-- 1/`unit` tokens, and the rate is a whole number of requests per second. The rounding of floats
-- is left out.
pub mod Bounds
mod Tests
use squawk.Prelude.{
  suc, ℕ, ◌*◌, Bool, true, false, not, ◌&&◌, ◌||◌, Option, none, some, List, [], ◌∷◌, ◌++◌, Text,
  text_eq, leb, length, any, if◌then◌else◌,
}
use squawk.Prelude.Int.{ℤ, pos, sub_ℕ, ◌+ℤ◌, ◌-ℤ◌, leb_ℤ}

pub record TokenBucket : Type 0 where
  pub capacity : ℕ
  pub tokens : ℤ
  pub refill_rate : ℕ
  pub last_refill : ℕ

abbrev pub min_ℤ : ℤ → ℤ → ℤ
min_ℤ a b = if leb_ℤ a b then a else b

-- The tokens after the refill, which are also `tokens_available`.
unfoldable pub tokens_available : TokenBucket → ℕ → ℤ
unfolding ◌+ℤ◌
tokens_available b now =
    min_ℤ (pos b.capacity) (b.tokens +ℤ sub_ℕ (now * b.refill_rate) (b.last_refill * b.refill_rate))

-- `TokenBucket.allow`
unfoldable pub allow : ℕ → TokenBucket → ℕ → Bool × TokenBucket
unfolding ◌-ℤ◌
allow unit b now =
    let t = tokens_available b now in
    if leb_ℤ (pos unit) t
    then (true, record b { tokens = t -ℤ pos unit; last_refill = now })
    else (false, record b { tokens = t; last_refill = now })

-- `InMemoryBackend`, with `burst` in the unit of the tokens.
pub record Backend : Type 0 where
  pub rps : ℕ
  pub burst : ℕ
  pub max_keys : ℕ
  pub buckets : List (Text × TokenBucket)

abbrev pub has_key : Text → List (Text × TokenBucket) → Bool
has_key key bs = any (λ e. text_eq e.0 key) bs

-- `self.buckets[key]`
unfoldable pub lookup_bucket : Text → List (Text × TokenBucket) → Option TokenBucket
lookup_bucket key [] = none
lookup_bucket key ((k, b) ∷ bs) =
    let rest = lookup_bucket key bs in if text_eq k key then some b else rest

-- The entries but that of the key.
unfoldable pub without : Text → List (Text × TokenBucket) → List (Text × TokenBucket)
without key [] = []
without key ((k, b) ∷ bs) =
    let rest = without key bs in if text_eq k key then rest else (k, b) ∷ rest

-- `self.buckets.popitem(last=False)`; `none` is its `KeyError` on an empty dict
abbrev pub pop_oldest : List (Text × TokenBucket) → Option (List (Text × TokenBucket))
pop_oldest [] = none
pop_oldest (e ∷ bs) = some bs

-- The eviction at the head of `check_and_consume`.
unfoldable pub evict : ℕ → Text → List (Text × TokenBucket) → Option (List (Text × TokenBucket))
evict max_keys key bs =
    if not (has_key key bs) && leb max_keys (length bs) then pop_oldest bs else some bs

-- The bucket of a key, a full one if there is none.
abbrev pub bucket_of : Backend → Text → ℕ → List (Text × TokenBucket) → TokenBucket
bucket_of s key now bs = elim (lookup_bucket key bs) [
  | some b ↦ b
  | none ↦ record {
    capacity = s.burst;
    tokens = pos s.burst;
    refill_rate = s.rps;
    last_refill = now;
  }
]

-- `check_and_consume`: the bucket is the last entry afterwards; `none` is an exception
unfoldable pub check_and_consume : ℕ → Backend → Text → ℕ → Option (Bool × Backend)
check_and_consume unit s key now = elim (evict s.max_keys key s.buckets) [
  | none ↦ none
  | some bs ↦
      let (allowed, b) = allow unit (bucket_of s key now bs) now in
      some (allowed, record s { buckets = without key bs ++ (key, b) ∷ [] })
]

-- Calls of `allow` at these times: how many are allowed, and the bucket afterwards.
unfoldable pub allow_all : ℕ → TokenBucket → List ℕ → ℕ × TokenBucket
allow_all unit b [] = (0, b)
allow_all unit b (now ∷ times) =
    let (allowed, b') = allow unit b now in
    let (n, b'') = allow_all unit b' times in (if allowed then suc n else n, b'')
