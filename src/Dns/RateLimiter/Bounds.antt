-- ===== src/Dns/RateLimiter/Bounds.antt =====
-- How many identities the limiter tracks, and how many requests a bucket allows.
use squawk.Prelude.{
  if◌then◌else◌, sym, ◌-◌, ◌+◌, suc, ◌++◌, ◌-◌, zero, ◌*◌, subst, ℕ, ◌≤◌, ◌<◌, Bool, true, false,
  some, List, [], ◌∷◌, ◌≡◌, inl, inr, Text, text_eq, leb, length, length-append, Bool-cases,
  Option-cases, arith,
}
use squawk.Prelude.Int.{◌+ℤ◌, ◌-ℤ◌, pos, sub_ℕ}
use squawk.Dns.RateLimiter.{
  allow_all, tokens_available, allow, bucket_of, min_ℤ, TokenBucket, Backend, has_key, without,
  pop_oldest, evict, check_and_consume,
}

without-length : (key : Text) (bs : List (Text × TokenBucket)) → length (without key bs) ≤ length bs
unfolding without
without-length key [] = omega arith
without-length key ((k, b) ∷ bs) = ground (arith, without-length key bs)

without-has_key :
    (key : Text) (bs : List (Text × TokenBucket))
    → has_key key bs ≡ true
    → length (without key bs) < length bs
unfolding without
without-has_key key [] h = cc
without-has_key key ((k, b) ∷ bs) h = elim (Bool-cases (text_eq k key)) [
  | inl e ↦ ground (arith, without-length key bs)
  | inr e ↦ ground (arith, without-has_key key bs (ground arith))
]

-- There is room for the key after the eviction.
evict-room :
    (max_keys : ℕ) (key : Text) (bs left : List (Text × TokenBucket))
    → length bs ≤ max_keys
    → evict max_keys key bs ≡ some left
    → length (without key left) < max_keys
unfolding evict
evict-room max_keys key bs left small h = elim (Bool-cases (has_key key bs)) [
  | inl e ↦
      let same : bs ≡ left = ground arith in
      subst (λ l. length (without key l) < max_keys) same
        (omega (arith, without-has_key key bs e, small))
  | inr e ↦ elim (Bool-cases (leb max_keys (length bs))) [
    | inr room ↦
        let same : bs ≡ left = ground arith in
        subst (λ l. length (without key l) < max_keys) same (ground (arith, without-length key bs))
    | inl full ↦ popped bs small e (ground arith)
  ]
]
  where
    popped :
        (es : List (Text × TokenBucket))
        → length es ≤ max_keys
        → has_key key es ≡ false
        → pop_oldest es ≡ some left
        → length (without key left) < max_keys
    popped [] hs he hp = cc
    popped (x ∷ es) hs he hp =
        let same : es ≡ left = ground arith in
        subst (λ l. length (without key l) < max_keys) same
          (omega (arith, without-length key es, hs))

-- A check that does not raise leaves at most the maximum of identities tracked, if there were not
-- more before.
pub check_and_consume-length :
    (unit : ℕ) (s s' : Backend) (key : Text) (now : ℕ) (allowed : Bool)
    → length s.buckets ≤ s.max_keys
    → check_and_consume unit s key now ≡ some (allowed, s')
    → length s'.buckets ≤ s'.max_keys
unfolding check_and_consume
check_and_consume-length unit s s' key now allowed small h =
    elim (Option-cases (evict s.max_keys key s.buckets)) [
      | inl e ↦ ground arith
      | inr (bs, e) ↦
          let room = evict-room s.max_keys key s.buckets bs small e in
          let entry : List (Text × TokenBucket) =
            (key, (allow unit (bucket_of s key now bs) now).1) ∷ [] in
          let total = length-append (without key bs) entry in
          let same : record s { buckets = without key bs ++ entry } ≡ s' = ground arith in
          subst (λ (x : Backend). length x.buckets ≤ x.max_keys) same (omega (arith, room, total))
    ]

mul_mono : (a b r : ℕ) → a ≤ b → a * r ≤ b * r
mul_mono a b zero h = omega arith
mul_mono a b (suc r) h = omega (arith, mul_mono a b r h, h)

abbrev cost : ℕ → Bool → ℕ
cost unit true = unit
cost unit false = 0

-- The arithmetic of one call: `l` and `m` are the times of the last call and of this one, times
-- the rate.
refill-step :
    (cap k l m : ℕ)
    → l ≤ m
    → k ≤ cap
    → (k' : ℕ) × (min_ℤ (pos cap) (pos k +ℤ sub_ℕ m l) ≡ pos k') × (k' ≤ cap) × (k' + l ≤ k + m)
unfolding ◌+ℤ◌
refill-step cap k l m h hk = elim (Bool-cases (leb cap (k + (m - l)))) [
  | inl full ↦ (cap, ground arith, ground arith, ground arith)
  | inr room ↦ (k + (m - l), ground arith, ground arith, ground arith)
]

-- The bucket holds `k` tokens, at most its capacity.
abbrev pub Holds : TokenBucket → ℕ → Type 0
Holds b k = (b.tokens ≡ pos k) × (k ≤ b.capacity)

-- The times are in order, none before the first.
abbrev pub IsOrdered : ℕ → List ℕ → Type 0
IsOrdered t [] = Unit
IsOrdered t (x ∷ xs) = (t ≤ x) × IsOrdered x xs

refilled-Holds :
    (b : TokenBucket) (k now : ℕ)
    → Holds b k
    → b.last_refill ≤ now
    → (k' : ℕ) × (tokens_available b now ≡ pos k')
      × (k' ≤ b.capacity)
      × (k' + b.last_refill * b.refill_rate ≤ k + now * b.refill_rate)
unfolding tokens_available
refilled-Holds b k now (e, hk) h =
    let grown = mul_mono b.last_refill now b.refill_rate h in
    let (k', et, low, spent) =
      refill-step b.capacity k (b.last_refill * b.refill_rate) (now * b.refill_rate) grown hk in
    (k', rw e et, low, spent)

-- One call at a time that is not before the last one: what it spends and what is left.
allow-Holds :
    (unit : ℕ) (b : TokenBucket) (k now : ℕ)
    → Holds b k
    → b.last_refill ≤ now
    → (k' : ℕ) × Holds (allow unit b now).1 k'
      × (cost unit (allow unit b now).0 + k' + b.last_refill * b.refill_rate
          ≤ k + now * b.refill_rate)
      × ((allow unit b now).1.refill_rate ≡ b.refill_rate)
      × ((allow unit b now).1.last_refill ≡ now)
unfolding allow ◌-ℤ◌
allow-Holds unit b k now holds h =
    let (k', et, low, spent) = refilled-Holds b k now holds h in
    elim (Bool-cases (leb unit k')) [
      | inl enough ↦ (
        k' - unit,
        (ground (arith, et), ground (arith, et)),
        ground (arith, et),
        ground (arith, et),
        ground (arith, et),
      )
      | inr few ↦ (
        k',
        (ground (arith, et), ground (arith, et)),
        ground (arith, et),
        ground (arith, et),
        ground (arith, et),
      )
    ]

count-cost :
    (unit : ℕ) (allowed : Bool) (n : ℕ)
    → (if allowed then suc n else n) * unit ≡ cost unit allowed + n * unit
count-cost unit true n = omega arith
count-cost unit false n = omega arith

-- From a bucket that holds no less than zero tokens and no more than its capacity, over any calls
-- at times in order, none before its last refill: the number of requests that are allowed, in the
-- unit of the tokens, is at most the tokens of the bucket plus the rate times the time from its
-- last refill to the last call.
pub allow_all-bound :
    (unit : ℕ) (times : List ℕ) (b : TokenBucket) (k : ℕ)
    → Holds b k
    → IsOrdered b.last_refill times
    → (allow_all unit b times).0 * unit + b.last_refill * b.refill_rate
      ≤ k + (allow_all unit b times).1.last_refill * b.refill_rate
unfolding allow_all
allow_all-bound unit [] b k holds o = omega arith
allow_all-bound unit (now ∷ times) b k holds o =
    let (k', holds', spent, rate, last) = allow-Holds unit b k now holds o.0 in
    let ordered : IsOrdered (allow unit b now).1.last_refill times =
      subst (λ t. IsOrdered t times) (sym last) o.1 in
    let later =
      rw (rate, last) at (allow_all-bound unit times (allow unit b now).1 k' holds' ordered) in
    let rest = allow_all unit (allow unit b now).1 times in
    subst (λ x. x + b.last_refill * b.refill_rate ≤ k + rest.1.last_refill * b.refill_rate)
      (sym (count-cost unit (allow unit b now).0 rest.0)) (omega (arith, later, spent))
