-- ===== src/Dns/CacheManager/Keys.antt =====
-- What is read of the cache, and when two queries share a key.
use squawk.Prelude.{
  ap, Option-cases, inl, inr, lacks, arith, true, false, ℕ, Option, none, some, [], ◌∷◌, ◌++◌, ◌≡◌,
  ◌⊎◌, Text, refl,
}
use squawk.Dns.Zones.{Response}
use squawk.Dns.CacheManager.{Cache, CacheManager, cache_key, reply_of, counted, stored_in, get, set}

lacks-append_self : (c : ℕ) (s t : Text) → lacks c (s ++ c ∷ t) ≡ false
lacks-append_self c [] t = ground arith
lacks-append_self c (d ∷ s) t = ground (arith, lacks-append_self c s t)

-- A text ends in one way in a separator and a part without it.
last_part :
    (c : ℕ) (d d' t t' : Text)
    → lacks c t ≡ true
    → lacks c t' ≡ true
    → d ++ c ∷ t ≡ d' ++ c ∷ t'
    → (d ≡ d') × (t ≡ t')
last_part c [] [] t t' h h' e = (refl, cc)
last_part c [] (x ∷ d') t t' h h' e =
    let tail : t ≡ d' ++ c ∷ t' = cc in ground (arith, lacks-append_self c d' t', ap (lacks c) tail)
last_part c (x ∷ d) [] t t' h h' e =
    let tail : d ++ c ∷ t ≡ t' = cc in ground (arith, lacks-append_self c d t, ap (lacks c) tail)
last_part c (x ∷ d) (x' ∷ d') t t' h h' e =
    let head : x ≡ x' = cc in
    let tail : d ++ c ∷ t ≡ d' ++ c ∷ t' = cc in
    let (same, last) = last_part c d d' t t' h h' tail in (cc, last)

-- Record types without a colon have keys of their own for every name.
cache_key_inj :
    (d d' t t' : Text)
    → lacks b':' t ≡ true
    → lacks b':' t' ≡ true
    → cache_key d t ≡ cache_key d' t'
    → (d ≡ d') × (t ≡ t')
unfolding cache_key
cache_key_inj d d' t t' h h' e = last_part b':' d d' t t' h h' cc

module _ (cache : Cache) where
  -- What is read depends on the store alone, which reading leaves as it is.
  pub get_congr :
      (d t : Text) (m m' : CacheManager cache)
      → m.redis ≡ m'.redis
      → (get cache d t m).0 ≡ (get cache d t m').0
  unfolding get
  get_congr d t m m' e = elim (Option-cases m.redis) [
    | inl none_there ↦ ground (arith, e)
    | inr (s, there) ↦ ground (arith, e)
  ]

  redis-counted :
      (x : Option (Option Text)) (m : CacheManager cache) → (counted cache x m).redis ≡ m.redis
  unfolding counted
  redis-counted none m = refl
  redis-counted (some none) m = refl
  redis-counted (some (some [])) m = refl
  redis-counted (some (some (c ∷ v))) m = refl

  pub redis-get : (d t : Text) (m : CacheManager cache) → (get cache d t m).1.redis ≡ m.redis
  unfolding get
  redis-get d t m = elim (Option-cases m.redis) [
    | inl none_there ↦ ground arith
    | inr (s, there) ↦ ground (arith, redis-counted (cache.redis_get (cache_key d t) s) m)
  ]

  reply_of-some :
      (x : Option (Option Text)) (r : Response)
      → reply_of cache x ≡ some r
      → (v : Text) × (x ≡ some (some v)) × (cache.loads v ≡ some r)
  unfolding reply_of
  reply_of-some none r h = cc
  reply_of-some (some none) r h = cc
  reply_of-some (some (some [])) r h = cc
  reply_of-some (some (some (c ∷ v))) r h = (c ∷ v, refl, h)

  -- What is read was there before or is what was stored just now under the same key.
  pub get-set_key :
      (d d' t t' : Text) (r r' : Response) (m : CacheManager cache)
      → (get cache d t (set cache d' t' r m)).0 ≡ some r'
      → ((get cache d t m).0 ≡ some r') ⊎ ((cache_key d t ≡ cache_key d' t') × (r' ≡ r))
  unfolding get set stored_in
  get-set_key d d' t t' r r' m h = elim (Option-cases m.redis) [
    | inl none_there ↦ ground arith
    | inr (s, there) ↦
        let stored = cache.redis_setex (cache_key d' t') cache.cache_ttl (cache.dumps r) s in
        elim (Option-cases stored) [
          | inl raised ↦ inl (ground arith)
          | inr (s', done) ↦
              let found : reply_of cache (cache.redis_get (cache_key d t) s') ≡ some r' =
                ground arith in
              let (v, at_key, loaded) =
                reply_of-some (cache.redis_get (cache_key d t) s') r' found in
              elim (cache.get-setex (cache_key d t) (cache_key d' t') (cache.dumps r) v
                cache.cache_ttl s s' done at_key) [
                  | inl old ↦ inl (ground arith)
                  | inr (key, same) ↦ inr (key, ground (arith, cache.loads-dumps r))
                ]
        ]
  ]

  -- For record types without a colon, what is read after `set` was there before, or it is the reply
  -- stored just now and was stored for the same name and type.
  pub get-set :
      (d d' t t' : Text) (r r' : Response) (m : CacheManager cache)
      → lacks b':' t ≡ true
      → lacks b':' t' ≡ true
      → (get cache d t (set cache d' t' r m)).0 ≡ some r'
      → ((get cache d t m).0 ≡ some r') ⊎ ((d ≡ d') × (t ≡ t') × (r' ≡ r))
  get-set d d' t t' r r' m ht ht' h = elim (get-set_key d d' t t' r r' m h) [
    | inl old ↦ inl old
    | inr (key, same) ↦
        let (name, kind) = cache_key_inj d d' t t' ht ht' key in inr (name, kind, same)
  ]
