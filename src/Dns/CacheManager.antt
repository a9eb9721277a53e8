-- ===== src/Dns/CacheManager.antt =====
-- dns-server/app/services/cache_manager.py, `CacheManager`, whose methods have the same names. Log
-- lines are left out, and `get_stats`, which changes nothing.
pub mod InMemory
pub mod Keys
mod Tests
use squawk.Prelude.{
  ℕ, ◌+◌, Option, none, some, List, [], ◌∷◌, ◌++◌, ◌≡◌, ◌⊎◌, In, Text, codes, starts_with, true,
}
use squawk.Dns.Zones.{Response}

-- What the class relies on of redis-py and of `json`, and `CACHE_TTL`. A call that raises gives
-- `none`. The laws are those of Redis: a key holds what was stored under it last, or nothing once it
-- has run out or is deleted; the text of a response is read back as the response.
pub record Cache : Type 1 where
  pub Store : Type 0
  pub redis_get : Text → Store → Option (Option Text)
  pub redis_setex : Text → ℕ → Text → Store → Option Store
  pub redis_keys : Text → Store → Option (List Text)
  pub redis_delete : List Text → Store → Option Store
  pub dumps : Response → Text
  pub loads : Text → Option Response
  pub cache_ttl : ℕ
  pub get-setex :
      (k k' v v' : Text) (ttl : ℕ) (s s' : Store)
      → redis_setex k' ttl v s ≡ some s'
      → redis_get k s' ≡ some (some v')
      → (redis_get k s ≡ some (some v')) ⊎ ((k ≡ k') × (v' ≡ v))
  pub loads-dumps : (r : Response) → loads (dumps r) ≡ some r

module _ (cache : Cache) where
  -- `redis` is `None` if the connection failed.
  pub record CacheManager : Type 0 where
    pub redis : Option cache.Store
    pub cache_hits : ℕ
    pub cache_misses : ℕ

-- `f"dns:{domain}:{record_type}"`
unfoldable pub cache_key : Text → Text → Text
cache_key domain record_type = codes "dns:" ++ (domain ++ b':' ∷ record_type)

module _ (cache : Cache) where
  abbrev pub hit : CacheManager cache → CacheManager cache
  hit m = record m { cache_hits = m.cache_hits + 1 }

  abbrev pub missed : CacheManager cache → CacheManager cache
  missed m = record m { cache_misses = m.cache_misses + 1 }

  -- What `get` returns for what is stored; a text that is no JSON gives `None` too.
  pub reply_of : Option (Option Text) → Option Response
  reply_of none = none
  reply_of (some none) = none
  reply_of (some (some [])) = none
  reply_of (some (some (c ∷ text))) = cache.loads (c ∷ text)

  -- The counters after `get`; a text that is no JSON counts as a hit.
  pub counted : Option (Option Text) → CacheManager cache → CacheManager cache
  counted none m = m
  counted (some none) m = missed m
  counted (some (some [])) m = missed m
  counted (some (some (c ∷ text))) m = hit m

  -- `get`
  unfoldable pub get : Text → Text → CacheManager cache → Option Response × CacheManager cache
  unfolding reply_of counted
  get domain record_type m = elim m.redis [
    | none ↦ (none, m)
    | some s ↦
        let cached = cache.redis_get (cache_key domain record_type) s in
        (reply_of cached, counted cached m)
  ]

  -- The manager once Redis has changed its store, or raised.
  pub stored_in : Option cache.Store → CacheManager cache → CacheManager cache
  stored_in none m = m
  stored_in (some s) m = record m { redis = some s }

  -- `set`, with the time to live of the configuration
  unfoldable pub set : Text → Text → Response → CacheManager cache → CacheManager cache
  unfolding stored_in
  set domain record_type result m = elim m.redis [
    | none ↦ m
    | some s ↦
        let stored =
          cache.redis_setex (cache_key domain record_type) cache.cache_ttl (cache.dumps result) s in
        stored_in stored m
  ]

  -- `clear`
  unfoldable pub clear : CacheManager cache → CacheManager cache
  unfolding stored_in
  clear m = elim m.redis [
    | none ↦ m
    | some s ↦ elim (cache.redis_keys (codes "dns:*") s) [
      | none ↦ m
      | some keys ↦ elim keys [ [] ↦ m | k ∷ ks ↦ stored_in (cache.redis_delete (k ∷ ks) s) m ]
    ]
  ]
