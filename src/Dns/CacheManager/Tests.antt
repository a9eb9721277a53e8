-- ===== src/Dns/CacheManager/Tests.antt =====
-- The cache manager at a store in memory.
use squawk.Prelude.{◌≡◌, ◌⊎◌, refl, some, none, [], ◌∷◌, codes, starts_with, text_eq}
use squawk.Dns.Zones.{Response}
use squawk.Dns.CacheManager.{CacheManager, get, set, clear, cache_key}
use squawk.Dns.CacheManager.InMemory.{list_cache}
use squawk.Dns.CacheManager.Keys.{get-set}

abbrev fresh : CacheManager list_cache
fresh = record { redis = some []; cache_hits = 0; cache_misses = 0 }

abbrev stored_reply : Response
stored_reply = record {
  status = 0;
  question_name = codes "x:A";
  question_type = codes "A";
  answers =
      record {
        name = codes "x:A";
        record_type = codes "A";
        ttl = 60;
        data_text = codes "192.0.2.1";
      }
      ∷ [];
}

abbrev with_reply : CacheManager list_cache
with_reply = set list_cache (codes "x:A") (codes "A") stored_reply fresh

reads_back : (get list_cache (codes "x:A") (codes "A") with_reply).0 ≡ some stored_reply
unfolding get set cache_key text_eq
reads_back = refl

-- The reply to one question is read for another, whose type has a colon.
collides : (get list_cache (codes "x") (codes "A:A") with_reply).0 ≡ some stored_reply
unfolding get set cache_key text_eq
collides = refl

clears : (get list_cache (codes "x:A") (codes "A") (clear list_cache with_reply)).0 ≡ none
unfolding get set clear cache_key text_eq starts_with
clears = refl

get-set_example :
    ((get list_cache (codes "x:A") (codes "A") fresh).0 ≡ some stored_reply)
    ⊎ ((codes "x:A" ≡ codes "x:A") × (codes "A" ≡ codes "A") × (stored_reply ≡ stored_reply))
get-set_example =
    get-set list_cache (codes "x:A") (codes "x:A") (codes "A") (codes "A") stored_reply stored_reply
      fresh refl refl reads_back
