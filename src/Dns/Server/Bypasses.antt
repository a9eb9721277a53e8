-- ===== src/Dns/Server/Bypasses.antt =====
-- What the checks of `dns_query` let through.
use squawk.Prelude.{
  text_eq_iff, true, false, Option, none, some, List, [], ◌∷◌, ◌≡◌, Text, truthy, arith,
}
use squawk.Jwt.{lookup_key, Jwt, Keys}
use squawk.Dns.JwtVerify.{select_keys, verify_squawk_jwt}
use squawk.Dns.Zones.{Zone, ZoneRecord, get_or, public, get_zone_records, resolve_custom_zone}
use squawk.Dns.Resilience.{
  Mode, normal, cached, degraded, named_zone, zone_allowed, should_serve_zone,
}
use squawk.Dns.IocChecker.{Networks, is_blocked}
use squawk.Dns.CacheManager.{Cache, CacheManager, get}
use squawk.Dns.Server.{
  Services, DnsCall, answered, single_key, find_zone_name, policy_denies, bad_answer, dns_query,
}

no_single_key :
    (j : Jwt) (ks : Keys) (token : Text)
    → ks.public_key ≡ none
    → verify_squawk_jwt j (single_key ks) token ≡ none
unfolding verify_squawk_jwt lookup_key select_keys
no_single_key j ks token e = ground arith

-- Without the single key the domain policy denies no token any name, whatever keys are configured
-- for the rotation.
pub policy_denies-no_single_key :
    (j : Jwt) (ks : Keys) (token domain : Text)
    → ks.public_key ≡ none
    → policy_denies j ks token domain ≡ false
unfolding policy_denies
policy_denies-no_single_key j ks token domain e = ground (arith, no_single_key j ks token e)

serves_public :
    (mode : Mode) (j : Jwt) (ks : Keys) (zones : List Zone) (name : Text) (token : Option Text)
    (zone : Zone)
    → named_zone name zones ≡ some zone
    → get_or zone.visibility public ≡ public
    → should_serve_zone mode j ks zones (some name) token ≡ true
unfolding should_serve_zone zone_allowed
serves_public mode j ks zones [] token zone e v = ground arith
serves_public normal j ks zones (c ∷ name) token zone e v =
    ground (arith, e, text_eq_iff (get_or zone.visibility public) public)
serves_public cached j ks zones (c ∷ name) token zone e v =
    ground (arith, e, text_eq_iff (get_or zone.visibility public) public)
serves_public degraded j ks zones (c ∷ name) token zone e v =
    ground (arith, e, text_eq_iff (get_or zone.visibility public) public)

-- The zone that is asked for permission is the first one listed that the name ends with, and the
-- zone whose records are served is the one that the router finds: if the first is public, a query
-- without a token that is not limited, blocked or cached, and whose records hold no address of a
-- feed, is answered in every mode from the records that the router finds, whatever the visibility of
-- their zone.
pub records_without_permission :
    (n : Networks) (s : Services n) (cache : Cache) (c : DnsCall) (st : CacheManager cache)
    (name : Text) (parent : Zone) (r : ZoneRecord) (rs : List ZoneRecord)
    → find_zone_name s.config_zones c.domain ≡ some name
    → named_zone name s.config_zones ≡ some parent
    → get_or parent.visibility public ≡ public
    → c.token ≡ []
    → truthy c.domain ≡ true
    → c.allowed ≡ true
    → is_blocked n s.checker c.domain ≡ false
    → (get cache c.domain c.record_type st).0 ≡ none
    → get_zone_records s.zones c.domain ≡ some (r ∷ rs)
    → bad_answer n s (resolve_custom_zone c.domain c.record_type (r ∷ rs)) ≡ false
    → (dns_query n s cache c st).0 ≡ answered (resolve_custom_zone c.domain c.record_type (r ∷ rs))
unfolding dns_query policy_denies
records_without_permission n s cache c st name parent r rs ez en ep et ed ea eb eg er ef =
    let served =
      serves_public c.mode s.jwt s.keys s.config_zones name (some c.token) parent en ep in
    ground (arith, served)
