-- ===== src/Dns/Samples.antt =====
-- Sample data of dns-server: a public zone, a restricted zone below it, one feed and an empty cache.
use squawk.Prelude.{true, false, none, some, List, [], ◌∷◌, Text, codes}
use squawk.Jwt.{Jwt, payload}
use squawk.Dhcp.Samples.{reader, toy_jwt, two_keys}
use squawk.Dns.Zones.{
  Zone, ZoneRecord, Response, public, restricted, load_zones, resolve_custom_zone,
}
use squawk.Dns.Resilience.{degraded}
use squawk.Dns.IocChecker.{Networks, Checker, Feed, load_feeds}
use squawk.Dns.CacheManager.{CacheManager}
use squawk.Dns.CacheManager.InMemory.{list_cache}
use squawk.Dns.Server.{Services, DnsCall, found}

-- Addresses are texts, and no network is known.
abbrev pub no_networks : Networks
no_networks = record {
  Network = Text;
  Address = Text;
  ip_network = λ t. none;
  single_address = λ t. none;
  ip_address = λ t. none;
  contains = λ a b. false;
}

abbrev pub feeds : List Feed
feeds = record { entries = codes "Bad.example." ∷ codes "*.evil.example" ∷ [] } ∷ []

abbrev pub checker : Checker no_networks
checker = load_feeds no_networks feeds

abbrev pub secret_record : ZoneRecord
secret_record = record {
  name = codes "a.secret.corp";
  record_type = codes "A";
  ttl = none;
  value = codes "10.0.0.1";
}

abbrev pub corp : Zone
corp = record {
  name = codes "corp";
  visibility = some public;
  allowed_teams = none;
  records = none;
}

abbrev pub secret : Zone
secret = record {
  name = codes "secret.corp";
  visibility = some restricted;
  allowed_teams = some (codes "ops" ∷ []);
  records = some (secret_record ∷ []);
}

abbrev pub services : Services no_networks
services = record {
  jwt = toy_jwt;
  keys = two_keys;
  config_zones = corp ∷ secret ∷ [];
  zones = load_zones (corp ∷ secret ∷ []);
  checker = checker;
  lookup = λ d t. found 60 (codes "192.0.2.1" ∷ []);
}

abbrev pub empty_cache : CacheManager list_cache
empty_cache = record { redis = some []; cache_hits = 0; cache_misses = 0 }

abbrev pub asks_secret : DnsCall
asks_secret = record {
  domain = codes "a.secret.corp";
  record_type = codes "A";
  token = [];
  allowed = true;
  retry_after = 0;
  mode = degraded;
}

abbrev pub secret_response : Response
secret_response = resolve_custom_zone (codes "a.secret.corp") (codes "A") (secret_record ∷ [])

-- Every token is of a member of the team `ops`.
abbrev pub ops_jwt : Jwt
ops_jwt = record {
  header_kid = λ token. some none;
  decode = λ token key. payload (record reader { team_roles = codes "ops" ∷ [] });
}
