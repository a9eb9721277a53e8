-- ===== src/Dns/Tests.antt =====
-- The DNS server at the sample configuration, and the theorems at it.
use squawk.Prelude.{
  true, false, Option, none, some, [], ◌∷◌, ◌≡◌, ◌⊎◌, ◌↔◌, In, Text, codes, text_eq, starts_with,
  ends_with, lower, strip, rstrip, drop_while, is_space, split, join, arith, refl,
}
use squawk.Jwt.{lookup_key, named_kid, IsConfigured}
use squawk.Dhcp.Samples.{reader, toy_jwt, two_keys}
use squawk.Dhcp.Auth.{verify_token}
use squawk.Dhcp.Auth.Verified.{Verifies}
use squawk.Dns.DomainPolicy.{normalize_domain, matches_policy}
use squawk.Dns.DomainPolicy.Matching.{Allows, matches_policy_iff}
use squawk.Dns.JwtVerify.{verify_squawk_jwt}
use squawk.Dns.JwtVerify.Checked.{
  verify_squawk_jwt-some, verify_squawk_jwt-verify_token, IsWellTimed,
}
use squawk.Dns.Zones.Records.{Covers, NoneLonger, find_zone_for_domain-some}
use squawk.Dns.Zones.{
  routed, load_zones, load_from, put_zone, lookup_zone, find_zone_for_domain, find_parent,
  get_zone_records, resolve_custom_zone, matching_records, check_zone_permission, shares_team,
}
use squawk.Dns.Resilience.{normal, degraded, named_zone, zone_allowed, should_serve_zone}
use squawk.Dns.IocChecker.{
  load_feeds, load_all, load_entries, load_entry, normalize, is_member, check_wildcard,
  check_parents, is_blocked, is_ip_blocked, pattern_of,
}
use squawk.Dns.IocChecker.Blocking.{IsWithin, is_blocked_iff}
use squawk.Dns.CacheManager.{CacheManager, get}
use squawk.Dns.CacheManager.InMemory.{list_cache}
use squawk.Dns.Server.{answered, find_zone_name, policy_denies, dns_query, bad_answer}
use squawk.Dns.Server.Answers.{
  IsCleared, IsLookedUp, IsClean, dns_query-answers, dns_query-IsClean, dns_query-not_bad,
}
use squawk.Dns.Server.Bypasses.{policy_denies-no_single_key, records_without_permission}
use squawk.Dns.Samples.{
  no_networks, checker, secret_record, corp, secret, services, empty_cache, asks_secret,
  secret_response, ops_jwt,
}

first_zone : find_zone_name services.config_zones (codes "a.secret.corp") ≡ some (codes "corp")
unfolding find_zone_name text_eq ends_with starts_with
first_zone = refl

corp_is_named : named_zone (codes "corp") services.config_zones ≡ some corp
unfolding named_zone text_eq
corp_is_named = refl

secret_unblocked : is_blocked no_networks checker (codes "a.secret.corp") ≡ false
unfolding is_blocked load_feeds load_all load_entries load_entry normalize is_member check_wildcard
    check_parents strip rstrip drop_while is_space lower split join text_eq starts_with ends_with
secret_unblocked = refl

secret_records : get_zone_records services.zones (codes "a.secret.corp") ≡ some (secret_record ∷ [])
unfolding get_zone_records find_zone_for_domain find_parent lookup_zone load_zones load_from
    put_zone split join text_eq
secret_records = refl

-- The router itself would deny the zone.
router_denies :
    check_zone_permission toy_jwt two_keys services.zones (codes "a.secret.corp") (some []) ≡ false
unfolding check_zone_permission find_zone_for_domain find_parent lookup_zone load_zones load_from
    put_zone split join text_eq
router_denies = refl

secret_fine : bad_answer no_networks services secret_response ≡ false
unfolding is_ip_blocked resolve_custom_zone matching_records load_feeds load_all load_entries
    load_entry normalize is_member strip rstrip drop_while is_space lower text_eq starts_with
secret_fine = refl

records_without_permission_example :
    (dns_query no_networks services list_cache asks_secret empty_cache).0 ≡ answered secret_response
records_without_permission_example =
    records_without_permission no_networks services list_cache asks_secret empty_cache
      (codes "corp") corp secret_record [] first_zone corp_is_named refl refl refl refl
      secret_unblocked (unfold get in refl) secret_records secret_fine

matches_policy_iff_example :
    (matches_policy (codes "a.Example.com.") (some (codes "*.example.com" ∷ [])) ≡ true) ↔ (
      (d : Text) × In d (codes "*.example.com" ∷ [])
      × Allows (normalize_domain d) (normalize_domain (codes "a.Example.com.")))
matches_policy_iff_example =
    matches_policy_iff (codes "a.Example.com.") (codes "*.example.com" ∷ [])

wildcard_cases :
    (matches_policy (codes "a.Example.com.") (some (codes "*.example.com" ∷ [])) ≡ true)
    × (matches_policy (codes "example.com") (some (codes "*.example.com" ∷ [])) ≡ false)
    × (matches_policy (codes "example.com") none ≡ true)
unfolding matches_policy normalize_domain text_eq starts_with ends_with lower rstrip
wildcard_cases = (refl, refl, refl)

passes : verify_squawk_jwt toy_jwt two_keys (codes "r") ≡ some reader
unfolding verify_squawk_jwt
passes = refl

verify_squawk_jwt-some_example :
    (kid : Option Text) × (key : Text) × (toy_jwt.header_kid (codes "r") ≡ some kid)
    × Verifies toy_jwt (codes "r") reader key
    × IsConfigured two_keys key
    × ((name : Text) → named_kid kid ≡ some name → lookup_key name two_keys.public_keys ≡ some key)
verify_squawk_jwt-some_example = verify_squawk_jwt-some toy_jwt (codes "r") two_keys reader passes

well_timed : IsWellTimed toy_jwt (codes "r")
well_timed [] = (λ e. cc, λ e. cc)
well_timed (c ∷ []) = (λ e. cc, λ e. cc)
well_timed (c ∷ d ∷ k) = (λ e. cc, λ e. cc)

any_kid :
    (kid : Option Text)
    → toy_jwt.header_kid (codes "r") ≡ some kid
    → named_kid kid ≡ none
    → IsWellTimed toy_jwt (codes "r")
any_kid kid e e' = well_timed

verify_squawk_jwt-verify_token_example :
    verify_squawk_jwt toy_jwt two_keys (codes "r") ≡ verify_token toy_jwt two_keys (codes "r")
verify_squawk_jwt-verify_token_example =
    verify_squawk_jwt-verify_token toy_jwt (codes "r") two_keys any_kid

-- The restricted zone is served to the team alone, and to nobody while the mode is degraded.
restricted_cases :
    (should_serve_zone normal ops_jwt two_keys services.config_zones
        (some (codes "secret.corp"))
        (some (codes "r"))
      ≡ true)
    × (should_serve_zone normal toy_jwt two_keys services.config_zones
          (some (codes "secret.corp"))
          (some (codes "r"))
        ≡ false)
    × (should_serve_zone degraded ops_jwt two_keys services.config_zones
          (some (codes "secret.corp"))
          (some (codes "r"))
        ≡ false)
unfolding should_serve_zone named_zone zone_allowed shares_team verify_squawk_jwt text_eq
restricted_cases = (refl, refl, refl)

is_blocked_iff_example : (is_blocked no_networks checker (codes "www.bad.example") ≡ true) ↔ (
    ((b : Text) × In b checker.blocked_domains
      × IsWithin no_networks checker (normalize (codes "www.bad.example")) b)
    ⊎ ((w : Text) × In w checker.wildcard_domains
        × IsWithin no_networks checker
            (normalize (codes "www.bad.example"))
            (pattern_of no_networks w)))
is_blocked_iff_example = is_blocked_iff no_networks checker (codes "www.bad.example")

blocked_cases :
    (is_blocked no_networks checker (codes "www.bad.example") ≡ true)
    × (is_blocked no_networks checker (codes "evil.example") ≡ true)
unfolding is_blocked load_feeds load_all load_entries load_entry normalize is_member check_wildcard
    check_parents strip rstrip drop_while is_space lower split join text_eq starts_with ends_with
blocked_cases = (refl, refl)

abbrev after_query : CacheManager list_cache
after_query = (dns_query no_networks services list_cache asks_secret empty_cache).1

query_answers :
    dns_query no_networks services list_cache asks_secret empty_cache
    ≡ (answered secret_response, after_query)
query_answers = ground (
  arith,
  records_without_permission no_networks services list_cache asks_secret empty_cache (codes "corp")
      corp secret_record [] first_zone corp_is_named refl refl refl refl secret_unblocked
      (unfold get in refl) secret_records secret_fine,
)

empty-IsClean : IsClean no_networks services list_cache empty_cache
unfolding get
empty-IsClean d t r h = cc

dns_query-answers_example :
    (secret_response.answers ≡ [])
    ⊎ (IsCleared no_networks services asks_secret
        × IsLookedUp no_networks services list_cache asks_secret empty_cache secret_response)
dns_query-answers_example =
    dns_query-answers no_networks services list_cache asks_secret empty_cache after_query
      secret_response query_answers

dns_query-IsClean_example : IsClean no_networks services list_cache after_query
dns_query-IsClean_example =
    dns_query-IsClean no_networks services list_cache asks_secret empty_cache empty-IsClean

dns_query-not_bad_example : bad_answer no_networks services secret_response ≡ false
dns_query-not_bad_example =
    dns_query-not_bad no_networks services list_cache asks_secret empty_cache after_query
      secret_response empty-IsClean query_answers

policy_denies-no_single_key_example :
    policy_denies toy_jwt two_keys (codes "r") (codes "a.secret.corp") ≡ false
policy_denies-no_single_key_example =
    policy_denies-no_single_key toy_jwt two_keys (codes "r") (codes "a.secret.corp") refl

finds_secret : find_zone_for_domain services.zones (codes "a.secret.corp") ≡ some (routed secret)
unfolding find_zone_for_domain find_parent lookup_zone load_zones load_from put_zone split join
    text_eq
finds_secret = refl

find_zone_for_domain-some_example :
    (n : Text) × (lookup_zone n services.zones ≡ some (routed secret))
    × Covers services.zones (codes "a.secret.corp") n
    × NoneLonger services.zones n (Covers services.zones (codes "a.secret.corp"))
find_zone_for_domain-some_example =
    find_zone_for_domain-some services.zones (codes "a.secret.corp") (routed secret) finds_secret
