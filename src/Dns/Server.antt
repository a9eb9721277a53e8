-- ===== src/Dns/Server.antt =====
-- dns-server/app/main.py, the handler `dns_query`, with `resolve` of app/services/dns_resolver.py.
-- The rate limiter's answer, the mode and what dnspython finds are arguments; the cache manager is
-- the state. Metrics and log lines have no effect on the reply.
-- The token is the text that is left of the Authorization header.
pub mod Answers
pub mod Bypasses
use squawk.Prelude.{
  ℕ, Bool, true, false, not, ◌&&◌, ◌||◌, ◌==◌, Option, none, some, List, [], ◌∷◌, ◌≡◌, ◌⊎◌, Text,
  codes, truthy, text_eq, ends_with, any, map, if◌then◌else◌,
}
use squawk.Jwt.{Payload, Jwt, Keys}
use squawk.Dns.DomainPolicy.{matches_policy}
use squawk.Dns.JwtVerify.{verify_squawk_jwt}
use squawk.Dns.Zones.{
  Zone, Zones, ZoneRecord, Answer, Response, get_zone_records, resolve_custom_zone,
}
use squawk.Dns.Resilience.{Mode, should_serve_zone}
use squawk.Dns.CacheManager.{Cache, CacheManager, get, set}
use squawk.Dns.IocChecker.{Networks, Checker, is_blocked, is_ip_blocked}

-- What `self.resolver.resolve` gives for a name and a type, or the exception that it raises;
-- `bad_type` is a type that dnspython does not know.
pub data Found : Type 0 where
  bad_type nxdomain timeout no_answer other_error : Found
  found : ℕ → List Text → Found

abbrev pub empty_response : ℕ → Text → Text → Response
empty_response status domain record_type = record {
  status = status;
  question_name = domain;
  question_type = record_type;
  answers = [];
}

abbrev pub answer_of : Text → Text → ℕ → Text → Answer
answer_of domain record_type ttl d = record {
  name = domain;
  record_type = record_type;
  ttl = ttl;
  data_text = d;
}

-- `DNSResolver.resolve`
unfoldable pub resolve : (Text → Text → Found) → Text → Text → Response
resolve lookup domain record_type = elim (lookup domain record_type) [
  | bad_type ↦ empty_response 2 domain record_type
  | nxdomain ↦ empty_response 3 domain record_type
  | timeout ↦ empty_response 2 domain record_type
  | no_answer ↦ empty_response 0 domain record_type
  | other_error ↦ empty_response 2 domain record_type
  | found ttl texts ↦ record {
    status = 0;
    question_name = domain;
    question_type = record_type;
    answers = map (answer_of domain record_type ttl) texts;
  }
]

-- `_find_zone_name`
unfoldable pub find_zone_name : List Zone → Text → Option Text
find_zone_name [] domain = none
find_zone_name (z ∷ zones) domain =
    let rest = find_zone_name zones domain in
    if text_eq domain z.name || ends_with domain (b'.' ∷ z.name) then some z.name else rest

-- What the handler reads, apart from the cache: the keys of the configuration, the cached zones of
-- the manager's configuration, the router's zones, the loaded feeds.
pub record Services (n : Networks) : Type 0 where
  pub jwt : Jwt
  pub keys : Keys
  pub config_zones : List Zone
  pub zones : Zones
  pub checker : Checker n
  pub lookup : Text → Text → Found

-- One query, with the rate limiter's answer and the mode that the resilience manager is in.
pub record DnsCall : Type 0 where
  pub domain : Text
  pub record_type : Text
  pub token : Text
  pub allowed : Bool
  pub retry_after : ℕ
  pub mode : Mode

pub data DnsReply : Type 0 where
  missing_name : DnsReply
  rate_limited : ℕ → DnsReply
  answered : Response → DnsReply

-- `JWT_PUBLIC_KEY` alone: the handler does not pass the keys of `JWT_PUBLIC_KEYS` on.
abbrev pub single_key : Keys → Keys
single_key ks = record { public_key = ks.public_key; public_keys = [] }

-- The denial of the domain policy: a token that passes, whose list does not match.
unfoldable pub policy_denies : Jwt → Keys → Text → Text → Bool
policy_denies j ks token domain =
    if truthy token
    then (elim (verify_squawk_jwt j (single_key ks) token) [
      | none ↦ false
      | some p ↦ not (matches_policy domain p.dns_domains)
    ])
    else false

module _ (n : Networks) (s : Services n) where
  -- The zone's records if there are any, else public DNS.
  pub look_up : Text → Text → Response
  look_up domain record_type = elim (get_zone_records s.zones domain) [
    | none ↦ resolve s.lookup domain record_type
    | some [] ↦ resolve s.lookup domain record_type
    | some (r ∷ rs) ↦ resolve_custom_zone domain record_type (r ∷ rs)
  ]

  -- An answer whose address is in a feed.
  abbrev pub bad_answer : Response → Bool
  bad_answer r = any (λ a. is_ip_blocked n s.checker a.data_text) r.answers

  module _ (cache : Cache) where
    -- `dns_query` from the lookup on
    pub fresh_answer : DnsCall → CacheManager cache → DnsReply × CacheManager cache
    fresh_answer c st =
        let r = look_up c.domain c.record_type in
        if bad_answer r
        then (answered (empty_response 3 c.domain c.record_type), st)
        else (answered r, if r.status == 0 then set cache c.domain c.record_type r st else st)

    abbrev pub refusal : DnsCall → DnsReply
    refusal c = answered (empty_response 3 c.domain c.record_type)

    -- `dns_query`
    unfoldable pub dns_query : DnsCall → CacheManager cache → DnsReply × CacheManager cache
    unfolding fresh_answer look_up
    dns_query c st =
        if not (truthy c.domain)
        then (missing_name, st)
        else if not c.allowed
        then (rate_limited c.retry_after, st)
        else if not (
            should_serve_zone c.mode s.jwt s.keys s.config_zones
              (find_zone_name s.config_zones c.domain) (some c.token))
        then (refusal c, st)
        else if policy_denies s.jwt s.keys c.token c.domain
        then (refusal c, st)
        else if is_blocked n s.checker c.domain
        then (refusal c, st)
        else let (cached, st') = get cache c.domain c.record_type st in
          elim cached [ some r ↦ (answered r, st') | none ↦ fresh_answer c st' ]
