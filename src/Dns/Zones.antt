-- ===== src/Dns/Zones.antt =====
-- dns-server/app/services/selective_router.py, the zones of the configuration, and
-- `resolve_custom_zone` of dns-server/app/services/dns_resolver.py. A key of a zone's dict is
-- missing (`none`) or has a value of its type; every record has a name, a type and a value.
pub mod Records
use squawk.Prelude.{
  ℕ, Bool, true, false, not, ◌&&◌, ◌||◌, Option, none, some, List, [], ◌∷◌, Text, codes, text_eq,
  truthy, split, join, any, if◌then◌else◌,
}
use squawk.Jwt.{Payload, Jwt, Keys}
use squawk.Dns.JwtVerify.{verify_squawk_jwt}

pub record ZoneRecord : Type 0 where
  pub name : Text
  pub record_type : Text
  pub ttl : Option ℕ
  pub value : Text

pub record Zone : Type 0 where
  pub name : Text
  pub visibility : Option Text
  pub allowed_teams : Option (List Text)
  pub records : Option (List ZoneRecord)

-- `zone.get(key, default)`
abbrev pub get_or {ℓ} : {A : Type ℓ} → Option A → A → A
get_or none d = d
get_or (some x) d = x

abbrev pub public : Text
public = codes "public"

abbrev pub internal : Text
internal = codes "internal"

abbrev pub restricted : Text
restricted = codes "restricted"

abbrev pub private : Text
private = codes "private"

-- A value of `SelectiveRouter.zones`.
pub record RoutedZone : Type 0 where
  pub name : Text
  pub visibility : Text
  pub allowed_teams : List Text
  pub records : List ZoneRecord

abbrev pub Zones : Type 0
Zones = List (Text × RoutedZone)

-- `self.zones[name]`
unfoldable pub lookup_zone : Text → Zones → Option RoutedZone
lookup_zone name [] = none
lookup_zone name ((n, z) ∷ zones) =
    let rest = lookup_zone name zones in if text_eq n name then some z else rest

-- `self.zones[name] = zone`
unfoldable pub put_zone : Text → RoutedZone → Zones → Zones
put_zone name zone [] = (name, zone) ∷ []
put_zone name zone ((n, z) ∷ zones) =
    let rest = put_zone name zone zones in
    if text_eq n name then (name, zone) ∷ zones else (n, z) ∷ rest

abbrev pub routed : Zone → RoutedZone
routed zone = record {
  name = zone.name;
  visibility = get_or zone.visibility public;
  allowed_teams = get_or zone.allowed_teams [];
  records = get_or zone.records [];
}

-- The loop of `load_zones`.
unfoldable pub load_from : Zones → List Zone → Zones
load_from zones [] = zones
load_from zones (z ∷ zs) = load_from (put_zone z.name (routed z) zones) zs

-- `load_zones`: what was loaded before is cleared
unfoldable pub load_zones : List Zone → Zones
load_zones zones = load_from [] zones

-- The loop of `_find_zone_for_domain` over the parts that are left.
unfoldable pub find_parent : Zones → List Text → Option RoutedZone
find_parent zones [] = none
find_parent zones (p ∷ parts) =
    let rest = find_parent zones parts in
    elim (lookup_zone (join b'.' (p ∷ parts)) zones) [ some z ↦ some z | none ↦ rest ]

-- `_find_zone_for_domain`
unfoldable pub find_zone_for_domain : Zones → Text → Option RoutedZone
find_zone_for_domain zones domain = elim (lookup_zone domain zones) [
  | some z ↦ some z
  | none ↦ find_parent zones (split b'.' domain)
]

-- `any(team in allowed_teams for team in user_teams)`
unfoldable pub shares_team : List Text → List Text → Bool
shares_team user allowed = any (λ team. any (text_eq team) allowed) user

abbrev pub is_empty {ℓ} : {A : Type ℓ} → List A → Bool
is_empty [] = true
is_empty (x ∷ xs) = false

abbrev is_admin : Option Text → Bool
is_admin none = false
is_admin (some role) = text_eq role (codes "admin")

-- `check_zone_permission` for a verified payload
pub permits : RoutedZone → Payload → Bool
permits zone p =
    if text_eq zone.visibility internal
    then is_empty zone.allowed_teams || shares_team p.team_roles zone.allowed_teams
    else if text_eq zone.visibility restricted
    then shares_team p.team_roles zone.allowed_teams
    else if text_eq zone.visibility private
    then is_admin p.role
    else false

-- The payload of a token that is there and passes.
abbrev pub verified : Jwt → Keys → Option Text → Option Payload
verified j ks none = none
verified j ks (some []) = none
verified j ks (some (c ∷ s)) = verify_squawk_jwt j ks (c ∷ s)

-- `check_zone_permission` for the zone that was found
pub zone_permission : Jwt → Keys → RoutedZone → Option Text → Bool
zone_permission j ks zone token =
    if text_eq zone.visibility public
    then true
    else (elim (verified j ks token) [ none ↦ false | some p ↦ permits zone p ])

-- `check_zone_permission`
unfoldable pub check_zone_permission : Jwt → Keys → Zones → Text → Option Text → Bool
unfolding zone_permission permits
check_zone_permission j ks zones domain token = elim (find_zone_for_domain zones domain) [
  | none ↦ true
  | some zone ↦ zone_permission j ks zone token
]

-- `get_zone_records`
unfoldable pub get_zone_records : Zones → Text → Option (List ZoneRecord)
get_zone_records zones domain = elim (find_zone_for_domain zones domain) [
  | none ↦ none
  | some zone ↦ some zone.records
]

-- An entry of `Answer`.
pub record Answer : Type 0 where
  pub name : Text
  pub record_type : Text
  pub ttl : ℕ
  pub data_text : Text

-- A DNS response: the status and the answers; the question repeats what was asked.
pub record Response : Type 0 where
  pub status : ℕ
  pub question_name : Text
  pub question_type : Text
  pub answers : List Answer

-- The loop of `resolve_custom_zone`.
unfoldable pub matching_records : Text → Text → List ZoneRecord → List Answer
matching_records domain record_type [] = []
matching_records domain record_type (r ∷ rs) =
    let rest = matching_records domain record_type rs in
    if text_eq r.name domain && text_eq r.record_type record_type
    then record {
      name = domain;
      record_type = record_type;
      ttl = get_or r.ttl 300;
      data_text = r.value;
    }
      ∷ rest
    else rest

-- `resolve_custom_zone`
unfoldable pub resolve_custom_zone : Text → Text → List ZoneRecord → Response
resolve_custom_zone domain record_type records =
    let found = matching_records domain record_type records in
    record {
      status = if is_empty found then 3 else 0;
      question_name = domain;
      question_type = record_type;
      answers = found;
    }
