-- ===== src/Dns/Resilience.antt =====
-- dns-server/app/utils/resilience.py. What the manager client answers is an argument: whether its
-- token is valid, whether a refresh succeeds, when its configuration was cached. Times are in
-- microseconds.
pub mod Access
use squawk.Prelude.{
  ℕ, ◌+◌, Bool, true, false, not, ◌||◌, Option, none, some, List, [], ◌∷◌, Text, truthy, text_eq,
  ltb, find?, if◌then◌else◌,
}
use squawk.Jwt.{Jwt, Keys}
use squawk.Dns.Zones.{Zone, get_or, public, shares_team, is_empty, verified}

pub data Mode : Type 0 where
  normal cached degraded : Mode

-- What one call of `check_mode` learns.
pub record Probe : Type 0 where
  pub jwt_valid : Bool
  pub refreshed : Bool
  pub cached_at : Option ℕ
  pub now : ℕ

-- The cache was written, and less than the time to live ago.
abbrev pub is_fresh : ℕ → ℕ → Option ℕ → Bool
is_fresh ttl now none = false
is_fresh ttl now (some t) = ltb now (t + ttl)

-- `check_mode`: the mode that it returns and keeps
unfoldable pub check_mode : ℕ → Probe → Mode
check_mode ttl p =
    if p.jwt_valid
    then normal
    else if p.refreshed
    then normal
    else if is_fresh ttl p.now p.cached_at
    then cached
    else degraded

-- `_check_zone_permission`
unfoldable pub zone_allowed : Jwt → Keys → Zone → Option Text → Bool
zone_allowed j ks zone token =
    let allowed = get_or zone.allowed_teams [] in
    if text_eq (get_or zone.visibility public) public then true else (elim (verified j ks token) [
      | none ↦ false
      | some p ↦ is_empty allowed || shares_team p.team_roles allowed
    ])

-- The first zone of the name.
unfoldable pub named_zone : Text → List Zone → Option Zone
named_zone name zones = find? (λ z. text_eq z.name name) zones

-- `should_serve_zone` for a zone that was found
pub serve_in : Mode → Jwt → Keys → Zone → Option Text → Bool
serve_in normal j ks zone token = zone_allowed j ks zone token
serve_in cached j ks zone token = zone_allowed j ks zone token
serve_in degraded j ks zone token = text_eq (get_or zone.visibility public) public

-- `should_serve_zone`, in the mode that `check_mode` returns
unfoldable pub should_serve_zone : Mode → Jwt → Keys → List Zone → Option Text → Option Text → Bool
unfolding serve_in
should_serve_zone mode j ks zones none token = true
should_serve_zone mode j ks zones (some []) token = true
should_serve_zone mode j ks zones (some (c ∷ name)) token = elim (named_zone (c ∷ name) zones) [
  | none ↦ true
  | some zone ↦ serve_in mode j ks zone token
]
