-- ===== src/Dns/Resilience/Access.antt =====
-- Who is served a zone.
use squawk.Prelude.{Option, some, [], ◌≡◌, ◌⊎◌, In, Text, ◌≢◌}
use squawk.Jwt.{Payload, Jwt, Keys}
use squawk.Dns.Zones.{Zone, get_or, public, verified}
use squawk.Dns.Resilience.{Mode, degraded}

module _ (j : Jwt) (ks : Keys) where
  -- The token passes, and its teams share one with the zone's if the zone names any.
  abbrev pub IsMember : Zone → Option Text → Type 0
  IsMember zone token =
      (p : Payload) × (verified j ks token ≡ some p)
      × ((get_or zone.allowed_teams [] ≡ [])
          ⊎ ((team : Text) × In team p.team_roles × In team (get_or zone.allowed_teams [])))

  -- Whom the zone is served to in the mode.
  abbrev pub IsServed : Mode → Zone → Option Text → Type 0
  IsServed mode zone token =
      (get_or zone.visibility public ≡ public) ⊎ ((mode ≢ degraded) × IsMember zone token)
