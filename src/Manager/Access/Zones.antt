-- ===== src/Manager/Access/Zones.antt =====
-- Reading a zone against writing it.
use squawk.Prelude.{ℕ, true, false, none, some, List, ◌≡◌, arith}
use squawk.Manager.Claims.{Claims}
use squawk.Manager.Access.{
  is_superadmin, DnsZone, is_public, find_zone, check_zone_access, check_zone_write_access,
}

-- A zone that is not public and has no team cannot be read by a caller without the super-admin's
-- scope, but it can be written by any such caller.
pub write_without_read :
    (zones : List DnsZone) (zone_id : ℕ) (u : Claims) (z : DnsZone)
    → find_zone zone_id zones ≡ some z
    → is_superadmin (some u) ≡ false
    → is_public z ≡ false
    → z.team_id ≡ none
    → (check_zone_access zones zone_id (some u) ≡ false)
      × (check_zone_write_access zones zone_id (some u) ≡ true)
unfolding check_zone_access check_zone_write_access
write_without_read zones zone_id u z found plain hidden free =
    (ground (arith, found, plain, hidden, free), ground (arith, found, plain, free))
