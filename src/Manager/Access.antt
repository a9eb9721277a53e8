-- ===== src/Manager/Access.antt =====
-- manager/backend/app/middleware/rbac.py. The caller is the payload of the access token, if any;
-- `int` of a team's id is the id. The tables of teams and zones are lists.
pub mod Issued
pub mod Zones
use squawk.Prelude.{
  ℕ, zero, suc, Bool, true, false, not, ◌&&◌, ◌||◌, Option, none, some, List, [], ◌∷◌, any, find?,
  map, Text, codes, text_eq, truthy, words, ◌==◌, if◌then◌else◌,
}
use squawk.Manager.Scopes.{or_empty, superadmin_scope}
use squawk.Manager.Claims.{Key, number, text, Claims}

-- `_user_scopes`
unfoldable pub user_scopes : Option Claims → List Text
user_scopes none = []
user_scopes (some u) = words (or_empty u.scope)

-- `s in scopes`
abbrev pub holds : Text → List Text → Bool
holds s scopes = any (λ t. text_eq t s) scopes

-- `_is_superadmin`
unfoldable pub is_superadmin : Option Claims → Bool
is_superadmin u = holds superadmin_scope (user_scopes u)

-- What a decorator does: it calls the function, or answers with a status.
pub data Verdict : Type 0 where
  calls : Verdict
  answers : ℕ → Verdict

-- `requires_scope`
unfoldable pub requires_scope : List Text → Option Claims → Verdict
requires_scope required none = answers 401
requires_scope required (some u) =
    if any (λ s. holds s required) (user_scopes (some u)) then calls else answers 403

-- `requires_role`
unfoldable pub requires_role : List Text → Option Claims → Verdict
requires_role allowed none = answers 401
requires_role allowed (some u) = elim u.global_role [
  | none ↦ answers 403
  | some role ↦ if holds role allowed then calls else answers 403
]

-- `requires_system_admin` and `requires_admin`
abbrev pub requires_system_admin : Option Claims → Verdict
requires_system_admin = requires_scope (superadmin_scope ∷ [])

abbrev pub requires_admin : Option Claims → Verdict
requires_admin = requires_scope (codes "teams:write" ∷ [])

-- `team_roles.get(int(team_id))`: a text is no number
unfoldable pub role_in : ℕ → List (Key × Text) → Option Text
role_in team [] = none
role_in team ((number n, role) ∷ ks) =
    let rest = role_in team ks in if n == team then some role else rest
role_in team ((text s, role) ∷ ks) = role_in team ks

abbrev is_team : ℕ → List (Key × Text) → Bool
is_team team ks = elim (role_in team ks) [ none ↦ false | some role ↦ true ]

-- `requires_team_role`, with the team of the route
unfoldable pub requires_team_role : List Text → Option ℕ → Option Claims → Verdict
requires_team_role allowed team none = answers 401
requires_team_role allowed team (some u) = if is_superadmin (some u) then calls else (elim team [
  | none ↦ answers 400
  | some zero ↦ answers 400
  | some (suc n) ↦ elim (role_in (suc n) u.team_roles) [
    | none ↦ answers 403
    | some role ↦ if truthy role && holds role allowed then calls else answers 403
  ]
])

-- `can_access_team`, and `check_team_access`, which is the same code
unfoldable pub can_access_team : ℕ → Option Claims → Bool
can_access_team team none = false
can_access_team team (some u) = is_superadmin (some u) || is_team team u.team_roles

-- `can_manage_users` and `can_manage_teams`
unfoldable pub can_manage_users : Option Claims → Bool
can_manage_users u =
    any (λ s. text_eq s (codes "users:write") || text_eq s (codes "users:admin")) (user_scopes u)

unfoldable pub can_manage_teams : Option Claims → Bool
can_manage_teams u = holds (codes "teams:write") (user_scopes u)

-- `filter_teams_by_access`, with the ids of all teams
unfoldable pub filter_teams_by_access : List ℕ → Option Claims → List Key
filter_teams_by_access teams none = []
filter_teams_by_access teams (some u) =
    if is_superadmin (some u)
    then map (λ n. number n) teams
    else map (λ ((k, role) : Key × Text). k) u.team_roles

-- A row of `dns_zone`, the columns that are read
pub record DnsZone : Type 0 where
  pub id : ℕ
  pub visibility : Text
  pub team_id : Option ℕ

-- `db.dns_zone[zone_id]`
unfoldable pub find_zone : ℕ → List DnsZone → Option DnsZone
find_zone zone_id zones = find? (λ (z : DnsZone). z.id == zone_id) zones

abbrev pub is_public : DnsZone → Bool
is_public z = text_eq z.visibility (codes "public")

-- `check_zone_access`
unfoldable pub check_zone_access : List DnsZone → ℕ → Option Claims → Bool
check_zone_access zones zone_id none = false
check_zone_access zones zone_id (some u) =
    if is_superadmin (some u) then true else (elim (find_zone zone_id zones) [
      | none ↦ false
      | some z ↦ if is_public z then true else (elim z.team_id [
        | none ↦ false
        | some zero ↦ false
        | some (suc n) ↦ can_access_team (suc n) (some u)
      ])
    ])

-- `check_zone_write_access`
unfoldable pub check_zone_write_access : List DnsZone → ℕ → Option Claims → Bool
check_zone_write_access zones zone_id none = false
check_zone_write_access zones zone_id (some u) =
    if is_superadmin (some u) then true else (elim (find_zone zone_id zones) [
      | none ↦ false
      | some z ↦ elim z.team_id [ none ↦ true | some team ↦ can_access_team team (some u) ]
    ])
