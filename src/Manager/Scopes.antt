-- ===== src/Manager/Scopes.antt =====
-- manager/backend/app/services/scopes.py. A set of texts is a list in order without repetition.
use squawk.Prelude.{
  Bool, true, false, Option, none, some, List, [], ◌∷◌, Text, codes, text_eq, join, ltb, ◌==◌,
  if◌then◌else◌,
}

abbrev pub superadmin_scope : Text
superadmin_scope = codes "admin:super"

-- `_READ_SCOPES`
abbrev pub read_scopes : List Text
read_scopes =
    codes "users:read"
    ∷ codes "servers:read"
    ∷ codes "teams:read"
    ∷ codes "time:read"
    ∷ codes "dhcp:read"
    ∷ codes "ioc:read"
    ∷ codes "zones:read"
    ∷ codes "tokens:read"
    ∷ codes "analytics:read"
    ∷ codes "whois:read"
    ∷ codes "sso:read"
    ∷ codes "config:read"
    ∷ []

abbrev pub system_admin : Text
system_admin = codes "SystemAdmin"

-- `ROLE_SCOPES`
abbrev pub system_admin_scopes : List Text
system_admin_scopes =
    superadmin_scope
    ∷ codes "users:write"
    ∷ codes "users:admin"
    ∷ codes "servers:write"
    ∷ codes "servers:admin"
    ∷ codes "teams:write"
    ∷ codes "teams:admin"
    ∷ codes "time:write"
    ∷ codes "time:admin"
    ∷ codes "dhcp:write"
    ∷ codes "dhcp:admin"
    ∷ codes "zones:write"
    ∷ codes "zones:admin"
    ∷ codes "config:write"
    ∷ codes "config:admin"
    ∷ codes "ioc:admin"
    ∷ codes "sso:write"
    ∷ codes "sso:admin"
    ∷ codes "audit:read"
    ∷ read_scopes

abbrev pub org_admin_scopes : List Text
org_admin_scopes =
    codes "servers:write"
    ∷ codes "teams:write"
    ∷ codes "time:write"
    ∷ codes "dhcp:write"
    ∷ codes "zones:write"
    ∷ codes "config:write"
    ∷ read_scopes

abbrev pub user_manager_scopes : List Text
user_manager_scopes = codes "users:write" ∷ read_scopes

-- `ROLE_SCOPES.get(role, [])`
unfoldable pub role_scopes : Text → List Text
role_scopes role =
    if text_eq role system_admin
    then system_admin_scopes
    else if text_eq role (codes "OrgAdmin")
    then org_admin_scopes
    else if text_eq role (codes "UserManager")
    then user_manager_scopes
    else if text_eq role (codes "Viewer")
    then read_scopes
    else []

-- The order of Python's texts, by their code points.
unfoldable pub text_lt : Text → Text → Bool
text_lt s [] = false
text_lt [] (d ∷ t) = true
text_lt (c ∷ s) (d ∷ t) = let rest = text_lt s t in if c == d then rest else ltb c d

unfoldable pub insert : Text → List Text → List Text
insert s [] = s ∷ []
insert s (t ∷ ts) =
    let rest = insert s ts in
    if text_lt s t then s ∷ t ∷ ts else if text_eq s t then t ∷ ts else t ∷ rest

-- `sorted(set(texts))`
unfoldable pub sorted_set : List Text → List Text
sorted_set [] = []
sorted_set (s ∷ ss) = insert s (sorted_set ss)

-- `text or ""`
abbrev pub or_empty : Option Text → Text
or_empty none = []
or_empty (some s) = s

-- `expand_scopes`; the team roles are not read
unfoldable pub expand_scopes : Option Text → List Text
expand_scopes global_role = sorted_set (role_scopes (or_empty global_role))

-- `scope_string`
unfoldable pub scope_string : Option Text → Text
scope_string global_role = join 32 (expand_scopes global_role)
