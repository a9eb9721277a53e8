-- ===== src/Manager/Machines.antt =====
-- manager/backend/app/blueprints/machine_clients.py and blueprints/auth.py: the scopes that a machine
-- client registers, and those that the grant `client_credentials` gives it; with
-- `validate_scope_subset` of services/auth_service.py.
pub mod Foreign
use squawk.Prelude.{
  Bool, true, false, Option, none, some, List, [], ◌∷◌, ◌++◌, all, Text, truthy, strip, words,
  if◌then◌else◌,
}
use squawk.Manager.Scopes.{system_admin_scopes, org_admin_scopes, user_manager_scopes, read_scopes}
use squawk.Manager.Access.{holds}

-- `all_valid_scopes`, of all roles
abbrev pub all_valid_scopes : List Text
all_valid_scopes = system_admin_scopes ++ (org_admin_scopes ++ (user_manager_scopes ++ read_scopes))

-- `requested.issubset(valid)` of the texts' words
abbrev pub is_subset : List Text → List Text → Bool
is_subset requested valid = all (λ s. holds s valid) requested

-- The scopes that `create_machine_client` stores, or that it rejects with 400.
unfoldable pub registered_scopes : Text → Option Text
registered_scopes scopes =
    if truthy (strip scopes)
    then if is_subset (words (strip scopes)) all_valid_scopes then some (strip scopes) else none
    else none

-- `validate_scope_subset`; the words of an empty text are none
unfoldable pub validate_scope_subset : Text → Text → Bool
validate_scope_subset requested registered = is_subset (words requested) (words registered)

-- The scopes of the token: the requested ones, or `invalid_scope`; without a request all of them.
unfoldable pub granted_scopes : Text → Text → Option Text
granted_scopes requested registered =
    if truthy (strip requested)
    then if validate_scope_subset (strip requested) registered then some (strip requested) else none
    else some registered
