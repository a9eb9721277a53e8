-- ===== src/Manager/Claims.antt =====
-- manager/backend/app/services/auth_service.py: the payloads that `AuthService` signs, and
-- `decode_token`. Times are in whole seconds.
use squawk.Prelude.{
  ℕ, ◌+◌, ◌<◌, ◌≡◌, Bool, false, Option, none, some, List, [], Text, codes, truthy, map,
  if◌then◌else◌,
}
use squawk.Manager.Scopes.{scope_string}

-- A key of a dict: a number, or a text as JSON has only.
pub data Key : Type 0 where
  number : ℕ → Key
  text : Text → Key

pub record Claims : Type 0 where
  pub token_type : Text
  pub tenant : Option Text
  pub user_id : ℕ
  pub jti : Option Text
  pub exp : ℕ
  pub scope : Option Text
  pub global_role : Option Text
  pub team_roles : List (Key × Text)

-- The settings that the payloads take.
pub record TokenConfig : Type 0 where
  pub tenant_id : Text
  pub access_expires : ℕ
  pub refresh_expires : ℕ

abbrev pub access : Text
access = codes "access"

abbrev pub refresh : Text
refresh = codes "refresh"

-- The payload of `create_access_token`
unfoldable pub create_access_token : TokenConfig → ℕ → ℕ → Option Text → List (Key × Text) → Claims
create_access_token c now user_id global_role team_roles = record {
  token_type = access;
  tenant = some c.tenant_id;
  user_id = user_id;
  jti = none;
  exp = now + c.access_expires;
  scope = some (scope_string global_role);
  global_role = global_role;
  team_roles = team_roles;
}

-- The payload of `create_refresh_token`, with the drawn id
unfoldable pub create_refresh_token : TokenConfig → ℕ → Text → ℕ → Claims
create_refresh_token c now drawn user_id = record {
  token_type = refresh;
  tenant = some c.tenant_id;
  user_id = user_id;
  jti = some drawn;
  exp = now + c.refresh_expires;
  scope = none;
  global_role = none;
  team_roles = [];
}

-- What `json.dumps` makes of a key, with `str` of a number.
abbrev pub json_key : (ℕ → Text) → Key → Key
json_key str (number n) = text (str n)
json_key str (text s) = text s

-- A payload as it is read from a token: its dicts have texts as keys.
unfoldable pub as_json : (ℕ → Text) → Claims → Claims
as_json str c = record c { team_roles = map (λ (k, role). (json_key str k, role)) c.team_roles }

-- `jwt.decode` of a token with a public key at a time, with the audience, the issuer and the required
-- claims of the manager: `none` if it raises. A token that has run out is refused, and a token has
-- one payload.
pub record Verifier : Type 0 where
  pub decode : ℕ → Text → Text → Option Claims
  pub decode-exp :
      (now : ℕ) (token key : Text) (c : Claims) → decode now token key ≡ some c → now < c.exp
  pub decode_once :
      (now later : ℕ) (token key : Text) (c d : Claims)
      → decode now token key ≡ some c
      → decode later token key ≡ some d
      → c ≡ d

abbrev pub names_tenant : Claims → Bool
names_tenant c = elim c.tenant [ none ↦ false | some t ↦ truthy t ]

-- `decode_token` of a user token, with the configured public key
unfoldable pub decode_token : Verifier → Option Text → ℕ → Text → Option Claims
decode_token v none now token = none
decode_token v (some key) now token =
    if truthy key
    then (elim (v.decode now token key) [
      | none ↦ none
      | some c ↦ if names_tenant c then some c else none
    ])
    else none
