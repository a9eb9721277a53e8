-- ===== src/Manager/Tests.antt =====
-- The manager on sample data: a user of one team, a token that is refreshed, and an account at the
-- threshold of its lockout.
use squawk.Prelude.{
  strip, rstrip, drop_while, words, length, ℕ, ◌<◌, ◌≤◌, ◌≡◌, true, false, ltb, Option, none, some,
  List, [], ◌∷◌, Text, codes, text_eq, refl, arith, ap, sym, ◌∙◌, Bool-cases, inl, inr,
  if◌then◌else◌,
}
use squawk.Manager.Scopes.{system_admin, expand_scopes}
use squawk.Manager.Claims.{
  number, Claims, TokenConfig, Verifier, create_access_token, create_refresh_token, decode_token,
}
use squawk.Manager.Sessions.{
  User, Auth, Revoked, Account, LockoutConfig, logs_out, refresh_access_token, presented,
  after_requests, authenticate_user, purge, revoke_jti, is_refresh_token_revoked,
}
use squawk.Manager.Sessions.SingleUse.{refresh_access_token-once}
use squawk.Manager.Sessions.Lockout.{attempts, succeeds, authenticate_user-lockout}
use squawk.Jwt.{Payload}
use squawk.Ntp.Auth.{grants_scope}
use squawk.Ntp.KeyExchange.{required_scope}
use squawk.Manager.Machines.{registered_scopes, granted_scopes, validate_scope_subset}
use squawk.Manager.Machines.Foreign.{grants_scope-granted_scopes}
use squawk.Manager.Gate.{
  HttpRequest, token_required, enters, extract_bearer_or_cookie_token, check_token,
  csrf_check_passes, csrf_fails, check_claims, is_protected, is_session_type,
}
use squawk.Manager.Gate.Browsers.{Carries, token_required-enters}
use squawk.Manager.CallLimit.{recent}
use squawk.Manager.CallLimit.Window.{called, called-limit}
use squawk.Manager.Access.{calls, answers, user_scopes, can_access_team, requires_team_role}
use squawk.Manager.Access.Issued.{issued, user_scopes-issued, can_access_team-issued}

abbrev tokens : TokenConfig
tokens = record { tenant_id = codes "default"; access_expires = 900; refresh_expires = 604800 }

-- The refresh token of user 7 with the id `j1`.
abbrev first_token : Claims
first_token = record {
  token_type = codes "refresh";
  tenant = some (codes "default");
  user_id = 7;
  jti = some (codes "j1");
  exp = 604800;
  scope = none;
  global_role = none;
  team_roles = [];
}

-- Every token is one of these claims, until they run out.
abbrev until : Claims → ℕ → Text → Text → Option Claims
until only now token key = if ltb now only.exp then some only else none

until-exp :
    (only : Claims) (now : ℕ) (token key : Text) (c : Claims)
    → until only now token key ≡ some c
    → now < c.exp
until-exp only now token key c h = elim (Bool-cases (ltb now only.exp)) [
  | inl e ↦
      let same : only ≡ c = ground (arith, e, h) in
      ground (arith, e, ap (λ (x : Claims). x.exp) same)
  | inr e ↦ ground (arith, e, h)
]

until-some :
    (only : Claims) (now : ℕ) (token key : Text) (c : Claims)
    → until only now token key ≡ some c
    → only ≡ c
until-some only now token key c h = elim (Bool-cases (ltb now only.exp)) [
  | inl e ↦ ground (arith, e, h)
  | inr e ↦ ground (arith, e, h)
]

abbrev verifier_of : Claims → Verifier
verifier_of only = record {
  decode = until only;
  decode-exp = until-exp only;
  decode_once = λ now later token key c d h h'.
      sym (until-some only now token key c h) ∙ until-some only later token key d h';
}

abbrev viewer : User
viewer = record {
  id = 7;
  active = true;
  global_role = some (codes "Viewer");
  team_roles = (number 3, codes "TeamAdmin") ∷ [];
}

abbrev auth : Auth
auth = record {
  verifier = verifier_of first_token;
  public_key = some (codes "K");
  config = tokens;
  auth_user = λ id. some viewer;
}

abbrev used : List Revoked
used = record { jti = codes "j1"; expires_at = 604800 } ∷ []

abbrev new_tokens : Claims × Claims
new_tokens = (
  create_access_token tokens 100 7 (some (codes "Viewer")) viewer.team_roles,
  create_refresh_token tokens 100 (codes "j2") 7,
)

refreshed : refresh_access_token auth 100 (codes "j2") (codes "t") [] ≡ (some new_tokens, used)
unfolding refresh_access_token presented decode_token is_refresh_token_revoked revoke_jti purge
    text_eq
refreshed = refl

refresh_access_token-once_example :
    (refresh_access_token auth 300
      (codes "j3")
      (codes "t")
      (after_requests auth (logs_out 200 (codes "t") ∷ []) used)).0
    ≡ none
refresh_access_token-once_example =
    refresh_access_token-once auth 100 (codes "j2") (codes "t") [] used new_tokens
      (logs_out 200 (codes "t") ∷ []) 300 (codes "j3") refreshed (omega arith, tt)

abbrev lockout : LockoutConfig
lockout = record { threshold = 5; base_seconds = 30; max_seconds = 3600 }

abbrev account : Account
account = record { active = true; failed_login_count = 4; locked_until = none }

authenticate_user-lockout_example :
    (succeeds lockout ((10, true) ∷ (29, true) ∷ []) (authenticate_user lockout 0 false account).1
      ≡ false)
    × (attempts lockout ((10, true) ∷ (29, true) ∷ []) (authenticate_user lockout 0 false account).1
        ≡ (authenticate_user lockout 0 false account).1)
    × ((later : ℕ)
        → 30 ≤ later
        → (authenticate_user lockout later true (authenticate_user lockout 0 false account).1).0
          ≡ true)
authenticate_user-lockout_example =
    authenticate_user-lockout lockout 0 account ((10, true) ∷ (29, true) ∷ []) 30 refl refl
      (omega arith) refl (omega arith, (omega arith, tt))

user_scopes-issued_example :
    user_scopes (some (issued (λ n. codes "3") tokens 100 7 (some system_admin) []))
    ≡ expand_scopes (some system_admin)
user_scopes-issued_example = user_scopes-issued (λ n. codes "3") tokens 100 7 (some system_admin) []

abbrev viewer_token : Claims
viewer_token = issued (λ n. codes "3") tokens 100 7 (some (codes "Viewer")) viewer.team_roles

can_access_team-issued_example :
    (can_access_team 3 (some viewer_token) ≡ text_eq (codes "Viewer") system_admin)
    × (requires_team_role (codes "TeamAdmin" ∷ []) (some 4) (some viewer_token)
        ≡ (if text_eq (codes "Viewer") system_admin then calls else answers 403))
can_access_team-issued_example =
    can_access_team-issued (λ n. codes "3") tokens 100 7 (some (codes "Viewer")) viewer.team_roles 3
      (codes "TeamAdmin" ∷ [])

-- A browser that posts with its cookies and the header of the double submit.
abbrev posted : HttpRequest
posted = record {
  method = codes "POST";
  authorization = none;
  access_cookie = some (codes "a");
  csrf_cookie = some (codes "x");
  csrf_header = some (codes "x");
}

abbrev access_claims : Claims
access_claims = create_access_token tokens 100 7 (some (codes "Viewer")) []

abbrev access_verifier : Verifier
access_verifier = verifier_of access_claims

entered : token_required access_verifier (some (codes "K")) 200 posted ≡ enters access_claims
unfolding token_required extract_bearer_or_cookie_token check_token csrf_fails check_claims
    csrf_check_passes is_protected decode_token create_access_token text_eq
entered = refl

token_required-enters_example :
    (token : Text) × Carries posted token
    × (decode_token access_verifier (some (codes "K")) 200 token ≡ some access_claims)
    × (is_session_type access_claims.token_type ≡ true)
token_required-enters_example =
    token_required-enters access_verifier (some (codes "K")) 200 posted access_claims entered

-- Three calls of one client and one of another, with two a minute allowed.
abbrev client_calls : List (ℕ × Text)
client_calls = (1, codes "a") ∷ (2, codes "b") ∷ (30, codes "a") ∷ (59, codes "a") ∷ []

called-limit_example : length (recent 60 60 (called 2 60 (codes "a") client_calls [])) ≤ 2
called-limit_example =
    called-limit 2 60 (codes "a") client_calls 60
      (omega arith, (omega arith, (omega arith, (omega arith, tt))))
      (omega arith, (omega arith, (omega arith, (omega arith, tt))))

-- A client that registers two scopes and asks for one.
registered :
    registered_scopes (codes "dhcp:read servers:read ") ≡ some (codes "dhcp:read servers:read")
unfolding registered_scopes strip rstrip drop_while words text_eq
registered = refl

given :
    granted_scopes (codes "dhcp:read") (codes "dhcp:read servers:read") ≡ some (codes "dhcp:read")
unfolding granted_scopes validate_scope_subset strip rstrip drop_while words text_eq
given = refl

abbrev machine : Payload
machine = record {
  sub = some (codes "client:m");
  tenant = some (codes "default");
  scope = some (codes "dhcp:read");
  role = none;
  team_roles = [];
  dns_domains = none;
}

grants_scope-granted_scopes_example : grants_scope required_scope machine ≡ false
grants_scope-granted_scopes_example =
    grants_scope-granted_scopes (codes "dhcp:read servers:read ") (codes "dhcp:read servers:read")
      (codes "dhcp:read") (codes "dhcp:read") machine registered given refl
