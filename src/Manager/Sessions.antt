-- ===== src/Manager/Sessions.antt =====
-- manager/backend/app/services/auth_service.py: refresh tokens, which are rotated and revoked by their
-- ids on a denylist, and the lockout of accounts. The tables are lists of rows, and the clock is read
-- once per call; times are in whole seconds.
pub mod Denylist
pub mod SingleUse
pub mod Lockout
use squawk.Prelude.{
  ℕ, ◌+◌, ◌-◌, ◌*◌, ◌^◌, Bool, true, false, not, ◌&&◌, ◌||◌, Option, none, some, List, [], ◌∷◌,
  ◌++◌, any, Text, text_eq, truthy, ltb, leb, min, if◌then◌else◌,
}
use squawk.Manager.Claims.{
  Key, Claims, TokenConfig, Verifier, refresh, create_access_token, create_refresh_token,
  decode_token,
}

-- A row of `revoked_token`, the columns that are read
pub record Revoked : Type 0 where
  pub jti : Text
  pub expires_at : ℕ

-- `db(db.revoked_token.expires_at < now).delete()`
unfoldable pub purge : ℕ → List Revoked → List Revoked
purge now [] = []
purge now (r ∷ rs) = let rest = purge now rs in if ltb r.expires_at now then rest else r ∷ rest

-- `is_refresh_token_revoked`
unfoldable pub is_refresh_token_revoked : Text → List Revoked → Bool
is_refresh_token_revoked jti rs = any (λ (r : Revoked). text_eq r.jti jti) rs

-- `_revoke_jti`
unfoldable pub revoke_jti : ℕ → Text → ℕ → List Revoked → List Revoked
revoke_jti now jti expires_at rs =
    let kept = purge now rs in
    if is_refresh_token_revoked jti kept
    then kept
    else kept ++ (record { jti = jti; expires_at = expires_at } ∷ [])

-- A row of `auth_user`, and the memberships of the user
pub record User : Type 0 where
  pub id : ℕ
  pub active : Bool
  pub global_role : Option Text
  pub team_roles : List (Key × Text)

-- The settings, the verification, the public key and the users.
pub record Auth : Type 0 where
  pub verifier : Verifier
  pub public_key : Option Text
  pub config : TokenConfig
  pub auth_user : ℕ → Option User

-- `payload.get('jti')` of a refresh token, if it is not empty
abbrev pub refresh_jti : Claims → Option Text
refresh_jti c =
    if text_eq c.token_type refresh
    then (elim c.jti [ none ↦ none | some jti ↦ if truthy jti then some jti else none ])
    else none

-- The presented refresh token: its payload and its id.
unfoldable pub presented : Auth → ℕ → Text → Option (Claims × Text)
presented a now token = elim (decode_token a.verifier a.public_key now token) [
  | none ↦ none
  | some c ↦ elim (refresh_jti c) [ none ↦ none | some jti ↦ some (c, jti) ]
]

-- `revoke_refresh_token`
unfoldable pub revoke_refresh_token : Auth → ℕ → Text → List Revoked → Bool × List Revoked
revoke_refresh_token a now token rs = elim (presented a now token) [
  | none ↦ (false, rs)
  | some (c, jti) ↦ (true, revoke_jti now jti c.exp rs)
]

-- The end of `refresh_access_token`, for the user of the token.
abbrev pub rotate :
    Auth
    → ℕ
    → Text
    → Claims
    → Text
    → Option User
    → List Revoked
    → Option (Claims × Claims) × List Revoked
rotate a now drawn c jti none rs = (none, rs)
rotate a now drawn c jti (some u) rs =
    if u.active
    then (
      some (
        create_access_token a.config now u.id u.global_role u.team_roles,
        create_refresh_token a.config now drawn u.id,
      ),
      revoke_jti now jti c.exp rs,
    )
    else (none, rs)

-- `refresh_access_token`: the payloads of the new tokens
unfoldable pub refresh_access_token :
    Auth → ℕ → Text → Text → List Revoked → Option (Claims × Claims) × List Revoked
refresh_access_token a now drawn token rs = elim (presented a now token) [
  | none ↦ (none, rs)
  | some (c, jti) ↦
      if is_refresh_token_revoked jti rs
      then (none, rs)
      else rotate a now drawn c jti (a.auth_user c.user_id) rs
]

-- What clients ask for, at a time.
pub data Request : Type 0 where
  refreshes : ℕ → Text → Text → Request
  logs_out : ℕ → Text → Request

-- The denylist after a request.
unfoldable pub after_request : Auth → Request → List Revoked → List Revoked
after_request a (refreshes now drawn token) rs = (refresh_access_token a now drawn token rs).1
after_request a (logs_out now token) rs = (revoke_refresh_token a now token rs).1

unfoldable pub after_requests : Auth → List Request → List Revoked → List Revoked
after_requests a [] rs = rs
after_requests a (q ∷ qs) rs = after_requests a qs (after_request a q rs)

-- The lockout settings.
pub record LockoutConfig : Type 0 where
  pub threshold : ℕ
  pub base_seconds : ℕ
  pub max_seconds : ℕ

-- `failed_login_count` and `locked_until` of an account, and whether it is active
pub record Account : Type 0 where
  pub active : Bool
  pub failed_login_count : ℕ
  pub locked_until : Option ℕ

abbrev pub is_locked : ℕ → Account → Bool
is_locked now u = elim u.locked_until [ none ↦ false | some t ↦ ltb now t ]

-- The update after a wrong password.
unfoldable pub failed_login : LockoutConfig → ℕ → Account → Account
failed_login c now u =
    let failed_count = u.failed_login_count + 1 in
    let backoff_seconds = min (c.base_seconds * 2 ^ (failed_count - c.threshold)) c.max_seconds in
    if leb c.threshold failed_count
    then record u { failed_login_count = failed_count; locked_until = some (now + backoff_seconds) }
    else record u { failed_login_count = failed_count }

-- `authenticate_user` for an account that exists, with the result of `verify_password`
unfoldable pub authenticate_user : LockoutConfig → ℕ → Bool → Account → Bool × Account
authenticate_user c now verified u =
    if not u.active || is_locked now u
    then (false, u)
    else if verified
    then (true, record u { failed_login_count = 0; locked_until = none })
    else (false, failed_login c now u)
