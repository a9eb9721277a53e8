-- ===== src/Manager/Gate.antt =====
-- manager/backend/app/middleware/auth.py, `token_required`, `optional_token`, `verify_jwt` and
-- `has_scope`, with app/services/cookie_auth.py, which finds the token of a request and checks the
-- double submit of browsers.
pub mod Browsers
use squawk.Prelude.{
  ℕ, Bool, true, false, not, ◌&&◌, ◌||◌, Option, none, some, List, [], ◌∷◌, any, all, ltb, Text,
  codes, text_eq, truthy, split, words, starts_with, drop, if◌then◌else◌,
}
use squawk.Manager.Claims.{Claims, Verifier, access, decode_token}

-- What is read of a request: headers and cookies that are there.
pub record HttpRequest : Type 0 where
  pub method : Text
  pub authorization : Option Text
  pub access_cookie : Option Text
  pub csrf_cookie : Option Text
  pub csrf_header : Option Text

-- `_CSRF_PROTECTED_METHODS`
abbrev pub csrf_protected_methods : List Text
csrf_protected_methods = codes "POST" ∷ codes "PUT" ∷ codes "PATCH" ∷ codes "DELETE" ∷ []

-- A text that is there and not empty.
abbrev pub present : Option Text → Option Text
present none = none
present (some []) = none
present (some (c ∷ s)) = some (c ∷ s)

-- The second part of a header of two parts.
abbrev pub second_part : List Text → Option Text
second_part (a ∷ b ∷ []) = some b
second_part _ = none

-- `extract_bearer_or_cookie_token`
unfoldable pub extract_bearer_or_cookie_token : HttpRequest → Option Text × Bool
extract_bearer_or_cookie_token r = elim (present r.authorization) [
  | some header ↦ (second_part (split 32 header), false)
  | none ↦ elim (present r.access_cookie) [ some token ↦ (some token, true) | none ↦ (none, false) ]
]

-- `request.method in _CSRF_PROTECTED_METHODS`
unfoldable pub is_protected : HttpRequest → Bool
is_protected r = any (λ m. text_eq m r.method) csrf_protected_methods

abbrev is_ascii : ℕ → Bool
is_ascii c = ltb c 128

-- `secrets.compare_digest` of two texts, which raises `TypeError` (`none`) unless both are ASCII
abbrev pub compare_digest : Text → Text → Option Bool
compare_digest a b = if all is_ascii a && all is_ascii b then some (text_eq a b) else none

-- `csrf_check_passes`; `none` stands for the `TypeError`
unfoldable pub csrf_check_passes : HttpRequest → Option Bool
csrf_check_passes r =
    if is_protected r
    then (elim (present r.csrf_cookie) [
      | none ↦ some false
      | some cookie ↦ elim (present r.csrf_header) [
        | none ↦ some false
        | some header ↦ compare_digest cookie header
      ]
    ])
    else some true

-- What the decorator does: it stores the caller and calls the function, answers with a status, or
-- is left by an exception.
pub data Gate : Type 0 where
  enters : Claims → Gate
  denied : ℕ → Gate
  crashed : Gate

abbrev pub is_session_type : Text → Bool
is_session_type t = text_eq t access || text_eq t (codes "server")

-- The token itself, once the double submit has been checked.
unfoldable pub check_claims : Verifier → Option Text → ℕ → Text → Gate
check_claims v key now token = elim (decode_token v key now token) [
  | none ↦ denied 401
  | some c ↦ if is_session_type c.token_type then enters c else denied 401
]

-- `from_cookie and not csrf_check_passes()`; only a token from the cookie asks for the check.
unfoldable pub csrf_fails : HttpRequest → Bool → Option Bool
csrf_fails r from_cookie =
    if from_cookie
    then (elim (csrf_check_passes r) [ none ↦ none | some passes ↦ some (not passes) ])
    else some false

-- `token_required` once there is a token.
unfoldable pub check_token : Verifier → Option Text → ℕ → HttpRequest → Text → Bool → Gate
unfolding check_claims
check_token v key now r token from_cookie = elim (csrf_fails r from_cookie) [
  | none ↦ crashed
  | some fails ↦ if fails then denied 403 else check_claims v key now token
]

-- `token_required`; an authorization header without a token is denied too
unfoldable pub token_required : Verifier → Option Text → ℕ → HttpRequest → Gate
token_required v key now r =
    let (token, from_cookie) = extract_bearer_or_cookie_token r in
    elim (present token) [ none ↦ denied 401 | some t ↦ check_token v key now r t from_cookie ]

-- The caller that `optional_token` stores; the second part of the header counts whatever follows it
unfoldable pub optional_token : Verifier → Option Text → ℕ → HttpRequest → Option Claims
optional_token v key now r = elim (present r.authorization) [
  | none ↦ none
  | some header ↦ elim (split 32 header) [
    | [] ↦ none
    | a ∷ rest ↦ elim rest [
      | [] ↦ none
      | token ∷ more ↦ if truthy token then decode_token v key now token else none
    ]
  ]
]

-- `verify_jwt`, of the header
unfoldable pub verify_bearer : Verifier → Option Text → ℕ → Option Text → Option Claims
verify_bearer v key now header = elim (present header) [
  | none ↦ none
  | some h ↦ if starts_with h (codes "Bearer ") then decode_token v key now (drop 7 h) else none
]

-- `has_scope`
unfoldable pub has_scope : Text → Text → Bool
has_scope scope_string required =
    if truthy scope_string then any (λ s. text_eq s required) (words scope_string) else false
