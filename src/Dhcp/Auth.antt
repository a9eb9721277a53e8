-- ===== src/Dhcp/Auth.antt =====
-- dhcp-server/app/auth.py
pub mod Verified
use squawk.Prelude.{
  ℕ, Bool, true, false, not, ◌&&◌, ◌||◌, Option, none, some, List, [], ◌∷◌, Text, codes, text_eq,
  truthy, starts_with, words, any, if◌then◌else◌,
}
use squawk.Jwt.{
  Payload, DecodeFailure, invalid_signature, expired_signature, Decoded, payload, failed, Jwt, Keys,
  lookup_key, named_kid, has_tenant,
}

abbrev pub bearer : Text
bearer = codes "Bearer "

abbrev drop_seven : Text → Text
drop_seven (a ∷ b ∷ c ∷ d ∷ e ∷ f ∷ g ∷ s) = s
drop_seven _ = []

-- `extract_token`
unfoldable pub extract_token : Text → Option Text
extract_token header =
    if not (truthy header) || not (starts_with header bearer)
    then none
    else some (drop_seven header)

-- The exceptions after which the loop goes on if the token names no key.
abbrev pub mismatch : DecodeFailure → Bool
mismatch invalid_signature = true
mismatch expired_signature = true
mismatch _ = false

-- What the loop of `verify_token` does with the result for one key; `rest` is the rest of the loop.
abbrev pub judge : Bool → Decoded → Option Payload → Option Payload
judge has_kid (payload p) rest = if has_tenant p then some p else none
judge has_kid (failed e) rest = if mismatch e && not has_kid then rest else none

-- The loop of `verify_token` over the keys to try.
unfoldable pub try_keys : Jwt → Bool → Text → List (Text × Text) → Option Payload
try_keys j has_kid token [] = none
try_keys j has_kid token ((k, key) ∷ keys) =
    let rest = try_keys j has_kid token keys in
    if truthy key then judge has_kid (j.decode token key) rest else rest

-- The keys to try, by the `kid` of the header; `none` denies at once.
unfoldable pub keys_to_try : Keys → Option Text → Option (Bool × List (Text × Text))
keys_to_try ks (some kid) = elim (lookup_key kid ks.public_keys) [
  | none ↦ none
  | some key ↦ some (true, (kid, key) ∷ [])
]
keys_to_try ks none = elim ks.public_keys [
  | k ∷ keys ↦ some (false, k ∷ keys)
  | [] ↦ elim ks.public_key [
    | none ↦ none
    | some key ↦ if truthy key then some (false, ([], key) ∷ []) else none
  ]
]

-- `verify_token`; the pair `(True, payload)` is `some payload`, and `(False, None)` is `none`
unfoldable pub verify_token : Jwt → Keys → Text → Option Payload
unfolding keys_to_try try_keys
verify_token j ks token =
    if truthy token
    then (elim (j.header_kid token) [
      | none ↦ none
      | some kid ↦ elim (keys_to_try ks (named_kid kid)) [
        | none ↦ none
        | some (has_kid, keys) ↦ try_keys j has_kid token keys
      ]
    ])
    else none

abbrev or_empty : Option Text → Text
or_empty none = []
or_empty (some s) = s

-- `check_scope`
unfoldable pub check_scope : Payload → Text → Bool
check_scope p required = any (λ w. text_eq w required) (words (or_empty p.scope))

abbrev empty_token : Option Text → Option Text
empty_token none = none
empty_token (some []) = none
empty_token (some (c ∷ s)) = some (c ∷ s)

-- `check_auth`: the status code and the claims
unfoldable pub check_auth : Jwt → Keys → Text → Text → ℕ × Option Payload
check_auth j ks header required = elim (empty_token (extract_token header)) [
  | none ↦ (403, none)
  | some token ↦ elim (verify_token j ks token) [
    | none ↦ (401, none)
    | some p ↦ if check_scope p required then (200, some p) else (403, none)
  ]
]
