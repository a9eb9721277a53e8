-- ===== src/Dns/JwtVerify.antt =====
-- dns-server/app/utils/jwt_verify.py. `public_keys` is a list, empty for a missing or an empty dict.
pub mod Checked
use squawk.Prelude.{
  Bool, true, false, not, Option, none, some, List, [], ◌∷◌, Text, truthy, if◌then◌else◌,
}
use squawk.Jwt.{
  Payload, DecodeFailure, invalid_signature, decode_error, Decoded, payload, failed, Jwt, Keys,
  lookup_key, named_kid, has_tenant,
}

-- The exceptions after which the loop goes on.
abbrev pub is_skipped : DecodeFailure → Bool
is_skipped invalid_signature = true
is_skipped decode_error = true
is_skipped _ = false

-- What the loop does with the result for one key; `rest` is the rest of the loop.
abbrev pub attempt : Decoded → Option Payload → Option Payload
attempt (payload p) rest = if has_tenant p then some p else none
attempt (failed e) rest = if is_skipped e then rest else none

-- The loop over the keys to try.
unfoldable pub attempt_keys : Jwt → Text → List (Text × Text) → Option Payload
attempt_keys j token [] = none
attempt_keys j token ((k, key) ∷ keys) =
    let rest = attempt_keys j token keys in
    if truthy key then attempt (j.decode token key) rest else rest

-- The keys to try, by the `kid` of the header; `none` denies at once.
unfoldable pub select_keys : Keys → Option Text → Option (List (Text × Text))
select_keys ks (some kid) = elim (lookup_key kid ks.public_keys) [
  | none ↦ none
  | some key ↦ some ((kid, key) ∷ [])
]
select_keys ks none = elim ks.public_keys [
  | k ∷ keys ↦ some (k ∷ keys)
  | [] ↦ elim ks.public_key [
    | none ↦ none
    | some key ↦ if truthy key then some (([], key) ∷ []) else none
  ]
]

-- `verify_squawk_jwt`
unfoldable pub verify_squawk_jwt : Jwt → Keys → Text → Option Payload
unfolding select_keys attempt_keys
verify_squawk_jwt j ks token =
    if truthy token
    then (elim (j.header_kid token) [
      | none ↦ none
      | some kid ↦ elim (select_keys ks (named_kid kid)) [
        | none ↦ none
        | some keys ↦ attempt_keys j token keys
      ]
    ])
    else none
