-- ===== src/Ntp/Auth.antt =====
-- ntp-server/bins/server.py, `verify_jwt` and `_extract_nts_ke_auth_token`. The key of the
-- environment that is read again on each call is `public_key`.
pub mod Agreement
use squawk.Prelude.{
  ℕ, Bool, true, false, not, ◌&&◌, Option, none, some, List, [], ◌∷◌, Text, truthy, text_eq, any,
  words, strip, ◌==◌, if◌then◌else◌,
}
use squawk.Jwt.{
  Payload, DecodeFailure, invalid_signature, decode_error, Decoded, payload, failed, Jwt, Keys,
  lookup_key, named_kid, has_tenant,
}
use squawk.Ntp.Bytes.{Bytes}
use squawk.Ntp.Records.{NtsRecord, parse_all, squawk_auth_token}

-- `payload.get("scope", "").split()` holds the scope, or none is required.
unfoldable pub grants_scope : Text → Payload → Bool
grants_scope [] p = true
grants_scope (c ∷ scope) p = elim p.scope [
  | none ↦ false
  | some s ↦ any (λ w. text_eq w (c ∷ scope)) (words s)
]

-- The exceptions after which the loop goes on if the token names no key.
abbrev pub is_mismatch : DecodeFailure → Bool
is_mismatch invalid_signature = true
is_mismatch decode_error = true
is_mismatch _ = false

-- What the loop does with the result for one key; `rest` is the rest of the loop.
abbrev pub decide : Text → Bool → Decoded → Bool → Bool
decide scope has_kid (payload p) rest = has_tenant p && grants_scope scope p
decide scope has_kid (failed e) rest = if is_mismatch e && not has_kid then rest else false

-- The loop over the keys to try.
unfoldable pub check_keys : Jwt → Text → Bool → Text → List (Text × Text) → Bool
check_keys j scope has_kid token [] = false
check_keys j scope has_kid token ((k, key) ∷ keys) =
    let rest = check_keys j scope has_kid token keys in
    if truthy key then decide scope has_kid (j.decode token key) rest else rest

-- The keys to try, by the `kid` of the header; `none` denies at once.
unfoldable pub pick_keys : Keys → Option Text → Option (Bool × List (Text × Text))
pick_keys ks (some kid) = elim (lookup_key kid ks.public_keys) [
  | none ↦ none
  | some key ↦ some (true, (kid, key) ∷ [])
]
pick_keys ks none = elim ks.public_keys [
  | k ∷ keys ↦ some (false, k ∷ keys)
  | [] ↦ elim ks.public_key [
    | none ↦ none
    | some key ↦ if truthy key then some (false, ([], key) ∷ []) else none
  ]
]

-- `verify_jwt`; no scope is required if it is empty
unfoldable pub verify_jwt : Jwt → Keys → Text → Text → Bool
verify_jwt j ks token scope =
    if truthy token
    then (elim (j.header_kid token) [
      | none ↦ false
      | some kid ↦ elim (pick_keys ks (named_kid kid)) [
        | none ↦ false
        | some (has_kid, keys) ↦ check_keys j scope has_kid token keys
      ]
    ])
    else false

-- `body.decode("utf-8")`, which is Python's: `none` if it raises
abbrev pub Decoder : Type 0
Decoder = Bytes → Option Text

-- `token or None`
abbrev not_empty : Text → Option Text
not_empty [] = none
not_empty (c ∷ s) = some (c ∷ s)

-- The loop of `_extract_nts_ke_auth_token`.
unfoldable pub token_in : Decoder → List NtsRecord → Option Text
token_in utf8 [] = none
token_in utf8 (r ∷ rs) =
    let rest = token_in utf8 rs in
    if r.record_type == squawk_auth_token
    then (elim (utf8 r.body) [ none ↦ none | some text ↦ not_empty (strip text) ])
    else rest

-- `_extract_nts_ke_auth_token`
unfoldable pub extract_nts_ke_auth_token : Decoder → Bytes → Option Text
extract_nts_ke_auth_token utf8 request = token_in utf8 (parse_all request)
