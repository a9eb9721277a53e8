-- ===== src/Ntp/Auth/Agreement.antt =====
-- `verify_jwt` against the check of dns-server.
use squawk.Prelude.{
  Bool, true, false, ◌≡◌, Option, none, some, List, [], ◌∷◌, Text, truthy, arith, refl, Bool-cases,
  Option-cases, List-cases, inl, inr,
}
use squawk.Jwt.{Payload, Decoded, payload, failed, Jwt, Keys, lookup_key, named_kid}
use squawk.Dns.JwtVerify.{attempt, attempt_keys, select_keys, verify_squawk_jwt}
use squawk.Ntp.Auth.{grants_scope, decide, check_keys, pick_keys, verify_jwt}

-- Whether a payload was found that grants the scope.
abbrev granted : Text → Option Payload → Bool
granted scope none = false
granted scope (some p) = grants_scope scope p

decide-attempt :
    (scope : Text) (d : Decoded) (rest : Bool) (rest' : Option Payload)
    → rest ≡ granted scope rest'
    → decide scope false d rest ≡ granted scope (attempt d rest')
decide-attempt scope (payload p) rest rest' h = ground arith
decide-attempt scope (failed f) rest rest' h = ground (arith, h)

decide-last :
    (scope : Text) (d : Decoded) → decide scope true d false ≡ granted scope (attempt d none)
decide-last scope (payload p) = ground arith
decide-last scope (failed f) = ground arith

module _ (j : Jwt) (token scope : Text) where
  check_keys-attempt_keys :
      (keys : List (Text × Text))
      → check_keys j scope false token keys ≡ granted scope (attempt_keys j token keys)
  unfolding check_keys attempt_keys
  check_keys-attempt_keys [] = refl
  check_keys-attempt_keys ((k, key) ∷ keys) =
      let later = check_keys-attempt_keys keys in
      let step =
        decide-attempt scope (j.decode token key) (check_keys j scope false token keys)
          (attempt_keys j token keys) later in
      ground (arith, later, step)

  check_keys-single :
      (k key : Text)
      → check_keys j scope true token ((k, key) ∷ [])
        ≡ granted scope (attempt_keys j token ((k, key) ∷ []))
  unfolding check_keys attempt_keys
  check_keys-single k key = ground (arith, decide-last scope (j.decode token key))

  same_keys :
      (ks : Keys) (kid : Option Text)
      → (elim (pick_keys ks kid) [
        | none ↦ false
        | some (has_kid, keys) ↦ check_keys j scope has_kid token keys
      ])
        ≡ granted scope
            (elim (select_keys ks kid) [ none ↦ none | some keys ↦ attempt_keys j token keys ])
  unfolding pick_keys select_keys
  same_keys ks (some name) = elim (Option-cases (lookup_key name ks.public_keys)) [
    | inl e ↦ ground arith
    | inr (key, e) ↦ ground (arith, check_keys-single name key)
  ]
  same_keys ks none = elim (List-cases ks.public_keys) [
    | inr (x, rest, e) ↦ ground (arith, check_keys-attempt_keys (x ∷ rest))
    | inl e ↦ elim (Option-cases ks.public_key) [
      | inl en ↦ ground arith
      | inr (key, es) ↦ ground (arith, check_keys-attempt_keys (([], key) ∷ []))
    ]
  ]

  -- A token passes the time server's check exactly if it passes the DNS server's with the same keys
  -- and its payload grants the scope.
  pub verify_jwt-verify_squawk_jwt :
      (ks : Keys)
      → verify_jwt j ks token scope
        ≡ (elim (verify_squawk_jwt j ks token) [ none ↦ false | some p ↦ grants_scope scope p ])
  unfolding verify_jwt verify_squawk_jwt
  verify_jwt-verify_squawk_jwt ks = elim (Bool-cases (truthy token)) [
    | inr e ↦ ground arith
    | inl e ↦ elim (Option-cases (j.header_kid token)) [
      | inl eh ↦ ground arith
      | inr (kid, eh) ↦ ground (arith, same_keys ks (named_kid kid))
    ]
  ]
