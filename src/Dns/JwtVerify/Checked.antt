-- ===== src/Dns/JwtVerify/Checked.antt =====
-- What a token that passes has passed, and how the DNS server's check and the DHCP server's compare.
use squawk.Prelude.{
  List-cases, none, Option-cases, false, subst, ap, arith, inr, truthy, inl, Bool-cases, Option,
  ◌⊎◌, true, In, some, ◌≡◌, ◌≢◌, List, Bool, Text, refl, [], ◌∷◌,
}
use squawk.Jwt.{
  Payload, Decoded, payload, failed, Jwt, Keys, lookup_key, named_kid, has_tenant,
  invalid_signature, decode_error, expired_signature, invalid_audience, invalid_issuer,
  missing_claim, invalid_token, other_exception, IsConfigured,
}
use squawk.Dhcp.Auth.{keys_to_try, try_keys, verify_token, judge}
use squawk.Dhcp.Auth.Verified.{keys_to_try-In, Verifies}
use squawk.Dns.JwtVerify.{attempt, attempt_keys, select_keys, verify_squawk_jwt}

-- The keys that the two servers try are the same.
select-keys_to_try :
    (ks : Keys) (kid : Option Text) (keys : List (Text × Text))
    → select_keys ks kid ≡ some keys
    → (has_kid : Bool) × (keys_to_try ks kid ≡ some (has_kid, keys))
unfolding select_keys keys_to_try
select-keys_to_try ks (some name) keys h = (true, ground arith)
select-keys_to_try ks none keys h = (false, ground arith)

attempt-some :
    (d : Decoded) (rest : Option Payload) (p : Payload)
    → attempt d rest ≡ some p
    → ((d ≡ payload p) × (has_tenant p ≡ true)) ⊎ (rest ≡ some p)
attempt-some (payload q) rest p h = elim (Bool-cases (has_tenant q)) [
  | inl t ↦
      let same : q ≡ p = ground arith in
      inl (ap payload same, subst (λ (x : Payload). has_tenant x ≡ true) same t)
  | inr f ↦ ground arith
]
attempt-some (failed e) rest p h = inr (ground arith)

-- The two loops do the same with a result, unless the token has run out or is malformed.
attempt-judge :
    (d : Decoded) (rest : Option Payload)
    → d ≢ failed expired_signature
    → d ≢ failed decode_error
    → attempt d rest ≡ judge false d rest
attempt-judge (payload p) rest ne nd = refl
attempt-judge (failed invalid_signature) rest ne nd = refl
attempt-judge (failed decode_error) rest ne nd = absurd (nd refl)
attempt-judge (failed expired_signature) rest ne nd = absurd (ne refl)
attempt-judge (failed invalid_audience) rest ne nd = refl
attempt-judge (failed invalid_issuer) rest ne nd = refl
attempt-judge (failed missing_claim) rest ne nd = refl
attempt-judge (failed invalid_token) rest ne nd = refl
attempt-judge (failed other_exception) rest ne nd = refl

-- With nothing left to try they do the same in any case.
attempt-last : (d : Decoded) → attempt d none ≡ judge true d none
attempt-last (payload p) = refl
attempt-last (failed f) = ground arith

module _ (j : Jwt) (token : Text) where
  -- A payload comes from one of the keys that are tried.
  attempt_keys-some :
      (keys : List (Text × Text)) (p : Payload)
      → attempt_keys j token keys ≡ some p
      → (k : Text) × (key : Text) × In (k, key) keys × Verifies j token p key
  unfolding attempt_keys
  attempt_keys-some [] p h = cc
  attempt_keys-some ((k, key) ∷ keys) p h = elim (Bool-cases (truthy key)) [
    | inr e ↦
        let later = attempt_keys-some keys p (ground arith) in
        (later.0, later.1, inr later.2, later.3)
    | inl e ↦
        elim (attempt-some (j.decode token key) (attempt_keys j token keys) p (ground arith)) [
          | inl found ↦ (k, key, inl refl, found)
          | inr rest ↦
              let later = attempt_keys-some keys p rest in (later.0, later.1, inr later.2, later.3)
        ]
  ]

  -- A token passes only if a configured key verifies it, for a tenant; if its header names a key,
  -- it is the key of that name.
  pub verify_squawk_jwt-some :
      (ks : Keys) (p : Payload)
      → verify_squawk_jwt j ks token ≡ some p
      → (kid : Option Text) × (key : Text) × (j.header_kid token ≡ some kid)
        × Verifies j token p key
        × IsConfigured ks key
        × ((name : Text) → named_kid kid ≡ some name → lookup_key name ks.public_keys ≡ some key)
  unfolding verify_squawk_jwt
  verify_squawk_jwt-some ks p h = elim (Bool-cases (truthy token)) [
    | inr e ↦ ground arith
    | inl e ↦ elim (Option-cases (j.header_kid token)) [
      | inl eh ↦ ground arith
      | inr (kid, eh) ↦ elim (Option-cases (select_keys ks (named_kid kid))) [
        | inl ek ↦ ground arith
        | inr (keys, ek) ↦
            let (k, key, m, ok) = attempt_keys-some keys p (ground arith) in
            let (has_kid, picked) = select-keys_to_try ks (named_kid kid) keys ek in
            let (configured, named) =
              keys_to_try-In ks (named_kid kid) has_kid keys k key picked m in
            (kid, key, eh, ok, configured, named)
      ]
    ]
  ]

  -- No key fails on the token because it has run out or is malformed.
  abbrev pub IsWellTimed : Type 0
  IsWellTimed =
      (key : Text)
      → (j.decode token key ≢ failed expired_signature) × (j.decode token key ≢ failed decode_error)

  attempt_keys-try_keys :
      IsWellTimed
      → (keys : List (Text × Text)) → attempt_keys j token keys ≡ try_keys j false token keys
  unfolding attempt_keys try_keys
  attempt_keys-try_keys w [] = refl
  attempt_keys-try_keys w ((k, key) ∷ keys) =
      let step =
        attempt-judge (j.decode token key) (attempt_keys j token keys) (w key).0 (w key).1 in
      let later = attempt_keys-try_keys w keys in ground (arith, step, later)

  attempt_keys-single :
      (k key : Text) → attempt_keys j token ((k, key) ∷ []) ≡ try_keys j true token ((k, key) ∷ [])
  unfolding attempt_keys try_keys
  attempt_keys-single k key = ground (arith, attempt-last (j.decode token key))

  -- The servers agree on the keys of one `kid`.
  same_keys :
      (ks : Keys) (kid : Option Text)
      → (kid ≡ none → IsWellTimed)
      → (elim (select_keys ks kid) [ none ↦ none | some keys ↦ attempt_keys j token keys ])
        ≡ (elim (keys_to_try ks kid) [
          | none ↦ none
          | some (has_kid, keys) ↦ try_keys j has_kid token keys
        ])
  unfolding select_keys keys_to_try
  same_keys ks (some name) w = elim (Option-cases (lookup_key name ks.public_keys)) [
    | inl e ↦ ground arith
    | inr (key, e) ↦ ground (arith, attempt_keys-single name key)
  ]
  same_keys ks none w = elim (List-cases ks.public_keys) [
    | inr (x, rest, e) ↦ ground (arith, attempt_keys-try_keys (w refl) (x ∷ rest))
    | inl e ↦ elim (Option-cases ks.public_key) [
      | inl en ↦ ground arith
      | inr (key, es) ↦ ground (arith, attempt_keys-try_keys (w refl) (([], key) ∷ []))
    ]
  ]

  -- The DNS server's check and the DHCP server's give the same result for the same keys, if the
  -- token names its key or no key fails on it because it has run out or is malformed.
  pub verify_squawk_jwt-verify_token :
      (ks : Keys)
      → ((kid : Option Text) → j.header_kid token ≡ some kid → named_kid kid ≡ none → IsWellTimed)
      → verify_squawk_jwt j ks token ≡ verify_token j ks token
  unfolding verify_squawk_jwt verify_token
  verify_squawk_jwt-verify_token ks w = elim (Option-cases (j.header_kid token)) [
    | inl e ↦ ground arith
    | inr (kid, e) ↦ ground (arith, same_keys ks (named_kid kid) (w kid e))
  ]
