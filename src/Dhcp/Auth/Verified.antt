-- ===== src/Dhcp/Auth/Verified.antt =====
-- What a token that passes has passed, and what is denied.
use squawk.Prelude.{
  All, List-cases, sym, none, Option-cases, false, ◌∙◌, ◌++◌, subst, ap, arith, inr, truthy, inl,
  Bool-cases, Option, ◌⊎◌, true, In, some, ◌≡◌, List, Bool, Text, refl, [], ◌∷◌,
}
use squawk.Jwt.{
  Payload, DecodeFailure, Decoded, payload, failed, Jwt, Keys, lookup_key, named_kid, has_tenant,
  IsConfigured, single, listed, lookup_key-In,
}
use squawk.Dhcp.Auth.{
  empty_token, try_keys, keys_to_try, verify_token, check_scope, check_auth, extract_token,
  mismatch, judge,
}

judge-some :
    (has_kid : Bool) (d : Decoded) (rest : Option Payload) (p : Payload)
    → judge has_kid d rest ≡ some p
    → ((d ≡ payload p) × (has_tenant p ≡ true)) ⊎ (rest ≡ some p)
judge-some has_kid (payload q) rest p h = elim (Bool-cases (has_tenant q)) [
  | inl t ↦
      let same : q ≡ p = ground arith in
      inl (ap payload same, subst (λ (x : Payload). has_tenant x ≡ true) same t)
  | inr f ↦ ground arith
]
judge-some has_kid (failed e) rest p h = inr (ground arith)

-- The keys to try are configured, and a name picks its own key.
pub keys_to_try-In :
    (ks : Keys) (kid : Option Text) (has_kid : Bool) (keys : List (Text × Text)) (k key : Text)
    → keys_to_try ks kid ≡ some (has_kid, keys)
    → In (k, key) keys
    → IsConfigured ks key
      × ((name : Text) → kid ≡ some name → lookup_key name ks.public_keys ≡ some key)
unfolding keys_to_try
keys_to_try-In ks (some name) has_kid keys k key h m =
    elim (Option-cases (lookup_key name ks.public_keys)) [
      | inl e ↦ ground arith
      | inr (found, e) ↦
          let only : keys ≡ (name, found) ∷ [] = ground arith in
          let same : key ≡ found = ground (arith, subst (In (k, key)) only m) in
          (
            listed name (lookup_key-In name key ks.public_keys (e ∙ ap some (sym same))),
            λ n en. ground arith,
          )
    ]
keys_to_try-In ks none has_kid keys k key h m = elim (List-cases ks.public_keys) [
  | inr (x, rest, e) ↦
      let only : keys ≡ ks.public_keys = ground arith in
      (listed k (subst (In (k, key)) only m), λ n en. ground arith)
  | inl e ↦ elim (Option-cases ks.public_key) [
    | inl en ↦ ground arith
    | inr (found, es) ↦ elim (Bool-cases (truthy found)) [
      | inr et ↦ ground arith
      | inl et ↦
          let only : keys ≡ ([], found) ∷ [] = ground arith in
          let same : key ≡ found = ground (arith, subst (In (k, key)) only m) in
          (single (es ∙ ap some (sym same)), λ n en. ground arith)
    ]
  ]
]

module _ (j : Jwt) (token : Text) where
  -- The key verifies the token, whose payload names its tenant.
  abbrev pub Verifies : Payload → Text → Type 0
  Verifies p key = (j.decode token key ≡ payload p) × (has_tenant p ≡ true)

  -- A payload comes from one of the keys that are tried.
  try_keys-some :
      (has_kid : Bool) (keys : List (Text × Text)) (p : Payload)
      → try_keys j has_kid token keys ≡ some p
      → (k : Text) × (key : Text) × In (k, key) keys × Verifies p key
  unfolding try_keys
  try_keys-some has_kid [] p h = cc
  try_keys-some has_kid ((k, key) ∷ keys) p h = elim (Bool-cases (truthy key)) [
    | inr e ↦
        let later = try_keys-some has_kid keys p (ground arith) in
        (later.0, later.1, inr later.2, later.3)
    | inl e ↦
        elim (judge-some has_kid (j.decode token key) (try_keys j has_kid token keys) p
          (ground arith)) [
            | inl found ↦ (k, key, inl refl, found)
            | inr rest ↦
                let later = try_keys-some has_kid keys p rest in
                (later.0, later.1, inr later.2, later.3)
          ]
  ]

  -- A token passes only if a configured key verifies it; if its header names a key, it is the key
  -- of that name.
  pub verify_token-some :
      (ks : Keys) (p : Payload)
      → verify_token j ks token ≡ some p
      → (kid : Option Text) × (key : Text) × (j.header_kid token ≡ some kid)
        × Verifies p key
        × IsConfigured ks key
        × ((name : Text) → named_kid kid ≡ some name → lookup_key name ks.public_keys ≡ some key)
  unfolding verify_token
  verify_token-some ks p h = elim (Bool-cases (truthy token)) [
    | inr e ↦ ground arith
    | inl e ↦ elim (Option-cases (j.header_kid token)) [
      | inl eh ↦ ground arith
      | inr (kid, eh) ↦ elim (Option-cases (keys_to_try ks (named_kid kid))) [
        | inl ek ↦ ground arith
        | inr (picked, ek) ↦
            let (k, key, m, ok) = try_keys-some picked.0 picked.1 p (ground arith) in
            let (configured, named) =
              keys_to_try-In ks (named_kid kid) picked.0 picked.1 k key ek m in
            (kid, key, eh, ok, configured, named)
      ]
    ]
  ]

  -- With no key configured no token passes.
  pub verify_token-no_keys :
      (ks : Keys) → ks.public_keys ≡ [] → ks.public_key ≡ none → verify_token j ks token ≡ none
  unfolding verify_token lookup_key
  verify_token-no_keys ks e e' = ground arith

  -- Keys with which the loop goes on.
  abbrev pub AllMismatch : List (Text × Text) → Type 0
  AllMismatch = All λ k. (f : DecodeFailure) × (j.decode token k.1 ≡ failed f) × (mismatch f ≡ true)

  -- While keys are rotated a token without a `kid` passes by whichever key verifies it: the keys
  -- before it must fail on the signature or the time.
  try_keys-rotation :
      (before after : List (Text × Text)) (k key : Text) (p : Payload)
      → AllMismatch before
      → truthy key ≡ true
      → Verifies p key
      → try_keys j false token (before ++ (k, key) ∷ after) ≡ some p
  unfolding try_keys
  try_keys-rotation [] after k key p hb t v = ground arith
  try_keys-rotation ((k', key') ∷ before) after k key p hb t v =
      ground (arith, try_keys-rotation before after k key p hb.1 t v)

  keys_to_try-listed :
      (ks : Keys) (k : Text × Text) (keys : List (Text × Text))
      → ks.public_keys ≡ k ∷ keys
      → keys_to_try ks none ≡ some (false, k ∷ keys)
  unfolding keys_to_try
  keys_to_try-listed ks k keys e = ground arith

  -- While keys are rotated a token without a `kid` passes by whichever listed key verifies it, if
  -- the keys before it fail on the signature or the time.
  pub verify_token-rotation :
      (ks : Keys) (before after : List (Text × Text)) (k key : Text) (p : Payload)
      → truthy token ≡ true
      → j.header_kid token ≡ some none
      → ks.public_keys ≡ before ++ (k, key) ∷ after
      → AllMismatch before
      → truthy key ≡ true
      → Verifies p key
      → verify_token j ks token ≡ some p
  unfolding verify_token
  verify_token-rotation ks [] after k key p t eh ek hb tk v =
      let listed_keys = keys_to_try-listed ks (k, key) after ek in
      ground (arith, listed_keys, try_keys-rotation [] after k key p tt tk v)
  verify_token-rotation ks (b ∷ before) after k key p t eh ek hb tk v =
      let listed_keys = keys_to_try-listed ks b (before ++ (k, key) ∷ after) ek in
      ground (arith, listed_keys, try_keys-rotation (b ∷ before) after k key p hb tk v)

empty_token-some : (o : Option Text) (t : Text) → empty_token o ≡ some t → o ≡ some t
empty_token-some none t h = cc
empty_token-some (some []) t h = cc
empty_token-some (some (c ∷ s)) t h = h

-- A request that passes with status 200 and claims is vouched for: its header holds a token that some configured key
-- verifies, for a tenant, and with the scope that is asked for.
pub check_auth-ok :
    (j : Jwt) (ks : Keys) (header required : Text) (p : Payload)
    → check_auth j ks header required ≡ (200, some p)
    → (token : Text) × (extract_token header ≡ some token)
      × (check_scope p required ≡ true)
      × ((kid : Option Text) × (key : Text) × (j.header_kid token ≡ some kid)
          × Verifies j token p key
          × IsConfigured ks key
          × ((name : Text) → named_kid kid ≡ some name → lookup_key name ks.public_keys ≡ some key))
unfolding check_auth
check_auth-ok j ks header required p h = elim (Option-cases (empty_token (extract_token header))) [
  | inl e ↦ ground arith
  | inr (token, e) ↦ elim (Option-cases (verify_token j ks token)) [
    | inl ev ↦ ground arith
    | inr (q, ev) ↦ elim (Bool-cases (check_scope q required)) [
      | inr es ↦ ground arith
      | inl es ↦
          let same : q ≡ p = ground arith in
          (
            token,
            empty_token-some (extract_token header) token e,
            subst (λ (x : Payload). check_scope x required ≡ true) same es,
            verify_token-some j token ks p (ev ∙ ap some same),
          )
    ]
  ]
]

-- With no key configured every request is denied, with 401 or 403.
pub check_auth-no_keys :
    (j : Jwt) (ks : Keys) (header required : Text)
    → ks.public_keys ≡ []
    → ks.public_key ≡ none
    → (check_auth j ks header required ≡ (401, none))
      ⊎ (check_auth j ks header required ≡ (403, none))
unfolding check_auth
check_auth-no_keys j ks header required e e' =
    elim (Option-cases (empty_token (extract_token header))) [
      | inl n ↦ inr (ground arith)
      | inr (token, n) ↦ inl (ground (arith, verify_token-no_keys j token ks e e'))
    ]
