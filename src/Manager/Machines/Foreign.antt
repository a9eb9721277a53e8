-- ===== src/Manager/Machines/Foreign.antt =====
-- A scope that no role has.
use squawk.Prelude.{
  true, false, some, List, [], ◌∷◌, ◌≡◌, Text, text_eq, text_eq_iff, truthy, strip, words, arith,
  refl, ap, sym, ◌∙◌, Bool-cases, inl, inr,
}
use squawk.Jwt.{Payload}
use squawk.Ntp.Auth.{grants_scope}
use squawk.Ntp.KeyExchange.{required_scope}
use squawk.Manager.Access.{holds}
use squawk.Manager.Machines.{
  all_valid_scopes, is_subset, registered_scopes, validate_scope_subset, granted_scopes,
}

is_subset-holds :
    (s : Text) (requested valid : List Text)
    → is_subset requested valid ≡ true
    → holds s valid ≡ false
    → holds s requested ≡ false
is_subset-holds s [] valid h missing = refl
is_subset-holds s (x ∷ requested) valid h missing =
    let rest = is_subset-holds s requested valid (ground (arith, h)) missing in
    elim (Bool-cases (text_eq x s)) [
      | inr e ↦ ground (arith, e, rest)
      | inl e ↦
          let same : x ≡ s = ground (arith, e, text_eq_iff x s) in
          let found : holds x valid ≡ true = ground (arith, h) in
          let missing' : holds x valid ≡ false = ap (λ t. holds t valid) same ∙ missing in
          ground (arith, found, missing')
    ]

registered_scopes-subset :
    (scopes registered : Text)
    → registered_scopes scopes ≡ some registered
    → is_subset (words registered) all_valid_scopes ≡ true
unfolding registered_scopes
registered_scopes-subset scopes registered h = elim (Bool-cases (truthy (strip scopes))) [
  | inr e ↦ ground (arith, h, e)
  | inl e ↦ elim (Bool-cases (is_subset (words (strip scopes)) all_valid_scopes)) [
    | inr es ↦ ground (arith, h, e, es)
    | inl es ↦
        let same : strip scopes ≡ registered = ground (arith, h, e, es) in
        ap (λ t. is_subset (words t) all_valid_scopes) (sym same) ∙ es
  ]
]

-- Whatever a client registers and asks for, it is granted nothing that is in no role.
granted_scopes-foreign :
    (s scopes registered requested granted : Text)
    → holds s all_valid_scopes ≡ false
    → registered_scopes scopes ≡ some registered
    → granted_scopes requested registered ≡ some granted
    → holds s (words granted) ≡ false
unfolding granted_scopes validate_scope_subset
granted_scopes-foreign s scopes registered requested granted foreign stored h =
    let first =
      is_subset-holds s (words registered) all_valid_scopes
        (registered_scopes-subset scopes registered stored) foreign in
    elim (Bool-cases (truthy (strip requested))) [
      | inr e ↦
          let same : registered ≡ granted = ground (arith, h, e) in
          ap (λ t. holds s (words t)) (sym same) ∙ first
      | inl e ↦ elim (Bool-cases (is_subset (words (strip requested)) (words registered))) [
        | inr es ↦ ground (arith, h, e, es)
        | inl es ↦
            let same : strip requested ≡ granted = ground (arith, h, e, es) in
            ap (λ t. holds s (words t)) (sym same)
            ∙ is_subset-holds s (words (strip requested)) (words registered) es first
      ]
    ]

time_client-foreign : holds required_scope all_valid_scopes ≡ false
unfolding text_eq
time_client-foreign = refl

-- No machine client that the manager registers is granted the scope by which the time server issues
-- cookies: whatever scopes it registers and asks for, its token is refused there.
pub grants_scope-granted_scopes :
    (scopes registered requested granted : Text) (p : Payload)
    → registered_scopes scopes ≡ some registered
    → granted_scopes requested registered ≡ some granted
    → p.scope ≡ some granted
    → grants_scope required_scope p ≡ false
unfolding grants_scope
grants_scope-granted_scopes scopes registered requested granted p stored given claimed =
    let missing =
      granted_scopes-foreign required_scope scopes registered requested granted time_client-foreign
        stored given in
    ground (arith, claimed, missing)
