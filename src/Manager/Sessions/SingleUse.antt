-- ===== src/Manager/Sessions/SingleUse.antt =====
-- That a refresh token is used once.
use squawk.Prelude.{
  ◌∙◌, ◌<◌, none, Option, truthy, ℕ, ◌≤◌, ◌≡◌, true, some, List, [], ◌∷◌, In, All, Text, arith,
  refl, sym, ap, subst, ◌⊎◌, Bool-cases, Option-cases, inl, inr,
}
use squawk.Manager.Claims.{Verifier, names_tenant, decode_token, Claims}
use squawk.Manager.Sessions.Denylist.{revoke_jti-In, revoke_jti-added, is_refresh_token_revoked-In}
use squawk.Manager.Sessions.{
  refresh_jti, Revoked, is_refresh_token_revoked, revoke_jti, Auth, presented, revoke_refresh_token,
  refresh_access_token, Request, refreshes, logs_out, after_request, after_requests,
}

abbrev time_of : Request → ℕ
time_of (refreshes now drawn token) = now
time_of (logs_out now token) = now

abbrev NotAfter : ℕ → Request → Type 0
NotAfter later q = time_of q ≤ later

decode_token-some :
    (v : Verifier) (public_key : Option Text) (now : ℕ) (token : Text) (c : Claims)
    → decode_token v public_key now token ≡ some c
    → (key : Text) × (public_key ≡ some key) × (v.decode now token key ≡ some c)
unfolding decode_token
decode_token-some v none now token c h = ground arith
decode_token-some v (some key) now token c h = elim (Bool-cases (truthy key)) [
  | inr e ↦ ground arith
  | inl e ↦ elim (Option-cases (v.decode now token key)) [
    | inl ed ↦ ground arith
    | inr (d, ed) ↦ elim (Bool-cases (names_tenant d)) [
      | inr et ↦ ground arith
      | inl et ↦ let same : d ≡ c = ground arith in (key, refl, ed ∙ ap some same)
    ]
  ]
]

module _ (a : Auth) where
  -- A refresh leaves the denylist or revokes one id.
  refresh-cases :
      (now : ℕ) (drawn token : Text) (rs : List Revoked)
      → ((refresh_access_token a now drawn token rs).1 ≡ rs)
        ⊎ ((jti : Text) × (exp : ℕ) × ((refresh_access_token a now drawn token rs).1
              ≡ revoke_jti now jti exp rs))
  unfolding refresh_access_token
  refresh-cases now drawn token rs = elim (Option-cases (presented a now token)) [
    | inl e ↦ inl (ground (arith, e))
    | inr ((c, jti), e) ↦ elim (Bool-cases (is_refresh_token_revoked jti rs)) [
      | inl er ↦ inl (ground (arith, e, er))
      | inr er ↦ elim (Option-cases (a.auth_user c.user_id)) [
        | inl eu ↦ inl (ground (arith, e, er, eu))
        | inr (u, eu) ↦ elim (Bool-cases u.active) [
          | inl ea ↦ inr (jti, c.exp, ground (arith, e, er, eu, ea))
          | inr ea ↦ inl (ground (arith, e, er, eu, ea))
        ]
      ]
    ]
  ]

  after_request-In :
      (q : Request) (row : Revoked) (rs : List Revoked)
      → In row rs
      → time_of q ≤ row.expires_at
      → In row (after_request a q rs)
  unfolding after_request revoke_refresh_token
  after_request-In (refreshes now drawn token) row rs m h =
      elim (refresh-cases now drawn token rs) [
        | inl e ↦ subst (In row) (sym e) m
        | inr (jti, exp, e) ↦ subst (In row) (sym e) (revoke_jti-In now jti exp row rs m h)
      ]
  after_request-In (logs_out now token) row rs m h = elim (Option-cases (presented a now token)) [
    | inl e ↦
        let same : (revoke_refresh_token a now token rs).1 ≡ rs = ground (arith, e) in
        subst (In row) (sym same) m
    | inr ((c, jti), e) ↦
        let same : (revoke_refresh_token a now token rs).1 ≡ revoke_jti now jti c.exp rs =
          ground (arith, e) in
        subst (In row) (sym same) (revoke_jti-In now jti c.exp row rs m h)
  ]

  after_requests-In :
      (qs : List Request) (row : Revoked) (later : ℕ) (rs : List Revoked)
      → In row rs
      → All (NotAfter later) qs
      → later ≤ row.expires_at
      → In row (after_requests a qs rs)
  unfolding after_requests
  after_requests-In [] row later rs m before h = m
  after_requests-In (q ∷ qs) row later rs m (now_before, before) h =
      after_requests-In qs row later (after_request a q rs)
        (after_request-In q row rs m (omega (arith, now_before, h))) before h

  -- What a refresh that succeeds has read and written.
  refresh-some :
      (now : ℕ) (drawn token : Text) (rs rs' : List Revoked) (issued : Claims × Claims)
      → refresh_access_token a now drawn token rs ≡ (some issued, rs')
      → (c : Claims) × (jti : Text) × (presented a now token ≡ some (c, jti))
        × In (record { jti = jti; expires_at = c.exp }) rs'
  unfolding refresh_access_token
  refresh-some now drawn token rs rs' issued h = elim (Option-cases (presented a now token)) [
    | inl e ↦ ground arith
    | inr ((c, jti), e) ↦ elim (Bool-cases (is_refresh_token_revoked jti rs)) [
      | inl er ↦ ground arith
      | inr er ↦ elim (Option-cases (a.auth_user c.user_id)) [
        | inl eu ↦ ground arith
        | inr (u, eu) ↦ elim (Bool-cases u.active) [
          | inr ea ↦ ground arith
          | inl ea ↦
              let same : revoke_jti now jti c.exp rs ≡ rs' = ground arith in
              (
                c,
                jti,
                e,
                subst (In (record { jti = jti; expires_at = c.exp })) same
                    (revoke_jti-added now jti c.exp rs er),
              )
        ]
      ]
    ]
  ]

  presented-some :
      (now : ℕ) (token : Text) (c : Claims) (jti : Text)
      → presented a now token ≡ some (c, jti)
      → (decode_token a.verifier a.public_key now token ≡ some c) × (refresh_jti c ≡ some jti)
  unfolding presented
  presented-some now token c jti h =
      elim (Option-cases (decode_token a.verifier a.public_key now token)) [
        | inl e ↦ ground (arith, e)
        | inr (d, e) ↦ elim (Option-cases (refresh_jti d)) [
          | inl ej ↦ ground (arith, e, ej)
          | inr (jti', ej) ↦
              let same : d ≡ c = ground (arith, e, ej) in
              let same' : jti' ≡ jti = ground (arith, e, ej) in
              (e ∙ ap some same, ap refresh_jti (sym same) ∙ (ej ∙ ap some same'))
        ]
      ]

  -- The same token has the same payload and id, and is presented before it runs out.
  presented-once :
      (now later : ℕ) (token : Text) (c d : Claims) (jti jti' : Text)
      → presented a now token ≡ some (c, jti)
      → presented a later token ≡ some (d, jti')
      → (jti ≡ jti') × (later < c.exp)
  presented-once now later token c d jti jti' h h' =
      let (e, ej) = presented-some now token c jti h in
      let (e', ej') = presented-some later token d jti' h' in
      let (key, k, first) = decode_token-some a.verifier a.public_key now token c e in
      let (key', k', second) = decode_token-some a.verifier a.public_key later token d e' in
      let one : key' ≡ key = ground (arith, k, k') in
      let again = subst (λ x. a.verifier.decode later token x ≡ some d) one second in
      let same = a.verifier.decode_once now later token key c d first again in
      let soon = a.verifier.decode-exp later token key d again in
      let jtis = ap refresh_jti same in
      (ground (arith, ej, ej', jtis), subst (λ (x : Claims). later < x.exp) (sym same) soon)

  -- After a refresh that succeeds, the same token is refused at every later time, whatever other
  -- refreshes and logouts come in between, expired rows of the denylist being deleted by them.
  pub refresh_access_token-once :
      (now : ℕ) (drawn token : Text) (rs rs' : List Revoked) (issued : Claims × Claims)
      (qs : List Request) (later : ℕ) (drawn' : Text)
      → refresh_access_token a now drawn token rs ≡ (some issued, rs')
      → All (NotAfter later) qs
      → (refresh_access_token a later drawn' token (after_requests a qs rs')).0 ≡ none
  unfolding refresh_access_token
  refresh_access_token-once now drawn token rs rs' issued qs later drawn' h before =
      let (c, jti, first, there) = refresh-some now drawn token rs rs' issued h in
      elim (Option-cases (presented a later token)) [
        | inl e ↦ ground (arith, e)
        | inr ((d, jti'), e) ↦
            let (same, soon) = presented-once now later token c d jti jti' first e in
            let row : Revoked = record { jti = jti; expires_at = c.exp } in
            let kept = after_requests-In qs row later rs' there before (omega (arith, soon)) in
            let listed = is_refresh_token_revoked-In row (after_requests a qs rs') kept in
            let listed' : is_refresh_token_revoked jti' (after_requests a qs rs') ≡ true =
              ap (λ x. is_refresh_token_revoked x (after_requests a qs rs')) (sym same) ∙ listed in
            ground (arith, e, listed')
      ]
