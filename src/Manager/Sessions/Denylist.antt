-- ===== src/Manager/Sessions/Denylist.antt =====
-- What stays on the denylist when an id is revoked.
use squawk.Prelude.{
  ℕ, ◌≤◌, ◌≡◌, true, false, List, [], ◌∷◌, ◌++◌, In, In-append_left, In-append_right, Text,
  text_eq_refl, ltb, arith, refl, sym, ap, subst, Bool-cases, inl, inr, if◌then◌else◌,
}
use squawk.Manager.Sessions.{Revoked, purge, is_refresh_token_revoked, revoke_jti}

purge-In :
    (now : ℕ) (row : Revoked) (rs : List Revoked)
    → In row rs
    → now ≤ row.expires_at
    → In row (purge now rs)
unfolding purge
purge-In now row [] m h = absurd m
purge-In now row (r ∷ rs) (inl e) h =
    let same = ap (λ (x : Revoked). x.expires_at) e in
    let young : ltb r.expires_at now ≡ false = ground (arith, same, h) in
    subst (λ b. In row (if b then purge now rs else r ∷ purge now rs)) (sym young) (inl e)
purge-In now row (r ∷ rs) (inr m) h =
    let rest = purge-In now row rs m h in
    elim (Bool-cases (ltb r.expires_at now)) [
      | inl e ↦ subst (λ b. In row (if b then purge now rs else r ∷ purge now rs)) (sym e) rest
      | inr e ↦
          subst (λ b. In row (if b then purge now rs else r ∷ purge now rs)) (sym e) (inr rest)
    ]

purge-unrevoked :
    (now : ℕ) (jti : Text) (rs : List Revoked)
    → is_refresh_token_revoked jti rs ≡ false
    → is_refresh_token_revoked jti (purge now rs) ≡ false
unfolding purge is_refresh_token_revoked
purge-unrevoked now jti [] h = refl
purge-unrevoked now jti (r ∷ rs) h =
    let rest = purge-unrevoked now jti rs (ground arith) in ground (arith, rest)

pub revoke_jti-In :
    (now : ℕ) (jti : Text) (exp : ℕ) (row : Revoked) (rs : List Revoked)
    → In row rs
    → now ≤ row.expires_at
    → In row (revoke_jti now jti exp rs)
unfolding revoke_jti
revoke_jti-In now jti exp row rs m h =
    let kept = purge-In now row rs m h in
    let more =
      In-append_left row (purge now rs) (record { jti = jti; expires_at = exp } ∷ []) kept in
    elim (Bool-cases (is_refresh_token_revoked jti (purge now rs))) [
      | inl e ↦
          let same : revoke_jti now jti exp rs ≡ purge now rs = ground (arith, e) in
          subst (In row) (sym same) kept
      | inr e ↦
          let same : revoke_jti now jti exp rs
              ≡ purge now rs ++ (record { jti = jti; expires_at = exp } ∷ []) =
            ground (arith, e) in
          subst (In row) (sym same) more
    ]

pub is_refresh_token_revoked-In :
    (row : Revoked) (rs : List Revoked) → In row rs → is_refresh_token_revoked row.jti rs ≡ true
unfolding is_refresh_token_revoked
is_refresh_token_revoked-In row [] m = absurd m
is_refresh_token_revoked-In row (r ∷ rs) (inl e) =
    let same = ap (λ (x : Revoked). x.jti) e in ground (arith, same, text_eq_refl row.jti)
is_refresh_token_revoked-In row (r ∷ rs) (inr m) =
    ground (arith, is_refresh_token_revoked-In row rs m)

-- An id that was not on the denylist is put on it.
pub revoke_jti-added :
    (now : ℕ) (jti : Text) (exp : ℕ) (rs : List Revoked)
    → is_refresh_token_revoked jti rs ≡ false
    → In (record { jti = jti; expires_at = exp }) (revoke_jti now jti exp rs)
unfolding revoke_jti
revoke_jti-added now jti exp rs fresh =
    let row : Revoked = record { jti = jti; expires_at = exp } in
    let same : revoke_jti now jti exp rs ≡ purge now rs ++ (row ∷ []) =
      ground (arith, purge-unrevoked now jti rs fresh) in
    subst (In row) (sym same) (In-append_right row (purge now rs) (row ∷ []) (inl refl))
