-- ===== src/Ntp/Cookies/Rotation.antt =====
-- The master keys over the rotations.
use squawk.Prelude.{
  ◌∙◌, ap, refl, ℕ, ◌+◌, ◌-◌, ◌*◌, ◌/◌, ◌<◌, ◌≤◌, ◌≡◌, ◌≢◌, ◌&&◌, none, some, List, [], ◌∷◌, length,
  ltb, arith, refl, sym, subst, Bool-cases, inl, inr,
}
use squawk.Prelude.Tries.{done, raised, Try-cases}
use squawk.Ntp.Bytes.{Bytes, pack_b, pack_h, pack_q}
use squawk.Ntp.Cookies.{
  Siv, NtsCookie, CookieManager, Keying, ticks, lookup_master, delete_key, kept_keys, seal_cookie,
  unseal_cookie, rotate_key, rotate_all,
}
use squawk.Ntp.Cookies.Unseal.{HasKeys, seal_cookie-done, unseal_cookie-seal_cookie}

lookup-delete_ne :
    (v w : ℕ) (keys : List (ℕ × Bytes))
    → v ≢ w
    → lookup_master w (delete_key v keys) ≡ lookup_master w keys
unfolding lookup_master delete_key
lookup-delete_ne v w [] ne = refl
lookup-delete_ne v w ((u, key) ∷ keys) ne = ground (arith, lookup-delete_ne v w keys ne, ne)

lookup-delete_self : (v : ℕ) (keys : List (ℕ × Bytes)) → lookup_master v (delete_key v keys) ≡ none
unfolding lookup_master delete_key
lookup-delete_self v [] = refl
lookup-delete_self v ((u, key) ∷ keys) = ground (arith, lookup-delete_self v keys)

-- A rotation keeps the key of the version that was current.
rotate_key-current :
    (now : ℕ) (key : Bytes) (m : CookieManager)
    → lookup_master m.master_key_version (rotate_key now key m).master_keys
      ≡ lookup_master m.master_key_version m.master_keys
unfolding rotate_key lookup_master
rotate_key-current now key m =
    elim (Bool-cases (ltb m.previous_key_expires_at now && ltb 0 m.master_key_version)) [
      | inr e ↦ ground arith
      | inl e ↦
          let kept =
            lookup-delete_ne (m.master_key_version - 1) m.master_key_version m.master_keys
              (λ same. absurd (ground (arith, same))) in
          ground (arith, kept)
    ]

-- After the grace period a rotation deletes the key before the current one.
kept_keys-late :
    (m : CookieManager) (now v : ℕ)
    → m.master_key_version ≡ v + 1
    → m.previous_key_expires_at < now
    → kept_keys m now ≡ delete_key v m.master_keys
kept_keys-late m now v e late =
    let before : m.master_key_version - 1 ≡ v = omega (arith, e) in
    ground (arith, ap (λ w. delete_key w m.master_keys) before, late, e)

rotate_key-late :
    (m : CookieManager) (now v : ℕ) (key : Bytes)
    → m.master_key_version ≡ v + 1
    → m.previous_key_expires_at < now
    → lookup_master v (rotate_key now key m).master_keys ≡ none
unfolding rotate_key lookup_master
rotate_key-late m now v key e late =
    let deleted : lookup_master v (kept_keys m now) ≡ none =
      ap (lookup_master v) (kept_keys-late m now v e late) ∙ lookup-delete_self v m.master_keys in
    ground (arith, deleted, e)

module _ (siv : Siv) where
  -- A cookie that was sealed before a rotation gives its keys back after it, until it expires.
  pub unseal_cookie-rotate_key :
      (m : CookieManager) (now : ℕ) (k : Keying) (c : NtsCookie) (at later : ℕ) (key : Bytes)
      → HasKeys k
      → seal_cookie siv m now k ≡ done c
      → later ≤ (now / ticks + 86400) * ticks
      → unseal_cookie siv (rotate_key at key m) later c ≡ some k
  unseal_cookie-rotate_key m now k c at later key keys h in_time =
      let (_, _, _, _, _, version, _, _) = seal_cookie-done siv m now k c h in
      let kept =
        subst
          (λ v. lookup_master v (rotate_key at key m).master_keys ≡ lookup_master v m.master_keys)
          (sym version) (rotate_key-current at key m) in
      unseal_cookie-seal_cookie siv m now k c (rotate_key at key m) later keys h kept in_time

  -- After a second rotation that comes after the grace period of the first, the cookie is rejected.
  pub unseal_cookie-rotated_out :
      (m : CookieManager) (now : ℕ) (k : Keying) (c : NtsCookie) (first second later : ℕ)
      (key key' : Bytes)
      → seal_cookie siv m now k ≡ done c
      → first + 3600 * ticks < second
      → unseal_cookie siv (rotate_key second key' (rotate_key first key m)) later c ≡ none
  unfolding unseal_cookie
  unseal_cookie-rotated_out m now k c first second later key key' h late =
      let (_, _, _, _, _, version, _, _) = seal_cookie-done siv m now k c h in
      let gone : lookup_master c.version
            (rotate_key second key' (rotate_key first key m)).master_keys
          ≡ none =
        ap (λ v. lookup_master v (rotate_key second key' (rotate_key first key m)).master_keys)
          version
        ∙ rotate_key-late (rotate_key first key m) second m.master_key_version key'
            (unfold rotate_key in refl) (unfold rotate_key in late) in
      ground (arith, gone)

  version-rotate_all :
      (rounds : List (ℕ × Bytes)) (m : CookieManager)
      → (rotate_all rounds m).master_key_version ≡ m.master_key_version + length rounds
  unfolding rotate_all rotate_key
  version-rotate_all [] m = omega arith
  version-rotate_all ((now, key) ∷ rounds) m =
      omega (arith, version-rotate_all rounds (rotate_key now key m))

  -- From the 256th rotation on no cookie can be sealed: the version does not fit its byte.
  pub seal_cookie-rotate_all :
      (rounds : List (ℕ × Bytes)) (m : CookieManager) (now : ℕ) (k : Keying)
      → 256 ≤ length rounds
      → seal_cookie siv (rotate_all rounds m) now k ≡ raised
  unfolding seal_cookie pack_b
  seal_cookie-rotate_all rounds m now k long =
      let version = version-rotate_all rounds m in
      elim (Try-cases (pack_h k.aead_id)) [
        | inl e ↦ ground arith
        | inr (a, e) ↦ elim (Try-cases (pack_q (now / ticks + 86400))) [
          | inl e' ↦ ground arith
          | inr (b, e') ↦ ground (arith, version)
        ]
      ]
