-- ===== src/Ntp/Cookies/Unseal.antt =====
-- A cookie that is sealed, sent, padded, received and opened again.
use squawk.Prelude.{
  Option-cases, inl, inr, some, drop-drop, ℕ, suc, ◌+◌, ◌*◌, ◌/◌, ◌%◌, ◌^◌, ◌<◌, ◌≤◌, ◌≡◌, some, [],
  ◌∷◌, ◌++◌, length, drop, arith, refl, sym, ap, ◌∙◌, subst, length-append, take-append,
  drop-append,
}
use squawk.Prelude.Tries.{◌>>=◌, done, after_done}
use squawk.Ntp.Bytes.{pack_q, Bytes, bytes2, bytes8, pack_b, pack_h, unpack_h, unpack_q}
use squawk.Ntp.Bytes.RoundTrip.{pack_q-done, pack_h-done, pack_b-done, unpack_q-bytes8}
use squawk.Ntp.Cookies.{
  lookup_master, unseal_cookie, seal_cookie, CookieManager, Siv, NtsCookie, Keying, ticks,
  read_plaintext, wire_encode, wire_decode,
}

wire_decode-layout :
    (c : NtsCookie) (padding : Bytes)
    → suc (length c.sealed) < 2 ^ 16
    → wire_decode ((bytes2 (suc (length c.sealed)) ++ (c.version ∷ c.sealed)) ++ padding)
      ≡ done (some c)
unfolding wire_decode
wire_decode-layout c padding small =
    let n = length c.sealed in
    let number : suc n / 256 * 256 + suc n % 256 ≡ suc n = omega arith in
    let whole = take-append n c.sealed padding refl in
    let long = length-append c.sealed padding in rw (number, whole) (ground (arith, long))

-- A cookie on the wire is read back, whatever padding follows it.
pub wire_decode-wire_encode :
    (c : NtsCookie) (bs padding : Bytes)
    → wire_encode c ≡ done bs
    → wire_decode (bs ++ padding) ≡ done (some c)
unfolding wire_encode
wire_decode-wire_encode c bs padding h = after_done (pack_b c.version) h λ v ev hv.
    after_done (pack_h (length (v ++ c.sealed))) hv λ l el hl.
      let same_v = pack_b-done c.version v ev in
      let (same_l, small) = pack_h-done (length (v ++ c.sealed)) l el in
      let whole : l ++ (v ++ c.sealed) ≡ bs = ground (arith, hl) in
      let laid : bs ≡ bytes2 (suc (length c.sealed)) ++ (c.version ∷ c.sealed) =
        sym whole
        ∙ (ap (λ x. x ++ (v ++ c.sealed)) same_l
            ∙ ap (λ x. bytes2 (length (x ++ c.sealed)) ++ (x ++ c.sealed)) same_v) in
      let fits : suc (length c.sealed) < 2 ^ 16 =
        subst (λ x. length (x ++ c.sealed) < 2 ^ 16) same_v small in
      ap (λ x. wire_decode (x ++ padding)) laid ∙ wire_decode-layout c padding fits

abbrev plain_of : Keying → ℕ → Bytes
plain_of k expiry = k.c2s_key ++ (k.s2c_key ++ (bytes2 k.aead_id ++ bytes8 expiry))

-- The keys of the plaintext have the lengths that the code cuts at.
abbrev pub HasKeys : Keying → Type 0
HasKeys k = (length k.c2s_key ≡ 32) × (length k.s2c_key ≡ 32)

read-plain_of :
    (siv : Siv) (k : Keying) (now expiry : ℕ)
    → HasKeys k
    → k.aead_id < 2 ^ 16
    → expiry < 2 ^ 64
    → now ≤ expiry * ticks
    → read_plaintext siv now (plain_of k expiry) ≡ some k
unfolding read_plaintext
read-plain_of siv k now expiry (h1, h2) small fits later =
    let numbers = bytes2 k.aead_id ++ bytes8 expiry in
    let second : drop 32 (plain_of k expiry) ≡ k.s2c_key ++ numbers =
      drop-append 32 k.c2s_key (k.s2c_key ++ numbers) h1 in
    let third : drop 64 (plain_of k expiry) ≡ numbers =
      drop-drop 32 32 (plain_of k expiry)
      ∙ (ap (drop 32) second ∙ drop-append 32 k.s2c_key numbers h2) in
    let aead : unpack_h numbers ≡ k.aead_id = omega arith in
    let time : unpack_q (bytes8 expiry) ≡ expiry = unpack_q-bytes8 expiry [] fits in
    rw
      (
        third,
        second,
        take-append 32 k.c2s_key (k.s2c_key ++ numbers) h1,
        take-append 32 k.s2c_key numbers h2,
      )
      (ground (arith, aead, time))

module _ (siv : Siv) (m : CookieManager) (now : ℕ) (k : Keying) (c : NtsCookie) where
  -- What `seal_cookie` has done when it returns.
  pub seal_cookie-done :
      seal_cookie siv m now k ≡ done c
      → (key : Bytes) × (aad : Bytes) × (lookup_master m.master_key_version m.master_keys
          ≡ some key)
        × (pack_b m.master_key_version ≡ done aad)
        × (siv.encrypt key (plain_of k (now / ticks + 86400)) aad ≡ done c.sealed)
        × (c.version ≡ m.master_key_version)
        × (k.aead_id < 2 ^ 16)
        × (now / ticks + 86400 < 2 ^ 64)
  unfolding seal_cookie
  seal_cookie-done h = after_done (pack_h k.aead_id) h λ a ea ha.
      after_done (pack_q (now / ticks + 86400)) ha λ e ee he.
        after_done (pack_b m.master_key_version) he λ aad ev hv.
          elim (Option-cases (lookup_master m.master_key_version m.master_keys)) [
            | inl missing ↦ ground arith
            | inr (key, found) ↦
                let (same_a, small) = pack_h-done k.aead_id a ea in
                let (same_e, fits) = pack_q-done (now / ticks + 86400) e ee in
                let plain : k.c2s_key ++ (k.s2c_key ++ (a ++ e))
                    ≡ plain_of k (now / ticks + 86400) =
                  ap (λ x. k.c2s_key ++ (k.s2c_key ++ (x ++ e))) same_a
                  ∙ ap (λ x. k.c2s_key ++ (k.s2c_key ++ (bytes2 k.aead_id ++ x))) same_e in
                let sealing : (siv.encrypt key (k.c2s_key ++ (k.s2c_key ++ (a ++ e))) aad
                      >>= λ sealed.
                          done (record { sealed = sealed; version = m.master_key_version }))
                    ≡ done c =
                  ground (arith, hv, found) in
                after_done (siv.encrypt key (k.c2s_key ++ (k.s2c_key ++ (a ++ e))) aad) sealing
                  λ sealed es hs.
                    let same : record { sealed = sealed; version = m.master_key_version } ≡ c =
                      ground (arith, hs) in
                    (
                      key,
                      aad,
                      found,
                      ev,
                      sym (ap (λ x. siv.encrypt key x aad) plain)
                          ∙ (es ∙ ap (λ (x : NtsCookie). done x.sealed) same),
                      sym (ap (λ (x : NtsCookie). x.version) same),
                      small,
                      fits,
                    )
          ]

  -- A cookie gives back the keys that were sealed in it until it expires, under any later state of
  -- the manager that still has the key of its version.
  pub unseal_cookie-seal_cookie :
      (m' : CookieManager) (later : ℕ)
      → HasKeys k
      → seal_cookie siv m now k ≡ done c
      → lookup_master c.version m'.master_keys ≡ lookup_master c.version m.master_keys
      → later ≤ (now / ticks + 86400) * ticks
      → unseal_cookie siv m' later c ≡ some k
  unfolding unseal_cookie
  unseal_cookie-seal_cookie m' later keys h kept in_time =
      let (key, aad, found, ev, es, version, small, fits) = seal_cookie-done h in
      let master : lookup_master c.version m'.master_keys ≡ some key =
        kept ∙ (ap (λ v. lookup_master v m.master_keys) version ∙ found) in
      let aad' : pack_b c.version ≡ done aad = ap pack_b version ∙ ev in
      let opened = siv.decrypt-encrypt key (plain_of k (now / ticks + 86400)) aad c.sealed es in
      let read = read-plain_of siv k later (now / ticks + 86400) keys small fits in_time in
      ground (arith, master, aad', opened, read)
