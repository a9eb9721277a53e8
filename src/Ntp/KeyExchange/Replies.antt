-- ===== src/Ntp/KeyExchange/Replies.antt =====
-- What a client with a valid token is sent, and what its cookies open to.
use squawk.Prelude.{
  All-append, ℕ, zero, suc, ◌+◌, ◌*◌, ◌/◌, ◌^◌, ◌<◌, ◌≤◌, ◌≡◌, ◌==◌, ◌&&◌, true, false, some, List,
  [], ◌∷◌, ◌++◌, length, replicate, All, arith, refl, sym, ap, ◌∙◌, Bool-cases, inl, inr,
  length-append,
}
use squawk.Prelude.Tries.{done, after_done}
use squawk.Ntp.Bytes.{Bytes, bytes2, bytes8}
use squawk.Ntp.Bytes.RoundTrip.{pack_h-small, pack_b-small, pack_b-fits}
use squawk.Ntp.Records.{
  parse_from, NtsRecord, encode_all, parse_all, next_protocol, aead_algorithm, new_cookie,
  end_of_message,
}
use squawk.Ntp.Records.RoundTrip.{HasType, parse_all-encode_all}
use squawk.Ntp.Records.Messages.{
  Fits, encode-total, encode_all-cons, encode_all-single, encode_all-append, encode_all-total,
}
use squawk.Ntp.Cookies.{
  lookup_master, Siv, NtsCookie, CookieManager, Keying, ticks, seal_cookie, unseal_cookie,
  wire_encode, wire_decode,
}
use squawk.Ntp.Cookies.Unseal.{
  HasKeys, seal_cookie-done, unseal_cookie-seal_cookie, wire_decode-wire_encode,
}
use squawk.Ntp.Auth.{token_in, extract_nts_ke_auth_token}
use squawk.Ntp.KeyExchange.{
  extract_nts_ke_auth_token, Parts, Exporter, handle_client, is_allowed, issue, seal_cookies,
  session_keys, build_nts_ke_response, cookie_records, aead_aes_siv_cmac_256, label, keylen,
  context,
}

abbrev cookie_record : Bytes → NtsRecord
cookie_record body = record { record_type = new_cookie; body = body; critical = false }

-- The records of a reply, each cookie with the same body.
abbrev pub records_of : ℕ → Bytes → List NtsRecord
records_of aead_id body =
    record { record_type = next_protocol; body = bytes2 0; critical = true }
    ∷ record { record_type = aead_algorithm; body = bytes2 aead_id; critical = false }
    ∷ (replicate 8 (cookie_record body)
        ++ record { record_type = end_of_message; body = []; critical = true } ∷ [])

module _ (siv : Siv) (m : CookieManager) (now : ℕ) (k : Keying) (c : NtsCookie) where
  seal_cookies-replicate :
      (n : ℕ) → seal_cookie siv m now k ≡ done c → seal_cookies siv m now k n ≡ done (replicate n c)
  unfolding seal_cookies
  seal_cookies-replicate zero h = refl
  seal_cookies-replicate (suc n) h = ground (arith, h, seal_cookies-replicate n h)

  -- A sealed cookie is 90 bytes long, so it fits on the wire.
  pub seal_cookie-wire :
      HasKeys k
      → seal_cookie siv m now k ≡ done c
      → (body : Bytes) × (wire_encode c ≡ done body) × (length body ≡ 93)
  unfolding wire_encode
  seal_cookie-wire (h1, h2) h =
      let (key, aad, found, ev, es, version, small, fits) = seal_cookie-done siv m now k c h in
      let plain = bytes2 k.aead_id ++ bytes8 (now / ticks + 86400) in
      let long = siv.length-encrypt key (k.c2s_key ++ (k.s2c_key ++ plain)) aad c.sealed es in
      let first = length-append k.c2s_key (k.s2c_key ++ plain) in
      let second = length-append k.s2c_key plain in
      let tail : length plain ≡ 10 = omega arith in
      let whole : length c.sealed ≡ 90 = omega (arith, long, first, second, tail, h1, h2) in
      let packed =
        pack_b-fits c.version (ground (arith, version, pack_b-small m.master_key_version aad ev)) in
      let measured = pack_h-small (length (c.version ∷ c.sealed)) (omega (arith, whole)) in
      (
        bytes2 (length (c.version ∷ c.sealed)) ++ (c.version ∷ c.sealed),
        ground (arith, packed, measured),
        omega (arith, whole),
      )

cookie_records-replicate :
    (c : NtsCookie) (body : Bytes) (n : ℕ)
    → wire_encode c ≡ done body
    → cookie_records (replicate n c) ≡ encode_all (replicate n (cookie_record body))
unfolding cookie_records encode_all
cookie_records-replicate c body zero h = refl
cookie_records-replicate c body (suc n) h = rw (h, cookie_records-replicate c body n h) refl

replicate-Fits :
    (n : ℕ) (body : Bytes) → length body < 2 ^ 16 → All Fits (replicate n (cookie_record body))
replicate-Fits zero body h = tt
replicate-Fits (suc n) body h = ((omega arith, h), replicate-Fits n body h)

-- The reply is the encoding of its records.
build_nts_ke_response-records_of :
    (aead_id : ℕ) (c : NtsCookie) (body : Bytes)
    → aead_id < 2 ^ 16
    → wire_encode c ≡ done body
    → length body < 2 ^ 16
    → (reply : Bytes) × (build_nts_ke_response aead_id (replicate 8 c) ≡ done reply)
      × (encode_all (records_of aead_id body) ≡ done reply)
unfolding build_nts_ke_response
build_nts_ke_response-records_of aead_id c body small h fits =
    let first : NtsRecord = record {
      record_type = next_protocol;
      body = bytes2 0;
      critical = true;
    } in
    let second : NtsRecord = record {
      record_type = aead_algorithm;
      body = bytes2 aead_id;
      critical = false;
    } in
    let last : NtsRecord = record { record_type = end_of_message; body = []; critical = true } in
    let cookies = replicate 8 (cookie_record body) in
    let (a, ea) = encode-total first (omega arith, omega arith) in
    let (b, eb) = encode-total second (omega arith, omega arith) in
    let (d, ed) = encode-total last (omega arith, omega arith) in
    let (issued, ei) = encode_all-total cookies (replicate-Fits 8 body fits) in
    let rest = encode_all-append cookies (last ∷ []) issued d ei (encode_all-single last d ed) in
    let whole =
      encode_all-cons first (second ∷ (cookies ++ last ∷ [])) a (b ++ (issued ++ d)) ea
        (encode_all-cons second (cookies ++ last ∷ []) b (issued ++ d) eb rest) in
    let one = cookie_records-replicate c body 8 h ∙ ei in
    let packed = pack_h-small aead_id small in
    (a ++ (b ++ (issued ++ d)), rw (ea, packed, eb, one, ed) refl, whole)

Fits-HasType : (rs : List NtsRecord) → All Fits rs → All HasType rs
Fits-HasType [] h = tt
Fits-HasType (r ∷ rs) h = (h.0.0, Fits-HasType rs h.1)

records_of-types :
    (aead_id : ℕ) (body : Bytes) → length body < 2 ^ 16 → All HasType (records_of aead_id body)
records_of-types aead_id body fits =
    let cookies = Fits-HasType (replicate 8 (cookie_record body)) (replicate-Fits 8 body fits) in
    let last : NtsRecord = record { record_type = end_of_message; body = []; critical = true } in
    let rest =
      All-append HasType (replicate 8 (cookie_record body)) (last ∷ []) cookies (omega arith, tt) in
    (omega arith, (omega arith, rest))

is_allowed-empty : (p : Parts) → is_allowed p [] ≡ false
unfolding is_allowed extract_nts_ke_auth_token parse_all parse_from token_in
is_allowed-empty p = refl

session_keys-HasKeys :
    (exporter : Exporter) (k : Keying)
    → session_keys exporter ≡ done (some k)
    → HasKeys k × (k.aead_id ≡ aead_aes_siv_cmac_256)
unfolding session_keys
session_keys-HasKeys exporter k h = after_done (exporter label keylen (context 0)) h λ c2s e1 h1.
    after_done (exporter label keylen (context 1)) h1 λ s2c e2 h2.
      elim (Bool-cases (length c2s == keylen && length s2c == keylen)) [
        | inl e ↦
            let same : record { c2s_key = c2s; s2c_key = s2c; aead_id = aead_aes_siv_cmac_256 }
                ≡ k =
              ground (arith, h2) in
            let same1 = ap (λ (x : Keying). x.c2s_key) same in
            let same2 = ap (λ (x : Keying). x.s2c_key) same in
            let same3 = ap (λ (x : Keying). x.aead_id) same in
            ((ground (arith, same1), ground (arith, same2)), sym same3)
        | inr e ↦ ground arith
      ]

module _ (p : Parts) (m : CookieManager) (now : ℕ) (exporter : Exporter) where
  -- A client with a valid token, whose session exports keys of 32 bytes, is sent a message while the
  -- current master key seals: the records `next_protocol`, `aead_algorithm` with the algorithm 15,
  -- eight times `new_cookie` and `end_of_message`, and in that order. Each cookie, with any padding
  -- after it, opens to the keys of the session until it expires, also under a later state of the
  -- manager that has the key of its version. All eight cookies are the same.
  pub handle_client-new_cookies :
      (request : Bytes) (k : Keying) (c : NtsCookie)
      → is_allowed p request ≡ true
      → session_keys exporter ≡ done (some k)
      → seal_cookie p.siv m now k ≡ done c
      → (reply : Bytes) × (body : Bytes) × (handle_client p m now exporter request ≡ some reply)
        × (parse_all reply ≡ records_of 15 body)
        × ((padding : Bytes) → wire_decode (body ++ padding) ≡ done (some c))
        × ((m' : CookieManager) (later : ℕ)
            → lookup_master c.version m'.master_keys ≡ lookup_master c.version m.master_keys
            → later ≤ (now / ticks + 86400) * ticks
            → unseal_cookie p.siv m' later c ≡ some k)
  unfolding handle_client issue
  handle_client-new_cookies [] k c allowed keys sealed =
      absurd (ground (arith, allowed, is_allowed-empty p))
  handle_client-new_cookies (b ∷ request) k c allowed keys sealed =
      let (lengths, aead) = session_keys-HasKeys exporter k keys in
      let (body, wired, long) = seal_cookie-wire p.siv m now k c lengths sealed in
      let (reply, built, encoded) =
        build_nts_ke_response-records_of k.aead_id c body (omega (arith, aead)) wired
          (omega (arith, long)) in
      let cookies = seal_cookies-replicate p.siv m now k c 8 sealed in
      let answered : issue p.siv m now exporter ≡ done reply = rw (keys, cookies, built) refl in
      (
        reply,
        body,
        ground (arith, allowed, answered),
        parse_all-encode_all (records_of k.aead_id body) reply
              (records_of-types k.aead_id body (omega (arith, long))) encoded
            ∙ ap (λ a. records_of a body) aead,
        λ padding. wire_decode-wire_encode c body padding wired,
        λ m' later kept in_time.
            unseal_cookie-seal_cookie p.siv m now k c m' later lengths sealed kept in_time,
      )
