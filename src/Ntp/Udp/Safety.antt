-- ===== src/Ntp/Udp/Safety.antt =====
-- Which datagrams are answered.
use squawk.Prelude.{
  ℕ, ◌≡◌, ◌==◌, true, Option, none, some, [], ◌∷◌, ◌++◌, length, take, drop, take-drop, Text,
  text_eq_iff, arith, refl, sym, ap, ◌∙◌, Bool-cases, Option-cases, inl, inr, ltb,
}
use squawk.Prelude.Tries.{done, after_done, Try-cases, ◌>>=◌}
use squawk.Ntp.Bytes.{Bytes}
use squawk.Ntp.Cookies.{Siv, NtsCookie, CookieManager, Keying, unseal_cookie, wire_decode}
use squawk.Ntp.Packets.{
  NtpPacket, nts_cookie, get_field, parse_ntp_packet, extract_authenticator, authenticator_from,
}
use squawk.Ntp.Udp.{
  Limiter, compute_authenticator, verify_authenticator, respond, open_cookie, answer,
  handle_request, is_rate_limited,
}

-- What stands behind an answer: the cookie of the datagram opens to keys, and the tag of its
-- authenticator is the one of the client's key over all bytes before it.
pub record Authentic (siv : Siv) (m : CookieManager) (now : ℕ) (bs : Bytes) : Type 0 where
  pub packet : NtpPacket
  pub field : Bytes
  pub cookie : NtsCookie
  pub keys : Keying
  pub aad : Bytes
  pub rest : Bytes
  pub sealed : Bytes
  pub parsed : parse_ntp_packet bs ≡ some packet
  pub carried : get_field nts_cookie packet.extension_fields ≡ some field
  pub decoded : wire_decode field ≡ done (some cookie)
  pub unsealed : unseal_cookie siv m now cookie ≡ some keys
  pub algorithm : keys.aead_id ≡ 15
  pub prefix : aad ++ rest ≡ bs
  pub extracted : extract_authenticator bs ≡ some (aad, take 16 sealed)
  pub signed : siv.encrypt keys.c2s_key [] aad ≡ done sealed

verify_authenticator-tag :
    (siv : Siv) (key : Bytes) (aead_id : ℕ) (aad tag : Bytes)
    → verify_authenticator siv key aead_id aad tag ≡ true
    → (sealed : Bytes) × (siv.encrypt key [] aad ≡ done sealed)
      × (tag ≡ take 16 sealed)
      × (aead_id ≡ 15)
unfolding verify_authenticator compute_authenticator
verify_authenticator-tag siv key aead_id aad tag h = elim (Bool-cases (aead_id == 15)) [
  | inr e ↦ ground arith
  | inl e ↦ elim (Try-cases (siv.encrypt key [] aad)) [
    | inl er ↦ ground arith
    | inr (sealed, es) ↦
        (sealed, es, ground (arith, text_eq_iff tag (take 16 sealed)), ground arith)
  ]
]

-- What is authenticated are the bytes that the packet begins with.
extract_authenticator-prefix :
    (bs aad tag : Bytes)
    → extract_authenticator bs ≡ some (aad, tag)
    → (rest : Bytes) × (aad ++ rest ≡ bs)
unfolding extract_authenticator
extract_authenticator-prefix bs aad tag h = elim (Bool-cases (ltb (length bs) 48)) [
  | inl e ↦ ground arith
  | inr e ↦ elim (Option-cases (authenticator_from (length bs) 48 (drop 48 bs))) [
    | inl en ↦ ground arith
    | inr ((offset, t), es) ↦
        let same : take offset bs ≡ aad = ground arith in
        (drop offset bs, ap (λ x. x ++ drop offset bs) (sym same) ∙ take-drop offset bs)
  ]
]

module _ (siv : Siv) (m : CookieManager) (now : ℕ) (bs : Bytes) where
  respond-verified :
      (packet : NtpPacket) (aad tag reply : Bytes) (k : Option Keying)
      → respond siv m now packet aad tag k ≡ done (some reply)
      → (keys : Keying) × (k ≡ some keys)
        × (verify_authenticator siv keys.c2s_key keys.aead_id aad tag ≡ true)
  unfolding respond
  respond-verified packet aad tag reply none h = ground arith
  respond-verified packet aad tag reply (some keys) h =
      elim (Bool-cases (verify_authenticator siv keys.c2s_key keys.aead_id aad tag)) [
        | inl e ↦ (keys, refl, e)
        | inr e ↦ ground arith
      ]

  open_cookie-verified :
      (packet : NtpPacket) (aad tag reply : Bytes) (c : Option NtsCookie)
      → open_cookie siv m now packet aad tag c ≡ done (some reply)
      → (cookie : NtsCookie) × (keys : Keying) × (c ≡ some cookie)
        × (unseal_cookie siv m now cookie ≡ some keys)
        × (verify_authenticator siv keys.c2s_key keys.aead_id aad tag ≡ true)
  unfolding open_cookie
  open_cookie-verified packet aad tag reply none h = ground arith
  open_cookie-verified packet aad tag reply (some cookie) h =
      let (keys, opened, verified) =
        respond-verified packet aad tag reply (unseal_cookie siv m now cookie) h in
      (cookie, keys, refl, opened, verified)

  answer-Authentic :
      (reply : Bytes) → answer siv m now bs ≡ done (some reply) → Authentic siv m now bs
  unfolding answer
  answer-Authentic reply h = elim (Option-cases (parse_ntp_packet bs)) [
    | inl en ↦ ground arith
    | inr (packet, parsed) ↦ elim (Option-cases (get_field nts_cookie packet.extension_fields)) [
      | inl en ↦ ground arith
      | inr ([], ec) ↦ ground arith
      | inr (b ∷ field, ec) ↦ elim (Option-cases (extract_authenticator bs)) [
        | inl en ↦ ground arith
        | inr ((aad, tag), ea) ↦
            let step : (wire_decode (b ∷ field) >>= λ c. open_cookie siv m now packet aad tag c)
                ≡ done (some reply) =
              ground arith in
            after_done (wire_decode (b ∷ field)) step λ c ed ho.
              let (cookie, keys, same, unsealed, verified) =
                open_cookie-verified packet aad tag reply c ho in
              let (sealed, signed, tagged, algorithm) =
                verify_authenticator-tag siv keys.c2s_key keys.aead_id aad tag verified in
              let (rest, prefix) = extract_authenticator-prefix bs aad tag ea in
              record {
                packet = packet;
                field = b ∷ field;
                cookie = cookie;
                keys = keys;
                aad = aad;
                rest = rest;
                sealed = sealed;
                parsed = parsed;
                carried = ec;
                decoded = ed ∙ ap done same;
                unsealed = unsealed;
                algorithm = algorithm;
                prefix = prefix;
                extracted = ea ∙ ap (λ x. some (aad, x)) tagged;
                signed = signed;
              }
      ]
    ]
  ]

  -- Whenever a datagram is answered, it has an authenticator whose tag is that of the key from
  -- client to server in the datagram's own cookie, over every byte before the authenticator; that
  -- cookie opens under a key of the manager and has not expired, and its algorithm is 15.
  pub handle_request-Authentic :
      (ip : Text) (l : Limiter) (reply : Bytes)
      → (handle_request siv m now ip bs l).0 ≡ done (some reply)
      → Authentic siv m now bs
  unfolding handle_request
  handle_request-Authentic ip l reply h = elim (Bool-cases ((is_rate_limited now ip l).0)) [
    | inl e ↦ ground arith
    | inr e ↦ answer-Authentic reply (ground arith)
  ]
