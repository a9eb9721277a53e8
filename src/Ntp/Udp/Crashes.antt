-- ===== src/Ntp/Udp/Crashes.antt =====
-- The datagrams that end the loop of `run`.
use squawk.Prelude.{
  none, some, [], [], false, true, List, ◌∷◌, Option, Option-cases, Text, ◌⊎◌, ℕ, ◌≤◌, ◌≡◌, ltb,
  some, length, take, drop, arith, ap, Bool-cases, List-cases, inl, inr,
}
use squawk.Prelude.Tries.{Try-cases, raised}
use squawk.Ntp.Bytes.{Bytes, unpack_h}
use squawk.Ntp.Cookies.{unseal_cookie, Keying, NtsCookie, Siv, CookieManager, wire_decode}
use squawk.Ntp.Packets.{NtpPacket, nts_cookie, get_field, parse_ntp_packet, extract_authenticator}
use squawk.Ntp.Udp.{
  verify_authenticator, Datagram, is_rate_limited, respond, Limiter, handle_request, run,
  open_cookie, answer,
}

-- A datagram with an authenticator, of any content, and a cookie field whose cookie has no bytes.
pub record IsPoison (bs : Bytes) : Type 0 where
  pub packet : NtpPacket
  pub field : Bytes
  pub aad : Bytes
  pub tag : Bytes
  pub parsed : parse_ntp_packet bs ≡ some packet
  pub carried : get_field nts_cookie packet.extension_fields ≡ some field
  pub extracted : extract_authenticator bs ≡ some (aad, tag)
  pub long : 3 ≤ length field
  pub no_bytes : unpack_h field ≡ 0

wire_decode-raised :
    (field : Bytes) → wire_decode field ≡ raised → (3 ≤ length field) × (unpack_h field ≡ 0)
unfolding wire_decode
wire_decode-raised field h = elim (Bool-cases (ltb (length field) 3)) [
  | inl e ↦ ground arith
  | inr e ↦ elim (List-cases (take (unpack_h field) (drop 2 field))) [
    | inl en ↦ (ground arith, ground arith)
    | inr (b, rest, ec) ↦ ground arith
  ]
]

wire_decode-no_bytes :
    (field : Bytes) → 3 ≤ length field → unpack_h field ≡ 0 → wire_decode field ≡ raised
unfolding wire_decode
wire_decode-no_bytes field long h = rw h (ground (arith, long))

module _ (siv : Siv) (m : CookieManager) (now : ℕ) where
  answer-IsPoison : (bs : Bytes) → IsPoison bs → answer siv m now bs ≡ raised
  unfolding answer
  answer-IsPoison bs p =
      let raises = wire_decode-no_bytes p.field p.long p.no_bytes in
      let e1 = p.parsed in
      let e2 = p.carried in
      let e3 = p.extracted in
      let e4 = p.long in
      elim (List-cases p.field) [
        | inl en ↦ absurd (omega (arith, e4, ap length en))
        | inr (b, rest, ec) ↦ ground (arith, e1, e2, e3, raises, ec)
      ]

  -- Otherwise only what is sent to a client whose authenticator verifies can raise.
  abbrev pub IsVerified : Bytes → Type 0
  IsVerified bs =
      (cookie : NtsCookie) × (keys : Keying) × (aad : Bytes) × (tag : Bytes)
      × (extract_authenticator bs ≡ some (aad, tag))
      × (unseal_cookie siv m now cookie ≡ some keys)
      × (verify_authenticator siv keys.c2s_key keys.aead_id aad tag ≡ true)

  open_cookie-raised :
      (packet : NtpPacket) (aad tag : Bytes) (c : Option NtsCookie)
      → open_cookie siv m now packet aad tag c ≡ raised
      → (cookie : NtsCookie) × (keys : Keying) × (unseal_cookie siv m now cookie ≡ some keys)
        × (verify_authenticator siv keys.c2s_key keys.aead_id aad tag ≡ true)
  unfolding open_cookie respond
  open_cookie-raised packet aad tag none h = ground arith
  open_cookie-raised packet aad tag (some cookie) h =
      elim (Option-cases (unseal_cookie siv m now cookie)) [
        | inl en ↦ ground arith
        | inr (keys, es) ↦
            elim (Bool-cases (verify_authenticator siv keys.c2s_key keys.aead_id aad tag)) [
              | inl e ↦ (cookie, keys, es, e)
              | inr e ↦ ground arith
            ]
      ]

  answer-raised : (bs : Bytes) → answer siv m now bs ≡ raised → IsPoison bs ⊎ IsVerified bs
  unfolding answer
  answer-raised bs h = elim (Option-cases (parse_ntp_packet bs)) [
    | inl en ↦ ground arith
    | inr (packet, parsed) ↦ elim (Option-cases (get_field nts_cookie packet.extension_fields)) [
      | inl en ↦ ground arith
      | inr ([], ec) ↦ ground arith
      | inr (b ∷ field, ec) ↦ elim (Option-cases (extract_authenticator bs)) [
        | inl en ↦ ground arith
        | inr ((aad, tag), ea) ↦ elim (Try-cases (wire_decode (b ∷ field))) [
          | inl er ↦
              let (long, no_bytes) = wire_decode-raised (b ∷ field) er in
              inl (record {
                packet = packet;
                field = b ∷ field;
                aad = aad;
                tag = tag;
                parsed = parsed;
                carried = ec;
                extracted = ea;
                long = long;
                no_bytes = no_bytes;
              })
          | inr (c, ed) ↦
              let later : open_cookie siv m now packet aad tag c ≡ raised = ground arith in
              let (cookie, keys, unsealed, verified) = open_cookie-raised packet aad tag c later in
              inr (cookie, keys, aad, tag, ea, unsealed, verified)
        ]
      ]
    ]
  ]

-- A datagram that names a cookie of no bytes, with any authenticator, ends the loop unless its source
-- is over the limit: no later datagram is answered, whatever it holds.
pub run-IsPoison :
    (siv : Siv) (l : Limiter) (d : Datagram) (ds : List Datagram)
    → (is_rate_limited d.now d.ip l).0 ≡ false
    → IsPoison d.payload
    → run siv l (d ∷ ds) ≡ []
unfolding run handle_request
run-IsPoison siv l d ds free p =
    let raises = answer-IsPoison siv d.manager d.now d.payload p in ground (arith, free, raises)

-- When the handling of a datagram raises, the datagram is of that kind or its authenticator verifies
-- with the client's key of a cookie that opens: no other datagram ends the loop.
pub handle_request-raised :
    (siv : Siv) (m : CookieManager) (now : ℕ) (ip : Text) (bs : Bytes) (l : Limiter)
    → (handle_request siv m now ip bs l).0 ≡ raised
    → IsPoison bs ⊎ IsVerified siv m now bs
unfolding handle_request
handle_request-raised siv m now ip bs l h = elim (Bool-cases ((is_rate_limited now ip l).0)) [
  | inl e ↦ ground arith
  | inr e ↦ answer-raised siv m now bs (ground arith)
]
