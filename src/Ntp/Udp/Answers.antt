-- ===== src/Ntp/Udp/Answers.antt =====
-- That a client with a good cookie is answered.
use squawk.Prelude.{
  refl, text_eq_refl, none, sym, length-drop, ◌∙◌, ◌%◌, subst, some, inl, ◌==◌, inr, Option-cases,
  ◌-◌, map, Bool-cases, true, List, ℕ, ◌^◌, ◌<◌, ◌≤◌, ◌≡◌, Option, [], ◌∷◌, ◌++◌, length, take,
  drop, All, length-append, take-drop, arith, ap,
}
use mathlib.Core.List.{append_assoc}
use squawk.Prelude.Tries.{Try-cases, after_done, done}
use squawk.Ntp.Bytes.{aligned, unpack_i, Bytes, unpack_q}
use squawk.Ntp.Cookies.{Siv, NtsCookie, CookieManager, Keying, seal_cookie}
use squawk.Ntp.Cookies.Unseal.{HasKeys}
use squawk.Ntp.KeyExchange.Replies.{seal_cookie-wire}
use squawk.Ntp.Packets.{
  build_ef, get_field, ExtensionField, NtpPacket, nts_cookie, nts_authenticator,
}
use squawk.Ntp.Packets.Fields.{length-pad, build_ef-done, padded, pad, build_ef-total}
use squawk.Ntp.Packets.Sequences.{build_efs, build_efs-append, build_efs-single}
use squawk.Ntp.Udp.{verify_authenticator, compute_authenticator, build_ntp_response}
use squawk.Ntp.Udp.Replies.{
  pad-aligned, IsReply, InEra, Signs, IdentifierFits, response_header-total, identifier_ef-total,
  parts-IsReply,
}

abbrev pub IsByte : ℕ → Type 0
IsByte b = b < 256

unpack_i-bound : (bs : Bytes) → All IsByte bs → unpack_i bs < 2 ^ 32
unpack_i-bound [] h = omega arith
unpack_i-bound (a ∷ []) h = omega arith
unpack_i-bound (a ∷ b ∷ []) h = omega arith
unpack_i-bound (a ∷ b ∷ c ∷ []) h = omega arith
unpack_i-bound (a ∷ b ∷ c ∷ d ∷ bs) (ha, (hb, (hc, (hd, h)))) = omega (arith, ha, hb, hc, hd)

pub unpack_q-bound : (bs : Bytes) → All IsByte bs → unpack_q bs < 2 ^ 64
unpack_q-bound [] h = omega arith
unpack_q-bound (a ∷ []) h = omega arith
unpack_q-bound (a ∷ b ∷ []) h = omega arith
unpack_q-bound (a ∷ b ∷ c ∷ []) h = omega arith
unpack_q-bound (a ∷ b ∷ c ∷ d ∷ bs) (ha, (hb, (hc, (hd, h)))) =
    omega
      (arith, unpack_i-bound (a ∷ b ∷ c ∷ d ∷ []) (ha, (hb, (hc, (hd, tt)))), unpack_i-bound bs h)

-- The number stands in the first eight bytes.
pub unpack_q-append : (xs ys : Bytes) → 8 ≤ length xs → unpack_q (xs ++ ys) ≡ unpack_q xs
unpack_q-append [] ys long = absurd (omega (arith, long))
unpack_q-append (a ∷ []) ys long = absurd (omega (arith, long))
unpack_q-append (a ∷ b ∷ []) ys long = absurd (omega (arith, long))
unpack_q-append (a ∷ b ∷ c ∷ []) ys long = absurd (omega (arith, long))
unpack_q-append (a ∷ b ∷ c ∷ d ∷ []) ys long = absurd (omega (arith, long))
unpack_q-append (a ∷ b ∷ c ∷ d ∷ e ∷ []) ys long = absurd (omega (arith, long))
unpack_q-append (a ∷ b ∷ c ∷ d ∷ e ∷ f ∷ []) ys long = absurd (omega (arith, long))
unpack_q-append (a ∷ b ∷ c ∷ d ∷ e ∷ f ∷ g ∷ []) ys long = absurd (omega (arith, long))
unpack_q-append (a ∷ b ∷ c ∷ d ∷ e ∷ f ∷ g ∷ h ∷ xs) ys long = refl

module _ (siv : Siv) (m : CookieManager) (now : ℕ) (k : Keying) (c : NtsCookie) where
  -- The server builds a reply, whatever the request's header and identifier hold.
  pub build_ntp_response-IsReply :
      (packet : NtpPacket) (unique_id : Option Bytes)
      → InEra now
      → packet.origin_timestamp < 2 ^ 64
      → IdentifierFits unique_id
      → HasKeys k
      → k.aead_id ≡ 15
      → Signs siv k.s2c_key
      → seal_cookie siv m now k ≡ done c
      → (reply : Bytes) × (build_ntp_response siv m now packet k unique_id ≡ done reply)
        × IsReply siv k.s2c_key c reply
  unfolding build_ntp_response compute_authenticator
  build_ntp_response-IsReply packet unique_id era small identifier keys aead signs sealing =
      let (rest, headed, size) = response_header-total now packet era small in
      let (fs, uid, identified, built, others) = identifier_ef-total unique_id identifier in
      let (wire, wired, long) = seal_cookie-wire siv m now k c keys sealing in
      let (ef, ended) = build_ef-total nts_cookie wire (omega arith) (omega (arith, long)) in
      let cookie : ExtensionField = record { field_type = nts_cookie; value = wire } in
      let body =
        build_efs-append fs (cookie ∷ []) uid ef built (build_efs-single cookie ef ended) in
      let header : Bytes = 36 ∷ rest in
      let (sealed, signed) = signs (header ++ (uid ++ ef)) in
      let sixteen : length sealed ≡ 16 =
        siv.length-encrypt k.s2c_key [] (header ++ (uid ++ ef)) sealed signed in
      let tag_size : length (take 16 sealed) ≤ 16 = omega (
        arith,
        sixteen,
        ap length (take-drop 16 sealed),
        length-append (take 16 sealed) (drop 16 sealed),
      ) in
      let (last, closed) =
        build_ef-total nts_authenticator (take 16 sealed) (omega arith) (omega (arith, tag_size)) in
      let tagged : compute_authenticator siv k.s2c_key k.aead_id (header ++ (uid ++ ef))
          ≡ done (take 16 sealed) =
        ground (arith, aead, signed) in
      (
        header ++ ((uid ++ ef) ++ last),
        rw (headed, identified, sealing, wired, ended, tagged, closed)
            (ap done (append_assoc header (uid ++ ef) last)),
        parts-IsReply siv k.s2c_key rest fs (uid ++ ef) wire sealed last c size others body wired
            signed closed,
      )

pub fields_fit :
    (t : ℕ) (fs : List ExtensionField) (bs : Bytes)
    → build_efs fs ≡ done bs
    → IdentifierFits (get_field t (map padded fs))
unfolding build_efs get_field
fields_fit t [] bs h = tt
fields_fit t (f ∷ fs) bs h = after_done (build_ef f.field_type f.value) h λ a ea ha.
    after_done (build_efs fs) ha λ rest er hr.
      let (_, small) = build_ef-done f.field_type f.value a ea in
      let size = length-pad f.value in
      let again : aligned (length (pad f.value)) < 2 ^ 16 - 4 = omega (arith, small, size) in
      let later = fields_fit t fs rest er in
      elim (Option-cases (get_field t (map padded fs))) [
        | inr (v, e) ↦
            let same : get_field t (map padded (f ∷ fs)) ≡ some v = ground (arith, e) in
            subst IdentifierFits (e ∙ sym same) later
        | inl e ↦ elim (Bool-cases (f.field_type == t)) [
          | inl et ↦
              let same : get_field t (map padded (f ∷ fs)) ≡ some (pad f.value) =
                ground (arith, e) in
              subst IdentifierFits (sym same) again
          | inr et ↦
              let same : get_field t (map padded (f ∷ fs)) ≡ none = ground (arith, e) in
              subst IdentifierFits (sym same) tt
        ]
      ]

-- The tag of a request needs no padding, and it verifies.
pub verify_authenticator-compute :
    (siv : Siv) (key : Bytes) (aead_id : ℕ) (aad tag : Bytes)
    → compute_authenticator siv key aead_id aad ≡ done tag
    → (pad tag ≡ tag) × (verify_authenticator siv key aead_id aad tag ≡ true) × (aead_id ≡ 15)
unfolding verify_authenticator compute_authenticator
verify_authenticator-compute siv key aead_id aad tag h = elim (Bool-cases (aead_id == 15)) [
  | inr e ↦ ground arith
  | inl e ↦ elim (Try-cases (siv.encrypt key [] aad)) [
    | inl er ↦ ground arith
    | inr (sealed, es) ↦
        let sixteen : length sealed ≡ 16 = siv.length-encrypt key [] aad sealed es in
        let same : take 16 sealed ≡ tag = ground arith in
        let size : length tag % 4 ≡ 0 = omega (
          arith,
          sixteen,
          ap length same,
          ap length (take-drop 16 sealed),
          length-append (take 16 sealed) (drop 16 sealed),
          length-drop 16 sealed,
        ) in
        (pad-aligned tag size, ground (arith, same, text_eq_refl tag), ground arith)
  ]
]
