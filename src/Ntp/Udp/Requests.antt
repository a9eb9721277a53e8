-- ===== src/Ntp/Udp/Requests.antt =====
-- The request of a client with a good cookie, from the datagram to the reply.
use squawk.Prelude.{
  length-drop, take-drop, take, subst, ℕ, ◌-◌, ◌^◌, ◌<◌, ◌≡◌, true, false, none, some, List, [],
  ◌∷◌, ◌++◌, length, drop, All, All-drop, drop-append, length-append, Text, arith, refl, sym, ap,
  ◌∙◌,
}
use mathlib.Core.List.{append_assoc}
use squawk.Prelude.Tries.{done}
use squawk.Ntp.Bytes.{Bytes, unpack_q, aligned, zeros}
use squawk.Ntp.Cookies.{
  Siv, NtsCookie, CookieManager, Keying, seal_cookie, unseal_cookie, wire_encode, wire_decode,
}
use squawk.Ntp.Cookies.Unseal.{HasKeys, wire_decode-wire_encode}
use squawk.Ntp.Packets.{
  ExtensionField, NtpPacket, unique_identifier, nts_cookie, nts_authenticator, get_field,
  parse_ntp_packet, extract_authenticator, build_ef,
}
use squawk.Ntp.Packets.Fields.{pad}
use squawk.Ntp.Packets.Sequences.{
  build_efs, build_efs-append, build_efs-single, IsOther, all_fields-build_efs,
  extract_authenticator-build_efs, get_field-append_ne, get_field-padded,
}
use squawk.Ntp.Udp.{
  Limiter, is_rate_limited, compute_authenticator, verify_authenticator, build_ntp_response,
  respond, open_cookie, answer, handle_request,
}
use squawk.Ntp.Udp.Replies.{IsReply, InEra, Signs, IdentifierFits, parse_ntp_packet-header}
use squawk.Ntp.Udp.Answers.{
  unpack_q-append, IsByte, build_ntp_response-IsReply, fields_fit, verify_authenticator-compute,
  unpack_q-bound,
}

-- A request as a client builds it: a header, extension fields of which the last cookie is `old`, and
-- an authenticator with the client's key over all of these.
pub record Request (siv : Siv) (k : Keying) (old : NtsCookie) : Type 0 where
  pub header : Bytes
  pub fields : List ExtensionField
  pub body : Bytes
  pub wire : Bytes
  pub tag : Bytes
  pub last : Bytes
  pub header_size : length header ≡ 48
  pub header_bytes : All IsByte header
  pub others : All IsOther fields
  pub built : build_efs fields ≡ done body
  pub carried : get_field nts_cookie fields ≡ some wire
  pub wired : wire_encode old ≡ done wire
  pub signed : compute_authenticator siv k.c2s_key k.aead_id (header ++ body) ≡ done tag
  pub closed : build_ef nts_authenticator tag ≡ done last

abbrev pub datagram : {siv : Siv} {k : Keying} {old : NtsCookie} → Request siv k old → Bytes
datagram r = r.header ++ (r.body ++ r.last)

origin-bound :
    (header tail : Bytes) (n : ℕ)
    → length header ≡ 48
    → All IsByte header
    → n ≡ unpack_q (drop 24 (header ++ tail))
    → n < 2 ^ 64
origin-bound header tail n size bytes same =
    let first : length (take 24 header) ≡ 24 = omega (
      arith,
      size,
      ap length (take-drop 24 header),
      length-append (take 24 header) (drop 24 header),
      length-drop 24 header,
    ) in
    let apart : header ++ tail ≡ take 24 header ++ (drop 24 header ++ tail) =
      ap (λ x. x ++ tail) (sym (take-drop 24 header))
      ∙ append_assoc (take 24 header) (drop 24 header) tail in
    let from : drop 24 (header ++ tail) ≡ drop 24 header ++ tail =
      ap (drop 24) apart ∙ drop-append 24 (take 24 header) (drop 24 header ++ tail) first in
    let read = unpack_q-append (drop 24 header) tail (omega (arith, size, length-drop 24 header)) in
    let bound = unpack_q-bound (drop 24 header) (All-drop IsByte 24 header bytes) in
    omega (arith, bound, same ∙ (ap unpack_q from ∙ read))

wire_decode-empty : wire_decode [] ≡ done none
unfolding wire_decode
wire_decode-empty = refl

module _ (siv : Siv) (m : CookieManager) (now : ℕ) (k : Keying) (old c : NtsCookie) where
  respond-IsReply :
      (packet : NtpPacket) (aad tag : Bytes)
      → unseal_cookie siv m now old ≡ some k
      → verify_authenticator siv k.c2s_key k.aead_id aad tag ≡ true
      → (built : (reply : Bytes) × (build_ntp_response siv m now packet k
              (get_field unique_identifier packet.extension_fields)
            ≡ done reply)
          × IsReply siv k.s2c_key c reply)
      → open_cookie siv m now packet aad tag (some old) ≡ done (some built.0)
  unfolding open_cookie respond
  respond-IsReply packet aad tag opened verified (reply, e, good) =
      ground (arith, opened, verified, e)

  -- The steps of `handle_request`, each with its result.
  answer-steps :
      (bs : Bytes) (packet : NtpPacket) (field aad tag reply : Bytes)
      → parse_ntp_packet bs ≡ some packet
      → get_field nts_cookie packet.extension_fields ≡ some field
      → extract_authenticator bs ≡ some (aad, tag)
      → wire_decode field ≡ done (some old)
      → open_cookie siv m now packet aad tag (some old) ≡ done (some reply)
      → answer siv m now bs ≡ done (some reply)
  unfolding answer
  answer-steps bs packet [] aad tag reply parsed carried extracted decoded ended =
      absurd (ground (arith, decoded, wire_decode-empty))
  answer-steps bs packet (b ∷ field) aad tag reply parsed carried extracted decoded ended =
      ground (arith, parsed, carried, extracted, decoded, ended)

  answer-IsReply :
      (r : Request siv k old)
      → unseal_cookie siv m now old ≡ some k
      → InEra now
      → HasKeys k
      → Signs siv k.s2c_key
      → seal_cookie siv m now k ≡ done c
      → (reply : Bytes) × (answer siv m now (datagram r) ≡ done (some reply))
        × IsReply siv k.s2c_key c reply
  answer-IsReply r opened era keys signs sealing =
      let tail = r.body ++ r.last in
      let final : ExtensionField = record { field_type = nts_authenticator; value = r.tag } in
      let whole_fields =
        build_efs-append r.fields (final ∷ []) r.body r.last r.built
          (build_efs-single final r.last r.closed) in
      let (packet, parsed, fields, _, origin) =
        parse_ntp_packet-header r.header tail r.header_size in
      let read = fields ∙ all_fields-build_efs (r.fields ++ (final ∷ [])) tail whole_fields in
      let carried : get_field nts_cookie packet.extension_fields ≡ some (pad r.wire) =
        ap (get_field nts_cookie) read
        ∙ get_field-padded nts_cookie (r.fields ++ (final ∷ [])) r.wire (
            get_field-append_ne nts_cookie r.fields final (λ same. omega (arith, same))
            ∙ r.carried) in
      let identifier : IdentifierFits (get_field unique_identifier packet.extension_fields) =
        subst (λ fs. IdentifierFits (get_field unique_identifier fs)) (sym read)
          (fields_fit unique_identifier (r.fields ++ (final ∷ [])) tail whole_fields) in
      let (unpadded, verified, aead) =
        verify_authenticator-compute siv k.c2s_key k.aead_id (r.header ++ r.body) r.tag r.signed in
      let extracted : extract_authenticator (datagram r) ≡ some (r.header ++ r.body, r.tag) =
        extract_authenticator-build_efs r.header r.fields r.body r.tag r.last r.header_size r.others
          r.built r.closed
        ∙ ap (λ x. some (r.header ++ r.body, x)) unpadded in
      let decoded : wire_decode (pad r.wire) ≡ done (some old) =
        wire_decode-wire_encode old r.wire (zeros (aligned (length r.wire) - length r.wire))
          r.wired in
      let small =
        origin-bound r.header tail packet.origin_timestamp r.header_size r.header_bytes origin in
      let built =
        build_ntp_response-IsReply siv m now k c packet
          (get_field unique_identifier packet.extension_fields) era small identifier keys aead signs
          sealing in
      let ended = respond-IsReply packet (r.header ++ r.body) r.tag opened verified built in
      (
        built.0,
        answer-steps (datagram r) packet (pad r.wire) (r.header ++ r.body) r.tag built.0 parsed
            carried extracted decoded ended,
        built.2,
      )

  pub handle_request-IsReply :
      (r : Request siv k old) (ip : Text) (l : Limiter)
      → (is_rate_limited now ip l).0 ≡ false
      → unseal_cookie siv m now old ≡ some k
      → InEra now
      → HasKeys k
      → Signs siv k.s2c_key
      → seal_cookie siv m now k ≡ done c
      → (reply : Bytes) × ((handle_request siv m now ip (datagram r) l).0 ≡ done (some reply))
        × IsReply siv k.s2c_key c reply
  unfolding handle_request
  handle_request-IsReply r ip l free opened era keys signs sealing =
      let (reply, answered, good) = answer-IsReply r opened era keys signs sealing in
      (reply, ground (arith, free, answered), good)
