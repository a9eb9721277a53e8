-- ===== src/Ntp/Udp/Replies.antt =====
-- What `build_ntp_response` builds, as a client reads it.
use squawk.Prelude.{
  All-append, ℕ, ◌+◌, ◌-◌, ◌*◌, ◌/◌, ◌%◌, ◌^◌, ◌<◌, ◌≡◌, true, Option, none, some, List, [], ◌∷◌,
  ◌++◌, length, take, drop, All, take-drop, length-drop, drop-append, length-append, text_eq_refl,
  replicate, arith, refl, ap, ◌∙◌,
}
use mathlib.Core.List.{append-nil}
use squawk.Prelude.Tries.{done}
use squawk.Ntp.Bytes.{unpack_i, unpack_q, zeros, Bytes, bytes4, bytes8, aligned}
use squawk.Ntp.Bytes.RoundTrip.{pack_q-fits}
use squawk.Ntp.Cookies.{Siv, NtsCookie, ticks, wire_encode, wire_decode}
use squawk.Ntp.Cookies.Unseal.{wire_decode-wire_encode}
use squawk.Ntp.Packets.{
  byte_at, signed_byte, ExtensionField, NtpPacket, unique_identifier, nts_cookie, nts_authenticator,
  all_fields, get_field, parse_ntp_packet, extract_authenticator, build_ef,
}
use squawk.Ntp.Packets.Fields.{pad, build_ef-total}
use squawk.Ntp.Packets.Sequences.{
  build_efs, build_efs-append, build_efs-single, IsOther, all_fields-build_efs,
  extract_authenticator-build_efs, get_field-append_ne, get_field-append_eq, get_field-padded,
}
use squawk.Ntp.Udp.{
  compute_authenticator, verify_authenticator, ntp_epoch_offset, response_header, identifier_ef,
}

-- What a client needs of a reply: a tag that verifies with the key from server to client over every
-- byte before the authenticator, and a cookie.
pub record IsReply (siv : Siv) (key : Bytes) (c : NtsCookie) (reply : Bytes) : Type 0 where
  pub aad : Bytes
  pub tag : Bytes
  pub packet : NtpPacket
  pub field : Bytes
  pub extracted : extract_authenticator reply ≡ some (aad, tag)
  pub verified : verify_authenticator siv key 15 aad tag ≡ true
  pub parsed : parse_ntp_packet reply ≡ some packet
  pub mode : packet.mode ≡ 4
  pub carried : get_field nts_cookie packet.extension_fields ≡ some field
  pub decoded : wire_decode field ≡ done (some c)

-- The time fits in the 32 bits of the era.
abbrev pub InEra : ℕ → Type 0
InEra now = now / ticks + ntp_epoch_offset < 2 ^ 32

-- The key encrypts the empty text.
abbrev pub Signs : Siv → Bytes → Type 0
Signs siv key = (aad : Bytes) → (sealed : Bytes) × (siv.encrypt key [] aad ≡ done sealed)

abbrev pub IdentifierFits : Option Bytes → Type 0
IdentifierFits none = Unit
IdentifierFits (some v) = aligned (length v) < 2 ^ 16 - 4

pub pad-aligned : (v : Bytes) → length v % 4 ≡ 0 → pad v ≡ v
pad-aligned v h =
    let none_missing : aligned (length v) - length v ≡ 0 = omega arith in
    ap (λ n. v ++ replicate n 0) none_missing ∙ append-nil v

length-bytes8 : (n : ℕ) → length (bytes8 n) ≡ 8
length-bytes8 n = omega arith

pub response_header-total :
    (now : ℕ) (request : NtpPacket)
    → InEra now
    → request.origin_timestamp < 2 ^ 64
    → (rest : Bytes) × (response_header now request ≡ done (36 ∷ rest)) × (length rest ≡ 47)
unfolding response_header
response_header-total now request era small =
    let t = (now / ticks + ntp_epoch_offset) * 2 ^ 32 + now % ticks in
    let first = pack_q-fits t (omega (arith, era)) in
    let second = pack_q-fits request.origin_timestamp small in
    let third = pack_q-fits now (omega (arith, era)) in
    let rest : Bytes =
      2
      ∷ 3
      ∷ 236
      ∷ (bytes4 65
          ++ (bytes4 65
              ++ (bytes4 0
                  ++ (bytes8 t
                      ++ (bytes8 request.origin_timestamp ++ (bytes8 now ++ bytes8 t)))))) in
    (
      rest,
      rw (first, second, third) refl,
      omega (
        arith,
        length-append (bytes8 t) (bytes8 request.origin_timestamp ++ (bytes8 now ++ bytes8 t)),
        length-append (bytes8 request.origin_timestamp) (bytes8 now ++ bytes8 t),
        length-append (bytes8 now) (bytes8 t),
      ),
    )

pub identifier_ef-total :
    (v : Option Bytes)
    → IdentifierFits v
    → (fs : List ExtensionField) × (bs : Bytes) × (identifier_ef v ≡ done bs)
      × (build_efs fs ≡ done bs)
      × All IsOther fs
unfolding build_efs
identifier_ef-total none h = ([], [], refl, refl, tt)
identifier_ef-total (some []) h = ([], [], refl, refl, tt)
identifier_ef-total (some (b ∷ v)) h =
    let (ef, e) = build_ef-total unique_identifier (b ∷ v) (omega arith) h in
    let f : ExtensionField = record { field_type = unique_identifier; value = b ∷ v } in
    (f ∷ [], ef, e, build_efs-single f ef e, (λ same. omega (arith, same), tt))

pub parse_ntp_packet-header :
    (header tail : Bytes)
    → length header ≡ 48
    → (packet : NtpPacket) × (parse_ntp_packet (header ++ tail) ≡ some packet)
      × (packet.extension_fields ≡ all_fields tail)
      × (packet.mode ≡ byte_at 0 (header ++ tail) % 8)
      × (packet.origin_timestamp ≡ unpack_q (drop 24 (header ++ tail)))
unfolding parse_ntp_packet
parse_ntp_packet-header header tail size =
    let whole = header ++ tail in
    let long = length-append header tail in
    let packet : NtpPacket = record {
      version = byte_at 0 whole / 8 % 8;
      mode = byte_at 0 whole % 8;
      stratum = byte_at 1 whole;
      poll = byte_at 2 whole;
      precision = signed_byte (byte_at 3 whole);
      root_delay = unpack_i (drop 4 whole);
      root_dispersion = unpack_i (drop 8 whole);
      reference_id = unpack_i (drop 12 whole);
      reference_timestamp = unpack_q (drop 16 whole);
      origin_timestamp = unpack_q (drop 24 whole);
      receive_timestamp = unpack_q (drop 32 whole);
      transmit_timestamp = unpack_q (drop 40 whole);
      extension_fields = all_fields (drop 48 whole);
    } in
    (
      packet,
      ground (arith, long, size),
      ap all_fields (drop-append 48 header tail size),
      refl,
      refl,
    )

module _ (siv : Siv) (key : Bytes) where
  -- A reply put together of its header, fields and authenticator.
  pub parts-IsReply :
      (rest : Bytes) (fs : List ExtensionField) (body wire sealed last : Bytes) (c : NtsCookie)
      → length rest ≡ 47
      → All IsOther fs
      → build_efs (fs ++ (record { field_type = nts_cookie; value = wire } ∷ [])) ≡ done body
      → wire_encode c ≡ done wire
      → siv.encrypt key [] ((36 ∷ rest) ++ body) ≡ done sealed
      → build_ef nts_authenticator (take 16 sealed) ≡ done last
      → IsReply siv key c ((36 ∷ rest) ++ (body ++ last))
  unfolding verify_authenticator compute_authenticator
  parts-IsReply rest fs body wire sealed last c size others built wired signed ended =
      let cookie : ExtensionField = record { field_type = nts_cookie; value = wire } in
      let final : ExtensionField = record {
        field_type = nts_authenticator;
        value = take 16 sealed;
      } in
      let header : Bytes = 36 ∷ rest in
      let sixteen : length sealed ≡ 16 = siv.length-encrypt key [] (header ++ body) sealed signed in
      let tag_size : length (take 16 sealed) % 4 ≡ 0 = omega (
        arith,
        sixteen,
        ap length (take-drop 16 sealed),
        length-append (take 16 sealed) (drop 16 sealed),
        length-drop 16 sealed,
      ) in
      let whole_fields =
        build_efs-append (fs ++ (cookie ∷ [])) (final ∷ []) body last built
          (build_efs-single final last ended) in
      let (packet, parsed, fields, mode, _) =
        parse_ntp_packet-header header (body ++ last) (omega (arith, size)) in
      let all_others =
        All-append IsOther fs (cookie ∷ []) others (λ same. omega (arith, same), tt) in
      let found : get_field nts_cookie ((fs ++ (cookie ∷ [])) ++ (final ∷ [])) ≡ some wire =
        get_field-append_ne nts_cookie (fs ++ (cookie ∷ [])) final (λ same. omega (arith, same))
        ∙ get_field-append_eq nts_cookie fs cookie refl in
      let carried =
        ap (get_field nts_cookie) (
          fields
          ∙ all_fields-build_efs ((fs ++ (cookie ∷ [])) ++ (final ∷ [])) (body ++ last)
              whole_fields)
        ∙ get_field-padded nts_cookie ((fs ++ (cookie ∷ [])) ++ (final ∷ [])) wire found in
      record {
        aad = header ++ body;
        tag = take 16 sealed;
        packet = packet;
        field = pad wire;
        extracted =
            extract_authenticator-build_efs header (fs ++ (cookie ∷ [])) body (take 16 sealed) last
              (omega (arith, size)) all_others built ended
            ∙ ap (λ x. some (header ++ body, x)) (pad-aligned (take 16 sealed) tag_size);
        verified = ground (arith, signed, text_eq_refl (take 16 sealed));
        parsed = parsed;
        mode = mode;
        carried = carried;
        decoded =
            wire_decode-wire_encode c wire (zeros (aligned (length wire) - length wire)) wired;
      }
