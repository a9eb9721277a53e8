-- ===== src/Ntp/Packets.antt =====
-- ntp-server/bins/server.py, the packets of `NTPUDPServer`. A fixed-point number of the header is
-- the integer that stands in the packet, without the rounding of floats. An offset into the data is
-- the list of the bytes from there on.
pub mod Fields
pub mod Sequences
use squawk.Prelude.{
  ℕ, zero, suc, ◌+◌, ◌-◌, ◌*◌, ◌/◌, ◌%◌, ◌^◌, Bool, true, false, not, ◌||◌, ◌&&◌, Option, none,
  some, List, [], ◌∷◌, ◌++◌, length, take, drop, ltb, ◌==◌, if◌then◌else◌,
}
use squawk.Prelude.Int.{ℤ, pos, negsuc}
use squawk.Prelude.Tries.{Try, done, raised, ◌>>=◌}
use squawk.Ntp.Bytes.{Bytes, pack_h, unpack_h, unpack_i, unpack_q, aligned, zeros}

-- `NTPExtensionField`
abbrev pub unique_identifier : ℕ
unique_identifier = 0x0104

abbrev pub nts_cookie : ℕ
nts_cookie = 0x0204

abbrev pub nts_authenticator : ℕ
nts_authenticator = 0x0404

pub record ExtensionField : Type 0 where
  pub field_type : ℕ
  pub value : Bytes

pub record NtpPacket : Type 0 where
  pub version : ℕ
  pub mode : ℕ
  pub stratum : ℕ
  pub poll : ℕ
  pub precision : ℤ
  pub root_delay : ℕ
  pub root_dispersion : ℕ
  pub reference_id : ℕ
  pub reference_timestamp : ℕ
  pub origin_timestamp : ℕ
  pub receive_timestamp : ℕ
  pub transmit_timestamp : ℕ
  pub extension_fields : List ExtensionField

-- A byte of the format `b`.
abbrev pub signed_byte : ℕ → ℤ
signed_byte b = if ltb b 128 then pos b else negsuc (255 - b)

abbrev pub byte_at : ℕ → Bytes → ℕ
byte_at n bs = elim (drop n bs) [ [] ↦ 0 | b ∷ rest ↦ b ]

-- The first extension field of the data, and the data after it: `none` if the header does not fit,
-- the length is wrong, or the field reaches past the end.
unfoldable pub next_field : Bytes → Option (ExtensionField × Bytes)
next_field bs =
    let ef_len = unpack_h (drop 2 bs) in
    if ltb (length bs) 4
    then none
    else if ltb ef_len 4 || not (ef_len % 4 == 0)
    then none
    else if ltb (length bs) ef_len
    then none
    else some
        (record { field_type = unpack_h bs; value = take (ef_len - 4) (drop 4 bs) }, drop ef_len bs)

-- The loop of `parse_ntp_packet` over the extension fields, for at most so many.
unfoldable pub fields_from : ℕ → Bytes → List ExtensionField
fields_from zero bs = []
fields_from (suc fuel) [] = []
fields_from (suc fuel) (b ∷ bs) = elim (next_field (b ∷ bs)) [
  | none ↦ []
  | some (f, rest) ↦ f ∷ fields_from fuel rest
]

-- A field takes a byte at least.
unfoldable pub all_fields : Bytes → List ExtensionField
all_fields bs = fields_from (length bs) bs

-- `packet.extension_fields.get(t)`: a later field of the type replaces an earlier one
unfoldable pub get_field : ℕ → List ExtensionField → Option Bytes
get_field t [] = none
get_field t (f ∷ fs) = elim (get_field t fs) [
  | some v ↦ some v
  | none ↦ if f.field_type == t then some f.value else none
]

-- `parse_ntp_packet`
unfoldable pub parse_ntp_packet : Bytes → Option NtpPacket
parse_ntp_packet bs =
    if ltb (length bs) 48
    then none
    else some (record {
      version = byte_at 0 bs / 8 % 8;
      mode = byte_at 0 bs % 8;
      stratum = byte_at 1 bs;
      poll = byte_at 2 bs;
      precision = signed_byte (byte_at 3 bs);
      root_delay = unpack_i (drop 4 bs);
      root_dispersion = unpack_i (drop 8 bs);
      reference_id = unpack_i (drop 12 bs);
      reference_timestamp = unpack_q (drop 16 bs);
      origin_timestamp = unpack_q (drop 24 bs);
      receive_timestamp = unpack_q (drop 32 bs);
      transmit_timestamp = unpack_q (drop 40 bs);
      extension_fields = all_fields (drop 48 bs);
    })

-- The loop of `_extract_authenticator`, for at most so many fields: the number of bytes that have
-- been read, and the data from there on.
unfoldable pub authenticator_from : ℕ → ℕ → Bytes → Option (ℕ × Bytes)
authenticator_from zero offset bs = none
authenticator_from (suc fuel) offset bs = elim (next_field bs) [
  | none ↦ none
  | some (f, rest) ↦
      if f.field_type == nts_authenticator
      then some (offset, f.value)
      else authenticator_from fuel (offset + length bs - length rest) rest
]

-- `_extract_authenticator`: the bytes before the field, and its value
unfoldable pub extract_authenticator : Bytes → Option (Bytes × Bytes)
extract_authenticator bs =
    if ltb (length bs) 48 then none else (elim (authenticator_from (length bs) 48 (drop 48 bs)) [
      | none ↦ none
      | some (offset, tag) ↦ some (take offset bs, tag)
    ])

-- `_build_ef`
unfoldable pub build_ef : ℕ → Bytes → Try Bytes
build_ef t value =
    let padded = value ++ zeros (aligned (length value) - length value) in
    pack_h t >>= λ a. pack_h (4 + length padded) >>= λ l. done (a ++ (l ++ padded))
