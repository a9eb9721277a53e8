-- ===== src/Ntp/Records.antt =====
-- ntp-server/bins/server.py, `NTSKERecord`. The offset into the data is the list of the bytes from
-- there on; past the end it is empty.
pub mod RoundTrip
pub mod Loop
pub mod Messages
use squawk.Prelude.{
  ℕ, zero, suc, ◌+◌, ◌-◌, ◌/◌, ◌%◌, ◌^◌, Bool, true, false, Option, none, some, List, [], ◌∷◌, ◌++◌,
  length, take, drop, ltb, ◌==◌, if◌then◌else◌,
}
use squawk.Prelude.Tries.{Try, done, raised, ◌>>=◌}
use squawk.Ntp.Bytes.{Bytes, pack_h, unpack_h, aligned, zeros}

pub record NtsRecord : Type 0 where
  pub record_type : ℕ
  pub body : Bytes
  pub critical : Bool

-- `NTSKERecordType`
abbrev pub end_of_message : ℕ
end_of_message = 0

abbrev pub next_protocol : ℕ
next_protocol = 1

abbrev pub error : ℕ
error = 2

abbrev pub aead_algorithm : ℕ
aead_algorithm = 4

abbrev pub new_cookie : ℕ
new_cookie = 5

abbrev pub squawk_auth_token : ℕ
squawk_auth_token = 16384

-- `(1 << 15) | t`
abbrev pub with_critical : ℕ → ℕ
with_critical t = if t / 2 ^ 15 % 2 == 1 then t else t + 2 ^ 15

-- `NTSKERecord.encode`
unfoldable pub encode : NtsRecord → Try Bytes
encode r =
    let type_field = if r.critical then with_critical r.record_type else r.record_type in
    let total_len = aligned (4 + length r.body) in
    pack_h type_field >>= λ t. pack_h (length r.body) >>= λ l.
    done (t ++ (l ++ (r.body ++ zeros (total_len - 4 - length r.body))))

-- `NTSKERecord.decode`: the record, and the data after it
unfoldable pub decode : Bytes → Option (NtsRecord × Bytes)
decode bs =
    let type_field = unpack_h bs in
    let body_len = unpack_h (drop 2 bs) in
    if ltb (length bs) 4
    then none
    else if ltb (length bs) (4 + body_len)
    then none
    else some (
      record {
        record_type = type_field % 2 ^ 15;
        body = take body_len (drop 4 bs);
        critical = type_field / 2 ^ 15 % 2 == 1;
      },
      drop (aligned (4 + body_len)) bs,
    )

-- The loop of `NTSKERecord.parse_all`, for at most so many records.
unfoldable pub parse_from : ℕ → Bytes → List NtsRecord
parse_from zero bs = []
parse_from (suc fuel) [] = []
parse_from (suc fuel) (b ∷ bs) = elim (decode (b ∷ bs)) [
  | none ↦ []
  | some (r, rest) ↦ r ∷ parse_from fuel rest
]

-- `NTSKERecord.parse_all`: a record takes a byte at least
unfoldable pub parse_all : Bytes → List NtsRecord
parse_all bs = parse_from (length bs) bs

-- The encoded records one after another, as the server builds a message.
unfoldable pub encode_all : List NtsRecord → Try Bytes
encode_all [] = done []
encode_all (r ∷ rs) = encode r >>= λ bs. encode_all rs >>= λ rest. done (bs ++ rest)
