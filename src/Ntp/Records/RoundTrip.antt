-- ===== src/Ntp/Records/RoundTrip.antt =====
-- What `encode` writes, read by `decode` and `parse_all`.
use squawk.Prelude.{
  ◌∷◌, refl, [], zero, suc, drop-append, take-append, All, drop, take, ◌∙◌, length-replicate, List,
  some, ap, length-append, sym, ◌≤◌, ℕ, ◌+◌, ◌-◌, ◌/◌, ◌%◌, ◌^◌, ◌<◌, ◌≡◌, ◌++◌, length, ◌==◌,
  if◌then◌else◌, arith, Bool-cases, inl, inr,
}
use mathlib.Core.List.{append_assoc}
use squawk.Prelude.Tries.{done, after_done}
use squawk.Ntp.Bytes.{unpack_h, Bytes, bytes2, pack_h, aligned, zeros}
use squawk.Ntp.Bytes.RoundTrip.{pack_h-done}
use squawk.Ntp.Records.{parse_from, encode_all, parse_all, decode, NtsRecord, with_critical, encode}

-- A record type has 15 bits.
abbrev pub HasType : NtsRecord → Type 0
HasType r = r.record_type < 2 ^ 15

abbrev field_of : NtsRecord → ℕ
field_of r = if r.critical then with_critical r.record_type else r.record_type

field_of-parts :
    (r : NtsRecord)
    → HasType r
    → (field_of r % 2 ^ 15 ≡ r.record_type) × ((field_of r / 2 ^ 15 % 2 == 1) ≡ r.critical)
field_of-parts r h = elim (Bool-cases r.critical) [
  | inl e ↦ (ground arith, ground arith)
  | inr e ↦ (ground arith, ground arith)
]

abbrev layout : NtsRecord → Bytes
layout r =
    bytes2 (field_of r)
    ++ (bytes2 (length r.body)
        ++ (r.body ++ zeros (aligned (4 + length r.body) - 4 - length r.body)))

encode-done :
    (r : NtsRecord) (bs : Bytes) → encode r ≡ done bs → (bs ≡ layout r) × (length r.body < 2 ^ 16)
unfolding encode
encode-done r bs h = after_done (pack_h (field_of r)) h λ t et ht.
    after_done (pack_h (length r.body)) ht λ l el hl.
      let (same_t, _) = pack_h-done (field_of r) t et in
      let (same_l, small) = pack_h-done (length r.body) l el in
      let tail = r.body ++ zeros (aligned (4 + length r.body) - 4 - length r.body) in
      let whole : t ++ (l ++ tail) ≡ bs = ground (arith, hl) in
      (
        sym whole
            ∙ (ap (λ x. x ++ (l ++ tail)) same_t
                ∙ ap (λ x. bytes2 (field_of r) ++ (x ++ tail)) same_l),
        small,
      )

-- `decode` at a stream whose parts are known.
decode-parts :
    (bs : Bytes) (f n : ℕ) (body rest : Bytes)
    → unpack_h bs ≡ f
    → unpack_h (drop 2 bs) ≡ n
    → 4 + n ≤ length bs
    → take n (drop 4 bs) ≡ body
    → drop (aligned (4 + n)) bs ≡ rest
    → decode bs
      ≡ some
          (record { record_type = f % 2 ^ 15; body = body; critical = f / 2 ^ 15 % 2 == 1 }, rest)
unfolding decode
decode-parts bs f n body rest ef en long eb er = rw (en, ef, eb, er) (ground (arith, long))

length-layout : (r : NtsRecord) → length (layout r) ≡ aligned (4 + length r.body)
length-layout r =
    let pad = zeros (aligned (4 + length r.body) - 4 - length r.body) in
    omega (
      arith,
      length-append r.body pad,
      length-replicate {A = ℕ} (aligned (4 + length r.body) - 4 - length r.body) 0,
    )

decode-layout :
    (r : NtsRecord) (rest : Bytes)
    → HasType r
    → length r.body < 2 ^ 16
    → decode (layout r ++ rest) ≡ some (r, rest)
decode-layout r rest h small =
    let n = length r.body in
    let pad = zeros (aligned (4 + n) - 4 - n) in
    let (same_type, same_bit) = field_of-parts r h in
    decode-parts (layout r ++ rest) (field_of r) n r.body rest (omega arith) (omega arith)
      (omega (arith, length-layout r, length-append (layout r) rest))
      (ap (take n) (append_assoc r.body pad rest) ∙ take-append n r.body (pad ++ rest) refl)
      (drop-append (aligned (4 + n)) (layout r) rest (length-layout r))
    ∙ ap (λ (x : NtsRecord). some (x, rest)) (ground (arith, same_type, same_bit))

-- A record that `encode` writes is what `decode` reads, with what follows it.
pub decode-encode :
    (r : NtsRecord) (bs rest : Bytes)
    → HasType r
    → encode r ≡ done bs
    → decode (bs ++ rest) ≡ some (r, rest)
decode-encode r bs rest h e =
    let (same, small) = encode-done r bs e in
    ap (λ x. decode (x ++ rest)) same ∙ decode-layout r rest h small

encode-nonempty : (r : NtsRecord) (bs : Bytes) → encode r ≡ done bs → 4 ≤ length bs
encode-nonempty r bs e =
    let (same, _) = encode-done r bs e in omega (arith, ap length same, length-layout r)

-- With fuel for every byte the loop reads the records that were written.
parse_from-encode_all :
    (rs : List NtsRecord) (bs : Bytes) (fuel : ℕ)
    → All HasType rs
    → encode_all rs ≡ done bs
    → length bs ≤ fuel
    → parse_from fuel bs ≡ rs
unfolding encode_all parse_from
parse_from-encode_all [] [] zero h e long = refl
parse_from-encode_all [] [] (suc fuel) h e long = refl
parse_from-encode_all [] (b ∷ bs) fuel h e long = cc
parse_from-encode_all (r ∷ rs) bs zero h e long = after_done (encode r) e λ first ef hf.
    after_done (encode_all rs) hf λ rest er hr.
      let same : first ++ rest ≡ bs = ground (arith, hr) in
      absurd
        (omega (arith, long, ap length same, length-append first rest, encode-nonempty r first ef))
parse_from-encode_all (r ∷ rs) [] (suc fuel) h e long = after_done (encode r) e λ first ef hf.
    after_done (encode_all rs) hf λ rest er hr.
      let same : first ++ rest ≡ [] = ground (arith, hr) in
      absurd (omega (arith, ap length same, length-append first rest, encode-nonempty r first ef))
parse_from-encode_all (r ∷ rs) (b ∷ bs) (suc fuel) h e long = after_done (encode r) e λ first ef hf.
    after_done (encode_all rs) hf λ rest er hr.
      let same : first ++ rest ≡ b ∷ bs = ground (arith, hr) in
      let read : decode (b ∷ bs) ≡ some (r, rest) =
        ap decode (sym same) ∙ decode-encode r first rest h.0 ef in
      let short : length rest ≤ fuel =
        omega (arith, long, ap length same, length-append first rest, encode-nonempty r first ef) in
      let later = parse_from-encode_all rs rest fuel h.1 er short in ground (arith, read, later)

-- A message of records whose types have 15 bits is parsed into the records that it was built of.
pub parse_all-encode_all :
    (rs : List NtsRecord) (bs : Bytes)
    → All HasType rs
    → encode_all rs ≡ done bs
    → parse_all bs ≡ rs
unfolding parse_all
parse_all-encode_all rs bs h e = parse_from-encode_all rs bs (length bs) h e (omega arith)
