-- ===== src/Ntp/Packets/Fields.antt =====
-- What `_build_ef` writes, read by the two loops over the extension fields.
use squawk.Prelude.{
  ℕ, ◌+◌, ◌-◌, ◌%◌, ◌^◌, ◌<◌, ◌≤◌, ◌≡◌, some, ◌++◌, length, take, drop, take-append, drop-append,
  length-append, length-replicate, arith, refl, sym, ap, ◌∙◌,
}
use squawk.Prelude.Tries.{done, after_done}
use squawk.Ntp.Bytes.{Bytes, bytes2, pack_h, unpack_h, aligned, zeros}
use squawk.Ntp.Bytes.RoundTrip.{pack_h-done, pack_h-small}
use squawk.Ntp.Packets.{ExtensionField, next_field, build_ef}

-- A value as a field holds it.
abbrev pub pad : Bytes → Bytes
pad v = v ++ zeros (aligned (length v) - length v)

abbrev pub padded : ExtensionField → ExtensionField
padded f = record { field_type = f.field_type; value = pad f.value }

pub length-pad : (v : Bytes) → length (pad v) ≡ aligned (length v)
length-pad v = omega (
  arith,
  length-append v (zeros (aligned (length v) - length v)),
  length-replicate {A = ℕ} (aligned (length v) - length v) 0,
)

abbrev layout : ℕ → Bytes → Bytes
layout t v = bytes2 t ++ (bytes2 (4 + length (pad v)) ++ pad v)

pub build_ef-total :
    (t : ℕ) (v : Bytes)
    → t < 2 ^ 16
    → aligned (length v) < 2 ^ 16 - 4
    → (ef : Bytes) × (build_ef t v ≡ done ef)
unfolding build_ef
build_ef-total t v small fits =
    let first = pack_h-small t small in
    let second = pack_h-small (4 + length (pad v)) (omega (arith, fits, length-pad v)) in
    (layout t v, rw (first, second) refl)

pub build_ef-done :
    (t : ℕ) (v ef : Bytes)
    → build_ef t v ≡ done ef
    → (ef ≡ layout t v) × (4 + length (pad v) < 2 ^ 16)
unfolding build_ef
build_ef-done t v ef h = after_done (pack_h t) h λ a ea ha.
    after_done (pack_h (4 + length (pad v))) ha λ l el hl.
      let (same_a, _) = pack_h-done t a ea in
      let (same_l, small) = pack_h-done (4 + length (pad v)) l el in
      let whole : a ++ (l ++ pad v) ≡ ef = ground (arith, hl) in
      (
        sym whole
            ∙ (ap (λ x. x ++ (l ++ pad v)) same_a ∙ ap (λ x. bytes2 t ++ (x ++ pad v)) same_l),
        small,
      )

-- `next_field` at data whose parts are known.
next_field-parts :
    (bs : Bytes) (t n : ℕ) (v rest : Bytes)
    → unpack_h bs ≡ t
    → unpack_h (drop 2 bs) ≡ 4 + n
    → n % 4 ≡ 0
    → 4 + n ≤ length bs
    → take n (drop 4 bs) ≡ v
    → drop (4 + n) bs ≡ rest
    → next_field bs ≡ some (record { field_type = t; value = v }, rest)
unfolding next_field
next_field-parts bs t n v rest et en even long ev er =
    let less : 4 + n - 4 ≡ n = omega arith in rw (en, less, et, ev, er) (ground (arith, long, even))

pub next_field-build_ef :
    (t : ℕ) (v ef rest : Bytes)
    → build_ef t v ≡ done ef
    → (next_field (ef ++ rest) ≡ some (record { field_type = t; value = pad v }, rest))
      × (4 ≤ length ef)
next_field-build_ef t v ef rest h =
    let (same, small) = build_ef-done t v ef h in
    let n = length (pad v) in
    let long : length (layout t v) ≡ 4 + n = omega arith in
    (
      ap (λ x. next_field (x ++ rest)) same
          ∙ next_field-parts (layout t v ++ rest) t n (pad v) rest (omega arith) (omega arith)
              (omega (arith, length-pad v)) (omega (arith, long, length-append (layout t v) rest))
              (take-append n (pad v) rest refl) (drop-append (4 + n) (layout t v) rest long),
      omega (arith, ap length same, long),
    )
