-- ===== src/Ntp/Packets/Sequences.antt =====
-- Extension fields one after another, read by the loops of `parse_ntp_packet` and
-- `_extract_authenticator`.
use squawk.Prelude.{
  ℕ, zero, suc, ◌+◌, ◌-◌, ◌<◌, ◌≤◌, ◌≡◌, ◌≢◌, none, some, List, [], ◌∷◌, ◌++◌, length, take, drop,
  map, All, take-append, drop-append, length-append, arith, refl, sym, ap, ◌∙◌, Option-cases, inl,
  inr,
}
use mathlib.Core.List.{append_assoc, append-nil}
use squawk.Prelude.Tries.{Try, done, after_done, ◌>>=◌}
use squawk.Ntp.Bytes.{Bytes}
use squawk.Ntp.Packets.{
  ExtensionField, nts_authenticator, next_field, fields_from, all_fields, get_field,
  authenticator_from, extract_authenticator, build_ef,
}
use squawk.Ntp.Packets.Fields.{pad, padded, next_field-build_ef}

-- The bytes of fields, one after another.
unfoldable pub build_efs : List ExtensionField → Try Bytes
build_efs [] = done []
build_efs (f ∷ fs) = build_ef f.field_type f.value >>= λ a. build_efs fs >>= λ b. done (a ++ b)

pub build_efs-append :
    (fs gs : List ExtensionField) (a b : Bytes)
    → build_efs fs ≡ done a
    → build_efs gs ≡ done b
    → build_efs (fs ++ gs) ≡ done (a ++ b)
unfolding build_efs
build_efs-append [] gs a b ha hb = ground (arith, ha, hb)
build_efs-append (f ∷ fs) gs a b ha hb =
    after_done (build_ef f.field_type f.value) ha λ first ef hf.
      after_done (build_efs fs) hf λ rest er hr.
        let whole : first ++ rest ≡ a = ground (arith, hr) in
        let later = build_efs-append fs gs rest b er hb in
        let same : first ++ (rest ++ b) ≡ a ++ b =
          sym (append_assoc first rest b) ∙ ap (λ x. x ++ b) whole in
        ground (arith, ef, later, same)

build_efs-nil : build_efs [] ≡ done []
unfolding build_efs
build_efs-nil = refl

pub build_efs-single :
    (f : ExtensionField) (a : Bytes)
    → build_ef f.field_type f.value ≡ done a
    → build_efs (f ∷ []) ≡ done a
unfolding build_efs
build_efs-single f a h = ground (arith, h, append-nil a)

-- The first of the fields, and the bytes after it.
build_efs-cons :
    (f : ExtensionField) (fs : List ExtensionField) (bs tail : Bytes)
    → build_efs (f ∷ fs) ≡ done bs
    → (rest : Bytes) × (build_efs fs ≡ done rest)
      × (next_field (bs ++ tail) ≡ some (padded f, rest ++ tail))
      × (4 + length rest ≤ length bs)
unfolding build_efs
build_efs-cons f fs bs tail h = after_done (build_ef f.field_type f.value) h λ a ea ha.
    after_done (build_efs fs) ha λ rest er hr.
      let same : a ++ rest ≡ bs = ground (arith, hr) in
      let (read, some_bytes) = next_field-build_ef f.field_type f.value a (rest ++ tail) ea in
      (
        rest,
        er,
        ap next_field (ap (λ x. x ++ tail) (sym same) ∙ append_assoc a rest tail) ∙ read,
        omega (arith, length-append a rest, ap length same, some_bytes),
      )

fields_from-build_efs :
    (fs : List ExtensionField) (bs : Bytes) (fuel : ℕ)
    → build_efs fs ≡ done bs
    → length bs ≤ fuel
    → fields_from fuel bs ≡ map padded fs
unfolding fields_from
fields_from-build_efs [] [] zero h long = refl
fields_from-build_efs [] [] (suc fuel) h long = refl
fields_from-build_efs [] (b ∷ bs) fuel h long = absurd (ground (arith, h, build_efs-nil))
fields_from-build_efs (f ∷ fs) bs zero h long =
    let (rest, er, read, size) = build_efs-cons f fs bs [] h in absurd (omega (arith, size, long))
fields_from-build_efs (f ∷ fs) [] (suc fuel) h long =
    let (rest, er, read, size) = build_efs-cons f fs [] [] h in absurd (omega (arith, size))
fields_from-build_efs (f ∷ fs) (b ∷ bs) (suc fuel) h long =
    let (rest, er, read, size) = build_efs-cons f fs (b ∷ bs) [] h in
    let first : next_field (b ∷ bs) ≡ some (padded f, rest) =
      ap next_field (sym (append-nil (b ∷ bs)))
      ∙ (read ∙ ap (λ x. some (padded f, x)) (append-nil rest)) in
    let later = fields_from-build_efs fs rest fuel er (omega (arith, size, long)) in
    ground (arith, first, later)

-- The fields of a packet are those that were put in it, each with its padding.
pub all_fields-build_efs :
    (fs : List ExtensionField) (bs : Bytes) → build_efs fs ≡ done bs → all_fields bs ≡ map padded fs
unfolding all_fields
all_fields-build_efs fs bs h = fields_from-build_efs fs bs (length bs) h (omega arith)

abbrev pub IsOther : ExtensionField → Type 0
IsOther f = f.field_type ≢ nts_authenticator

authenticator_from-build_efs :
    (fs : List ExtensionField) (bs value last : Bytes) (fuel offset : ℕ)
    → All IsOther fs
    → build_efs fs ≡ done bs
    → build_ef nts_authenticator value ≡ done last
    → length bs < fuel
    → authenticator_from fuel offset (bs ++ last) ≡ some (offset + length bs, pad value)
unfolding authenticator_from
authenticator_from-build_efs fs bs value last zero offset others h e long = absurd (omega arith)
authenticator_from-build_efs [] [] value last (suc fuel) offset others h e long =
    let (read, some_bytes) = next_field-build_ef nts_authenticator value last [] e in
    let first : next_field last
        ≡ some (record { field_type = nts_authenticator; value = pad value }, []) =
      ap next_field (sym (append-nil last)) ∙ read in
    ground (arith, first)
authenticator_from-build_efs [] (b ∷ bs) value last (suc fuel) offset others h e long =
    absurd (ground (arith, h, build_efs-nil))
authenticator_from-build_efs (f ∷ fs) bs value last (suc fuel) offset others h e long =
    let (rest, er, read, size) = build_efs-cons f fs bs last h in
    let next = offset + length (bs ++ last) - length (rest ++ last) in
    let later =
      authenticator_from-build_efs fs rest value last fuel next others.1 er e
        (omega (arith, size, long)) in
    let same : next + length rest ≡ offset + length bs =
      omega (arith, length-append bs last, length-append rest last, size) in
    let other = others.0 in ground (arith, read, later, same, other)

-- The authenticator of a packet is found, with every byte before it.
pub extract_authenticator-build_efs :
    (header : Bytes) (fs : List ExtensionField) (bs value last : Bytes)
    → length header ≡ 48
    → All IsOther fs
    → build_efs fs ≡ done bs
    → build_ef nts_authenticator value ≡ done last
    → extract_authenticator (header ++ (bs ++ last)) ≡ some (header ++ bs, pad value)
unfolding extract_authenticator
extract_authenticator-build_efs header fs bs value last size others h e =
    let whole = header ++ (bs ++ last) in
    let long = length-append header (bs ++ last) in
    let long' = length-append bs last in
    let from : drop 48 whole ≡ bs ++ last = drop-append 48 header (bs ++ last) size in
    let found =
      authenticator_from-build_efs fs bs value last (length whole) 48 others h e
        (omega (arith, long, long', size)) in
    let read : authenticator_from (length whole) 48 (drop 48 whole)
        ≡ some (48 + length bs, pad value) =
      ap (authenticator_from (length whole) 48) from ∙ found in
    let cut : take (48 + length bs) whole ≡ header ++ bs =
      ap (take (48 + length bs)) (sym (append_assoc header bs last))
      ∙ take-append (48 + length bs) (header ++ bs) last
          (omega (arith, length-append header bs, size)) in
    ground (arith, read, cut, long, size)

pub get_field-append_ne :
    (t : ℕ) (fs : List ExtensionField) (f : ExtensionField)
    → f.field_type ≢ t
    → get_field t (fs ++ (f ∷ [])) ≡ get_field t fs
unfolding get_field
get_field-append_ne t [] f ne = ground (arith, ne)
get_field-append_ne t (g ∷ fs) f ne = ground (arith, get_field-append_ne t fs f ne)

get_field-padded-none :
    (t : ℕ) (fs : List ExtensionField) → get_field t fs ≡ none → get_field t (map padded fs) ≡ none
unfolding get_field
get_field-padded-none t [] h = refl
get_field-padded-none t (f ∷ fs) h = elim (Option-cases (get_field t fs)) [
  | inl e ↦ ground (arith, get_field-padded-none t fs e)
  | inr (w, e) ↦ ground arith
]

pub get_field-padded :
    (t : ℕ) (fs : List ExtensionField) (v : Bytes)
    → get_field t fs ≡ some v
    → get_field t (map padded fs) ≡ some (pad v)
unfolding get_field
get_field-padded t [] v h = ground arith
get_field-padded t (f ∷ fs) v h = elim (Option-cases (get_field t fs)) [
  | inl e ↦
      let matched : f.field_type ≡ t = ground arith in
      let same : f.value ≡ v = ground arith in
      let rest = get_field-padded-none t fs e in
      let same' = ap pad same in ground (arith, rest, matched, same')
  | inr (w, e) ↦
      let same : w ≡ v = ground arith in
      let rest = get_field-padded t fs w e in let same' = ap pad same in ground (arith, rest, same')
]

pub get_field-append_eq :
    (t : ℕ) (fs : List ExtensionField) (f : ExtensionField)
    → f.field_type ≡ t
    → get_field t (fs ++ (f ∷ [])) ≡ some f.value
unfolding get_field
get_field-append_eq t [] f e = ground (arith, e)
get_field-append_eq t (g ∷ fs) f e = ground (arith, get_field-append_eq t fs f e)
