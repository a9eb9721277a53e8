-- ===== src/Ntp/Records/Messages.antt =====
-- Messages of several records: when `encode` does not raise, and how messages are put together.
use squawk.Prelude.{
  ◌<◌, ◌^◌, ◌≡◌, List, [], ◌∷◌, ◌++◌, length, All, arith, refl, sym, ap, ◌∙◌, Bool-cases, inl, inr,
  if◌then◌else◌,
}
use mathlib.Core.List.{append_assoc, append-nil}
use squawk.Prelude.Tries.{done, after_done}
use squawk.Ntp.Bytes.{Bytes}
use squawk.Ntp.Bytes.RoundTrip.{pack_h-small}
use squawk.Ntp.Records.{NtsRecord, encode, encode_all, with_critical}
use squawk.Ntp.Records.RoundTrip.{HasType}

-- A record that `encode` takes.
abbrev pub Fits : NtsRecord → Type 0
Fits r = HasType r × (length r.body < 2 ^ 16)

field_fits :
    (r : NtsRecord)
    → HasType r
    → (if r.critical then with_critical r.record_type else r.record_type) < 2 ^ 16
field_fits r h = elim (Bool-cases r.critical) [ inl e ↦ ground arith | inr e ↦ ground arith ]

pub encode-total : (r : NtsRecord) → Fits r → (bs : Bytes) × (encode r ≡ done bs)
unfolding encode
encode-total r (h, small) =
    let first =
      pack_h-small (if r.critical then with_critical r.record_type else r.record_type)
        (field_fits r h) in
    let second = pack_h-small (length r.body) small in rw (first, second) (_, refl)

pub encode_all-cons :
    (r : NtsRecord) (rs : List NtsRecord) (a b : Bytes)
    → encode r ≡ done a
    → encode_all rs ≡ done b
    → encode_all (r ∷ rs) ≡ done (a ++ b)
unfolding encode_all
encode_all-cons r rs a b ha hb = ground (arith, ha, hb)

pub encode_all-single :
    (r : NtsRecord) (a : Bytes) → encode r ≡ done a → encode_all (r ∷ []) ≡ done a
unfolding encode_all
encode_all-single r a h = encode_all-cons r [] a [] h refl ∙ ap done (append-nil a)

pub encode_all-total :
    (rs : List NtsRecord) → All Fits rs → (bs : Bytes) × (encode_all rs ≡ done bs)
unfolding encode_all
encode_all-total [] h = ([], refl)
encode_all-total (r ∷ rs) h =
    let (a, ha) = encode-total r h.0 in
    let (b, hb) = encode_all-total rs h.1 in (a ++ b, encode_all-cons r rs a b ha hb)

pub encode_all-append :
    (rs ss : List NtsRecord) (a b : Bytes)
    → encode_all rs ≡ done a
    → encode_all ss ≡ done b
    → encode_all (rs ++ ss) ≡ done (a ++ b)
unfolding encode_all
encode_all-append [] ss a b ha hb = ground (arith, ha, hb)
encode_all-append (r ∷ rs) ss a b ha hb = after_done (encode r) ha λ first ef hf.
    after_done (encode_all rs) hf λ rest er hr.
      let whole : first ++ rest ≡ a = ground (arith, hr) in
      encode_all-cons r (rs ++ ss) first (rest ++ b) ef (encode_all-append rs ss rest b er hb)
      ∙ ap done (sym (append_assoc first rest b) ∙ ap (λ x. x ++ b) whole)
