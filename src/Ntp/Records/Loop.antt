-- ===== src/Ntp/Records/Loop.antt =====
-- The loop of `parse_all` on any data.
use squawk.Prelude.{
  ℕ, zero, suc, ◌+◌, ◌<◌, ◌≤◌, ◌≡◌, none, some, [], ◌∷◌, length, drop, ltb, arith, refl, ap,
  Bool-cases, Option-cases, inl, inr, length-drop,
}
use squawk.Ntp.Bytes.{Bytes, unpack_h, aligned}
use squawk.Ntp.Records.{NtsRecord, decode, parse_from, parse_all}

decode-shorter :
    (bs : Bytes) (r : NtsRecord) (rest : Bytes)
    → decode bs ≡ some (r, rest)
    → length rest < length bs
unfolding decode
decode-shorter bs r rest h = elim (Bool-cases (ltb (length bs) 4)) [
  | inl e ↦ ground arith
  | inr e ↦ elim (Bool-cases (ltb (length bs) (4 + unpack_h (drop 2 bs)))) [
    | inl e' ↦ ground arith
    | inr e' ↦
        let same : drop (aligned (4 + unpack_h (drop 2 bs))) bs ≡ rest = ground arith in
        let long : 4 ≤ length bs = ground arith in
        omega (arith, long, ap length same, length-drop (aligned (4 + unpack_h (drop 2 bs))) bs)
  ]
]

-- Fuel for every byte is enough.
parse_from_enough :
    (fuel fuel' : ℕ) (bs : Bytes)
    → length bs ≤ fuel
    → length bs ≤ fuel'
    → parse_from fuel bs ≡ parse_from fuel' bs
unfolding parse_from
parse_from_enough zero zero bs h h' = refl
parse_from_enough zero (suc fuel') [] h h' = refl
parse_from_enough zero (suc fuel') (b ∷ bs) h h' = absurd (omega (arith, h))
parse_from_enough (suc fuel) zero [] h h' = refl
parse_from_enough (suc fuel) zero (b ∷ bs) h h' = absurd (omega (arith, h'))
parse_from_enough (suc fuel) (suc fuel') [] h h' = refl
parse_from_enough (suc fuel) (suc fuel') (b ∷ bs) h h' = elim (Option-cases (decode (b ∷ bs))) [
  | inl e ↦ ground arith
  | inr ((r, rest), e) ↦
      let short = decode-shorter (b ∷ bs) r rest e in
      let later =
        parse_from_enough fuel fuel' rest (omega (arith, short, h)) (omega (arith, short, h')) in
      ground (arith, e, later)
]

-- `parse_all` ends on any data, as the loop does: it stops at the end of the data and at the first
-- record that `decode` rejects, and goes on with what follows a record that it reads.
pub parse_all_lem :
    (bs : Bytes)
    → parse_all bs ≡ (elim bs [
      | [] ↦ []
      | b ∷ bs ↦ elim (decode (b ∷ bs)) [ none ↦ [] | some (r, rest) ↦ r ∷ parse_all rest ]
    ])
unfolding parse_all parse_from
parse_all_lem [] = refl
parse_all_lem (b ∷ bs) = elim (Option-cases (decode (b ∷ bs))) [
  | inl e ↦ ground arith
  | inr ((r, rest), e) ↦
      let short = decode-shorter (b ∷ bs) r rest e in
      let later =
        parse_from_enough (length bs) (length rest) rest (omega (arith, short)) (omega arith) in
      ground (arith, e, later)
]
