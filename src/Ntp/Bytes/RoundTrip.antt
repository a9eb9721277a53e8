-- ===== src/Ntp/Bytes/RoundTrip.antt =====
-- Packing a number and reading it again.
use squawk.Prelude.{◌∷◌, ℕ, ◌/◌, ◌%◌, ◌^◌, ◌<◌, ◌≡◌, [], ◌++◌, arith, Bool-cases, ltb, inl, inr}
use squawk.Prelude.Tries.{done}
use squawk.Ntp.Bytes.{
  pack_b, pack_q, Bytes, bytes2, bytes4, bytes8, pack_h, unpack_h, unpack_i, unpack_q,
}

pub pack_h-done : (n : ℕ) (bs : Bytes) → pack_h n ≡ done bs → (bs ≡ bytes2 n) × (n < 2 ^ 16)
unfolding pack_h
pack_h-done n bs h = elim (Bool-cases (ltb n (2 ^ 16))) [
  | inl e ↦ (ground arith, ground arith)
  | inr e ↦ ground arith
]

pub unpack_h-bytes2 : (n : ℕ) (rest : Bytes) → unpack_h (bytes2 n ++ rest) ≡ n
unpack_h-bytes2 n rest = omega arith

unpack_i-bytes4 : (n : ℕ) (rest : Bytes) → n < 2 ^ 32 → unpack_i (bytes4 n ++ rest) ≡ n
unpack_i-bytes4 n rest h = omega arith

pub unpack_q-bytes8 : (n : ℕ) (rest : Bytes) → n < 2 ^ 64 → unpack_q (bytes8 n ++ rest) ≡ n
unpack_q-bytes8 n rest h = omega (
  arith,
  unpack_i-bytes4 (n / 2 ^ 32) [] (omega arith),
  unpack_i-bytes4 (n % 2 ^ 32) rest (omega arith),
)

pub pack_q-done : (n : ℕ) (bs : Bytes) → pack_q n ≡ done bs → (bs ≡ bytes8 n) × (n < 2 ^ 64)
unfolding pack_q
pack_q-done n bs h = elim (Bool-cases (ltb n (2 ^ 64))) [
  | inl e ↦ (ground arith, ground arith)
  | inr e ↦ ground arith
]

pub pack_b-done : (n : ℕ) (bs : Bytes) → pack_b n ≡ done bs → bs ≡ n ∷ []
unfolding pack_b
pack_b-done n bs h = elim (Bool-cases (ltb n 256)) [ inl e ↦ ground arith | inr e ↦ ground arith ]

pub pack_h-small : (n : ℕ) → n < 2 ^ 16 → pack_h n ≡ done (bytes2 n)
unfolding pack_h
pack_h-small n h = ground (arith, h)

pub pack_b-small : (n : ℕ) (bs : Bytes) → pack_b n ≡ done bs → n < 256
unfolding pack_b
pack_b-small n bs h = elim (Bool-cases (ltb n 256)) [ inl e ↦ ground arith | inr e ↦ ground arith ]

pub pack_b-fits : (n : ℕ) → n < 256 → pack_b n ≡ done (n ∷ [])
unfolding pack_b
pack_b-fits n h = ground (arith, h)

pub pack_q-fits : (n : ℕ) → n < 2 ^ 64 → pack_q n ≡ done (bytes8 n)
unfolding pack_q
pack_q-fits n h = ground (arith, h)
