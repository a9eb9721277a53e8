-- ===== src/Ntp/Bytes.antt =====
-- What ntp-server/bins/server.py uses of Python's `bytes` and `struct`: a value of `bytes` is the
-- list of its bytes, and `struct.pack` raises on a number that does not fit.
pub mod RoundTrip
use squawk.Prelude.{
  ℕ, ◌+◌, ◌*◌, ◌/◌, ◌%◌, ◌^◌, ◌-◌, List, [], ◌∷◌, ◌++◌, ltb, replicate, if◌then◌else◌,
}
use squawk.Prelude.Tries.{Try, done, raised}

abbrev pub Bytes : Type 0
Bytes = List ℕ

-- The bytes of a number below 2 ^ 16 and of one below 2 ^ 64, the first one first.
abbrev pub bytes2 : ℕ → Bytes
bytes2 n = n / 256 ∷ n % 256 ∷ []

abbrev pub bytes4 : ℕ → Bytes
bytes4 n = n / 2 ^ 24 ∷ n / 2 ^ 16 % 256 ∷ n / 2 ^ 8 % 256 ∷ n % 256 ∷ []

abbrev pub bytes8 : ℕ → Bytes
bytes8 n = bytes4 (n / 2 ^ 32) ++ bytes4 (n % 2 ^ 32)

-- `struct.pack("!B", n)`, `"!H"`, `"!I"` and `"!Q"`
unfoldable pub pack_b : ℕ → Try Bytes
pack_b n = if ltb n 256 then done (n ∷ []) else raised

unfoldable pub pack_h : ℕ → Try Bytes
pack_h n = if ltb n (2 ^ 16) then done (bytes2 n) else raised

unfoldable pub pack_i : ℕ → Try Bytes
pack_i n = if ltb n (2 ^ 32) then done (bytes4 n) else raised

unfoldable pub pack_q : ℕ → Try Bytes
pack_q n = if ltb n (2 ^ 64) then done (bytes8 n) else raised

-- `struct.unpack` of as many bytes as the format names, which its callers see to.
abbrev pub unpack_h : Bytes → ℕ
unpack_h (a ∷ b ∷ _) = a * 256 + b
unpack_h _ = 0

abbrev pub unpack_i : Bytes → ℕ
unpack_i (a ∷ b ∷ c ∷ d ∷ _) = ((a * 256 + b) * 256 + c) * 256 + d
unpack_i _ = 0

abbrev pub unpack_q : Bytes → ℕ
unpack_q (a ∷ b ∷ c ∷ d ∷ s) = unpack_i (a ∷ b ∷ c ∷ d ∷ []) * 2 ^ 32 + unpack_i s
unpack_q _ = 0

-- A length brought to the next multiple of four.
abbrev pub aligned : ℕ → ℕ
aligned n = n + (4 - n % 4) % 4

-- `b"\x00" * n`
abbrev pub zeros : ℕ → Bytes
zeros n = replicate n 0
