-- ===== src/Dhcp/Address/Octets.antt =====
-- One part of a dotted quad, printed and read.
use squawk.Prelude.{ℕ, ◌<◌, true, some, [], ◌∷◌, Text, ◌≡◌, arith, lacks}
use squawk.Dhcp.Address.{dot, parse_octet, print_octet}

pub parse-print_octet : (o : ℕ) → o < 256 → parse_octet (print_octet o) ≡ some o
unfolding parse_octet print_octet
parse-print_octet o h = ground arith

pub lacks-print_octet : (o : ℕ) → o < 256 → lacks dot (print_octet o) ≡ true
unfolding print_octet
lacks-print_octet o h = ground arith

pub print-parse_octet : (s : Text) (o : ℕ) → parse_octet s ≡ some o → print_octet o ≡ s
unfolding parse_octet print_octet
print-parse_octet [] o h = ground arith
print-parse_octet (a ∷ []) o h = ground arith
print-parse_octet (a ∷ b ∷ []) o h = ground arith
print-parse_octet (a ∷ b ∷ c ∷ []) o h = ground arith
print-parse_octet (a ∷ b ∷ c ∷ d ∷ s) o h = ground arith

pub parse_octet-lt : (s : Text) (o : ℕ) → parse_octet s ≡ some o → o < 256
unfolding parse_octet
parse_octet-lt s o h = ground arith
