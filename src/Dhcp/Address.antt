-- ===== src/Dhcp/Address.antt =====
-- What dhcp-server/app/db.py uses of Python's `ipaddress.IPv4Address`, by its documentation:
-- `int(IPv4Address(text))`, which raises `ValueError` on a text that is no dotted quad, and
-- `str(IPv4Address(number))`.
pub mod Octets
pub mod RoundTrip
use squawk.Prelude.{
  ℕ, ◌+◌, ◌-◌, ◌*◌, ◌/◌, ◌%◌, ◌^◌, Bool, true, false, not, ◌&&◌, Option, none, some, List, [], ◌∷◌,
  length, all, Text, in_range, truthy, split, join, leb, ltb, ◌==◌, if◌then◌else◌,
}
use squawk.Prelude.Options.{◌>>=◌}

abbrev pub dot : ℕ
dot = b'.'

abbrev is_digit : ℕ → Bool
is_digit = in_range b'0' b'9'

value_from : ℕ → Text → ℕ
value_from acc [] = acc
value_from acc (c ∷ s) = value_from (acc * 10 + (c - b'0')) s

abbrev leading_zero : Text → Bool
leading_zero [] = false
leading_zero (c ∷ []) = false
leading_zero (c ∷ d ∷ s) = c == b'0'

-- One part of the quad: one to three ASCII digits, no leading zero, at most 255.
pub parse_octet : Text → Option ℕ
unfolding value_from
parse_octet s =
    if truthy s
      && all is_digit s
      && leb (length s) 3
      && not (leading_zero s)
      && leb (value_from 0 s) 255
    then some (value_from 0 s)
    else none

parse_parts : List Text → Option ℕ
parse_parts (p ∷ q ∷ r ∷ s ∷ []) = do
  a ← parse_octet p
  b ← parse_octet q
  c ← parse_octet r
  d ← parse_octet s
  some (((a * 256 + b) * 256 + c) * 256 + d)
parse_parts _ = none

-- `int(ipaddress.IPv4Address(s))`; `none` stands for the `ValueError`
unfoldable pub parse_ipv4 : Text → Option ℕ
unfolding parse_parts parse_octet split
parse_ipv4 s = parse_parts (split dot s)

pub print_octet : ℕ → Text
print_octet o =
    if ltb o 10
    then (b'0' + o) ∷ []
    else if ltb o 100
    then (b'0' + o / 10) ∷ (b'0' + o % 10) ∷ []
    else (b'0' + o / 100) ∷ (b'0' + o / 10 % 10) ∷ (b'0' + o % 10) ∷ []

-- `str(ipaddress.IPv4Address(n))` for `n` below 2 ^ 32
unfoldable pub print_ipv4 : ℕ → Text
unfolding print_octet join
print_ipv4 n = join dot (
    print_octet (n / 2 ^ 24 % 256)
    ∷ print_octet (n / 2 ^ 16 % 256)
    ∷ print_octet (n / 2 ^ 8 % 256)
    ∷ print_octet (n % 256)
    ∷ [])
