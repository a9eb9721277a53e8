-- ===== src/Dhcp/Validation.antt =====
-- dhcp-server/app/validation.py. A value of a JSON body is `Json`; the two regular expressions are
-- written as the recursions that accept the same texts.
pub mod Formats
use squawk.Prelude.{
  ℕ, zero, suc, Bool, true, false, not, ◌&&◌, ◌||◌, Option, none, some, List, [], ◌∷◌, Text, length,
  all, any, in_range, truthy, strip, split, leb, ltb, ◌==◌, if◌then◌else◌,
}

-- A value of a JSON object: `null` or missing, a text, or another value with its truth value.
pub data Json : Type 0 where
  null : Json
  text : Text → Json
  other : Bool → Json

-- `bool(v)`
abbrev pub is_true : Json → Bool
is_true null = false
is_true (text s) = truthy s
is_true (other b) = b

unfoldable pub is_alnum : ℕ → Bool
is_alnum c = in_range b'0' b'9' c || in_range b'A' b'Z' c || in_range b'a' b'z' c

unfoldable pub is_hex : ℕ → Bool
is_hex c = in_range b'0' b'9' c || in_range b'A' b'F' c || in_range b'a' b'f' c

-- `([0-9A-Fa-f]{2}:){n}[0-9A-Fa-f]{2}\Z`
pub mac_groups : ℕ → Text → Bool
mac_groups zero (a ∷ b ∷ []) = is_hex a && is_hex b
mac_groups (suc n) (a ∷ b ∷ c ∷ s) = is_hex a && is_hex b && c == b':' && mac_groups n s
mac_groups _ _ = false

-- `is_valid_mac`
unfoldable pub is_valid_mac : Json → Bool
unfolding mac_groups is_hex
is_valid_mac null = false
is_valid_mac (text s) = mac_groups 5 s
is_valid_mac (other b) = false

-- The last character of `c ∷ s` is a letter or a digit.
unfoldable pub ends_alnum : ℕ → Text → Bool
ends_alnum c [] = is_alnum c
ends_alnum c (d ∷ s) = ends_alnum d s

-- `[A-Za-z0-9](?:[A-Za-z0-9-]{0,61}[A-Za-z0-9])?`, the whole of a text
unfoldable pub is_label : Text → Bool
is_label [] = false
is_label (c ∷ s) =
    is_alnum c && ends_alnum c s && all (λ d. is_alnum d || d == b'-') s && leb (length s) 62

-- `_HOSTNAME_RE`: labels with dots between them
unfoldable pub is_hostname : Text → Bool
is_hostname s = all is_label (split b'.' s)

abbrev pub max_hostname_len : ℕ
max_hostname_len = 253

abbrev pub is_control : ℕ → Bool
is_control c = ltb c 0x20 || c == 0x7f

-- `sanitize_hostname` from the strip on
unfoldable pub accept_hostname : Text → Option Text
accept_hostname stripped =
    if not (truthy stripped) || ltb max_hostname_len (length stripped)
    then none
    else if any is_control stripped
    then none
    else if not (is_hostname stripped)
    then none
    else some stripped

-- `sanitize_hostname`
unfoldable pub sanitize_hostname : Json → Option Text
sanitize_hostname null = none
sanitize_hostname (other b) = none
sanitize_hostname (text s) = accept_hostname (strip s)
