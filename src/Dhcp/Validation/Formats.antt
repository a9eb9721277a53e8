-- ===== src/Dhcp/Validation/Formats.antt =====
-- What the validators accept.
use squawk.Prelude.{
  sym, ◌∙◌, ap, split-cons, strip_idem, subst, strip, arith, all, ◌==◌, false, any, ◌≤◌, ◌&&◌, true,
  some, length, Bool, split, Text, ◌≡◌, ℕ, zero, suc, [], ◌∷◌,
}
use squawk.Dhcp.Validation.{
  Json, null, text, other, is_hex, mac_groups, is_valid_mac, is_hostname, accept_hostname,
  is_control, sanitize_hostname, max_hostname_len,
}

-- Two hexadecimal digits.
abbrev pub two_hex : Text → Bool
two_hex (a ∷ b ∷ []) = is_hex a && is_hex b
two_hex _ = false

colon-not-hex : (c : ℕ) → is_hex c ≡ true → (c == b':') ≡ false
unfolding is_hex
colon-not-hex c h = ground arith

groups :
    (n : ℕ) (s : Text)
    → mac_groups n s ≡ (length (split b':' s) == suc n && all two_hex (split b':' s))
unfolding mac_groups split
groups zero [] = ground arith
groups zero (a ∷ []) = ground arith
groups zero (a ∷ b ∷ []) = ground (arith, colon-not-hex a, colon-not-hex b)
groups zero (a ∷ b ∷ c ∷ s) =
    let (q, qs, e) = split-cons b':' s in ground (arith, colon-not-hex a, colon-not-hex b, e)
groups (suc n) [] = ground arith
groups (suc n) (a ∷ []) = ground arith
groups (suc n) (a ∷ b ∷ []) = ground (arith, colon-not-hex a, colon-not-hex b)
groups (suc n) (a ∷ b ∷ c ∷ s) = ground (arith, colon-not-hex a, colon-not-hex b, groups n s)

accept_hostname-some :
    (t h : Text)
    → accept_hostname t ≡ some h
    → (t ≡ h)
      × (is_hostname h ≡ true)
      × (1 ≤ length h)
      × (length h ≤ max_hostname_len)
      × (any is_control h ≡ false)
unfolding accept_hostname
accept_hostname-some [] h e = ground arith
accept_hostname-some (c ∷ t) h e =
    let same : c ∷ t ≡ h = ground arith in
    (
      same,
      rw (← same) (ground arith),
      rw (← same) (omega arith),
      rw (← same) (ground arith),
      rw (← same) (ground arith),
    )

-- What `sanitize_hostname` returns is accepted again as it is, is a host name of 1 to 253
-- characters, and holds no control character.
pub sanitize_hostname-some :
    (v : Json) (h : Text)
    → sanitize_hostname v ≡ some h
    → (sanitize_hostname (text h) ≡ some h)
      × (is_hostname h ≡ true)
      × (1 ≤ length h)
      × (length h ≤ max_hostname_len)
      × (any is_control h ≡ false)
unfolding sanitize_hostname
sanitize_hostname-some null h e = cc
sanitize_hostname-some (other b) h e = cc
sanitize_hostname-some (text s) h e =
    let (same, name, low, high, plain) = accept_hostname-some (strip s) h e in
    (
      ap accept_hostname (subst (λ t. strip t ≡ t) same (strip_idem s) ∙ sym same) ∙ e,
      name,
      low,
      high,
      plain,
    )

-- A MAC address is accepted exactly if the colons in it part six pairs of hexadecimal digits.
pub is_valid_mac-groups :
    (s : Text) → is_valid_mac (text s) ≡ (length (split b':' s) == 6 && all two_hex (split b':' s))
is_valid_mac-groups s = unfold is_valid_mac in groups 5 s
