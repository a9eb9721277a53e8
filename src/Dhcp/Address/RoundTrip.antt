-- ===== src/Dhcp/Address/RoundTrip.antt =====
-- Reading a dotted quad after printing it, and the other way round.
use squawk.Prelude.{
  ℕ, ◌+◌, ◌*◌, ◌/◌, ◌%◌, ◌^◌, ◌<◌, true, some, [], List, ◌∷◌, ◌++◌, Text, ◌≡◌, refl, arith, ap, ◌∙◌,
  split, join, lacks, split-lacks, split-part, join-split,
}
use squawk.Prelude.Options.{after_some}
use squawk.Dhcp.Address.{dot, parse_octet, parse_parts, parse_ipv4, print_octet, print_ipv4}
use squawk.Dhcp.Address.Octets.{
  parse-print_octet, lacks-print_octet, print-parse_octet, parse_octet-lt,
}

join-quad :
    (p q r s : Text) → join dot (p ∷ q ∷ r ∷ s ∷ []) ≡ p ++ dot ∷ (q ++ dot ∷ (r ++ dot ∷ s))
unfolding join
join-quad p q r s = refl

-- What joins four parts without dots splits into them again.
split-join_quad :
    (p q r s : Text)
    → lacks dot p ≡ true
    → lacks dot q ≡ true
    → lacks dot r ≡ true
    → lacks dot s ≡ true
    → split dot (join dot (p ∷ q ∷ r ∷ s ∷ [])) ≡ p ∷ q ∷ r ∷ s ∷ []
split-join_quad p q r s hp hq hr hs = rw (
  join-quad p q r s,
  split-part dot p (q ++ dot ∷ (r ++ dot ∷ s)) hp,
  split-part dot q (r ++ dot ∷ s) hq,
  split-part dot r s hr,
  split-lacks dot s hs,
)

parts-print :
    (a b c d : ℕ)
    → a < 256
    → b < 256
    → c < 256
    → d < 256
    → parse_parts (print_octet a ∷ print_octet b ∷ print_octet c ∷ print_octet d ∷ [])
      ≡ some (((a * 256 + b) * 256 + c) * 256 + d)
unfolding parse_parts
parts-print a b c d ha hb hc hd =
    rw (
      parse-print_octet a ha,
      parse-print_octet b hb,
      parse-print_octet c hc,
      parse-print_octet d hd,
    )

-- Every address below 2 ^ 32 is read back from its text.
pub parse-print_ipv4 : (n : ℕ) → n < 2 ^ 32 → parse_ipv4 (print_ipv4 n) ≡ some n
parse-print_ipv4 n h =
    unfold parse_ipv4 print_ipv4 in
    rw
      (split-join_quad (print_octet a) (print_octet b) (print_octet c) (print_octet d)
        (lacks-print_octet a ha) (lacks-print_octet b hb) (lacks-print_octet c hc)
        (lacks-print_octet d hd))
      (parts-print a b c d ha hb hc hd ∙ ap some (omega arith))
  where
    a : ℕ
    a = n / 2 ^ 24 % 256

    b : ℕ
    b = n / 2 ^ 16 % 256

    c : ℕ
    c = n / 2 ^ 8 % 256

    d : ℕ
    d = n % 256

    ha : a < 256
    ha = omega arith

    hb : b < 256
    hb = omega arith

    hc : c < 256
    hc = omega arith

    hd : d < 256
    hd = omega arith

print-octets :
    (a b c d : ℕ)
    → a < 256
    → b < 256
    → c < 256
    → d < 256
    → print_ipv4 (((a * 256 + b) * 256 + c) * 256 + d)
      ≡ join dot (print_octet a ∷ print_octet b ∷ print_octet c ∷ print_octet d ∷ [])
unfolding print_ipv4
print-octets a b c d ha hb hc hd =
    let n : ℕ = ((a * 256 + b) * 256 + c) * 256 + d in
    let ea : n / 2 ^ 24 % 256 ≡ a = omega arith in
    let eb : n / 2 ^ 16 % 256 ≡ b = omega arith in
    let ec : n / 2 ^ 8 % 256 ≡ c = omega arith in
    let ed : n % 256 ≡ d = omega arith in rw (ea, eb, ec, ed)

-- The parts of a text that is read are those that are printed for its number.
print-parts :
    (p q r s : Text) (n : ℕ)
    → parse_parts (p ∷ q ∷ r ∷ s ∷ []) ≡ some n
    → (print_ipv4 n ≡ join dot (p ∷ q ∷ r ∷ s ∷ [])) × (n < 2 ^ 32)
unfolding parse_parts
print-parts p q r s n h = after_some (parse_octet p) h λ a ea ha.
    after_some (parse_octet q) ha λ b eb hb.
      after_some (parse_octet r) hb
        λ c ec hc. after_some (parse_octet s) hc λ d ed hd. quad a b c d ea eb ec ed (cc)
  where
    quad :
        (a b c d : ℕ)
        → parse_octet p ≡ some a
        → parse_octet q ≡ some b
        → parse_octet r ≡ some c
        → parse_octet s ≡ some d
        → ((a * 256 + b) * 256 + c) * 256 + d ≡ n
        → (print_ipv4 n ≡ join dot (p ∷ q ∷ r ∷ s ∷ [])) × (n < 2 ^ 32)
    quad a b c d ea eb ec ed e =
        let ha = parse_octet-lt p a ea in
        let hb = parse_octet-lt q b eb in
        let hc = parse_octet-lt r c ec in
        let hd = parse_octet-lt s d ed in
        (
          rw
              (
                print-parse_octet p a ea,
                print-parse_octet q b eb,
                print-parse_octet r c ec,
                print-parse_octet s d ed,
                e,
              )
              at (print-octets a b c d ha hb hc hd),
          omega arith,
        )

print-split :
    (ps : List Text) (n : ℕ) → parse_parts ps ≡ some n → (print_ipv4 n ≡ join dot ps) × (n < 2 ^ 32)
unfolding parse_parts
print-split [] n h = cc
print-split (p ∷ []) n h = cc
print-split (p ∷ q ∷ []) n h = cc
print-split (p ∷ q ∷ r ∷ []) n h = cc
print-split (p ∷ q ∷ r ∷ s ∷ []) n h = print-parts p q r s n h
print-split (p ∷ q ∷ r ∷ s ∷ t ∷ ps) n h = cc

-- A text that is an address is the text that is printed for it: no two texts name one address.
pub print-parse_ipv4 : (s : Text) (n : ℕ) → parse_ipv4 s ≡ some n → print_ipv4 n ≡ s
print-parse_ipv4 s n h = (print-split (split dot s) n (unfold parse_ipv4 in h)).0 ∙ join-split dot s

-- The number of an address is below 2 ^ 32.
pub parse_ipv4-lt : (s : Text) (n : ℕ) → parse_ipv4 s ≡ some n → n < 2 ^ 32
parse_ipv4-lt s n h = (print-split (split dot s) n (unfold parse_ipv4 in h)).1
