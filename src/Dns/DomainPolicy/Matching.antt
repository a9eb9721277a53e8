-- ===== src/Dns/DomainPolicy/Matching.antt =====
-- Which names a policy allows.
use squawk.Prelude.{
  ◌∙◌, ℕ, true, some, List, [], ◌∷◌, ◌++◌, Text, codes, text_eq, text_eq_iff, starts_with,
  ends_with, Bool-cases, ◌≡◌, ◌⊎◌, inl, inr, In, arith, ap, sym, subst, length, length-append,
  ends_with-append, ends_with-rest, starts_with-append, starts_with-rest, any-some, any-of, ◌↔◌,
  ◌≢◌,
}
use squawk.Dns.DomainPolicy.{normalize_domain, matches_entry, matches_policy}

-- The name is in the domain, below it.
abbrev pub IsBelow : Text → Text → Type 0
IsBelow name suffix = (l : Text) × (name ≡ l ++ b'.' ∷ suffix)

-- An entry allows its own name, and `*.s` the names below `s`.
abbrev pub Allows : Text → Text → Type 0
Allows entry name = (name ≡ entry) ⊎ ((s : Text) × (entry ≡ b'*' ∷ b'.' ∷ s) × IsBelow name s)

below-ne : (l s : Text) (c : ℕ) → l ++ c ∷ s ≢ s
below-ne l s c e = absurd (omega (arith, length-append l (c ∷ s), ap length e))

matches_entry-Allows : (name entry : Text) → matches_entry name entry ≡ true → Allows entry name
unfolding matches_entry
matches_entry-Allows name entry h = elim (Bool-cases (text_eq name entry)) [
  | inl e ↦ inl ((text_eq_iff name entry).0 e)
  | inr e ↦ elim (Bool-cases (starts_with entry (codes "*."))) [
    | inr n ↦ ground arith
    | inl y ↦
        let (s, es) = starts_with-rest entry (codes "*.") y in
        let (l, el) = ends_with-rest name (b'.' ∷ s) (ground (arith, es)) in inr (s, es, (l, el))
  ]
]

Allows-matches_entry : (name entry : Text) → Allows entry name → matches_entry name entry ≡ true
unfolding matches_entry
Allows-matches_entry name entry (inl e) = ground (arith, text_eq_iff name entry)
Allows-matches_entry name entry (inr (s, es, (l, el))) =
    let ends : ends_with name (b'.' ∷ s) ≡ true =
      subst (λ n. ends_with n (b'.' ∷ s) ≡ true) (sym el) (ends_with-append l (b'.' ∷ s)) in
    let starts : starts_with entry (codes "*.") ≡ true =
      subst (λ n. starts_with n (codes "*.") ≡ true) (sym es) (starts_with-append s (codes "*.")) in
    let apart : name ≢ s = λ e. below-ne l s b'.' (sym el ∙ e) in
    ground (arith, es, ends, starts, apart, text_eq_iff name s)

-- A list of domains allows exactly the names that one of its entries allows, both normalized: its
-- own name, or for `*.s` the names below `s`, at any depth, and not `s`.
pub matches_policy_iff :
    (name : Text) (domains : List Text)
    → (matches_policy name (some domains) ≡ true)
      ↔ ((d : Text) × In d domains × Allows (normalize_domain d) (normalize_domain name))
unfolding matches_policy
matches_policy_iff name [] = (λ h. cc, λ (d, m, a). elim m [ ])
matches_policy_iff name (x ∷ xs) = (
  λ h.
      let (d, m, e) =
        any-some (λ d. matches_entry (normalize_domain name) (normalize_domain d)) (x ∷ xs) h in
      (d, m, matches_entry-Allows (normalize_domain name) (normalize_domain d) e),
  λ (d, m, a).
      any-of (λ d. matches_entry (normalize_domain name) (normalize_domain d)) (x ∷ xs) d m
        (Allows-matches_entry (normalize_domain name) (normalize_domain d) a),
)
