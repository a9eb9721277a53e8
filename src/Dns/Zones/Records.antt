-- ===== src/Dns/Zones/Records.antt =====
-- The zone that the router finds for a name.
use squawk.Prelude.{
  List-cases, ℕ, ◌<◌, false, ◌==◌, Option, none, some, List, [], ◌∷◌, ◌≡◌, ◌⊎◌, inl, inr, Text,
  length, length-append, Bool-cases, Option-cases, arith, ap, sym, subst, ◌∙◌, refl, split, join,
  split-cons, join-split,
}
use squawk.Dns.DomainPolicy.Matching.{IsBelow}
use squawk.Dns.Zones.{Zones, RoutedZone, lookup_zone, find_parent, find_zone_for_domain}

abbrev rest_of : List Text → List Text
rest_of [] = []
rest_of (p ∷ parts) = parts

module _ (zones : Zones) where
  above : Text → Option RoutedZone
  above s = find_parent zones (rest_of (split b'.' s))

  parent-above :
      (s : Text)
      → find_parent zones (split b'.' s)
        ≡ (elim (lookup_zone s zones) [ some z ↦ some z | none ↦ above s ])
  unfolding above find_parent
  parent-above s =
      let (q, qs, e) = split-cons b'.' s in
      let whole : join b'.' (q ∷ qs) ≡ s = ap (join b'.') (sym e) ∙ join-split b'.' s in
      ground (arith, e, whole)

  above-dot :
      (s : Text)
      → above (b'.' ∷ s) ≡ (elim (lookup_zone s zones) [ some z ↦ some z | none ↦ above s ])
  unfolding above split
  above-dot s = parent-above s

  above-other : (d : ℕ) (s : Text) → (d == b'.') ≡ false → above (d ∷ s) ≡ above s
  unfolding above split
  above-other d s h = let (q, qs, e) = split-cons b'.' s in ground (arith, e)

  -- No zone of a longer name satisfies `P`.
  abbrev pub NoneLonger : Text → (Text → Type 0) → Type 0
  NoneLonger n P = (m : Text) → P m → length n < length m → lookup_zone m zones ≡ none

  above-some :
      (s : Text) (z : RoutedZone)
      → above s ≡ some z
      → (n : Text) × (lookup_zone n zones ≡ some z) × IsBelow s n × NoneLonger n (IsBelow s)
  above-some [] z h = absurd (unfold above split find_parent in (cc (h)))
  above-some (d ∷ s) z h = elim (Bool-cases (d == b'.')) [
    | inr e ↦
        let (n, en, (l, el), longest) = above-some s z (sym (above-other d s e) ∙ h) in
        (
          n,
          en,
          (d ∷ l, ap (λ t. d ∷ t) el),
          λ m (k, ek) long. elim (List-cases k) [
            | inl empty ↦ ground (arith, ek, empty)
            | inr (x, k', split_k) ↦ longest m (k', ground (arith, ek, split_k)) long
          ],
        )
    | inl e ↦
        let dotted : above (b'.' ∷ s) ≡ some z =
          subst (λ x. above (x ∷ s) ≡ some z) (ground arith) h in
        elim (Option-cases (lookup_zone s zones)) [
          | inr (z', ez) ↦ (
            s,
            ground (arith, above-dot s, dotted),
            ([], ground arith),
            λ m (k, ek) long.
                absurd (omega (arith, long, ap length ek, length-append k (b'.' ∷ m))),
          )
          | inl ez ↦
              let (n, en, (l, el), longest) =
                above-some s z (ground (arith, above-dot s, dotted)) in
              (
                n,
                en,
                (d ∷ l, ap (λ t. d ∷ t) el),
                λ m (k, ek) long. elim (List-cases k) [
                  | inl empty ↦ ground (arith, ek, empty)
                  | inr (x, k', split_k) ↦ longest m (k', ground (arith, ek, split_k)) long
                ],
              )
        ]
  ]

  -- The name itself, or a domain above it.
  abbrev pub Covers : Text → Text → Type 0
  Covers name zone = (name ≡ zone) ⊎ IsBelow name zone

  -- A zone that is found for a name is loaded under the name or a domain above it, and no zone is
  -- loaded under a longer one of these.
  pub find_zone_for_domain-some :
      (domain : Text) (z : RoutedZone)
      → find_zone_for_domain zones domain ≡ some z
      → (n : Text) × (lookup_zone n zones ≡ some z) × Covers domain n × NoneLonger n (Covers domain)
  unfolding find_zone_for_domain
  find_zone_for_domain-some domain z h = elim (Option-cases (lookup_zone domain zones)) [
    | inr (z', ez) ↦ (
      domain,
      ground arith,
      inl refl,
      λ m c long. elim c [
        | inl same ↦ absurd (omega (arith, long, ap length same))
        | inr (k, ek) ↦ absurd (omega (arith, long, ap length ek, length-append k (b'.' ∷ m)))
      ],
    )
    | inl ez ↦
        let (n, en, below, longest) = above-some domain z (ground (arith, parent-above domain)) in
        (
          n,
          en,
          inr below,
          λ m c long. elim c [
            | inl same ↦ subst (λ t. lookup_zone t zones ≡ none) same ez
            | inr deeper ↦ longest m deeper long
          ],
        )
  ]
