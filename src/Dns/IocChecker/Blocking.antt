-- ===== src/Dns/IocChecker/Blocking.antt =====
-- Which names the feeds block.
use squawk.Prelude.{
  ℕ, Bool, true, false, ◌||◌, ◌==◌, List, [], ◌∷◌, ◌++◌, ◌≡◌, ◌⊎◌, ◌↔◌, inl, inr, In, Text, text_eq,
  text_eq_iff, text_eq_refl, any-some, any-of, Bool-cases, arith, ap, sym, subst, ◌∙◌, refl, split,
  join, split-cons, join-split, ends_with, ends_with-append, ends_with-rest,
}
use squawk.Dns.DomainPolicy.Matching.{IsBelow}
use squawk.Dns.IocChecker.{
  Networks, Checker, normalize, is_member, pattern_of, drop_first, check_parents, check_wildcard,
  is_blocked,
}

is_member_iff : (x : Text) (xs : List Text) → (is_member x xs ≡ true) ↔ In x xs
unfolding is_member
is_member_iff x xs = (
  λ h.
      let (y, m, e) = any-some (text_eq x) xs h in
      subst (λ t. In t xs) (sym ((text_eq_iff x y).0 e)) m,
  λ m. any-of (text_eq x) xs x m (text_eq_refl x),
)

module _ (n : Networks) (c : Checker n) where
  below : Text → Bool
  below s = check_parents n c (drop_first n (split b'.' s))

  below-dot : (s : Text) → below (b'.' ∷ s) ≡ (is_member s c.blocked_domains || below s)
  unfolding below check_parents split
  below-dot s =
      let (q, qs, e) = split-cons b'.' s in
      let whole : join b'.' (q ∷ qs) ≡ s = ap (join b'.') (sym e) ∙ join-split b'.' s in
      ground (arith, e, whole)

  below-other : (d : ℕ) (s : Text) → (d == b'.') ≡ false → below (d ∷ s) ≡ below s
  unfolding below split
  below-other d s h = let (q, qs, e) = split-cons b'.' s in ground (arith, e)

  -- The names above which a blocked domain stands.
  abbrev HasParent : Text → Type 0
  HasParent s = (b : Text) × In b c.blocked_domains × IsBelow s b

  below-HasParent : (s : Text) → below s ≡ true → HasParent s
  below-HasParent [] h = absurd (unfold below check_parents split in (cc (h)))
  below-HasParent (d ∷ s) h = elim (Bool-cases (d == b'.')) [
    | inr e ↦
        let (b, m, (l, el)) = below-HasParent s (sym (below-other d s e) ∙ h) in
        (b, m, (d ∷ l, ap (λ t. d ∷ t) el))
    | inl e ↦ elim (Bool-cases (is_member s c.blocked_domains)) [
      | inl found ↦ (s, (is_member_iff s c.blocked_domains).0 found, ([], ground (arith, e)))
      | inr missing ↦
          let same : d ≡ b'.' = ground arith in
          let above : below (b'.' ∷ s) ≡ true = subst (λ x. below (x ∷ s) ≡ true) same h in
          let (b, m, (l, el)) = below-HasParent s (ground (arith, below-dot s, above)) in
          (b, m, (d ∷ l, ap (λ t. d ∷ t) el))
    ]
  ]

  below-of : (l b : Text) → In b c.blocked_domains → below (l ++ b'.' ∷ b) ≡ true
  below-of [] b m = ground (arith, below-dot b, (is_member_iff b c.blocked_domains).1 m)
  below-of (d ∷ l) b m = elim (Bool-cases (d == b'.')) [
    | inr e ↦ below-other d (l ++ b'.' ∷ b) e ∙ below-of l b m
    | inl e ↦
        let same : d ≡ b'.' = ground arith in
        subst (λ x. below (x ∷ (l ++ b'.' ∷ b)) ≡ true) (sym same)
          (ground (arith, below-dot (l ++ b'.' ∷ b), below-of l b m))
  ]

  -- The domain itself, or a name below it.
  abbrev pub IsWithin : Text → Text → Type 0
  IsWithin s b = (s ≡ b) ⊎ IsBelow s b

  wildcard-IsWithin :
      (s : Text)
      → (check_wildcard n c s ≡ true)
        ↔ ((w : Text) × In w c.wildcard_domains × IsWithin s (pattern_of n w))
  unfolding check_wildcard
  wildcard-IsWithin s = (
    λ h.
        let (w, m, e) =
          any-some (λ w. ends_with s (b'.' ∷ pattern_of n w) || text_eq s (pattern_of n w))
            c.wildcard_domains h in
        (
          w,
          m,
          elim (Bool-cases (text_eq s (pattern_of n w))) [
            | inl same ↦ inl ((text_eq_iff s (pattern_of n w)).0 same)
            | inr other ↦ inr (ends_with-rest s (b'.' ∷ pattern_of n w) (ground arith))
          ],
        ),
    λ (w, m, i).
        any-of (λ w. ends_with s (b'.' ∷ pattern_of n w) || text_eq s (pattern_of n w))
          c.wildcard_domains w m
          (elim i [
            | inl same ↦ ground (arith, (text_eq_iff s (pattern_of n w)).1 same)
            | inr (l, el) ↦
                let ends : ends_with s (b'.' ∷ pattern_of n w) ≡ true =
                  subst (λ t. ends_with t (b'.' ∷ pattern_of n w) ≡ true) (sym el)
                    (ends_with-append l (b'.' ∷ pattern_of n w)) in
                ground (arith, ends)
          ]),
  )

  -- A name is blocked exactly if, normalized, it is a blocked domain or the base of a wildcard, or
  -- lies below one at any depth.
  pub is_blocked_iff :
      (name : Text)
      → (is_blocked n c name ≡ true) ↔ (
          ((b : Text) × In b c.blocked_domains × IsWithin (normalize name) b)
          ⊎ ((w : Text) × In w c.wildcard_domains × IsWithin (normalize name) (pattern_of n w)))
  unfolding is_blocked below
  is_blocked_iff name = (
    λ h. elim (Bool-cases (is_member s c.blocked_domains)) [
      | inl found ↦ inl (s, (is_member_iff s c.blocked_domains).0 found, inl refl)
      | inr missing ↦ elim (Bool-cases (check_wildcard n c s)) [
        | inl found ↦ inr ((wildcard-IsWithin s).0 found)
        | inr unmatched ↦
            let (b, m, (l, el)) = below-HasParent s (ground arith) in inl (b, m, inr (l, el))
      ]
    ],
    λ i. elim i [
      | inl (b, m, inl same) ↦
          let found : is_member s c.blocked_domains ≡ true =
            subst (λ t. is_member t c.blocked_domains ≡ true) (sym same)
              ((is_member_iff b c.blocked_domains).1 m) in
          ground (arith, found)
      | inl (b, m, inr (l, el)) ↦
          let found : below s ≡ true = subst (λ t. below t ≡ true) (sym el) (below-of l b m) in
          ground (arith, found)
      | inr found ↦ ground (arith, (wildcard-IsWithin s).1 found)
    ],
  )
    where
      s : Text
      s = normalize name
