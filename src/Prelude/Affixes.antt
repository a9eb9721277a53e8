-- ===== src/Prelude/Affixes.antt =====
-- When a text begins or ends with another, and when a test holds for some element of a list.
use mathlib.Core.Path.{◌≡◌, refl, sym, ap, ◌∙◌, subst}
use mathlib.Core.Logic.{inl, inr}
use mathlib.Core.Bool.{Bool, true}
use mathlib.Core.List.{List, [], ◌∷◌, ◌++◌, reverse, reverse-append, reverse-reverse}
use native.Mathlib.Omega.{arith}
use squawk.Prelude.Tests.{Bool-cases}
use squawk.Prelude.Lists.{any}
use squawk.Prelude.Members.{In}
use squawk.Prelude.Texts.{Text, starts_with, ends_with}

pub starts_with-append : (s t : Text) → starts_with (t ++ s) t ≡ true
unfolding starts_with
starts_with-append s [] = refl
starts_with-append s (d ∷ t) = ground (arith, starts_with-append s t)

pub starts_with-rest : (s t : Text) → starts_with s t ≡ true → (r : Text) × (s ≡ t ++ r)
unfolding starts_with
starts_with-rest s [] h = (s, refl)
starts_with-rest [] (d ∷ t) h = cc
starts_with-rest (c ∷ s) (d ∷ t) h =
    let (r, e) = starts_with-rest s t (ground arith) in (r, ground (arith, e))

pub ends_with-append : (s t : Text) → ends_with (s ++ t) t ≡ true
unfolding ends_with
ends_with-append s t =
    subst (λ u. starts_with u (reverse t) ≡ true) (sym (reverse-append s t))
      (starts_with-append (reverse s) (reverse t))

pub ends_with-rest : (s t : Text) → ends_with s t ≡ true → (l : Text) × (s ≡ l ++ t)
unfolding ends_with
ends_with-rest s t h =
    let (r, e) = starts_with-rest (reverse s) (reverse t) h in
    (
      reverse r,
      sym (reverse-reverse s)
          ∙ (ap reverse e
              ∙ (reverse-append (reverse t) r ∙ ap (λ u. reverse r ++ u) (reverse-reverse t))),
    )

module _ {A : Type 0} (p : A → Bool) where
  pub any-some : (xs : List A) → any p xs ≡ true → (x : A) × In x xs × (p x ≡ true)
  any-some [] h = cc
  any-some (x ∷ xs) h = elim (Bool-cases (p x)) [
    | inl e ↦ (x, inl refl, e)
    | inr e ↦ let (y, m, ey) = any-some xs (ground arith) in (y, inr m, ey)
  ]

  pub any-of : (xs : List A) (x : A) → In x xs → p x ≡ true → any p xs ≡ true
  any-of [] x m h = elim m [ ]
  any-of (y ∷ xs) x (inl e) h = ground arith
  any-of (y ∷ xs) x (inr m) h = ground (arith, any-of xs x m h)
