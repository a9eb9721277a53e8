-- ===== src/Prelude/Finding.antt =====
-- The first element that passes a test, in a list that is mapped or grows at its end.
use mathlib.Core.Path.{◌≡◌, refl, ap}
use mathlib.Core.Logic.{inl, inr}
use mathlib.Core.Bool.{Bool, true, false}
use mathlib.Core.Option.{none, some}
use mathlib.Core.List.{List, [], ◌∷◌, ◌++◌, map}
use native.Mathlib.Omega.{arith}
use squawk.Prelude.Lists.{find?}
use squawk.Prelude.Members.{In}
use squawk.Prelude.Tests.{Bool-cases}

module _ {A : Type 0} where
  pub find?-map :
      (q : A → Bool) (g : A → A) (rows : List A)
      → ((r : A) → q (g r) ≡ q r)
      → find? q (map g rows) ≡ (elim (find? q rows) [ none ↦ none | some r ↦ some (g r) ])
  find?-map q g [] h = refl
  find?-map q g (r ∷ rows) h = ground (arith, h r, find?-map q g rows h)

  pub find?-append :
      (q : A → Bool) (rows : List A) (new : A)
      → q new ≡ false
      → find? q (rows ++ (new ∷ [])) ≡ find? q rows
  find?-append q [] new h = ground (arith, h)
  find?-append q (r ∷ rows) new h = ground (arith, find?-append q rows new h)

  pub find?-append_new :
      (q : A → Bool) (rows : List A) (new : A)
      → ((r : A) → In r rows → q r ≡ false)
      → q new ≡ true
      → find? q (rows ++ (new ∷ [])) ≡ some new
  find?-append_new q [] new fresh h = ground (arith, h)
  find?-append_new q (r ∷ rows) new fresh h =
      let rest = find?-append_new q rows new (λ x m. fresh x (inr m)) h in
      let first = fresh r (inl refl) in ground (arith, rest, first)

  pub find?-matches : (q : A → Bool) (rows : List A) (r : A) → find? q rows ≡ some r → q r ≡ true
  find?-matches q [] r h = cc
  find?-matches q (x ∷ rows) r h = ground (arith, find?-matches q rows r)

  pub find?-exists :
      (q : A → Bool) (rows : List A) (r : A)
      → In r rows
      → q r ≡ true
      → (x : A) × (find? q rows ≡ some x)
  find?-exists q [] r m h = absurd m
  find?-exists q (x ∷ rows) r (inl e) h = (x, ground (arith, ap q e))
  find?-exists q (x ∷ rows) r (inr m) h = elim (Bool-cases (q x)) [
    | inl e ↦ (x, ground arith)
    | inr e ↦ let (y, ey) = find?-exists q rows r m h in (y, ground (arith, ey))
  ]
