-- ===== src/Prelude/Stripping.antt =====
-- Stripping twice strips no more.
use squawk.Prelude.Texts.{Text, is_space, drop_while, rstrip, strip}
use mathlib.Core.Path.{◌≡◌, refl}
use mathlib.Core.Bool.{Bool, false}
use mathlib.Core.List.{[], ◌∷◌}
use native.Mathlib.Omega.{arith}
use Prim.Native.Nat.{ℕ}

module _ (p : ℕ → Bool) where
  -- The text does not begin with a character of the set.
  abbrev Begins : Text → Type 0
  Begins [] = Unit {0}
  Begins (c ∷ s) = p c ≡ false

  drop_while-Begins : (s : Text) → Begins (drop_while p s)
  unfolding drop_while
  drop_while-Begins [] = tt
  drop_while-Begins (c ∷ s) = ground (arith, drop_while-Begins s)

  drop_while-fixed : (s : Text) → Begins s → drop_while p s ≡ s
  unfolding drop_while
  drop_while-fixed [] h = refl
  drop_while-fixed (c ∷ s) h = ground arith

  rstrip-Begins : (s : Text) → Begins s → Begins (rstrip p s)
  unfolding rstrip
  rstrip-Begins [] h = tt
  rstrip-Begins (c ∷ s) h = ground arith

  kept : (c : ℕ) (t : Text) → rstrip p t ≡ t → rstrip p (rstrip p (c ∷ t)) ≡ rstrip p (c ∷ t)
  unfolding rstrip
  kept c [] h = ground arith
  kept c (d ∷ t) h = ground (arith, h)

  pub rstrip_idem : (s : Text) → rstrip p (rstrip p s) ≡ rstrip p s
  unfolding rstrip
  rstrip_idem [] = refl
  rstrip_idem (c ∷ s) = rw (rstrip_idem s) at (kept c (rstrip p s) (rstrip_idem s))

pub strip_idem : (s : Text) → strip (strip s) ≡ strip s
unfolding strip
strip_idem s =
    let begins = rstrip-Begins is_space (drop_while is_space s) (drop_while-Begins is_space s) in
    rw (drop_while-fixed is_space (rstrip is_space (drop_while is_space s)) begins)
      (rstrip_idem is_space (drop_while is_space s))
