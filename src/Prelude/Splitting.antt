-- ===== src/Prelude/Splitting.antt =====
-- `split` and `join` undo one another.
use Prim.Native.Nat.{ℕ}
use mathlib.Core.Path.{◌≡◌, refl}
use mathlib.Core.Bool.{Bool, true, false, not}
use mathlib.Core.List.{List, [], ◌∷◌, ◌++◌}
use native.Mathlib.Omega.{arith}
use squawk.Prelude.Tests.{◌==◌}
use squawk.Prelude.Lists.{all}
use squawk.Prelude.Texts.{Text, split, join, cons_first}

-- The text holds no `sep`.
abbrev pub lacks : ℕ → Text → Bool
lacks sep s = all (λ c. not (c == sep)) s

pub split-lacks : (sep : ℕ) (s : Text) → lacks sep s ≡ true → split sep s ≡ s ∷ []
unfolding split
split-lacks sep [] h = refl
split-lacks sep (c ∷ s) h = ground (arith, split-lacks sep s)

pub split-part :
    (sep : ℕ) (s rest : Text)
    → lacks sep s ≡ true
    → split sep (s ++ sep ∷ rest) ≡ s ∷ split sep rest
unfolding split
split-part sep [] rest h = ground arith
split-part sep (c ∷ s) rest h = ground (arith, split-part sep s rest)

join-cons_first : (sep c : ℕ) (ps : List Text) → join sep (cons_first c ps) ≡ c ∷ join sep ps
unfolding join
join-cons_first sep c [] = refl
join-cons_first sep c (p ∷ []) = refl
join-cons_first sep c (p ∷ q ∷ ps) = refl

abbrev non_empty {ℓ} : {A : Type ℓ} → List A → Bool
non_empty [] = false
non_empty (x ∷ xs) = true

split-non_empty : (sep : ℕ) (s : Text) → non_empty (split sep s) ≡ true
unfolding split
split-non_empty sep [] = refl
split-non_empty sep (c ∷ s) = ground arith

pub split-cons : (sep : ℕ) (s : Text) → (q : Text) × (qs : List Text) × (split sep s ≡ q ∷ qs)
split-cons sep s = first (split sep s) refl (split-non_empty sep s)
  where
    first :
        (ps : List Text)
        → split sep s ≡ ps
        → non_empty ps ≡ true
        → (q : Text) × (qs : List Text) × (split sep s ≡ q ∷ qs)
    first [] e h = cc
    first (q ∷ qs) e h = (q, qs, e)

join-nil : (sep : ℕ) (ps : List Text) → non_empty ps ≡ true → join sep ([] ∷ ps) ≡ sep ∷ join sep ps
unfolding join
join-nil sep [] h = cc
join-nil sep (p ∷ ps) h = refl

pub join-split : (sep : ℕ) (s : Text) → join sep (split sep s) ≡ s
unfolding split
join-split sep [] = unfold join in refl
join-split sep (c ∷ s) = ground (
  arith,
  join-split sep s,
  join-cons_first sep c (split sep s),
  join-nil sep (split sep s) (split-non_empty sep s),
)
