-- ===== src/Prelude/Tries.antt =====
-- Steps that may raise.
use mathlib.Core.Path.{◌≡◌, refl}
use mathlib.Core.Logic.{◌⊎◌, inl, inr}

-- What a call gives: a value, or an exception that leaves it.
pub data Try {ℓ} (A : Type ℓ) : Type ℓ where
  done : A → Try A
  raised : Try A

infixl 5 ◌>>=◌
abbrev pub ◌>>=◌ {ℓ κ} : {A : Type ℓ} {B : Type κ} → Try A → (A → Try B) → Try B
done a >>= f = f a
raised >>= f = raised

-- For a proof: what follows takes the value and both equations.
pub after_done {ℓ κ ι} :
    {A : Type ℓ} {B : Type κ} {P : Type ι} (m : Try A) {f : A → Try B} {b : B}
    → (m >>= f) ≡ done b
    → ((a : A) → m ≡ done a → f a ≡ done b → P)
    → P
after_done raised h k = cc
after_done (done a) h k = k a refl h

pub Try-cases {ℓ} : {A : Type ℓ} (m : Try A) → (m ≡ raised) ⊎ ((a : A) × (m ≡ done a))
Try-cases raised = inl refl
Try-cases (done a) = inr (a, refl)
