-- ===== src/Prelude/Members.antt =====
-- Membership in a list and what holds of every element, by recursion: the tables of a database are
-- described by these.
use Prim.Native.Nat.{ℕ, zero, suc, ◌+◌, ◌≤◌}
use mathlib.Core.Path.{◌≡◌, refl, ap}
use mathlib.Core.Logic.{◌⊎◌, inl, inr}
use mathlib.Core.Bool.{Bool, true, false}
use mathlib.Core.Option.{none, some}
use mathlib.Core.List.{List, [], ◌∷◌, ◌++◌, map}
use native.Mathlib.Omega.{arith}
use squawk.Prelude.Lists.{count, drop, find?}

-- Every element satisfies `P`.
abbrev pub All : {A : Type 0} → (A → Type 0) → List A → Type 0
All P [] = Unit
All P (x ∷ xs) = P x × All P xs

module _ {A : Type 0} (P : A → Type 0) where
  pub All-append : (xs ys : List A) → All P xs → All P ys → All P (xs ++ ys)
  All-append [] ys h h' = h'
  All-append (x ∷ xs) ys h h' = (h.0, All-append xs ys h.1 h')

  pub All-drop : (n : ℕ) (xs : List A) → All P xs → All P (drop n xs)
  All-drop zero xs h = h
  All-drop (suc n) [] h = h
  All-drop (suc n) (x ∷ xs) h = All-drop n xs h.1

module _ {A : Type 0} where
  abbrev pub In : A → List A → Type 0
  In a [] = ⊥
  In a (x ∷ xs) = (a ≡ x) ⊎ In a xs

  pub In-append_left : (a : A) (xs ys : List A) → In a xs → In a (xs ++ ys)
  In-append_left a [] ys h = elim h [ ]
  In-append_left a (x ∷ xs) ys (inl e) = inl e
  In-append_left a (x ∷ xs) ys (inr h) = inr (In-append_left a xs ys h)

  pub In-append_right : (a : A) (xs ys : List A) → In a ys → In a (xs ++ ys)
  In-append_right a [] ys h = h
  In-append_right a (x ∷ xs) ys h = inr (In-append_right a xs ys h)

  pub In-append : (a : A) (xs ys : List A) → In a (xs ++ ys) → In a xs ⊎ In a ys
  In-append a [] ys h = inr h
  In-append a (x ∷ xs) ys (inl e) = inl (inl e)
  In-append a (x ∷ xs) ys (inr h) = elim (In-append a xs ys h) [
    | inl m ↦ inl (inr m)
    | inr m ↦ inr m
  ]

  pub find?-some :
      (q : A → Bool) (xs : List A) (r : A) → find? q xs ≡ some r → In r xs × (q r ≡ true)
  find?-some q [] r h = cc
  find?-some q (x ∷ xs) r h = ground (arith, find?-some q xs r)

  pub find?-none :
      (q : A → Bool) (xs : List A) → find? q xs ≡ none → (r : A) → In r xs → q r ≡ false
  find?-none q [] h r m = elim m [ ]
  find?-none q (x ∷ xs) h r (inl e) = ground arith
  find?-none q (x ∷ xs) h r (inr m) = ground (arith, find?-none q xs (ground arith) r m)

  pub count-zero : (q : A → Bool) (xs : List A) → ((r : A) → In r xs → q r ≡ false) → count q xs ≡ 0
  count-zero q [] h = refl
  count-zero q (x ∷ xs) h = ground (arith, h x (inl refl), count-zero q xs (λ r m. h r (inr m)))

  pub count-pos : (q : A → Bool) (xs : List A) (r : A) → In r xs → q r ≡ true → 1 ≤ count q xs
  count-pos q [] r m h = elim m [ ]
  count-pos q (x ∷ xs) r (inl e) h = ground arith
  count-pos q (x ∷ xs) r (inr m) h = ground (arith, count-pos q xs r m h)

  pub count-append : (q : A → Bool) (xs ys : List A) → count q (xs ++ ys) ≡ count q xs + count q ys
  count-append q [] ys = omega arith
  count-append q (x ∷ xs) ys = ground (arith, count-append q xs ys)

  -- Tests that agree count alike.
  pub count_congr : (p q : A → Bool) (xs : List A) → ((a : A) → p a ≡ q a) → count p xs ≡ count q xs
  count_congr p q [] h = refl
  count_congr p q (x ∷ xs) h = ground (arith, h x, count_congr p q xs h)

module _ {A B : Type 0} where
  pub In-map : (f : A → B) (a : A) (xs : List A) → In a xs → In (f a) (map f xs)
  In-map f a [] h = elim h [ ]
  In-map f a (x ∷ xs) (inl e) = inl (ap f e)
  In-map f a (x ∷ xs) (inr h) = inr (In-map f a xs h)

  pub In-of_map :
      (f : A → B) (b : B) (xs : List A) → In b (map f xs) → (a : A) × In a xs × (b ≡ f a)
  In-of_map f b [] h = elim h [ ]
  In-of_map f b (x ∷ xs) (inl e) = (x, inl refl, e)
  In-of_map f b (x ∷ xs) (inr h) = let found = In-of_map f b xs h in (found.0, inr found.1, found.2)

  pub count-map :
      (q : B → Bool) (f : A → B) (xs : List A) → count q (map f xs) ≡ count (λ a. q (f a)) xs
  count-map q f [] = refl
  count-map q f (x ∷ xs) = ground (arith, count-map q f xs)
