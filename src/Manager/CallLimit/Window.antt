-- ===== src/Manager/CallLimit/Window.antt =====
-- How often a function is called for one client in a period.
use squawk.Prelude.{
  subst, All, sym, ◌<◌, length-append, leb, length, true, ℕ, ◌≤◌, ◌≡◌, false, ◌&&◌, List, [], ◌∷◌,
  ◌++◌, Text, text_eq, text_eq_iff, arith, refl, ap, ◌∙◌, Bool-cases, inl, inr, if◌then◌else◌,
}
use mathlib.Core.List.{append_assoc, append-nil}
use squawk.Manager.CallLimit.Histories.{
  recent-append, recent-recent, length-recent, length-recent_one, history_of-set_history,
  history_of-set_history_ne,
}
use squawk.Manager.CallLimit.{recent, history_of, limited_call}

module _ (calls period : ℕ) (ip : Text) where
  -- The times at which the function is called for the client, in a sequence of calls of any clients.
  unfoldable pub called : List (ℕ × Text) → List (Text × List ℕ) → List ℕ
  called [] hs = []
  called ((now, other) ∷ es) hs =
      let (ok, hs') = limited_call calls period now other hs in
      let rest = called es hs' in if ok && text_eq other ip then now ∷ rest else rest

  -- Times that do not run backwards.
  abbrev pub Ordered : ℕ → List (ℕ × Text) → Type 0
  Ordered now [] = Unit
  Ordered now ((t, other) ∷ es) = (now ≤ t) × Ordered t es

  -- The history that is kept for the client stands for all of its calls so far.
  abbrev Tracks : ℕ → List (Text × List ℕ) → List ℕ → Type 0
  Tracks now hs past =
      (later : ℕ)
      → now ≤ later
      → (recent period later (history_of ip hs) ≡ recent period later past)
        × (length (recent period later past) ≤ calls)

  abbrev after_call : ℕ → Text → List (Text × List ℕ) → List (Text × List ℕ)
  after_call now other hs = (limited_call calls period now other hs).1

  other-Tracks :
      (now now' : ℕ) (other : Text) (hs : List (Text × List ℕ)) (past : List ℕ)
      → text_eq other ip ≡ false
      → now ≤ now'
      → Tracks now hs past
      → Tracks now' (after_call now' other hs) past
  unfolding limited_call
  other-Tracks now now' other hs past ne le tracks later h =
      let (same, bound) = tracks later (omega (arith, le, h)) in
      let kept = recent period now' (history_of other hs) in
      let first = history_of-set_history_ne ip other kept hs ne in
      let second = history_of-set_history_ne ip other (kept ++ (now' ∷ [])) hs ne in
      elim (Bool-cases (leb calls (length kept))) [
        | inl e ↦
            let set : history_of ip (after_call now' other hs) ≡ history_of ip hs =
              ground (arith, e, first) in
            (ap (recent period later) set ∙ same, bound)
        | inr e ↦
            let set : history_of ip (after_call now' other hs) ≡ history_of ip hs =
              ground (arith, e, second) in
            (ap (recent period later) set ∙ same, bound)
      ]

  refused-Tracks :
      (now now' : ℕ) (hs : List (Text × List ℕ)) (past : List ℕ)
      → now ≤ now'
      → (limited_call calls period now' ip hs).0 ≡ false
      → Tracks now hs past
      → Tracks now' (after_call now' ip hs) past
  unfolding limited_call
  refused-Tracks now now' hs past le refused tracks later h =
      let (same, bound) = tracks later (omega (arith, le, h)) in
      let kept = recent period now' (history_of ip hs) in
      let full : leb calls (length kept) ≡ true = ground (arith, refused) in
      let set : history_of ip (after_call now' ip hs) ≡ kept =
        ground (arith, full, history_of-set_history ip kept hs) in
      (
        ap (recent period later) set
            ∙ (recent-recent period now' later (history_of ip hs) h ∙ same),
        bound,
      )

  called-Tracks :
      (now now' : ℕ) (hs : List (Text × List ℕ)) (past : List ℕ)
      → now ≤ now'
      → (limited_call calls period now' ip hs).0 ≡ true
      → Tracks now hs past
      → Tracks now' (after_call now' ip hs) (past ++ (now' ∷ []))
  unfolding limited_call
  called-Tracks now now' hs past le admitted tracks later h =
      let (same, _) = tracks later (omega (arith, le, h)) in
      let (same', _) = tracks now' le in
      let kept = recent period now' (history_of ip hs) in
      let free : leb calls (length kept) ≡ false = ground (arith, admitted) in
      let set : history_of ip (after_call now' ip hs) ≡ kept ++ (now' ∷ []) =
        ground (arith, free, history_of-set_history ip (kept ++ (now' ∷ [])) hs) in
      let split_now = recent-append period later kept (now' ∷ []) in
      let split_past = recent-append period later past (now' ∷ []) in
      let old = recent-recent period now' later (history_of ip hs) h ∙ same in
      let size = length-append (recent period later past) (recent period later (now' ∷ [])) in
      let few : length kept < calls = ground (arith, free) in
      (
        ap (recent period later) set
            ∙ (split_now ∙ (ap (λ x. x ++ recent period later (now' ∷ [])) old ∙ sym split_past)),
        omega (
          arith,
          ap length split_past,
          size,
          length-recent_one period later now',
          length-recent period now' later past h,
          ap length same',
          few,
        ),
      )

  abbrev pub NotAfter : ℕ → ℕ × Text → Type 0
  NotAfter later (t, other) = t ≤ later

  called-bound :
      (es : List (ℕ × Text)) (hs : List (Text × List ℕ)) (past : List ℕ) (now later : ℕ)
      → Ordered now es
      → Tracks now hs past
      → now ≤ later
      → All (NotAfter later) es
      → length (recent period later (past ++ called es hs)) ≤ calls
  unfolding called
  called-bound [] hs past now later ordered tracks le before =
      let (_, bound) = tracks later le in
      subst (λ x. length (recent period later x) ≤ calls) (sym (append-nil past)) bound
  called-bound ((t, other) ∷ es) hs past now later (le, ordered) tracks _ (early, before) =
      let hs' = after_call t other hs in
      elim (Bool-cases (text_eq other ip)) [
        | inr ne ↦
            let rest =
              called-bound es hs' past t later ordered
                (other-Tracks now t other hs past ne le tracks) early before in
            ground (arith, rest, ne)
        | inl own ↦ elim (Bool-cases ((limited_call calls period t other hs).0)) [
          | inr refused ↦
              let same : other ≡ ip = ground (arith, own, text_eq_iff other ip) in
              let refused' =
                subst (λ x. (limited_call calls period t x hs).0 ≡ false) same refused in
              let tracked =
                subst (λ x. Tracks t (after_call t x hs) past) (sym same)
                  (refused-Tracks now t hs past le refused' tracks) in
              let rest = called-bound es hs' past t later ordered tracked early before in
              ground (arith, rest, refused)
          | inl admitted ↦
              let same : other ≡ ip = ground (arith, own, text_eq_iff other ip) in
              let admitted' =
                subst (λ x. (limited_call calls period t x hs).0 ≡ true) same admitted in
              let tracked =
                subst (λ x. Tracks t (after_call t x hs) (past ++ (t ∷ []))) (sym same)
                  (called-Tracks now t hs past le admitted' tracks) in
              let rest =
                called-bound es hs' (past ++ (t ∷ [])) t later ordered tracked early before in
              let shown : called ((t, other) ∷ es) hs ≡ t ∷ called es hs' =
                ground (arith, own, admitted) in
              let whole =
                ap (λ x. past ++ x) shown ∙ sym (append_assoc past (t ∷ []) (called es hs')) in
              subst (λ x. length (recent period later x) ≤ calls) (sym whole) rest
        ]
      ]

  -- For every client, and whatever other clients call in between: from no history on, the calls of
  -- the function in the period that ends at any time after them are at most the limit.
  pub called-limit :
      (es : List (ℕ × Text)) (later : ℕ)
      → Ordered 0 es
      → All (NotAfter later) es
      → length (recent period later (called es [])) ≤ calls
  unfolding history_of recent
  called-limit es later ordered before =
      called-bound es [] [] 0 later ordered (λ t h. (refl, omega arith)) (omega arith) before
