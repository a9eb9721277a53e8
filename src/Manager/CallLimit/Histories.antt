-- ===== src/Manager/CallLimit/Histories.antt =====
-- Histories that are cut to a period, and the dict of them.
use squawk.Prelude.{
  length, ℕ, ◌≤◌, ◌≡◌, false, List, [], ◌∷◌, ◌++◌, Text, text_eq, text_eq_iff, text_eq_refl, arith,
  refl, ap, ◌∙◌, Bool-cases, inl, inr,
}
use squawk.Manager.CallLimit.{recent, history_of, set_history}

pub recent-append :
    (period now : ℕ) (ts us : List ℕ)
    → recent period now (ts ++ us) ≡ recent period now ts ++ recent period now us
unfolding recent
recent-append period now [] us = refl
recent-append period now (t ∷ ts) us = ground (arith, recent-append period now ts us)

pub recent-recent :
    (period now later : ℕ) (ts : List ℕ)
    → now ≤ later
    → recent period later (recent period now ts) ≡ recent period later ts
unfolding recent
recent-recent period now later [] h = refl
recent-recent period now later (t ∷ ts) h = ground (arith, h, recent-recent period now later ts h)

pub length-recent :
    (period now later : ℕ) (ts : List ℕ)
    → now ≤ later
    → length (recent period later ts) ≤ length (recent period now ts)
unfolding recent
length-recent period now later [] h = omega arith
length-recent period now later (t ∷ ts) h = ground (arith, h, length-recent period now later ts h)

pub length-recent_one : (period now t : ℕ) → length (recent period now (t ∷ [])) ≤ 1
unfolding recent
length-recent_one period now t = ground arith

pub history_of-set_history :
    (ip : Text) (ts : List ℕ) (hs : List (Text × List ℕ))
    → history_of ip (set_history ip ts hs) ≡ ts
unfolding history_of set_history
history_of-set_history ip ts [] = ground (arith, text_eq_refl ip)
history_of-set_history ip ts ((key, old) ∷ hs) = ground (arith, history_of-set_history ip ts hs)

pub history_of-set_history_ne :
    (ip other : Text) (ts : List ℕ) (hs : List (Text × List ℕ))
    → text_eq other ip ≡ false
    → history_of ip (set_history other ts hs) ≡ history_of ip hs
unfolding history_of set_history
history_of-set_history_ne ip other ts [] ne = ground (arith, ne)
history_of-set_history_ne ip other ts ((key, old) ∷ hs) ne =
    let rest = history_of-set_history_ne ip other ts hs ne in
    elim (Bool-cases (text_eq key other)) [
      | inl e ↦
          let same : key ≡ other = ground (arith, e, text_eq_iff key other) in
          let apart : text_eq key ip ≡ false = ap (λ x. text_eq x ip) same ∙ ne in
          ground (arith, e, apart)
      | inr e ↦ ground (arith, e, rest)
    ]
