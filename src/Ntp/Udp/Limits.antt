-- ===== src/Ntp/Udp/Limits.antt =====
-- How many datagrams of a source pass in one window, with those of other sources in between.
use squawk.Prelude.{
  sym, suc, true, if◌then◌else◌, ◌&&◌, not, All, ◌<◌, ℕ, ◌+◌, ◌-◌, ◌*◌, ◌≤◌, ◌≡◌, ltb, leb, false,
  some, List, [], ◌∷◌, length, Text, text_eq, text_eq_iff, text_eq_refl, arith, ap, ◌∙◌, Bool-cases,
  Option-cases, inl, inr,
}
use squawk.Ntp.Cookies.{ticks}
use squawk.Ntp.Udp.{
  Window, window_of, set_window, prune_rate_limit_state, Limiter, is_rate_limited, opened,
  max_tracked,
}

window_of-set_window :
    (ip : Text) (start count : ℕ) (ws : List Window)
    → window_of ip (set_window ip start count ws) ≡ some (start, count)
unfolding window_of set_window
window_of-set_window ip start count [] = ground (arith, text_eq_refl ip)
window_of-set_window ip start count ((key, s, n) ∷ ws) =
    ground (arith, window_of-set_window ip start count ws)

window_of-set_window_ne :
    (ip other : Text) (start count : ℕ) (ws : List Window)
    → text_eq other ip ≡ false
    → window_of ip (set_window other start count ws) ≡ window_of ip ws
unfolding window_of set_window
window_of-set_window_ne ip other start count [] ne = ground (arith, ne)
window_of-set_window_ne ip other start count ((key, s, n) ∷ ws) ne =
    let rest = window_of-set_window_ne ip other start count ws ne in
    let same = text_eq_iff key other in
    elim (Bool-cases (text_eq key other)) [
      | inl e ↦
          let e' : key ≡ other = ground arith in
          let apart : text_eq key ip ≡ false = ap (λ x. text_eq x ip) e' ∙ ne in
          ground (arith, apart)
      | inr e ↦ ground (arith, rest)
    ]

-- A window that is not stale is kept.
window_of-prune :
    (ip : Text) (now start count : ℕ) (ws : List Window)
    → window_of ip ws ≡ some (start, count)
    → now ≤ start + 10 * ticks
    → window_of ip (prune_rate_limit_state now ws) ≡ some (start, count)
unfolding window_of prune_rate_limit_state
window_of-prune ip now start count [] h fresh = ground arith
window_of-prune ip now start count ((key, s, n) ∷ ws) h fresh = elim (Bool-cases (text_eq key ip)) [
  | inl e ↦
      let same : s ≡ start = ground arith in
      let young : ltb s (now - 10 * ticks) ≡ false = ground (arith, fresh, same) in
      ground (arith, young)
  | inr e ↦
      let rest = window_of-prune ip now start count ws (ground arith) fresh in
      elim (Bool-cases (ltb s (now - 10 * ticks))) [
        | inl es ↦ ground (arith, rest)
        | inr es ↦ ground (arith, rest)
      ]
]

window_of-opened :
    (ip : Text) (now start count : ℕ) (ws : List Window)
    → window_of ip ws ≡ some (start, count)
    → now ≤ start + 10 * ticks
    → window_of ip (opened now ws) ≡ some (start, count)
window_of-opened ip now start count ws h fresh = elim (Bool-cases (ltb max_tracked (length ws))) [
  | inl e ↦ ground (arith, window_of-prune ip now start count ws h fresh)
  | inr e ↦ ground arith
]

-- Another source leaves the window alone.
is_rate_limited-other :
    (now : ℕ) (ip other : Text) (start count : ℕ) (l : Limiter)
    → text_eq other ip ≡ false
    → window_of ip l.rate_limit_state ≡ some (start, count)
    → now ≤ start + 10 * ticks
    → (window_of ip (is_rate_limited now other l).1.rate_limit_state ≡ some (start, count))
      × ((is_rate_limited now other l).1.rate_limit_max ≡ l.rate_limit_max)
unfolding is_rate_limited
is_rate_limited-other now ip other start count l ne h fresh =
    let set = λ (s : ℕ) (n : ℕ). window_of-set_window_ne ip other s n l.rate_limit_state ne in
    let first =
      window_of-opened ip now start count (set_window other now 1 l.rate_limit_state)
        (set now 1 ∙ h) fresh in
    elim (Option-cases (window_of other l.rate_limit_state)) [
      | inl e ↦ (ground (arith, first), ground arith)
      | inr ((s, n), e) ↦ elim (Bool-cases (leb (s + ticks) now)) [
        | inl el ↦ (ground (arith, first), ground arith)
        | inr el ↦ elim (Bool-cases (leb l.rate_limit_max n)) [
          | inl em ↦ (ground arith, ground arith)
          | inr em ↦ (ground (arith, set s (n + 1)), ground arith)
        ]
      ]
    ]

module _ (now : ℕ) (ip : Text) (start count : ℕ) (l : Limiter) where
  is_rate_limited-full :
      window_of ip l.rate_limit_state ≡ some (start, count)
      → now < start + ticks
      → leb l.rate_limit_max count ≡ true
      → ((is_rate_limited now ip l).0 ≡ true) × ((is_rate_limited now ip l).1 ≡ l)
  unfolding is_rate_limited
  is_rate_limited-full h early full =
      (ground (arith, h, early, full), ground (arith, h, early, full))

  is_rate_limited-free :
      window_of ip l.rate_limit_state ≡ some (start, count)
      → now < start + ticks
      → leb l.rate_limit_max count ≡ false
      → (window_of ip (is_rate_limited now ip l).1.rate_limit_state ≡ some (start, count + 1))
        × ((is_rate_limited now ip l).1.rate_limit_max ≡ l.rate_limit_max)
  unfolding is_rate_limited
  is_rate_limited-free h early free =
      let set = window_of-set_window ip start (count + 1) l.rate_limit_state in
      (ground (arith, h, early, free, set), ground (arith, h, early, free))

-- The datagrams of the source that pass, in a sequence of times and sources.
unfoldable pub passed : Text → List (ℕ × Text) → Limiter → ℕ
passed ip [] l = 0
passed ip ((now, other) ∷ es) l =
    let (dropped, l') = is_rate_limited now other l in
    let rest = passed ip es l' in if not dropped && text_eq other ip then suc rest else rest

abbrev Before : ℕ → ℕ × Text → Type 0
Before end (now, other) = now < end

-- Once a source has a window, at most as many of its datagrams pass before the window ends as the
-- limit leaves, whatever other sources send in between and however often windows are pruned.
pub passed-rate_limit_max :
    (ip : Text) (start count : ℕ) (es : List (ℕ × Text)) (l : Limiter)
    → window_of ip l.rate_limit_state ≡ some (start, count)
    → count ≤ l.rate_limit_max
    → All (Before (start + ticks)) es
    → count + passed ip es l ≤ l.rate_limit_max
unfolding passed
passed-rate_limit_max ip start count [] l h le before = ground arith
passed-rate_limit_max ip start count ((now, other) ∷ es) l h le (early, before) =
    elim (Bool-cases (text_eq other ip)) [
      | inr ne ↦
          let (kept, same) =
            is_rate_limited-other now ip other start count l ne h (omega (arith, early)) in
          let l' = (is_rate_limited now other l).1 in
          let later =
            passed-rate_limit_max ip start count es l' kept (omega (arith, le, same)) before in
          ground (arith, later, ne, same)
      | inl e ↦
          let own : other ≡ ip = ground (arith, text_eq_iff other ip) in
          let there : window_of other l.rate_limit_state ≡ some (start, count) =
            ap (λ x. window_of x l.rate_limit_state) own ∙ h in
          let l' = (is_rate_limited now other l).1 in
          elim (Bool-cases (leb l.rate_limit_max count)) [
            | inl full ↦
                let (dropped, kept) =
                  is_rate_limited-full now other start count l
                    (ap (λ x. window_of x l.rate_limit_state) own ∙ h) early full in
                let later =
                  passed-rate_limit_max ip start count es l'
                    (ap (λ x. window_of ip x.rate_limit_state) kept ∙ h)
                    (omega (arith, le, ap (λ (x : Limiter). x.rate_limit_max) kept)) before in
                ground (arith, dropped, later, kept)
            | inr free ↦
                let (set, same) = is_rate_limited-free now other start count l there early free in
                let later =
                  passed-rate_limit_max ip start (count + 1) es l'
                    (ap (λ x. window_of x l'.rate_limit_state) (sym own) ∙ set)
                    (ground (arith, free, same)) before in
                ground (arith, later, same)
          ]
    ]
