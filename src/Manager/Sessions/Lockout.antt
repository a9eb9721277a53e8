-- ===== src/Manager/Sessions/Lockout.antt =====
-- The lockout of accounts.
use squawk.Prelude.{
  ℕ, ◌+◌, ◌-◌, ◌*◌, ◌^◌, ◌<◌, ◌≤◌, ◌≡◌, Bool, true, false, ◌||◌, some, List, [], ◌∷◌, All, min,
  arith, refl,
}
use squawk.Manager.Sessions.{LockoutConfig, Account, is_locked, failed_login, authenticate_user}

-- Attempts to log in: the time of each, and whether the password was right.
unfoldable pub attempts : LockoutConfig → List (ℕ × Bool) → Account → Account
attempts c [] u = u
attempts c ((now, verified) ∷ es) u = attempts c es (authenticate_user c now verified u).1

-- Whether an attempt of a history succeeds.
unfoldable pub succeeds : LockoutConfig → List (ℕ × Bool) → Account → Bool
succeeds c [] u = false
succeeds c ((now, verified) ∷ es) u =
    let (ok, u') = authenticate_user c now verified u in ok || succeeds c es u'

abbrev Before : ℕ → ℕ × Bool → Type 0
Before t (now, verified) = now < t

-- While an account is locked nothing gets in and nothing changes.
locked-attempts :
    (c : LockoutConfig) (es : List (ℕ × Bool)) (u : Account) (t : ℕ)
    → u.locked_until ≡ some t
    → All (Before t) es
    → (succeeds c es u ≡ false) × (attempts c es u ≡ u)
unfolding succeeds attempts authenticate_user
locked-attempts c [] u t h before = (refl, refl)
locked-attempts c ((now, verified) ∷ es) u t h (early, before) =
    let (shut, same) = locked-attempts c es u t h before in
    let first : authenticate_user c now verified u ≡ (false, u) = ground (arith, h, early) in
    (ground (arith, first, shut), ground (arith, first, same))

-- After a wrong password that reaches the threshold the account is locked for the backoff, at most
-- the maximum: until then no attempt succeeds, not even with the right password, and none changes
-- the account or prolongs the lock; from then on the right password succeeds.
pub authenticate_user-lockout :
    (c : LockoutConfig) (now : ℕ) (u : Account) (es : List (ℕ × Bool)) (t : ℕ)
    → u.active ≡ true
    → is_locked now u ≡ false
    → c.threshold ≤ u.failed_login_count + 1
    → t ≡ now + min (c.base_seconds * 2 ^ (u.failed_login_count + 1 - c.threshold)) c.max_seconds
    → All (Before t) es
    → (succeeds c es (authenticate_user c now false u).1 ≡ false)
      × (attempts c es (authenticate_user c now false u).1 ≡ (authenticate_user c now false u).1)
      × ((later : ℕ)
          → t ≤ later
          → (authenticate_user c later true (authenticate_user c now false u).1).0 ≡ true)
unfolding authenticate_user failed_login
authenticate_user-lockout c now u es t active free reached same before =
    let u' = (authenticate_user c now false u).1 in
    let locked : u'.locked_until ≡ some t = ground (arith, active, free, reached, same) in
    let still : u'.active ≡ true = ground (arith, active, free, reached) in
    let (shut, kept) = locked-attempts c es u' t locked before in
    (shut, kept, λ later after. ground (arith, locked, still, after))
