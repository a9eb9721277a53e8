-- ===== src/Dhcp/Leases/Ranges.antt =====
-- The range of the pool, and the search for a free address in it.
use squawk.Prelude.{
  ==_iff, sym, ◌==◌, subst, ℕ, zero, suc, ◌+◌, ◌≤◌, ◌<◌, true, false, none, some, Text, In, ◌≡◌,
  arith, inl, inr, Option-cases, Bool-cases,
}
use squawk.Dhcp.Address.{parse_ipv4, print_ipv4}
use squawk.Dhcp.Database.{LeaseRow, Backend, Db}
use squawk.Dhcp.Model.{Config, is_in_range, active_at}
use squawk.Dhcp.Leases.{free_from}

-- The text is an address between the bounds of the pool.
pub record IsInPool (c : Config) (ip : Text) : Type 0 where
  pub low : ℕ
  pub number : ℕ
  pub high : ℕ
  pub reads_low : parse_ipv4 c.pool_start ≡ some low
  pub reads_number : parse_ipv4 ip ≡ some number
  pub reads_high : parse_ipv4 c.pool_end ≡ some high
  pub above : low ≤ number
  pub below : number ≤ high

pub is_in_range-IsInPool : (c : Config) (ip : Text) → is_in_range c ip ≡ true → IsInPool c ip
unfolding is_in_range
is_in_range-IsInPool c ip h = elim (Option-cases (parse_ipv4 ip)) [
  | inl e ↦ ground arith
  | inr (n, en) ↦ elim (Option-cases (parse_ipv4 c.pool_start)) [
    | inl e ↦ ground arith
    | inr (lo, el) ↦ elim (Option-cases (parse_ipv4 c.pool_end)) [
      | inl e ↦ ground arith
      | inr (hi, eh) ↦ record {
        low = lo;
        number = n;
        high = hi;
        reads_low = el;
        reads_number = en;
        reads_high = eh;
        above = ground arith;
        below = ground arith;
      }
    ]
  ]
]

-- A range is its first number and the rest.
from_suc :
    (P : ℕ → Type 0) (n m : ℕ)
    → P n
    → ((j : ℕ) → suc n ≤ j → j < m → P j)
    → (j : ℕ) → n ≤ j
    → j < m
    → P j
from_suc P n m first rest j lo hi = elim (Bool-cases (j == n)) [
  | inl e ↦ subst P (sym ((==_iff j n).0 e)) first
  | inr e ↦ rest j (ground arith) hi
]

module _ (b : Backend) (pool : ℕ) (db : Db b) where
  -- No active lease of the pool holds the address.
  abbrev pub IsFree : Text → Type 0
  IsFree ip = (r : LeaseRow) → In r (b.leases.rows db.leases) → active_at pool ip r ≡ false

  -- Some active lease of the pool holds the address.
  abbrev pub IsTaken : Text → Type 0
  IsTaken ip = (r : LeaseRow) × In r (b.leases.rows db.leases) × (active_at pool ip r ≡ true)

  pub free_from-some :
      (k n : ℕ) (ip : Text)
      → free_from b pool db k n ≡ some ip
      → (m : ℕ) × (n ≤ m)
        × (m < n + k)
        × (print_ipv4 m ≡ ip)
        × IsFree ip
        × ((j : ℕ) → n ≤ j → j < m → IsTaken (print_ipv4 j))
  unfolding free_from
  free_from-some zero n ip h = cc
  free_from-some (suc k) n ip h =
      elim (Option-cases (b.leases.first (active_at pool (print_ipv4 n)) db.leases)) [
        | inl e ↦ (
          n,
          omega arith,
          omega arith,
          ground arith,
          subst IsFree (ground arith) (b.leases.first-none _ _ e),
          λ j lo hi. absurd (omega arith),
        )
        | inr (r, e) ↦
            let later = free_from-some k (suc n) ip (ground arith) in
            let row = b.leases.first-some _ _ r e in
            (
              later.0,
              omega arith,
              omega arith,
              later.3,
              later.4,
              from_suc (λ j. IsTaken (print_ipv4 j)) n later.0 (r, row.0, row.1) later.5,
            )
      ]

  pub free_from-none :
      (k n : ℕ)
      → free_from b pool db k n ≡ none
      → (j : ℕ) → n ≤ j
      → j < n + k
      → IsTaken (print_ipv4 j)
  unfolding free_from
  free_from-none zero n h j lo hi = absurd (omega arith)
  free_from-none (suc k) n h j lo hi =
      elim (Option-cases (b.leases.first (active_at pool (print_ipv4 n)) db.leases)) [
        | inl e ↦ ground arith
        | inr (r, e) ↦
            let row = b.leases.first-some _ _ r e in
            from_suc (λ i. IsTaken (print_ipv4 i)) n (n + suc k) (r, row.0, row.1)
              (λ i p q. free_from-none k (suc n) (ground arith) i p (omega arith)) j lo hi
      ]
