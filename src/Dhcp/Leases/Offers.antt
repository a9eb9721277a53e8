-- ===== src/Dhcp/Leases/Offers.antt =====
-- What `get_offer` offers, and when it offers nothing.
use squawk.Prelude.{
  truthy, and-true, ◌&&◌, ℕ, ◌+◌, ◌-◌, true, false, Option, none, some, Text, In, ◌≡◌, arith, inl,
  inr, ◌⊎◌, Option-cases, Bool-cases, ap, sym, subst, ◌∙◌,
}
use squawk.Dhcp.Address.{parse_ipv4}
use squawk.Dhcp.Address.RoundTrip.{parse-print_ipv4, print-parse_ipv4, parse_ipv4-lt}
use squawk.Dhcp.Database.{LeaseRow, Reservation, Backend, Db}
use squawk.Dhcp.Model.{
  Config, returns, is_in_range, is_expired, active_at, active_of_client, reserved_for,
}
use squawk.Dhcp.Leases.{free_from, find_free_ip, offer_requested, offer_reserved, get_offer}
use squawk.Dhcp.Leases.Ranges.{
  IsInPool, is_in_range-IsInPool, IsFree, IsTaken, free_from-some, free_from-none,
}

module _ (b : Backend) (c : Config) (pool : ℕ) (db : Db b) where
  -- The address lies in the pool, and no active lease of the pool holds it.
  abbrev pub IsAvailable : Text → Type 0
  IsAvailable ip = IsInPool c ip × IsFree b pool db ip

  -- Every address of the pool is held by an active lease.
  abbrev pub IsFull : Type 0
  IsFull = (ip : Text) → IsInPool c ip → IsTaken b pool db ip

  find_free_ip-some : (ip : Text) → find_free_ip b c pool db ≡ returns (some ip) → IsAvailable ip
  unfolding find_free_ip
  find_free_ip-some ip h = elim (Option-cases (parse_ipv4 c.pool_start)) [
    | inl e ↦ ground arith
    | inr (lo, el) ↦ elim (Option-cases (parse_ipv4 c.pool_end)) [
      | inl e ↦ ground arith
      | inr (hi, eh) ↦
          let found = free_from-some b pool db (hi + 1 - lo) lo ip (ground arith) in
          let top = parse_ipv4-lt c.pool_end hi eh in
          (
            record {
              low = lo;
              number = found.0;
              high = hi;
              reads_low = el;
              reads_number = ap parse_ipv4 (sym found.3) ∙ parse-print_ipv4 found.0 (omega arith);
              reads_high = eh;
              above = found.1;
              below = omega arith;
            },
            found.4,
          )
    ]
  ]

  find_free_ip-none : find_free_ip b c pool db ≡ returns none → IsFull
  unfolding find_free_ip
  find_free_ip-none h ip p =
      let searched : free_from b pool db (p.high + 1 - p.low) p.low ≡ none =
        ground (arith, p.reads_low, p.reads_high) in
      subst (IsTaken b pool db) (print-parse_ipv4 ip p.number p.reads_number) (
        free_from-none b pool db (p.high + 1 - p.low) p.low searched p.number p.above
          (omega (arith, p.above, p.below)))

  offer_requested-some :
      (requested : Option Text) (ip : Text)
      → offer_requested b c pool requested db ≡ returns (some ip)
      → IsAvailable ip
  unfolding offer_requested
  offer_requested-some none ip h = find_free_ip-some ip h
  offer_requested-some (some wanted) ip h =
      elim (Bool-cases (truthy wanted && is_in_range c wanted)) [
        | inr e ↦ find_free_ip-some ip (ground arith)
        | inl e ↦ elim (Option-cases (b.leases.first (active_at pool wanted) db.leases)) [
          | inr (r, er) ↦ find_free_ip-some ip (ground arith)
          | inl en ↦ subst IsAvailable (ground arith) (
            is_in_range-IsInPool c wanted (and-true (truthy wanted) _ e).1,
            b.leases.first-none (active_at pool wanted) db.leases en,
          )
        ]
      ]

  offer_requested-none :
      (requested : Option Text) → offer_requested b c pool requested db ≡ returns none → IsFull
  unfolding offer_requested
  offer_requested-none none h = find_free_ip-none h
  offer_requested-none (some wanted) h = elim (Bool-cases (truthy wanted && is_in_range c wanted)) [
    | inr e ↦ find_free_ip-none (ground arith)
    | inl e ↦ elim (Option-cases (b.leases.first (active_at pool wanted) db.leases)) [
      | inr (r, er) ↦ find_free_ip-none (ground arith)
      | inl en ↦ ground arith
    ]
  ]

  module _ (now : ℕ) (mac : Text) where
    -- An active lease of the client that has not run out holds the address.
    abbrev pub IsHeld : Text → Type 0
    IsHeld ip =
        (r : LeaseRow) × In r (b.leases.rows db.leases)
        × (active_of_client pool mac r ≡ true)
        × (is_expired now r.lease ≡ false)
        × (r.ip_address ≡ ip)

    -- The address is reserved for the client.
    abbrev pub IsReserved : Text → Type 0
    IsReserved ip =
        (r : Reservation) × In r (b.reservations.rows db.reservations)
        × (reserved_for pool mac r ≡ true)
        × (r.ip_address ≡ ip)

    offer_reserved-some :
        (requested : Option Text) (ip : Text)
        → offer_reserved b c pool mac requested db ≡ returns (some ip)
        → IsReserved ip ⊎ IsAvailable ip
    unfolding offer_reserved
    offer_reserved-some requested ip h =
        elim (Option-cases (b.reservations.first (reserved_for pool mac) db.reservations)) [
          | inl e ↦ inr (offer_requested-some requested ip (ground arith))
          | inr (r, e) ↦
              let row = b.reservations.first-some _ _ r e in inl (r, row.0, row.1, ground arith)
        ]

    offer_reserved-none :
        (requested : Option Text) → offer_reserved b c pool mac requested db ≡ returns none → IsFull
    unfolding offer_reserved
    offer_reserved-none requested h =
        elim (Option-cases (b.reservations.first (reserved_for pool mac) db.reservations)) [
          | inl e ↦ offer_requested-none requested (ground arith)
          | inr (r, e) ↦ ground arith
        ]

    -- An offered address is the client's own active lease that has not run out, the client's
    -- reservation, or an address of the pool's range that no active lease of the pool holds.
    pub get_offer-some :
        (requested : Option Text) (ip : Text)
        → get_offer b c now pool mac requested db ≡ returns (some ip)
        → IsHeld ip ⊎ (IsReserved ip ⊎ IsAvailable ip)
    unfolding get_offer
    get_offer-some requested ip h =
        elim (Option-cases (b.leases.first (active_of_client pool mac) db.leases)) [
          | inl e ↦ inr (offer_reserved-some requested ip (ground arith))
          | inr (r, e) ↦ elim (Bool-cases (is_expired now r.lease)) [
            | inl x ↦ inr (offer_reserved-some requested ip (ground arith))
            | inr x ↦
                let row = b.leases.first-some _ _ r e in inl (r, row.0, row.1, x, ground arith)
          ]
        ]

    -- Nothing is offered only if every address of the pool's range is held by an active lease of
    -- the pool, expired or not.
    pub get_offer-none :
        (requested : Option Text) → get_offer b c now pool mac requested db ≡ returns none → IsFull
    unfolding get_offer
    get_offer-none requested h =
        elim (Option-cases (b.leases.first (active_of_client pool mac) db.leases)) [
          | inl e ↦ offer_reserved-none requested (ground arith)
          | inr (r, e) ↦ elim (Bool-cases (is_expired now r.lease)) [
            | inl x ↦ offer_reserved-none requested (ground arith)
            | inr x ↦ ground arith
          ]
        ]
