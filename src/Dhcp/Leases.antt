-- ===== src/Dhcp/Leases.antt =====
-- dhcp-server/app/db.py, the class `DHCPDatabase`. The connection is the state `Db`; each clock
-- reading of a method is its argument `now`, in microseconds. A method that raises keeps what it
-- wrote before. `finally: pass` and the log lines have no effect on the result.
pub mod Ranges
pub mod Offers
pub mod Writes
pub mod Lifecycle
pub mod Releases
pub mod Sweep
pub mod Safety
pub mod Refinement
mod Tests
mod SafetyTests
use squawk.Prelude.{
  ℕ, zero, suc, ◌+◌, ◌-◌, ◌*◌, ◌/◌, Bool, true, false, not, ◌&&◌, Option, none, some, List, [], ◌∷◌,
  Text, text_eq, codes, truthy, ltb, leb, ◌==◌, if◌then◌else◌,
}
use squawk.Prelude.Int.{ℤ, pos, sub_ℕ, ◌-ℤ◌}
use squawk.Dhcp.Address.{parse_ipv4, print_ipv4}
use squawk.Dhcp.Model.{
  Config, DhcpLease, Fault, Outcome, Rejection, active_at, active_elsewhere, active_of_client,
  bad_bound, details, invalid_ip, is_expired, is_in_range, leased_elsewhere, live, microseconds,
  of_client, or_list, or_text, outside_pool, pool_not_found, raises, reserved_for, returns, stale,
}
use squawk.Dhcp.Database.{
  Lease, LeaseRow, Reservation, PoolRow, Backend, Db, active, expired, released,
}

module _ (b : Backend) where
  -- The loop of `_find_free_ip` over the `k` numbers from `n` on.
  unfoldable pub free_from : ℕ → Db b → ℕ → ℕ → Option Text
  free_from pool db zero n = none
  free_from pool db (suc k) n =
      let rest = free_from pool db k (suc n) in
      elim (b.leases.first (active_at pool (print_ipv4 n)) db.leases) [
        | none ↦ some (print_ipv4 n)
        | some existing ↦ rest
      ]

  -- `_find_free_ip`
  unfoldable pub find_free_ip : Config → ℕ → Db b → Outcome (Option Text)
  find_free_ip c pool db = elim (parse_ipv4 c.pool_start) [
    | none ↦ raises bad_bound
    | some lo ↦ elim (parse_ipv4 c.pool_end) [
      | none ↦ raises bad_bound
      | some hi ↦ returns (free_from pool db (hi + 1 - lo) lo)
    ]
  ]

  -- `get_offer` from the test of the requested address on
  offer_requested : Config → ℕ → Option Text → Db b → Outcome (Option Text)
  offer_requested c pool none db = find_free_ip c pool db
  offer_requested c pool (some ip) db =
      if truthy ip && is_in_range c ip
      then (elim (b.leases.first (active_at pool ip) db.leases) [
        | none ↦ returns (some ip)
        | some conflicting ↦ find_free_ip c pool db
      ])
      else find_free_ip c pool db

  -- `get_offer` from the reservation on
  offer_reserved : Config → ℕ → Text → Option Text → Db b → Outcome (Option Text)
  unfolding offer_requested
  offer_reserved c pool mac requested db =
      elim (b.reservations.first (reserved_for pool mac) db.reservations) [
        | none ↦ offer_requested c pool requested db
        | some r ↦ returns (some r.ip_address)
      ]

  -- `get_offer`
  unfoldable pub get_offer : Config → ℕ → ℕ → Text → Option Text → Db b → Outcome (Option Text)
  unfolding offer_reserved is_expired
  get_offer c now pool mac requested db =
      elim (b.leases.first (active_of_client pool mac) db.leases) [
        | none ↦ offer_reserved c pool mac requested db
        | some existing ↦
            if is_expired now existing.lease
            then offer_reserved c pool mac requested db
            else returns (some existing.ip_address)
      ]

  -- `validate_requested_ip`: `none` accepts
  unfoldable pub validate_requested_ip : Config → ℕ → ℕ → Text → Text → Db b → Option Rejection
  unfolding is_expired
  validate_requested_ip c now pool mac ip db = elim (parse_ipv4 ip) [
    | none ↦ some invalid_ip
    | some n ↦
        if is_in_range c ip
        then (elim (b.leases.first (active_elsewhere pool mac ip) db.leases) [
          | none ↦ none
          | some conflicting ↦
              if is_expired now conflicting.lease then none else some leased_elsewhere
        ])
        else some outside_pool
  ]

  -- The values that `create_lease` writes.
  abbrev pub renewed : Config → ℕ → ℕ → Text → Text → Option Text → Lease → Lease
  renewed c now pool mac ip hostname l = record l {
    ip_address = ip;
    hostname = hostname;
    lease_start = now;
    lease_end = now + c.lease_time * microseconds;
    status = active;
  }

  abbrev pub new_lease : Config → ℕ → ℕ → Text → Text → Option Text → Lease
  new_lease c now pool mac ip hostname = record {
    pool_id = pool;
    mac_address = mac;
    ip_address = ip;
    hostname = hostname;
    lease_start = now;
    lease_end = now + c.lease_time * microseconds;
    status = active;
  }

  -- The upsert of `create_lease`.
  unfoldable pub write_lease : Config → ℕ → ℕ → Text → Text → Option Text → Db b → Db b
  write_lease c now pool mac ip hostname db = elim (b.leases.first (of_client pool mac) db.leases) [
    | none ↦ record db { leases = b.leases.insert (new_lease c now pool mac ip hostname) db.leases }
    | some existing ↦ record db {
      leases = b.leases.update (of_client pool mac) (renewed c now pool mac ip hostname) db.leases;
    }
  ]

  abbrev pub of_id : ℕ → PoolRow → Bool
  of_id pool p = p.id == pool

  -- `create_lease`
  unfoldable pub create_lease :
      Config → ℕ → ℕ → Text → Text → Option Text → Db b → Outcome DhcpLease × Db b
  create_lease c now pool mac ip hostname db =
      let db' = write_lease c now pool mac ip hostname db in
      elim (b.pools.first (of_id pool) db'.pools) [
        | none ↦ (raises pool_not_found, db')
        | some p ↦ (returns (details (new_lease c now pool mac ip hostname) p), db')
      ]

  abbrev pub with_status : Text → Lease → Lease
  with_status s l = record l { status = s }

  -- `release_lease`
  unfoldable pub release_lease : ℕ → Text → Db b → Bool × Db b
  release_lease pool mac db = elim (b.leases.first (of_client pool mac) db.leases) [
    | none ↦ (false, db)
    | some existing ↦ (
      true,
      record db { leases = b.leases.update (of_client pool mac) (with_status released) db.leases },
    )
  ]

  abbrev pub with_id : ℕ → LeaseRow → Bool
  with_id i r = r.id == i

  -- `get_lease`
  unfoldable pub get_lease : ℕ → ℕ → Text → Db b → Option DhcpLease × Db b
  unfolding is_expired
  get_lease now pool mac db = elim (b.leases.first (of_client pool mac) db.leases) [
    | none ↦ (none, db)
    | some r ↦
        if is_expired now r.lease
        then (
          none,
          record db { leases = b.leases.update (with_id r.id) (with_status expired) db.leases },
        )
        else (elim (b.pools.first (of_id pool) db.pools) [
          | none ↦ (none, db)
          | some p ↦ (some (details r.lease p), db)
        ])
  ]

  -- `expire_old_leases`
  unfoldable pub expire_old_leases : ℕ → ℕ → Db b → ℕ × Db b
  expire_old_leases now pool db =
      let n = b.leases.count_rows (stale pool now) db.leases in
      (
        n,
        if ltb 0 n
            then record db {
              leases = b.leases.update (stale pool now) (with_status expired) db.leases;
            }
            else db,
      )

  -- `get_pool_stats`: the leases that are active, the addresses that are left, and all addresses;
  -- the differences are those of Python's integers
  unfoldable pub get_pool_stats : Config → ℕ → ℕ → Db b → Outcome (ℕ × ℤ × ℤ)
  unfolding ◌-ℤ◌
  get_pool_stats c now pool db =
      let active_count = b.leases.count_rows (live pool now) db.leases in
      elim (parse_ipv4 c.pool_end) [
        | none ↦ raises bad_bound
        | some hi ↦ elim (parse_ipv4 c.pool_start) [
          | none ↦ raises bad_bound
          | some lo ↦
              let total = sub_ℕ (hi + 1) lo in
              returns (active_count, total -ℤ pos active_count, total)
        ]
      ]
