-- ===== src/Dhcp/Leases/Safety.antt =====
-- `validate_requested_ip`: what an accepted address is safe from, and what the check overlooks.
use squawk.Prelude.{
  Bool-cases, Option-cases, text_eq_refl, inr, arith, ◌⊎◌, inl, false, true, some, none, Option, In,
  ◌≡◌, Text, ℕ,
}
use squawk.Dhcp.Address.{parse_ipv4}
use squawk.Dhcp.Database.{LeaseRow, Backend, Db, active}
use squawk.Dhcp.Model.{
  Config, is_in_range, is_expired, of_client, active_at, active_elsewhere, stale,
}
use squawk.Dhcp.Leases.{write_lease, validate_requested_ip}
use squawk.Dhcp.Leases.Ranges.{IsInPool, is_in_range-IsInPool}
use squawk.Dhcp.Leases.Writes.{table, write_lease-exists, write_lease-rows, write_lease-frame}
use squawk.Dhcp.Leases.Sweep.{swept, stale-expire_old_leases}

module _ (b : Backend) (c : Config) (now pool : ℕ) (mac ip : Text) (db : Db b) where
  -- An accepted address is in the pool, and the conflicting row that was looked at, if there is
  -- one, has run out.
  pub validate_requested_ip-none :
      validate_requested_ip b c now pool mac ip db ≡ none
      → IsInPool c ip
        × (((r : LeaseRow) → In r (table b db) → active_elsewhere pool mac ip r ≡ false)
            ⊎ ((r : LeaseRow) × In r (table b db)
                × (active_elsewhere pool mac ip r ≡ true)
                × (is_expired now r.lease ≡ true)))
  unfolding validate_requested_ip
  validate_requested_ip-none h = elim (Option-cases (parse_ipv4 ip)) [
    | inl e ↦ ground arith
    | inr (n, e) ↦ elim (Bool-cases (is_in_range c ip)) [
      | inr out ↦ ground arith
      | inl within ↦ elim (Option-cases (b.leases.first (active_elsewhere pool mac ip) db.leases)) [
        | inl free ↦ (is_in_range-IsInPool c ip within, inl (b.leases.first-none _ _ free))
        | inr (r, er) ↦
            let row = b.leases.first-some _ _ r er in
            (is_in_range-IsInPool c ip within, inr (r, row.0, row.1, ground arith))
      ]
    ]
  ]

  -- An active lease of another client at the address is stale if it has run out.
  expired-is-stale :
      (r : LeaseRow)
      → active_elsewhere pool mac ip r ≡ true
      → is_expired now r.lease ≡ true
      → stale pool now r ≡ true
  unfolding is_expired
  expired-is-stale r a e = ground arith

  -- In a table with no stale lease of the pool, an accepted address lies in the pool's range and no
  -- other client has an active lease on it.
  validate_requested_ip_safe :
      ((r : LeaseRow) → In r (table b db) → stale pool now r ≡ false)
      → validate_requested_ip b c now pool mac ip db ≡ none
      → IsInPool c ip
        × ((r : LeaseRow) → In r (table b db) → active_elsewhere pool mac ip r ≡ false)
  validate_requested_ip_safe clean h =
      let (range, found) = validate_requested_ip-none h in
      (
        range,
        elim found [ inl free ↦ free | inr (r, m, a, e) ↦ cc (clean r m, expired-is-stale r a e) ],
      )

  -- If the row that the query takes first has run out, the address is accepted, whatever other
  -- active leases there are on it.
  validate_overlooks :
      (old : LeaseRow)
      → b.leases.first (active_elsewhere pool mac ip) db.leases ≡ some old
      → is_expired now old.lease ≡ true
      → is_in_range c ip ≡ true
      → validate_requested_ip b c now pool mac ip db ≡ none
  unfolding validate_requested_ip is_in_range
  validate_overlooks old e x within = ground arith

-- Right after a sweep at the same time, an address that is accepted lies in the pool's range and no
-- other client has an active lease on it.
pub validate_after_sweep :
    (b : Backend) (c : Config) (now pool : ℕ) (mac ip : Text) (db : Db b)
    → validate_requested_ip b c now pool mac ip (swept b now pool db) ≡ none
    → IsInPool c ip
      × ((r : LeaseRow)
          → In r (table b (swept b now pool db))
          → active_elsewhere pool mac ip r ≡ false)
validate_after_sweep b c now pool mac ip db =
    validate_requested_ip_safe b c now pool mac ip (swept b now pool db)
      (stale-expire_old_leases b now pool db)

-- Between sweeps one address can be leased twice: if the query's first row has run out, a request
-- for an address of the pool is accepted while another client has an active lease on it, and after
-- `create_lease` both clients have an active lease on it.
pub leased_twice :
    (b : Backend) (c : Config) (now pool : ℕ) (mac ip : Text) (hostname : Option Text) (db : Db b)
    (old victim : LeaseRow)
    → b.leases.first (active_elsewhere pool mac ip) db.leases ≡ some old
    → is_expired now old.lease ≡ true
    → is_in_range c ip ≡ true
    → In victim (table b db)
    → active_elsewhere pool mac ip victim ≡ true
    → (validate_requested_ip b c now pool mac ip db ≡ none)
      × In victim (table b (write_lease b c now pool mac ip hostname db))
      × ((r : LeaseRow) × In r (table b (write_lease b c now pool mac ip hostname db))
          × (of_client pool mac r ≡ true)
          × (active_at pool ip r ≡ true))
leased_twice b c now pool mac ip hostname db old victim e x within m a =
    let (r, rm, rc) = write_lease-exists b c now pool mac ip hostname db in
    let same = write_lease-rows b c now pool mac ip hostname db r rm rc in
    (
      validate_overlooks b c now pool mac ip db old e x within,
      write_lease-frame b c now pool mac ip hostname db victim m (ground arith),
      (r, rm, rc, ground (arith, same, text_eq_refl ip, text_eq_refl active)),
    )
