-- ===== src/Dhcp/Leases/Lifecycle.antt =====
-- `create_lease`, `get_lease` and `release_lease` one after another.
use squawk.Prelude.{
  sym, some, none, Text, Option, ap, subst, arith, inr, inl, ◌<◌, Option-cases, ◌*◌, ◌+◌, ◌≤◌, ◌≡◌,
  ℕ,
}
use squawk.Dhcp.Database.{LeaseRow, Lease, PoolRow, Backend, Db}
use squawk.Dhcp.Model.{Config, returns, DhcpLease, details, of_client, microseconds}
use squawk.Dhcp.Leases.{of_id, new_lease, write_lease, create_lease, get_lease}
use squawk.Dhcp.Leases.Writes.{write_lease-rows, write_lease-exists}

module _ (b : Backend) (c : Config) (now pool : ℕ) (mac ip : Text) (hostname : Option Text) where
  -- Whatever row of the client is found, it is the lease that was written.
  found_row :
      (db : Db b)
      → (r : LeaseRow) × (b.leases.first
            (of_client pool mac)
            (write_lease b c now pool mac ip hostname db).leases
          ≡ some r)
        × (r.lease ≡ new_lease b c now pool mac ip hostname)
  found_row db =
      let db' = write_lease b c now pool mac ip hostname db in
      elim (Option-cases (b.leases.first (of_client pool mac) db'.leases)) [
        | inl e ↦
            let row = write_lease-exists b c now pool mac ip hostname db in
            cc (row.2, b.leases.first-none _ _ e row.0 row.1)
        | inr (r, e) ↦
            let row = b.leases.first-some _ _ r e in
            (r, e, write_lease-rows b c now pool mac ip hostname db r row.0 row.1)
      ]

  -- `create_lease` returns from the written state, with the values of the lease and its pool.
  returned :
      (db db' : Db b) (l : DhcpLease)
      → create_lease b c now pool mac ip hostname db ≡ (returns l, db')
      → (p : PoolRow) × (write_lease b c now pool mac ip hostname db ≡ db')
        × (b.pools.first (of_id b pool) db'.pools ≡ some p)
        × (details (new_lease b c now pool mac ip hostname) p ≡ l)
  unfolding create_lease
  returned db db' l h =
      elim (Option-cases
        (b.pools.first (of_id b pool) (write_lease b c now pool mac ip hostname db).pools)) [
          | inl e ↦ ground arith
          | inr (p, e) ↦ (p, ground arith, ground arith, ground arith)
        ]

  -- The state after `create_lease` is the written one, also if it raises.
  pub state_create_lease :
      (db : Db b)
      → (create_lease b c now pool mac ip hostname db).1
        ≡ write_lease b c now pool mac ip hostname db
  unfolding create_lease
  state_create_lease db = ground arith

  -- The returned lease has the address that was asked for.
  pub create_lease-ip :
      (db db' : Db b) (l : DhcpLease)
      → create_lease b c now pool mac ip hostname db ≡ (returns l, db')
      → l.ip_address ≡ ip
  unfolding details
  create_lease-ip db db' l h =
      let (p, _, _, el) = returned db db' l h in ap (λ (x : DhcpLease). x.ip_address) (sym el)

  -- What `get_lease` does on the state that `create_lease` left.
  reread :
      (w : Db b) (r : LeaseRow) (p : PoolRow) (later : ℕ)
      → b.leases.first (of_client pool mac) w.leases ≡ some r
      → r.lease ≡ new_lease b c now pool mac ip hostname
      → b.pools.first (of_id b pool) w.pools ≡ some p
      → later ≤ now + c.lease_time * microseconds
      → get_lease b later pool mac w
        ≡ (some (details (new_lease b c now pool mac ip hostname) p), w)
  unfolding get_lease
  reread w r p later e same pe t = ground (arith, ap (λ (x : Lease). x.lease_end) same)

  -- A lease that `create_lease` returns is the one that `get_lease` returns until it has run out,
  -- and reading it changes nothing.
  pub get_lease-create_lease :
      (db db' : Db b) (l : DhcpLease) (later : ℕ)
      → create_lease b c now pool mac ip hostname db ≡ (returns l, db')
      → later ≤ now + c.lease_time * microseconds
      → get_lease b later pool mac db' ≡ (some l, db')
  get_lease-create_lease db db' l later h t =
      let (p, ew, ep, el) = returned db db' l h in
      let (r, er, same) = found_row db in
      rw (← el) (
        reread db' r p later
          (subst (λ (w : Db b). b.leases.first (of_client pool mac) w.leases ≡ some r) ew er) same
          ep t)

  -- Once a lease that `create_lease` returns has run out, `get_lease` returns nothing.
  pub get_lease-create_lease_late :
      (db db' : Db b) (l : DhcpLease) (later : ℕ)
      → create_lease b c now pool mac ip hostname db ≡ (returns l, db')
      → now + c.lease_time * microseconds < later
      → (get_lease b later pool mac db').0 ≡ none
  unfolding get_lease
  get_lease-create_lease_late db db' l later h t =
      let (p, ew, ep, el) = returned db db' l h in
      let (r, er, same) = found_row db in
      let er' : b.leases.first (of_client pool mac) db'.leases ≡ some r =
        subst (λ (w : Db b). b.leases.first (of_client pool mac) w.leases ≡ some r) ew er in
      ground (arith, er', ap (λ (x : Lease). x.lease_end) same)
