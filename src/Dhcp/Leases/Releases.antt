-- ===== src/Dhcp/Leases/Releases.antt =====
-- `release_lease`, and what the other methods see after it.
use squawk.Prelude.{
  false, Text, some, true, inr, inl, ◌≤◌, sym, count, Option-cases, arith, subst, In, ◌≡◌, ℕ, refl,
}
use squawk.Dhcp.Database.{LeaseRow, PoolRow, Backend, Db, changed, released}
use squawk.Dhcp.Model.{DhcpLease, details, is_expired, of_client}
use squawk.Dhcp.Leases.{of_id, with_status, release_lease, get_lease}
use squawk.Dhcp.Leases.Writes.{table, IsUnique, In-update, update-In, count-update}

module _ (b : Backend) (pool : ℕ) (mac : Text) (db db' : Db b) where
  marked : LeaseRow → LeaseRow
  marked = changed (of_client pool mac) (with_status b released)

  -- A release succeeds by marking the rows of a client that has one.
  release_lease-true :
      release_lease b pool mac db ≡ (true, db')
      → (old : LeaseRow) × In old (table b db)
        × (of_client pool mac old ≡ true)
        × (b.leases.update (of_client pool mac) (with_status b released) db.leases ≡ db'.leases)
        × (db'.pools ≡ db.pools)
  unfolding release_lease
  release_lease-true h = elim (Option-cases (b.leases.first (of_client pool mac) db.leases)) [
    | inl e ↦ ground arith
    | inr (old, e) ↦
        let row = b.leases.first-some _ _ old e in (old, row.0, row.1, ground arith, ground arith)
  ]

  module _ (h : release_lease b pool mac db ≡ (true, db')) where
    -- A row of the table afterwards is a row from before, marked if it is the client's.
    origin :
        (r : LeaseRow) → In r (table b db') → (r' : LeaseRow) × In r' (table b db) × (r ≡ marked r')
    unfolding marked
    origin r m =
        let (old, _, _, e, _) = release_lease-true h in
        In-update b _ _ db.leases r (subst (λ s. In r (b.leases.rows s)) (sym e) m)

    -- After a release that succeeds, every row of the client is marked as released.
    pub release_lease-rows :
        (r : LeaseRow) → In r (table b db') → of_client pool mac r ≡ true → r.status ≡ released
    unfolding marked
    release_lease-rows r m o = let (r', _, e) = origin r m in ground (arith, e)

    -- After a release that succeeds, if the pool is in its table and none of the client's leases
    -- had run out, `get_lease` still returns a lease to the client, marked as released.
    pub get_lease-release_lease :
        (now : ℕ) (p : PoolRow)
        → b.pools.first (of_id b pool) db.pools ≡ some p
        → ((r : LeaseRow)
            → In r (table b db)
            → of_client pool mac r ≡ true
            → is_expired now r.lease ≡ false)
        → (l : DhcpLease) × (get_lease b now pool mac db' ≡ (some l, db')) × (l.status ≡ released)
    unfolding get_lease details marked
    get_lease-release_lease now p ep unexpired =
        let (old, om, oo, e, pools) = release_lease-true h in
        elim (Option-cases (b.leases.first (of_client pool mac) db'.leases)) [
          | inl missing ↦
              let m : In (marked old) (table b db') =
                subst (λ s. In (marked old) (b.leases.rows s)) e
                  (update-In b _ _ db.leases old om) in
              absurd (ground (arith, b.leases.first-none _ _ missing (marked old) m))
          | inr (r, er) ↦
              let row = b.leases.first-some _ _ r er in
              let (r', m', e') = origin r row.0 in
              let same_end : r.lease_end ≡ r'.lease_end = ground (arith, e') in
              let client : of_client pool mac r' ≡ true = ground (arith, e', row.1) in
              let fresh = unexpired r' m' client in
              let mark = release_lease-rows r row.0 row.1 in
              (details r.lease p, ground (arith, fresh, same_end, ep, pools), mark)
        ]

    pub release_lease-IsUnique : IsUnique b db → IsUnique b db'
    release_lease-IsUnique u p m =
        let (_, _, _, e, _) = release_lease-true h in
        subst (λ s. count (of_client p m) (b.leases.rows s) ≤ 1) e
          (rw
            (count-update b (of_client pool mac) (with_status b released) db.leases
              (λ l. (refl, refl)) p m)
            (u p m))
