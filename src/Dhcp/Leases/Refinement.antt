-- ===== src/Dhcp/Leases/Refinement.antt =====
-- The methods that change the table of leases, against a map from the clients of each pool to their
-- leases.
pub mod Steps
use squawk.Prelude.{
  find?-exists, find?-matches, find?-append, find?-append_new, find?-map, find?-some, ◌*◌, ◌+◌, ℕ,
  true, false, ◌&&◌, ◌==◌, ◌≡◌, ltb, Option, none, some, List, [], ◌∷◌, map, find?, Text, text_eq,
  text_eq_iff, arith, refl, sym, ap, ◌∙◌, Bool-cases, Option-cases, inl, inr, if◌then◌else◌,
}
use squawk.Dhcp.Database.{LeaseRow, Lease, Backend, Db, changed, active, expired, released}
use squawk.Dhcp.Model.{Config, of_client}
use squawk.Dhcp.Leases.{
  of_id, with_status, write_lease, create_lease, release_lease, expire_old_leases,
}
use squawk.Dhcp.Leases.Writes.{
  rewrite-lease, new_row-client, rewrite, new_row, table, write_lease-cases,
}
use squawk.Dhcp.Leases.Sweep.{mark, table-swept}

-- What the table promises: the lease of each client in each pool.
abbrev pub ClientMap : Type 0
ClientMap = ℕ → Text → Option Lease

abbrev pub lease_in : Option LeaseRow → Option Lease
lease_in none = none
lease_in (some r) = some r.lease

-- What a method does to the lease that a client has.
abbrev pub on_lease : (Lease → Lease) → Option Lease → Option Lease
on_lease f none = none
on_lease f (some l) = some (f l)

-- The calls that change leases, with the clock and the configuration of the first.
pub data Change : Type 0 where
  create : Config → ℕ → ℕ → Text → Text → Option Text → Change
  release : ℕ → Text → Change
  sweep : ℕ → ℕ → Change

-- What a call means: a lease is put, marked as released, or marked as expired if it is stale.
abbrev pub intended : Config → ℕ → ℕ → Text → Text → Option Text → Lease
intended c now pool mac ip hostname = record {
  pool_id = pool;
  mac_address = mac;
  ip_address = ip;
  hostname = hostname;
  lease_start = now;
  lease_end = now + c.lease_time * 1000000;
  status = active;
}

abbrev pub swept_lease : ℕ → ℕ → Lease → Lease
swept_lease now pool l =
    if l.pool_id == pool && text_eq l.status active && ltb l.lease_end now
    then record l { status = expired }
    else l

unfoldable pub specified : Change → ClientMap → ClientMap
specified (create c now pool mac ip hostname) v p m =
    if text_eq mac m && pool == p then some (intended c now pool mac ip hostname) else v p m
specified (release pool mac) v p m =
    if text_eq mac m && pool == p
    then on_lease (λ l. record l { status = released }) (v p m)
    else v p m
specified (sweep now pool) v p m = on_lease (swept_lease now pool) (v p m)

-- A history of calls, as it is meant.
unfoldable pub specified_all : List Change → ClientMap → ClientMap
specified_all [] v = v
specified_all (x ∷ xs) v = specified_all xs (specified x v)

module _ (b : Backend) where
  -- The code's method for each call.
  unfoldable pub performed : Change → Db b → Db b
  performed (create c now pool mac ip hostname) db =
      (create_lease b c now pool mac ip hostname db).1
  performed (release pool mac) db = (release_lease b pool mac db).1
  performed (sweep now pool) db = (expire_old_leases b now pool db).1

  -- The client's first row, of which there is one.
  abbrev pub client_map : Db b → ClientMap
  client_map db p m = lease_in (find? (of_client p m) (table b db))

  -- A history of calls, as the code performs it.
  unfoldable pub performed_all : List Change → Db b → Db b
  performed_all [] db = db
  performed_all (x ∷ xs) db = performed_all xs (performed x db)
