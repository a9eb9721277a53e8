-- ===== src/Dhcp/Database.antt =====
-- The database of dhcp-server: the rows of app/schema.py and what the server relies on of
-- `penguin_dal`, which is not part of the repository. A table is a store with a list of rows; the
-- laws are those of SQL: `first` takes a matching row in no promised order, `update` changes the
-- matching rows, `insert` adds a row with an id of its own.
pub mod InMemory
use squawk.Prelude.{
  ℕ, Bool, true, false, Option, none, some, List, [], ◌∷◌, ◌++◌, map, In, Text, ◌≡◌, count,
  if◌then◌else◌, codes,
}

-- `dhcp_lease`, all columns but the id; times are in microseconds
pub record Lease : Type 0 where
  pub pool_id : ℕ
  pub mac_address : Text
  pub ip_address : Text
  pub hostname : Option Text
  pub lease_start : ℕ
  pub lease_end : ℕ
  pub status : Text

pub record LeaseRow : Type 0 where
  pub id : ℕ
  pub lease : Lease
  pub open lease use *

-- `dhcp_reservation`
pub record Reservation : Type 0 where
  pub pool_id : ℕ
  pub mac_address : Text
  pub ip_address : Text

-- `dhcp_pool`, the columns of app/schema.py that the server reads
pub record Pool : Type 0 where
  pub id : ℕ
  pub gateway : Option Text
  pub dns_servers : Option (List Text)
  pub lease_duration : ℕ

-- A row of the pools as the server reads it: it also reads the column `subnet_mask`, which
-- app/schema.py does not declare, so the table that penguin_dal reflects must have it besides.
pub record PoolRow : Type 0 where
  pub pool : Pool
  pub open pool use *
  pub subnet_mask : Option Text

abbrev pub active : Text
active = codes "active"

abbrev pub expired : Text
expired = codes "expired"

abbrev pub released : Text
released = codes "released"

-- `db(query).select().first()` on a table that the server only reads
pub record Query (Row : Type 0) : Type 1 where
  pub Store : Type 0
  pub rows : Store → List Row
  pub first : (Row → Bool) → Store → Option Row
  pub first-some :
      (q : Row → Bool) (s : Store) (r : Row) → first q s ≡ some r → In r (rows s) × (q r ≡ true)
  pub first-none :
      (q : Row → Bool) (s : Store) → first q s ≡ none → (r : Row) → In r (rows s) → q r ≡ false

-- What `update` does to a row of the table.
abbrev pub changed : (LeaseRow → Bool) → (Lease → Lease) → LeaseRow → LeaseRow
changed q f r = if q r then record r { lease = f r.lease } else r

-- `db.dhcp_lease`
pub record Table : Type 1 where
  pub query : Query LeaseRow
  pub open query use *
  pub count_rows : (LeaseRow → Bool) → Store → ℕ
  pub update : (LeaseRow → Bool) → (Lease → Lease) → Store → Store
  pub insert : Lease → Store → Store
  pub next_id : Store → ℕ
  pub count_rows_lem : (q : LeaseRow → Bool) (s : Store) → count_rows q s ≡ count q (rows s)
  pub rows-update :
      (q : LeaseRow → Bool) (f : Lease → Lease) (s : Store)
      → rows (update q f s) ≡ map (changed q f) (rows s)
  pub rows-insert :
      (l : Lease) (s : Store)
      → rows (insert l s) ≡ rows s ++ record { id = next_id s; lease = l } ∷ []

pub record Backend : Type 1 where
  pub leases : Table
  pub reservations : Query Reservation
  pub pools : Query PoolRow

pub record Db (b : Backend) : Type 0 where
  pub leases : b.leases.Store
  pub reservations : b.reservations.Store
  pub pools : b.pools.Store
