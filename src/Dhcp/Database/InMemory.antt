-- ===== src/Dhcp/Database/InMemory.antt =====
-- A table that is the list of its rows: what is assumed of the database can hold.
use squawk.Prelude.{
  suc, List, [], ◌∷◌, ◌++◌, map, refl, count, length, find?, find?-some, find?-none,
}
use squawk.Dhcp.Database.{LeaseRow, Reservation, PoolRow, Query, Table, Backend, changed}

abbrev pub list_query : (Row : Type 0) → Query Row
list_query Row = record {
  Store = List Row;
  rows = λ s. s;
  first = find?;
  first-some = find?-some;
  first-none = find?-none;
}

abbrev pub list_table : Table
list_table = record {
  query = list_query LeaseRow;
  count_rows = count;
  update = λ q f s. map (changed q f) s;
  insert = λ l s. s ++ record { id = suc (length s); lease = l } ∷ [];
  next_id = λ s. suc (length s);
  count_rows_lem = λ q s. refl;
  rows-update = λ q f s. refl;
  rows-insert = λ l s. refl;
}

abbrev pub list_backend : Backend
list_backend = record {
  leases = list_table;
  reservations = list_query Reservation;
  pools = list_query PoolRow;
}
