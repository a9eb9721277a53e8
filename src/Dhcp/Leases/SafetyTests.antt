-- ===== src/Dhcp/Leases/SafetyTests.antt =====
-- The theorems on writes, releases and sweeps of the lease table, at concrete tables.
use squawk.Prelude.{
  ◌==◌, sym, ltb, subst, inl, inr, arith, some, Text, none, ◌≡◌, codes, text_eq, refl, In, true,
  false,
}
use squawk.Dhcp.Samples.{home, phone, printer, empty_db, shared_db, old_row, phone_row, pool_one}
use squawk.Dhcp.Address.{parse_ipv4}
use squawk.Dhcp.Database.{LeaseRow, Db, released}
use squawk.Dhcp.Database.InMemory.{list_backend}
use squawk.Dhcp.Model.{
  returns, DhcpLease, is_in_range, is_expired, details, active_elsewhere, of_client, active_at,
}
use squawk.Dhcp.Leases.{
  new_lease, write_lease, create_lease, release_lease, get_lease, expire_old_leases,
  validate_requested_ip,
}
use squawk.Dhcp.Leases.Ranges.{IsInPool}
use squawk.Dhcp.Leases.Writes.{table}
use squawk.Dhcp.Leases.Sweep.{swept}
use squawk.Dhcp.Leases.Safety.{validate_after_sweep, leased_twice}
use squawk.Dhcp.Leases.Lifecycle.{get_lease-create_lease}

abbrev first_ip : Text
first_ip = codes "192.168.1.100"

-- The client of the stale lease may take its address only while nobody else has it.
accepted_after_sweep :
    validate_requested_ip list_backend home 50 1 phone first_ip (swept list_backend 50 1 shared_db)
    ≡ none
unfolding validate_requested_ip expire_old_leases is_in_range parse_ipv4 text_eq
accepted_after_sweep = refl

validate_after_sweep_example :
    IsInPool home first_ip
    × ((r : LeaseRow)
        → In r (table list_backend (swept list_backend 50 1 shared_db))
        → active_elsewhere 1 phone first_ip r ≡ false)
validate_after_sweep_example =
    validate_after_sweep list_backend home 50 1 phone first_ip shared_db accepted_after_sweep

first_conflict :
    list_backend.leases.first (active_elsewhere 1 printer first_ip) shared_db.leases ≡ some old_row
unfolding text_eq
first_conflict = refl

old_row_expired : is_expired 50 old_row.lease ≡ true
unfolding is_expired
old_row_expired = refl

first_in_range : is_in_range home first_ip ≡ true
unfolding is_in_range parse_ipv4
first_in_range = refl

phone_conflicts : active_elsewhere 1 printer first_ip phone_row ≡ true
unfolding text_eq
phone_conflicts = refl

abbrev both_db : Db list_backend
both_db = write_lease list_backend home 50 1 printer first_ip none shared_db

leased_twice_example :
    (validate_requested_ip list_backend home 50 1 printer first_ip shared_db ≡ none)
    × In phone_row (table list_backend both_db)
    × ((r : LeaseRow) × In r (table list_backend both_db)
        × (of_client 1 printer r ≡ true)
        × (active_at 1 first_ip r ≡ true))
leased_twice_example =
    leased_twice list_backend home 50 1 printer first_ip none shared_db old_row phone_row
      first_conflict old_row_expired first_in_range (inr (inl refl)) phone_conflicts

abbrev granted : DhcpLease
granted = details (new_lease list_backend home 50 1 printer first_ip none) pool_one

abbrev after_grant : Db list_backend
after_grant = write_lease list_backend home 50 1 printer first_ip none empty_db

grants :
    create_lease list_backend home 50 1 printer first_ip none empty_db
    ≡ (returns granted, after_grant)
unfolding create_lease write_lease
grants = refl

get_lease-create_lease_example :
    get_lease list_backend 100 1 printer after_grant ≡ (some granted, after_grant)
get_lease-create_lease_example =
    get_lease-create_lease list_backend home 50 1 printer first_ip none empty_db after_grant granted
      100 grants (omega arith)

abbrev after_release : Db list_backend
after_release = (release_lease list_backend 1 printer after_grant).1

releases_it : release_lease list_backend 1 printer after_grant ≡ (true, after_release)
unfolding release_lease write_lease text_eq
releases_it = refl

phone_stays : In phone_row (table list_backend (swept list_backend 50 1 shared_db))
unfolding expire_old_leases text_eq
phone_stays = inr (inl refl)

abbrev marked_row : LeaseRow
marked_row = record {
  id = 1;
  lease = record (new_lease list_backend home 50 1 printer first_ip none) { status = released };
}

is_marked : In marked_row (table list_backend after_release)
unfolding release_lease write_lease text_eq
is_marked = inl refl

is_printers : of_client 1 printer marked_row ≡ true
unfolding text_eq
is_printers = refl

first_pool : list_backend.pools.first (λ p. p.id == 1) after_grant.pools ≡ some pool_one
unfolding write_lease
first_pool = refl

all_fresh :
    (r : LeaseRow)
    → In r (table list_backend after_grant)
    → of_client 1 printer r ≡ true
    → is_expired 100 r.lease ≡ false
unfolding write_lease is_expired
all_fresh r (inl e) o = subst (λ (x : LeaseRow). ltb x.lease_end 100 ≡ false) (sym e) refl
all_fresh r (inr none_left) o = elim none_left [ ]
