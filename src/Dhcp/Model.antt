-- ===== src/Dhcp/Model.antt =====
-- dhcp-server/app/config.py and app/models.py, with the results of the methods of app/db.py and the
-- conditions by which they query and compare leases.
use squawk.Prelude.{
  ℕ, ◌*◌, ◌/◌, Bool, false, not, ◌&&◌, Option, none, some, List, [], ◌∷◌, Text, text_eq, codes, ltb,
  leb, ◌==◌,
}
use squawk.Dhcp.Address.{parse_ipv4}
use squawk.Dhcp.Database.{Lease, LeaseRow, Reservation, PoolRow, active}

-- app/config.py
pub record Config : Type 0 where
  pub pool_start : Text
  pub pool_end : Text
  pub lease_time : ℕ

-- app/models.py
pub record DhcpLease : Type 0 where
  pub mac_address : Text
  pub ip_address : Text
  pub hostname : Option Text
  pub lease_start : ℕ
  pub lease_end : ℕ
  pub status : Text
  pub subnet_mask : Text
  pub gateway : Option Text
  pub dns_servers : List Text
  pub lease_time : ℕ
  pub renewal_time : ℕ
  pub rebinding_time : ℕ

-- The `ValueError`s that leave a method: a bound of the pool that is no address, and a pool that
-- is not in its table.
pub data Fault : Type 0 where
  bad_bound pool_not_found : Fault

pub data Outcome (A : Type 0) : Type 0 where
  returns : A → Outcome A
  raises : Fault → Outcome A

-- The reasons for which `validate_requested_ip` rejects.
pub data Rejection : Type 0 where
  invalid_ip outside_pool leased_elsewhere : Rejection

abbrev pub microseconds : ℕ
microseconds = 1000000

-- `_is_expired`
unfoldable pub is_expired : ℕ → Lease → Bool
is_expired now lease = ltb lease.lease_end now

-- The queries of the module on `dhcp_lease`.
abbrev pub of_client : ℕ → Text → LeaseRow → Bool
of_client pool mac r = text_eq r.mac_address mac && r.pool_id == pool

abbrev pub active_of_client : ℕ → Text → LeaseRow → Bool
active_of_client pool mac r =
    text_eq r.mac_address mac && r.pool_id == pool && text_eq r.status active

abbrev pub active_at : ℕ → Text → LeaseRow → Bool
active_at pool ip r = text_eq r.ip_address ip && r.pool_id == pool && text_eq r.status active

abbrev pub active_elsewhere : ℕ → Text → Text → LeaseRow → Bool
active_elsewhere pool mac ip r =
    text_eq r.ip_address ip
    && r.pool_id == pool
    && not (text_eq r.mac_address mac)
    && text_eq r.status active

abbrev pub stale : ℕ → ℕ → LeaseRow → Bool
stale pool now r = r.pool_id == pool && text_eq r.status active && ltb r.lease_end now

abbrev pub live : ℕ → ℕ → LeaseRow → Bool
live pool now r = r.pool_id == pool && text_eq r.status active && ltb now r.lease_end

abbrev pub reserved_for : ℕ → Text → Reservation → Bool
reserved_for pool mac r = text_eq r.mac_address mac && r.pool_id == pool

-- `pool.dns_servers or [...]`, `pool.subnet_mask or "255.255.255.0"`
abbrev pub or_list : Option (List Text) → List Text → List Text
or_list none d = d
or_list (some []) d = d
or_list (some (x ∷ xs)) d = x ∷ xs

abbrev pub or_text : Option Text → Text → Text
or_text none d = d
or_text (some []) d = d
or_text (some (c ∷ s)) d = c ∷ s

-- The `DHCPLease` that `create_lease` and `get_lease` build from a lease and its pool;
-- `int(d * 0.875)` is `d * 7 / 8`, exactly while `d` is below 2 ^ 50.
unfoldable pub details : Lease → PoolRow → DhcpLease
details l pool = record {
  mac_address = l.mac_address;
  ip_address = l.ip_address;
  hostname = l.hostname;
  lease_start = l.lease_start;
  lease_end = l.lease_end;
  status = l.status;
  subnet_mask = or_text pool.subnet_mask (codes "255.255.255.0");
  gateway = pool.gateway;
  dns_servers = or_list pool.dns_servers (codes "8.8.8.8" ∷ codes "8.8.4.4" ∷ []);
  lease_time = pool.lease_duration;
  renewal_time = pool.lease_duration / 2;
  rebinding_time = pool.lease_duration * 7 / 8;
}

-- `_is_in_range`: the texts are read in this order, and any `ValueError` gives `False`
unfoldable pub is_in_range : Config → Text → Bool
is_in_range c ip = elim (parse_ipv4 ip) [
  | none ↦ false
  | some n ↦ elim (parse_ipv4 c.pool_start) [
    | none ↦ false
    | some lo ↦ elim (parse_ipv4 c.pool_end) [ none ↦ false | some hi ↦ leb lo n && leb n hi ]
  ]
]
