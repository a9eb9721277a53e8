-- ===== src/Dhcp/Samples.antt =====
-- Sample data: the configuration of dhcp-server/app/config.py by default, but with three addresses,
-- and a table with two leases of one address.
use squawk.Prelude.{some, none, [], ◌∷◌, Text, codes, ℕ, true, false}
use squawk.Jwt.{Jwt, Keys, Payload, payload, failed, invalid_signature}
use squawk.Dhcp.Database.{LeaseRow, Lease, PoolRow, Db, active}
use squawk.Dhcp.Database.InMemory.{list_backend}
use squawk.Dhcp.Model.{Config}
use squawk.Dhcp.Messages.{Settings, Call}

abbrev pub home : Config
home = record {
  pool_start = codes "192.168.1.100";
  pool_end = codes "192.168.1.102";
  lease_time = 86400;
}

abbrev pub pool_one : PoolRow
pool_one = record {
  pool = record {
    id = 1;
    gateway = some (codes "192.168.1.1");
    dns_servers = none;
    lease_duration = 86400;
  };
  subnet_mask = none;
}

abbrev pub lease_of : Text → Text → ℕ → Lease
lease_of mac ip end = record {
  pool_id = 1;
  mac_address = mac;
  ip_address = ip;
  hostname = none;
  lease_start = 0;
  lease_end = end;
  status = active;
}

abbrev pub laptop : Text
laptop = codes "aa:aa:aa:aa:aa:aa"

abbrev pub phone : Text
phone = codes "bb:bb:bb:bb:bb:bb"

abbrev pub printer : Text
printer = codes "cc:cc:cc:cc:cc:cc"

abbrev pub empty_db : Db list_backend
empty_db = record { leases = []; reservations = []; pools = pool_one ∷ [] }

-- The laptop's lease has run out at time 50, the phone's has not.
abbrev pub old_row : LeaseRow
old_row = record { id = 1; lease = lease_of laptop (codes "192.168.1.100") 10 }

abbrev pub phone_row : LeaseRow
phone_row = record { id = 2; lease = lease_of phone (codes "192.168.1.100") 100 }

abbrev pub shared_db : Db list_backend
shared_db = record empty_db { leases = old_row ∷ phone_row ∷ [] }

abbrev pub shut : Config
shut = record {
  pool_start = codes "192.168.1.100";
  pool_end = codes "192.168.1.100";
  lease_time = 60;
}

-- Tokens: `r` is signed with the new key, and anything else with none.
abbrev pub reader : Payload
reader = record {
  sub = some (codes "u1");
  tenant = some (codes "t1");
  scope = some (codes "dns:read dhcp:read");
  role = none;
  team_roles = [];
  dns_domains = none;
}

abbrev pub toy_jwt : Jwt
toy_jwt = record {
  header_kid = λ token. some none;
  decode = λ token key. elim key [
    | c ∷ d ∷ k ↦ payload reader
    | [] ↦ failed invalid_signature
    | c ∷ [] ↦ failed invalid_signature
  ];
}

abbrev pub two_keys : Keys
two_keys = record {
  public_key = none;
  public_keys = (codes "old", codes "O") ∷ (codes "new", codes "NN") ∷ [];
}

abbrev pub no_keys : Keys
no_keys = record { public_key = none; public_keys = [] }

abbrev pub settings : Settings
settings = record {
  jwt = toy_jwt;
  keys = two_keys;
  jwt_secret_key = true;
  leases = home;
  gateway = codes "192.168.1.1";
  dns_servers = codes "8.8.8.8" ∷ [];
}

abbrev pub call : Call
call = record {
  feature_enabled = true;
  now = 50;
  transaction_id = codes "1";
  authorization = codes "Bearer r";
}

abbrev pub call_off : Call
call_off = record call { feature_enabled = false }
