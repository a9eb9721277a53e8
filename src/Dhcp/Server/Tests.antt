-- ===== src/Dhcp/Server/Tests.antt =====
-- The handlers at concrete requests, and the theorems at them.
use squawk.Prelude.{
  ◌==◌, Option, rstrip, drop_while, is_space, ◌≢◌, inl, arith, some, Text, ◌≡◌, [], ◌∷◌, codes,
  text_eq, refl, true, words, starts_with, strip, split,
}
use squawk.Jwt.{named_kid, IsConfigured, lookup_key}
use squawk.Dhcp.Samples.{
  home, settings, call, call_off, printer, empty_db, shared_db, reader, toy_jwt, two_keys,
}
use squawk.Dhcp.Address.{parse_ipv4}
use squawk.Dhcp.Auth.{extract_token, verify_token, check_scope, check_auth}
use squawk.Dhcp.Auth.Verified.{Verifies, check_auth-ok}
use squawk.Dhcp.Validation.{
  ends_alnum, is_label, accept_hostname, text, is_valid_mac, sanitize_hostname, is_hex, is_alnum,
  is_hostname,
}
use squawk.Dhcp.Database.{Db}
use squawk.Dhcp.Database.InMemory.{list_backend}
use squawk.Dhcp.Model.{details, is_in_range}
use squawk.Dhcp.Leases.{validate_requested_ip, create_lease, write_lease}
use squawk.Dhcp.Leases.Writes.{IsUnique}
use squawk.Dhcp.Messages.{dhcp_read, Body, ack, DhcpAck}
use squawk.Dhcp.Server.{requests, releases, sweeps, guarded, serve, serve_all, dhcp_request}
use squawk.Dhcp.Server.Guards.{AsksFor, serve-denied, dhcp_request-ack}
use squawk.Dhcp.Server.Run.{serve_all-IsUnique}

abbrev asks : Body
asks = record {
  mac_address = text printer;
  requested_ip = some (codes "192.168.1.101");
  hostname = text (codes " laser ");
}

sanitizes : sanitize_hostname (text (codes " laser ")) ≡ some (codes "laser")
unfolding sanitize_hostname accept_hostname is_hostname is_label ends_alnum is_alnum strip rstrip
    drop_while is_space split
sanitizes = refl

accepts_token : check_auth toy_jwt two_keys (codes "Bearer r") dhcp_read ≡ (200, some reader)
unfolding check_auth extract_token verify_token check_scope text_eq words starts_with
accepts_token = refl

check_auth-ok_example :
    (token : Text) × (extract_token (codes "Bearer r") ≡ some token)
    × (check_scope reader dhcp_read ≡ true)
    × ((kid : Option Text) × (key : Text) × (toy_jwt.header_kid token ≡ some kid)
        × Verifies toy_jwt token reader key
        × IsConfigured two_keys key
        × ((name : Text)
            → named_kid kid ≡ some name
            → lookup_key name two_keys.public_keys ≡ some key))
check_auth-ok_example =
    check_auth-ok toy_jwt two_keys (codes "Bearer r") dhcp_read reader accepts_token

release_is_no_sweep : releases (some asks) ≢ sweeps
release_is_no_sweep e = cc

serve-denied_example :
    (serve list_backend settings call_off (releases (some asks)) shared_db).1 ≡ shared_db
serve-denied_example =
    serve-denied list_backend settings call_off (releases (some asks)) shared_db release_is_no_sweep
      (inl refl)

one_row_each : IsUnique list_backend empty_db
one_row_each p m = omega arith

serve_all-IsUnique_example :
    IsUnique list_backend (
      serve_all list_backend settings ((call, requests (some asks)) ∷ (call, sweeps) ∷ []) empty_db)
serve_all-IsUnique_example =
    serve_all-IsUnique list_backend settings ((call, requests (some asks)) ∷ (call, sweeps) ∷ [])
      empty_db one_row_each

abbrev acked : DhcpAck
acked = record {
  assigned_ip = codes "192.168.1.101";
  subnet_mask = codes "255.255.255.0";
  gateway = some (codes "192.168.1.1");
  dns_servers = codes "8.8.8.8" ∷ codes "8.8.4.4" ∷ [];
  lease_time = 86400;
  renewal_time = 43200;
  rebinding_time = 75600;
}

abbrev after_request : Db list_backend
after_request =
    write_lease list_backend home 50 1 printer (codes "192.168.1.101") (some (codes "laser"))
      shared_db

acknowledges :
    dhcp_request list_backend settings call (some asks) shared_db ≡ (ack acked, after_request)
unfolding dhcp_request guarded check_auth extract_token verify_token check_scope text_eq words
    starts_with is_valid_mac is_hex sanitize_hostname accept_hostname is_hostname is_label
    ends_alnum is_alnum strip rstrip drop_while is_space split validate_requested_ip is_in_range
    parse_ipv4 create_lease write_lease details
acknowledges = refl

dhcp_request-ack_example :
    (call.feature_enabled ≡ true)
    × (((check_auth settings.jwt settings.keys call.authorization dhcp_read).0 == 200) ≡ true)
    × AsksFor list_backend settings call (some asks) acked after_request
dhcp_request-ack_example =
    dhcp_request-ack list_backend settings call (some asks) shared_db after_request acked
      acknowledges
