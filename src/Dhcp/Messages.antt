-- ===== src/Dhcp/Messages.antt =====
-- dhcp-server/bins/server.py: what the handlers read of a request and what they reply.
use squawk.Prelude.{ℕ, Bool, not, Option, none, some, List, Text, codes, ◌==◌, if◌then◌else◌}
use squawk.Prelude.Int.{ℤ}
use squawk.Jwt.{Jwt, Keys}
use squawk.Dhcp.Validation.{Json, null, text, other, sanitize_hostname}
use squawk.Dhcp.Model.{
  Config, DhcpLease, Fault, Rejection, invalid_ip, outside_pool, leased_elsewhere,
}

-- The JSON object of a request, which has a key: an empty or a missing body is no `Body`. A missing
-- `requested_ip` is `none`.
pub record Body : Type 0 where
  pub mac_address : Json
  pub requested_ip : Option Text
  pub hostname : Json

pub record Settings : Type 0 where
  pub jwt : Jwt
  pub keys : Keys
  pub jwt_secret_key : Bool
  pub leases : Config
  pub gateway : Text
  pub dns_servers : List Text

-- What a handler sees of one call, apart from its own input.
pub record Call : Type 0 where
  pub feature_enabled : Bool
  pub now : ℕ
  pub transaction_id : Text
  pub authorization : Text

pub record DhcpOffer : Type 0 where
  pub offered_ip : Text
  pub subnet_mask : Text
  pub gateway : Text
  pub dns_servers : List Text
  pub lease_time : ℕ
  pub server_id : Text
  pub transaction_id : Text

pub record DhcpAck : Type 0 where
  pub assigned_ip : Text
  pub subnet_mask : Text
  pub gateway : Option Text
  pub dns_servers : List Text
  pub lease_time : ℕ
  pub renewal_time : ℕ
  pub rebinding_time : ℕ

-- The replies; `failure` is `{"status": "error", "message": …}` with its code, `config` and `lease`
-- show fields of the lease, `crashed` is the 500 of an exception.
pub data Reply : Type 0 where
  failure : ℕ → Text → Reply
  offer : DhcpOffer → Reply
  ack : DhcpAck → Reply
  release_result : Bool → Reply
  config : DhcpLease → Reply
  lease : DhcpLease → Reply
  not_found : Reply
  stats : ℕ × ℤ × ℤ → Reply
  crashed : Fault → Reply

abbrev pub unavailable : Reply
unavailable = failure 503 (codes "Service unavailable")

-- `_jwt_error_response`
unfoldable pub jwt_error_response : Settings → ℕ → Reply
jwt_error_response s code =
    if not s.jwt_secret_key
    then failure 500 (codes "Server misconfigured")
    else failure code
        (if code == 403 then codes "Unauthorized" else codes "Invalid or expired token")

abbrev pub reason : Rejection → Text
reason invalid_ip = codes "invalid IP address"
reason outside_pool = codes "requested IP is outside the pool range"
reason leased_elsewhere = codes "requested IP is already leased to another client"

abbrev pub dhcp_read : Text
dhcp_read = codes "dhcp:read"

abbrev pub dhcp_admin : Text
dhcp_admin = codes "dhcp:admin"

-- `if hostname is not None: …`: the host name to store, or `none` if it is rejected
abbrev pub checked_hostname : Json → Option (Option Text)
checked_hostname null = some none
checked_hostname (text s) = elim (sanitize_hostname (text s)) [
  | none ↦ none
  | some h ↦ some (some h)
]
checked_hostname (other v) = elim (sanitize_hostname (other v)) [
  | none ↦ none
  | some h ↦ some (some h)
]
