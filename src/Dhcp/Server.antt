-- ===== src/Dhcp/Server.antt =====
-- dhcp-server/bins/server.py: the HTTP handlers. What a handler reads from outside is an argument:
-- the feature flag, the clock, the drawn transaction id, the request. An exception that leaves a
-- handler is the framework's 500. `pool_id` is 1 throughout.
pub mod Guards
pub mod Run
mod Tests
use squawk.Prelude.{
  ◌||◌, ℕ, Bool, true, false, not, ◌&&◌, Option, none, some, List, [], ◌∷◌, ◌++◌, Text, codes,
  truthy, ◌==◌, if◌then◌else◌,
}
use squawk.Prelude.Int.{ℤ}
use squawk.Jwt.{Payload, Jwt, Keys}
use squawk.Dhcp.Auth.{check_auth}
use squawk.Dhcp.Validation.{Json, null, text, other, is_true, is_valid_mac, sanitize_hostname}
use squawk.Dhcp.Messages.{
  Body, Call, DhcpAck, DhcpOffer, Reply, Settings, ack, checked_hostname, config, crashed,
  dhcp_admin, dhcp_read, failure, jwt_error_response, lease, not_found, offer, reason,
  release_result, stats, unavailable,
}
use squawk.Dhcp.Database.{Backend, Db}
use squawk.Dhcp.Model.{
  Config, DhcpLease, Fault, Outcome, returns, raises, Rejection, invalid_ip, outside_pool,
  leased_elsewhere,
}
use squawk.Dhcp.Leases.{
  get_offer, validate_requested_ip, create_lease, release_lease, get_lease, get_pool_stats,
  expire_old_leases,
}

-- The text of a valid MAC address.
abbrev pub mac_text : Json → Text
mac_text (text s) = s
mac_text _ = []

-- One event of the server: a request to a route, or a round of `expire_leases_task`.
pub data Event : Type 0 where
  discovers requests releases : Option Body → Event
  configures : Json → Event
  shows : Text → Event
  lists checks sweeps : Event

module _ (b : Backend) (s : Settings) where
  abbrev pub Handler : Type 0
  Handler = Db b → Reply × Db b

  -- The head of every handler: the flag, then the token and its scope.
  unfoldable pub guarded : Call → Text → Handler → Handler
  unfolding jwt_error_response
  guarded c scope handler db =
      if not c.feature_enabled
      then (unavailable, db)
      else let code = (check_auth s.jwt s.keys c.authorization scope).0 in
        if not (code == 200) then (jwt_error_response s code, db) else handler db

  -- `if not mac` and `if not is_valid_mac(mac)`
  unfoldable pub with_mac : Json → Handler → Handler
  with_mac mac handler db =
      if not (is_true mac)
      then (failure 400 (codes "MAC address required"), db)
      else if not (is_valid_mac mac)
      then (failure 400 (codes "Invalid MAC address format"), db)
      else handler db

  offer_reply : Call → Outcome (Option Text) → Reply
  offer_reply c (raises f) = crashed f
  offer_reply c (returns none) = failure 503 (codes "No IP addresses available")
  offer_reply c (returns (some [])) = failure 503 (codes "No IP addresses available")
  offer_reply c (returns (some (d ∷ ip))) = offer (record {
    offered_ip = d ∷ ip;
    subnet_mask = codes "255.255.255.0";
    gateway = s.gateway;
    dns_servers = s.dns_servers;
    lease_time = s.leases.lease_time;
    server_id = s.gateway;
    transaction_id = c.transaction_id;
  })

  -- `dhcp_discover` from the body on
  discover_body : Call → Option Body → Handler
  discover_body c none db = (failure 400 (codes "Invalid request body"), db)
  discover_body c (some body) db =
      with_mac body.mac_address
        (λ db. elim (checked_hostname body.hostname) [
          | none ↦ (failure 400 (codes "Invalid hostname"), db)
          | some h ↦ (
            offer_reply c
                (get_offer b s.leases c.now 1 (mac_text body.mac_address) body.requested_ip db),
            db,
          )
        ])
        db

  -- `dhcp_discover`
  unfoldable pub dhcp_discover : Call → Option Body → Handler
  unfolding discover_body offer_reply
  dhcp_discover c body = guarded c dhcp_read (discover_body c body)

  abbrev ack_of : DhcpLease → DhcpAck
  ack_of l = record {
    assigned_ip = l.ip_address;
    subnet_mask = l.subnet_mask;
    gateway = l.gateway;
    dns_servers = l.dns_servers;
    lease_time = l.lease_time;
    renewal_time = l.renewal_time;
    rebinding_time = l.rebinding_time;
  }

  ack_reply : Outcome DhcpLease × Db b → Reply × Db b
  ack_reply (returns l, db) = (ack (ack_of l), db)
  ack_reply (raises f, db) = (crashed f, db)

  -- `dhcp_request` from the validation of the address on
  pub request_ip : Call → Text → Text → Option Text → Handler
  request_ip c mac ip hostname db = elim (validate_requested_ip b s.leases c.now 1 mac ip db) [
    | some r ↦ (failure 400 (codes "Request rejected: " ++ reason r), db)
    | none ↦ ack_reply (create_lease b s.leases c.now 1 mac ip hostname db)
  ]

  -- `not requested_ip`
  abbrev no_ip : Option Text → Bool
  no_ip none = true
  no_ip (some ip) = not (truthy ip)

  abbrev ip_text : Option Text → Text
  ip_text none = []
  ip_text (some ip) = ip

  -- `dhcp_request` from the body on
  request_body : Call → Option Body → Handler
  request_body c none db = (failure 400 (codes "Invalid request body"), db)
  request_body c (some body) db =
      if not (is_true body.mac_address) || no_ip body.requested_ip
      then (failure 400 (codes "MAC address and requested IP required"), db)
      else if not (is_valid_mac body.mac_address)
      then (failure 400 (codes "Invalid MAC address format"), db)
      else (elim (checked_hostname body.hostname) [
        | none ↦ (failure 400 (codes "Invalid hostname"), db)
        | some h ↦ request_ip c (mac_text body.mac_address) (ip_text body.requested_ip) h db
      ])

  -- `dhcp_request`
  unfoldable pub dhcp_request : Call → Option Body → Handler
  unfolding request_body request_ip ack_reply
  dhcp_request c body = guarded c dhcp_read (request_body c body)

  release_reply : Bool × Db b → Reply × Db b
  release_reply (done, db) = (release_result done, db)

  -- `dhcp_release` from the body on
  release_body : Option Body → Handler
  release_body none db = (failure 400 (codes "Invalid request body"), db)
  release_body (some body) db =
      with_mac body.mac_address
        (λ db. release_reply (release_lease b 1 (mac_text body.mac_address) db)) db

  -- `dhcp_release`
  unfoldable pub dhcp_release : Call → Option Body → Handler
  unfolding release_body release_reply
  dhcp_release c body = guarded c dhcp_read (release_body body)

  found_reply : (DhcpLease → Reply) → Option DhcpLease × Db b → Reply × Db b
  found_reply shown (none, db) = (not_found, db)
  found_reply shown (some l, db) = (shown l, db)

  -- `dhcp_config`, with the `mac` of the query string
  unfoldable pub dhcp_config : Call → Json → Handler
  unfolding found_reply
  dhcp_config c mac =
      guarded c dhcp_read
        (with_mac mac λ db. found_reply config (get_lease b c.now 1 (mac_text mac) db))

  -- `get_lease`, with the `mac` of the path
  unfoldable pub show_lease : Call → Text → Handler
  unfolding found_reply
  show_lease c mac = guarded c dhcp_read λ db.
      if not (is_valid_mac (text mac))
      then (failure 400 (codes "Invalid MAC address format"), db)
      else found_reply lease (get_lease b c.now 1 mac db)

  stats_reply : Outcome (ℕ × ℤ × ℤ) → Reply
  stats_reply (returns n) = stats n
  stats_reply (raises f) = crashed f

  -- `list_leases`
  unfoldable pub list_leases : Call → Handler
  unfolding stats_reply
  list_leases c =
      guarded c dhcp_admin λ db. (stats_reply (get_pool_stats b s.leases c.now 1 db), db)

  -- `health`
  unfoldable pub health : Call → Handler
  unfolding stats_reply
  health c db = (stats_reply (get_pool_stats b s.leases c.now 1 db), db)

  -- A round of `expire_leases_task`
  abbrev pub expire_leases_task : Call → Db b → Db b
  expire_leases_task c db = (expire_old_leases b c.now 1 db).1

  -- The route of an event; the sweep has no reply, and reports the number of leases.
  unfoldable pub serve : Call → Event → Db b → Option Reply × Db b
  serve c (discovers body) db = let (r, db') = dhcp_discover c body db in (some r, db')
  serve c (requests body) db = let (r, db') = dhcp_request c body db in (some r, db')
  serve c (releases body) db = let (r, db') = dhcp_release c body db in (some r, db')
  serve c (configures mac) db = let (r, db') = dhcp_config c mac db in (some r, db')
  serve c (shows mac) db = let (r, db') = show_lease c mac db in (some r, db')
  serve c lists db = let (r, db') = list_leases c db in (some r, db')
  serve c checks db = let (r, db') = health c db in (some r, db')
  serve c sweeps db = (none, expire_leases_task c db)

  unfoldable pub serve_all : List (Call × Event) → Db b → Db b
  serve_all [] db = db
  serve_all ((c, e) ∷ events) db = serve_all events (serve c e db).1
