-- ===== src/Dhcp/Server/Guards.antt =====
-- Who may change a lease, and what an acknowledged request has passed.
use squawk.Prelude.{
  none, some, ◌||◌, not, Bool-cases, ◌∙◌, sym, subst, Option-cases, true, Option, ◌==◌, inr, ◌⊎◌,
  inl, false, arith, ◌≡◌, Text, ◌≢◌, refl, ap,
}
use squawk.Dhcp.Auth.{check_auth}
use squawk.Dhcp.Validation.{Json, null, text, other, is_true, is_valid_mac}
use squawk.Dhcp.Database.{Backend, Db}
use squawk.Dhcp.Model.{Outcome, DhcpLease, returns, raises}
use squawk.Dhcp.Leases.{create_lease, get_lease, validate_requested_ip}
use squawk.Dhcp.Leases.Lifecycle.{get_lease-create_lease, create_lease-ip}
use squawk.Dhcp.Leases.Ranges.{IsInPool}
use squawk.Dhcp.Leases.Safety.{validate_requested_ip-none}
use squawk.Dhcp.Messages.{Body, Settings, Call, Reply, ack, DhcpAck, dhcp_read, checked_hostname}
use squawk.Dhcp.Server.{
  no_ip, ip_text, Event, discovers, requests, releases, configures, shows, lists, checks, sweeps,
  guarded, serve, dhcp_discover, dhcp_request, dhcp_release, dhcp_config, show_lease, list_leases,
  health, request_ip, request_body, mac_text, ack_reply,
}

valid_mac-text : (v : Json) → is_valid_mac v ≡ true → v ≡ text (mac_text v)
unfolding is_valid_mac
valid_mac-text null h = cc
valid_mac-text (text m) h = refl
valid_mac-text (other v) h = cc

module _ (b : Backend) (s : Settings) (c : Call) where
  -- The service is switched off, or the request's token does not pass for the scope.
  abbrev pub IsDenied : Text → Type 0
  IsDenied scope =
      (c.feature_enabled ≡ false)
      ⊎ (((check_auth s.jwt s.keys c.authorization scope).0 == 200) ≡ false)

  guarded-denied :
      (scope : Text) (h : Db b → Reply × Db b) (db : Db b)
      → IsDenied scope
      → (guarded b s c scope h db).1 ≡ db
  unfolding guarded
  guarded-denied scope h db (inl off) = ground arith
  guarded-denied scope h db (inr code) = ground arith

  -- Without the service's flag or a token for `dhcp:read` no request changes the database.
  pub serve-denied :
      (e : Event) (db : Db b) → e ≢ sweeps → IsDenied dhcp_read → (serve b s c e db).1 ≡ db
  unfolding serve
  serve-denied (discovers body) db ne d = unfold dhcp_discover in guarded-denied dhcp_read _ db d
  serve-denied (requests body) db ne d = unfold dhcp_request in guarded-denied dhcp_read _ db d
  serve-denied (releases body) db ne d = unfold dhcp_release in guarded-denied dhcp_read _ db d
  serve-denied (configures mac) db ne d = unfold dhcp_config in guarded-denied dhcp_read _ db d
  serve-denied (shows mac) db ne d = unfold show_lease in guarded-denied dhcp_read _ db d
  serve-denied lists db ne d = unfold list_leases guarded in ground arith
  serve-denied checks db ne d = unfold health in refl
  serve-denied sweeps db ne d = absurd (ne refl)

  guarded-passed :
      (scope : Text) (h : Db b → Reply × Db b) (db db' : Db b) (a : DhcpAck)
      → guarded b s c scope h db ≡ (ack a, db')
      → (h db ≡ (ack a, db'))
        × (((check_auth s.jwt s.keys c.authorization scope).0 == 200) ≡ true)
        × (c.feature_enabled ≡ true)
  unfolding guarded
  guarded-passed scope h db db' a e = (ground arith, ground arith, ground arith)

  ack_reply-inv :
      (r : Outcome DhcpLease × Db b) (db' : Db b) (a : DhcpAck)
      → ack_reply b s r ≡ (ack a, db')
      → (l : DhcpLease) × (r ≡ (returns l, db')) × (l.ip_address ≡ a.assigned_ip)
  unfolding ack_reply
  ack_reply-inv (returns l, db) db' a h = (l, ground arith, ground arith)
  ack_reply-inv (raises f, db) db' a h = ground arith

  -- What an acknowledged request to store `ip` for `mac` has passed and left behind.
  abbrev pub IsGranted : Text → DhcpAck → Db b → Type 0
  IsGranted mac a db' =
      IsInPool s.leases a.assigned_ip
      × ((l : DhcpLease) × (get_lease b c.now 1 mac db' ≡ (some l, db'))
          × (l.ip_address ≡ a.assigned_ip))

  acked-lease :
      (mac ip : Text) (hostname : Option Text) (db db' : Db b) (a : DhcpAck)
      → ack_reply b s (create_lease b s.leases c.now 1 mac ip hostname db) ≡ (ack a, db')
      → (a.assigned_ip ≡ ip)
        × ((l : DhcpLease) × (get_lease b c.now 1 mac db' ≡ (some l, db'))
            × (l.ip_address ≡ a.assigned_ip))
  acked-lease mac ip hostname db db' a h =
      let (l, e, same) =
        ack_reply-inv (create_lease b s.leases c.now 1 mac ip hostname db) db' a h in
      let at_ip = create_lease-ip b s.leases c.now 1 mac ip hostname db db' l e in
      (
        sym same ∙ at_ip,
        (
          l,
          get_lease-create_lease b s.leases c.now 1 mac ip hostname db db' l c.now e (omega arith),
          same,
        ),
      )

  asked_ip : (ip : Option Text) → no_ip b s ip ≡ false → ip ≡ some (ip_text b s ip)
  asked_ip none h = cc
  asked_ip (some ip) h = refl

  request_ip-ack :
      (mac ip : Text) (hostname : Option Text) (db db' : Db b) (a : DhcpAck)
      → request_ip b s c mac ip hostname db ≡ (ack a, db')
      → (a.assigned_ip ≡ ip) × IsGranted mac a db'
  unfolding request_ip
  request_ip-ack mac ip hostname db db' a h =
      elim (Option-cases (validate_requested_ip b s.leases c.now 1 mac ip db)) [
        | inr (r, e) ↦ ground arith
        | inl e ↦
            let (same, found) = acked-lease mac ip hostname db db' a (ground arith) in
            let range = (validate_requested_ip-none b s.leases c.now 1 mac ip db e).0 in
            (same, (subst (IsInPool s.leases) (sym same) range, found))
      ]

  -- The request names a valid MAC address and the assigned address, and these were granted.
  abbrev pub AsksFor : Option Body → DhcpAck → Db b → Type 0
  AsksFor body a db' =
      (asked : Body) × (mac : Text) × (body ≡ some asked)
      × (asked.mac_address ≡ text mac)
      × (is_valid_mac (text mac) ≡ true)
      × (asked.requested_ip ≡ some a.assigned_ip)
      × IsGranted mac a db'

  request_body-ack :
      (body : Option Body) (db db' : Db b) (a : DhcpAck)
      → request_body b s c body db ≡ (ack a, db')
      → AsksFor body a db'
  unfolding request_body
  request_body-ack none db db' a h = ground arith
  request_body-ack (some body) db db' a h =
      elim (Bool-cases (not (is_true body.mac_address) || no_ip b s body.requested_ip)) [
        | inl e ↦ ground arith
        | inr e ↦ elim (Bool-cases (is_valid_mac body.mac_address)) [
          | inr bad ↦ ground arith
          | inl ok ↦ elim (Option-cases (checked_hostname body.hostname)) [
            | inl eh ↦ ground arith
            | inr (name, eh) ↦
                let is_text = valid_mac-text body.mac_address ok in
                let (same, granted) =
                  request_ip-ack (mac_text body.mac_address) (ip_text b s body.requested_ip) name db
                    db' a (ground arith) in
                (
                  body,
                  mac_text body.mac_address,
                  refl,
                  is_text,
                  subst (λ v. is_valid_mac v ≡ true) is_text ok,
                  asked_ip body.requested_ip (ground arith) ∙ ap some (sym same),
                  granted,
                )
          ]
        ]
      ]

  -- A request that is acknowledged came while the service was on, with a token for `dhcp:read`, for
  -- a valid MAC address and the address that is assigned; this address lies in the pool, and right
  -- after the request `get_lease` returns it to the client of that MAC address.
  pub dhcp_request-ack :
      (body : Option Body) (db db' : Db b) (a : DhcpAck)
      → dhcp_request b s c body db ≡ (ack a, db')
      → (c.feature_enabled ≡ true)
        × (((check_auth s.jwt s.keys c.authorization dhcp_read).0 == 200) ≡ true)
        × AsksFor body a db'
  unfolding dhcp_request
  dhcp_request-ack body db db' a h =
      let (passed, code, on) = guarded-passed dhcp_read (request_body b s c body) db db' a h in
      (on, code, request_body-ack body db db' a passed)
