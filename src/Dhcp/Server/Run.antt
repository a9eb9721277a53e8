-- ===== src/Dhcp/Server/Run.antt =====
-- The rows of a client over a history of requests and sweeps.
use squawk.Prelude.{
  ◌==◌, ◌||◌, none, some, not, Bool-cases, ◌≤◌, List, some, count, [], ◌∷◌, Bool-cases, ◌≡◌, arith,
  sym, subst, inr, inl, Option-cases, Option, Text, ℕ, refl,
}
use squawk.Dhcp.Validation.{Json}
use squawk.Dhcp.Database.{Backend, Db, expired}
use squawk.Dhcp.Model.{Config, DhcpLease, returns, raises, Outcome, of_client, is_expired}
use squawk.Dhcp.Leases.{
  of_id, with_id, with_status, create_lease, release_lease, get_lease, validate_requested_ip,
}
use squawk.Dhcp.Leases.Writes.{IsUnique, write_lease-IsUnique, count-update}
use squawk.Dhcp.Leases.Lifecycle.{state_create_lease}
use squawk.Dhcp.Leases.Releases.{release_lease-IsUnique}
use squawk.Dhcp.Leases.Sweep.{expire_old_leases-IsUnique}
use squawk.Dhcp.Validation.{is_true, is_valid_mac, text}
use squawk.Dhcp.Auth.{check_auth}
use squawk.Dhcp.Messages.{config, lease, dhcp_read, Body, Settings, Call, Reply, checked_hostname}
use squawk.Dhcp.Server.{
  no_ip, ip_text, mac_text, Event, discovers, requests, releases, configures, shows, lists, checks,
  sweeps, guarded, with_mac, serve, serve_all, dhcp_discover, discover_body, dhcp_request,
  dhcp_release, dhcp_config, show_lease, list_leases, health, request_ip, request_body,
  release_body, release_reply, ack_reply, found_reply,
}

-- The methods of the database.
module _ (b : Backend) where
  create_lease-IsUnique :
      (c : Config) (now pool : ℕ) (mac ip : Text) (hostname : Option Text) (db : Db b)
      → IsUnique b db
      → IsUnique b (create_lease b c now pool mac ip hostname db).1
  create_lease-IsUnique c now pool mac ip hostname db u =
      subst (IsUnique b) (sym (state_create_lease b c now pool mac ip hostname db))
        (write_lease-IsUnique b c now pool mac ip hostname db u)

  released-IsUnique :
      (pool : ℕ) (mac : Text) (db : Db b)
      → IsUnique b db
      → IsUnique b (release_lease b pool mac db).1
  unfolding release_lease
  released-IsUnique pool mac db u =
      elim (Option-cases (b.leases.first (of_client pool mac) db.leases)) [
        | inl e ↦
            let same : (release_lease b pool mac db).1 ≡ db = ground arith in
            subst (IsUnique b) (sym same) u
        | inr (old, e) ↦
            release_lease-IsUnique b pool mac db (release_lease b pool mac db).1 (ground arith) u
      ]

  get_lease-IsUnique :
      (now pool : ℕ) (mac : Text) (db : Db b)
      → IsUnique b db
      → IsUnique b (get_lease b now pool mac db).1
  unfolding get_lease
  get_lease-IsUnique now pool mac db u =
      elim (Option-cases (b.leases.first (of_client pool mac) db.leases)) [
        | inl e ↦ kept (ground arith)
        | inr (r, e) ↦ elim (Bool-cases (is_expired now r.lease)) [
          | inl x ↦ λ p m.
              let marked : (get_lease b now pool mac db).1.leases
                  ≡ b.leases.update (with_id b r.id) (with_status b expired) db.leases =
                ground arith in
              subst (λ rows. count (of_client p m) (b.leases.rows rows) ≤ 1) (sym marked)
                (rw
                  (count-update b (with_id b r.id) (with_status b expired) db.leases
                    (λ l. (refl, refl)) p m)
                  (u p m))
          | inr x ↦ elim (Option-cases (b.pools.first (of_id b pool) db.pools)) [
            | inl en ↦ kept (ground arith)
            | inr (found, es) ↦ kept (ground arith)
          ]
        ]
      ]
    where
      kept : (get_lease b now pool mac db).1 ≡ db → IsUnique b (get_lease b now pool mac db).1
      kept same = subst (IsUnique b) (sym same) u

module _ (b : Backend) (s : Settings) where
  -- A handler whose parts keep the rows unique keeps them unique.
  abbrev Keeps : (Db b → Reply × Db b) → Type 0
  Keeps h = (db : Db b) → IsUnique b db → IsUnique b (h db).1

  settle : (x : Reply × Db b) (db : Db b) → x.1 ≡ db → IsUnique b db → IsUnique b x.1
  settle x db same u = subst (IsUnique b) (sym same) u

  guarded-Keeps :
      (c : Call) (scope : Text) (h : Db b → Reply × Db b) → Keeps h → Keeps (guarded b s c scope h)
  unfolding guarded
  guarded-Keeps c scope h k db u = elim (Bool-cases c.feature_enabled) [
    | inr off ↦ settle (guarded b s c scope h db) db (ground arith) u
    | inl on ↦ elim (Bool-cases ((check_auth s.jwt s.keys c.authorization scope).0 == 200)) [
      | inr e ↦ settle (guarded b s c scope h db) db (ground arith) u
      | inl e ↦ settle (guarded b s c scope h db) (h db).1 (ground arith) (k db u)
    ]
  ]

  with_mac-Keeps : (mac : Json) (h : Db b → Reply × Db b) → Keeps h → Keeps (with_mac b s mac h)
  unfolding with_mac
  with_mac-Keeps mac h k db u = elim (Bool-cases (is_true mac)) [
    | inr e ↦ settle (with_mac b s mac h db) db (ground arith) u
    | inl e ↦ elim (Bool-cases (is_valid_mac mac)) [
      | inr e' ↦ settle (with_mac b s mac h db) db (ground arith) u
      | inl e' ↦ settle (with_mac b s mac h db) (h db).1 (ground arith) (k db u)
    ]
  ]

  discover_body-Keeps : (c : Call) (body : Option Body) → Keeps (discover_body b s c body)
  unfolding discover_body with_mac
  discover_body-Keeps c none db u = u
  discover_body-Keeps c (some body) db u =
      settle (discover_body b s c (some body) db) db (ground arith) u

  ack_reply-IsUnique :
      (r : Outcome DhcpLease × Db b) → IsUnique b r.1 → IsUnique b (ack_reply b s r).1
  unfolding ack_reply
  ack_reply-IsUnique (returns l, db) u = u
  ack_reply-IsUnique (raises f, db) u = u

  request_ip-Keeps :
      (c : Call) (mac ip : Text) (hostname : Option Text) → Keeps (request_ip b s c mac ip hostname)
  unfolding request_ip
  request_ip-Keeps c mac ip hostname db u =
      elim (Option-cases (validate_requested_ip b s.leases c.now 1 mac ip db)) [
        | inr (r, e) ↦ settle (request_ip b s c mac ip hostname db) db (ground arith) u
        | inl e ↦
            let made = create_lease b s.leases c.now 1 mac ip hostname db in
            settle (request_ip b s c mac ip hostname db) (ack_reply b s made).1 (ground arith) (
              ack_reply-IsUnique made
                (create_lease-IsUnique b s.leases c.now 1 mac ip hostname db u))
      ]

  request_body-Keeps : (c : Call) (body : Option Body) → Keeps (request_body b s c body)
  unfolding request_body
  request_body-Keeps c none db u = u
  request_body-Keeps c (some body) db u =
      elim (Bool-cases (not (is_true body.mac_address) || no_ip b s body.requested_ip)) [
        | inl e ↦ settle (request_body b s c (some body) db) db (ground arith) u
        | inr e ↦ elim (Bool-cases (is_valid_mac body.mac_address)) [
          | inr e' ↦ settle (request_body b s c (some body) db) db (ground arith) u
          | inl e' ↦ elim (Option-cases (checked_hostname body.hostname)) [
            | inl eh ↦ settle (request_body b s c (some body) db) db (ground arith) u
            | inr (h, eh) ↦
                let mac = mac_text body.mac_address in
                let ip = ip_text b s body.requested_ip in
                settle (request_body b s c (some body) db) (request_ip b s c mac ip h db).1
                  (ground arith) (request_ip-Keeps c mac ip h db u)
          ]
        ]
      ]

  release_body-Keeps : (body : Option Body) → Keeps (release_body b s body)
  unfolding release_body release_reply
  release_body-Keeps none db u = u
  release_body-Keeps (some body) db u =
      with_mac-Keeps body.mac_address
        (λ db. release_reply b s (release_lease b 1 (mac_text body.mac_address) db))
        (λ db u. released-IsUnique b 1 (mac_text body.mac_address) db u) db u

  found_reply-IsUnique :
      (shown : DhcpLease → Reply) (r : Option DhcpLease × Db b)
      → IsUnique b r.1
      → IsUnique b (found_reply b s shown r).1
  unfolding found_reply
  found_reply-IsUnique shown (none, db) u = u
  found_reply-IsUnique shown (some l, db) u = u

  config_body-Keeps :
      (c : Call) (mac : Text) → Keeps (λ db. found_reply b s config (get_lease b c.now 1 mac db))
  config_body-Keeps c mac db u =
      found_reply-IsUnique config (get_lease b c.now 1 mac db)
        (get_lease-IsUnique b c.now 1 mac db u)

  dhcp_config-Keeps : (c : Call) (mac : Json) → Keeps (dhcp_config b s c mac)
  unfolding dhcp_config
  dhcp_config-Keeps c mac =
      guarded-Keeps c dhcp_read _ (with_mac-Keeps mac _ (config_body-Keeps c (mac_text mac)))

  show_lease-Keeps : (c : Call) (mac : Text) → Keeps (show_lease b s c mac)
  unfolding show_lease guarded
  show_lease-Keeps c mac db u =
      let found = get_lease b c.now 1 mac db in
      elim (Bool-cases (is_valid_mac (text mac))) [
        | inr bad ↦ settle (show_lease b s c mac db) db (ground arith) u
        | inl ok ↦ elim (Bool-cases c.feature_enabled) [
          | inr off ↦ settle (show_lease b s c mac db) db (ground arith) u
          | inl on ↦
              elim (Bool-cases ((check_auth s.jwt s.keys c.authorization dhcp_read).0 == 200)) [
                | inr e ↦ settle (show_lease b s c mac db) db (ground arith) u
                | inl e ↦
                    settle (show_lease b s c mac db) (found_reply b s lease found).1 (ground arith)
                      (found_reply-IsUnique lease found (get_lease-IsUnique b c.now 1 mac db u))
              ]
        ]
      ]

  list_leases-Keeps : (c : Call) → Keeps (list_leases b s c)
  unfolding list_leases guarded
  list_leases-Keeps c db u = settle (list_leases b s c db) db (ground arith) u

  -- Whatever the event, the rows stay unique.
  pub serve-IsUnique :
      (c : Call) (e : Event) (db : Db b) → IsUnique b db → IsUnique b (serve b s c e db).1
  unfolding serve
  serve-IsUnique c (discovers body) db u =
      unfold dhcp_discover in guarded-Keeps c dhcp_read _ (discover_body-Keeps c body) db u
  serve-IsUnique c (requests body) db u =
      unfold dhcp_request in guarded-Keeps c dhcp_read _ (request_body-Keeps c body) db u
  serve-IsUnique c (releases body) db u =
      unfold dhcp_release in guarded-Keeps c dhcp_read _ (release_body-Keeps body) db u
  serve-IsUnique c (configures mac) db u = dhcp_config-Keeps c mac db u
  serve-IsUnique c (shows mac) db u = show_lease-Keeps c mac db u
  serve-IsUnique c lists db u = list_leases-Keeps c db u
  serve-IsUnique c checks db u = unfold health in u
  serve-IsUnique c sweeps db u = expire_old_leases-IsUnique b c.now 1 db u

  -- After any history of requests and sweeps, in any order and whether they were granted or not, no
  -- client has two rows in a pool if none had two before.
  pub serve_all-IsUnique :
      (events : List (Call × Event)) (db : Db b)
      → IsUnique b db
      → IsUnique b (serve_all b s events db)
  unfolding serve_all
  serve_all-IsUnique [] db u = u
  serve_all-IsUnique ((c, e) ∷ events) db u =
      serve_all-IsUnique events (serve b s c e db).1 (serve-IsUnique c e db u)
