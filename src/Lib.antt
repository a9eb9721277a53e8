-- ===== src/Lib.antt =====
-- Three servers of squawk: the DHCP-over-HTTPS server (dhcp-server), the DNS-over-HTTPS server
-- (dns-server) and the time server (ntp-server), with the check of tokens that each has; and of the
-- manager the tokens that it issues and what it lets their callers do.
--
-- How the parts interact. A request to dhcp-server passes the feature flag and the check of its
-- token (dhcp-server/app/auth.py), then the validation of its body (app/validation.py); the handler
-- (bins/server.py) then calls the lease database (app/db.py), which reads and writes the tables of
-- app/schema.py. A background task sweeps leases that have run out. A query to dns-server passes the
-- rate limiter, the zone check of the resilience manager (dns-server/app/utils/resilience.py), the
-- domain policy of the token (utils/domain_policy.py), the threat feeds (services/ioc_checker.py)
-- and the cache, and is answered from the zones (services/selective_router.py) or by public DNS
-- (services/dns_resolver.py); the addresses of the answer are checked against the feeds again.
-- ntp-server issues cookies over TLS to clients with a token, each with the keys of the session,
-- sealed under a master key that is rotated daily; a time query over UDP brings a cookie back, and
-- is answered under the keys in it. The manager signs access tokens, whose scopes its middleware
-- and the servers check, and refresh tokens, which are rotated against a denylist.
--
-- Which file models what:
--   Jwt               what the servers rely on of PyJWT, and the configured keys
--   Dhcp.Address      what app/db.py uses of Python's `ipaddress.IPv4Address`
--   Dhcp.Validation   app/validation.py
--   Dhcp.Auth         app/auth.py
--   Dhcp.Database     the tables of app/schema.py, and what the server relies on of penguin_dal
--   Dhcp.Model        app/models.py and app/config.py as records, the results and conditions of app/db.py
--   Dhcp.Leases       app/db.py, the methods of `DHCPDatabase`, of the same names
--   Dhcp.Messages     bins/server.py, what the handlers read and reply
--   Dhcp.Server       bins/server.py, the handlers of the same names (`show_lease` is the handler
--                     `get_lease`, `serve` the routes and one round of `expire_leases_task`)
--   Dns.DomainPolicy  dns-server/app/utils/domain_policy.py
--   Dns.JwtVerify     utils/jwt_verify.py
--   Dns.Zones         services/selective_router.py, and `resolve_custom_zone`
--   Dns.Resilience    utils/resilience.py
--   Dns.IocChecker    services/ioc_checker.py
--   Dns.CacheManager  services/cache_manager.py
--   Dns.RateLimiter   services/rate_limiter.py, the token bucket and the backend in memory
--   Dns.Server        app/main.py, `dns_query`, with `resolve` of services/dns_resolver.py
--   Ntp.Bytes         Python's `bytes` and `struct`
--   Ntp.Records       ntp-server/bins/server.py, `NTSKERecord`
--   Ntp.Cookies       `CookieManager` and `master_key_rotation_task`
--   Ntp.Auth          `verify_jwt`, `_extract_nts_ke_auth_token`
--   Ntp.KeyExchange   `NTSKEServer.handle_client`, `_build_nts_ke_response`
--   Ntp.Packets       the packets and extension fields of `NTPUDPServer`
--   Ntp.Udp           the rest of `NTPUDPServer`, methods of the same names
--   Manager.Scopes    manager/backend/app/services/scopes.py
--   Manager.Claims    services/auth_service.py, the payloads of tokens and `decode_token`
--   Manager.Sessions  services/auth_service.py, refresh tokens and the lockout of accounts
--   Manager.Access    middleware/rbac.py
--   Manager.Gate      middleware/auth.py and services/cookie_auth.py, the check of a request's token
--   Manager.Machines  blueprints/machine_clients.py and blueprints/auth.py, the scopes of machines
--   Manager.CallLimit utils/decorators.py, `rate_limit`
--   Dhcp.Leases.Refinement   the map that the table of leases stands for
-- The modules below each of these hold the proofs, named for what they are about, and the tests.
-- Prelude holds the shared names, texts and lemmas.
--
-- How state corresponds. The connection of `DHCPDatabase` is the state `Db`, three tables that every
-- method takes and gives back; a method that raises keeps what it wrote. The router's zones, the
-- checker's sets and the cached configuration are arguments of `dns_query`, and the cache manager
-- is its state. An exception that leaves a method is a value (`Outcome`, `crashed`; in Ntp `raised`). The
-- cookie manager and the windows of the rate limit are states of the time server; its loop is run on
-- a sequence of datagrams, each with the manager and the time that it meets. The manager's denylist
-- and the lockout fields of an account are states that each call takes and gives back.
--
-- What is assumed of code outside the repository, as parameters: penguin_dal (`Backend`: select
-- takes some matching row, in no promised order; update changes the matching rows; insert adds one;
-- a row of the pools has the column `subnet_mask` too, which app/db.py reads and app/schema.py lacks;
-- Dhcp.Database.InMemory is an instance), PyJWT (`Jwt`: the header's `kid`, and the result of
-- decoding with a key), Python's networks (`Networks`), what dnspython finds (`Found`), Redis
-- and `json` (`Cache`: a key holds what was stored under it last, or nothing; a response is read back
-- from its text; Dns.CacheManager.InMemory is an instance), AES-SIV (`Siv`: what is encrypted is decrypted, and is 16 bytes longer; Ntp.Samples has
-- an instance), the TLS exporter (`Exporter`), the decoding of UTF-8 (`Decoder`),
-- the manager's verification of tokens (`Verifier`: a token that has run out is refused, and a token
-- has one payload). The feature flag, the clock, the drawn ids, the limiter's answer and the manager
-- client's answers are arguments of a call.
--
-- Bounds. Texts are lists of code points, and `lower` changes ASCII letters only. Times are whole
-- microseconds, and the time of a lease is not negative. One clock reading stands for those of one
-- call of a handler. `requested_ip` is a text or missing. `int(d * 0.875)` is `d * 7 / 8`, which it
-- is below 2 ^ 50. The limiter's amounts are whole numbers of a unit, without the rounding of
-- floats; nor have the times of ntp-server any, in units of 2 ^ -32 seconds. The loops over records
-- and extension fields run on fuel, the number of bytes, of which each step takes one at least. No
-- other loop needs fuel: each runs over a list or over the numbers of the pool's range, of which
-- there are as many as the search is given.
--
-- Not modelled: opening and closing connections, reading the environment and key files, log lines,
-- metrics and statistics, the HTTP framework, certificates, gRPC and HTTP/3 set-up, the Redis backend
-- and the retry time of the rate limiter, the manager client of dns-server, the TLS context, the
-- sockets and the HTTP endpoints of ntp-server, and of the manager all but the
-- above: its web routes, configuration, feeds, single sign-on, server tokens and
-- the rest of machine clients; and the clients.
pub mod Prelude
pub mod Jwt
pub mod Dhcp
pub mod Dns
pub mod Ntp
pub mod Manager
