-- ===== src/Ntp/Udp.antt =====
-- ntp-server/bins/server.py, `NTPUDPServer`: the rate limit, the authenticators, the replies and the
-- loop. The clock is read once per datagram, in the unit of `Ntp.Cookies`; a fixed-point number that
-- goes through a float is exact, so the time stays what `struct.pack` takes. The dict of the rate
-- limit is a list of its entries in the order in which they were set first.
pub mod Limits
pub mod Safety
pub mod Replies
pub mod Answers
pub mod Requests
pub mod Crashes
mod Tests
use squawk.Prelude.{
  ℕ, zero, suc, ◌+◌, ◌-◌, ◌*◌, ◌/◌, ◌%◌, ◌^◌, not, ◌&&◌, ◌||◌, Bool, true, false, Option, none,
  some, List, [], ◌∷◌, ◌++◌, length, take, Text, text_eq, ltb, leb, ◌==◌, if◌then◌else◌,
}
use squawk.Prelude.Tries.{Try, done, raised, ◌>>=◌}
use squawk.Ntp.Bytes.{Bytes, bytes4, bytes8, pack_q}
use squawk.Ntp.Cookies.{
  Siv, NtsCookie, CookieManager, Keying, ticks, seal_cookie, unseal_cookie, wire_encode,
  wire_decode,
}
use squawk.Ntp.Packets.{
  NtpPacket, unique_identifier, nts_cookie, nts_authenticator, get_field, parse_ntp_packet,
  extract_authenticator, build_ef,
}
use squawk.Ntp.KeyExchange.{aead_aes_siv_cmac_256}

-- A source, the start of its window and the number of its datagrams in it.
abbrev pub Window : Type 0
Window = Text × ℕ × ℕ

-- `self._rate_limit_state.get(source_ip)`
unfoldable pub window_of : Text → List Window → Option (ℕ × ℕ)
window_of ip [] = none
window_of ip ((key, start, count) ∷ ws) =
    let rest = window_of ip ws in if text_eq key ip then some (start, count) else rest

-- `self._rate_limit_state[source_ip] = (start, count)`
unfoldable pub set_window : Text → ℕ → ℕ → List Window → List Window
set_window ip start count [] = (ip, start, count) ∷ []
set_window ip start count ((key, s, n) ∷ ws) =
    let rest = set_window ip start count ws in
    if text_eq key ip then (key, start, count) ∷ ws else (key, s, n) ∷ rest

-- `_prune_rate_limit_state`; where the clock stands before the ten windows nothing is stale
unfoldable pub prune_rate_limit_state : ℕ → List Window → List Window
prune_rate_limit_state now [] = []
prune_rate_limit_state now ((key, start, count) ∷ ws) =
    let rest = prune_rate_limit_state now ws in
    if ltb start (now - 10 * ticks) then rest else (key, start, count) ∷ rest

abbrev pub max_tracked : ℕ
max_tracked = 50000

-- The state of the server: its windows, and the limit of the environment.
pub record Limiter : Type 0 where
  pub rate_limit_max : ℕ
  pub rate_limit_state : List Window

abbrev with_windows : Limiter → List Window → Limiter
with_windows l ws = record l { rate_limit_state = ws }

-- The branch of `_rate_limited` that opens a window.
abbrev opened : ℕ → List Window → List Window
opened now ws = if ltb max_tracked (length ws) then prune_rate_limit_state now ws else ws

-- `_rate_limited`: whether the datagram is dropped, and the windows after it
unfoldable pub is_rate_limited : ℕ → Text → Limiter → Bool × Limiter
is_rate_limited now ip l =
    let fresh = opened now (set_window ip now 1 l.rate_limit_state) in
    elim (window_of ip l.rate_limit_state) [
      | none ↦ (false, with_windows l fresh)
      | some (start, count) ↦
          if leb (start + ticks) now
          then (false, with_windows l fresh)
          else if leb l.rate_limit_max count
          then (true, l)
          else (false, with_windows l (set_window ip start (count + 1) l.rate_limit_state))
    ]

-- `_compute_authenticator`
unfoldable pub compute_authenticator : Siv → Bytes → ℕ → Bytes → Try Bytes
compute_authenticator siv key aead_id aad =
    if aead_id == aead_aes_siv_cmac_256
    then (siv.encrypt key [] aad >>= λ sealed. done (take 16 sealed))
    else raised

-- `verify_authenticator`; a call that raises does not verify
unfoldable pub verify_authenticator : Siv → Bytes → ℕ → Bytes → Bytes → Bool
verify_authenticator siv key aead_id aad tag =
    if aead_id == aead_aes_siv_cmac_256
    then (elim (compute_authenticator siv key aead_id aad) [
      | raised ↦ false
      | done computed ↦ text_eq tag computed
    ])
    else false

abbrev pub ntp_epoch_offset : ℕ
ntp_epoch_offset = 2208988800

-- The header of a reply: `struct.pack("!BBBbIIIQQQQ", …)`.
unfoldable pub response_header : ℕ → NtpPacket → Try Bytes
response_header now request =
    let transmit = (now / ticks + ntp_epoch_offset) * 2 ^ 32 + now % ticks in
    pack_q transmit >>= λ t. pack_q request.origin_timestamp >>= λ origin. pack_q now >>= λ receive.
    done (
      (36 ∷ 2 ∷ 3 ∷ 236 ∷ [])
      ++ (bytes4 65 ++ (bytes4 65 ++ (bytes4 0 ++ (t ++ (origin ++ (receive ++ t)))))))

-- The unique identifier of the request, if it has one that is not empty.
abbrev identifier_ef : Option Bytes → Try Bytes
identifier_ef none = done []
identifier_ef (some []) = done []
identifier_ef (some (b ∷ bs)) = build_ef unique_identifier (b ∷ bs)

-- `build_ntp_response`
unfoldable pub build_ntp_response :
    Siv → CookieManager → ℕ → NtpPacket → Keying → Option Bytes → Try Bytes
build_ntp_response siv m now request k unique_id = response_header now request >>= λ header.
    identifier_ef unique_id >>= λ uid. seal_cookie siv m now k >>= λ cookie.
    wire_encode cookie >>= λ wire. build_ef nts_cookie wire >>= λ ef.
    compute_authenticator siv k.s2c_key k.aead_id (header ++ (uid ++ ef)) >>= λ tag.
    build_ef nts_authenticator tag >>= λ last. done ((header ++ (uid ++ ef)) ++ last)

-- The end of `handle_request`, from the unsealed cookie on.
unfoldable pub respond :
    Siv → CookieManager → ℕ → NtpPacket → Bytes → Bytes → Option Keying → Try (Option Bytes)
respond siv m now packet aad tag none = done none
respond siv m now packet aad tag (some k) =
    if verify_authenticator siv k.c2s_key k.aead_id aad tag
    then (build_ntp_response siv m now packet k
          (get_field unique_identifier packet.extension_fields)
        >>= λ reply. done (some reply))
    else done none

-- `handle_request` from the decoded cookie on.
unfoldable pub open_cookie :
    Siv → CookieManager → ℕ → NtpPacket → Bytes → Bytes → Option NtsCookie → Try (Option Bytes)
open_cookie siv m now packet aad tag none = done none
open_cookie siv m now packet aad tag (some c) =
    respond siv m now packet aad tag (unseal_cookie siv m now c)

-- `handle_request` after the rate limit.
unfoldable pub answer : Siv → CookieManager → ℕ → Bytes → Try (Option Bytes)
answer siv m now bs = elim (parse_ntp_packet bs) [
  | none ↦ done none
  | some packet ↦ elim (get_field nts_cookie packet.extension_fields) [
    | none ↦ done none
    | some [] ↦ done none
    | some (b ∷ cookie) ↦ elim (extract_authenticator bs) [
      | none ↦ done none
      | some (aad, tag) ↦ wire_decode (b ∷ cookie) >>= λ c. open_cookie siv m now packet aad tag c
    ]
  ]
]

-- `handle_request`: the reply, if any, and the windows after it
unfoldable pub handle_request :
    Siv → CookieManager → ℕ → Text → Bytes → Limiter → Try (Option Bytes) × Limiter
handle_request siv m now ip bs l =
    let (dropped, l') = is_rate_limited now ip l in
    if dropped then (done none, l') else (answer siv m now bs, l')

-- A datagram, with the state of the manager and the time at which it is handled.
pub record Datagram : Type 0 where
  pub manager : CookieManager
  pub now : ℕ
  pub ip : Text
  pub payload : Bytes

-- The loop of `run`: what each datagram is answered, until one raises.
unfoldable pub run : Siv → Limiter → List Datagram → List (Option Bytes)
run siv l [] = []
run siv l (d ∷ ds) =
    let (reply, l') = handle_request siv d.manager d.now d.ip d.payload l in
    let rest = run siv l' ds in elim reply [ raised ↦ [] | done r ↦ r ∷ rest ]
