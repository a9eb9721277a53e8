-- ===== src/Ntp/KeyExchange.antt =====
-- ntp-server/bins/server.py, `NTSKEServer.handle_client` and `_build_nts_ke_response`. The clock is
-- read once per connection, and what is sent arrives; the exporter of the TLS connection is the
-- parameter `Exporter`.
pub mod Issuing
pub mod Replies
use squawk.Prelude.{
  ℕ, zero, suc, ◌+◌, not, ◌&&◌, ◌||◌, Bool, true, false, Option, none, some, List, [], ◌∷◌, ◌++◌,
  length, Text, codes, ◌==◌, if◌then◌else◌,
}
use squawk.Prelude.Tries.{Try, done, raised, ◌>>=◌}
use squawk.Jwt.{Jwt, Keys}
use squawk.Ntp.Bytes.{Bytes, bytes2, pack_b, pack_h}
use squawk.Ntp.Records.{
  NtsRecord, encode, end_of_message, next_protocol, error, aead_algorithm, new_cookie,
}
use squawk.Ntp.Cookies.{Siv, NtsCookie, CookieManager, Keying, seal_cookie, wire_encode}
use squawk.Ntp.Auth.{Decoder, verify_jwt, extract_nts_ke_auth_token}

-- `conn.export_keying_material(label, keylen, context)`, which may raise
abbrev pub Exporter : Type 0
Exporter = Bytes → ℕ → Bytes → Try Bytes

-- `AEADAlgorithm.AEAD_AES_SIV_CMAC_256`
abbrev pub aead_aes_siv_cmac_256 : ℕ
aead_aes_siv_cmac_256 = 15

abbrev pub label : Bytes
label = codes "EXPORTER-network-time-security"

abbrev pub keylen : ℕ
keylen = 32

-- `struct.pack("!HHB", 0, selected_aead, direction)`
abbrev pub context : ℕ → Bytes
context direction = bytes2 0 ++ (bytes2 aead_aes_siv_cmac_256 ++ (direction ∷ []))

abbrev pub export_failed : Bytes
export_failed = codes "ERROR: Key export failed"

abbrev pub required_scope : Text
required_scope = codes "ntp:client"

-- The reply to a client without a valid token.
unfoldable pub error_response : Try Bytes
error_response = encode (record { record_type = error; body = bytes2 1; critical = true }) >>= λ a.
    encode (record { record_type = end_of_message; body = []; critical = true }) >>= λ b.
    done (a ++ b)

-- The loop of `_build_nts_ke_response` over the cookies.
unfoldable pub cookie_records : List NtsCookie → Try Bytes
cookie_records [] = done []
cookie_records (c ∷ cs) = wire_encode c >>= λ body.
    encode (record { record_type = new_cookie; body = body; critical = false }) >>= λ bs.
    cookie_records cs >>= λ rest. done (bs ++ rest)

-- `_build_nts_ke_response`
unfoldable pub build_nts_ke_response : ℕ → List NtsCookie → Try Bytes
build_nts_ke_response aead_id cookies =
    encode (record { record_type = next_protocol; body = bytes2 0; critical = true })
    >>= λ protocol. pack_h aead_id >>= λ body.
        encode (record { record_type = aead_algorithm; body = body; critical = false }) >>= λ aead.
        cookie_records cookies >>= λ issued.
        encode (record { record_type = end_of_message; body = []; critical = true }) >>= λ last.
        done (protocol ++ (aead ++ (issued ++ last)))

-- The parts that a server is built of.
pub record Parts : Type 0 where
  pub siv : Siv
  pub jwt : Jwt
  pub keys : Keys
  pub utf8 : Decoder

-- `for _ in range(8)`
unfoldable pub seal_cookies : Siv → CookieManager → ℕ → Keying → ℕ → Try (List NtsCookie)
seal_cookies siv m now k zero = done []
seal_cookies siv m now k (suc n) =
    seal_cookie siv m now k >>= λ c. seal_cookies siv m now k n >>= λ cs. done (c ∷ cs)

-- The keys of the session: `none` if they have the wrong length.
unfoldable pub session_keys : Exporter → Try (Option Keying)
session_keys exporter = exporter label keylen (context 0) >>= λ c2s.
    exporter label keylen (context 1) >>= λ s2c. done (
      if length c2s == keylen && length s2c == keylen
      then some (record { c2s_key = c2s; s2c_key = s2c; aead_id = aead_aes_siv_cmac_256 })
      else none)

-- The block under `try` that exports the keys and issues the cookies: what is sent unless it raises.
unfoldable pub issue : Siv → CookieManager → ℕ → Exporter → Try Bytes
issue siv m now exporter = session_keys exporter >>= λ keys. (elim keys [
  | none ↦ done export_failed
  | some k ↦ seal_cookies siv m now k 8 >>= λ cookies. build_nts_ke_response k.aead_id cookies
])

-- `not token or not verify_jwt(token, required_scope="ntp:client")`, negated
unfoldable pub is_allowed : Parts → Bytes → Bool
is_allowed p request = elim (extract_nts_ke_auth_token p.utf8 request) [
  | none ↦ false
  | some token ↦ verify_jwt p.jwt p.keys token required_scope
]

abbrev or_none : Try Bytes → Option Bytes
or_none raised = none
or_none (done bs) = some bs

abbrev or_failed : Try Bytes → Option Bytes
or_failed raised = some export_failed
or_failed (done bs) = some bs

-- `handle_client`: what it sends before it closes the connection, if anything
unfoldable pub handle_client : Parts → CookieManager → ℕ → Exporter → Bytes → Option Bytes
handle_client p m now exporter [] = none
handle_client p m now exporter (b ∷ request) =
    if is_allowed p (b ∷ request)
    then or_failed (issue p.siv m now exporter)
    else or_none error_response
