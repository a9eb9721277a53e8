-- ===== src/Ntp/KeyExchange/Issuing.antt =====
-- Who is sent cookies.
use squawk.Prelude.{
  subst, ℕ, true, false, ◌≡◌, ◌≢◌, some, [], ◌∷◌, In, arith, refl, sym, ap, ◌∙◌, Bool-cases,
  Option-cases, inl, inr, Text,
}
use squawk.Prelude.Tries.{done}
use squawk.Ntp.Bytes.{Bytes, bytes2, pack_h}
use squawk.Ntp.Records.{
  NtsRecord, parse_from, decode, parse_all, encode, new_cookie, error, end_of_message,
}
use squawk.Ntp.Cookies.{CookieManager}
use squawk.Ntp.Auth.{verify_jwt, extract_nts_ke_auth_token}
use squawk.Ntp.KeyExchange.{
  Parts, Exporter, handle_client, is_allowed, error_response, required_scope,
}

-- The bytes of the refusal.
abbrev refusal : Bytes
refusal = 128 ∷ 2 ∷ 0 ∷ 2 ∷ 0 ∷ 1 ∷ 0 ∷ 0 ∷ 128 ∷ 0 ∷ 0 ∷ 0 ∷ []

error_response-done : error_response ≡ done refusal
unfolding error_response encode pack_h
error_response-done = refl

parse_all-refusal :
    parse_all refusal
    ≡ record { record_type = error; body = bytes2 1; critical = true }
      ∷ record { record_type = end_of_message; body = []; critical = true }
      ∷ []
unfolding parse_all parse_from decode
parse_all-refusal = refl

module _ (p : Parts) (m : CookieManager) (now : ℕ) (exporter : Exporter) where
  -- A request without a token, or with one that does not pass the check for `ntp:client`, is
  -- answered by the records `error` with the code 1 and `end_of_message`, both critical, and no
  -- others.
  pub handle_client-refused :
      (request : Bytes)
      → request ≢ []
      → is_allowed p request ≡ false
      → (reply : Bytes) × (handle_client p m now exporter request ≡ some reply)
        × (parse_all reply
            ≡ record { record_type = error; body = bytes2 1; critical = true }
              ∷ record { record_type = end_of_message; body = []; critical = true }
              ∷ [])
  unfolding handle_client
  handle_client-refused [] ne h = absurd (ne refl)
  handle_client-refused (b ∷ request) ne h =
      (refusal, ground (arith, h, error_response-done), parse_all-refusal)

  refused_new_cookie :
      (request reply : Bytes) (r : NtsRecord)
      → is_allowed p request ≡ false
      → handle_client p m now exporter request ≡ some reply
      → In r (parse_all reply)
      → r.record_type ≢ new_cookie
  unfolding handle_client
  refused_new_cookie [] reply r h sent there = cc
  refused_new_cookie (b ∷ request) reply r h sent there =
      let same : refusal ≡ reply = ground (arith, h, sent, error_response-done) in
      let records = ap parse_all (sym same) ∙ parse_all-refusal in
      let there' = subst (λ rs. In r rs) records there in
      elim there' [
        | inl e ↦ ground (arith, ap (λ (x : NtsRecord). x.record_type) e)
        | inr (inl e) ↦ ground (arith, ap (λ (x : NtsRecord). x.record_type) e)
        | inr (inr x) ↦ elim x [ ]
      ]

  -- Whenever what is sent holds a record `new_cookie`, the request carried a token that passes the
  -- check of the signature, the tenant and the scope `ntp:client`.
  pub handle_client-new_cookie :
      (request reply : Bytes) (r : NtsRecord)
      → handle_client p m now exporter request ≡ some reply
      → In r (parse_all reply)
      → r.record_type ≡ new_cookie
      → (token : Text) × (extract_nts_ke_auth_token p.utf8 request ≡ some token)
        × (verify_jwt p.jwt p.keys token required_scope ≡ true)
  unfolding is_allowed
  handle_client-new_cookie request reply r sent there e =
      elim (Option-cases (extract_nts_ke_auth_token p.utf8 request)) [
        | inl missing ↦ absurd (refused_new_cookie request reply r (ground arith) sent there e)
        | inr (token, found) ↦ elim (Bool-cases (verify_jwt p.jwt p.keys token required_scope)) [
          | inl ok ↦ (token, found, ok)
          | inr bad ↦ absurd (refused_new_cookie request reply r (ground arith) sent there e)
        ]
      ]
