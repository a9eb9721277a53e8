-- ===== src/Ntp/Tests.antt =====
-- The key establishment and the cookies on sample data.
use squawk.Prelude.{
  inl, inr, codes, drop_while, rstrip, In, Text, words, strip, text_eq, ℕ, ◌+◌, ◌*◌, ◌/◌, ◌≤◌, ◌≡◌,
  true, false, none, some, List, [], ◌∷◌, ◌++◌, replicate, refl, arith,
}
use squawk.Prelude.Tries.{done, raised}
use squawk.Ntp.Bytes.{pack_b, pack_h, Bytes}
use squawk.Ntp.Records.{decode, parse_from, encode, NtsRecord, parse_all, encode_all}
use squawk.Ntp.Records.RoundTrip.{parse_all-encode_all}
use squawk.Ntp.Cookies.{
  wire_encode, CookieManager, wire_decode, ticks, rotate_all, seal_cookie, unseal_cookie,
  lookup_master,
}
use squawk.Ntp.Cookies.Unseal.{unseal_cookie-seal_cookie}
use squawk.Ntp.Cookies.Rotation.{seal_cookie-rotate_all}
use squawk.Dns.JwtVerify.{verify_squawk_jwt}
use squawk.Ntp.Auth.Agreement.{verify_jwt-verify_squawk_jwt}
use squawk.Ntp.Records.Loop.{parse_all_lem}
use squawk.Ntp.Auth.{
  grants_scope, check_keys, pick_keys, token_in, verify_jwt, extract_nts_ke_auth_token,
}
use squawk.Ntp.KeyExchange.{
  cookie_records, required_scope, build_nts_ke_response, seal_cookies, issue, handle_client,
  is_allowed, session_keys,
}
use squawk.Ntp.KeyExchange.Issuing.{handle_client-new_cookie}
use squawk.Ntp.KeyExchange.Replies.{records_of, handle_client-new_cookies}
use squawk.Ntp.Samples.{
  one_key, ascii, wire, time_jwt, toy_siv, manager, session, sealed_cookie, sealing, sealing_time,
  parts, exporter, token_request,
}

abbrev end_record : NtsRecord
end_record = record { record_type = 0; body = []; critical = true }

abbrev token_record : NtsRecord
token_record = record { record_type = 16384; body = 116 ∷ []; critical = false }

token_encoded : encode_all (token_record ∷ end_record ∷ []) ≡ done token_request
unfolding encode_all encode pack_h
token_encoded = refl

parse_all-encode_all_example : parse_all token_request ≡ token_record ∷ end_record ∷ []
parse_all-encode_all_example =
    parse_all-encode_all (token_record ∷ end_record ∷ []) token_request
      (omega arith, (omega arith, tt)) token_encoded

unseal_cookie-seal_cookie_example :
    unseal_cookie toy_siv manager (200 * ticks) sealed_cookie ≡ some session
unseal_cookie-seal_cookie_example =
    unseal_cookie-seal_cookie toy_siv manager sealing_time session sealed_cookie manager
      (200 * ticks) (refl, refl) sealing refl (omega arith)

-- A rotation a day, at the same moment of the model's clock.
abbrev rotations : List (ℕ × Bytes)
rotations = replicate 256 (0, 1 ∷ [])

seal_cookie-rotate_all_example :
    seal_cookie toy_siv (rotate_all rotations manager) sealing_time session ≡ raised
seal_cookie-rotate_all_example =
    seal_cookie-rotate_all toy_siv rotations manager sealing_time session (omega arith)

allowed : is_allowed parts token_request ≡ true
unfolding is_allowed extract_nts_ke_auth_token token_in parse_all verify_jwt pick_keys check_keys
    grants_scope text_eq strip words parse_from decode rstrip drop_while
allowed = refl

exported : session_keys exporter ≡ done (some session)
unfolding session_keys
exported = refl

handle_client-new_cookies_example :
    (reply : Bytes) × (body : Bytes) × (handle_client parts manager sealing_time exporter
        token_request
      ≡ some reply)
    × (parse_all reply ≡ records_of 15 body)
    × ((padding : Bytes) → wire_decode (body ++ padding) ≡ done (some sealed_cookie))
    × ((m' : CookieManager) (later : ℕ)
        → lookup_master 0 m'.master_keys ≡ lookup_master 0 manager.master_keys
        → later ≤ (sealing_time / ticks + 86400) * ticks
        → unseal_cookie toy_siv m' later sealed_cookie ≡ some session)
handle_client-new_cookies_example =
    handle_client-new_cookies parts manager sealing_time exporter token_request session
      sealed_cookie allowed exported sealing

-- The reply to the request with the token.
abbrev cookie_bytes : Bytes
cookie_bytes = 0 ∷ 5 ∷ 0 ∷ 93 ∷ (wire ++ 0 ∷ 0 ∷ 0 ∷ [])

abbrev eight : Bytes → Bytes
eight bs = bs ++ (bs ++ (bs ++ (bs ++ (bs ++ (bs ++ (bs ++ bs))))))

abbrev reply : Bytes
reply =
    (128 ∷ 1 ∷ 0 ∷ 2 ∷ 0 ∷ 0 ∷ 0 ∷ 0 ∷ 0 ∷ 4 ∷ 0 ∷ 2 ∷ 0 ∷ 15 ∷ 0 ∷ 0 ∷ [])
    ++ (eight cookie_bytes ++ 128 ∷ 0 ∷ 0 ∷ 0 ∷ [])

abbrev cookie_record : NtsRecord
cookie_record = record { record_type = 5; body = wire; critical = false }

sent : handle_client parts manager sealing_time exporter token_request ≡ some reply
unfolding handle_client issue session_keys seal_cookies build_nts_ke_response cookie_records encode
    wire_encode pack_h pack_b
sent = rw (allowed, sealing) refl

holds_cookie : In cookie_record (parse_all reply)
unfolding parse_all parse_from decode
holds_cookie = inr (inr (inl refl))

handle_client-new_cookie_example :
    (token : Text) × (extract_nts_ke_auth_token ascii token_request ≡ some token)
    × (verify_jwt time_jwt one_key token required_scope ≡ true)
handle_client-new_cookie_example =
    handle_client-new_cookie parts manager sealing_time exporter token_request reply cookie_record
      sent holds_cookie refl

verify_jwt-verify_squawk_jwt_example :
    verify_jwt time_jwt one_key (codes "t") required_scope
    ≡ (elim (verify_squawk_jwt time_jwt one_key (codes "t")) [
      | none ↦ false
      | some p ↦ grants_scope required_scope p
    ])
verify_jwt-verify_squawk_jwt_example =
    verify_jwt-verify_squawk_jwt time_jwt (codes "t") required_scope one_key

parse_all_lem_example :
    parse_all token_request
    ≡ (elim (decode token_request) [ none ↦ [] | some (r, rest) ↦ r ∷ parse_all rest ])
parse_all_lem_example = parse_all_lem token_request
