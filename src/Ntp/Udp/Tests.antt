-- ===== src/Ntp/Udp/Tests.antt =====
-- Time queries on sample data: a good request, and a datagram whose cookie has no bytes.
use squawk.Prelude.{
  zero, suc, All, text_eq, ℕ, ◌+◌, ◌≤◌, ◌≡◌, false, some, List, [], ◌∷◌, ◌++◌, replicate, Text,
  codes, refl, arith, text_eq,
}
use squawk.Prelude.Int.{pos}
use squawk.Prelude.Tries.{done}
use squawk.Ntp.Bytes.{pack_h, Bytes}
use squawk.Ntp.Cookies.{unseal_cookie}
use squawk.Ntp.Cookies.Unseal.{unseal_cookie-seal_cookie}
use squawk.Ntp.Packets.{
  NtpPacket, ExtensionField, build_ef, parse_ntp_packet, extract_authenticator, next_field,
  all_fields, fields_from, authenticator_from, get_field,
}
use squawk.Ntp.Packets.Sequences.{build_efs}
use squawk.Ntp.Udp.{
  Limiter, Datagram, is_rate_limited, window_of, compute_authenticator, handle_request, run,
}
use squawk.Ntp.Udp.Safety.{Authentic, handle_request-Authentic}
use squawk.Ntp.Udp.Requests.{Request, datagram, handle_request-IsReply}
use squawk.Ntp.Udp.Answers.{IsByte}
use squawk.Ntp.Udp.Crashes.{IsPoison, run-IsPoison}
use squawk.Ntp.Udp.Limits.{passed, passed-rate_limit_max}
use squawk.Ntp.Samples.{
  toy_siv, manager, session, sealed_cookie, sealing, sealing_time, wire, wiring,
}

abbrev limiter : Limiter
limiter = record { rate_limit_max = 2; rate_limit_state = [] }

not_limited : (is_rate_limited sealing_time (codes "a") limiter).0 ≡ false
unfolding is_rate_limited window_of
not_limited = refl

-- The request: a header of mode 3, an identifier, the cookie with three bytes of padding, and an
-- authenticator.
abbrev request_header : Bytes
request_header = 35 ∷ replicate 47 0

abbrev request_fields : List ExtensionField
request_fields =
    record { field_type = 0x0104; value = replicate 32 9 }
    ∷ record { field_type = 0x0204; value = wire }
    ∷ []

abbrev request_body : Bytes
request_body = 1 ∷ 4 ∷ 0 ∷ 36 ∷ (replicate 32 9 ++ 2 ∷ 4 ∷ 0 ∷ 100 ∷ (wire ++ 0 ∷ 0 ∷ 0 ∷ []))

abbrev request_tag : Bytes
request_tag = replicate 16 (32 + 184)

abbrev request_end : Bytes
request_end = 4 ∷ 4 ∷ 0 ∷ 20 ∷ request_tag

request_built : build_efs request_fields ≡ done request_body
unfolding build_efs build_ef pack_h
request_built = refl

request_carried : get_field 0x0204 request_fields ≡ some wire
unfolding get_field
request_carried = refl

request_signed :
    compute_authenticator toy_siv session.c2s_key 15 (request_header ++ request_body)
    ≡ done request_tag
unfolding compute_authenticator
request_signed = refl

request_closed : build_ef 0x0404 request_tag ≡ done request_end
unfolding build_ef pack_h
request_closed = refl

zero_bytes : (n : ℕ) → All IsByte (replicate n 0)
zero_bytes zero = tt
zero_bytes (suc n) = (omega arith, zero_bytes n)

abbrev request : Request toy_siv session sealed_cookie
request = record {
  header = request_header;
  fields = request_fields;
  body = request_body;
  wire = wire;
  tag = request_tag;
  last = request_end;
  header_size = refl;
  header_bytes = (omega arith, zero_bytes 47);
  others = (λ e. omega (arith, e), (λ e. omega (arith, e), tt));
  built = request_built;
  carried = request_carried;
  wired = wiring;
  signed = request_signed;
  closed = request_closed;
}

still_opens : unseal_cookie toy_siv manager sealing_time sealed_cookie ≡ some session
still_opens =
    unseal_cookie-seal_cookie toy_siv manager sealing_time session sealed_cookie manager
      sealing_time (refl, refl) sealing refl (omega arith)

answered :
    (reply : Bytes) × ((handle_request toy_siv manager sealing_time
        (codes "a")
        (datagram request)
        limiter).0
      ≡ done (some reply))
answered =
    let (reply, e, _) =
      handle_request-IsReply toy_siv manager sealing_time session sealed_cookie sealed_cookie
        request (codes "a") limiter not_limited still_opens (omega arith) (refl, refl)
        (λ aad. (_, refl)) sealing in
    (reply, e)

handle_request-Authentic_example : Authentic toy_siv manager sealing_time (datagram request)
handle_request-Authentic_example =
    handle_request-Authentic toy_siv manager sealing_time (datagram request) (codes "a") limiter
      answered.0 answered.1

-- Sixty bytes: a header of zeros, a cookie field of four zeros and an authenticator without a tag.
abbrev poison : Bytes
poison = replicate 48 0 ++ 2 ∷ 4 ∷ 0 ∷ 8 ∷ 0 ∷ 0 ∷ 0 ∷ 0 ∷ 4 ∷ 4 ∷ 0 ∷ 4 ∷ []

abbrev poison_packet : NtpPacket
poison_packet = record {
  version = 0;
  mode = 0;
  stratum = 0;
  poll = 0;
  precision = pos 0;
  root_delay = 0;
  root_dispersion = 0;
  reference_id = 0;
  reference_timestamp = 0;
  origin_timestamp = 0;
  receive_timestamp = 0;
  transmit_timestamp = 0;
  extension_fields =
      record { field_type = 0x0204; value = 0 ∷ 0 ∷ 0 ∷ 0 ∷ [] }
      ∷ record { field_type = 0x0404; value = [] }
      ∷ [];
}

poison_parsed : parse_ntp_packet poison ≡ some poison_packet
unfolding parse_ntp_packet all_fields fields_from next_field
poison_parsed = refl

poison_carried : get_field 0x0204 poison_packet.extension_fields ≡ some (0 ∷ 0 ∷ 0 ∷ 0 ∷ [])
unfolding get_field
poison_carried = refl

poison_extracted :
    extract_authenticator poison ≡ some (replicate 48 0 ++ 2 ∷ 4 ∷ 0 ∷ 8 ∷ 0 ∷ 0 ∷ 0 ∷ 0 ∷ [], [])
unfolding extract_authenticator authenticator_from next_field
poison_extracted = refl

poison-IsPoison : IsPoison poison
poison-IsPoison = record {
  packet = poison_packet;
  field = 0 ∷ 0 ∷ 0 ∷ 0 ∷ [];
  aad = replicate 48 0 ++ 2 ∷ 4 ∷ 0 ∷ 8 ∷ 0 ∷ 0 ∷ 0 ∷ 0 ∷ [];
  tag = [];
  parsed = poison_parsed;
  carried = poison_carried;
  extracted = poison_extracted;
  long = omega arith;
  no_bytes = refl;
}

abbrev sent_by : Text → Bytes → Datagram
sent_by ip bs = record { manager = manager; now = sealing_time; ip = ip; payload = bs }

-- The good request that follows is not answered.
run-IsPoison_example :
    run toy_siv limiter (sent_by (codes "a") poison ∷ sent_by (codes "b") (datagram request) ∷ [])
    ≡ []
run-IsPoison_example =
    run-IsPoison toy_siv limiter (sent_by (codes "a") poison)
      (sent_by (codes "b") (datagram request) ∷ []) not_limited poison-IsPoison

-- The source has sent one datagram of the two that it may, and sends two more.
abbrev busy : Limiter
busy = record { rate_limit_max = 2; rate_limit_state = (codes "a", 0, 1) ∷ [] }

busy_window : window_of (codes "a") busy.rate_limit_state ≡ some (0, 1)
unfolding window_of text_eq
busy_window = refl

passed-rate_limit_max_example :
    1 + passed (codes "a") ((5, codes "a") ∷ (6, codes "b") ∷ (7, codes "a") ∷ []) busy ≤ 2
passed-rate_limit_max_example =
    passed-rate_limit_max (codes "a") 0 1 ((5, codes "a") ∷ (6, codes "b") ∷ (7, codes "a") ∷ [])
      busy busy_window (omega arith) (omega arith, (omega arith, (omega arith, tt)))
