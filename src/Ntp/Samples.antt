-- ===== src/Ntp/Samples.antt =====
-- Sample data: a toy of the encryption whose tag counts the bytes of the key and of the associated
-- data, a manager at its first key, and a session whose keys are of ones and of twos.
use squawk.Prelude.{
  ℕ, ◌+◌, ◌*◌, ◌≡◌, none, some, [], ◌∷◌, ◌++◌, length, drop, replicate, codes, refl, sym, ap, ◌∙◌,
  length-append, length-replicate, drop-append, arith,
}
use squawk.Prelude.Tries.{done}
use squawk.Jwt.{Jwt, Keys, Payload, payload}
use squawk.Dhcp.Samples.{reader}
use squawk.Ntp.Bytes.{Bytes, bytes2, bytes8, pack_b, pack_h, pack_q}
use squawk.Ntp.Cookies.{
  Siv, NtsCookie, CookieManager, Keying, ticks, first_manager, lookup_master, seal_cookie,
  wire_encode,
}
use squawk.Ntp.Packets.{byte_at}
use squawk.Ntp.Auth.{Decoder}
use squawk.Ntp.KeyExchange.{Exporter, Parts}

abbrev toy_tag : Bytes → Bytes → Bytes
toy_tag key aad = replicate 16 (length key + length aad)

pub done_inj : (a b : Bytes) → done a ≡ done b → a ≡ b
done_inj a b h = ground arith

pub length-toy_tag : (key aad : Bytes) → length (toy_tag key aad) ≡ 16
length-toy_tag key aad = length-replicate 16 (length key + length aad)

abbrev pub toy_siv : Siv
toy_siv = record {
  encrypt = λ key plain aad. done (toy_tag key aad ++ plain);
  decrypt = λ key sealed aad. some (drop 16 sealed);
  decrypt-encrypt = λ key plain aad sealed h.
      ap (λ x. some (drop 16 x)) (sym (done_inj (toy_tag key aad ++ plain) sealed h))
      ∙ ap some (drop-append 16 (toy_tag key aad) plain (length-toy_tag key aad));
  length-encrypt = λ key plain aad sealed h. omega (
    arith,
    ap length (done_inj (toy_tag key aad ++ plain) sealed h),
    length-append (toy_tag key aad) plain,
    length-toy_tag key aad,
  );
}

abbrev pub sealing_time : ℕ
sealing_time = 100 * ticks

abbrev pub manager : CookieManager
manager = first_manager 0 (7 ∷ 7 ∷ [])

abbrev pub session : Keying
session = record { c2s_key = replicate 32 1; s2c_key = replicate 32 2; aead_id = 15 }

abbrev pub sealed_cookie : NtsCookie
sealed_cookie = record {
  sealed = replicate 16 3 ++ (replicate 32 1 ++ (replicate 32 2 ++ (bytes2 15 ++ bytes8 86500)));
  version = 0;
}

pub sealing : seal_cookie toy_siv manager sealing_time session ≡ done sealed_cookie
unfolding seal_cookie lookup_master pack_b pack_h pack_q
sealing = refl

abbrev pub wire : Bytes
wire = 0 ∷ 91 ∷ 0 ∷ sealed_cookie.sealed

pub wiring : wire_encode sealed_cookie ≡ done wire
unfolding wire_encode pack_b pack_h
wiring = refl

-- Its keys are of ones and twos, by the last byte of the context.
abbrev pub exporter : Exporter
exporter = λ label n context. done (replicate n (byte_at 4 context + 1))

abbrev pub time_client : Payload
time_client = record reader { scope = some (codes "dns:read ntp:client") }

abbrev pub time_jwt : Jwt
time_jwt = record { header_kid = λ token. some none; decode = λ token key. payload time_client }

abbrev pub one_key : Keys
one_key = record { public_key = some (codes "K"); public_keys = [] }

abbrev pub ascii : Decoder
ascii = λ bs. some bs

abbrev pub parts : Parts
parts = record { siv = toy_siv; jwt = time_jwt; keys = one_key; utf8 = ascii }

-- A record with the token `t`, and one that ends the message.
abbrev pub token_request : Bytes
token_request = 64 ∷ 0 ∷ 0 ∷ 1 ∷ 116 ∷ 0 ∷ 0 ∷ 0 ∷ 128 ∷ 0 ∷ 0 ∷ 0 ∷ []
