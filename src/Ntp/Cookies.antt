-- ===== src/Ntp/Cookies.antt =====
-- ntp-server/bins/server.py, `CookieManager`. `AESSIV` is the parameter `Siv`. Times are in units of
-- 2^-32 of a second, without the rounding of floats. A cookie's own `expiry` and `created_at` are
-- left out: only `is_expired`, which nothing calls, reads them.
pub mod Unseal
pub mod Rotation
use squawk.Prelude.{
  ℕ, ◌+◌, ◌-◌, ◌*◌, ◌/◌, ◌^◌, ◌≡◌, not, ◌&&◌, Option, none, some, List, [], ◌∷◌, ◌++◌, length, take,
  drop, ltb, ◌==◌, if◌then◌else◌,
}
use squawk.Prelude.Tries.{Try, done, raised, ◌>>=◌}
use squawk.Ntp.Bytes.{Bytes, pack_b, pack_h, pack_q, unpack_h, unpack_q}

-- `AESSIV(key).encrypt(data, [aad])`, which may raise, and `decrypt`, `none` if it raises: what was
-- encrypted is decrypted under the same key and associated data, and is 16 bytes longer.
pub record Siv : Type 0 where
  pub encrypt : Bytes → Bytes → Bytes → Try Bytes
  pub decrypt : Bytes → Bytes → Bytes → Option Bytes
  pub decrypt-encrypt :
      (key plain aad sealed : Bytes)
      → encrypt key plain aad ≡ done sealed
      → decrypt key sealed aad ≡ some plain
  pub length-encrypt :
      (key plain aad sealed : Bytes)
      → encrypt key plain aad ≡ done sealed
      → length sealed ≡ 16 + length plain

pub record NtsCookie : Type 0 where
  pub sealed : Bytes
  pub version : ℕ

pub record CookieManager : Type 0 where
  pub master_key_version : ℕ
  pub master_keys : List (ℕ × Bytes)
  pub previous_key_expires_at : ℕ

-- A second.
abbrev pub ticks : ℕ
ticks = 2 ^ 32

-- `self.master_keys[version]`; a key that is set again stands before the old one
unfoldable pub lookup_master : ℕ → List (ℕ × Bytes) → Option Bytes
lookup_master version [] = none
lookup_master version ((v, key) ∷ keys) =
    let rest = lookup_master version keys in if v == version then some key else rest

-- `del self.master_keys[version]`
unfoldable pub delete_key : ℕ → List (ℕ × Bytes) → List (ℕ × Bytes)
delete_key version [] = []
delete_key version ((v, key) ∷ keys) =
    let rest = delete_key version keys in if v == version then rest else (v, key) ∷ rest

-- The keys and the algorithm that a cookie holds.
pub record Keying : Type 0 where
  pub c2s_key : Bytes
  pub s2c_key : Bytes
  pub aead_id : ℕ

module _ (siv : Siv) where
  -- `seal_cookie`
  unfoldable pub seal_cookie : CookieManager → ℕ → Keying → Try NtsCookie
  seal_cookie m now k =
      let expiry = now / ticks + 86400 in
      pack_h k.aead_id >>= λ a. pack_q expiry >>= λ e. pack_b m.master_key_version >>= λ aad.
      elim (lookup_master m.master_key_version m.master_keys) [
        | none ↦ raised
        | some key ↦ siv.encrypt key (k.c2s_key ++ (k.s2c_key ++ (a ++ e))) aad >>= λ sealed.
            done (record { sealed = sealed; version = m.master_key_version })
      ]

  -- `unseal_cookie` from the plaintext on
  pub read_plaintext : ℕ → Bytes → Option Keying
  read_plaintext now plaintext =
      let numbers = take 10 (drop 64 plaintext) in
      if not (length numbers == 10)
      then none
      else if ltb (unpack_q (drop 2 numbers) * ticks) now
      then none
      else some (record {
        c2s_key = take 32 plaintext;
        s2c_key = take 32 (drop 32 plaintext);
        aead_id = unpack_h numbers;
      })

  -- `unseal_cookie`
  unfoldable pub unseal_cookie : CookieManager → ℕ → NtsCookie → Option Keying
  unfolding read_plaintext
  unseal_cookie m now cookie = elim (lookup_master cookie.version m.master_keys) [
    | none ↦ none
    | some key ↦ elim (pack_b cookie.version) [
      | raised ↦ none
      | done aad ↦ elim (siv.decrypt key cookie.sealed aad) [
        | none ↦ none
        | some plaintext ↦ read_plaintext now plaintext
      ]
    ]
  ]

-- `wire_encode`
unfoldable pub wire_encode : NtsCookie → Try Bytes
wire_encode cookie = pack_b cookie.version >>= λ v.
    pack_h (length (v ++ cookie.sealed)) >>= λ l. done (l ++ (v ++ cookie.sealed))

-- `wire_decode`; `body[0]` raises on an empty body
unfoldable pub wire_decode : Bytes → Try (Option NtsCookie)
wire_decode bs =
    let body_len = unpack_h bs in
    let body = take body_len (drop 2 bs) in
    if ltb (length bs) 3
    then done none
    else if not (length body == body_len)
    then done none
    else (elim body [
      | [] ↦ raised
      | v ∷ sealed ↦ done (some (record { sealed = sealed; version = v }))
    ])

-- The deletion of the old key in `rotate_key`.
abbrev pub kept_keys : CookieManager → ℕ → List (ℕ × Bytes)
kept_keys m now =
    if ltb m.previous_key_expires_at now && ltb 0 m.master_key_version
    then delete_key (m.master_key_version - 1) m.master_keys
    else m.master_keys

-- `rotate_key`, with the drawn key
unfoldable pub rotate_key : ℕ → Bytes → CookieManager → CookieManager
rotate_key now key m = record {
  master_key_version = m.master_key_version + 1;
  master_keys = (m.master_key_version + 1, key) ∷ kept_keys m now;
  previous_key_expires_at = now + 3600 * ticks;
}

-- `__init__`, with the drawn key
abbrev pub first_manager : ℕ → Bytes → CookieManager
first_manager now key = record {
  master_key_version = 0;
  master_keys = (0, key) ∷ [];
  previous_key_expires_at = now + 3600 * ticks;
}

-- Rotations one after another, with their times and keys.
unfoldable pub rotate_all : List (ℕ × Bytes) → CookieManager → CookieManager
rotate_all [] m = m
rotate_all ((now, key) ∷ rounds) m = rotate_all rounds (rotate_key now key m)
