-- ===== src/Jwt.antt =====
-- What the three servers rely on of PyJWT, which is not part of the repository, and the keys that
-- they are configured with. A claim that the code reads is a text, a list of texts or missing.
use squawk.Prelude.{
  inr, text_eq_iff, arith, inl, Bool-cases, In, Option, none, some, List, Text, Bool, false, [],
  ◌∷◌, text_eq, if◌then◌else◌, ◌≡◌, truthy,
}

-- The claims of a verified token that the servers read; `team_roles` holds the keys of its dict.
pub record Payload : Type 0 where
  pub sub : Option Text
  pub tenant : Option Text
  pub scope : Option Text
  pub role : Option Text
  pub team_roles : List Text
  pub dns_domains : Option (List Text)

-- The exceptions of `jwt.decode`, each class without its subclasses, and any other exception.
pub data DecodeFailure : Type 0 where
  invalid_signature decode_error expired_signature invalid_audience invalid_issuer : DecodeFailure
  missing_claim invalid_token other_exception : DecodeFailure

pub data Decoded : Type 0 where
  payload : Payload → Decoded
  failed : DecodeFailure → Decoded

pub record Jwt : Type 0 where
  -- `jwt.get_unverified_header(token)`: `none` if it raises, else the `kid` of the header
  pub header_kid : Text → Option (Option Text)
  -- `jwt.decode(token, key, …)` with the algorithms, the audience, the issuer and the required
  -- claims of the server
  pub decode : Text → Text → Decoded

-- `JWT_PUBLIC_KEY` and `JWT_PUBLIC_KEYS`, kids with keys in the order of the dict
pub record Keys : Type 0 where
  pub public_key : Option Text
  pub public_keys : List (Text × Text)

-- `keys[kid]`
unfoldable pub lookup_key : Text → List (Text × Text) → Option Text
lookup_key kid [] = none
lookup_key kid ((k, key) ∷ keys) = if text_eq k kid then some key else lookup_key kid keys

-- `if kid:`
abbrev pub named_kid : Option Text → Option Text
named_kid none = none
named_kid (some []) = none
named_kid (some (c ∷ s)) = some (c ∷ s)

-- `payload.get('tenant')` is not empty.
abbrev pub has_tenant : Payload → Bool
has_tenant p = elim p.tenant [ none ↦ false | some t ↦ truthy t ]

-- A key that the server is configured with.
pub data IsConfigured (ks : Keys) (key : Text) : Type 0 where
  single : ks.public_key ≡ some key → IsConfigured ks key
  listed : (kid : Text) → In (kid, key) ks.public_keys → IsConfigured ks key

pub lookup_key-In :
    (kid key : Text) (keys : List (Text × Text))
    → lookup_key kid keys ≡ some key
    → In (kid, key) keys
unfolding lookup_key
lookup_key-In kid key [] h = cc
lookup_key-In kid key ((k, v) ∷ keys) h = elim (Bool-cases (text_eq k kid)) [
  | inl e ↦ inl (ground (arith, text_eq_iff k kid))
  | inr e ↦ inr (lookup_key-In kid key keys (ground arith))
]
