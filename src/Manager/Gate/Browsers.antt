-- ===== src/Manager/Gate/Browsers.antt =====
-- What a request needs to enter.
use squawk.Prelude.{
  refl, false, ℕ, Bool, true, Option, none, some, [], ◌∷◌, ◌≡◌, Text, text_eq, text_eq_iff, truthy,
  split, arith, ap, sym, ◌∙◌, Bool-cases, Option-cases, inl, inr,
}
use squawk.Manager.Claims.{Claims, Verifier, decode_token}
use squawk.Manager.Gate.{
  extract_bearer_or_cookie_token, token_required, HttpRequest, present, second_part, is_protected,
  csrf_check_passes, enters, is_session_type, check_token, compare_digest, check_claims, csrf_fails,
}

-- The token stands in the authorization header, or in the cookie of a request without that header,
-- which then carries a matching pair if its method changes state.
pub data Carries (r : HttpRequest) (token : Text) : Type 0 where
  in_header :
      (header : Text)
      → r.authorization ≡ some header
      → second_part (split 32 header) ≡ some token
      → Carries r token
  in_cookie :
      present r.authorization ≡ none
      → r.access_cookie ≡ some token
      → (is_protected r ≡ true
          → (csrf : Text) × (r.csrf_cookie ≡ some csrf)
            × (r.csrf_header ≡ some csrf)
            × (truthy csrf ≡ true))
      → Carries r token

present-some : (s : Option Text) (t : Text) → present s ≡ some t → (s ≡ some t) × (truthy t ≡ true)
present-some none t h = cc
present-some (some []) t h = cc
present-some (some (c ∷ s)) t h = (h, ground (arith, h))

present-truthy : (t : Text) → truthy t ≡ true → present (some t) ≡ some t
present-truthy [] h = ground arith
present-truthy (c ∷ s) h = refl

compare_digest-true : (a b : Text) → compare_digest a b ≡ some true → text_eq a b ≡ true
compare_digest-true a b h = ground arith

csrf_check_passes-pair :
    (r : HttpRequest)
    → csrf_check_passes r ≡ some true
    → is_protected r ≡ true
    → (csrf : Text) × (r.csrf_cookie ≡ some csrf)
      × (r.csrf_header ≡ some csrf)
      × (truthy csrf ≡ true)
unfolding csrf_check_passes
csrf_check_passes-pair r h protected = elim (Option-cases (present r.csrf_cookie)) [
  | inl e ↦ ground (arith, h, protected, e)
  | inr (cookie, e) ↦ elim (Option-cases (present r.csrf_header)) [
    | inl e' ↦ ground (arith, h, protected, e, e')
    | inr (header, e') ↦
        let (first, some_text) = present-some r.csrf_cookie cookie e in
        let (second, _) = present-some r.csrf_header header e' in
        let compared : compare_digest cookie header ≡ some true =
          ground (arith, h, protected, e, e') in
        let pair : text_eq cookie header ≡ true = compare_digest-true cookie header compared in
        let same : cookie ≡ header = ground (arith, pair, text_eq_iff cookie header) in
        (cookie, first, second ∙ ap some (sym same), some_text)
  ]
]

check_claims-enters :
    (v : Verifier) (key : Option Text) (now : ℕ) (token : Text) (c : Claims)
    → check_claims v key now token ≡ enters c
    → (decode_token v key now token ≡ some c) × (is_session_type c.token_type ≡ true)
unfolding check_claims
check_claims-enters v key now token c h = elim (Option-cases (decode_token v key now token)) [
  | inl ed ↦ ground (arith, h, ed)
  | inr (d, ed) ↦ elim (Bool-cases (is_session_type d.token_type)) [
    | inr et ↦ ground (arith, h, ed, et)
    | inl et ↦
        let same : d ≡ c = ground (arith, h, ed, et) in
        (ed ∙ ap some same, ap (λ (x : Claims). is_session_type x.token_type) (sym same) ∙ et)
  ]
]

csrf_fails-not :
    (r : HttpRequest) (from_cookie : Bool)
    → csrf_fails r from_cookie ≡ some false
    → from_cookie ≡ true
    → csrf_check_passes r ≡ some true
unfolding csrf_fails
csrf_fails-not r from_cookie h cookie = elim (Option-cases (csrf_check_passes r)) [
  | inl e ↦ ground (arith, h, cookie, e)
  | inr (true, e) ↦ e
  | inr (false, e) ↦ ground (arith, h, cookie, e)
]

-- What `check_token` has found when it lets a caller in.
check_token-enters :
    (v : Verifier) (key : Option Text) (now : ℕ) (r : HttpRequest) (token : Text)
    (from_cookie : Bool) (c : Claims)
    → check_token v key now r token from_cookie ≡ enters c
    → (decode_token v key now token ≡ some c)
      × (is_session_type c.token_type ≡ true)
      × (from_cookie ≡ true → csrf_check_passes r ≡ some true)
unfolding check_token
check_token-enters v key now r token from_cookie c h =
    elim (Option-cases (csrf_fails r from_cookie)) [
      | inl e ↦ ground (arith, h, e)
      | inr (true, e) ↦ ground (arith, h, e)
      | inr (false, e) ↦
          let (decoded, kind) = check_claims-enters v key now token c (ground (arith, h, e)) in
          (decoded, kind, csrf_fails-not r from_cookie e)
    ]

-- A request enters only with a token that verifies, of an access or server type: the one in its
-- authorization header, or without that header the one in its cookie, where a method that changes
-- state also needs the same text, not empty, in the header and in the cookie of the double submit.
pub token_required-enters :
    (v : Verifier) (key : Option Text) (now : ℕ) (r : HttpRequest) (c : Claims)
    → token_required v key now r ≡ enters c
    → (token : Text) × Carries r token
      × (decode_token v key now token ≡ some c)
      × (is_session_type c.token_type ≡ true)
unfolding token_required extract_bearer_or_cookie_token
token_required-enters v key now r c h = elim (Option-cases (present r.authorization)) [
  | inr (header, e) ↦ elim (Option-cases (present (second_part (split 32 header)))) [
    | inl ep ↦ ground (arith, h, e, ep)
    | inr (token, ep) ↦
        let (there, _) = present-some r.authorization header e in
        let (part, _) = present-some (second_part (split 32 header)) token ep in
        let checked : check_token v key now r token false ≡ enters c = ground (arith, h, e, ep) in
        let (decoded, kind, _) = check_token-enters v key now r token false c checked in
        (token, in_header header there part, decoded, kind)
  ]
  | inl e ↦ elim (Option-cases (present r.access_cookie)) [
    | inl ec ↦ ground (arith, h, e, ec)
    | inr (token, ec) ↦
        let (there, full) = present-some r.access_cookie token ec in
        let checked : check_token v key now r token true ≡ enters c =
          ground (arith, h, e, ec, present-truthy token full) in
        let (decoded, kind, passed) = check_token-enters v key now r token true c checked in
        (token, in_cookie e there (csrf_check_passes-pair r (passed refl)), decoded, kind)
  ]
]
