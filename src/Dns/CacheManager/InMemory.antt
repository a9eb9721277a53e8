-- ===== src/Dns/CacheManager/InMemory.antt =====
-- Redis as a list of keys and texts in which nothing runs out, and a text for every response: what
-- the cache manager relies on can hold.
use squawk.Prelude.{
  ℕ, zero, suc, Option, none, some, List, [], ◌∷◌, ◌++◌, ◌≡◌, ◌⊎◌, inl, inr, Text, text_eq,
  text_eq_iff, length, take, drop, take-append, drop-append, refl, arith, Bool-cases, any,
  if◌then◌else◌, codes, starts_with,
}
use squawk.Dns.Zones.{Answer, Response}
use squawk.Dns.CacheManager.{Cache}

abbrev Entries : Type 0
Entries = List (Text × Text)

abbrev lookup : Text → Entries → Option Text
lookup k [] = none
lookup k ((k', v) ∷ s) = let rest = lookup k s in if text_eq k k' then some v else rest

-- The keys that begin with `dns:`; no other pattern is asked for.
abbrev keys_of : Entries → List Text
keys_of [] = []
keys_of ((k, v) ∷ s) =
    let rest = keys_of s in if starts_with k (codes "dns:") then k ∷ rest else rest

abbrev remaining : List Text → Entries → Entries
remaining ks [] = []
remaining ks ((k, v) ∷ s) =
    let rest = remaining ks s in if any (text_eq k) ks then rest else (k, v) ∷ rest

-- A text after its length.
abbrev put_text : Text → Text → Text
put_text s rest = length s ∷ (s ++ rest)

abbrev take_text : Text → Text × Text
take_text [] = ([], [])
take_text (n ∷ s) = (take n s, drop n s)

take_self : (s rest : Text) → take (length s) (s ++ rest) ≡ s
take_self s rest = take-append (length s) s rest refl

drop_self : (s rest : Text) → drop (length s) (s ++ rest) ≡ rest
drop_self s rest = drop-append (length s) s rest refl

abbrev put_answers : List Answer → Text
put_answers [] = []
put_answers (a ∷ more) =
    put_text a.name (put_text a.record_type (a.ttl ∷ put_text a.data_text (put_answers more)))

abbrev put_response : Response → Text
put_response r =
    r.status
    ∷ put_text r.question_name (put_text r.question_type (length r.answers ∷ put_answers r.answers))

abbrev first_of : Text → ℕ × Text
first_of [] = (0, [])
first_of (n ∷ s) = (n, s)

abbrev take_answers : ℕ → Text → List Answer
take_answers zero s = []
take_answers (suc n) s =
    let (name, s1) = take_text s in
    let (kind, s2) = take_text s1 in
    let (ttl, s3) = first_of s2 in
    let (value, s4) = take_text s3 in
    record { name = name; record_type = kind; ttl = ttl; data_text = value } ∷ take_answers n s4

abbrev take_response : Text → Option Response
take_response [] = none
take_response (status ∷ s) =
    let (name, s1) = take_text s in
    let (kind, s2) = take_text s1 in
    let (n, s3) = first_of s2 in
    some (record {
      status = status;
      question_name = name;
      question_type = kind;
      answers = take_answers n s3;
    })

take_answers-put_answers :
    (answers : List Answer) → take_answers (length answers) (put_answers answers) ≡ answers
take_answers-put_answers [] = refl
take_answers-put_answers (a ∷ more) = simp (take_self, drop_self, take_answers-put_answers more)

pub take_response-put_response : (r : Response) → take_response (put_response r) ≡ some r
take_response-put_response r = simp (take_self, drop_self, take_answers-put_answers r.answers)

pub lookup-stored :
    (k k' v v' : Text) (ttl : ℕ) (s s' : Entries)
    → some ((k', v) ∷ s) ≡ some s'
    → some (lookup k s') ≡ some (some v')
    → (some (lookup k s) ≡ some (some v')) ⊎ ((k ≡ k') × (v' ≡ v))
lookup-stored k k' v v' ttl s s' e h = elim (Bool-cases (text_eq k k')) [
  | inl same ↦ inr ((text_eq_iff k k').0 same, ground arith)
  | inr other ↦ inl (ground arith)
]

-- Time to live of a day.
abbrev pub list_cache : Cache
list_cache = record {
  Store = Entries;
  redis_get = λ k s. some (lookup k s);
  redis_setex = λ k ttl v s. some ((k, v) ∷ s);
  redis_keys = λ pattern s. some (keys_of s);
  redis_delete = λ ks s. some (remaining ks s);
  dumps = put_response;
  loads = take_response;
  cache_ttl = 86400;
  get-setex = lookup-stored;
  loads-dumps = take_response-put_response;
}
