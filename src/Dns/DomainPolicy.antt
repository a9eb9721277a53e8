-- ===== src/Dns/DomainPolicy.antt =====
-- dns-server/app/utils/domain_policy.py. Letters are those of ASCII: a name with others is not
-- brought to lower case here.
pub mod Matching
use squawk.Prelude.{
  ℕ, Bool, true, false, ◌||◌, Option, none, some, List, [], ◌∷◌, Text, codes, text_eq, lower,
  rstrip, starts_with, ends_with, any, ◌==◌, if◌then◌else◌,
}

-- `normalize_domain`
unfoldable pub normalize_domain : Text → Text
normalize_domain domain = rstrip (λ c. c == b'.') (lower domain)

abbrev drop_two : Text → Text
drop_two (a ∷ b ∷ s) = s
drop_two _ = []

-- Whether the loop of `matches_policy` returns at this entry; both are normalized.
pub matches_entry : Text → Text → Bool
matches_entry query entry =
    let suffix = drop_two entry in
    if text_eq query entry
    then true
    else if starts_with entry (codes "*.")
    then (if ends_with query (b'.' ∷ suffix) || text_eq query suffix
        then (if text_eq query suffix then false else true)
        else false)
    else false

-- `matches_policy`
unfoldable pub matches_policy : Text → Option (List Text) → Bool
unfolding matches_entry
matches_policy name none = true
matches_policy name (some []) = false
matches_policy name (some (d ∷ ds)) =
    any (λ entry. matches_entry (normalize_domain name) (normalize_domain entry)) (d ∷ ds)
