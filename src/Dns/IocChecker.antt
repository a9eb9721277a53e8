-- ===== src/Dns/IocChecker.antt =====
-- dns-server/app/services/ioc_checker.py. Networks and addresses are those of Python's
-- `ipaddress`, which is an argument (`Networks`). A set is the list of what was added.
pub mod Blocking
use squawk.Prelude.{
  ℕ, Bool, true, false, not, ◌&&◌, ◌||◌, ◌==◌, Option, none, some, List, [], ◌∷◌, Text, codes,
  truthy, text_eq, strip, rstrip, lower, starts_with, ends_with, split, join, any, if◌then◌else◌,
}

-- `ipaddress.ip_network(entry, strict=False)`, its `num_addresses == 1` with the text of the
-- address, `ipaddress.ip_address(text)` and `address in network`; `none` is a `ValueError`.
pub record Networks : Type 1 where
  pub Network : Type 0
  pub Address : Type 0
  pub ip_network : Text → Option Network
  pub single_address : Network → Option Text
  pub ip_address : Text → Option Address
  pub contains : Network → Address → Bool

pub record Feed : Type 0 where
  pub entries : List Text

module _ (n : Networks) where
  pub record Checker : Type 0 where
    pub blocked_domains : List Text
    pub wildcard_domains : List Text
    pub blocked_ips : List Text
    pub blocked_cidrs : List n.Network

  -- `clear`
  abbrev pub cleared : Checker
  cleared = record {
    blocked_domains = [];
    wildcard_domains = [];
    blocked_ips = [];
    blocked_cidrs = [];
  }

-- `x in set`
unfoldable pub is_member : Text → List Text → Bool
is_member x xs = any (text_eq x) xs

-- `entry.strip().rstrip('.').lower()`
unfoldable pub normalize : Text → Text
normalize entry = lower (rstrip (λ c. c == b'.') (strip entry))

abbrev pub wildcard : Text
wildcard = codes "*."

module _ (n : Networks) where
  -- `_try_load_ip_or_cidr`, and the entry as a domain if it is no address
  unfoldable pub load_entry : Text → Checker n → Checker n
  load_entry [] c = c
  load_entry (d ∷ entry) c =
      let text = normalize (d ∷ entry) in
      elim (n.ip_network text) [
        | some network ↦ elim (n.single_address network) [
          | some ip ↦ record c { blocked_ips = ip ∷ c.blocked_ips }
          | none ↦ record c { blocked_cidrs = network ∷ c.blocked_cidrs }
        ]
        | none ↦
            if starts_with text wildcard
            then record c { wildcard_domains = text ∷ c.wildcard_domains }
            else record c { blocked_domains = text ∷ c.blocked_domains }
      ]

  unfoldable pub load_entries : List Text → Checker n → Checker n
  load_entries [] c = c
  load_entries (e ∷ es) c = load_entries es (load_entry e c)

  unfoldable pub load_all : List Feed → Checker n → Checker n
  load_all [] c = c
  load_all (f ∷ fs) c = load_all fs (load_entries f.entries c)

  -- `load_feeds`: what was loaded before is cleared
  unfoldable pub load_feeds : List Feed → Checker n
  load_feeds feeds = load_all feeds (cleared n)

  abbrev pub pattern_of : Text → Text
  pattern_of (a ∷ b ∷ s) = s
  pattern_of _ = []

  -- `_check_wildcard`
  unfoldable pub check_wildcard : Checker n → Text → Bool
  check_wildcard c domain =
      any (λ w. ends_with domain (b'.' ∷ pattern_of w) || text_eq domain (pattern_of w))
        c.wildcard_domains

  -- The loop of `is_blocked` over the parents, which are the joined tails of the parts.
  unfoldable pub check_parents : Checker n → List Text → Bool
  check_parents c [] = false
  check_parents c (p ∷ parts) =
      let rest = check_parents c parts in
      is_member (join b'.' (p ∷ parts)) c.blocked_domains || rest

  abbrev pub drop_first : List Text → List Text
  drop_first [] = []
  drop_first (p ∷ parts) = parts

  -- `is_blocked`
  unfoldable pub is_blocked : Checker n → Text → Bool
  is_blocked c domain =
      let text = normalize domain in
      is_member text c.blocked_domains
      || check_wildcard c text
      || check_parents c (drop_first (split b'.' text))

  -- `is_ip_blocked`
  unfoldable pub is_ip_blocked : Checker n → Text → Bool
  is_ip_blocked c ip =
      let text = lower (strip ip) in
      is_member text c.blocked_ips || (elim (n.ip_address text) [
        | none ↦ false
        | some a ↦ any (λ cidr. n.contains cidr a) c.blocked_cidrs
      ])
