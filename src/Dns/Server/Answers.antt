-- ===== src/Dns/Server/Answers.antt =====
-- What a query that is answered has passed, and what the cache holds.
use squawk.Prelude.{
  ◌==◌, Text, true, false, none, some, [], ◌≡◌, ◌⊎◌, inl, inr, truthy, Bool-cases, Option-cases,
  arith, sym, subst, ◌∙◌,
}
use squawk.Dns.Zones.{Response}
use squawk.Dns.Resilience.{should_serve_zone}
use squawk.Dns.IocChecker.{Networks, is_blocked}
use squawk.Dns.CacheManager.{Cache, CacheManager, get, set}
use squawk.Dns.CacheManager.Keys.{get_congr, redis-get, get-set_key}
use squawk.Dns.Server.{
  Services, DnsCall, answered, find_zone_name, policy_denies, look_up, bad_answer, fresh_answer,
  dns_query,
}

module _ (n : Networks) (s : Services n) where
  -- The query may be answered: the limiter allows it, the zone is served to its token in its mode,
  -- the token's policy does not deny it, and no feed blocks the name.
  abbrev pub IsCleared : DnsCall → Type 0
  IsCleared c =
      (c.allowed ≡ true)
      × (should_serve_zone c.mode s.jwt s.keys s.config_zones
            (find_zone_name s.config_zones c.domain) (some c.token)
          ≡ true)
      × (policy_denies s.jwt s.keys c.token c.domain ≡ false)
      × (is_blocked n s.checker c.domain ≡ false)

  module _ (cache : Cache) where
    -- The reply is in the cache already, or it is what the lookup gives, with no address in a feed.
    abbrev pub IsLookedUp : DnsCall → CacheManager cache → Response → Type 0
    IsLookedUp c st r =
        ((get cache c.domain c.record_type st).0 ≡ some r)
        ⊎ ((r ≡ look_up n s c.domain c.record_type) × (bad_answer n s r ≡ false))

    fresh_answer-answers :
        (c : DnsCall) (st st' : CacheManager cache) (r : Response)
        → fresh_answer n s cache c st ≡ (answered r, st')
        → (r.answers ≡ []) ⊎ ((r ≡ look_up n s c.domain c.record_type) × (bad_answer n s r ≡ false))
    unfolding fresh_answer
    fresh_answer-answers c st st' r h =
        elim (Bool-cases (bad_answer n s (look_up n s c.domain c.record_type))) [
          | inl bad ↦ inl (ground arith)
          | inr fine ↦
              let same : r ≡ look_up n s c.domain c.record_type = ground arith in
              inr (same, subst (λ (x : Response). bad_answer n s x ≡ false) (sym same) fine)
        ]

    -- A reply that holds any answer is to a query that the limiter allows, for a zone that is served
    -- to its token, that the token's policy does not deny and whose name no feed blocks; it is in the
    -- cache, or it is what the zones or public DNS give and none of its addresses is in a feed.
    pub dns_query-answers :
        (c : DnsCall) (st st' : CacheManager cache) (r : Response)
        → dns_query n s cache c st ≡ (answered r, st')
        → (r.answers ≡ []) ⊎ (IsCleared c × IsLookedUp c st r)
    unfolding dns_query
    dns_query-answers c st st' r h = elim (Bool-cases (truthy c.domain)) [
      | inr e ↦ ground arith
      | inl e ↦ elim (Bool-cases c.allowed) [
        | inr ea ↦ ground arith
        | inl ea ↦
            elim (Bool-cases (
              should_serve_zone c.mode s.jwt s.keys s.config_zones
                (find_zone_name s.config_zones c.domain) (some c.token))) [
                  | inr es ↦ inl (ground arith)
                  | inl es ↦ elim (Bool-cases (policy_denies s.jwt s.keys c.token c.domain)) [
                    | inl ep ↦ inl (ground arith)
                    | inr ep ↦ elim (Bool-cases (is_blocked n s.checker c.domain)) [
                      | inl eb ↦ inl (ground arith)
                      | inr eb ↦ passed (ea, es, ep, eb) (ground arith)
                    ]
                  ]
                ]
      ]
    ]
      where
        passed :
            IsCleared c
            → (elim (get cache c.domain c.record_type st).0 [
              | some r ↦ (answered r, (get cache c.domain c.record_type st).1)
              | none ↦ fresh_answer n s cache c (get cache c.domain c.record_type st).1
            ])
              ≡ (answered r, st')
            → (r.answers ≡ []) ⊎ (IsCleared c × IsLookedUp c st r)
        passed ok hc = elim (Option-cases (get cache c.domain c.record_type st).0) [
          | inr (q, eq) ↦ inr (ok, inl (ground arith))
          | inl eq ↦
              elim (fresh_answer-answers c (get cache c.domain c.record_type st).1 st' r
                (ground arith)) [ inl none_left ↦ inl none_left | inr found ↦ inr (ok, inr found) ]
        ]

    -- What is cached holds no address that is in a feed.
    abbrev pub IsClean : CacheManager cache → Type 0
    IsClean st =
        (d t : Text) (r : Response) → (get cache d t st).0 ≡ some r → bad_answer n s r ≡ false

    -- A query leaves what is stored alone, or stores a reply with no address in a feed.
    abbrev Stored : DnsCall → CacheManager cache → CacheManager cache → Type 0
    Stored c st st' =
        (st'.redis ≡ st.redis)
        ⊎ ((r : Response) × (m : CacheManager cache) × (m.redis ≡ st.redis)
            × (st' ≡ set cache c.domain c.record_type r m)
            × (bad_answer n s r ≡ false))

    fresh_answer-Stored :
        (c : DnsCall) (st m : CacheManager cache)
        → m.redis ≡ st.redis
        → Stored c st (fresh_answer n s cache c m).1
    unfolding fresh_answer
    fresh_answer-Stored c st m e =
        let r = look_up n s c.domain c.record_type in
        elim (Bool-cases (bad_answer n s r)) [
          | inl bad ↦ inl (ground (arith, e))
          | inr fine ↦ elim (Bool-cases (r.status == 0)) [
            | inr es ↦ inl (ground (arith, e))
            | inl es ↦ inr (r, m, e, ground arith, fine)
          ]
        ]

    dns_query-Stored :
        (c : DnsCall) (st : CacheManager cache) → Stored c st (dns_query n s cache c st).1
    unfolding dns_query
    dns_query-Stored c st = elim (Bool-cases (truthy c.domain)) [
      | inr e ↦ inl (ground arith)
      | inl e ↦ elim (Bool-cases c.allowed) [
        | inr ea ↦ inl (ground arith)
        | inl ea ↦
            elim (Bool-cases (
              should_serve_zone c.mode s.jwt s.keys s.config_zones
                (find_zone_name s.config_zones c.domain) (some c.token))) [
                  | inr es ↦ inl (ground arith)
                  | inl es ↦ elim (Bool-cases (policy_denies s.jwt s.keys c.token c.domain)) [
                    | inl ep ↦ inl (ground arith)
                    | inr ep ↦ elim (Bool-cases (is_blocked n s.checker c.domain)) [
                      | inl eb ↦ inl (ground arith)
                      | inr eb ↦ elim (Option-cases (get cache c.domain c.record_type st).0) [
                        | inr (q, eq) ↦
                            inl (ground (arith, redis-get cache c.domain c.record_type st))
                        | inl eq ↦
                            let m = (get cache c.domain c.record_type st).1 in
                            let same : (dns_query n s cache c st).1
                                ≡ (fresh_answer n s cache c m).1 =
                              ground arith in
                            subst (Stored c st) (sym same) (
                              fresh_answer-Stored c st m
                                (redis-get cache c.domain c.record_type st))
                      ]
                    ]
                  ]
                ]
      ]
    ]

    -- A query keeps the cache free of replies that hold an address of a feed.
    pub dns_query-IsClean :
        (c : DnsCall) (st : CacheManager cache) → IsClean st → IsClean (dns_query n s cache c st).1
    dns_query-IsClean c st clean = elim (dns_query-Stored c st) [
      | inl same ↦ λ d t r got.
          clean d t r (get_congr cache d t st (dns_query n s cache c st).1 (sym same) ∙ got)
      | inr (r, m, kept, stored, fine) ↦ subst IsClean (sym stored) λ d t r' got.
          elim (get-set_key cache d c.domain t c.record_type r r' m got) [
            | inl old ↦ clean d t r' (get_congr cache d t st m (sym kept) ∙ old)
            | inr (_, same) ↦ subst (λ (x : Response). bad_answer n s x ≡ false) (sym same) fine
          ]
    ]

    -- While the cache is free of them, no reply holds an address that is in a feed.
    pub dns_query-not_bad :
        (c : DnsCall) (st st' : CacheManager cache) (r : Response)
        → IsClean st
        → dns_query n s cache c st ≡ (answered r, st')
        → bad_answer n s r ≡ false
    dns_query-not_bad c st st' r clean h = elim (dns_query-answers c st st' r h) [
      | inl nothing ↦ ground (arith, nothing)
      | inr (_, inl old) ↦ clean c.domain c.record_type r old
      | inr (_, inr (_, fine)) ↦ fine
    ]
