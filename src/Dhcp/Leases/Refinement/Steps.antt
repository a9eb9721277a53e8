-- ===== src/Dhcp/Leases/Refinement/Steps.antt =====
-- The calls against what they are meant to do, one by one and in a history.
use squawk.Prelude.{
  find?-exists, find?-matches, find?-append, find?-append_new, find?-map, find?-some, ℕ, true,
  false, ◌&&◌, ◌==◌, ◌≡◌, Option, none, some, List, [], ◌∷◌, map, find?, Text, text_eq, text_eq_iff,
  arith, refl, sym, ap, ◌∙◌, Bool-cases, Option-cases, inl, inr,
}
use squawk.Dhcp.Database.{LeaseRow, Backend, Db, changed, released}
use squawk.Dhcp.Model.{Config, of_client}
use squawk.Dhcp.Leases.{
  of_id, with_status, write_lease, create_lease, release_lease, expire_old_leases,
}
use squawk.Dhcp.Leases.Writes.{
  rewrite-lease, new_row-client, rewrite, new_row, table, write_lease-cases,
}
use squawk.Dhcp.Leases.Sweep.{mark, table-swept}
use squawk.Dhcp.Leases.Refinement.{
  Change, create, release, sweep, intended, specified, specified_all, performed, performed_all,
  client_map, lease_in,
}

text_eq_sym : (s t : Text) → text_eq s t ≡ text_eq t s
text_eq_sym s t = ground (arith, text_eq_iff s t, text_eq_iff t s)

-- Whether a row is another client's is decided by the names of the clients.
same_client :
    (pool : ℕ) (mac : Text) (p : ℕ) (m : Text) (r : LeaseRow)
    → of_client p m r ≡ true
    → of_client pool mac r ≡ (text_eq mac m && pool == p)
same_client pool mac p m r own =
    let same_mac : r.mac_address ≡ m = ground (arith, text_eq_iff r.mac_address m) in
    let same_pool : r.pool_id ≡ p = ground arith in
    let turned : text_eq r.mac_address mac ≡ text_eq mac m =
      ap (λ x. text_eq x mac) same_mac ∙ text_eq_sym m mac in
    ground (arith, turned, same_pool)

module _ (b : Backend) where
  module _ (c : Config) (now pool : ℕ) (mac ip : Text) (hostname : Option Text) (db : Db b) where
    abbrev created : Db b
    created = write_lease b c now pool mac ip hostname db

    abbrev written : LeaseRow → LeaseRow
    written = rewrite b c now pool mac ip hostname db

    table-written :
        (p : ℕ) (m : Text)
        → table b created ≡ map written (table b db)
        → client_map b created p m
          ≡ lease_in (elim (find? (of_client p m) (table b db)) [
            | none ↦ none
            | some r ↦ some (written r)
          ])
    table-written p m e =
        ap (λ rows. lease_in (find? (of_client p m) rows)) e
        ∙ ap lease_in (find?-map (of_client p m) written (table b db) (λ r. ground arith))

    -- The client has the lease that was meant.
    create-own : client_map b created pool mac ≡ some (intended c now pool mac ip hostname)
    create-own = elim (write_lease-cases b c now pool mac ip hostname db) [
      | inl (fresh, e) ↦
          ap (λ rows. lease_in (find? (of_client pool mac) rows)) e
          ∙ ap lease_in (
              find?-append_new (of_client pool mac) (table b db)
                (new_row b c now pool mac ip hostname db) fresh
                (new_row-client b c now pool mac ip hostname db))
      | inr (old, there, h, e) ↦
          let (r, found) = find?-exists (of_client pool mac) (table b db) old there h in
          let own = find?-matches (of_client pool mac) (table b db) r found in
          let lease = rewrite-lease b c now pool mac ip hostname db r own in
          let whole = table-written pool mac e in ground (arith, whole, found, lease)
    ]

    -- Any other client keeps its lease.
    create-other :
        (p : ℕ) (m : Text)
        → (text_eq mac m && pool == p) ≡ false
        → client_map b created p m ≡ client_map b db p m
    create-other p m other = elim (write_lease-cases b c now pool mac ip hostname db) [
      | inl (fresh, e) ↦
          ap (λ rows. lease_in (find? (of_client p m) rows)) e
          ∙ ap lease_in (
              find?-append (of_client p m) (table b db) (new_row b c now pool mac ip hostname db)
                other)
      | inr (old, _, _, e) ↦
          let whole = table-written p m e in
          elim (Option-cases (find? (of_client p m) (table b db))) [
            | inl en ↦ ground (arith, whole, en)
            | inr (r, found) ↦
                let owner =
                  same_client pool mac p m r (find?-matches (of_client p m) (table b db) r found) in
                ground (arith, whole, found, owner, other)
          ]
    ]

    create-specified :
        (p : ℕ) (m : Text)
        → client_map b created p m
          ≡ specified (create c now pool mac ip hostname) (client_map b db) p m
    unfolding specified
    create-specified p m = elim (Bool-cases (text_eq mac m && pool == p)) [
      | inr other ↦ ground (arith, other, create-other p m other)
      | inl own ↦
          let same_mac : mac ≡ m = ground (arith, text_eq_iff mac m) in
          let same_pool : pool ≡ p = ground arith in
          let step : client_map b created p m ≡ some (intended c now pool mac ip hostname) =
            ap (λ x. client_map b created x m) (sym same_pool)
            ∙ (ap (λ x. client_map b created pool x) (sym same_mac) ∙ create-own) in
          ground (arith, own, step)
    ]

  release-specified :
      (pool : ℕ) (mac : Text) (db : Db b) (p : ℕ) (m : Text)
      → client_map b (release_lease b pool mac db).1 p m
        ≡ specified (release pool mac) (client_map b db) p m
  unfolding specified release_lease
  release-specified pool mac db p m =
      let marked = changed (of_client pool mac) (with_status b released) in
      elim (Option-cases (b.leases.first (of_client pool mac) db.leases)) [
        | inl e ↦
            let fresh = b.leases.first-none (of_client pool mac) db.leases e in
            elim (Option-cases (find? (of_client p m) (table b db))) [
              | inl en ↦ ground (arith, e, en)
              | inr (r, found) ↦
                  let (there, own) = find?-some (of_client p m) (table b db) r found in
                  let owner = same_client pool mac p m r own in
                  let free = fresh r there in ground (arith, e, found, owner, free)
            ]
        | inr (old, e) ↦
            let rows =
              b.leases.rows-update (of_client pool mac) (with_status b released) db.leases in
            let read = find?-map (of_client p m) marked (table b db) (λ r. ground arith) in
            let whole = ap (λ x. lease_in (find? (of_client p m) x)) rows ∙ ap lease_in read in
            elim (Option-cases (find? (of_client p m) (table b db))) [
              | inl en ↦ ground (arith, e, en, whole)
              | inr (r, found) ↦
                  let owner =
                    same_client pool mac p m r
                      (find?-matches (of_client p m) (table b db) r found) in
                  ground (arith, e, found, whole, owner)
            ]
      ]

  sweep-specified :
      (now pool : ℕ) (db : Db b) (p : ℕ) (m : Text)
      → client_map b (expire_old_leases b now pool db).1 p m
        ≡ specified (sweep now pool) (client_map b db) p m
  unfolding specified
  sweep-specified now pool db p m =
      let found = find?-map (of_client p m) (mark b now pool) (table b db) (λ r. ground arith) in
      let whole =
        ap (λ rows. lease_in (find? (of_client p m) rows)) (table-swept b now pool db)
        ∙ ap lease_in found in
      elim (Option-cases (find? (of_client p m) (table b db))) [
        | inl e ↦ ground (arith, whole, e)
        | inr (r, e) ↦ ground (arith, whole, e)
      ]

  -- One call.
  performed-specified :
      (x : Change) (db : Db b) (p : ℕ) (m : Text)
      → client_map b (performed b x db) p m ≡ specified x (client_map b db) p m
  unfolding performed create_lease
  performed-specified (create c now pool mac ip hostname) db p m =
      let written = create-specified c now pool mac ip hostname db p m in
      elim (Option-cases
        (b.pools.first (of_id b pool) (write_lease b c now pool mac ip hostname db).pools)) [
          | inl e ↦ ground (arith, e, written)
          | inr (pool_row, e) ↦ ground (arith, e, written)
        ]
  performed-specified (release pool mac) db p m = release-specified pool mac db p m
  performed-specified (sweep now pool) db p m = sweep-specified now pool db p m

  -- Any history of creations, releases and sweeps changes the map from the clients of each pool to
  -- their leases as the map's own operations do: creating puts the lease of one client, releasing
  -- marks that client's lease, and a sweep marks those of the pool that are active and have run out.
  pub performed_all-specified_all :
      (xs : List Change) (db : Db b) (p : ℕ) (m : Text)
      → client_map b (performed_all b xs db) p m ≡ specified_all xs (client_map b db) p m
  unfolding performed_all specified_all
  performed_all-specified_all [] db p m = refl
  performed_all-specified_all (x ∷ xs) db p m =
      let step : client_map b (performed b x db) ≡ specified x (client_map b db) =
        λ i q n. performed-specified x db q n i in
      performed_all-specified_all xs (performed b x db) p m ∙ ap (λ v. specified_all xs v p m) step
