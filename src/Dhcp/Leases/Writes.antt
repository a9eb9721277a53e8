-- ===== src/Dhcp/Leases/Writes.antt =====
-- The rows after `create_lease` and `release_lease`, and how many of them a client has.
use squawk.Prelude.{
  [], Bool, true, false, Text, Option, List, count-zero, Bool-cases, refl, ◌⊎◌, count-append, ◌+◌,
  ◌∷◌, map, In-append_left, ◌∙◌, In-append_right, sym, ap, In-append, subst, text_eq_refl, ◌++◌,
  text_eq_iff, inr, inl, count_congr, count-map, In-of_map, arith, Option-cases, In-map, ◌≤◌, count,
  In, ◌≡◌, ℕ,
}
use squawk.Dhcp.Database.{LeaseRow, Lease, Backend, Db, changed}
use squawk.Dhcp.Model.{Config, of_client}
use squawk.Dhcp.Leases.{new_lease, renewed, write_lease}

module _ (b : Backend) where
  abbrev pub table : Db b → List LeaseRow
  table db = b.leases.rows db.leases

  -- No client has two rows in one pool.
  abbrev pub IsUnique : Db b → Type 0
  IsUnique db = (pool : ℕ) (mac : Text) → count (of_client pool mac) (table db) ≤ 1

  -- What leaves the owner and the pool of each row alone keeps the counts.
  pub count-update :
      (q : LeaseRow → Bool) (f : Lease → Lease) (s : b.leases.Store)
      → ((l : Lease) → ((f l).pool_id ≡ l.pool_id) × ((f l).mac_address ≡ l.mac_address))
      → (pool : ℕ) (mac : Text)
      → count (of_client pool mac) (b.leases.rows (b.leases.update q f s))
        ≡ count (of_client pool mac) (b.leases.rows s)
  count-update q f s keeps pool mac =
      rw
        (b.leases.rows-update q f s, count-map (of_client pool mac) (changed q f) (b.leases.rows s))
        (count_congr _ _ (b.leases.rows s) λ r. ground (arith, keeps r.lease))

  -- A row of the table after an update comes from one before.
  pub In-update :
      (q : LeaseRow → Bool) (f : Lease → Lease) (s : b.leases.Store) (r : LeaseRow)
      → In r (b.leases.rows (b.leases.update q f s))
      → (r' : LeaseRow) × In r' (b.leases.rows s) × (r ≡ changed q f r')
  In-update q f s r m = In-of_map (changed q f) r (b.leases.rows s) (rw b.leases.rows-update at m)

  pub update-In :
      (q : LeaseRow → Bool) (f : Lease → Lease) (s : b.leases.Store) (r : LeaseRow)
      → In r (b.leases.rows s)
      → In (changed q f r) (b.leases.rows (b.leases.update q f s))
  update-In q f s r m = rw b.leases.rows-update (In-map (changed q f) r (b.leases.rows s) m)

  module _ (c : Config) (now pool : ℕ) (mac ip : Text) (hostname : Option Text) (db : Db b) where
    abbrev pub new : Lease
    new = new_lease b c now pool mac ip hostname

    abbrev pub new_row : LeaseRow
    new_row = record { id = b.leases.next_id db.leases; lease = new }

    abbrev pub rewrite : LeaseRow → LeaseRow
    rewrite = changed (of_client pool mac) (renewed b c now pool mac ip hostname)

    abbrev pub after : Db b
    after = write_lease b c now pool mac ip hostname db

    -- A client without a row gets one, and the rows of any other are rewritten.
    pub write_lease-cases :
        (((r : LeaseRow) → In r (table db) → of_client pool mac r ≡ false)
          × (table after ≡ table db ++ new_row ∷ []))
        ⊎ ((old : LeaseRow) × In old (table db)
            × (of_client pool mac old ≡ true)
            × (table after ≡ map rewrite (table db)))
    unfolding write_lease
    write_lease-cases = elim (Option-cases (b.leases.first (of_client pool mac) db.leases)) [
      | inl e ↦ inl (b.leases.first-none _ _ e, ground (arith, b.leases.rows-insert new db.leases))
      | inr (old, e) ↦
          let row = b.leases.first-some _ _ old e in
          inr (
            old,
            row.0,
            row.1,
            ground (
              arith,
              b.leases.rows-update (of_client pool mac) (renewed b c now pool mac ip hostname)
                  db.leases,
            ),
          )
    ]

    pub rewrite-client : (r : LeaseRow) → of_client pool mac (rewrite r) ≡ of_client pool mac r
    rewrite-client r = ground arith

    pub rewrite-lease : (r : LeaseRow) → of_client pool mac r ≡ true → (rewrite r).lease ≡ new
    rewrite-lease r h = ground (arith, text_eq_iff r.mac_address mac)

    pub new_row-client : of_client pool mac new_row ≡ true
    new_row-client = ground (arith, text_eq_refl mac)

    -- Every row of the client is the lease that was written.
    pub write_lease-rows :
        (r : LeaseRow) → In r (table after) → of_client pool mac r ≡ true → r.lease ≡ new
    write_lease-rows r m h = elim write_lease-cases [
      | inl (fresh, e) ↦ elim (In-append r (table db) _ (subst (In r) e m)) [
        | inl old ↦ cc (h, fresh r old)
        | inr (inl is_new) ↦ ap (λ (x : LeaseRow). x.lease) is_new
        | inr (inr none_left) ↦ absurd none_left
      ]
      | inr (old, _, _, e) ↦
          let from = In-of_map rewrite r (table db) (subst (In r) e m) in
          ap (λ (x : LeaseRow). x.lease) from.2
          ∙ rewrite-lease from.0
              (sym (rewrite-client from.0) ∙ ap (of_client pool mac) (sym from.2) ∙ h)
    ]

    -- The client has a row.
    pub write_lease-exists : (r : LeaseRow) × In r (table after) × (of_client pool mac r ≡ true)
    write_lease-exists = elim write_lease-cases [
      | inl (fresh, e) ↦ (
        new_row,
        subst (In new_row) (sym e) (In-append_right new_row (table db) _ (inl refl)),
        new_row-client,
      )
      | inr (old, m, h, e) ↦ (
        rewrite old,
        subst (In (rewrite old)) (sym e) (In-map rewrite old (table db) m),
        rewrite-client old ∙ h,
      )
    ]

    -- The rows of other clients stay.
    pub write_lease-frame :
        (r : LeaseRow) → In r (table db) → of_client pool mac r ≡ false → In r (table after)
    write_lease-frame r m h = elim write_lease-cases [
      | inl (fresh, e) ↦ subst (In r) (sym e) (In-append_left r (table db) _ m)
      | inr (old, _, _, e) ↦
          let same : rewrite r ≡ r = ground arith in
          subst (In r) (sym e)
            (subst (λ x. In x (map rewrite (table db))) same (In-map rewrite r (table db) m))
    ]

    pub pools-write_lease : after.pools ≡ db.pools
    unfolding write_lease
    pools-write_lease = ground arith

    pub write_lease-IsUnique : IsUnique db → IsUnique after
    write_lease-IsUnique u p m = elim write_lease-cases [
      | inl (fresh, e) ↦
          rw (e, count-append (of_client p m) (table db) (new_row ∷ [])) (one_more fresh)
      | inr (old, _, _, e) ↦
          rw (e, count-map (of_client p m) rewrite (table db))
            (rw
              (count_congr (λ r. of_client p m (rewrite r)) (of_client p m) (table db)
                λ r. ground arith)
              (u p m))
    ]
      where
        one_more :
            ((r : LeaseRow) → In r (table db) → of_client pool mac r ≡ false)
            → count (of_client p m) (table db) + count (of_client p m) (new_row ∷ []) ≤ 1
        one_more fresh = elim (Bool-cases (of_client p m new_row)) [
          | inr other ↦ ground (arith, u p m)
          | inl own ↦
              let none_yet : count (of_client p m) (table db) ≡ 0 =
                count-zero (of_client p m) (table db)
                  λ r i. ground (arith, fresh r i, text_eq_iff mac m) in
              ground (arith, none_yet)
        ]
