-- ===== src/Dhcp/Leases/Sweep.antt =====
-- `expire_old_leases`: what it marks and what it reports.
use squawk.Prelude.{
  Bool, ◌∷◌, text_eq, false, Text, List, [], ◌∙◌, ap, subst, count_congr, In-of_map, count-map,
  arith, ◌&&◌, map, ◌+◌, ◌==◌, count, ◌≡◌, In, ℕ, refl,
}
use squawk.Dhcp.Database.{LeaseRow, Lease, Backend, Db, changed, active, expired}
use squawk.Dhcp.Model.{stale, of_client}
use squawk.Dhcp.Leases.{with_status, expire_old_leases}
use squawk.Dhcp.Leases.Writes.{table, IsUnique}

expired-ne-active : text_eq expired active ≡ false
unfolding text_eq
expired-ne-active = refl

changed_none :
    (q : LeaseRow → Bool) (f : Lease → Lease) (rows : List LeaseRow)
    → count q rows ≡ 0
    → map (changed q f) rows ≡ rows
changed_none q f [] h = refl
changed_none q f (r ∷ rows) h = ground (arith, changed_none q f rows)

-- An active lease of the pool.
abbrev pub in_pool : ℕ → LeaseRow → Bool
in_pool pool r = r.pool_id == pool && text_eq r.status active

module _ (b : Backend) (now pool : ℕ) where
  abbrev pub mark : LeaseRow → LeaseRow
  mark = changed (stale pool now) (with_status b expired)

  mark-not-stale : (r : LeaseRow) → stale pool now (mark r) ≡ false
  mark-not-stale r = ground (arith, expired-ne-active)

  mark-client : (p : ℕ) (mac : Text) (r : LeaseRow) → of_client p mac (mark r) ≡ of_client p mac r
  mark-client p mac r = ground arith

  count-mark :
      (rows : List LeaseRow)
      → count (λ r. in_pool pool (mark r)) rows + count (stale pool now) rows
        ≡ count (in_pool pool) rows
  count-mark [] = omega arith
  count-mark (r ∷ rows) = ground (arith, count-mark rows, expired-ne-active)

  module _ (db : Db b) where
    abbrev pub swept : Db b
    swept = (expire_old_leases b now pool db).1

    -- Counting is marking: with nothing to mark the table stays.
    pub table-swept : table b swept ≡ map mark (table b db)
    unfolding expire_old_leases
    table-swept =
        let n = b.leases.count_rows_lem (stale pool now) db.leases in
        let none_left = changed_none (stale pool now) (with_status b expired) (table b db) in
        ground (
          arith,
          n,
          none_left,
          b.leases.rows-update (stale pool now) (with_status b expired) db.leases,
        )

    -- Afterwards no lease of the pool is active that ended before `now`.
    pub stale-expire_old_leases : (r : LeaseRow) → In r (table b swept) → stale pool now r ≡ false
    stale-expire_old_leases r m =
        let (r', _, e) = In-of_map mark r (table b db) (subst (In r) table-swept m) in
        ap (stale pool now) e ∙ mark-not-stale r'

    reported : (expire_old_leases b now pool db).0 ≡ count (stale pool now) (table b db)
    unfolding expire_old_leases
    reported = b.leases.count_rows_lem (stale pool now) db.leases

    -- The reported number is that of the leases that stop being active.
    pub count-expire_old_leases :
        count (in_pool pool) (table b swept) + (expire_old_leases b now pool db).0
        ≡ count (in_pool pool) (table b db)
    count-expire_old_leases =
        rw (reported, table-swept, count-map (in_pool pool) mark (table b db))
          (count-mark (table b db))

    pub expire_old_leases-IsUnique : IsUnique b db → IsUnique b swept
    expire_old_leases-IsUnique u p m =
        rw (table-swept, count-map (of_client p m) mark (table b db))
          (rw
            (count_congr (λ r. of_client p m (mark r)) (of_client p m) (table b db)
              (mark-client p m))
            (u p m))
