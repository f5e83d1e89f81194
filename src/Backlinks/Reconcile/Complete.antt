-- ===== src/Backlinks/Reconcile/Complete.antt =====
-- reconcile.py: `reconcile_backlinks` as a whole, and the exit code of the tool.
use mifolyo.Base.{
  ℕ, ◌≤◌, ◌≡◌, sym, subst, inl, inr, Bool, true, not, ◌&&◌, Bool-cases, List, ◌==◌, arith,
}
use mifolyo.Base.Texts.{Bytes, Text}
use mifolyo.Backlinks.Errors.{Exception, Result, ok, raise, pure, bind_inv}
use mifolyo.Backlinks.Datastore.{Datastore, Keeps, IsReliable}
use mifolyo.Backlinks.Datastore.Laws.{Keeps-refl, Keeps-trans}
use mifolyo.Backlinks.Reconcile.{
  Collections, EdgeDocument, authoritative_edges, historical_edges, count_missing, count_historical,
  add_missing, repair, ReconciliationReport, report_of, finish, recount, mend, reconcile_backlinks,
}
use mifolyo.Backlinks.Reconcile.Observed.{AllEdges, IfOk, IfOk-map, IsAccurate}
use mifolyo.Backlinks.Reconcile.Counts.{count_edges-Keeps}
use mifolyo.Backlinks.Reconcile.Repair.{add_missing-Repaired}
use mifolyo.Backlinks.Reconcile.Added.{Fewer}
use mifolyo.Backlinks.Reconcile.Unfinished.{Fails-AllEdges}
use mifolyo.Backlinks.Reconcile.Reading.{
  all_edges, AllStored, AllStored-Keeps, reading, Counted, count_missing-Counted,
}

Fewer-IfOk : (n m : ℕ) (x : Result ℕ) → Fewer 0 0 (ok (n, m)) x → IfOk (λ a. a ≤ m) x
Fewer-IfOk n m (ok a) h = omega (arith, h)
Fewer-IfOk n m (raise e) h = tt

module _ (validate_canonical : Text → Bool) {W : Type 0} (d : Datastore W) (c : Collections W)
    {pending : W → Bytes → Bytes → Bool} {stored : W → Text → Text → Bool}
    {documents : List EdgeDocument} (z : IsReliable pending stored d)
    (v : IsAccurate pending stored documents c) where
  -- The outcome of a repair, after a count of `m` missing edges.
  record Mended (apply : Bool) (m : ℕ) (w : W) (x : Result ℕ × W) : Type 0 where
    kept : Keeps pending stored w x.1
    complete : apply ≡ true → IfOk (λ _. AllStored validate_canonical d c z v x.1) x.0
    few : IfOk (λ a. a ≤ m) x.0

  repair-Mended :
      (apply : Bool) (n m : ℕ) (w : W)
      → (m ≡ 0 → AllStored validate_canonical d c z v w)
      → ((w' : W)
          → Keeps pending stored w w'
          → Fewer 0 0
              (ok (n, m))
              (add_missing validate_canonical d c (all_edges validate_canonical d c z v) 0 w').0)
      → Mended apply m w (repair validate_canonical d c apply m w)
  unfolding repair
  repair-Mended apply n m w zero_m enough =
      let w₁ = (c.find_outlinks w).1 in
      let r = (c.find_outlinks w).0 in
      let es = authoritative_edges validate_canonical r.documents r.failure in
      elim (Bool-cases (apply && not (m == 0))) [
        | inr skips ↦
            rw (skips, repair)
              (record {
                kept = Keeps-refl w;
                complete = λ e. zero_m (ground arith);
                few = omega arith;
              })
        | inl runs ↦
            let (k, a) = add_missing-Repaired validate_canonical d c z v es 0 w₁ in
            let x = add_missing validate_canonical d c es 0 w₁ in
            let read = v.find_outlinks_keeps w in
            elim (reading validate_canonical d c z v w) [
              | inr f ↦
                  rw (runs, repair)
                    (record {
                      kept = Keeps-trans read k;
                      complete = λ e. IfOk-map x.0 a (λ n b. absurd (Fails-AllEdges _ es f b));
                      few = IfOk-map x.0 a (λ n b. absurd (Fails-AllEdges _ es f b));
                    })
              | inl e ↦
                  rw (runs, repair)
                    (record {
                      kept = Keeps-trans read k;
                      complete = λ t.
                          subst (λ xs. IfOk (λ _. AllEdges (λ t s. stored x.1 t s ≡ true) xs) x.0) e
                            a;
                      few = Fewer-IfOk n m x.0 (
                          subst
                            (λ xs.
                              Fewer 0 0 (ok (n, m)) (add_missing validate_canonical d c xs 0 w₁).0)
                            (sym e) (enough w₁ read));
                    })
            ]
      ]

  count_historical-Keeps :
      (w : W) → Keeps pending stored w (count_historical validate_canonical d c w).1
  unfolding count_historical
  count_historical-Keeps w =
      let w₁ = (c.find_backlinks w).1 in
      let r = (c.find_backlinks w).0 in
      Keeps-trans (v.find_backlinks_keeps w) (
        count_edges-Keeps (λ target source. c.count_outlinks source target)
          (λ t s w. v.count_outlinks_keeps s t w)
          (historical_edges validate_canonical r.documents r.failure) 0 0 w₁)

  -- What a run does, from the world `w`: nothing is lost, and what its report says.
  pub record Reconciled (apply : Bool) (w : W) (x : Result ReconciliationReport × W) : Type 0 where
    pub kept : Keeps pending stored w x.1
    pub none_missing :
        IfOk (λ r. r.missing_after ≡ 0 → AllStored validate_canonical d c z v x.1) x.0
    pub applied : apply ≡ true → IfOk (λ r. r.missing_after ≡ 0) x.0
    pub few : IfOk (λ r. r.added ≤ r.missing_before) x.0

  Reconciled-raise :
      (apply : Bool) (w w' : W) (e : Exception)
      → Keeps pending stored w w'
      → Reconciled apply w (raise e, w')
  Reconciled-raise apply w w' e k = record {
    kept = k;
    none_missing = tt;
    applied = λ _. tt;
    few = tt;
  }

  finish-Reconciled :
      (apply : Bool) (before : ℕ × ℕ) (added : ℕ) (after : ℕ × ℕ) (w w' : W)
      → Keeps pending stored w w'
      → added ≤ before.1
      → (after.1 ≡ 0 → AllStored validate_canonical d c z v w')
      → (apply ≡ true → after.1 ≡ 0)
      → Reconciled apply w (finish validate_canonical d c before added after w')
  unfolding finish
  finish-Reconciled apply before added after w w' k le none_left full =
      bind_inv (λ x. Keeps pending stored w' x.1) (Reconciled apply w)
        (count_historical validate_canonical d c)
        (λ h. pure (report_of validate_canonical d c before added after h)) w'
        (count_historical-Keeps w')
        (λ h w₁ o. record {
          kept = Keeps-trans k o;
          none_missing = λ e. AllStored-Keeps validate_canonical d c z v o (none_left e);
          applied = full;
          few = le;
        })
        (λ e w₁ o. Reconciled-raise apply w w₁ e (Keeps-trans k o))

  recount-Reconciled :
      (apply : Bool) (before : ℕ × ℕ) (added : ℕ) (w w' : W)
      → Keeps pending stored w w'
      → added ≤ before.1
      → (apply ≡ true → AllStored validate_canonical d c z v w')
      → Reconciled apply w (recount validate_canonical d c before added w')
  unfolding recount
  recount-Reconciled apply before added w w' k le full =
      bind_inv (Counted validate_canonical d c z v w') (Reconciled apply w)
        (count_missing validate_canonical d c) (finish validate_canonical d c before added) w'
        (count_missing-Counted validate_canonical d c z v w')
        (λ after w₁ r.
          finish-Reconciled apply before added after w w₁ (Keeps-trans k r.kept) le r.none_missing
            (λ e. r.none_found (full e)))
        (λ e w₁ r. Reconciled-raise apply w w₁ e (Keeps-trans k r.kept))

  mend-Reconciled :
      (apply : Bool) (before : ℕ × ℕ) (w w' : W)
      → Counted validate_canonical d c z v w (ok before, w')
      → Reconciled apply w (mend validate_canonical d c apply before w')
  unfolding mend
  mend-Reconciled apply (n, m) w w' p =
      bind_inv (Mended apply m w') (Reconciled apply w) (repair validate_canonical d c apply m)
        (recount validate_canonical d c (n, m)) w'
        (repair-Mended apply n m w' p.none_missing p.enough)
        (λ a w₁ q.
          recount-Reconciled apply (n, m) a w w₁ (Keeps-trans p.kept q.kept) q.few q.complete)
        (λ e w₁ q. Reconciled-raise apply w w₁ e (Keeps-trans p.kept q.kept))

  pub reconcile_backlinks-Reconciled :
      (apply : Bool) (w : W)
      → Reconciled apply w (reconcile_backlinks validate_canonical d c apply w)
  unfolding reconcile_backlinks
  reconcile_backlinks-Reconciled apply w =
      bind_inv (Counted validate_canonical d c z v w) (Reconciled apply w)
        (count_missing validate_canonical d c) (mend validate_canonical d c apply) w
        (count_missing-Counted validate_canonical d c z v w)
        (λ before w₁ p. mend-Reconciled apply before w w₁ p)
        (λ e w₁ p. Reconciled-raise apply w w₁ e p.kept)
