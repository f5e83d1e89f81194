-- ===== src/Backlinks/Reconcile/Exit.antt =====
-- reconcile.py: what a report and the exit code of the tool tell of the datastores.
use mifolyo.Base.{
  not, ◌&&◌, ◌||◌, if◌then◌else◌, Option, ◌≤◌, ◌≡◌, refl, subst, Bool, true, false, none, List,
  arith,
}
use mifolyo.Base.Texts.{Bytes, Text}
use mifolyo.Backlinks.Errors.{Result, ok, raise}
use mifolyo.Backlinks.Datastore.{Datastore, IsReliable}
use mifolyo.Backlinks.Reconcile.{
  Collections, EdgeDocument, authoritative_edges, ReconciliationReport, mend, recount, finish,
  repair, count_missing, count_historical, reconcile_backlinks, exit_of, exit_code, main,
  is_confirmed,
}
use mifolyo.Backlinks.Reconcile.Observed.{AllEdges, IfOk, IsAccurate}
use mifolyo.Backlinks.Reconcile.Complete.{Reconciled, reconcile_backlinks-Reconciled}

module _ (validate_canonical : Text → Bool) {W : Type 0} (d : Datastore W) (c : Collections W)
    {pending : W → Bytes → Bytes → Bool} {stored : W → Text → Text → Bool}
    {documents : List EdgeDocument} (z : IsReliable pending stored d)
    (v : IsAccurate pending stored documents c) where
  reported :
      (P : ReconciliationReport → Type 0) (x : Result ReconciliationReport)
      (r : ReconciliationReport)
      → x ≡ ok r
      → IfOk P x
      → P r
  reported P x r e h = subst (IfOk P) e h

  -- Over reliable datastores and accurate queries, a run with `--apply` that returns a report has
  -- left no edge of the outlinks collection without its stored backlink, says so, and has added no
  -- more links than it first counted as missing.
  pub reconcile_backlinks_repairs :
      (w : W) (r : ReconciliationReport)
      → (reconcile_backlinks validate_canonical d c true w).0 ≡ ok r
      → (r.missing_after ≡ 0)
        × (r.added ≤ r.missing_before)
        × AllEdges
            (λ t s. stored (reconcile_backlinks validate_canonical d c true w).1 t s ≡ true)
            (authoritative_edges validate_canonical documents none)
  reconcile_backlinks_repairs w r e =
      let x = (reconcile_backlinks validate_canonical d c true w).0 in
      let q = reconcile_backlinks-Reconciled validate_canonical d c z v true w in
      let zero_left = reported _ x r e (q.applied refl) in
      (zero_left, reported _ x r e q.few, reported _ x r e q.none_missing zero_left)

  exit_of-zero :
      (apply : Bool) (w : W) (x : Result ReconciliationReport × W)
      → Reconciled validate_canonical d c z v apply w x
      → exit_of validate_canonical d c x.0 ≡ 0
      → AllEdges
          (λ t s. stored x.1 t s ≡ true)
          (authoritative_edges validate_canonical documents none)
  unfolding exit_of
  exit_of-zero apply w (raise e, w') q h = cc
  exit_of-zero apply w (ok r, w') q h = q.none_missing (ground arith)

  -- Over reliable datastores and accurate queries, with or without `--apply`: exit code 0 means that
  -- every document of the outlinks collection is valid, and every edge that it lists is stored as a
  -- backlink of its target.
  pub exit_code-zero :
      (apply : Bool) (w : W)
      → (exit_code validate_canonical d c apply w).0 ≡ 0
      → AllEdges
          (λ t s. stored (exit_code validate_canonical d c apply w).1 t s ≡ true)
          (authoritative_edges validate_canonical documents none)
  unfolding exit_code
  exit_code-zero apply w h =
      exit_of-zero apply w (reconcile_backlinks validate_canonical d c apply w)
        (reconcile_backlinks-Reconciled validate_canonical d c z v apply w) h

  -- Over reliable datastores and accurate queries, when `main` exits with 0: if it was to apply, the
  -- name of the database was confirmed; and every document of the outlinks collection is valid, and
  -- every edge that it lists is stored as a backlink of its target.
  pub main-zero :
      (apply : Bool) (confirm_database : Option Text) (database_name : Text) (w : W)
      → (main validate_canonical d c apply confirm_database database_name w).0 ≡ 0
      → ((not apply || is_confirmed validate_canonical d c confirm_database database_name) ≡ true)
        × AllEdges
            (λ t s.
              stored (main validate_canonical d c apply confirm_database database_name w).1 t s
              ≡ true)
            (authoritative_edges validate_canonical documents none)
  unfolding main
  main-zero apply o n w h = go apply (is_confirmed validate_canonical d c o n) h
    where
      go :
          (a b : Bool)
          → (if a && not b then (2, w) else exit_code validate_canonical d c a w).0 ≡ 0
          → ((not a || b) ≡ true)
            × AllEdges
                (λ t s.
                  stored (if a && not b then (2, w) else exit_code validate_canonical d c a w).1 t s
                  ≡ true)
                (authoritative_edges validate_canonical documents none)
      go true true h = (refl, exit_code-zero true w h)
      go true false h = absurd (omega (arith, h))
      go false b h = (refl, exit_code-zero false w h)

-- Without `--apply`, the run is the same over any two datastores, whatever their writes do: it makes
-- no call but those of the queries.
pub report_mode_writes_nothing :
    (validate_canonical : Text → Bool) {W : Type 0} (d e : Datastore W) (c : Collections W) (w : W)
    → exit_code validate_canonical d c false w ≡ exit_code validate_canonical e c false w
unfolding exit_code exit_of reconcile_backlinks mend recount finish repair count_missing
    count_historical
report_mode_writes_nothing validate_canonical d e c w = refl
