-- ===== src/Backlinks/Reconcile/Reading.antt =====
-- reconcile.py: `_count_missing` and the repair, with the reading of the outlinks that each makes.
use mifolyo.Base.{ℕ, ◌≡◌, ◌⊎◌, refl, sym, subst, inl, inr, Bool, true, Option, none, some, List}
use mifolyo.Base.Texts.{Bytes, Text}
use mifolyo.Backlinks.Errors.{Result, ok, raise}
use mifolyo.Backlinks.Datastore.{Datastore, Keeps, IsReliable, MongoError}
use mifolyo.Backlinks.Datastore.Laws.{Keeps-trans}
use mifolyo.Backlinks.Reconcile.{
  Collections, EdgeDocument, Edges, authoritative_edges, count_edges, count_missing, add_missing,
}
use mifolyo.Backlinks.Reconcile.Observed.{AllEdges, AllEdges-map, IfOk, IsAccurate}
use mifolyo.Backlinks.Reconcile.Counts.{count_edges-Keeps, count_edges-Found, count_edges-none}
use mifolyo.Backlinks.Reconcile.Added.{Fewer, add_missing-le}
use mifolyo.Backlinks.Reconcile.Unfinished.{Fails, authoritative_edges-Fails, count_edges-Fails}

module _ (validate_canonical : Text → Bool) {W : Type 0} (d : Datastore W) (c : Collections W)
    {pending : W → Bytes → Bytes → Bool} {stored : W → Text → Text → Bool}
    {documents : List EdgeDocument} (z : IsReliable pending stored d)
    (v : IsAccurate pending stored documents c) where
  -- The edges of the outlinks collection.
  abbrev pub all_edges : Edges
  all_edges = authoritative_edges validate_canonical documents none

  -- Every link of the outlinks collection is stored.
  abbrev pub AllStored : W → Type 0
  AllStored w = AllEdges (λ t s. stored w t s ≡ true) all_edges

  pub AllStored-Keeps : {w w' : W} → Keeps pending stored w w' → AllStored w → AllStored w'
  AllStored-Keeps k = AllEdges-map all_edges (λ t s p. k.stored_kept t s p)

  -- A reading gives all edges, or ends with an exception.
  pub reading :
      (w : W)
      → let r = (c.find_outlinks w).0 in
        (authoritative_edges validate_canonical r.documents r.failure ≡ all_edges)
        ⊎ Fails (authoritative_edges validate_canonical r.documents r.failure)
  reading w = at (c.find_outlinks w).0.documents (c.find_outlinks w).0.failure (v.outlinks_read w)
    where
      at :
          (xs : List EdgeDocument) (o : Option MongoError)
          → (o ≡ none → xs ≡ documents)
          → (authoritative_edges validate_canonical xs o ≡ all_edges)
            ⊎ Fails (authoritative_edges validate_canonical xs o)
      at xs none h = inl (rw (h refl) refl)
      at xs (some e) h = inr (authoritative_edges-Fails validate_canonical xs e)

  -- The outcome of `_count_missing` from the world `w`.
  pub record Counted (w : W) (x : Result (ℕ × ℕ) × W) : Type 0 where
    pub kept : Keeps pending stored w x.1
    pub none_missing : IfOk (λ p. p.1 ≡ 0 → AllStored x.1) x.0
    pub none_found : AllStored w → IfOk (λ p. p.1 ≡ 0) x.0
    pub enough :
        (w' : W)
        → Keeps pending stored x.1 w'
        → Fewer 0 0 x.0 (add_missing validate_canonical d c all_edges 0 w').0

  Counted-raise :
      (w : W) (x : Result (ℕ × ℕ) × W)
      → Keeps pending stored w x.1
      → IfOk (λ _. ⊥) x.0
      → Counted w x
  Counted-raise w (ok p, w') k h = absurd h
  Counted-raise w (raise e, w') k h = record {
    kept = k;
    none_missing = tt;
    none_found = λ a. tt;
    enough = λ w' q. tt;
  }

  pub count_missing-Counted : (w : W) → Counted w (count_missing validate_canonical d c w)
  unfolding count_missing
  count_missing-Counted w =
      let w₁ = (c.find_outlinks w).1 in
      let r = (c.find_outlinks w).0 in
      let es = authoritative_edges validate_canonical r.documents r.failure in
      let k =
        Keeps-trans (v.find_outlinks_keeps w)
          (count_edges-Keeps c.count_backlinks v.count_backlinks_keeps es 0 0 w₁) in
      elim (reading w) [
        | inr f ↦
            Counted-raise w (count_edges c.count_backlinks es 0 0 w₁) k
              (count_edges-Fails c.count_backlinks es 0 0 w₁ f)
        | inl e ↦
            subst (λ xs. Counted w (count_edges c.count_backlinks xs 0 0 w₁)) (sym e)
              (record {
                kept =
                    Keeps-trans (v.find_outlinks_keeps w) (
                      count_edges-Keeps c.count_backlinks v.count_backlinks_keeps all_edges 0 0 w₁);
                none_missing = count_edges-Found c v all_edges 0 0 w₁;
                none_found = λ a.
                    count_edges-none c v all_edges 0 0 w₁
                      (AllStored-Keeps (v.find_outlinks_keeps w) a);
                enough = λ w' q. add_missing-le validate_canonical d c z v all_edges 0 0 0 w₁ w' q;
              })
      ]
