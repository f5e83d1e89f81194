-- ===== src/Backlinks/Reconcile/Counts.antt =====
-- reconcile.py: what the counts of `_count_missing` and `_count_historical` say.
use mifolyo.Base.{
  ℕ, ◌+◌, ◌≤◌, ◌≡◌, refl, sym, subst, inl, inr, Bool, true, false, Bool-cases, List, ◌==◌, arith,
  if◌then◌else◌,
}
use mifolyo.Base.Texts.{Bytes, Text}
use mifolyo.Backlinks.Errors.{Result, ok, raise}
use mifolyo.Backlinks.Datastore.{Keeps, MongoError}
use mifolyo.Backlinks.Mongo.{mongo_exception}
use mifolyo.Backlinks.Datastore.Laws.{Keeps-refl, Keeps-trans}
use mifolyo.Backlinks.Reconcile.{
  CountReply, counted, count_error, Collections, EdgeDocument, Edges, done, edge, fails,
  count_edges,
}
use mifolyo.Backlinks.Reconcile.Observed.{
  AllEdges, AllEdges-map, IfOk, IfOk-map, CountReply-cases, IsAccurate,
}

module _ {W : Type 0} where
  -- The count of missing edges never falls.
  pub count_edges-le :
      (has : Text → Text → W → CountReply × W) (es : Edges) (n m : ℕ) (w : W)
      → IfOk (λ p. m ≤ p.1) (count_edges has es n m w).0
  unfolding count_edges
  count_edges-le has done n m w = omega arith
  count_edges-le has (fails e) n m w = tt
  count_edges-le has (edge t s rest) n m w = elim (CountReply-cases (has t s w).0) [
    | inr (e, h) ↦ rw (h, count_edges) tt
    | inl (k, h) ↦
        let w' = (has t s w).1 in
        rw (h, count_edges)
          (IfOk-map (count_edges has rest (n + 1) (if k == 1 then m else m + 1) w').0
            (count_edges-le has rest (n + 1) (if k == 1 then m else m + 1) w')
            (λ p a. ground arith))
  ]

  pub count_edges-edge :
      (has : Text → Text → W → CountReply × W) (t s : Text) (rest : Edges) (n m : ℕ) (w : W) (k : ℕ)
      → (has t s w).0 ≡ counted k
      → count_edges has (edge t s rest) n m w
        ≡ count_edges has rest (n + 1) (if k == 1 then m else m + 1) (has t s w).1
  unfolding count_edges
  count_edges-edge has t s rest n m w k h = rw (h, count_edges) refl

  pub count_edges-broken :
      (has : Text → Text → W → CountReply × W) (t s : Text) (rest : Edges) (n m : ℕ) (w : W)
      (e : MongoError)
      → (has t s w).0 ≡ count_error e
      → count_edges has (edge t s rest) n m w ≡ (raise (mongo_exception e), (has t s w).1)
  unfolding count_edges
  count_edges-broken has t s rest n m w e h = rw (h, count_edges) refl

  module _ {pending : W → Bytes → Bytes → Bool} {stored : W → Text → Text → Bool} where
    pub count_edges-Keeps :
        (has : Text → Text → W → CountReply × W)
        → ((t s : Text) (w : W) → Keeps pending stored w (has t s w).1)
        → (es : Edges) (n m : ℕ) (w : W) → Keeps pending stored w (count_edges has es n m w).1
    unfolding count_edges
    count_edges-Keeps has k done n m w = Keeps-refl w
    count_edges-Keeps has k (fails e) n m w = Keeps-refl w
    count_edges-Keeps has k (edge t s rest) n m w = elim (CountReply-cases (has t s w).0) [
      | inr (e, h) ↦ rw (h, count_edges) (k t s w)
      | inl (j, h) ↦
          let w' = (has t s w).1 in
          rw (h, count_edges)
            (Keeps-trans (k t s w)
              (count_edges-Keeps has k rest (n + 1) (if j == 1 then m else m + 1) w'))
    ]

module _ {W : Type 0} {pending : W → Bytes → Bytes → Bool} {stored : W → Text → Text → Bool}
    {documents : List EdgeDocument} (c : Collections W)
    (v : IsAccurate pending stored documents c) where
  AllEdges-Keeps :
      {w w' : W} (es : Edges)
      → Keeps pending stored w w'
      → AllEdges (λ t s. stored w t s ≡ true) es
      → AllEdges (λ t s. stored w' t s ≡ true) es
  AllEdges-Keeps es k h = AllEdges-map es (λ t s p. k.stored_kept t s p) h

  -- The outcome of a count that starts at `m`: where it does not rise, every link is there at its end.
  abbrev pub Found : Edges → ℕ → Result (ℕ × ℕ) × W → Type 0
  Found es m (r, w) = IfOk (λ p. p.1 ≡ m → AllEdges (λ t s. stored w t s ≡ true) es) r

  Found-edge :
      (t s : Text) (rest : Edges) (m k : ℕ) (w : W) (x : Result (ℕ × ℕ) × W)
      → (c.count_backlinks t s w).0 ≡ counted k
      → Keeps pending stored (c.count_backlinks t s w).1 x.1
      → IfOk (λ p. (if k == 1 then m else m + 1) ≤ p.1) x.0
      → Found rest (if k == 1 then m else m + 1) x
      → Found (edge t s rest) m x
  Found-edge t s rest m k w (raise e, w') h z l f = tt
  Found-edge t s rest m k w (ok p, w') h z l f = λ e. elim (Bool-cases (k == 1)) [
    | inl one ↦
        let h1 : (c.count_backlinks t s w).0 ≡ counted 1 = ground arith in
        (
          (Keeps-trans (v.count_backlinks_keeps t s w) z).stored_kept t s (v.found_stored t s w h1),
          f (rw one e),
        )
    | inr more ↦ absurd (rises (less_if more l) e)
  ]
    where
      rises : m + 1 ≤ p.1 → p.1 ≡ m → ⊥
      rises a b = omega (arith, a, b)

      less_if : (k == 1) ≡ false → (if k == 1 then m else m + 1) ≤ p.1 → m + 1 ≤ p.1
      less_if q a = ground arith

  pub count_edges-Found :
      (es : Edges) (n m : ℕ) (w : W) → Found es m (count_edges c.count_backlinks es n m w)
  unfolding count_edges
  count_edges-Found done n m w = λ h. tt
  count_edges-Found (fails e) n m w = tt
  count_edges-Found (edge t s rest) n m w = elim (CountReply-cases (c.count_backlinks t s w).0) [
    | inr (e, h) ↦
        subst (Found (edge t s rest) m)
          (sym (count_edges-broken c.count_backlinks t s rest n m w e h)) tt
    | inl (k, h) ↦
        let w' = (c.count_backlinks t s w).1 in
        let m' : ℕ = if k == 1 then m else m + 1 in
        subst (Found (edge t s rest) m)
          (sym (count_edges-edge c.count_backlinks t s rest n m w k h))
          (Found-edge t s rest m k w (count_edges c.count_backlinks rest (n + 1) m' w') h
            (count_edges-Keeps c.count_backlinks v.count_backlinks_keeps rest (n + 1) m' w')
            (count_edges-le c.count_backlinks rest (n + 1) m' w')
            (count_edges-Found rest (n + 1) m' w'))
  ]

  -- Where every link is stored, the count does not rise.
  pub count_edges-none :
      (es : Edges) (n m : ℕ) (w : W)
      → AllEdges (λ t s. stored w t s ≡ true) es
      → IfOk (λ p. p.1 ≡ m) (count_edges c.count_backlinks es n m w).0
  unfolding count_edges
  count_edges-none done n m w a = refl
  count_edges-none (fails e) n m w a = tt
  count_edges-none (edge t s rest) n m w a = elim (CountReply-cases (c.count_backlinks t s w).0) [
    | inr (e, h) ↦ rw (h, count_edges) tt
    | inl (k, h) ↦
        let w' = (c.count_backlinks t s w).1 in
        elim (Bool-cases (k == 1)) [
          | inl one ↦
              rw (h, count_edges, one)
                (count_edges-none rest (n + 1) m w'
                  (AllEdges-Keeps rest (v.count_backlinks_keeps t s w) a.1))
          | inr more ↦
              let no = v.missing_unstored t s w k h (ground arith) in absurd (contradiction a.0 no)
        ]
  ]
    where
      contradiction : {b : Bool} → b ≡ true → b ≡ false → ⊥
      contradiction p q = cc
