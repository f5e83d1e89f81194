-- ===== src/Backlinks/Reconcile/Repair.antt =====
-- reconcile.py: the repair loop of `reconcile_backlinks`.
use mifolyo.Base.{
  ℕ, ◌+◌, ◌≡◌, refl, sym, subst, inl, inr, Bool, true, false, Bool-cases, List, [], ◌∷◌, ◌==◌,
  arith,
}
use mifolyo.Base.Texts.{Bytes, Text, contains, same_refl}
use mifolyo.Backlinks.Errors.{Exception, Result, ok, raise, Result-cases}
use mifolyo.Backlinks.Datastore.{Datastore, Keeps, IsReliable, MongoError}
use mifolyo.Backlinks.Datastore.Laws.{Keeps-refl, Keeps-trans}
use mifolyo.Backlinks.Mongo.{add_backlinks, default_batch_limits, mongo_exception}
use mifolyo.Backlinks.Mongo.Writes.{add_backlinks-Keeps, add_backlinks-stores}
use mifolyo.Backlinks.Reconcile.{
  counted, count_error, Collections, EdgeDocument, Edges, done, edge, fails, add_missing,
}
use mifolyo.Backlinks.Reconcile.Observed.{AllEdges, IfOk, CountReply-cases, IsAccurate}

module _ (validate_canonical : Text → Bool) {W : Type 0} (d : Datastore W) (c : Collections W) where
  -- `add_backlinks(target, [source])` of the repair loop.
  abbrev pub add_one : Text → Text → W → Result (Unit {0}) × W
  add_one t s = add_backlinks d validate_canonical default_batch_limits t (s ∷ [])

  module _ (t s : Text) (rest : Edges) (a : ℕ) (w : W) where
    pub add_missing-broken :
        (e : MongoError)
        → (c.count_backlinks t s w).0 ≡ count_error e
        → add_missing validate_canonical d c (edge t s rest) a w
          ≡ (raise (mongo_exception e), (c.count_backlinks t s w).1)
    unfolding add_missing
    add_missing-broken e h = rw (h, add_missing) refl

    pub add_missing-there :
        (k : ℕ)
        → (c.count_backlinks t s w).0 ≡ counted k
        → (k == 1) ≡ true
        → add_missing validate_canonical d c (edge t s rest) a w
          ≡ add_missing validate_canonical d c rest a (c.count_backlinks t s w).1
    unfolding add_missing
    add_missing-there k h q = rw (h, add_missing, q) refl

    pub add_missing-added :
        (k : ℕ)
        → (c.count_backlinks t s w).0 ≡ counted k
        → (k == 1) ≡ false
        → (add_one t s (c.count_backlinks t s w).1).0 ≡ ok tt
        → add_missing validate_canonical d c (edge t s rest) a w
          ≡ add_missing validate_canonical d c rest
              (a + 1)
              (add_one t s (c.count_backlinks t s w).1).1
    unfolding add_missing
    add_missing-added k h q r = rw (h, add_missing, q, r) refl

    pub add_missing-refused :
        (k : ℕ) (e : Exception)
        → (c.count_backlinks t s w).0 ≡ counted k
        → (k == 1) ≡ false
        → (add_one t s (c.count_backlinks t s w).1).0 ≡ raise e
        → add_missing validate_canonical d c (edge t s rest) a w
          ≡ (raise e, (add_one t s (c.count_backlinks t s w).1).1)
    unfolding add_missing
    add_missing-refused k e h q r = rw (h, add_missing, q, r) refl

module _ (validate_canonical : Text → Bool) {W : Type 0} (d : Datastore W) (c : Collections W)
    {pending : W → Bytes → Bytes → Bool} {stored : W → Text → Text → Bool}
    {documents : List EdgeDocument} (z : IsReliable pending stored d)
    (v : IsAccurate pending stored documents c) where
  -- The outcome of a repair from the world `w`: nothing is lost, and without an exception every link
  -- is stored.
  abbrev pub Repaired : Edges → W → Result ℕ × W → Type 0
  Repaired es w (r, w') =
      Keeps pending stored w w' × IfOk (λ _. AllEdges (λ t s. stored w' t s ≡ true) es) r

  Repaired-edge :
      (t s : Text) (rest : Edges) (w w₁ : W) (x : Result ℕ × W)
      → Keeps pending stored w w₁
      → stored w₁ t s ≡ true
      → Repaired rest w₁ x
      → Repaired (edge t s rest) w x
  Repaired-edge t s rest w w₁ (ok n, w') k h (k', a) = (Keeps-trans k k', (k'.stored_kept t s h, a))
  Repaired-edge t s rest w w₁ (raise e, w') k h (k', a) = (Keeps-trans k k', tt)

  one_stored :
      (t s : Text) (w : W)
      → (add_one validate_canonical d c t s w).0 ≡ ok tt
      → stored (add_one validate_canonical d c t s w).1 t s ≡ true
  unfolding contains
  one_stored t s w h =
      add_backlinks-stores d z validate_canonical default_batch_limits t (s ∷ []) w s h
        (ground (arith, same_refl s))

  pub add_missing-Repaired :
      (es : Edges) (a : ℕ) (w : W) → Repaired es w (add_missing validate_canonical d c es a w)
  unfolding add_missing
  add_missing-Repaired done a w = (Keeps-refl w, tt)
  add_missing-Repaired (fails e) a w = (Keeps-refl w, tt)
  add_missing-Repaired (edge t s rest) a w =
      let w₁ = (c.count_backlinks t s w).1 in
      let w₂ = (add_one validate_canonical d c t s w₁).1 in
      let read = v.count_backlinks_keeps t s w in
      let wrote : Keeps pending stored w w₂ =
        Keeps-trans read
          (add_backlinks-Keeps d z validate_canonical default_batch_limits t (s ∷ []) w₁) in
      elim (CountReply-cases (c.count_backlinks t s w).0) [
        | inr (e, h) ↦
            subst (Repaired (edge t s rest) w)
              (sym (add_missing-broken validate_canonical d c t s rest a w e h)) (read, tt)
        | inl (k, h) ↦ elim (Bool-cases (k == 1)) [
          | inl one ↦
              let h₁ : (c.count_backlinks t s w).0 ≡ counted 1 = ground arith in
              subst (Repaired (edge t s rest) w)
                (sym (add_missing-there validate_canonical d c t s rest a w k h one))
                (Repaired-edge t s rest w w₁ (add_missing validate_canonical d c rest a w₁) read
                  (read.stored_kept t s (v.found_stored t s w h₁)) (add_missing-Repaired rest a w₁))
          | inr more ↦ elim (Result-cases (add_one validate_canonical d c t s w₁).0) [
            | inl (u, r) ↦
                subst (Repaired (edge t s rest) w)
                  (sym (add_missing-added validate_canonical d c t s rest a w k h more r))
                  (Repaired-edge t s rest w w₂ (add_missing validate_canonical d c rest (a + 1) w₂)
                    wrote (one_stored t s w₁ r) (add_missing-Repaired rest (a + 1) w₂))
            | inr (e, r) ↦
                subst (Repaired (edge t s rest) w)
                  (sym (add_missing-refused validate_canonical d c t s rest a w k e h more r))
                  (wrote, tt)
          ]
        ]
      ]
