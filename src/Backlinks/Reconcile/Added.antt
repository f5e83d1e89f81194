-- ===== src/Backlinks/Reconcile/Added.antt =====
-- reconcile.py: the repair loop adds no more links than the count before it found missing.
use mifolyo.Base.{
  ℕ, ◌+◌, ◌≤◌, ◌≡◌, sym, subst, inl, inr, Bool, true, false, Bool-cases, List, [], ◌∷◌, ◌==◌, arith,
  if◌then◌else◌,
}
use mifolyo.Base.Texts.{Bytes, Text}
use mifolyo.Backlinks.Errors.{Exception, Result, ok, raise, Result-cases}
use mifolyo.Backlinks.Datastore.{Datastore, Keeps, IsReliable}
use mifolyo.Backlinks.Datastore.Laws.{Keeps-trans}
use mifolyo.Backlinks.Mongo.{default_batch_limits}
use mifolyo.Backlinks.Mongo.Writes.{add_backlinks-Keeps}
use mifolyo.Backlinks.Reconcile.{
  counted, Collections, EdgeDocument, Edges, done, edge, fails, count_edges, add_missing,
}
use mifolyo.Backlinks.Reconcile.Observed.{CountReply-cases, IsAccurate}
use mifolyo.Backlinks.Reconcile.Counts.{count_edges-edge, count_edges-broken, count_edges-Keeps}
use mifolyo.Backlinks.Reconcile.Repair.{
  add_one, add_missing-broken, add_missing-there, add_missing-added, add_missing-refused,
}

-- A count from `m` and a repair from `a`, by their results: the repair has added no more.
abbrev pub Fewer : ℕ → ℕ → Result (ℕ × ℕ) → Result ℕ → Type 0
Fewer m a (ok p) (ok b) = b + m ≤ a + p.1
Fewer m a (ok p) (raise e) = Unit {0}
Fewer m a (raise e) x = Unit {0}

Fewer-raise : (m a : ℕ) (y : Result (ℕ × ℕ)) (e : Exception) → Fewer m a y (raise e)
Fewer-raise m a (ok p) e = tt
Fewer-raise m a (raise e') e = tt

Fewer-le :
    (m a m' a' : ℕ) (y : Result (ℕ × ℕ)) (x : Result ℕ)
    → a' + m ≤ a + m'
    → Fewer m' a' y x
    → Fewer m a y x
Fewer-le m a m' a' (ok p) (ok b) h f = omega (arith, h, f)
Fewer-le m a m' a' (ok p) (raise e) h f = tt
Fewer-le m a m' a' (raise e) x h f = tt

false-true : {b : Bool} → b ≡ true → b ≡ false → ⊥
false-true p q = cc

module _ (validate_canonical : Text → Bool) {W : Type 0} (d : Datastore W) (c : Collections W)
    {pending : W → Bytes → Bytes → Bool} {stored : W → Text → Text → Bool}
    {documents : List EdgeDocument} (z : IsReliable pending stored d)
    (v : IsAccurate pending stored documents c) where
  abbrev count : Edges → ℕ → ℕ → W → Result (ℕ × ℕ) × W
  count = count_edges c.count_backlinks

  abbrev add : Edges → ℕ → W → Result ℕ × W
  add = add_missing validate_canonical d c

  counts_keep : (es : Edges) (n m : ℕ) (w : W) → Keeps pending stored w (count es n m w).1
  counts_keep = count_edges-Keeps c.count_backlinks v.count_backlinks_keeps

  -- A link that the count found is found by the repair.
  found_later :
      (t s : Text) (k j : ℕ) (w w₁ w₂ : W)
      → (c.count_backlinks t s w).0 ≡ counted k
      → (c.count_backlinks t s w₂).0 ≡ counted j
      → Keeps pending stored (c.count_backlinks t s w).1 w₁
      → Keeps pending stored w₁ w₂
      → (j == 1) ≡ false
      → (k == 1) ≡ false
  found_later t s k j w w₁ w₂ h g r q more = elim (Bool-cases (k == 1)) [
    | inr e ↦ e
    | inl e ↦
        let h₁ : (c.count_backlinks t s w).0 ≡ counted 1 = ground arith in
        let there =
          (Keeps-trans (v.count_backlinks_keeps t s w) (Keeps-trans r q)).stored_kept t s
            (v.found_stored t s w h₁) in
        absurd (false-true there (v.missing_unstored t s w₂ j g (ground arith)))
  ]

  -- The bound for all counts and repairs of some edges.
  abbrev Bounded : Edges → Type 0
  Bounded es =
      (n m a : ℕ) (w w₂ : W)
      → Keeps pending stored (count es n m w).1 w₂
      → Fewer m a (count es n m w).0 (add es a w₂).0

  add_missing-edge :
      (t s : Text) (rest : Edges) (n m a k : ℕ) (w w₂ : W)
      → Bounded rest
      → (c.count_backlinks t s w).0 ≡ counted k
      → let y = count rest (n + 1) (if k == 1 then m else m + 1) (c.count_backlinks t s w).1 in
        Keeps pending stored y.1 w₂ → Fewer m a y.0 (add (edge t s rest) a w₂).0
  add_missing-edge t s rest n m a k w w₂ ih h r =
      let m' : ℕ = if k == 1 then m else m + 1 in
      let w₁ = (c.count_backlinks t s w).1 in
      let y = count rest (n + 1) m' w₁ in
      let w₃ = (c.count_backlinks t s w₂).1 in
      let w₄ = (add_one validate_canonical d c t s w₃).1 in
      let read : Keeps pending stored y.1 w₃ = Keeps-trans r (v.count_backlinks_keeps t s w₂) in
      elim (CountReply-cases (c.count_backlinks t s w₂).0) [
        | inr (e, g) ↦
            subst (λ x. Fewer m a y.0 x.0)
              (sym (add_missing-broken validate_canonical d c t s rest a w₂ e g))
              (Fewer-raise m a y.0 _)
        | inl (j, g) ↦ elim (Bool-cases (j == 1)) [
          | inl one ↦
              subst (λ x. Fewer m a y.0 x.0)
                (sym (add_missing-there validate_canonical d c t s rest a w₂ j g one))
                (Fewer-le m a m' a y.0 (add rest a w₃).0 (ground arith)
                  (ih (n + 1) m' a w₁ w₃ read))
          | inr more ↦
              let absent =
                found_later t s k j w y.1 w₂ h g (counts_keep rest (n + 1) m' w₁) r more in
              elim (Result-cases (add_one validate_canonical d c t s w₃).0) [
                | inl (u, o) ↦
                    subst (λ x. Fewer m a y.0 x.0)
                      (sym (add_missing-added validate_canonical d c t s rest a w₂ j g more o))
                      (Fewer-le m a m' (a + 1) y.0 (add rest (a + 1) w₄).0 (ground arith) (
                        ih (n + 1) m' (a + 1) w₁ w₄ (
                          Keeps-trans read (
                            add_backlinks-Keeps d z validate_canonical default_batch_limits t
                              (s ∷ []) w₃))))
                | inr (e, o) ↦
                    subst (λ x. Fewer m a y.0 x.0)
                      (sym (add_missing-refused validate_canonical d c t s rest a w₂ j e g more o))
                      (Fewer-raise m a y.0 e)
              ]
        ]
      ]

  pub add_missing-le : (es : Edges) → Bounded es
  unfolding count_edges add_missing
  add_missing-le done n m a w w₂ r = omega arith
  add_missing-le (fails e) n m a w w₂ r = tt
  add_missing-le (edge t s rest) n m a w w₂ r =
      elim (CountReply-cases (c.count_backlinks t s w).0) [
        | inr (e, h) ↦
            subst (λ y. Fewer m a y.0 (add (edge t s rest) a w₂).0)
              (sym (count_edges-broken c.count_backlinks t s rest n m w e h)) tt
        | inl (k, h) ↦
            let step = count_edges-edge c.count_backlinks t s rest n m w k h in
            subst (λ y. Fewer m a y.0 (add (edge t s rest) a w₂).0) (sym step)
              (add_missing-edge t s rest n m a k w w₂ (add_missing-le rest) h
                (subst (λ y. Keeps pending stored y.1 w₂) step r))
      ]
