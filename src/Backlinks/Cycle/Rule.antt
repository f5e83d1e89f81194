-- ===== src/Backlinks/Cycle/Rule.antt =====
-- The rule for invariants of the target loop of `process_cycle`.
use mifolyo.Base.{ℕ, zero, suc, Bool, Bool-cases, inl, inr}
use mifolyo.Base.Texts.{Text}
use mifolyo.Backlinks.Config.{ProcessingLimits}
use mifolyo.Backlinks.Errors.{Result-cases}
use mifolyo.Backlinks.Datastore.{Datastore}
use mifolyo.Backlinks.Cycle.Vars.{Cycle}
use mifolyo.Backlinks.Cycle.{pop_and_visit, visits}

module _ (validate_canonical : Text → Bool) {W : Type 0} (d : Datastore W)
    (l : ProcessingLimits) where
  -- What a poll keeps, and the step that pops a key and visits it, the loop keeps.
  pub visits_inv {κ} :
      (I : Cycle W → Type κ)
      → ((c : Cycle W) → I c → I (record c { world = (d.is_set c.world).1 }))
      → ((c : Cycle W) → I c → I (pop_and_visit validate_canonical d l c.state.pending_keys c).1)
      → (n : ℕ) (c : Cycle W) → I c
      → I (visits validate_canonical d l n c).1
  unfolding visits
  visits_inv I poll step zero c h = h
  visits_inv I poll step (suc n) c h = elim (Bool-cases (d.is_set c.world).0) [
    | inl stop ↦ rw (stop, visits) (poll c h)
    | inr go ↦
        let c₁ : Cycle W = record c { world = (d.is_set c.world).1 } in
        let (r, c₂) = pop_and_visit validate_canonical d l c₁.state.pending_keys c₁ in
        let h₂ : I c₂ = step c₁ (poll c h) in
        elim (Result-cases (pop_and_visit validate_canonical d l c₁.state.pending_keys c₁).0) [
          | inr (e, failed) ↦ rw (go, failed, visits) h₂
          | inl (u, done) ↦ rw (go, done, visits) (visits_inv I poll step n c₂ h₂)
        ]
  ]
