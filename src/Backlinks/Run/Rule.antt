-- ===== src/Backlinks/Run/Rule.antt =====
-- The rule for invariants of `run_processor`.
use mifolyo.Base.{ℕ, zero, suc, ◌≡◌, refl, ◌⊎◌, inl, inr, Bool, Bool-cases, arith}
use mifolyo.Base.Texts.{Text}
use mifolyo.Backlinks.Config.{ProcessingLimits}
use mifolyo.Backlinks.Errors.{Exception, Result, ok, raise}
use mifolyo.Backlinks.Datastore.{Datastore}
use mifolyo.Backlinks.State.{ProcessorState}
use mifolyo.Backlinks.Cycle.{CycleResult, process_cycle}
use mifolyo.Backlinks.Run.{
  Outcome, exited, running, crashed, pause, after_cycle, round, run_processor,
}

Outcome-cases : (o : Outcome) → (o ≡ exited) ⊎ ((o ≡ running) ⊎ ((e : Exception) × (o ≡ crashed e)))
Outcome-cases exited = inl refl
Outcome-cases running = inr (inl refl)
Outcome-cases (crashed e) = inr (inr (e, refl))

module _ (validate_canonical : Text → Bool) {W : Type 0} (d : Datastore W)
    (l : ProcessingLimits) where
  module _ {κ} (I : ProcessorState × W → Type κ)
      (poll : (s : ProcessorState) (w : W) → I (s, w) → I (s, (d.is_set w).1))
      (wait : (n : ℕ) (s : ProcessorState) (w : W) → I (s, w) → I (s, d.wait n w))
      (cycle : (s : ProcessorState) (w : W)
        → I (s, w)
        → I (process_cycle validate_canonical d l (s, w)).1) where
    pause_inv :
        (r : CycleResult) (s : ProcessorState) (w : W)
        → I (s, w)
        → I (s, pause validate_canonical d l r s w)
    unfolding pause
    pause_inv r s w h = ground (arith, wait 2 s w h, wait 10 s w h)

    after_cycle_inv :
        (r : Result CycleResult) (s : ProcessorState) (w : W)
        → I (s, w)
        → I (after_cycle validate_canonical d l (r, (s, w))).1
    unfolding after_cycle
    after_cycle_inv (raise e) s w h = ground (arith, wait 2 s w h)
    after_cycle_inv (ok r) s w h = elim (Bool-cases (d.is_set w).0) [
      | inl stop ↦ rw (stop, after_cycle) (poll s w h)
      | inr go ↦ rw (go, after_cycle) (pause_inv r s (d.is_set w).1 (poll s w h))
    ]

    round_inv : (s : ProcessorState) (w : W) → I (s, w) → I (round validate_canonical d l (s, w)).1
    unfolding round
    round_inv s w h = elim (Bool-cases (d.is_set w).0) [
      | inl stop ↦ rw (stop, round) (poll s w h)
      | inr go ↦
          let (r, (s', w')) = process_cycle validate_canonical d l (s, (d.is_set w).1) in
          rw (go, round) (after_cycle_inv r s' w' (cycle s (d.is_set w).1 (poll s w h)))
    ]

    pub run_processor_inv :
        (n : ℕ) (s : ProcessorState) (w : W)
        → I (s, w)
        → I (run_processor validate_canonical d l n (s, w)).1
    unfolding run_processor
    run_processor_inv zero s w h = h
    run_processor_inv (suc n) s w h =
        let h' = round_inv s w h in
        let (s', w') = (round validate_canonical d l (s, w)).1 in
        elim (Outcome-cases (round validate_canonical d l (s, w)).0) [
          | inl e ↦ rw (e, run_processor) h'
          | inr (inl e) ↦ rw (e, run_processor) (run_processor_inv n s' w' h')
          | inr (inr (x, e)) ↦ rw (e, run_processor) h'
        ]
