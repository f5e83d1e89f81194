-- ===== src/Backlinks/Run/Safety.antt =====
-- The service: over any number of rounds a member leaves its Redis set only when MongoDB holds its
-- link.
use mifolyo.Base.{ℕ, Bool}
use mifolyo.Base.Texts.{Bytes, Text}
use mifolyo.Backlinks.Config.{ProcessingLimits}
use mifolyo.Backlinks.Datastore.{Datastore, IsReliable}
use mifolyo.Backlinks.Safe.{Safe, Safe-refl, Safe-Keeps, Safe-trans}
use mifolyo.Backlinks.State.{ProcessorState}
use mifolyo.Backlinks.Cycle.Safety.{process_cycle-Safe}
use mifolyo.Backlinks.Run.{run_processor}
use mifolyo.Backlinks.Run.Rule.{run_processor_inv}

-- Over reliable datastores, from any state and for any number of rounds of the service: each member
-- that was in a Redis set is still there, or its key and its bytes parse and MongoDB links its URL
-- to the target of its key; and no link that was stored is lost.
pub run_processor-Safe :
    (validate_canonical : Text → Bool) {W : Type 0} (d : Datastore W) (l : ProcessingLimits)
    {pending : W → Bytes → Bytes → Bool} {stored : W → Text → Text → Bool}
    → IsReliable pending stored d
    → (n : ℕ) (s : ProcessorState) (w : W)
    → Safe validate_canonical pending stored w (run_processor validate_canonical d l n (s, w)).1.1
run_processor-Safe validate_canonical d l {pending} {stored} v n s w =
    run_processor_inv validate_canonical d l (λ x. Safe validate_canonical pending stored w x.1)
      (λ s' w' h.
        Safe-trans validate_canonical pending stored h
          (Safe-Keeps validate_canonical pending stored (v.is_set_keeps w')))
      (λ k s' w' h.
        Safe-trans validate_canonical pending stored h
          (Safe-Keeps validate_canonical pending stored (v.wait_keeps k w')))
      (λ s' w' h.
        Safe-trans validate_canonical pending stored h
          (process_cycle-Safe validate_canonical d l v s' w'))
      n s w (Safe-refl validate_canonical pending stored w)
