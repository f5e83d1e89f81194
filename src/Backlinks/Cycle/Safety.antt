-- ===== src/Backlinks/Cycle/Safety.antt =====
-- A whole processing cycle: a member leaves its Redis set only when MongoDB holds its link.
use mifolyo.Base.{ℕ, suc, Bool, List, [], ◌∷◌, min, length}
use mifolyo.Base.Texts.{Bytes, Text}
use mifolyo.Backlinks.Config.{ProcessingLimits}
use mifolyo.Backlinks.Errors.{Result, ok, raise}
use mifolyo.Backlinks.Datastore.{Datastore, IsReliable}
use mifolyo.Backlinks.Safe.{Safe, Safe-refl, Safe-Keeps, Safe-trans}
use mifolyo.Backlinks.State.{ProcessorState, discard, buffered_bytes}
use mifolyo.Backlinks.Cycle.Vars.{Cycle, no_work}
use mifolyo.Backlinks.Cycle.Fill
use mifolyo.Backlinks.Cycle.Fill.Safety.{fill-Keeps}
use mifolyo.Backlinks.Cycle.Visit.Safety.{visit-Safe}
use mifolyo.Backlinks.Cycle.Rule.{visits_inv}
use mifolyo.Backlinks.Cycle.{pop_and_visit, visits, after_fill, report, process_cycle}

module _ (validate_canonical : Text → Bool) {W : Type 0} (d : Datastore W) (l : ProcessingLimits)
    {pending : W → Bytes → Bytes → Bool} {stored : W → Text → Text → Bool}
    (v : IsReliable pending stored d) where
  pop_and_visit-Safe :
      (ks : List Bytes) (c : Cycle W)
      → Safe validate_canonical pending stored c.world
          (pop_and_visit validate_canonical d l ks c).1.world
  unfolding pop_and_visit
  pop_and_visit-Safe [] c = Safe-refl validate_canonical pending stored c.world
  pop_and_visit-Safe (k ∷ ks) c = visit-Safe validate_canonical d l v k (record c {
    state = record c.state { pending_keys = ks; queued_keys = discard k c.state.queued_keys };
    locals = record c.locals { targets_visited = suc c.locals.targets_visited };
  })

  visits-Safe :
      (n : ℕ) (c : Cycle W)
      → Safe validate_canonical pending stored c.world (visits validate_canonical d l n c).1.world
  visits-Safe n c =
      visits_inv validate_canonical d l
        (λ c'. Safe validate_canonical pending stored c.world c'.world)
        (λ c' h.
          Safe-trans validate_canonical pending stored h
            (Safe-Keeps validate_canonical pending stored (v.is_set_keeps c'.world)))
        (λ c' h.
          Safe-trans validate_canonical pending stored h
            (pop_and_visit-Safe c'.state.pending_keys c'))
        n c (Safe-refl validate_canonical pending stored c.world)

  after_fill-Safe :
      (r : Result (Unit {0})) (c : Cycle W)
      → Safe validate_canonical pending stored c.world
          (after_fill validate_canonical d l (r, c)).1.world
  unfolding after_fill
  after_fill-Safe (raise e) c = Safe-refl validate_canonical pending stored c.world
  after_fill-Safe (ok u) c =
      visits-Safe (min (length c.state.pending_keys) l.max_targets_per_cycle) c

  report-Safe :
      (r : Result (Unit {0})) (c : Cycle W)
      → Safe validate_canonical pending stored c.world (report validate_canonical d l (r, c)).1.1
  unfolding report
  report-Safe (raise e) c = Safe-refl validate_canonical pending stored c.world
  report-Safe (ok u) c = Safe-Keeps validate_canonical pending stored (v.is_set_keeps c.world)

  -- Over reliable datastores, from any state, however the cycle ends: each member that was in a Redis
  -- set is still there, or its key and its bytes parse and MongoDB links its URL to the target of its
  -- key; and no stored link is lost.
  pub process_cycle-Safe :
      (s : ProcessorState) (w : W)
      → Safe validate_canonical pending stored w (process_cycle validate_canonical d l (s, w)).1.1
  unfolding process_cycle
  process_cycle-Safe s w =
      let c : Cycle W = record {
        state = s;
        locals = no_work (buffered_bytes s.targets);
        world = w;
      } in
      let (r₁, c₁) = Fill.fill d l c in
      let (r₂, c₂) = after_fill validate_canonical d l (r₁, c₁) in
      Safe-trans validate_canonical pending stored
        (Safe-Keeps validate_canonical pending stored (fill-Keeps d l v c))
        (Safe-trans validate_canonical pending stored (after_fill-Safe r₁ c₁) (report-Safe r₂ c₂))
