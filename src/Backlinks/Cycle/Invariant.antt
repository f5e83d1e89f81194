-- ===== src/Backlinks/Cycle/Invariant.antt =====
-- How a whole processing cycle ends, and what it leaves of the state's invariant.
use mifolyo.Base.{
  ℕ, zero, suc, ◌+◌, ◌≤◌, ◌≡◌, refl, ◌⊎◌, inl, inr, Bool, true, Bool-cases, List, [], ◌∷◌, min,
  length, arith,
}
use mifolyo.Base.Texts.{Bytes, Text}
use mifolyo.Backlinks.Config.{ProcessingLimits}
use mifolyo.Backlinks.Errors.{bson_error, Result, ok, raise, is_redis_error}
use mifolyo.Backlinks.Datastore.{Datastore}
use mifolyo.Backlinks.State.{ProcessorState, discard, buffered_bytes}
use mifolyo.Backlinks.State.Invariant.{Inv, IsBounded, start}
use mifolyo.Backlinks.Cycle.Vars.{Cycle, no_work}
use mifolyo.Backlinks.Cycle.Fill.{fill}
use mifolyo.Backlinks.Cycle.Fill.Raises.{fill-ok}
use mifolyo.Backlinks.Cycle.Fill.Invariant.{Holds, fill-Holds}
use mifolyo.Backlinks.Cycle.Visit.{visit}
use mifolyo.Backlinks.Cycle.Visit.Invariant.{Failed, Ends, visit-Ends}
use mifolyo.Backlinks.Cycle.Visit.Grows.{visit-ge}
use mifolyo.Backlinks.Cycle.{CycleResult, pop_and_visit, visits, after_fill, report, process_cycle}

module _ (validate_canonical : Text → Bool) (l : ProcessingLimits) where
  -- The state between two cycles, which count the buffered bytes anew.
  abbrev pub IsValidState : ProcessorState → Type 0
  IsValidState s = Inv validate_canonical l (buffered_bytes s.targets) s

  recount : (b : ℕ) (s : ProcessorState) → Inv validate_canonical l b s → IsValidState s
  recount b s v = record {
    queue = v.queue;
    keys_bounded = v.keys_bounded;
    bytes_held = omega arith;
    bytes_bounded = omega (arith, v.bytes_held, v.bytes_bounded);
    buffered = v.buffered;
    parsed = v.parsed;
    waiting = v.waiting;
  }

  -- How a cycle or a round ends: with a RedisError or no exception, in a valid state, or with an error of
  -- the driver's BSON codec, within the bounds.
  abbrev pub Finished : Result CycleResult → ProcessorState → Type 0
  Finished (ok r) s = IsValidState s
  Finished (raise e) s =
      ((is_redis_error e ≡ true) × IsValidState s) ⊎ ((e ≡ bson_error) × IsBounded l s)

module _ (validate_canonical : Text → Bool) {W : Type 0} (d : Datastore W)
    (l : ProcessingLimits) where
  -- The outcome of a step of the target loop before `n` more: there is a key for each of them.
  abbrev Steps : ℕ → Result (Unit {0}) × Cycle W → Type 0
  Steps n (ok u, c) = Holds validate_canonical d l c × (n ≤ length c.state.pending_keys)
  Steps n (raise e, c) = Failed validate_canonical d l e c

  Ends-Steps :
      (n : ℕ) (r : Result (Unit {0})) (c : Cycle W)
      → Ends validate_canonical d l (r, c)
      → n ≤ length c.state.pending_keys
      → Steps n (r, c)
  Ends-Steps n (ok u) c v h = (v, h)
  Ends-Steps n (raise e) c v h = v

  pop_and_visit-Steps :
      (n : ℕ) (ks : List Bytes) (c : Cycle W)
      → c.state.pending_keys ≡ ks
      → n + 1 ≤ length ks
      → Holds validate_canonical d l c
      → Steps n (pop_and_visit validate_canonical d l ks c)
  unfolding pop_and_visit
  pop_and_visit-Steps n [] c e h v = absurd (omega (arith, h))
  pop_and_visit-Steps n (k ∷ ks) c e h v =
      let c₁ : Cycle W = record c {
        state = record c.state { pending_keys = ks; queued_keys = discard k c.state.queued_keys };
        locals = record c.locals { targets_visited = suc c.locals.targets_visited };
      } in
      let (r, c₂) = visit validate_canonical d l k c₁ in
      Ends-Steps n r c₂
        (visit-Ends validate_canonical d l k c₁
          (start validate_canonical l k ks c.locals.pending_bytes c.state e v))
        (omega (arith, h, visit-ge validate_canonical d l k c₁))

  visits-Ends :
      (n : ℕ) (c : Cycle W)
      → n ≤ length c.state.pending_keys
      → Holds validate_canonical d l c
      → Ends validate_canonical d l (visits validate_canonical d l n c)
  unfolding visits
  visits-Ends zero c h v = v
  visits-Ends (suc n) c h v = elim (Bool-cases (d.is_set c.world).0) [
    | inl stop ↦ rw (stop, visits) v
    | inr go ↦
        let c₁ : Cycle W = record c { world = (d.is_set c.world).1 } in
        let (r, c₂) = pop_and_visit validate_canonical d l c₁.state.pending_keys c₁ in
        rw (go, visits)
          (next (visits-Ends n) r c₂
            (pop_and_visit-Steps n c₁.state.pending_keys c₁ refl (omega (arith, h)) v))
  ]
    where
      next :
          ((c : Cycle W)
            → n ≤ length c.state.pending_keys
            → Holds validate_canonical d l c
            → Ends validate_canonical d l (visits validate_canonical d l n c))
          → (r : Result (Unit {0})) (c : Cycle W) → Steps n (r, c)
          → Ends validate_canonical d l
              (elim r [ ok _ ↦ visits validate_canonical d l n c | raise e ↦ (raise e, c) ])
      next f (ok u) c (v, h) = f c h v
      next f (raise e) c v = v

  after_fill-Ends :
      (r : Result (Unit {0})) (c : Cycle W)
      → r ≡ ok tt
      → Holds validate_canonical d l c
      → Ends validate_canonical d l (after_fill validate_canonical d l (r, c))
  unfolding after_fill
  after_fill-Ends (raise e) c h v = cc
  after_fill-Ends (ok u) c h v =
      visits-Ends (min (length c.state.pending_keys) l.max_targets_per_cycle) c (omega arith) v

  report-Finished :
      (r : Result (Unit {0})) (c : Cycle W)
      → Ends validate_canonical d l (r, c)
      → let (x, (s, w)) = report validate_canonical d l (r, c) in Finished validate_canonical l x s
  unfolding report
  report-Finished (raise e) c (inl (h, v)) =
      inl (h, recount validate_canonical l c.locals.pending_bytes c.state v)
  report-Finished (raise e) c (inr h) = inr h
  report-Finished (ok u) c v = recount validate_canonical l c.locals.pending_bytes c.state v

  pub process_cycle-Finished :
      (s : ProcessorState) (w : W)
      → IsValidState validate_canonical l s
      → let (x, (s', w')) = process_cycle validate_canonical d l (s, w) in
        Finished validate_canonical l x s'
  unfolding process_cycle
  process_cycle-Finished s w v =
      let c : Cycle W = record {
        state = s;
        locals = no_work (buffered_bytes s.targets);
        world = w;
      } in
      let (r₁, c₁) = fill d l c in
      let (r₂, c₂) = after_fill validate_canonical d l (r₁, c₁) in
      report-Finished r₂ c₂
        (after_fill-Ends r₁ c₁ (fill-ok d l c) (fill-Holds validate_canonical d l c v))

  -- A cycle over any datastores, which returns or raises, keeps the state valid: the key queue and
  -- its set agree and hold no key twice, at most the allowed number of keys; the buffers hold at most
  -- the allowed number of bytes, each belongs to a queued key that parses; and a target that waits
  -- for a member scan has an empty buffer, and so is queued. Only where the cycle raises an error of
  -- the driver's BSON codec, which ends the service, is the state left with the two bounds alone.
  pub process_cycle-IsValidState :
      (s : ProcessorState) (w : W)
      → IsValidState validate_canonical l s
      → let (x, (s', w')) = process_cycle validate_canonical d l (s, w) in
        IsValidState validate_canonical l s' ⊎ ((x ≡ raise bson_error) × IsBounded l s')
  process_cycle-IsValidState s w v =
      let (x, (s', w')) = process_cycle validate_canonical d l (s, w) in
      ended x s' (process_cycle-Finished s w v)
    where
      ended :
          (x : Result CycleResult) (s' : ProcessorState)
          → Finished validate_canonical l x s'
          → IsValidState validate_canonical l s' ⊎ ((x ≡ raise bson_error) × IsBounded l s')
      ended (ok r) s' h = inl h
      ended (raise e) s' (inl (q, h)) = inl h
      ended (raise e) s' (inr (q, h)) = inr (cc, h)
