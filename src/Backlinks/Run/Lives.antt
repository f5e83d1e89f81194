-- ===== src/Backlinks/Run/Lives.antt =====
-- The service: how its rounds end, and what they leave of the state.
use mifolyo.Base.{
  ℕ, zero, suc, ◌≡◌, refl, ◌⊎◌, inl, inr, Bool, Bool-cases, true, false, if◌then◌else◌, ◌||◌, arith,
}
use mifolyo.Base.Texts.{Text}
use mifolyo.Base.Dict
use mifolyo.Backlinks.Config.{ProcessingLimits}
use mifolyo.Backlinks.Errors.{bson_error, Result, ok, raise, is_redis_error, is_pymongo_error}
use mifolyo.Backlinks.Datastore.{Datastore}
use mifolyo.Backlinks.State.{ProcessorState, new_processor}
use mifolyo.Backlinks.State.Invariant.{IsBounded}
use mifolyo.Backlinks.Cycle.{CycleResult, process_cycle}
use mifolyo.Backlinks.Cycle.Invariant.{IsValidState, Finished, process_cycle-Finished}
use mifolyo.Backlinks.Run.{Outcome, exited, running, crashed, after_cycle, round, run_processor}

pub new_processor-IsValidState :
    (validate_canonical : Text → Bool) (l : ProcessingLimits)
    → IsValidState validate_canonical l new_processor
unfolding Dict.lookup
new_processor-IsValidState validate_canonical l = record {
  queue = record { same_keys = λ k. refl; distinct = tt };
  keys_bounded = omega arith;
  bytes_held = omega arith;
  bytes_bounded = omega arith;
  buffered = λ k t h. cc;
  parsed = λ k t h. cc;
  waiting = λ k h. cc;
}

module _ (validate_canonical : Text → Bool) {W : Type 0} (d : Datastore W)
    (l : ProcessingLimits) where
  -- The outcome of a round: the state is valid, unless an error of the BSON codec has left the service.
  abbrev pub Lives : Outcome × (ProcessorState × W) → Type 0
  Lives (running, (s, w)) = IsValidState validate_canonical l s
  Lives (exited, (s, w)) = IsValidState validate_canonical l s
  Lives (crashed e, (s, w)) = (e ≡ bson_error) × IsBounded l s

  after_cycle-Lives :
      (r : Result CycleResult) (s : ProcessorState) (w : W)
      → Finished validate_canonical l r s
      → Lives (after_cycle validate_canonical d l (r, (s, w)))
  unfolding after_cycle
  after_cycle-Lives (raise e) s w (inl (h, v)) =
      caught (is_pymongo_error e || is_redis_error e) (ground (arith, h))
    where
      caught :
          (b : Bool)
          → b ≡ true
          → Lives (if b then (running, (s, d.wait 2 w)) else (crashed e, (s, w)))
      caught true q = v
      caught false q = cc
  after_cycle-Lives (raise bson_error) s w (inr h) = h
  after_cycle-Lives (raise e) s w (inr h) = cc
  after_cycle-Lives (ok r) s w v = elim (Bool-cases (d.is_set w).0) [
    | inl stop ↦ rw (stop, after_cycle) v
    | inr go ↦ rw (go, after_cycle) v
  ]

  round-Lives :
      (s : ProcessorState) (w : W)
      → IsValidState validate_canonical l s
      → Lives (round validate_canonical d l (s, w))
  unfolding round
  round-Lives s w v =
      let w₁ = (d.is_set w).1 in
      let (r, (s', w')) = process_cycle validate_canonical d l (s, w₁) in
      elim (Bool-cases (d.is_set w).0) [
        | inl stop ↦ rw (stop, round) v
        | inr go ↦
            rw (go, round)
              (after_cycle-Lives r s' w' (process_cycle-Finished validate_canonical d l s w₁ v))
      ]

  pub run_processor-Lives :
      (n : ℕ) (s : ProcessorState) (w : W)
      → IsValidState validate_canonical l s
      → Lives (run_processor validate_canonical d l n (s, w))
  unfolding run_processor
  run_processor-Lives zero s w v = v
  run_processor-Lives (suc n) s w v =
      let (o, (s', w')) = round validate_canonical d l (s, w) in
      goes_on o s' w' (run_processor-Lives n s' w') (round-Lives s w v)
    where
      goes_on :
          (o : Outcome) (s' : ProcessorState) (w' : W)
          → (IsValidState validate_canonical l s'
              → Lives (run_processor validate_canonical d l n (s', w')))
          → Lives (o, (s', w'))
          → Lives (elim o [
            | running ↦ run_processor validate_canonical d l n (s', w')
            | exited ↦ (exited, (s', w'))
            | crashed e ↦ (crashed e, (s', w'))
          ])
      goes_on running s' w' next h = next h
      goes_on exited s' w' next h = h
      goes_on (crashed e) s' w' next h = h

  pub run_processor-Lives_from_start :
      (n : ℕ) (w : W) → Lives (run_processor validate_canonical d l n (new_processor, w))
  run_processor-Lives_from_start n w =
      run_processor-Lives n new_processor w (new_processor-IsValidState validate_canonical l)

-- From the state that the service starts in, over any datastores, whatever they reply, and for any
-- number of rounds: the loop of `run_processor` goes on, or ends because the stop event is set, or an
-- error of the driver's BSON codec leaves it; no other exception does.
pub run_processor_lives :
    (validate_canonical : Text → Bool) {W : Type 0} (d : Datastore W) (l : ProcessingLimits) (n : ℕ)
    (w : W)
    → let o = (run_processor validate_canonical d l n (new_processor, w)).0 in
      (o ≡ running) ⊎ ((o ≡ exited) ⊎ (o ≡ crashed bson_error))
run_processor_lives validate_canonical {W = W} d l n w =
    let (o, (s, w')) = run_processor validate_canonical d l n (new_processor, w) in
    ended o s w' (run_processor-Lives_from_start validate_canonical d l n w)
  where
    ended :
        (o : Outcome) (s : ProcessorState) (w' : W)
        → Lives validate_canonical d l (o, (s, w'))
        → (o ≡ running) ⊎ ((o ≡ exited) ⊎ (o ≡ crashed bson_error))
    ended running s w' h = inl refl
    ended exited s w' h = inr (inl refl)
    ended (crashed e) s w' h = inr (inr cc)
