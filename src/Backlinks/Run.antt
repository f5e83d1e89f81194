-- ===== src/Backlinks/Run.antt =====
-- services/backlinks-processor/main.py: `run_processor`, the service's loop.
pub mod Rule
pub mod Safety
pub mod Invariant
pub mod Lives
use mifolyo.Base.{ℕ, zero, suc, Bool, true, false, ◌||◌, [], ◌∷◌, if◌then◌else◌}
use mifolyo.Base.Texts.{Text}
use mifolyo.Base.Counter.{Counter}
use mifolyo.Backlinks.Config.{ProcessingLimits}
use mifolyo.Backlinks.Errors.{Exception, Result, ok, raise, is_redis_error, is_pymongo_error}
use mifolyo.Backlinks.Datastore.{Datastore}
use mifolyo.Backlinks.State.{ProcessorState}
use mifolyo.Backlinks.Cycle.{CycleResult, process_cycle}

-- The loop ends when the stop event is set; `running` is a loop that has used its rounds.
pub data Outcome : Type 0 where
  exited running : Outcome
  crashed : Exception → Outcome

abbrev pub retry_backoff_seconds : ℕ
retry_backoff_seconds = 2

abbrev pub poll_interval_seconds : ℕ
poll_interval_seconds = 10

abbrev has_retries : Counter → Bool
has_retries [] = false
has_retries (_ ∷ _) = true

module _ (validate_canonical : Text → Bool) {W : Type 0} (d : Datastore W)
    (l : ProcessingLimits) where
  -- The waits at the end of a round.
  pause : CycleResult → ProcessorState → W → W
  pause r s w = elim (has_retries r.retries) [
    | true ↦ d.wait retry_backoff_seconds w
    | false ↦ elim s.pending_keys [ [] ↦ d.wait poll_interval_seconds w | _ ↦ w ]
  ]

  -- One round: whether the loop goes on, and the state.
  after_cycle : Result CycleResult × (ProcessorState × W) → Outcome × (ProcessorState × W)
  unfolding pause
  after_cycle (raise e, (s, w)) =
      if is_pymongo_error e || is_redis_error e
      then (running, (s, d.wait retry_backoff_seconds w))
      else (crashed e, (s, w))
  after_cycle (ok r, (s, w)) =
      let (stop, w') = d.is_set w in
      elim stop [ true ↦ (exited, (s, w')) | false ↦ (running, (s, pause r s w')) ]

  round : ProcessorState × W → Outcome × (ProcessorState × W)
  unfolding after_cycle
  round (s, w) =
      let (stop, w') = d.is_set w in
      elim stop [
        | true ↦ (exited, (s, w'))
        | false ↦ after_cycle (process_cycle validate_canonical d l (s, w'))
      ]

  -- The loop for at most a number of rounds.
  unfoldable pub run_processor : ℕ → ProcessorState × W → Outcome × (ProcessorState × W)
  unfolding round
  run_processor zero x = (running, x)
  run_processor (suc n) x =
      let (o, x') = round x in
      elim o [ running ↦ run_processor n x' | exited ↦ (exited, x') | crashed e ↦ (crashed e, x') ]
