-- ===== src/Backlinks/Cycle.antt =====
-- services/backlinks-processor/main.py: `process_cycle`, with its local variables and the world of
-- the datastores as one record. The scan of keys is in Cycle/Fill, the work on one target in
-- Cycle/Visit.
mod Vars
pub mod Fill
pub mod Visit
pub mod Rule
pub mod Safety
pub mod Invariant
pub use Vars.*
use mifolyo.Base.{
  ℕ, zero, suc, Bool, true, false, Option, none, some, String, List, [], ◌∷◌, length, min,
}
use mifolyo.Base.Texts.{Bytes, Text}
use mifolyo.Base.Counter.{Counter}
use mifolyo.Backlinks.Config.{ProcessingLimits}
use mifolyo.Backlinks.Errors.{Result, ok, raise, Exec, index_error}
use mifolyo.Backlinks.Datastore.{Datastore}
use mifolyo.Backlinks.State.{ProcessorState, discard, buffered_bytes}

pub record CycleResult : Type 0 where
  pub targets_visited : ℕ
  pub batches_acked : ℕ
  pub members_acked : ℕ
  pub members_removed : ℕ
  pub rejections : Counter
  pub retries : Counter
  pub interrupted : Bool

module _ (validate_canonical : Text → Bool) {W : Type 0} (d : Datastore W)
    (l : ProcessingLimits) where
  -- `pending_keys.popleft()` and `queued_keys.discard(key)`
  pub pop_and_visit : List Bytes → Exec (Cycle W) (Unit {0})
  pop_and_visit [] c = (raise index_error, c)
  pop_and_visit (key ∷ rest) c = Visit.visit validate_canonical d l key (record c {
    state = record c.state { pending_keys = rest; queued_keys = discard key c.state.queued_keys };
    locals = record c.locals { targets_visited = suc c.locals.targets_visited };
  })

  -- The target loop, with the rounds that are left.
  pub visits : ℕ → Exec (Cycle W) (Unit {0})
  unfolding pop_and_visit
  visits zero c = (ok tt, c)
  visits (suc n) c =
      let (stop, w) = d.is_set c.world in
      elim stop [
        | true ↦ (ok tt, record c { world = w })
        | false ↦
            let (r, c') = pop_and_visit c.state.pending_keys (record c { world = w }) in
            elim r [ ok _ ↦ visits n c' | raise e ↦ (raise e, c') ]
      ]

  after_fill : Result (Unit {0}) × Cycle W → Result (Unit {0}) × Cycle W
  unfolding visits
  after_fill (raise e, c) = (raise e, c)
  after_fill (ok _, c) = visits (min (length c.state.pending_keys) l.max_targets_per_cycle) c

  summary : Locals → Bool → CycleResult
  summary v stop = record {
    targets_visited = v.targets_visited;
    batches_acked = v.batches_acked;
    members_acked = v.members_acked;
    members_removed = v.members_removed;
    rejections = v.rejections;
    retries = v.retries;
    interrupted = stop;
  }

  report : Result (Unit {0}) × Cycle W → Result CycleResult × (ProcessorState × W)
  unfolding summary
  report (raise e, c) = (raise e, (c.state, c.world))
  report (ok _, c) = let (stop, w) = d.is_set c.world in (ok (summary c.locals stop), (c.state, w))

  unfoldable pub process_cycle : Exec (ProcessorState × W) CycleResult
  unfolding after_fill report
  process_cycle (s, w) = report (
      after_fill (
        Fill.fill d l
          (record { state = s; locals = no_work (buffered_bytes s.targets); world = w })))
