-- ===== src/Backlinks/Cycle/Vars.antt =====
-- services/backlinks-processor/main.py: the local variables of `process_cycle`.
use mifolyo.Base.{ℕ, String, []}
use mifolyo.Base.Counter.{Counter, bump}
use mifolyo.Backlinks.State.{ProcessorState}

pub record Locals : Type 0 where
  pub targets_visited : ℕ
  pub batches_acked : ℕ
  pub members_acked : ℕ
  pub members_removed : ℕ
  pub rejections : Counter
  pub retries : Counter
  pub pending_bytes : ℕ

abbrev pub no_work : ℕ → Locals
no_work bytes = record {
  targets_visited = 0;
  batches_acked = 0;
  members_acked = 0;
  members_removed = 0;
  rejections = [];
  retries = [];
  pending_bytes = bytes;
}

pub record Cycle (W : Type 0) : Type 0 where
  pub state : ProcessorState
  pub locals : Locals
  pub world : W

module _ {W : Type 0} where
  -- `rejections[reason] += 1`, `retries[reason] += 1`
  abbrev pub count_rejection : String → Cycle W → Cycle W
  count_rejection reason c = record c {
    locals = record c.locals { rejections = bump reason c.locals.rejections };
  }

  abbrev pub count_retry : String → Cycle W → Cycle W
  count_retry reason c = record c {
    locals = record c.locals { retries = bump reason c.locals.retries };
  }
