-- ===== src/Backlinks/Run/Invariant.antt =====
-- The service: its state stays valid over any number of rounds.
use mifolyo.Base.{ℕ, ◌≤◌, ◌≡◌, ◌⊎◌, inl, inr, Bool, length}
use mifolyo.Base.Texts.{Text}
use mifolyo.Backlinks.Config.{ProcessingLimits}
use mifolyo.Backlinks.Errors.{bson_error}
use mifolyo.Backlinks.Datastore.{Datastore}
use mifolyo.Backlinks.State.{ProcessorState, new_processor, buffered_bytes}
use mifolyo.Backlinks.Cycle.Invariant.{IsValidState}
use mifolyo.Backlinks.Run.{Outcome, running, exited, crashed, run_processor}
use mifolyo.Backlinks.Run.Lives.{Lives, run_processor-Lives_from_start}

-- From the state that the service starts in, over any datastores and for any number of rounds, the key
-- queue holds at most `max_pending_target_keys` keys, and all buffers together hold at most
-- `max_pending_member_bytes` bytes. The whole state is valid, unless an error of the driver's BSON
-- codec has left the loop.
pub run_processor_bounded :
    (validate_canonical : Text → Bool) {W : Type 0} (d : Datastore W) (l : ProcessingLimits) (n : ℕ)
    (w : W)
    → let (o, (s, w')) = run_processor validate_canonical d l n (new_processor, w) in
      (IsValidState validate_canonical l s ⊎ (o ≡ crashed bson_error))
      × (length s.pending_keys ≤ l.max_pending_target_keys)
      × (buffered_bytes s.targets ≤ l.max_pending_member_bytes)
run_processor_bounded validate_canonical {W = W} d l n w =
    let (o, (s, w')) = run_processor validate_canonical d l n (new_processor, w) in
    ended o s w' (run_processor-Lives_from_start validate_canonical d l n w)
  where
    ended :
        (o : Outcome) (s : ProcessorState) (w' : W)
        → Lives validate_canonical d l (o, (s, w'))
        → (IsValidState validate_canonical l s ⊎ (o ≡ crashed bson_error))
          × (length s.pending_keys ≤ l.max_pending_target_keys)
          × (buffered_bytes s.targets ≤ l.max_pending_member_bytes)
    ended running s w' v = (inl v, v.keys_bounded, v.bytes_bounded)
    ended exited s w' v = (inl v, v.keys_bounded, v.bytes_bounded)
    ended (crashed e) s w' (h, b) = (inr cc, b.0, b.1)
