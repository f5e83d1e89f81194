-- ===== src/Backlinks/Cycle/Fill.antt =====
-- services/backlinks-processor/main.py: `_fill_pending_keys`, and the handler around its call.
pub mod Rule
pub mod Safety
pub mod Invariant
pub mod Raises
use mifolyo.Base.{
  ℕ, zero, suc, ◌+◌, Bool, true, false, ◌||◌, List, leb, ◌==◌, length, if◌then◌else◌,
}
use mifolyo.Base.Texts.{Bytes}
use mifolyo.Backlinks.Config.{ProcessingLimits}
use mifolyo.Backlinks.Errors.{
  Exception, Result, ok, raise, Exec, scan_limit_exceeded, is_redis_error,
}
use mifolyo.Backlinks.Datastore.{Datastore}
use mifolyo.Backlinks.Redis.{scan_backlink_keys}
use mifolyo.Backlinks.State.{ProcessorState, queue_keys}
use mifolyo.Backlinks.Cycle.Vars.{Cycle, count_retry}

module _ {W : Type 0} (d : Datastore W) (l : ProcessingLimits) where
  scanned : Cycle W → Result (ℕ × List Bytes) × W → Result ℕ × Cycle W
  scanned c (raise e, w) = (raise e, record c { world = w })
  scanned c (ok (next_cursor, keys), w) = (
    ok next_cursor,
    record c { state = queue_keys keys (record c.state { key_cursor = next_cursor }); world = w },
  )

  unfoldable pub scan_keys : Exec (Cycle W) ℕ
  unfolding scanned
  scan_keys c =
      scanned c (
        scan_backlink_keys d c.state.key_cursor l.scan_count_hint l.max_scan_response_items c.world)

  -- `len(state.pending_keys) <= scan_capacity`
  abbrev pub has_capacity : ProcessorState → Bool
  has_capacity s = leb (length s.pending_keys + l.max_scan_response_items) l.max_pending_target_keys

  abbrev pub filled : ℕ → ProcessorState → Bool
  filled next_cursor s = next_cursor == 0 || leb l.max_targets_per_cycle (length s.pending_keys)

  -- The loop, with the scan calls that are left.
  unfoldable pub fill_pending_keys : ℕ → Exec (Cycle W) (Unit {0})
  fill_pending_keys zero c = (ok tt, c)
  fill_pending_keys (suc n) c = elim (has_capacity c.state) [
    | false ↦ (ok tt, c)
    | true ↦
        let (stop, w) = d.is_set c.world in
        elim stop [
          | true ↦ (ok tt, record c { world = w })
          | false ↦
              let (r, c') = scan_keys (record c { world = w }) in
              elim r [
                | raise e ↦ (raise e, c')
                | ok next_cursor ↦ elim (filled next_cursor c'.state) [
                  | true ↦ (ok tt, c')
                  | false ↦ fill_pending_keys n c'
                ]
              ]
        ]
  ]

  fill_failed : Exception → Exec (Cycle W) (Unit {0})
  fill_failed (scan_limit_exceeded m) c =
      (ok tt, count_retry "redis_key_scan_response_limit_exceeded" c)
  fill_failed e c =
      if is_redis_error e then (ok tt, count_retry "redis_key_scan_unavailable" c) else (raise e, c)

  fill_caught : Result (Unit {0}) × Cycle W → Result (Unit {0}) × Cycle W
  unfolding fill_failed
  fill_caught (ok u, c) = (ok u, c)
  fill_caught (raise e, c) = fill_failed e c

  unfoldable pub fill : Exec (Cycle W) (Unit {0})
  unfolding fill_caught
  fill c = fill_caught (fill_pending_keys l.max_scan_calls_per_cycle c)
