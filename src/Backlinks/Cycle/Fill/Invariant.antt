-- ===== src/Backlinks/Cycle/Fill/Invariant.antt =====
-- `_fill_pending_keys` keeps the state's invariant, and its call in `process_cycle` returns.
use mifolyo.Base.{ℕ, ◌+◌, ◌≤◌, ◌≡◌, refl, sym, ◌∙◌, ap, subst, Bool, true, List, arith, length}
use mifolyo.Base.Texts.{Bytes, Text}
use mifolyo.Base.Dict
use mifolyo.Backlinks.Config.{ProcessingLimits}
use mifolyo.Backlinks.Errors.{Result, ok, raise}
use mifolyo.Backlinks.Datastore.{Datastore}
use mifolyo.Backlinks.Redis.{scan_backlink_keys}
use mifolyo.Backlinks.Redis.Laws.{scan_backlink_keys-le}
use mifolyo.Backlinks.State.{ProcessorState, buffered_bytes, queue_keys}
use mifolyo.Backlinks.State.Queue.{
  IsQueue, queue_keys-IsQueue, length-queue_keys, queue_keys_frame, contains-queue_keys,
}
use mifolyo.Backlinks.State.Invariant.{IsWaiting, Inv}
use mifolyo.Backlinks.Cycle.Vars.{Cycle}
use mifolyo.Backlinks.Cycle.Fill.Rule.{fill_inv}
use mifolyo.Backlinks.Cycle.Fill.{scanned, scan_keys, has_capacity, fill}

module _ (validate_canonical : Text → Bool) {W : Type 0} (d : Datastore W)
    (l : ProcessingLimits) where
  abbrev pub Holds : Cycle W → Type 0
  Holds c = Inv validate_canonical l c.locals.pending_bytes c.state

  -- New keys fit where the queue has the capacity for them.
  queue_keys-Inv :
      (ks : List Bytes) (cursor b : ℕ) (s : ProcessorState)
      → length s.pending_keys + length ks ≤ l.max_pending_target_keys
      → Inv validate_canonical l b s
      → Inv validate_canonical l b (queue_keys ks (record s { key_cursor = cursor }))
  queue_keys-Inv ks cursor b s fits v =
      let s₁ : ProcessorState = record s { key_cursor = cursor } in
      let q : IsQueue s₁ = record { same_keys = v.queue.same_keys; distinct = v.queue.distinct } in
      let (targets_same, waiter_same) = queue_keys_frame ks s₁ in
      record {
        queue = queue_keys-IsQueue ks s₁ q;
        keys_bounded = omega (arith, fits, length-queue_keys ks s₁);
        bytes_held = omega (arith, v.bytes_held, ap buffered_bytes targets_same);
        bytes_bounded = v.bytes_bounded;
        buffered = λ k t h.
            contains-queue_keys k ks s₁ q
              (v.buffered k t (ap (Dict.lookup k) (sym targets_same) ∙ h));
        parsed = λ k t h. v.parsed k t (ap (Dict.lookup k) (sym targets_same) ∙ h);
        waiting = λ k h.
            subst IsWaiting (ap (Dict.lookup k) (sym targets_same))
              (v.waiting k (sym waiter_same ∙ h));
      }

  scanned-Holds :
      (c : Cycle W) (r : Result (ℕ × List Bytes)) (w : W)
      → ((k : ℕ) (ks : List Bytes) → r ≡ ok (k, ks) → length ks ≤ l.max_scan_response_items)
      → has_capacity d l c.state ≡ true
      → Holds c
      → Holds (scanned d l c (r, w)).1
  unfolding scanned
  scanned-Holds c (raise e) w small room v = v
  scanned-Holds c (ok (k, ks)) w small room v =
      queue_keys-Inv ks k c.locals.pending_bytes c.state (fits (small k ks refl)) v
    where
      fits :
          length ks ≤ l.max_scan_response_items
          → length c.state.pending_keys + length ks ≤ l.max_pending_target_keys
      fits h = ground arith

  scan_keys-Holds :
      (c : Cycle W) → has_capacity d l c.state ≡ true → Holds c → Holds (scan_keys d l c).1
  unfolding scan_keys
  scan_keys-Holds c room v =
      let (r, w) =
        scan_backlink_keys d c.state.key_cursor l.scan_count_hint l.max_scan_response_items
          c.world in
      scanned-Holds c r w
        (scan_backlink_keys-le d c.state.key_cursor l.scan_count_hint l.max_scan_response_items
          c.world)
        room v

  -- Reading the keys keeps the invariant, however the scan ends.
  pub fill-Holds : (c : Cycle W) → Holds c → Holds (fill d l c).1
  fill-Holds c v = fill_inv d l Holds (λ c' h. h) scan_keys-Holds (λ reason c' h. h) c v
