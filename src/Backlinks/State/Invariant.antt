-- ===== src/Backlinks/State/Invariant.antt =====
-- main.py: the invariant of the processor's state, between the visits of targets and during one.
use mifolyo.Base.{
  ℕ, ◌+◌, ◌≤◌, ◌≡◌, sym, ◌∙◌, ap, subst, Bool, true, false, ◌||◌, Option, none, some, List, ◌∷◌,
  arith, length,
}
use mifolyo.Base.Texts.{Bytes, Text, same, same_iff, contains}
use mifolyo.Base.Dict
use mifolyo.Base.Dict.{lookup-insert, lookup-remove, total-insert, total-remove}
use mifolyo.Backlinks.Config.{ProcessingLimits}
use mifolyo.Backlinks.Keys.{valid, parse_backlink_key}
use mifolyo.Backlinks.State.{TargetScanState, ProcessorState, needs_scan, buffered_bytes, discard}
use mifolyo.Backlinks.State.Queue.{IsDistinct, IsQueue, contains-discard}

-- A waiter's buffer is there, and waits for a scan.
abbrev pub IsWaiting : Option TargetScanState → Type 0
IsWaiting none = ⊥
IsWaiting (some t) = needs_scan t ≡ true

-- The bounds of the buffers, which hold even where the rest of the invariant does not.
abbrev pub IsBounded : ProcessingLimits → ProcessorState → Type 0
IsBounded l s =
    (length s.pending_keys ≤ l.max_pending_target_keys)
    × (buffered_bytes s.targets ≤ l.max_pending_member_bytes)

module _ (validate_canonical : Text → Bool) (l : ProcessingLimits) where
  -- `bytes` is the count of buffered bytes that the processor goes by.
  pub record Inv (bytes : ℕ) (s : ProcessorState) : Type 0 where
    pub queue : IsQueue s
    pub keys_bounded : length s.pending_keys ≤ l.max_pending_target_keys
    pub bytes_held : buffered_bytes s.targets ≤ bytes
    pub bytes_bounded : bytes ≤ l.max_pending_member_bytes
    pub buffered :
        (k : Bytes) (t : TargetScanState)
        → Dict.lookup k s.targets ≡ some t
        → contains k s.pending_keys ≡ true
    pub parsed :
        (k : Bytes) (t : TargetScanState)
        → Dict.lookup k s.targets ≡ some t
        → (u : Text) × (parse_backlink_key validate_canonical k ≡ valid u)
    pub waiting : (k : Bytes) → s.member_scan_waiter ≡ some k → IsWaiting (Dict.lookup k s.targets)

  -- During the visit of `key`, which is in no queue: its buffer had `before` bytes, and has `now`.
  pub record Visiting (key : Bytes) (bytes before now : ℕ) (s : ProcessorState) : Type 0 where
    pub queue : IsQueue s
    pub not_queued : contains key s.pending_keys ≡ false
    pub keys_bounded : length s.pending_keys + 1 ≤ l.max_pending_target_keys
    pub bytes_held : buffered_bytes s.targets + before ≤ bytes + now
    pub bytes_bounded : bytes + now ≤ l.max_pending_member_bytes + before
    pub buffered :
        (k : Bytes) (t : TargetScanState)
        → Dict.lookup k s.targets ≡ some t
        → (same key k || contains k s.pending_keys) ≡ true
    pub parsed :
        (k : Bytes) (t : TargetScanState)
        → Dict.lookup k s.targets ≡ some t
        → (u : Text) × (parse_backlink_key validate_canonical k ≡ valid u)
    pub waiting : (k : Bytes) → s.member_scan_waiter ≡ some k → IsWaiting (Dict.lookup k s.targets)

  pub start :
      (key : Bytes) (rest : List Bytes) (bytes : ℕ) (s : ProcessorState)
      → s.pending_keys ≡ key ∷ rest
      → Inv bytes s
      → Visiting key bytes 0 0
          (record s { pending_keys = rest; queued_keys = discard key s.queued_keys })
  unfolding contains
  start key rest bytes s e v =
      let d : IsDistinct (key ∷ rest) = subst IsDistinct e v.queue.distinct in
      record {
        queue = record {
          same_keys = λ k. ground (
            arith,
            contains-discard key k s.queued_keys,
            v.queue.same_keys k,
            ap (contains k) e,
            same_iff key k,
            d.0,
          );
          distinct = d.1;
        };
        not_queued = d.0;
        keys_bounded = omega (arith, v.keys_bounded, ap length e);
        bytes_held = omega (arith, v.bytes_held);
        bytes_bounded = omega (arith, v.bytes_bounded);
        buffered = λ k t h. sym (ap (contains k) e) ∙ v.buffered k t h;
        parsed = v.parsed;
        waiting = v.waiting;
      }
