-- ===== src/Backlinks/State/Moves.antt =====
-- main.py: how a visit changes the state, and how it ends: the key is queued again, or its buffer
-- is dropped.
use mifolyo.Base.{
  ℕ, ◌+◌, ◌-◌, ◌≤◌, ◌≡◌, ◌≢◌, sym, ◌∙◌, ap, subst, inl, inr, Bool, true, none, some, arith,
  Bool-cases, if◌then◌else◌,
}
use mifolyo.Base.Texts.{Bytes, Text, same, same_iff, same→eq}
use mifolyo.Base.Dict
use mifolyo.Base.Dict.{lookup-insert, lookup-remove, total-insert, total-remove}
use mifolyo.Backlinks.Config.{ProcessingLimits}
use mifolyo.Backlinks.Keys.{valid, parse_backlink_key}
use mifolyo.Backlinks.State.{
  TargetScanState, ProcessorState, needs_scan, target_bytes, buffered_bytes, queue_key,
}
use mifolyo.Backlinks.State.Queue.{
  queue_key-IsQueue, contains-queue_key, length-queue_key, queue_key_frame,
}
use mifolyo.Backlinks.State.Invariant.{IsWaiting, Inv, Visiting}

module _ (validate_canonical : Text → Bool) (l : ProcessingLimits) where
  -- The key goes to the end of the queue.
  pub requeue-Inv :
      (key : Bytes) (b p q : ℕ) (s : ProcessorState)
      → Visiting validate_canonical l key b p q s
      → Inv validate_canonical l (b + q - p) (queue_key key s)
  requeue-Inv key b p q s v =
      let (targets_same, waiter_same) = queue_key_frame key s in
      record {
        queue = queue_key-IsQueue key s v.queue;
        keys_bounded = omega (arith, v.keys_bounded, length-queue_key key s);
        bytes_held = omega (arith, v.bytes_held, ap buffered_bytes targets_same);
        bytes_bounded = omega (arith, v.bytes_bounded);
        buffered = λ k t h.
            contains-queue_key key k s v.queue
            ∙ v.buffered k t (ap (Dict.lookup k) (sym targets_same) ∙ h);
        parsed = λ k t h. v.parsed k t (ap (Dict.lookup k) (sym targets_same) ∙ h);
        waiting = λ k h.
            subst IsWaiting (ap (Dict.lookup k) (sym targets_same))
              (v.waiting k (sym waiter_same ∙ h));
      }

  -- A key without a buffer, which does not wait, is in order out of the queue.
  pub forget-Inv :
      (key : Bytes) (b : ℕ) (s : ProcessorState)
      → Dict.lookup key s.targets ≡ none
      → Visiting validate_canonical l key b 0 0 s
      → Inv validate_canonical l b s
  forget-Inv key b s e v = record {
    queue = v.queue;
    keys_bounded = omega (arith, v.keys_bounded);
    bytes_held = omega (arith, v.bytes_held);
    bytes_bounded = omega (arith, v.bytes_bounded);
    buffered = λ k t h. ground (
      arith,
      v.buffered k t h,
      same_iff key k,
      λ (x : key ≡ k). ap (λ (j : Bytes). Dict.lookup j s.targets) x,
    );
    parsed = v.parsed;
    waiting = v.waiting;
  }

  -- The buffer of a key that does not wait is dropped.
  pub drop-Inv :
      (key : Bytes) (b p q : ℕ) (s : ProcessorState)
      → s.member_scan_waiter ≢ some key
      → Visiting validate_canonical l key b p q s
      → Inv validate_canonical l (b + q - p) (record s { targets = Dict.remove key s.targets })
  drop-Inv key b p q s e v = record {
    queue = record { same_keys = v.queue.same_keys; distinct = v.queue.distinct };
    keys_bounded = omega (arith, v.keys_bounded);
    bytes_held = omega (arith, v.bytes_held, total-remove target_bytes key s.targets);
    bytes_bounded = omega (arith, v.bytes_bounded);
    buffered = λ k t h. ground (arith, lookup-remove key k s.targets, v.buffered k t);
    parsed = λ k t h. v.parsed k t (ground (arith, lookup-remove key k s.targets));
    waiting =
        λ k h. subst IsWaiting (sym (lookup-remove key k s.targets ∙ other k h)) (v.waiting k h);
  }
    where
      other :
          (k : Bytes)
          → s.member_scan_waiter ≡ some k
          → (if same key k then none else Dict.lookup k s.targets) ≡ Dict.lookup k s.targets
      other k h = elim (Bool-cases (same key k)) [
        | inl x ↦ absurd (e (h ∙ ap some (sym (same→eq key k x))))
        | inr x ↦ rw x
      ]

  -- The buffer of the key is set, within the bounds.
  pub put-Visiting :
      (key : Bytes) (b p q : ℕ) (t : TargetScanState) (s : ProcessorState)
      → Dict.weight target_bytes (Dict.lookup key s.targets) ≡ q
      → b + target_bytes t ≤ l.max_pending_member_bytes + p
      → (u : Text) → parse_backlink_key validate_canonical key ≡ valid u
      → (s.member_scan_waiter ≡ some key → needs_scan t ≡ true)
      → Visiting validate_canonical l key b p q s
      → Visiting validate_canonical l key b p
          (target_bytes t)
          (record s { targets = Dict.insert key t s.targets })
  put-Visiting key b p q t s e fits u parsed waits v = record {
    queue = record { same_keys = v.queue.same_keys; distinct = v.queue.distinct };
    not_queued = v.not_queued;
    keys_bounded = v.keys_bounded;
    bytes_held = omega (arith, v.bytes_held, e, total-insert target_bytes key t s.targets);
    bytes_bounded = fits;
    buffered = λ k x h. ground (arith, lookup-insert key k t s.targets, v.buffered k x);
    parsed = λ k x h. elim (Bool-cases (same key k)) [
      | inl y ↦ (
        u,
        subst (λ j. parse_backlink_key validate_canonical j ≡ valid u) (same→eq key k y) parsed,
      )
      | inr y ↦ v.parsed k x (ground (arith, lookup-insert key k t s.targets))
    ];
    waiting = λ k h. rw (lookup-insert key k t s.targets) (waiting_at k h);
  }
    where
      waiting_at :
          (k : Bytes)
          → s.member_scan_waiter ≡ some k
          → IsWaiting (if same key k then some t else Dict.lookup k s.targets)
      waiting_at k h = elim (Bool-cases (same key k)) [
        | inl y ↦ rw y (waits (h ∙ ap some (sym (same→eq key k y))))
        | inr y ↦ rw y (v.waiting k h)
      ]
