-- ===== src/Backlinks/Cycle/Visit/Fetches.antt =====
-- The member scan of a visit keeps the state's invariant, and a buffer it gives fits the budget.
use mifolyo.Base.{
  ℕ, ◌+◌, ◌≤◌, ◌≡◌, ◌≢◌, refl, subst, inl, inr, Bool, true, false, Option, none, some, List, [],
  ◌∷◌, ◌++◌, arith, Bool-cases, ltb,
}
use mifolyo.Base.Texts.{Bytes, Text}
use mathlib.Core.Option.{some-injective}
use mifolyo.Base.Dict
use mifolyo.Backlinks.Config.{ProcessingLimits}
use mifolyo.Backlinks.Errors.{
  Exception, Result, ok, raise, redis_error, scan_limit_exceeded, invalid_backlink_set,
  is_redis_error,
}
use mifolyo.Backlinks.Datastore.{Datastore}
use mifolyo.Backlinks.Redis.{scan_backlink_members}
use mifolyo.Backlinks.Redis.Laws.{is_scan_error, IsScan, scan_backlink_members-IsScan}
use mifolyo.Backlinks.State.{
  TargetScanState, byte_count, target_bytes, needs_scan, is_empty, queue_key,
}
use mifolyo.Backlinks.State.Invariant.{IsWaiting, Inv, Visiting}
use mifolyo.Backlinks.State.Moves.{requeue-Inv, drop-Inv}
use mifolyo.Backlinks.Cycle.Vars.{Cycle}
use mifolyo.Backlinks.Cycle.Visit.{
  Fetch, ready, continues, broken, scan_byte_limit, first_waiter, with_waiter, requeue, defer,
  scan_failed, page_scanned, scan_page, must_wait, fetch,
}

module _ (validate_canonical : Text → Bool) {W : Type 0} (d : Datastore W)
    (l : ProcessingLimits) where
  -- The invariant at the count of bytes that the cycle goes by.
  abbrev pub Holds : Cycle W → Type 0
  Holds c = Inv validate_canonical l c.locals.pending_bytes c.state

  abbrev pub Visits : Bytes → ℕ → ℕ → Cycle W → Type 0
  Visits key p q c = Visiting validate_canonical l key c.locals.pending_bytes p q c.state

  -- Nothing has changed in the buffer yet, whatever its size.
  pub same_size-Visits : (key : Bytes) (p q : ℕ) (c : Cycle W) → Visits key p p c → Visits key q q c
  same_size-Visits key p q c v = record {
    queue = v.queue;
    not_queued = v.not_queued;
    keys_bounded = v.keys_bounded;
    bytes_held = omega (arith, v.bytes_held);
    bytes_bounded = omega (arith, v.bytes_bounded);
    buffered = v.buffered;
    parsed = v.parsed;
    waiting = v.waiting;
  }

  set_waiter-Visits :
      (key : Bytes) (p q : ℕ) (o : Option Bytes) (c : Cycle W)
      → ((k : Bytes) → o ≡ some k → IsWaiting (Dict.lookup k c.state.targets))
      → Visits key p q c
      → Visits key p q (with_waiter o c)
  set_waiter-Visits key p q o c h v = record {
    queue = record { same_keys = v.queue.same_keys; distinct = v.queue.distinct };
    not_queued = v.not_queued;
    keys_bounded = v.keys_bounded;
    bytes_held = v.bytes_held;
    bytes_bounded = v.bytes_bounded;
    buffered = v.buffered;
    parsed = v.parsed;
    waiting = h;
  }

  pub requeue-Holds : (key : Bytes) (p : ℕ) (c : Cycle W) → Visits key p p c → Holds (requeue key c)
  requeue-Holds key p c v =
      subst (λ n. Inv validate_canonical l n (queue_key key c.state)) (omega arith)
        (requeue-Inv validate_canonical l key c.locals.pending_bytes p p c.state v)

  first_waiter-IsWaiting :
      (key : Bytes) (t : TargetScanState) (o : Option Bytes) (c : Cycle W)
      → Dict.lookup key c.state.targets ≡ some t
      → needs_scan t ≡ true
      → ((k : Bytes) → o ≡ some k → IsWaiting (Dict.lookup k c.state.targets))
      → (k : Bytes) → first_waiter key o ≡ some k
      → IsWaiting (Dict.lookup k c.state.targets)
  first_waiter-IsWaiting key t none c e s h k x =
      subst (λ j. IsWaiting (Dict.lookup j c.state.targets)) (some-injective key k x) (rw e s)
  first_waiter-IsWaiting key t (some j) c e s h k x = h k x

  defer-Holds :
      (key : Bytes) (t : TargetScanState) (c : Cycle W)
      → Dict.lookup key c.state.targets ≡ some t
      → needs_scan t ≡ true
      → Visits key 0 0 c
      → Holds (defer validate_canonical d l key c)
  unfolding defer
  defer-Holds key t c e s v =
      requeue-Holds key 0 (with_waiter (first_waiter key c.state.member_scan_waiter) c) (
        set_waiter-Visits key 0 0 (first_waiter key c.state.member_scan_waiter) c
          (first_waiter-IsWaiting key t c.state.member_scan_waiter c e s v.waiting) v)

  -- What a fetch leaves behind, where the buffer in `state.targets` is `old`.
  pub record IsReady (key : Bytes) (old t : TargetScanState) (c : Cycle W) : Type 0 where
    pub visiting : Visits key (target_bytes old) (target_bytes old) c
    pub not_waiting : c.state.member_scan_waiter ≢ some key
    pub stored : Dict.lookup key c.state.targets ≡ some old
    pub fits :
        c.locals.pending_bytes + target_bytes t ≤ l.max_pending_member_bytes + target_bytes old

  abbrev pub Fetched : Bytes → TargetScanState → Fetch × Cycle W → Type 0
  Fetched key old (ready t, c) = IsReady key old t c
  Fetched key old (continues, c) = Holds c
  Fetched key old (broken e, c) = Holds c × (is_redis_error e ≡ true)

  scan_failed-Fetched :
      (key : Bytes) (old : TargetScanState) (e : Exception) (c : Cycle W)
      → is_scan_error e ≡ true
      → c.state.member_scan_waiter ≡ none
      → Visits key 0 0 c
      → Fetched key old (scan_failed validate_canonical d l key e c)
  unfolding scan_failed
  scan_failed-Fetched key old (invalid_backlink_set reason) c h n v =
      subst
        (λ m.
          Inv validate_canonical l m (record c.state { targets = Dict.remove key c.state.targets }))
        (omega arith)
        (drop-Inv validate_canonical l key c.locals.pending_bytes 0 0 c.state (λ x. cc (n, x)) v)
  scan_failed-Fetched key old redis_error c h n v = (requeue-Holds key 0 c v, refl)
  scan_failed-Fetched key old (scan_limit_exceeded m) c h n v = (requeue-Holds key 0 c v, refl)
  scan_failed-Fetched key old e c h n v = cc

  page_scanned-Fetched :
      (key : Bytes) (t : TargetScanState) (c : Cycle W) (r : Result (ℕ × List Bytes)) (w : W)
      → IsScan r
      → c.state.member_scan_waiter ≡ none
      → Dict.lookup key c.state.targets ≡ some t
      → t.pending_members ≡ []
      → c.locals.pending_bytes + scan_byte_limit l ≤ l.max_pending_member_bytes
      → Visits key 0 0 c
      → Fetched key t (page_scanned validate_canonical d l key t c (r, w))
  unfolding page_scanned
  page_scanned-Fetched key t c (raise e) w h n s z room v =
      scan_failed-Fetched key t e (record c { world = w }) h n v
  page_scanned-Fetched key t c (ok (cursor, ms)) w h n s z room v =
      elim (Bool-cases (ltb (scan_byte_limit l) (byte_count ms))) [
        | inl large ↦
            rw (large, page_scanned)
              (scan_failed-Fetched key t
                (scan_limit_exceeded "member_scan_response_byte_limit_exceeded")
                (record c { world = w }) refl n v)
        | inr small ↦
            rw (small, page_scanned)
              (record {
                visiting = same_size-Visits key 0 (target_bytes t) (record c { world = w }) v;
                not_waiting = λ x. cc (n, x);
                stored = s;
                fits = within ms small;
              })
      ]
    where
      within :
          (ms : List Bytes)
          → ltb (scan_byte_limit l) (byte_count ms) ≡ false
          → c.locals.pending_bytes + byte_count (t.pending_members ++ ms)
            ≤ l.max_pending_member_bytes + target_bytes t
      within ms small = rw z (ground arith)

  -- `scan_page` with no waiter left.
  scan_page-Fetched :
      (key : Bytes) (t : TargetScanState) (c : Cycle W)
      → c.state.member_scan_waiter ≡ none
      → Dict.lookup key c.state.targets ≡ some t
      → t.pending_members ≡ []
      → c.locals.pending_bytes + scan_byte_limit l ≤ l.max_pending_member_bytes
      → Visits key 0 0 c
      → Fetched key t (scan_page validate_canonical d l key t c)
  unfolding scan_page
  scan_page-Fetched key t c n s z room v =
      let (r, w) =
        scan_backlink_members d key t.cursor l.sscan_count_hint l.max_scan_response_items c.world in
      page_scanned-Fetched key t c r w
        (scan_backlink_members-IsScan d key t.cursor l.sscan_count_hint l.max_scan_response_items
          c.world)
        n s z room v

  empty-nil : (ms : List Bytes) → is_empty ms ≡ true → ms ≡ []
  empty-nil [] h = refl
  empty-nil (m ∷ ms) h = cc

  -- A fetch that gives a buffer leaves room for it; any other one leaves the invariant.
  pub fetch-Fetched :
      (key : Bytes) (t : TargetScanState) (c : Cycle W)
      → Dict.lookup key c.state.targets ≡ some t
      → Visits key 0 0 c
      → Fetched key t (fetch validate_canonical d l key t c)
  unfolding fetch
  fetch-Fetched key t c s v = elim (Bool-cases (needs_scan t)) [
    | inr full ↦
        rw (full, fetch)
          (record {
            visiting = same_size-Visits key 0 (target_bytes t) c v;
            not_waiting = λ x.
                let h : IsWaiting (some t) = subst IsWaiting s (v.waiting key x) in cc (h, full);
            stored = s;
            fits = omega (arith, v.bytes_bounded);
          })
    | inl empty ↦ elim (Bool-cases (must_wait validate_canonical d l key c)) [
      | inl wait ↦ rw (empty, wait, fetch) (defer-Holds key t c s empty v)
      | inr go ↦
          rw (empty, go, fetch)
            (scan_page-Fetched key t (with_waiter none c) refl s
              (empty-nil t.pending_members (ground arith)) (room go)
              (set_waiter-Visits key 0 0 none c (λ k x. cc) v))
    ]
  ]
    where
      room :
          must_wait validate_canonical d l key c ≡ false
          → c.locals.pending_bytes + scan_byte_limit l ≤ l.max_pending_member_bytes
      room h = ground arith
