-- ===== src/Backlinks/Cycle/Visit/Grows.antt =====
-- The visit of a target, which is in no queue: it takes no key from the key queue.
use mifolyo.Base.{
  ℕ, ◌≤◌, Bool, Bool-cases, arith, Option, none, some, List, [], ◌∷◌, length, refl, ◌≡◌, inl, inr,
}
use mifolyo.Base.Texts.{Bytes, Text}
use mifolyo.Base.Dict
use mifolyo.Base.Counter.{update}
use mifolyo.Backlinks.Config.{ProcessingLimits}
use mifolyo.Backlinks.Errors.{Exception, Result, ok, raise, scan_limit_exceeded}
use mifolyo.Backlinks.Datastore.{Datastore}
use mifolyo.Backlinks.Keys.{BacklinkMember, Parsed, valid, invalid, parse_backlink_key}
use mifolyo.Backlinks.Redis.{scan_backlink_members}
use mifolyo.Backlinks.Batch.{BatchResult, process_batch}
use mifolyo.Backlinks.State.{TargetScanState, new_target, target_bytes}
use mifolyo.Backlinks.State.Queue.{queue_key-ge}
use mifolyo.Backlinks.Admit.{admit_members}
use mifolyo.Backlinks.Cycle.Vars.{Cycle}
use mifolyo.Backlinks.Cycle.Visit.{
  Fetch, ready, continues, broken, batch_limits, with_target, with_waiter, first_waiter, defer,
  scan_failed, page_scanned, scan_page, fetch, settle, settled, batch_of, send, conclude, concluded,
  deliver, fetched, work_on, open_target, visit_parsed, visit,
}

module _ (validate_canonical : Text → Bool) {W : Type 0} (d : Datastore W)
    (l : ProcessingLimits) where
  abbrev pub size : Cycle W → ℕ
  size c = length c.state.pending_keys

  defer-ge : (k : Bytes) (c : Cycle W) → size c ≤ size (defer validate_canonical d l k c)
  unfolding defer
  defer-ge k c =
      queue_key-ge k
        (record c.state { member_scan_waiter = first_waiter k c.state.member_scan_waiter })

  scan_failed-ge :
      (k : Bytes) (e : Exception) (c : Cycle W)
      → size c ≤ size (scan_failed validate_canonical d l k e c).1
  unfolding scan_failed
  scan_failed-ge k e c = ground (arith, queue_key-ge k c.state)

  page_scanned-ge :
      (k : Bytes) (t : TargetScanState) (c : Cycle W) (r : Result (ℕ × List Bytes)) (w : W)
      → size c ≤ size (page_scanned validate_canonical d l k t c (r, w)).1
  unfolding page_scanned
  page_scanned-ge k t c (raise e) w = scan_failed-ge k e (record c { world = w })
  page_scanned-ge k t c (ok (n, ms)) w = ground (
    arith,
    scan_failed-ge k (scan_limit_exceeded "member_scan_response_byte_limit_exceeded")
        (record c { world = w }),
  )

  scan_page-ge :
      (k : Bytes) (t : TargetScanState) (c : Cycle W)
      → size c ≤ size (scan_page validate_canonical d l k t c).1
  unfolding scan_page
  scan_page-ge k t c =
      let (r, w) =
        scan_backlink_members d k t.cursor l.sscan_count_hint l.max_scan_response_items c.world in
      page_scanned-ge k t c r w

  fetch-ge :
      (k : Bytes) (t : TargetScanState) (c : Cycle W)
      → size c ≤ size (fetch validate_canonical d l k t c).1
  unfolding fetch
  fetch-ge k t c = ground (arith, scan_page-ge k t (with_waiter none c), defer-ge k c)

  settled-eq :
      (k : Bytes) (t : TargetScanState) (ms : List BacklinkMember) (c : Cycle W)
      (r : Result BatchResult) (w : W)
      → size (settled validate_canonical d l k t ms c (r, w)).1 ≡ size c
  unfolding settled settle
  settled-eq k t ms c (raise e) w = refl
  settled-eq k t ms c (ok r) w = ground arith

  send-eq :
      (k : Bytes) (u : Text) (t : TargetScanState) (ms : List BacklinkMember) (c : Cycle W)
      → size (send validate_canonical d l k u t ms c).1 ≡ size c
  unfolding send
  send-eq k u t [] c = refl
  send-eq k u t (m ∷ ms) c = elim (Bool-cases (d.is_set c.world).0) [
    | inl stop ↦ rw (stop, send) refl
    | inr go ↦
        let w₁ : W = (d.is_set c.world).1 in
        let (r, w) =
          process_batch validate_canonical d (batch_limits l)
            (batch_of validate_canonical d l k u (m ∷ ms)) w₁ in
        rw (go, send) (settled-eq k t (m ∷ ms) (record c { world = w₁ }) r w)
  ]

  concluded-ge :
      (k : Bytes) (n : ℕ) (r : Result (Unit {0})) (c : Cycle W)
      → size c ≤ size (concluded validate_canonical d l k n (r, c)).1
  unfolding concluded conclude
  concluded-ge k n (raise e) c = omega arith
  concluded-ge k n (ok u) c = ground (arith, queue_key-ge k c.state)

  deliver-ge :
      (k : Bytes) (u : Text) (n : ℕ) (t : TargetScanState) (c : Cycle W)
      → size c ≤ size (deliver validate_canonical d l k u n t c).1
  unfolding deliver
  deliver-ge k u n t c =
      let a = admit_members validate_canonical l t.pending_members in
      let t' : TargetScanState = record t { pending_members = a.remaining } in
      let c' : Cycle W = with_target k t' (record c {
        locals = record c.locals { rejections = update c.locals.rejections a.rejections };
      }) in
      let (r, c'') = send validate_canonical d l k u t' a.admitted c' in
      omega (arith, concluded-ge k n r c'', send-eq k u t' a.admitted c')

  fetched-ge :
      (k : Bytes) (u : Text) (n : ℕ) (f : Fetch) (c : Cycle W)
      → size c ≤ size (fetched validate_canonical d l k u n (f, c)).1
  unfolding fetched
  fetched-ge k u n (ready t) c = deliver-ge k u n t c
  fetched-ge k u n continues c = omega arith
  fetched-ge k u n (broken e) c = omega arith

  work_on-ge :
      (k : Bytes) (u : Text) (t : TargetScanState) (c : Cycle W)
      → size c ≤ size (work_on validate_canonical d l k u t c).1
  unfolding work_on
  work_on-ge k u t c =
      let (f, c') = fetch validate_canonical d l k t c in
      omega (arith, fetch-ge k t c, fetched-ge k u (target_bytes t) f c')

  open_target-ge :
      (k : Bytes) (u : Text) (o : Option TargetScanState) (c : Cycle W)
      → size c ≤ size (open_target validate_canonical d l k u o c).1
  unfolding open_target
  open_target-ge k u none c = work_on-ge k u new_target (with_target k new_target c)
  open_target-ge k u (some t) c = work_on-ge k u t c

  visit_parsed-ge :
      (k : Bytes) (p : Parsed Text) (c : Cycle W)
      → size c ≤ size (visit_parsed validate_canonical d l k p c).1
  unfolding visit_parsed
  visit_parsed-ge k (invalid reason) c = omega arith
  visit_parsed-ge k (valid u) c = open_target-ge k u (Dict.lookup k c.state.targets) c

  pub visit-ge : (k : Bytes) (c : Cycle W) → size c ≤ size (visit validate_canonical d l k c).1
  unfolding visit
  visit-ge k c = visit_parsed-ge k (parse_backlink_key validate_canonical k) c
