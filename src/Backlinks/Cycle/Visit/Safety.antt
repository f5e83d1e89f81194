-- ===== src/Backlinks/Cycle/Visit/Safety.antt =====
-- The visit of a target: a member leaves its Redis set only when MongoDB holds its link.
use mifolyo.Base.{
  ℕ, ◌≡◌, refl, Bool, Option, none, some, List, [], ◌∷◌, Bool-cases, arith, subst, sym, inl, inr,
  All,
}
use mifolyo.Base.Texts.{Bytes, Text}
use mifolyo.Base.Dict
use mifolyo.Base.Counter.{update}
use mifolyo.Backlinks.Config.{ProcessingLimits}
use mifolyo.Backlinks.Errors.{Result, ok, raise}
use mifolyo.Backlinks.Datastore.{Datastore, Keeps, IsReliable}
use mifolyo.Backlinks.Datastore.Laws.{Keeps-refl}
use mifolyo.Backlinks.Keys.{
  BacklinkMember, Parsed, valid, invalid, parse_backlink_key, parse_backlink_member,
}
use mifolyo.Backlinks.Redis.{scan_backlink_members}
use mifolyo.Backlinks.Redis.Laws.{scan_backlink_members-Keeps}
use mifolyo.Backlinks.Safe.{Safe, Safe-refl, Safe-Keeps, Safe-trans}
use mifolyo.Backlinks.Batch.{BatchResult, process_batch}
use mifolyo.Backlinks.Batch.Safety.{process_batch-Safe}
use mifolyo.Backlinks.State.{TargetScanState, new_target, target_bytes}
use mifolyo.Backlinks.Admit.{admit_members}
use mifolyo.Backlinks.Admit.Bounds.{admit_members-Splits}
use mifolyo.Backlinks.Cycle.Vars.{Cycle}
use mifolyo.Backlinks.Cycle.Visit.{
  Fetch, ready, continues, broken, batch_limits, with_target, with_waiter, page_scanned, scan_page,
  fetch, settle, settled, batch_of, send, conclude, concluded, deliver, fetched, work_on,
  open_target, visit_parsed, visit,
}

module _ (validate_canonical : Text → Bool) {W : Type 0} (d : Datastore W) (l : ProcessingLimits)
    {pending : W → Bytes → Bytes → Bool} {stored : W → Text → Text → Bool}
    (v : IsReliable pending stored d) where
  abbrev pub SafeTo : W → W → Type 0
  SafeTo = Safe validate_canonical pending stored

  page_scanned_world :
      (k : Bytes) (t : TargetScanState) (c : Cycle W) (r : Result (ℕ × List Bytes)) (w : W)
      → (page_scanned validate_canonical d l k t c (r, w)).1.world ≡ w
  unfolding page_scanned
  page_scanned_world k t c (raise e) w = ground arith
  page_scanned_world k t c (ok (n, ms)) w = ground arith

  scan_page-Keeps :
      (k : Bytes) (t : TargetScanState) (c : Cycle W)
      → Keeps pending stored c.world (scan_page validate_canonical d l k t c).1.world
  unfolding scan_page
  scan_page-Keeps k t c =
      let (r, w) =
        scan_backlink_members d k t.cursor l.sscan_count_hint l.max_scan_response_items c.world in
      subst (Keeps pending stored c.world) (sym (page_scanned_world k t c r w)) (
        scan_backlink_members-Keeps d v k t.cursor l.sscan_count_hint l.max_scan_response_items
          c.world)

  fetch-Keeps :
      (k : Bytes) (t : TargetScanState) (c : Cycle W)
      → Keeps pending stored c.world (fetch validate_canonical d l k t c).1.world
  unfolding fetch
  fetch-Keeps k t c = ground (arith, scan_page-Keeps k t (with_waiter none c), Keeps-refl c.world)

  settled_world :
      (k : Bytes) (t : TargetScanState) (ms : List BacklinkMember) (c : Cycle W)
      (r : Result BatchResult) (w : W)
      → (settled validate_canonical d l k t ms c (r, w)).1.world ≡ w
  unfolding settled settle
  settled_world k t ms c (raise e) w = refl
  settled_world k t ms c (ok r) w = ground arith

  send-Safe :
      (k : Bytes) (u : Text) (t : TargetScanState) (ms : List BacklinkMember) (c : Cycle W)
      → parse_backlink_key validate_canonical k ≡ valid u
      → All (λ m. parse_backlink_member validate_canonical m.raw ≡ valid m) ms
      → SafeTo c.world (send validate_canonical d l k u t ms c).1.world
  unfolding send
  send-Safe k u t [] c key members = Safe-refl validate_canonical pending stored c.world
  send-Safe k u t (m ∷ ms) c key members =
      let polled : SafeTo c.world (d.is_set c.world).1 =
        Safe-Keeps validate_canonical pending stored (v.is_set_keeps c.world) in
      elim (Bool-cases (d.is_set c.world).0) [
        | inl stop ↦ rw (stop, send) polled
        | inr go ↦
            let w₁ : W = (d.is_set c.world).1 in
            let (r, w) =
              process_batch validate_canonical d (batch_limits l)
                (batch_of validate_canonical d l k u (m ∷ ms)) w₁ in
            rw (go, send)
              (subst (SafeTo c.world)
                (sym (settled_world k t (m ∷ ms) (record c { world = w₁ }) r w))
                (Safe-trans validate_canonical pending stored polled (
                  process_batch-Safe validate_canonical d v (batch_limits l)
                    (batch_of validate_canonical d l k u (m ∷ ms)) w₁
                    (record { key = key; members = members }))))
      ]

  concluded_world :
      (k : Bytes) (n : ℕ) (r : Result (Unit {0})) (c : Cycle W)
      → (concluded validate_canonical d l k n (r, c)).1.world ≡ c.world
  unfolding concluded conclude
  concluded_world k n (raise e) c = refl
  concluded_world k n (ok u) c = ground arith

  deliver-Safe :
      (k : Bytes) (u : Text) (n : ℕ) (t : TargetScanState) (c : Cycle W)
      → parse_backlink_key validate_canonical k ≡ valid u
      → SafeTo c.world (deliver validate_canonical d l k u n t c).1.world
  unfolding deliver
  deliver-Safe k u n t c key =
      let a = admit_members validate_canonical l t.pending_members in
      let t' : TargetScanState = record t { pending_members = a.remaining } in
      let c' : Cycle W = with_target k t' (record c {
        locals = record c.locals { rejections = update c.locals.rejections a.rejections };
      }) in
      let (r, c'') = send validate_canonical d l k u t' a.admitted c' in
      subst (SafeTo c.world) (sym (concluded_world k n r c'')) (
        send-Safe k u t' a.admitted c' key
          (admit_members-Splits validate_canonical l t.pending_members).2.parsed)

  fetched-Safe :
      (k : Bytes) (u : Text) (n : ℕ) (f : Fetch) (c : Cycle W)
      → parse_backlink_key validate_canonical k ≡ valid u
      → SafeTo c.world (fetched validate_canonical d l k u n (f, c)).1.world
  unfolding fetched
  fetched-Safe k u n (ready t) c key = deliver-Safe k u n t c key
  fetched-Safe k u n continues c key = Safe-refl validate_canonical pending stored c.world
  fetched-Safe k u n (broken e) c key = Safe-refl validate_canonical pending stored c.world

  work_on-Safe :
      (k : Bytes) (u : Text) (t : TargetScanState) (c : Cycle W)
      → parse_backlink_key validate_canonical k ≡ valid u
      → SafeTo c.world (work_on validate_canonical d l k u t c).1.world
  unfolding work_on
  work_on-Safe k u t c key =
      let (f, c') = fetch validate_canonical d l k t c in
      Safe-trans validate_canonical pending stored
        (Safe-Keeps validate_canonical pending stored (fetch-Keeps k t c))
        (fetched-Safe k u (target_bytes t) f c' key)

  open_target-Safe :
      (k : Bytes) (u : Text) (o : Option TargetScanState) (c : Cycle W)
      → parse_backlink_key validate_canonical k ≡ valid u
      → SafeTo c.world (open_target validate_canonical d l k u o c).1.world
  unfolding open_target
  open_target-Safe k u none c key = work_on-Safe k u new_target (with_target k new_target c) key
  open_target-Safe k u (some t) c key = work_on-Safe k u t c key

  visit_parsed-Safe :
      (k : Bytes) (p : Parsed Text) (c : Cycle W)
      → parse_backlink_key validate_canonical k ≡ p
      → SafeTo c.world (visit_parsed validate_canonical d l k p c).1.world
  unfolding visit_parsed
  visit_parsed-Safe k (invalid reason) c key = Safe-refl validate_canonical pending stored c.world
  visit_parsed-Safe k (valid u) c key = open_target-Safe k u (Dict.lookup k c.state.targets) c key

  -- A visit, on every path through it, delivers what it removes.
  pub visit-Safe :
      (k : Bytes) (c : Cycle W) → SafeTo c.world (visit validate_canonical d l k c).1.world
  unfolding visit
  visit-Safe k c = visit_parsed-Safe k (parse_backlink_key validate_canonical k) c refl
