-- ===== src/Backlinks/Cycle/Visit.antt =====
-- services/backlinks-processor/main.py: the body of the target loop of `process_cycle`.
pub mod Safety
pub mod Fetches
pub mod Sends
pub mod Invariant
pub mod Grows
use mifolyo.Base.{
  ℕ, ◌+◌, ◌-◌, ◌*◌, Bool, true, false, not, ◌&&◌, ◌||◌, Option, none, some, String, List, [], ◌∷◌,
  ◌++◌, ltb, ◌==◌, if◌then◌else◌,
}
use text.Mathlib.Text.{◌==◌ as str_eq}
use mifolyo.Base.Texts.{Bytes, Text, same}
use mifolyo.Base.Dict
use mifolyo.Base.Dict.{Dict}
use mifolyo.Base.Counter.{update}
use mifolyo.Backlinks.Config.{ProcessingLimits, max_canonical_url_bytes}
use mifolyo.Backlinks.Errors.{
  Exception, Result, ok, raise, Exec, scan_limit_exceeded, invalid_backlink_set, is_redis_error,
}
use mifolyo.Backlinks.Datastore.{Datastore}
use mifolyo.Backlinks.Keys.{BacklinkMember, Parsed, valid, invalid, parse_backlink_key}
use mifolyo.Backlinks.Redis.{scan_backlink_members}
use mifolyo.Backlinks.Mongo.{BatchLimits}
use mifolyo.Backlinks.Batch.{
  BacklinkBatch, BatchResult, Status, acked, rejected, retry_later, raws, process_batch,
}
use mifolyo.Backlinks.State.{
  TargetScanState, new_target, is_empty, needs_scan, byte_count, target_bytes, queue_key,
  restore_members,
}
use mifolyo.Backlinks.Admit.{Admission, admit_members}
use mifolyo.Backlinks.Cycle.Vars.{Cycle, count_rejection, count_retry}

-- What the member scan of a target gives: a buffer to work on, `continue`, or an exception.
pub data Fetch : Type 0 where
  ready : TargetScanState → Fetch
  continues : Fetch
  broken : Exception → Fetch

abbrev pub batch_limits : ProcessingLimits → BatchLimits
batch_limits l = record {
  max_members = l.max_members_per_ack_batch;
  max_batch_url_bytes = l.max_ack_batch_url_bytes;
  max_document_bytes = l.max_mongo_document_bytes;
}

abbrev pub scan_byte_limit : ProcessingLimits → ℕ
scan_byte_limit l = l.max_scan_response_items * max_canonical_url_bytes

status_name : Status → String
status_name acked = "acked"
status_name rejected = "rejected"
status_name retry_later = "retry_later"

-- `result.reason or result.status`
reason_or_status : BatchResult → String
unfolding status_name
reason_or_status r = elim r.reason [
  | none ↦ status_name r.status
  | some reason ↦ if str_eq reason "" then status_name r.status else reason
]

-- `state.member_scan_waiter not in (None, key)`
abbrev pub waits_for_other : Bytes → Option Bytes → Bool
waits_for_other key none = false
waits_for_other key (some k) = not (same k key)

abbrev pub first_waiter : Bytes → Option Bytes → Option Bytes
first_waiter key none = some key
first_waiter key (some k) = some k

module _ {W : Type 0} where
  abbrev pub with_target : Bytes → TargetScanState → Cycle W → Cycle W
  with_target key t c = record c {
    state = record c.state { targets = Dict.insert key t c.state.targets };
  }

  abbrev pub without_target : Bytes → Cycle W → Cycle W
  without_target key c = record c {
    state = record c.state { targets = Dict.remove key c.state.targets };
  }

  abbrev pub requeue : Bytes → Cycle W → Cycle W
  requeue key c = record c { state = queue_key key c.state }

  abbrev pub with_waiter : Option Bytes → Cycle W → Cycle W
  with_waiter k c = record c { state = record c.state { member_scan_waiter = k } }

module _ (validate_canonical : Text → Bool) {W : Type 0} (d : Datastore W)
    (l : ProcessingLimits) where
  -- No room for a full page, or another target waits first.
  defer : Bytes → Cycle W → Cycle W
  defer key c =
      count_retry "pending_member_byte_limit"
        (requeue key (with_waiter (first_waiter key c.state.member_scan_waiter) c))

  scan_failed : Bytes → Exception → Cycle W → Fetch × Cycle W
  scan_failed key (invalid_backlink_set reason) c =
      (continues, without_target key (count_rejection reason c))
  scan_failed key e c = (broken e, if is_redis_error e then requeue key c else c)

  page_scanned : Bytes → TargetScanState → Cycle W → Result (ℕ × List Bytes) × W → Fetch × Cycle W
  unfolding scan_failed
  page_scanned key t c (raise e, w) = scan_failed key e (record c { world = w })
  page_scanned key t c (ok (cursor, members), w) =
      if ltb (scan_byte_limit l) (byte_count members)
      then scan_failed key (scan_limit_exceeded "member_scan_response_byte_limit_exceeded")
          (record c { world = w })
      else (
        ready (record {
          cursor = cursor;
          scan_complete = cursor == 0;
          pending_members = t.pending_members ++ members;
        }),
        record c { world = w },
      )

  scan_page : Bytes → TargetScanState → Cycle W → Fetch × Cycle W
  unfolding page_scanned
  scan_page key t c =
      page_scanned key t c
        (scan_backlink_members d key t.cursor l.sscan_count_hint l.max_scan_response_items c.world)

  must_wait : Bytes → Cycle W → Bool
  must_wait key c =
      waits_for_other key c.state.member_scan_waiter
      || ltb l.max_pending_member_bytes (c.locals.pending_bytes + scan_byte_limit l)

  pub fetch : Bytes → TargetScanState → Cycle W → Fetch × Cycle W
  unfolding defer scan_page must_wait
  fetch key t c =
      if needs_scan t
      then (if must_wait key c
          then (continues, defer key c)
          else scan_page key t (with_waiter none c))
      else (ready t, c)

  -- The three outcomes of a batch, as counted and kept.
  settle : Bytes → TargetScanState → List BacklinkMember → BatchResult → Cycle W → Cycle W
  unfolding reason_or_status
  settle key t members r c = elim r.status [
    | acked ↦ record c {
      locals = record c.locals {
        batches_acked = c.locals.batches_acked + 1;
        members_acked = c.locals.members_acked + r.requested_members;
        members_removed = c.locals.members_removed + r.removed_members;
      };
    }
    | retry_later ↦ count_retry (reason_or_status r) (with_target key (restore_members members t) c)
    | rejected ↦ count_rejection (reason_or_status r) c
  ]

  settled :
      Bytes
      → TargetScanState
      → List BacklinkMember
      → Cycle W
      → Result BatchResult × W
      → Result (Unit {0}) × Cycle W
  unfolding settle
  settled key t members c (raise e, w) = (raise e, record c { world = w })
  settled key t members c (ok r, w) = (ok tt, settle key t members r (record c { world = w }))

  batch_of : Bytes → Text → List BacklinkMember → BacklinkBatch
  batch_of key url members = record {
    redis_key = key;
    target_url = url;
    members = members;
    encoded_url_bytes = byte_count (raws members);
  }

  pub send : Bytes → Text → TargetScanState → List BacklinkMember → Exec (Cycle W) (Unit {0})
  unfolding settled batch_of
  send key url t [] c = (ok tt, c)
  send key url t (m ∷ ms) c =
      let (stop, w) = d.is_set c.world in
      elim stop [
        | true ↦ (ok tt, with_target key (restore_members (m ∷ ms) t) (record c { world = w }))
        | false ↦
            settled key t (m ∷ ms) (record c { world = w })
              (process_batch validate_canonical d (batch_limits l) (batch_of key url (m ∷ ms)) w)
      ]

  -- The buffer of `key` as it stands in `state.targets`.
  current : Bytes → Cycle W → TargetScanState
  current key c = elim (Dict.lookup key c.state.targets) [ none ↦ new_target | some t ↦ t ]

  -- `pending_bytes += …`, then requeue or drop the target.
  conclude : Bytes → (previous_bytes : ℕ) → TargetScanState → Cycle W → Cycle W
  conclude key previous t c =
      let c' : Cycle W = record c {
        locals = record c.locals {
          pending_bytes = c.locals.pending_bytes + target_bytes t - previous;
        };
      } in
      if not (is_empty t.pending_members) || not t.scan_complete
      then requeue key c'
      else without_target key c'

  concluded : Bytes → ℕ → Result (Unit {0}) × Cycle W → Result (Unit {0}) × Cycle W
  unfolding conclude current
  concluded key previous (raise e, c) = (raise e, c)
  concluded key previous (ok _, c) = (ok tt, conclude key previous (current key c) c)

  -- Admission writes what is left into the buffer, which `state.targets` holds.
  deliver : Bytes → Text → ℕ → TargetScanState → Exec (Cycle W) (Unit {0})
  unfolding send concluded
  deliver key url previous t c =
      let a : Admission = admit_members validate_canonical l t.pending_members in
      let t' : TargetScanState = record t { pending_members = a.remaining } in
      concluded key previous (
        send key url t' a.admitted (
          with_target key t' (record c {
            locals = record c.locals { rejections = update c.locals.rejections a.rejections };
          })))

  fetched : Bytes → Text → ℕ → Fetch × Cycle W → Result (Unit {0}) × Cycle W
  unfolding deliver
  fetched key url previous (ready t, c) = deliver key url previous t c
  fetched key url previous (continues, c) = (ok tt, c)
  fetched key url previous (broken e, c) = (raise e, c)

  work_on : Bytes → Text → TargetScanState → Exec (Cycle W) (Unit {0})
  unfolding fetched fetch
  work_on key url t c = fetched key url (target_bytes t) (fetch key t c)

  -- `state.targets.setdefault(key, TargetScanState())`
  open_target : Bytes → Text → Option TargetScanState → Exec (Cycle W) (Unit {0})
  unfolding work_on
  open_target key url none c = work_on key url new_target (with_target key new_target c)
  open_target key url (some t) c = work_on key url t c

  visit_parsed : Bytes → Parsed Text → Exec (Cycle W) (Unit {0})
  unfolding open_target
  visit_parsed key (invalid reason) c = (ok tt, count_rejection reason c)
  visit_parsed key (valid url) c = open_target key url (Dict.lookup key c.state.targets) c

  unfoldable pub visit : Bytes → Exec (Cycle W) (Unit {0})
  unfolding visit_parsed
  visit key c = visit_parsed key (parse_backlink_key validate_canonical key) c
