-- ===== src/Backlinks/Tests/Runs.antt =====
-- Runs of the processor, and its theorems at concrete inputs.
use mifolyo.Backlinks.Errors.{bson_error, raise}
use mifolyo.Backlinks.State.Invariant.{IsBounded}
use mifolyo.Backlinks.Run.{crashed}
use mifolyo.Base.{◌⊎◌}
use mifolyo.Backlinks.Datastore.{Keeps}
use mifolyo.Base.{
  ℕ, ◌≤◌, ◌<◌, ◌≡◌, ◌⊎◌, refl, Bool, true, false, none, List, [], ◌∷◌, length, arith,
}
use mifolyo.Base.Texts.{Bytes, Text, codes, same, contains, starts_with, less}
use mifolyo.Base.Utf8.{decode, encode}
use mifolyo.Base.Dict
use mifolyo.Base.Counter.{add, update}
use mifolyo.Backlinks.Config.{default_limits, default_limits-IsValid}
use mifolyo.Backlinks.Errors.{ok}
use mifolyo.Backlinks.Datastore.{has_item}
use mifolyo.Backlinks.Keys.{BacklinkMember, valid, parse_backlink_key, parse_backlink_member}
use mifolyo.Backlinks.Keys.Laws.{IsMember, parse_backlink_member_iff}
use mifolyo.Backlinks.Safe.{Safe}
use mifolyo.Backlinks.Redis.{scan_backlink_keys, scan_backlink_members, srem_backlink_members}
use mifolyo.Backlinks.Mongo.{
  sorted_set, encoded_length, existing_links, new_sources, url_ok, all_ok, preflight, add_backlinks,
  BatchLimits,
}
use mifolyo.Backlinks.Mongo.Writes.{add_backlinks-stores}
use mifolyo.Backlinks.Batch.{urls, BacklinkBatch, BatchResult, process_batch}
use mifolyo.Backlinks.Batch.Safety.{IsParsed, process_batch-Safe}
use mifolyo.Backlinks.Batch.Outcome.{Means, process_batch_outcome}
use mifolyo.Backlinks.State.{
  new_processor, byte_count, discard, queue_key, queue_keys, restore_members, buffered_bytes,
}
use mifolyo.Backlinks.Admit.{admit_members}
use mifolyo.Backlinks.Admit.Accepted.{admit_members_accepted}
use mifolyo.Backlinks.Admit.Bounds.{Splits, admit_members-Splits, admit_members_progress}
use mifolyo.Backlinks.Cycle.{process_cycle}
use mifolyo.Backlinks.Cycle.Fill.{scan_keys, fill_pending_keys, fill}
use mifolyo.Backlinks.Cycle.Visit.{visit, batch_limits}
use mifolyo.Backlinks.Cycle.Safety.{process_cycle-Safe}
use mifolyo.Backlinks.Cycle.Invariant.{IsValidState, process_cycle-IsValidState}
use mifolyo.Backlinks.Run.{running, exited, run_processor}
use mifolyo.Backlinks.Run.Lives.{new_processor-IsValidState, run_processor_lives}
use mifolyo.Backlinks.Run.Safety.{run_processor-Safe}
use mifolyo.Backlinks.Run.Invariant.{run_processor_bounded}
use mifolyo.Backlinks.Tests.Memory.{
  Memory, memory, memory-IsReliable, pending, stored, without, keys_of, add_links,
}

-- A validator that takes every URL of the scheme http.
abbrev accept : Text → Bool
accept t = starts_with (codes "http:") t

abbrev key_a : Bytes
key_a = codes "backlinks:http://a.io/"

abbrev member_b : Bytes
member_b = codes "http://b.io/"

abbrev member_c : Bytes
member_c = codes "ftp:c"

abbrev two_members : Memory
two_members = record { sets = (key_a, member_b ∷ member_c ∷ []) ∷ []; docs = []; polls = 6 }

-- After one round the canonical member is a link of its target, and the other one stays in Redis.
run_delivers :
    let w = (run_processor accept memory default_limits 1 (new_processor, two_members)).1.1 in
    (stored w (codes "http://a.io/") member_b ≡ true)
    × (pending w key_a member_b ≡ false)
    × (pending w key_a member_c ≡ true)
unfolding run_processor process_cycle fill fill_pending_keys scan_keys visit memory same contains
    starts_with less decode encode Dict.lookup Dict.insert Dict.remove add update has_item
    parse_backlink_key parse_backlink_member scan_backlink_keys scan_backlink_members
    srem_backlink_members sorted_set encoded_length existing_links new_sources url_ok all_ok
    preflight add_backlinks process_batch byte_count discard queue_key queue_keys restore_members
    admit_members without keys_of add_links
run_delivers = (refl, refl, refl)

abbrev the_member : BacklinkMember
the_member = record { raw = member_b; url = member_b }

abbrev the_batch : BacklinkBatch
the_batch = record {
  redis_key = key_a;
  target_url = codes "http://a.io/";
  members = the_member ∷ [];
  encoded_url_bytes = 12;
}

abbrev the_limits : BatchLimits
the_limits = record { max_members = 2; max_batch_url_bytes = 100; max_document_bytes = 1000 }

the_member-IsMember : IsMember accept member_b the_member
unfolding starts_with decode
the_member-IsMember = record {
  same_raw = refl;
  short = omega arith;
  decoded = refl;
  nonempty = λ e. cc;
  canonical = refl;
}

the_batch-IsParsed : IsParsed accept the_batch
unfolding starts_with decode parse_backlink_key parse_backlink_member
the_batch-IsParsed = record { key = refl; members = (refl, tt) }

batch_is_written :
    (add_backlinks memory accept the_limits (codes "http://a.io/") (member_b ∷ []) two_members).0
    ≡ ok tt
unfolding memory same contains starts_with less decode encode Dict.lookup Dict.insert sorted_set
    encoded_length existing_links new_sources url_ok all_ok preflight add_backlinks add_links
batch_is_written = refl

run_processor-Safe_example :
    Safe accept pending stored two_members
      (run_processor accept memory default_limits 1 (new_processor, two_members)).1.1
run_processor-Safe_example =
    run_processor-Safe accept memory default_limits memory-IsReliable 1 new_processor two_members

run_processor_bounded_example :
    let (o, (s, w)) = run_processor accept memory default_limits 2 (new_processor, two_members) in
    (IsValidState accept default_limits s ⊎ (o ≡ crashed bson_error))
    × (length s.pending_keys ≤ default_limits.max_pending_target_keys)
    × (buffered_bytes s.targets ≤ default_limits.max_pending_member_bytes)
run_processor_bounded_example = run_processor_bounded accept memory default_limits 2 two_members

process_cycle-Safe_example :
    Safe accept pending stored two_members
      (process_cycle accept memory default_limits (new_processor, two_members)).1.1
process_cycle-Safe_example =
    process_cycle-Safe accept memory default_limits memory-IsReliable new_processor two_members

process_cycle-IsValidState_example :
    let (x, (s, w)) = process_cycle accept memory default_limits (new_processor, two_members) in
    IsValidState accept default_limits s ⊎ ((x ≡ raise bson_error) × IsBounded default_limits s)
process_cycle-IsValidState_example =
    process_cycle-IsValidState accept memory default_limits new_processor two_members
      (new_processor-IsValidState accept default_limits)

process_batch_outcome_example :
    let (x, w') = process_batch accept memory the_limits the_batch two_members in
    ((r : BatchResult) × (x ≡ ok r)
      × (r.requested_members ≡ 1)
      × Means pending stored the_batch two_members w' r)
    ⊎ ((x ≡ raise bson_error) × Keeps pending stored two_members w')
process_batch_outcome_example =
    process_batch_outcome accept memory memory-IsReliable the_limits the_batch two_members (λ e. cc)

process_batch-Safe_example :
    Safe accept pending stored two_members
      (process_batch accept memory the_limits the_batch two_members).1
process_batch-Safe_example =
    process_batch-Safe accept memory memory-IsReliable the_limits the_batch two_members
      the_batch-IsParsed

admit_members-Splits_example :
    let a = admit_members accept default_limits (member_b ∷ member_c ∷ []) in
    (n : ℕ) × (b : ℕ) × Splits accept default_limits
      (member_b ∷ member_c ∷ [])
      a.remaining
      n
      a.admitted
      b
      a.rejections
admit_members-Splits_example = admit_members-Splits accept default_limits (member_b ∷ member_c ∷ [])

admit_members_progress_example :
    length (admit_members accept default_limits (member_c ∷ member_b ∷ [])).remaining < 2
admit_members_progress_example =
    admit_members_progress accept default_limits member_c (member_b ∷ []) default_limits-IsValid

add_backlinks-stores_example :
    stored
      (add_backlinks memory accept the_limits (codes "http://a.io/") (member_b ∷ []) two_members).1
      (codes "http://a.io/")
      member_b
    ≡ true
unfolding same contains
add_backlinks-stores_example =
    add_backlinks-stores memory memory-IsReliable accept the_limits (codes "http://a.io/")
      (member_b ∷ []) two_members member_b batch_is_written refl

parse_backlink_member_example :
    (parse_backlink_member accept member_b ≡ valid the_member → IsMember accept member_b the_member)
    × (IsMember accept member_b the_member
        → parse_backlink_member accept member_b ≡ valid the_member)
parse_backlink_member_example = parse_backlink_member_iff accept member_b the_member

run_processor_lives_example :
    let o = (run_processor accept memory default_limits 2 (new_processor, two_members)).0 in
    (o ≡ running) ⊎ ((o ≡ exited) ⊎ (o ≡ crashed bson_error))
run_processor_lives_example = run_processor_lives accept memory default_limits 2 two_members

key_a_parses : parse_backlink_key accept key_a ≡ valid (codes "http://a.io/")
unfolding parse_backlink_key starts_with decode
key_a_parses = refl

the_admission :
    (admit_members accept default_limits (member_b ∷ member_c ∷ [])).admitted ≡ the_member ∷ []
unfolding admit_members parse_backlink_member starts_with decode
the_admission = refl

admit_members_accepted_example :
    preflight accept
      (batch_limits default_limits)
      (codes "http://a.io/")
      (sorted_set (urls (admit_members accept default_limits (member_b ∷ member_c ∷ [])).admitted))
    ≡ none
admit_members_accepted_example =
    admit_members_accepted accept default_limits key_a (codes "http://a.io/")
      (member_b ∷ member_c ∷ []) key_a_parses (λ e. cons_nil (the_admission) e)
  where
    cons_nil : {ms : List BacklinkMember} → ms ≡ the_member ∷ [] → ms ≡ [] → ⊥
    cons_nil p q = cc
