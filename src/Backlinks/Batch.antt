-- ===== src/Backlinks/Batch.antt =====
-- services/backlinks-processor/main.py: `process_batch`, one batch from Redis to MongoDB and its
-- acknowledgement.
pub mod Safety
pub mod Outcome
use mifolyo.Base.{ℕ, Bool, Option, none, some, String, List, map, length, if◌then◌else◌}
use mifolyo.Base.Texts.{Bytes, Text}
use mifolyo.Backlinks.Errors.{
  Exception, Result, ok, raise, Exec, pure, throw, document_rejected, write_conflict,
  write_not_acknowledged, connection_failure, w_timeout, pymongo_error, is_redis_error,
}
use mifolyo.Backlinks.Datastore.{Datastore}
use mifolyo.Backlinks.Keys.{BacklinkMember}
use mifolyo.Backlinks.Mongo.{BatchLimits, add_backlinks}
use mifolyo.Backlinks.Redis.{srem_backlink_members}

pub record BacklinkBatch : Type 0 where
  pub redis_key : Bytes
  pub target_url : Text
  pub members : List BacklinkMember
  pub encoded_url_bytes : ℕ

pub data Status : Type 0 where
  acked rejected retry_later : Status

pub record BatchResult : Type 0 where
  pub status : Status
  pub requested_members : ℕ
  pub removed_members : ℕ
  pub reason : Option String

abbrev pub raws : List BacklinkMember → List Bytes
raws = map (λ m. m.raw)

abbrev pub urls : List BacklinkMember → List Text
urls = map (λ m. m.url)

module _ (validate_canonical : Text → Bool) {W : Type 0} (d : Datastore W) where
  not_written : Status → ℕ → String → Exec W BatchResult
  not_written status requested reason = pure (record {
    status = status;
    requested_members = requested;
    removed_members = 0;
    reason = some reason;
  })

  -- The `except` clauses around `add_backlinks`; what they do not name goes on.
  write_failed : ℕ → Exception → Exec W BatchResult
  unfolding not_written
  write_failed n (document_rejected reason) = not_written rejected n reason
  write_failed n write_conflict = not_written retry_later n "mongo_write_conflict"
  write_failed n write_not_acknowledged = not_written retry_later n "mongo_write_not_acknowledged"
  write_failed n connection_failure = not_written retry_later n "mongo_unavailable"
  write_failed n w_timeout = not_written retry_later n "mongo_unavailable"
  write_failed n pymongo_error = not_written rejected n "mongo_write_rejected"
  write_failed n e = throw e

  acknowledged : ℕ → Result ℕ → Exec W BatchResult
  unfolding not_written
  acknowledged n (ok removed) =
      pure
        (record { status = acked; requested_members = n; removed_members = removed; reason = none })
  acknowledged n (raise e) =
      if is_redis_error e then not_written retry_later n "redis_ack_unavailable" else throw e

  written_then : BacklinkBatch → Result (Unit {0}) → Exec W BatchResult
  unfolding write_failed acknowledged
  written_then batch (raise e) w = write_failed (length batch.members) e w
  written_then batch (ok _) w =
      let (r, w') = srem_backlink_members d batch.redis_key (raws batch.members) w in
      acknowledged (length batch.members) r w'

  unfoldable pub process_batch : BatchLimits → BacklinkBatch → Exec W BatchResult
  unfolding written_then
  process_batch l batch w =
      let (r, w') = add_backlinks d validate_canonical l batch.target_url (urls batch.members) w in
      written_then batch r w'
