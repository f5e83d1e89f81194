-- ===== src/Backlinks/Redis.antt =====
-- services/backlinks-processor/data/redis_client.py: the client's methods over the Redis commands.
pub mod Laws
use mifolyo.Base.{String, ℕ, List, [], ◌∷◌, ltb, length, if◌then◌else◌}
use mifolyo.Base.Texts.{Bytes}
use mifolyo.Backlinks.Errors.{
  Exec, pure, throw, redis_error, scan_limit_exceeded, invalid_backlink_set, value_error,
}
use mifolyo.Backlinks.Datastore.{
  Datastore, RedisReply, value, wrong_type, failed, KeyType, none_type, set_type, other_type,
}

module _ {W : Type 0} (d : Datastore W) where
  bounded : String → ℕ → ℕ × List Bytes → Exec W (ℕ × List Bytes)
  bounded message max_items (cursor, items) =
      if ltb max_items (length items)
      then throw (scan_limit_exceeded message)
      else pure (cursor, items)

  keys_reply : ℕ → RedisReply (ℕ × List Bytes) → Exec W (ℕ × List Bytes)
  unfolding bounded
  keys_reply max_items (value page) = bounded "key_scan_response_limit_exceeded" max_items page
  keys_reply max_items wrong_type = throw redis_error
  keys_reply max_items failed = throw redis_error

  unfoldable pub scan_backlink_keys : (cursor count_hint max_items : ℕ) → Exec W (ℕ × List Bytes)
  unfolding keys_reply
  scan_backlink_keys cursor count_hint max_items w =
      let (reply, w') = d.scan cursor count_hint w in keys_reply max_items reply w'

  members_reply : ℕ → RedisReply (ℕ × List Bytes) → Exec W (ℕ × List Bytes)
  unfolding bounded
  members_reply max_items (value page) =
      bounded "member_scan_response_limit_exceeded" max_items page
  members_reply max_items wrong_type = throw (invalid_backlink_set "redis_key_wrong_type")
  members_reply max_items failed = throw redis_error

  typed_scan :
      Bytes → (cursor count_hint max_items : ℕ) → RedisReply KeyType → Exec W (ℕ × List Bytes)
  unfolding members_reply
  typed_scan key cursor count_hint max_items (value set_type) w =
      let (reply, w') = d.sscan key cursor count_hint w in members_reply max_items reply w'
  typed_scan key cursor count_hint max_items (value none_type) w = pure (0, []) w
  typed_scan key cursor count_hint max_items (value other_type) w =
      throw (invalid_backlink_set "redis_key_wrong_type") w
  typed_scan key cursor count_hint max_items wrong_type w = throw redis_error w
  typed_scan key cursor count_hint max_items failed w = throw redis_error w

  unfoldable pub scan_backlink_members :
      Bytes → (cursor count_hint max_items : ℕ) → Exec W (ℕ × List Bytes)
  unfolding typed_scan
  scan_backlink_members key cursor count_hint max_items w =
      let (reply, w') = d.key_type key w in typed_scan key cursor count_hint max_items reply w'

  removed_reply : RedisReply ℕ → Exec W ℕ
  removed_reply (value n) = pure n
  removed_reply wrong_type = throw redis_error
  removed_reply failed = throw redis_error

  unfoldable pub srem_backlink_members : Bytes → List Bytes → Exec W ℕ
  unfolding removed_reply
  srem_backlink_members key [] w = throw value_error w
  srem_backlink_members key (m ∷ ms) w =
      let (reply, w') = d.srem key (m ∷ ms) w in removed_reply reply w'
