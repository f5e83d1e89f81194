-- ===== src/Backlinks/Redis/Laws.antt =====
-- redis_client.py: what the client's methods do to the datastores and to the size of a response.
use mifolyo.Base.{String, subst, sym, ℕ, ◌≤◌, ◌≡◌, refl, Bool, true, List, ◌∷◌, arith, length}
use mifolyo.Base.Texts.{Bytes, Text}
use mifolyo.Backlinks.Errors.{
  Exception, Result, ok, raise, redis_error, invalid_backlink_set, is_redis_error,
}
use mifolyo.Backlinks.Datastore.{
  Datastore, Keeps, IsReliable, RedisReply, value, wrong_type, failed, KeyType, none_type, set_type,
  other_type,
}
use mifolyo.Backlinks.Datastore.Laws.{Keeps-refl, Keeps-trans}
use mifolyo.Backlinks.Redis.{
  scan_backlink_keys, scan_backlink_members, srem_backlink_members, keys_reply, members_reply,
  bounded, typed_scan, removed_reply,
}

-- A result of SREM, or a RedisError.
abbrev pub IsRemoval : Result ℕ → Type 0
IsRemoval (ok n) = Unit {0}
IsRemoval (raise e) = e ≡ redis_error

module _ {W : Type 0} (d : Datastore W) where
  bounded_world : (m : String) (n : ℕ) (p : ℕ × List Bytes) (w : W) → (bounded d m n p w).1 ≡ w
  unfolding bounded
  bounded_world m n p w = ground arith

  keys_reply_world : (n : ℕ) (r : RedisReply (ℕ × List Bytes)) (w : W) → (keys_reply d n r w).1 ≡ w
  unfolding keys_reply
  keys_reply_world n (value p) w = bounded_world _ n p w
  keys_reply_world n wrong_type w = refl
  keys_reply_world n failed w = refl

  members_reply_world :
      (n : ℕ) (r : RedisReply (ℕ × List Bytes)) (w : W) → (members_reply d n r w).1 ≡ w
  unfolding members_reply
  members_reply_world n (value p) w = bounded_world _ n p w
  members_reply_world n wrong_type w = refl
  members_reply_world n failed w = refl

  removed_reply_world : (r : RedisReply ℕ) (w : W) → (removed_reply d r w).1 ≡ w
  unfolding removed_reply
  removed_reply_world (value n) w = refl
  removed_reply_world wrong_type w = refl
  removed_reply_world failed w = refl

  -- SREM is the method's one command.
  pub srem_backlink_members_world :
      (k m : Bytes) (ms : List Bytes) (w : W)
      → (srem_backlink_members d k (m ∷ ms) w).1 ≡ (d.srem k (m ∷ ms) w).1
  unfolding srem_backlink_members
  srem_backlink_members_world k m ms w =
      let (r, w') = d.srem k (m ∷ ms) w in removed_reply_world r w'

  removed_reply-IsRemoval : (r : RedisReply ℕ) (w : W) → IsRemoval (removed_reply d r w).0
  unfolding removed_reply
  removed_reply-IsRemoval (value n) w = tt
  removed_reply-IsRemoval wrong_type w = refl
  removed_reply-IsRemoval failed w = refl

  pub srem_backlink_members-IsRemoval :
      (k m : Bytes) (ms : List Bytes) (w : W) → IsRemoval (srem_backlink_members d k (m ∷ ms) w).0
  unfolding srem_backlink_members
  srem_backlink_members-IsRemoval k m ms w =
      let (r, w') = d.srem k (m ∷ ms) w in removed_reply-IsRemoval r w'

  keys_reply-le :
      (n : ℕ) (r : RedisReply (ℕ × List Bytes)) (w : W) (c : ℕ) (ks : List Bytes)
      → (keys_reply d n r w).0 ≡ ok (c, ks)
      → length ks ≤ n
  unfolding keys_reply bounded
  keys_reply-le n (value (c', ks')) w c ks h = ground arith
  keys_reply-le n wrong_type w c ks h = cc
  keys_reply-le n failed w c ks h = cc

  -- A scan that returns holds at most the allowed number of keys.
  pub scan_backlink_keys-le :
      (cursor hint n : ℕ) (w : W) (c : ℕ) (ks : List Bytes)
      → (scan_backlink_keys d cursor hint n w).0 ≡ ok (c, ks)
      → length ks ≤ n
  unfolding scan_backlink_keys
  scan_backlink_keys-le cursor hint n w c ks h =
      let (r, w') = d.scan cursor hint w in keys_reply-le n r w' c ks h

  keys_reply-raise :
      (n : ℕ) (r : RedisReply (ℕ × List Bytes)) (w : W) (e : Exception)
      → (keys_reply d n r w).0 ≡ raise e
      → is_redis_error e ≡ true
  unfolding keys_reply bounded
  keys_reply-raise n (value (c', ks')) w e h = ground arith
  keys_reply-raise n wrong_type w e h = ground arith
  keys_reply-raise n failed w e h = ground arith

  -- A scan of keys raises a RedisError only.
  pub scan_backlink_keys-raise :
      (cursor hint n : ℕ) (w : W) (e : Exception)
      → (scan_backlink_keys d cursor hint n w).0 ≡ raise e
      → is_redis_error e ≡ true
  unfolding scan_backlink_keys
  scan_backlink_keys-raise cursor hint n w e h =
      let (r, w') = d.scan cursor hint w in keys_reply-raise n r w' e h

-- The exceptions that a scan of members raises.
abbrev pub is_scan_error : Exception → Bool
is_scan_error (invalid_backlink_set _) = true
is_scan_error e = is_redis_error e

abbrev pub IsScan : Result (ℕ × List Bytes) → Type 0
IsScan (ok p) = Unit {0}
IsScan (raise e) = is_scan_error e ≡ true

module _ {W : Type 0} (d : Datastore W) where
  members_reply-IsScan :
      (n : ℕ) (r : RedisReply (ℕ × List Bytes)) (w : W) → IsScan (members_reply d n r w).0
  unfolding members_reply bounded
  members_reply-IsScan n (value (c, ks)) w = ground arith
  members_reply-IsScan n wrong_type w = refl
  members_reply-IsScan n failed w = refl

  typed_scan-IsScan :
      (k : Bytes) (cursor hint n : ℕ) (t : RedisReply KeyType) (w : W)
      → IsScan (typed_scan d k cursor hint n t w).0
  unfolding typed_scan
  typed_scan-IsScan k cursor hint n (value set_type) w =
      let (r, w') = d.sscan k cursor hint w in members_reply-IsScan n r w'
  typed_scan-IsScan k cursor hint n (value none_type) w = tt
  typed_scan-IsScan k cursor hint n (value other_type) w = refl
  typed_scan-IsScan k cursor hint n wrong_type w = refl
  typed_scan-IsScan k cursor hint n failed w = refl

  -- A scan of members returns, or raises a RedisError or an InvalidBacklinkSet.
  pub scan_backlink_members-IsScan :
      (k : Bytes) (cursor hint n : ℕ) (w : W) → IsScan (scan_backlink_members d k cursor hint n w).0
  unfolding scan_backlink_members
  scan_backlink_members-IsScan k cursor hint n w =
      let (t, w') = d.key_type k w in typed_scan-IsScan k cursor hint n t w'

module _ {W : Type 0} (d : Datastore W) {pending : W → Bytes → Bytes → Bool}
    {stored : W → Text → Text → Bool} (v : IsReliable pending stored d) where
  pub scan_backlink_keys-Keeps :
      (cursor hint n : ℕ) (w : W) → Keeps pending stored w (scan_backlink_keys d cursor hint n w).1
  unfolding scan_backlink_keys
  scan_backlink_keys-Keeps cursor hint n w =
      let (r, w') = d.scan cursor hint w in
      subst (Keeps pending stored w) (sym (keys_reply_world d n r w')) (v.scan_keeps cursor hint w)

  typed_scan-Keeps :
      (k : Bytes) (cursor hint n : ℕ) (t : RedisReply KeyType) (w : W)
      → Keeps pending stored w (typed_scan d k cursor hint n t w).1
  unfolding typed_scan
  typed_scan-Keeps k cursor hint n (value set_type) w =
      let (r, w') = d.sscan k cursor hint w in
      subst (Keeps pending stored w) (sym (members_reply_world d n r w'))
        (v.sscan_keeps k cursor hint w)
  typed_scan-Keeps k cursor hint n (value none_type) w = Keeps-refl w
  typed_scan-Keeps k cursor hint n (value other_type) w = Keeps-refl w
  typed_scan-Keeps k cursor hint n wrong_type w = Keeps-refl w
  typed_scan-Keeps k cursor hint n failed w = Keeps-refl w

  pub scan_backlink_members-Keeps :
      (k : Bytes) (cursor hint n : ℕ) (w : W)
      → Keeps pending stored w (scan_backlink_members d k cursor hint n w).1
  unfolding scan_backlink_members
  scan_backlink_members-Keeps k cursor hint n w =
      let (t, w') = d.key_type k w in
      Keeps-trans (v.key_type_keeps k w) (typed_scan-Keeps k cursor hint n t w')
