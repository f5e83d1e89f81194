-- ===== src/Backlinks/Batch/Outcome.antt =====
-- main.py, `process_batch`: that it returns, and what its result says of the datastores.
use mifolyo.Base.{ap, ◌⊎◌, inl, inr, Option, String}
use mifolyo.Base.{
  ℕ, ◌≡◌, ◌≢◌, refl, Bool, true, false, none, some, List, [], ◌∷◌, length, subst, sym,
}
use mifolyo.Base.Texts.{Bytes, Text}
use mifolyo.Backlinks.Errors.{
  Exception, Result, ok, raise, document_rejected, write_conflict, write_not_acknowledged,
  connection_failure, w_timeout, pymongo_error, bson_error,
}
use mifolyo.Backlinks.Datastore.{Datastore, Keeps, IsReliable}
use mifolyo.Backlinks.Redis.{srem_backlink_members}
use mifolyo.Backlinks.Redis.Laws.{
  IsRemoval, srem_backlink_members-IsRemoval, srem_backlink_members_world,
}
use mifolyo.Backlinks.Mongo.{BatchLimits, add_backlinks}
use mifolyo.Backlinks.Mongo.Raises.{is_write_or_codec_error, IsHandled, add_backlinks-IsHandled}
use mifolyo.Backlinks.Mongo.Writes.{add_backlinks-Keeps, add_backlinks-stores}
use mifolyo.Backlinks.Batch.{
  BacklinkBatch, BatchResult, acked, rejected, retry_later, raws, urls, write_failed, acknowledged,
  written_then, process_batch,
}
use mifolyo.Backlinks.Batch.Safety.{AllStored}

-- A reason to retry a write.
abbrev IsPostponed : Option String → Type 0
IsPostponed o =
    (o ≡ some "mongo_write_conflict")
    ⊎ ((o ≡ some "mongo_write_not_acknowledged") ⊎ (o ≡ some "mongo_unavailable"))

module _ {W : Type 0} (pending : W → Bytes → Bytes → Bool) (stored : W → Text → Text → Bool) where
  -- What a result says of the worlds before and after: acknowledged, every link is stored;
  -- unacknowledged by Redis, every link is stored too; refused or postponed, no member has left a Redis
  -- set.
  pub data Means (b : BacklinkBatch) (w w' : W) (r : BatchResult) : Type 0 where
    delivered : r.status ≡ acked → r.reason ≡ none → AllStored stored w' b → Means b w w' r
    unacknowledged :
        r.status ≡ retry_later
        → r.reason ≡ some "redis_ack_unavailable"
        → r.removed_members ≡ 0
        → AllStored stored w' b
        → Means b w w' r
    refused :
        r.status ≡ rejected → r.removed_members ≡ 0 → Keeps pending stored w w' → Means b w w' r
    postponed :
        r.status ≡ retry_later
        → IsPostponed r.reason
        → r.removed_members ≡ 0
        → Keeps pending stored w w'
        → Means b w w' r

module _ (validate_canonical : Text → Bool) {W : Type 0} (d : Datastore W)
    {pending : W → Bytes → Bytes → Bool} {stored : W → Text → Text → Bool}
    (v : IsReliable pending stored d) where
  -- A result together with its meaning.
  abbrev Explains : BacklinkBatch → W → Result BatchResult × W → Type 0
  Explains b w (raise e, w') = (e ≡ bson_error) × Keeps pending stored w w'
  Explains b w (ok r, w') = (r.requested_members ≡ length b.members) × Means pending stored b w w' r

  write_failed-Explains :
      (b : BacklinkBatch) (e : Exception) (w w' : W)
      → is_write_or_codec_error e ≡ true
      → Keeps pending stored w w'
      → Explains b w (write_failed validate_canonical d (length b.members) e w')
  unfolding write_failed
  write_failed-Explains b (document_rejected reason) w w' h k = (refl, refused refl refl k)
  write_failed-Explains b bson_error w w' h k = (refl, k)
  write_failed-Explains b write_conflict w w' h k = (refl, postponed refl (inl refl) refl k)
  write_failed-Explains b write_not_acknowledged w w' h k =
      (refl, postponed refl (inr (inl refl)) refl k)
  write_failed-Explains b connection_failure w w' h k =
      (refl, postponed refl (inr (inr refl)) refl k)
  write_failed-Explains b w_timeout w w' h k = (refl, postponed refl (inr (inr refl)) refl k)
  write_failed-Explains b pymongo_error w w' h k = (refl, refused refl refl k)
  write_failed-Explains b e w w' h k = cc

  acknowledged-Explains :
      (b : BacklinkBatch) (r : Result ℕ) (w w' : W)
      → IsRemoval r
      → AllStored stored w' b
      → Explains b w (acknowledged validate_canonical d (length b.members) r w')
  unfolding acknowledged
  acknowledged-Explains b (ok n) w w' h s = (refl, delivered refl refl s)
  acknowledged-Explains b (raise e) w w' h s =
      rw (h, acknowledged) (refl, unacknowledged refl refl refl s)

  removed-Explains :
      (b : BacklinkBatch) (ms : List Bytes) (w w' : W)
      → ms ≢ []
      → AllStored stored w' b
      → let (r, w'') = srem_backlink_members d b.redis_key ms w' in
        Explains b w (acknowledged validate_canonical d (length b.members) r w'')
  removed-Explains b [] w w' h s = absurd (h refl)
  removed-Explains b (m ∷ ms) w w' h s =
      let (r, w'') = srem_backlink_members d b.redis_key (m ∷ ms) w' in
      acknowledged-Explains b r w w'' (srem_backlink_members-IsRemoval d b.redis_key m ms w')
        (λ u c.
          subst (λ x. stored x b.target_url u ≡ true)
            (sym (srem_backlink_members_world d b.redis_key m ms w'))
            (v.srem_stored b.redis_key (m ∷ ms) w' b.target_url u (s u c)))

  written_then-Explains :
      (b : BacklinkBatch) (r : Result (Unit {0})) (w w' : W)
      → raws b.members ≢ []
      → IsHandled r
      → Keeps pending stored w w'
      → (r ≡ ok tt → AllStored stored w' b)
      → Explains b w (written_then validate_canonical d b r w')
  unfolding written_then
  written_then-Explains b (raise e) w w' h i k s = write_failed-Explains b e w w' i k
  written_then-Explains b (ok tt) w w' h i k s = removed-Explains b (raws b.members) w w' h (s refl)

  process_batch-Explains :
      (l : BatchLimits) (b : BacklinkBatch) (w : W)
      → raws b.members ≢ []
      → Explains b w (process_batch validate_canonical d l b w)
  unfolding process_batch
  process_batch-Explains l b w h =
      let (r, w') = add_backlinks d validate_canonical l b.target_url (urls b.members) w in
      written_then-Explains b r w w' h
        (add_backlinks-IsHandled d validate_canonical l b.target_url (urls b.members) w)
        (add_backlinks-Keeps d v validate_canonical l b.target_url (urls b.members) w)
        (λ e u c.
          add_backlinks-stores d v validate_canonical l b.target_url (urls b.members) w u e c)

  -- Over reliable datastores, `process_batch` of a batch with members either raises an error of the
  -- driver's BSON codec, or returns a result that reports every member as requested. With the status
  -- ACKED and no reason, MongoDB holds the link of every member; with RETRY_LATER for an unavailable
  -- acknowledgement it holds them too, and no member is reported as removed. Any other result is
  -- REJECTED, or RETRY_LATER for one of the reasons of a failed write; then, and after the error, every
  -- member of a Redis set and every stored link from before is still there, and the result reports no
  -- member as removed.
  pub process_batch_outcome :
      (l : BatchLimits) (b : BacklinkBatch) (w : W)
      → raws b.members ≢ []
      → let (x, w') = process_batch validate_canonical d l b w in
        ((r : BatchResult) × (x ≡ ok r)
          × (r.requested_members ≡ length b.members)
          × Means pending stored b w w' r)
        ⊎ ((x ≡ raise bson_error) × Keeps pending stored w w')
  process_batch_outcome l b w h =
      let (x, w') = process_batch validate_canonical d l b w in
      ended x w' (process_batch-Explains l b w h)
    where
      ended :
          (x : Result BatchResult) (w' : W)
          → Explains b w (x, w')
          → ((r : BatchResult) × (x ≡ ok r)
              × (r.requested_members ≡ length b.members)
              × Means pending stored b w w' r)
            ⊎ ((x ≡ raise bson_error) × Keeps pending stored w w')
      ended (ok r) w' (n, m) = inl (r, refl, n, m)
      ended (raise e) w' (h, k) = inr (ap raise h, k)

-- Observations that see no member and every link: over them any datastores are reliable.
nothing_pending-IsReliable :
    {W : Type 0} (d : Datastore W) → IsReliable (λ _ _ _. false) (λ _ _ _. true) d
nothing_pending-IsReliable d = record {
  is_set_keeps = λ w. kept;
  scan_keeps = λ c h w. kept;
  key_type_keeps = λ k w. kept;
  sscan_keeps = λ k c h w. kept;
  find_one_keeps = λ t w. kept;
  insert_one_keeps = λ x w. kept;
  bulk_write_keeps = λ t x us w. kept;
  wait_keeps = λ n w. kept;
  srem_stored = λ k ms w t u h. refl;
  srem_pending = λ k ms w j m h. cc;
  insert_stores = λ x w u h k. refl;
  bulk_write_stores = λ t x us w u n m e s c. refl;
}
  where
    kept : {W : Type 0} {w w' : W} → Keeps (λ _ _ _. false) (λ _ _ _. true) w w'
    kept = record { pending_kept = λ k m h. h; stored_kept = λ t u h. refl }

-- Over any datastores, `process_batch` of a batch with members returns, or raises an error of the
-- driver's BSON codec.
pub process_batch-ends :
    (validate_canonical : Text → Bool) {W : Type 0} (d : Datastore W) (l : BatchLimits)
    (b : BacklinkBatch) (w : W)
    → raws b.members ≢ []
    → let x = (process_batch validate_canonical d l b w).0 in
      ((r : BatchResult) × (x ≡ ok r)) ⊎ (x ≡ raise bson_error)
process_batch-ends validate_canonical d l b w h =
    elim (process_batch_outcome validate_canonical d (nothing_pending-IsReliable d) l b w h) [
      | inl (r, e, n, m) ↦ inl (r, e)
      | inr (e, k) ↦ inr e
    ]
