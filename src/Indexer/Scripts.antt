-- ===== src/Indexer/Scripts.antt =====
-- The Lua scripts of services/indexer/data/redis_client.py, under the keys of utils/constants.py.
pub mod Effect
pub mod Stale
use mifolyo.Base.{refl, Bool, true, not, ◌&&◌, Option}
use mifolyo.Base.{[], ◌∷◌, ℕ}
use mifolyo.Base.Texts.{Bytes, Text, codes, same}
use mifolyo.Fenced.Store.{Kind}
use mifolyo.Fenced.Store.{lpush, lrem, del}
use mifolyo.Fenced.Store.{hget}
use mifolyo.Fenced.Script.{
  Script, done, type_of, integer, bulk, position, ◌>>=◌, reject, answer_if, ◌>>◌,
}
use mifolyo.Fenced.Queue.{Layout, is_none, differs, acquire, is_hash, is_set}
use mifolyo.Fenced.Queue.{lost, not_strings, not_list, is_missing, renew, drop_lock, claim, sizes}
use mifolyo.Fenced.Queue.{release, quarantine, recover}
use mifolyo.Fenced.Spec.{IsLayout}

abbrev pub indexer : Layout
indexer = record {
  lock = codes "pages_queue:indexer_owner";
  counter = codes "pages_queue:indexer_fence_epoch";
  queue = codes "pages_queue";
  processing = codes "pages_queue:processing";
  dead = codes "pages_queue:dead";
  counter_first = true;
  counter_kind = "fence epoch counter must be a string";
  counter_value = "invalid fence epoch counter";
  owner_kinds = "owner lock and epoch must be strings";
  queue_kind = "queue key must be a list";
  processing_kind = "processing key must be a list";
  dead_kind = "dead-letter key must be a list";
}

pub indexer-IsLayout : IsLayout indexer
unfolding same
indexer-IsLayout = record {
  queue_processing = refl;
  processing_queue = refl;
  dead_processing = refl;
  processing_dead = refl;
  dead_queue = refl;
  lock_counter = refl;
  counter_lock = refl;
  lock_queue = refl;
  lock_processing = refl;
  counter_queue = refl;
  counter_processing = refl;
  queue_counter = refl;
  processing_counter = refl;
  dead_counter = refl;
  dead_lock = refl;
  queue_lock = refl;
  processing_lock = refl;
}

unfoldable pub acquire_lock_script : Text → ℕ → Script (Option Text)
acquire_lock_script = acquire indexer

unfoldable pub renew_lock_script : Text → Text → ℕ → Script ℕ
renew_lock_script = renew indexer

unfoldable pub drop_lock_script : Text → Text → Script ℕ
drop_lock_script = drop_lock indexer

unfoldable pub claim_page_script : Text → Text → Script (Option Text)
claim_page_script = claim indexer

unfoldable pub recover_claims_script : Text → Text → ℕ → Script ℕ
recover_claims_script = recover indexer

unfoldable pub release_claim_script : Text → Text → Text → Script ℕ
release_claim_script = release indexer

unfoldable pub quarantine_claim_script : Text → Text → Text → ℕ → Script ℕ
quarantine_claim_script = quarantine indexer

unfoldable pub work_sizes_script : Text → Text → Script (ℕ × ℕ)
work_sizes_script = sizes indexer

abbrev pub image_queue : Bytes
image_queue = codes "image_indexer_queue"

-- The keys of one publication.
pub record Publication : Type 0 where
  pub page : Bytes
  pub outlinks : Bytes
  pub manifest : Bytes
  pub publication_id : Text
  pub normalized_url : Text

abbrev not_kind : (Kind → Bool) → Kind → Bool
not_kind is t = not (is_none t) && not (is t)

-- Hands the image manifest over, and ends the claim and its page.
unfoldable pub hand_over : Text → Publication → Script ℕ
hand_over value p = do
  found ← position indexer.processing value
  answer_if (is_missing found) 0
  stored_id ← bulk (hget p.manifest (codes "publication_id"))
  reject (differs stored_id p.publication_id) "image manifest publication mismatch"
  stored_url ← bulk (hget p.manifest (codes "normalized_url"))
  reject (differs stored_url p.normalized_url) "image manifest URL mismatch"
  integer (lpush image_queue p.manifest)
  integer (lrem indexer.processing value)
  integer (del (p.page ∷ p.outlinks ∷ []))
  done 1

unfoldable pub complete_claim_script : Text → Text → Text → Publication → Script ℕ
complete_claim_script owner epoch value p = do
  lock_type ← type_of indexer.lock
  counter_type ← type_of indexer.counter
  processing_type ← type_of indexer.processing
  page_type ← type_of p.page
  outlinks_type ← type_of p.outlinks
  manifest_type ← type_of p.manifest
  images_type ← type_of image_queue
  reject (not_strings lock_type counter_type) "owner lock and epoch must be strings"
  reject (not_list processing_type) "processing key must be a list"
  reject (not_kind is_hash page_type) "page key must be a hash"
  reject (not_kind is_set outlinks_type) "outlinks key must be a set"
  reject (not (is_hash manifest_type)) "image manifest key must be a hash"
  reject (not_list images_type) "image queue key must be a list"
  is_lost ← lost indexer owner epoch
  reject is_lost "LOCK_LOST"
  hand_over value p

-- The script has the same text.
unfoldable pub skip_claim_script : Text → Text → Text → Publication → Script ℕ
skip_claim_script = complete_claim_script
