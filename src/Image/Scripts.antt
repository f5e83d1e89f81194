-- ===== src/Image/Scripts.antt =====
-- The Lua scripts of services/image-indexer/data/redis_client.py, under the keys of utils/constants.py.
pub mod Stale
use mifolyo.Base.{refl, Bool, true, false, not, ◌||◌, Option, none, some}
use mifolyo.Base.{List, [], ◌∷◌, ℕ, ◌*◌}
use mifolyo.Base.{length, ltb, ◌==◌}
use mifolyo.Base.Texts.{Bytes, Text, codes, same}
use mifolyo.Base.Decimal.{int_of}
use mifolyo.Fenced.Store.{hlen, hstrlen, lrem, del}
use mifolyo.Fenced.Store.{hget, Status, okay}
use mifolyo.Fenced.Script.{
  Script, done, fail, type_of, integer, bulk, position, ◌>>=◌, reject, answer_if, ◌>>◌,
}
use mifolyo.Fenced.Queue.{Layout, is_list, differs, acquire, is_hash}
use mifolyo.Fenced.Queue.{lost, not_strings, is_missing, renew, drop_lock, claim, sizes}
use mifolyo.Fenced.Queue.{release, quarantine, recover}
use mifolyo.Fenced.Spec.{IsLayout}

abbrev pub images : Layout
images = record {
  lock = codes "image_indexer_queue:owner";
  counter = codes "image_indexer_queue:fence_epoch";
  queue = codes "image_indexer_queue";
  processing = codes "image_indexer_queue:processing";
  dead = codes "image_indexer_queue:dead";
  counter_first = false;
  counter_kind = "fence epoch must be a string";
  counter_value = "invalid fence epoch";
  owner_kinds = "owner keys must be strings";
  queue_kind = "queue must be a list";
  processing_kind = "processing must be a list";
  dead_kind = "dead letter must be a list";
}

pub images-IsLayout : IsLayout images
unfolding same
images-IsLayout = record {
  queue_processing = refl;
  processing_queue = refl;
  dead_processing = refl;
  processing_dead = refl;
  dead_queue = refl;
  lock_counter = refl;
  counter_lock = refl;
  lock_queue = refl;
  lock_processing = refl;
  counter_queue = refl;
  counter_processing = refl;
  queue_counter = refl;
  processing_counter = refl;
  dead_counter = refl;
  dead_lock = refl;
  queue_lock = refl;
  processing_lock = refl;
}

unfoldable pub acquire_lock_script : Text → ℕ → Script (Option Text)
acquire_lock_script = acquire images

unfoldable pub renew_lock_script : Text → Text → ℕ → Script ℕ
renew_lock_script = renew images

unfoldable pub drop_lock_script : Text → Text → Script ℕ
drop_lock_script = drop_lock images

unfoldable pub claim_script : Text → Text → Script (Option Text)
claim_script = claim images

unfoldable pub recover_script : Text → Text → ℕ → Script ℕ
recover_script = recover images

unfoldable pub release_script : Text → Text → Text → Script ℕ
release_script = release images

unfoldable pub quarantine_script : Text → Text → Text → ℕ → Script ℕ
quarantine_script = quarantine images

unfoldable pub work_sizes_script : Text → Text → Script (ℕ × ℕ)
work_sizes_script = sizes images

pub record Manifest : Type 0 where
  pub key : Bytes
  pub image_keys : Text
  pub image_count : Text
  pub publication_id : Text
  pub normalized_url : Text

-- Every payload is a hash.
unfoldable pub check_kinds : {A : Type 0} → List Bytes → (Status → Script A) → Script A
check_kinds [] f = f okay
check_kinds (key ∷ keys) f = do
  payload_type ← type_of key
  reject (not (is_hash payload_type)) "payload must be a hash"
  check_kinds keys f

-- The comparisons of one `if`, which stop at the first field that differs.
unfoldable pub any_differs :
    {A : Type 0} → Bytes → List (Text × Text) → (Bool → Script A) → Script A
any_differs key [] f = f false
any_differs key ((field, value) ∷ rest) f =
    bulk (hget key field)
      (λ stored. elim (differs stored value) [ true ↦ f true | false ↦ any_differs key rest f ])

-- The values come in pairs: the source URL and the alternative text of each key in turn.
unfoldable pub check_payloads :
    {A : Type 0} → Text → Text → List Bytes → List Text → (Status → Script A) → Script A
check_payloads id url [] values f = f okay
check_payloads id url (key ∷ keys) [] f = fail "payload changed"
check_payloads id url (key ∷ keys) (source_url ∷ []) f = fail "payload changed"
check_payloads id url (key ∷ keys) (source_url ∷ alt ∷ values) f = do
  foreign ← any_differs key ((codes "publication_id", id) ∷ (codes "normalized_page_url", url) ∷ [])
  reject foreign "payload identity mismatch"
  changed ← any_differs key (
      (codes "contract_version", codes "1")
      ∷ (codes "normalized_source_url", source_url)
      ∷ (codes "alt", alt)
      ∷ [])
  reject changed "payload changed"
  check_payloads id url keys values f

abbrev pub max_payloads : ℕ
max_payloads = 1000

-- `not count or count < 0 or count > 1000 or #KEYS ~= count + 4 or #ARGV ~= 7 + (count * 2)`
abbrev pub wrong_count : Option ℕ → List Bytes → List Text → Bool
wrong_count none keys values = true
wrong_count (some n) keys values =
    ltb max_payloads n || (not (length keys == n) || not (length values == n * 2))

unfoldable pub ack_script : Text → Text → Manifest → List Bytes → List Text → Script ℕ
ack_script owner epoch m keys values = do
  lock_type ← type_of images.lock
  counter_type ← type_of images.counter
  processing_type ← type_of images.processing
  manifest_type ← type_of m.key
  reject (not_strings lock_type counter_type) "owner keys must be strings"
  reject (not (is_list processing_type)) "processing must be a list"
  reject (not (is_hash manifest_type)) "manifest must be a hash"
  reject (wrong_count (int_of m.image_count) keys values) "invalid payload count"
  check_kinds keys
  is_lost ← lost images owner epoch
  reject is_lost "LOCK_LOST"
  found ← position images.processing m.key
  answer_if (is_missing found) 0
  changed ←
      any_differs m.key
        ((codes "image_keys", m.image_keys) ∷ (codes "image_count", m.image_count) ∷ [])
  reject changed "manifest changed"
  foreign ←
      any_differs m.key (
        (codes "publication_id", m.publication_id)
        ∷ (codes "normalized_url", m.normalized_url)
        ∷ [])
  reject foreign "manifest identity mismatch"
  contract ← any_differs m.key ((codes "contract_version", codes "1") ∷ [])
  reject contract "manifest contract changed"
  check_payloads m.publication_id m.normalized_url keys values
  integer (lrem images.processing m.key)
  integer (del (m.key ∷ keys))
  done 1

unfoldable pub manifest_preflight_script : Bytes → ℕ → Script ℕ
manifest_preflight_script key limit = do
  manifest_type ← type_of key
  reject (not (is_hash manifest_type)) "manifest must be a hash"
  field_count ← integer (hlen key)
  reject (not (field_count == 5)) "manifest field count is invalid"
  size ← integer (hstrlen key (codes "image_keys"))
  reject (ltb limit size) "manifest exceeds limit"
  done 1

unfoldable pub preflight_loop : ℕ → ℕ → List Bytes → Script ℕ
preflight_loop alt_limit url_limit [] = done 1
preflight_loop alt_limit url_limit (key ∷ keys) = do
  payload_type ← type_of key
  reject (not (is_hash payload_type)) "payload must be a hash"
  field_count ← integer (hlen key)
  reject (not (field_count == 5)) "payload field count is invalid"
  alt_size ← integer (hstrlen key (codes "alt"))
  reject (ltb alt_limit alt_size) "payload alt exceeds limit"
  page_size ← integer (hstrlen key (codes "normalized_page_url"))
  reject (ltb url_limit page_size) "payload page exceeds limit"
  source_size ← integer (hstrlen key (codes "normalized_source_url"))
  reject (ltb url_limit source_size) "payload source exceeds limit"
  preflight_loop alt_limit url_limit keys

unfoldable pub payload_preflight_script : List Bytes → ℕ → ℕ → Script ℕ
payload_preflight_script keys alt_limit url_limit = do
  reject (ltb max_payloads (length keys)) "too many payloads"
  preflight_loop alt_limit url_limit keys
