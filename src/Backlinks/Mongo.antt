-- ===== src/Backlinks/Mongo.antt =====
-- services/backlinks-processor/data/mongo_client.py: `_validate_url` and `add_backlinks`.
pub mod Sources
pub mod Writes
pub mod Raises
pub mod Preflight
use mifolyo.Base.{
  ℕ, ◌+◌, ◌*◌, Bool, true, false, not, ◌&&◌, ◌||◌, Option, none, some, String, List, [], ◌∷◌, ◌++◌,
  map, ltb, leb, ◌==◌, length, sum_of, if◌then◌else◌,
}
use mifolyo.Base.Texts.{Text, same, less, contains}
use mifolyo.Base.Utf8.{encode}
use mifolyo.Backlinks.Config.{max_canonical_url_bytes}
use mifolyo.Backlinks.Errors.{
  Exception, Result, ok, raise, Exec, throw, document_rejected, write_conflict,
  write_not_acknowledged, connection_failure, w_timeout, pymongo_error, bson_error,
}
use mifolyo.Backlinks.Datastore.{
  Datastore, Document, Item, str, not_str, Links, absent, not_list, list, MongoError, connection,
  timeout, other, bson, FindReply, found, find_error, InsertReply, inserted, insert_duplicate,
  insert_error, BulkDetails, BulkReply, written, bulk_duplicate, bulk_write_error, bulk_error,
}

-- `sorted(set(texts))`
unfoldable pub insert_unique : Text → List Text → List Text
insert_unique t [] = t ∷ []
insert_unique t (u ∷ us) =
    if same u t then u ∷ us else if less t u then t ∷ u ∷ us else u ∷ insert_unique t us

unfoldable pub sorted_set : List Text → List Text
unfolding insert_unique
sorted_set [] = []
sorted_set (t ∷ ts) = insert_unique t (sorted_set ts)

-- `len(value.encode("utf-8"))`, of a text that encodes.
unfoldable pub encoded_length : Text → ℕ
encoded_length t = elim (encode t) [ none ↦ 0 | some b ↦ length b ]

-- `existing_links`, or nothing where it is no list of strings.
unfoldable pub strings : List Item → Option (List Text)
strings [] = some []
strings (str t ∷ items) = elim (strings items) [ none ↦ none | some ts ↦ some (t ∷ ts) ]
strings (not_str ∷ items) = none

unfoldable pub existing_links : Links → Option (List Text)
unfolding strings
existing_links absent = some []
existing_links not_list = none
existing_links (list items) = strings items

-- `[source_url for source_url in unique_sources if source_url not in existing_sources]`
unfoldable pub new_sources : List Text → List Text → List Text
new_sources existing [] = []
new_sources existing (u ∷ us) =
    let rest = new_sources existing us in if contains u existing then rest else u ∷ rest

unfoldable pub mongo_exception : MongoError → Exception
mongo_exception connection = connection_failure
mongo_exception timeout = w_timeout
mongo_exception other = pymongo_error
mongo_exception bson = bson_error

any_equal : ℕ → List ℕ → Bool
any_equal n [] = false
any_equal n (m ∷ ms) = m == n || any_equal n ms

insert_outcome : InsertReply → Result (Unit {0})
unfolding mongo_exception
insert_outcome (inserted true) = ok tt
insert_outcome (inserted false) = raise write_not_acknowledged
insert_outcome insert_duplicate = raise write_conflict
insert_outcome (insert_error e) = raise (mongo_exception e)

bulk_failure : BulkDetails → Exception
unfolding any_equal
bulk_failure x =
    if any_equal 11000 x.codes
    then write_conflict
    else if x.retryable || x.concern_errors
    then write_not_acknowledged
    else document_rejected "mongo_write_rejected"

bulk_outcome : BulkReply → Result (Unit {0})
unfolding mongo_exception bulk_failure
bulk_outcome (written true matched upserted) =
    if matched + upserted == 1 then ok tt else raise write_conflict
bulk_outcome (written false matched upserted) = raise write_not_acknowledged
bulk_outcome bulk_duplicate = raise write_conflict
bulk_outcome (bulk_write_error x) = raise (bulk_failure x)
bulk_outcome (bulk_error e) = raise (mongo_exception e)

pub record BatchLimits : Type 0 where
  pub max_members : ℕ
  pub max_batch_url_bytes : ℕ
  pub max_document_bytes : ℕ

-- The defaults of `add_backlinks`.
abbrev pub default_batch_limits : BatchLimits
default_batch_limits = record {
  max_members = 256;
  max_batch_url_bytes = 512 * 1024;
  max_document_bytes = 12 * 1024 * 1024;
}

module _ (validate_canonical : Text → Bool) where
  -- `_validate_url`: whether it returns.
  encodes_short : Option (List ℕ) → Bool
  encodes_short none = false
  encodes_short (some b) = leb (length b) max_canonical_url_bytes

  unfoldable pub url_ok : Text → Bool
  unfolding encodes_short
  url_ok [] = false
  url_ok (c ∷ t) = encodes_short (encode (c ∷ t)) && validate_canonical (c ∷ t)

  unfoldable pub all_ok : List Text → Bool
  unfolding url_ok
  all_ok [] = true
  all_ok (u ∷ us) = url_ok u && all_ok us

  -- The checks that come before the document is read.
  unfoldable pub preflight : BatchLimits → Text → List Text → Option String
  unfolding all_ok
  preflight l target unique =
      if not (url_ok target)
      then some "target_url_invalid"
      else if length unique == 0
      then some "member_batch_empty"
      else if ltb l.max_members (length unique)
      then some "member_batch_too_large"
      else if not (all_ok unique)
      then some "member_url_invalid"
      else if ltb l.max_batch_url_bytes (sum_of encoded_length unique)
      then some "member_batch_too_large"
      else none

-- `projected`, checked against the ceiling.
size_error : BatchLimits → List Text → Option ℕ → Option String
size_error l new none = some "mongo_document_invalid"
size_error l new (some size) =
    if ltb 0 (length new) && leb l.max_document_bytes size
    then some "mongo_document_ceiling_exceeded"
    else none

-- `projected["links"] = existing_links + new_sources`
project : Document → List Text → List Text → Document
project x links new = record x { links = list (map str (links ++ new)) }

-- The document of a target that has none yet.
new_document : Text → List Text → Document
unfolding project
new_document target unique =
    project (record { id = target; links = absent; rest = 0 }) [] (new_sources [] unique)

module _ {W : Type 0} where
  unless : Option String → Exec W (Unit {0}) → Exec W (Unit {0})
  unless none k = k
  unless (some reason) k = throw (document_rejected reason)

module _ {W : Type 0} (d : Datastore W) where
  create : Document → Exec W (Unit {0})
  unfolding insert_outcome
  create projected w = let (reply, w') = d.insert_one projected w in (insert_outcome reply, w')

  extend : Text → Document → List Text → Exec W (Unit {0})
  unfolding bulk_outcome
  extend target existing unique w =
      let (reply, w') = d.bulk_write target existing unique w in (bulk_outcome reply, w')

  write_new : BatchLimits → Text → List Text → Exec W (Unit {0})
  unfolding size_error create unless new_document
  write_new l target unique =
      unless (size_error l (new_sources [] unique) (d.bson_size (new_document target unique)))
        (create (new_document target unique))

  write_existing :
      BatchLimits → Text → List Text → Document → Option (List Text) → Exec W (Unit {0})
  unfolding size_error extend unless project
  write_existing l target unique x none = throw (document_rejected "mongo_links_invalid")
  write_existing l target unique x (some links) =
      let new : List Text = new_sources links unique in
      unless (size_error l new (d.bson_size (project x links new))) (extend target x unique)

  write : BatchLimits → Text → List Text → FindReply → Exec W (Unit {0})
  unfolding write_new write_existing mongo_exception
  write l target unique (found none) = write_new l target unique
  write l target unique (found (some x)) = write_existing l target unique x (existing_links x.links)
  write l target unique (find_error e) = throw (mongo_exception e)

  find_and_write : BatchLimits → Text → List Text → Exec W (Unit {0})
  unfolding write
  find_and_write l target unique w =
      let (reply, w') = d.find_one target w in write l target unique reply w'

  unfoldable pub add_backlinks : (Text → Bool) → BatchLimits → Text → List Text → Exec W (Unit {0})
  unfolding find_and_write
  add_backlinks validate_canonical l target sources =
      unless (preflight validate_canonical l target (sorted_set sources))
        (find_and_write l target (sorted_set sources))
