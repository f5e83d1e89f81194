-- ===== src/Backlinks/Datastore.antt =====
-- What services/backlinks-processor calls and does not implement: the Redis commands, the MongoDB
-- collection `backlinks`, the BSON encoder, and the stop event, as operations on a world `W`.
pub mod Laws
use mifolyo.Base.{Bool, true, false, ℕ, Option, List, [], ◌∷◌, ◌≡◌, ◌⊎◌, ◌||◌, ◌+◌}
use mifolyo.Base.Texts.{Bytes, Text, same, contains}

-- A reply of a Redis command. `wrong_type` is a ResponseError whose text has "WRONGTYPE".
pub data RedisReply (A : Type 0) : Type 0 where
  value : A → RedisReply A
  wrong_type failed : RedisReply A

pub data KeyType : Type 0 where
  none_type set_type other_type : KeyType

-- An element of a stored array, and the `links` field of a stored document.
pub data Item : Type 0 where
  str : Text → Item
  not_str : Item

pub data Links : Type 0 where
  absent not_list : Links
  list : List Item → Links

pub record Document : Type 0 where
  pub id : Text
  pub links : Links
  -- the other fields, which the program copies
  pub rest : ℕ

-- What the driver's calls raise: `bson` is an error of its BSON codec (a reply that does not decode,
-- a request that is too large).
pub data MongoError : Type 0 where
  connection timeout other bson : MongoError

pub data FindReply : Type 0 where
  found : Option Document → FindReply
  find_error : MongoError → FindReply

pub data InsertReply : Type 0 where
  inserted : (acknowledged : Bool) → InsertReply
  insert_duplicate : InsertReply
  insert_error : MongoError → InsertReply

-- `details["writeErrors"]` codes, the label RetryableWriteError, and whether
-- `details["writeConcernErrors"]` is non-empty.
pub record BulkDetails : Type 0 where
  pub codes : List ℕ
  pub retryable : Bool
  pub concern_errors : Bool

pub data BulkReply : Type 0 where
  written : (acknowledged : Bool) (matched upserted : ℕ) → BulkReply
  bulk_duplicate : BulkReply
  bulk_write_error : BulkDetails → BulkReply
  bulk_error : MongoError → BulkReply

pub record Datastore (W : Type 0) : Type 0 where
  -- stop_event.is_set()
  pub is_set : W → Bool × W
  -- SCAN cursor MATCH backlinks:* COUNT hint
  pub scan : (cursor hint : ℕ) → W → RedisReply (ℕ × List Bytes) × W
  pub key_type : Bytes → W → RedisReply KeyType × W
  pub sscan : Bytes → (cursor hint : ℕ) → W → RedisReply (ℕ × List Bytes) × W
  pub srem : Bytes → List Bytes → W → RedisReply ℕ × W
  pub find_one : Text → W → FindReply × W
  pub insert_one : Document → W → InsertReply × W
  -- UpdateOne on the exact stored document, `$addToSet` with `$each`, no upsert
  pub bulk_write : Text → Document → List Text → W → BulkReply × W
  -- len(BSON.encode(document)); `none` is InvalidDocument or OverflowError
  pub bson_size : Document → Option ℕ
  -- wait(seconds)
  pub wait : (seconds : ℕ) → W → W

-- Whether an array, or a document's links, hold a text.
unfoldable pub has_item : Text → List Item → Bool
has_item t [] = false
has_item t (str u ∷ items) = same u t || has_item t items
has_item t (not_str ∷ items) = has_item t items

abbrev pub has_link : Text → Links → Bool
has_link t (list items) = has_item t items
has_link t _ = false

-- Two observations of a world: whether the Redis set at a key holds a member, and whether the
-- MongoDB document of a target holds a link. Nothing seen before is lost from one to the other.
pub record Keeps {W : Type 0} (pending : W → Bytes → Bytes → Bool) (stored : W → Text → Text → Bool)
    (w w' : W) : Type 0 where
  pub pending_kept : (k m : Bytes) → pending w k m ≡ true → pending w' k m ≡ true
  pub stored_kept : (t u : Text) → stored w t u ≡ true → stored w' t u ≡ true

-- The documented behaviour that the processor relies on, while no other client removes members or
-- links (others may add them): only SREM removes members, at its key and among its arguments; an
-- acknowledged insert stores its document; an acknowledged update that matched stores every link.
pub record IsReliable {W : Type 0} (pending : W → Bytes → Bytes → Bool)
    (stored : W → Text → Text → Bool) (d : Datastore W) : Type 0 where
  pub is_set_keeps : (w : W) → Keeps pending stored w (d.is_set w).1
  pub scan_keeps : (c h : ℕ) (w : W) → Keeps pending stored w (d.scan c h w).1
  pub key_type_keeps : (k : Bytes) (w : W) → Keeps pending stored w (d.key_type k w).1
  pub sscan_keeps : (k : Bytes) (c h : ℕ) (w : W) → Keeps pending stored w (d.sscan k c h w).1
  pub find_one_keeps : (t : Text) (w : W) → Keeps pending stored w (d.find_one t w).1
  pub insert_one_keeps : (x : Document) (w : W) → Keeps pending stored w (d.insert_one x w).1
  pub bulk_write_keeps :
      (t : Text) (x : Document) (us : List Text) (w : W)
      → Keeps pending stored w (d.bulk_write t x us w).1
  pub wait_keeps : (n : ℕ) (w : W) → Keeps pending stored w (d.wait n w)
  pub srem_stored :
      (k : Bytes) (ms : List Bytes) (w : W) (t u : Text)
      → stored w t u ≡ true
      → stored (d.srem k ms w).1 t u ≡ true
  pub srem_pending :
      (k : Bytes) (ms : List Bytes) (w : W) (j m : Bytes)
      → pending w j m ≡ true
      → (pending (d.srem k ms w).1 j m ≡ true) ⊎ ((same j k ≡ true) × (contains m ms ≡ true))
  pub insert_stores :
      (x : Document) (w : W) (u : Text)
      → (d.insert_one x w).0 ≡ inserted true
      → has_link u x.links ≡ true
      → stored (d.insert_one x w).1 x.id u ≡ true
  pub bulk_write_stores :
      (t : Text) (x : Document) (us : List Text) (w : W) (u : Text) (n m : ℕ)
      → (d.bulk_write t x us w).0 ≡ written true n m
      → n + m ≡ 1
      → contains u us ≡ true
      → stored (d.bulk_write t x us w).1 t u ≡ true
