-- ===== src/Backlinks/Mongo/Raises.antt =====
-- mongo_client.py: the exceptions that `add_backlinks` raises.
use mifolyo.Base.{◌≡◌, refl, Bool, true, false, Option, none, some, String, List, [], arith}
use mifolyo.Base.Texts.{Text}
use mifolyo.Backlinks.Errors.{
  Exception, Result, ok, raise, Exec, document_rejected, write_conflict, write_not_acknowledged,
  connection_failure, w_timeout, pymongo_error, bson_error,
}
use mifolyo.Backlinks.Datastore.{
  Datastore, Document, MongoError, connection, timeout, other, bson, FindReply, found, find_error,
  InsertReply, inserted, insert_duplicate, insert_error, BulkDetails, BulkReply, written,
  bulk_duplicate, bulk_write_error, bulk_error,
}
use mifolyo.Backlinks.Mongo.{
  BatchLimits, sorted_set, new_sources, existing_links, mongo_exception, insert_outcome,
  bulk_failure, bulk_outcome, create, extend, unless, project, new_document, size_error,
  write_existing, write, find_and_write, add_backlinks, preflight,
}

-- The exceptions that `process_batch` has an `except` clause for.
abbrev pub is_write_error : Exception → Bool
is_write_error (document_rejected _) = true
is_write_error write_conflict = true
is_write_error write_not_acknowledged = true
is_write_error connection_failure = true
is_write_error w_timeout = true
is_write_error pymongo_error = true
is_write_error _ = false

abbrev pub is_write_or_codec_error : Exception → Bool
is_write_or_codec_error bson_error = true
is_write_or_codec_error e = is_write_error e

-- A result that returns, or raises one of these or an error of the driver's BSON codec.
abbrev pub IsHandled : Result (Unit {0}) → Type 0
IsHandled (ok _) = Unit {0}
IsHandled (raise e) = is_write_or_codec_error e ≡ true

mongo_exception-IsHandled : (e : MongoError) → is_write_or_codec_error (mongo_exception e) ≡ true
unfolding mongo_exception
mongo_exception-IsHandled connection = refl
mongo_exception-IsHandled timeout = refl
mongo_exception-IsHandled other = refl
mongo_exception-IsHandled bson = refl

bulk_failure-IsHandled : (x : BulkDetails) → is_write_or_codec_error (bulk_failure x) ≡ true
unfolding bulk_failure
bulk_failure-IsHandled x = ground arith

insert_outcome-IsHandled : (r : InsertReply) → IsHandled (insert_outcome r)
unfolding insert_outcome
insert_outcome-IsHandled (inserted true) = tt
insert_outcome-IsHandled (inserted false) = refl
insert_outcome-IsHandled insert_duplicate = refl
insert_outcome-IsHandled (insert_error e) = mongo_exception-IsHandled e

bulk_outcome-IsHandled : (r : BulkReply) → IsHandled (bulk_outcome r)
unfolding bulk_outcome
bulk_outcome-IsHandled (written true n m) = ground arith
bulk_outcome-IsHandled (written false n m) = refl
bulk_outcome-IsHandled bulk_duplicate = refl
bulk_outcome-IsHandled (bulk_write_error x) = bulk_failure-IsHandled x
bulk_outcome-IsHandled (bulk_error e) = mongo_exception-IsHandled e

module _ {W : Type 0} where
  unless-IsHandled :
      (o : Option String) (k : Exec W (Unit {0})) (w : W)
      → IsHandled (k w).0
      → IsHandled (unless o k w).0
  unfolding unless
  unless-IsHandled none k w h = h
  unless-IsHandled (some reason) k w h = refl

module _ {W : Type 0} (d : Datastore W) where
  write_existing-IsHandled :
      (l : BatchLimits) (t : Text) (us : List Text) (x : Document) (o : Option (List Text)) (w : W)
      → IsHandled (write_existing d l t us x o w).0
  unfolding write_existing
  write_existing-IsHandled l t us x none w = refl
  write_existing-IsHandled l t us x (some links) w =
      let new = new_sources links us in
      unless-IsHandled (size_error l new (d.bson_size (project x links new))) (extend d t x us) w
        (bulk_outcome-IsHandled (d.bulk_write t x us w).0)

  write-IsHandled :
      (l : BatchLimits) (t : Text) (us : List Text) (r : FindReply) (w : W)
      → IsHandled (write d l t us r w).0
  unfolding write
  write-IsHandled l t us (found none) w =
      unless-IsHandled (size_error l (new_sources [] us) (d.bson_size (new_document t us)))
        (create d (new_document t us)) w
        (insert_outcome-IsHandled (d.insert_one (new_document t us) w).0)
  write-IsHandled l t us (found (some x)) w =
      write_existing-IsHandled l t us x (existing_links x.links) w
  write-IsHandled l t us (find_error e) w = mongo_exception-IsHandled e

  find_and_write-IsHandled :
      (l : BatchLimits) (t : Text) (us : List Text) (w : W)
      → IsHandled (find_and_write d l t us w).0
  unfolding find_and_write
  find_and_write-IsHandled l t us w = let (r, w') = d.find_one t w in write-IsHandled l t us r w'

  -- Over any datastores, `add_backlinks` returns, or raises one of the exceptions that `process_batch`
  -- has an `except` clause for, or an error of the driver's BSON codec.
  pub add_backlinks-IsHandled :
      (validate_canonical : Text → Bool) (l : BatchLimits) (t : Text) (us : List Text) (w : W)
      → IsHandled (add_backlinks d validate_canonical l t us w).0
  unfolding add_backlinks
  add_backlinks-IsHandled validate_canonical l t us w =
      unless-IsHandled (preflight validate_canonical l t (sorted_set us))
        (find_and_write d l t (sorted_set us)) w (find_and_write-IsHandled l t (sorted_set us) w)
