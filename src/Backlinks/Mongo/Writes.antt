-- ===== src/Backlinks/Mongo/Writes.antt =====
-- mongo_client.py: what `add_backlinks` does to the datastores, on every outcome.
use mifolyo.Base.{
  ◌≡◌, refl, ◌+◌, ℕ, Bool, true, false, Option, none, some, String, List, [], arith, ◌∙◌,
}
use mifolyo.Base.Texts.{Bytes, Text, contains}
use mifolyo.Backlinks.Errors.{ok, Exec}
use mifolyo.Backlinks.Datastore.{
  Datastore, Document, FindReply, found, find_error, InsertReply, inserted, insert_duplicate,
  insert_error, BulkReply, written, bulk_duplicate, bulk_write_error, bulk_error, Keeps, IsReliable,
  has_link,
}
use mifolyo.Backlinks.Datastore.Laws.{Keeps-refl, Keeps-trans}
use mifolyo.Backlinks.Mongo.{
  BatchLimits, sorted_set, new_sources, existing_links, insert_outcome, bulk_outcome, create,
  extend, unless, project, new_document, write_existing, write, find_and_write, add_backlinks,
  preflight, size_error,
}
use mifolyo.Backlinks.Mongo.Sources.{contains-sorted_set, has_item-map-str, new_sources-nil}

insert_outcome-ok : (r : InsertReply) → insert_outcome r ≡ ok tt → r ≡ inserted true
unfolding insert_outcome
insert_outcome-ok (inserted true) h = refl
insert_outcome-ok (inserted false) h = cc
insert_outcome-ok insert_duplicate h = cc
insert_outcome-ok (insert_error e) h = cc

bulk_outcome-ok :
    (r : BulkReply)
    → bulk_outcome r ≡ ok tt
    → (n : ℕ) × (m : ℕ) × (r ≡ written true n m) × (n + m ≡ 1)
unfolding bulk_outcome
bulk_outcome-ok (written true n m) h = (n, m, refl, ground arith)
bulk_outcome-ok (written false n m) h = cc
bulk_outcome-ok bulk_duplicate h = cc
bulk_outcome-ok (bulk_write_error x) h = cc
bulk_outcome-ok (bulk_error e) h = cc

module _ {W : Type 0} (d : Datastore W) {pending : W → Bytes → Bytes → Bool}
    {stored : W → Text → Text → Bool} (v : IsReliable pending stored d) where
  unless-Keeps :
      (o : Option String) (k : Exec W (Unit {0})) (w : W)
      → Keeps pending stored w (k w).1
      → Keeps pending stored w (unless o k w).1
  unfolding unless
  unless-Keeps none k w h = h
  unless-Keeps (some reason) k w h = Keeps-refl w

  write_existing-Keeps :
      (l : BatchLimits) (t : Text) (us : List Text) (x : Document) (o : Option (List Text)) (w : W)
      → Keeps pending stored w (write_existing d l t us x o w).1
  unfolding write_existing
  write_existing-Keeps l t us x none w = Keeps-refl w
  write_existing-Keeps l t us x (some links) w =
      unless-Keeps
        (size_error l (new_sources links us) (d.bson_size (project x links (new_sources links us))))
        (extend d t x us) w (v.bulk_write_keeps t x us w)

  write-Keeps :
      (l : BatchLimits) (t : Text) (us : List Text) (r : FindReply) (w : W)
      → Keeps pending stored w (write d l t us r w).1
  unfolding write
  write-Keeps l t us (found none) w =
      unless-Keeps (size_error l (new_sources [] us) (d.bson_size (new_document t us)))
        (create d (new_document t us)) w (v.insert_one_keeps (new_document t us) w)
  write-Keeps l t us (found (some x)) w = write_existing-Keeps l t us x (existing_links x.links) w
  write-Keeps l t us (find_error e) w = Keeps-refl w

  find_and_write-Keeps :
      (l : BatchLimits) (t : Text) (us : List Text) (w : W)
      → Keeps pending stored w (find_and_write d l t us w).1
  unfolding find_and_write
  find_and_write-Keeps l t us w =
      let (r, w') = d.find_one t w in Keeps-trans (v.find_one_keeps t w) (write-Keeps l t us r w')

  -- Whatever `add_backlinks` raises or returns, no pending member and no stored link is lost.
  pub add_backlinks-Keeps :
      (validate_canonical : Text → Bool) (l : BatchLimits) (t : Text) (us : List Text) (w : W)
      → Keeps pending stored w (add_backlinks d validate_canonical l t us w).1
  unfolding add_backlinks
  add_backlinks-Keeps validate_canonical l t us w =
      unless-Keeps (preflight validate_canonical l t (sorted_set us))
        (find_and_write d l t (sorted_set us)) w (find_and_write-Keeps l t (sorted_set us) w)

  -- A guarded action that returns has passed its guard.
  unless-ok :
      (o : Option String) (k : Exec W (Unit {0})) (w : W) (P : W → Type 0)
      → (unless o k w).0 ≡ ok tt
      → ((k w).0 ≡ ok tt → P (k w).1)
      → P (unless o k w).1
  unfolding unless
  unless-ok none k w P h f = f h
  unless-ok (some reason) k w P h f = cc

  create-stores :
      (x : Document) (w : W) (u : Text)
      → (create d x w).0 ≡ ok tt
      → has_link u x.links ≡ true
      → stored (create d x w).1 x.id u ≡ true
  unfolding create
  create-stores x w u h k = v.insert_stores x w u (insert_outcome-ok (d.insert_one x w).0 h) k

  extend-stores :
      (t : Text) (x : Document) (us : List Text) (w : W) (u : Text)
      → (extend d t x us w).0 ≡ ok tt
      → contains u us ≡ true
      → stored (extend d t x us w).1 t u ≡ true
  unfolding extend
  extend-stores t x us w u h k =
      let (n, m, e, s) = bulk_outcome-ok (d.bulk_write t x us w).0 h in
      v.bulk_write_stores t x us w u n m e s k

  write-stores :
      (l : BatchLimits) (t : Text) (us : List Text) (r : FindReply) (w : W) (u : Text)
      → (write d l t us r w).0 ≡ ok tt
      → contains u us ≡ true
      → stored (write d l t us r w).1 t u ≡ true
  unfolding write new_document
  write-stores l t us (found none) w u h k =
      unless-ok (size_error l (new_sources [] us) (d.bson_size (new_document t us)))
        (create d (new_document t us)) w (λ w'. stored w' t u ≡ true) h
        (λ e.
          create-stores (new_document t us) w u e (rw new_sources-nil (has_item-map-str u us ∙ k)))
  write-stores l t us (found (some x)) w u h k = write_existing-stores (existing_links x.links) h
    where
      write_existing-stores :
          (o : Option (List Text))
          → (write_existing d l t us x o w).0 ≡ ok tt
          → stored (write_existing d l t us x o w).1 t u ≡ true
      write_existing-stores none e = cc
      write_existing-stores (some links) e =
          unless-ok
            (size_error l (new_sources links us)
              (d.bson_size (project x links (new_sources links us))))
            (extend d t x us) w (λ w'. stored w' t u ≡ true) e (λ e'. extend-stores t x us w u e' k)
  write-stores l t us (find_error e) w u h k = cc

  -- Over reliable datastores, when `add_backlinks` returns, every source URL that it was given is
  -- stored as a link of the target.
  pub add_backlinks-stores :
      (validate_canonical : Text → Bool) (l : BatchLimits) (t : Text) (us : List Text) (w : W)
      (u : Text)
      → (add_backlinks d validate_canonical l t us w).0 ≡ ok tt
      → contains u us ≡ true
      → stored (add_backlinks d validate_canonical l t us w).1 t u ≡ true
  unfolding add_backlinks find_and_write
  add_backlinks-stores validate_canonical l t us w u h k =
      unless-ok (preflight validate_canonical l t (sorted_set us))
        (find_and_write d l t (sorted_set us)) w (λ w'. stored w' t u ≡ true) h
        (λ e.
          let (r, w') = d.find_one t w in
          write-stores l t (sorted_set us) r w' u e (contains-sorted_set u us ∙ k))
