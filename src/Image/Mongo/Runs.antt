-- ===== src/Image/Mongo/Runs.antt =====
-- A run of the MongoDB client of services/image-indexer on collections that agree to everything and
-- count their writes.
use mifolyo.Base.{false, none}
use mifolyo.Base.{◌≢◌}
use mifolyo.Base.{sym}
use mifolyo.Base.{ap}
use mifolyo.Base.{◌∙◌}
use mifolyo.Base.{subst}
use mifolyo.Base.{◌&&◌}
use mifolyo.Base.{Option}
use mifolyo.Image.Mongo.{acquire_canonical_lock, release_canonical_lock}
use mifolyo.Base.{◌≡◌, refl, Bool, true, some, List, [], ◌∷◌, ℕ, suc}
use mifolyo.Base.{◌++◌}
use mifolyo.Base.Texts.{Text, codes, same, same_refl, same→eq, contains, less}
use mifolyo.Base.Dict.{Dict, lookup, insert}
use mifolyo.Fenced.Session.{Outcome, raise, mongo_error, ok, Session, Exec, pure}
use mifolyo.Image.Mongo.{
  ImageDocument, Collections, slices, distinct, any_image, owns_canonical_lock,
  page_epoch_is_current, and_then, publication_is_current, confirmed, bulk_write_current,
  write_slices, flat_map, weigh, word_weights, sorted, insert_sorted, reconcile_words,
  reconcile_images, reconcile_state, reconcile_page, replace_page_images,
}
use mifolyo.Image.Mongo.Lock.{
  IsElsewhere, finds_state, reads_ids, replaces_state, deletes_images, writes_images, deletes_words,
  writes_words, IsUnique, Others, stay, acquires, releases, canonical_lock_is_exclusive,
}
use mifolyo.Image.Mongo.Confirmed.{Steps, replace_page_images-Steps}
use mifolyo.Image.Mongo.Replaced.{IsReplaced, replace_page_images-IsReplaced}

abbrev counted : Exec ℕ Bool
counted s = (ok true, record { world = suc s.world; owner_epoch = s.owner_epoch })

abbrev agreeing : Collections ℕ
agreeing = record {
  insert_lock = λ l. counted;
  find_lock = λ u t. pure true;
  delete_lock = λ u t. pure (true, 1);
  find_state = λ u. pure (some (some 2));
  image_ids = λ u. pure (codes "old" ∷ []);
  replace_state = λ f x. counted;
  delete_images = λ f. counted;
  write_images = λ us. counted;
  delete_words = λ f. counted;
  write_words = λ us. counted;
}

abbrev digest : Text → Text → Text
digest page_url source_url = page_url ++ source_url

abbrev split_name : Text → List Text
split_name t = t ∷ []

abbrev the_url : Text
the_url = codes "https://a.b/"

abbrev logo : ImageDocument
logo = record {
  association = codes "https://a.b/https://a.b/logo.png";
  source_url = codes "https://a.b/logo.png";
  page_url = the_url;
  alt = codes "logo";
  filename = codes "logo.png";
}

abbrev the_keywords : Dict ℕ
the_keywords = (codes "logo", 3) ∷ []

abbrev start : Session ℕ
start = record { world = 0; owner_epoch = some 2 }

abbrev replaced : Exec ℕ Bool
replaced =
    replace_page_images agreeing true digest split_name the_url (codes "id") (logo ∷ [])
      the_keywords 2 (codes "token") (pure true)

-- One write each of the state, the stale images, the images, the stale words and the words
abbrev finish : Session ℕ
finish = record { world = 5; owner_epoch = some 2 }

replaced_lem : replaced start ≡ (ok true, finish)
unfolding replace_page_images reconcile_page reconcile_state reconcile_images reconcile_words
    and_then publication_is_current confirmed bulk_write_current write_slices slices distinct
    any_image owns_canonical_lock page_epoch_is_current flat_map weigh word_weights sorted
    insert_sorted same contains less lookup insert
replaced_lem = refl

replace_page_images-Steps_example :
    Steps agreeing true the_url (codes "token") 2 (pure true) start (replaced start).1
replace_page_images-Steps_example =
    replace_page_images-Steps agreeing true the_url (codes "token") 2 (pure true) digest split_name
      (codes "id") (logo ∷ []) the_keywords start

replace_page_images-IsReplaced_example :
    IsReplaced agreeing true digest split_name the_url
      (codes "id")
      (logo ∷ [])
      the_keywords
      2
      (codes "token")
      (pure true)
      start
      finish
replace_page_images-IsReplaced_example =
    replace_page_images-IsReplaced agreeing true digest split_name the_url (codes "id") (logo ∷ [])
      the_keywords 2 (codes "token") (pure true) start finish replaced_lem

-- A collection of canonical locks that holds the lock of one page, by its owner.
abbrev inserted :
    Bool → Text → Option Text → Session (Option Text) → Outcome Bool × Session (Option Text)
inserted false owner held s = (ok true, s)
inserted true owner (some k) s = (raise mongo_error, s)
inserted true owner none s = (ok true, record { world = some owner; owner_epoch = s.owner_epoch })

abbrev deleted : Bool → Session (Option Text) → Outcome (Bool × ℕ) × Session (Option Text)
deleted true s = (ok (true, 1), record { world = none; owner_epoch = s.owner_epoch })
deleted false s = (ok (true, 0), s)

abbrev is_held : Text → Text → Option Text → Bool
is_held url k none = false
is_held url k (some owner) = same url the_url && same owner k

abbrev locks : Collections (Option Text)
locks = record {
  insert_lock = λ l s. inserted (same l.page_url the_url) l.owner_token s.world s;
  find_lock = λ u k s. (ok (is_held u k s.world), s);
  delete_lock = λ u k s. deleted (is_held u k s.world) s;
  find_state = λ u. pure none;
  image_ids = λ u. pure [];
  replace_state = λ f x. pure true;
  delete_images = λ f. pure true;
  write_images = λ us. pure true;
  delete_words = λ f. pure true;
  write_words = λ us. pure true;
}

inserted-keeps :
    (b : Bool) (owner k : Text) (held : Option Text) (s : Session (Option Text))
    → held ≡ s.world
    → held ≡ some k
    → (inserted b owner held s).1.world ≡ some k
inserted-keeps false owner k held s e h = sym e ∙ h
inserted-keeps true owner k (some o) s e h = sym e ∙ h
inserted-keeps true owner k none s e h = cc

inserted-taken :
    (b : Bool) (owner k : Text) (held : Option Text) (s : Session (Option Text))
    → b ≡ true
    → held ≡ some k
    → (inserted b owner held s).0 ≢ ok true
inserted-taken false owner k held s e h q = cc
inserted-taken true owner k (some o) s e h q = cc
inserted-taken true owner k none s e h q = cc

inserted-free :
    (b : Bool) (owner : Text) (held : Option Text) (s t : Session (Option Text))
    → b ≡ true
    → inserted b owner held s ≡ (ok true, t)
    → t.world ≡ some owner
inserted-free false owner held s t e q = cc
inserted-free true owner (some o) s t e q = cc
inserted-free true owner none s t e q = sym (ap (λ x. x.1.world) q)

both_true : (a b : Bool) → (a && b) ≡ true → b ≡ true
both_true true b h = h
both_true false b h = cc

is_held-some : (url k : Text) (held : Option Text) → is_held url k held ≡ true → held ≡ some k
is_held-some url k none h = cc
is_held-some url k (some o) h = ap some (same→eq o k (both_true (same url the_url) (same o k) h))

deleted-keeps : (b : Bool) (s : Session (Option Text)) → b ≢ true → (deleted b s).1.world ≡ s.world
deleted-keeps true s n = absurd (n refl)
deleted-keeps false s n = refl

same_url : (url : Text) → url ≡ the_url → same url the_url ≡ true
same_url url e = subst (λ x. same x the_url ≡ true) (sym e) (same_refl the_url)

elsewhere_refl :
    {A : Type 0} (m : Exec (Option Text) A)
    → IsElsewhere locks A m
    → (s : Session (Option Text)) → (m s).1.world ≡ s.world
elsewhere_refl _ (finds_state u) s = refl
elsewhere_refl _ (reads_ids u) s = refl
elsewhere_refl _ (replaces_state f x) s = refl
elsewhere_refl _ (deletes_images f) s = refl
elsewhere_refl _ (writes_images us) s = refl
elsewhere_refl _ (deletes_words f) s = refl
elsewhere_refl _ (writes_words us) s = refl

locks-IsUnique : IsUnique locks the_url (λ h. h)
locks-IsUnique = record {
  insert_keeps =
      λ l s k h. inserted-keeps (same l.page_url the_url) l.owner_token k s.world s refl h;
  insert_taken = λ l s k p h.
      inserted-taken (same l.page_url the_url) l.owner_token k s.world s (same_url l.page_url p) h;
  insert_free = λ l s t p q.
      inserted-free (same l.page_url the_url) l.owner_token s.world s t (same_url l.page_url p) q;
  delete_keeps =
      λ u k s n. deleted-keeps (is_held u k s.world) s (λ h. n (is_held-some u k s.world h));
  find_keeps = λ u k s. refl;
  elsewhere_keeps = elsewhere_refl;
}

abbrev free : Session (Option Text)
free = record { world = none; owner_epoch = some 2 }

abbrev taken : Session (Option Text)
taken = record { world = some (codes "first"); owner_epoch = some 2 }

-- The second client asks for the lock and tries to release it with its own token.
abbrev tried : Session (Option Text)
tried =
    (release_canonical_lock locks true the_url (codes "second")
      (acquire_canonical_lock locks true the_url (codes "second") (codes "b") 3 taken).1).1

first_acquires :
    acquire_canonical_lock locks true the_url (codes "first") (codes "a") 2 free ≡ (ok true, taken)
unfolding acquire_canonical_lock same
first_acquires = refl

other_token : codes "second" ≢ codes "first"
other_token h = cc

Others-try : Others locks true (codes "first") taken tried
Others-try =
    releases taken
      (acquire_canonical_lock locks true the_url (codes "second") (codes "b") 3 taken).1 the_url
      (codes "second") other_token
      (acquires taken taken the_url (codes "second") (codes "b") 3 (stay taken))

canonical_lock_is_exclusive_example :
    (acquire_canonical_lock locks true the_url (codes "second") (codes "b") 3 tried
      ≢ (ok true, tried))
    × (tried.world ≡ some (codes "first"))
canonical_lock_is_exclusive_example =
    canonical_lock_is_exclusive locks true the_url (λ h. h) locks-IsUnique (codes "first")
      (codes "a") (codes "second") (codes "b") 2 3 free taken tried tried first_acquires Others-try
