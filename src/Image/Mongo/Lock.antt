-- ===== src/Image/Mongo/Lock.antt =====
-- The canonical locks of services/image-indexer/data/mongo_client.py on a collection whose ids are unique.
use mifolyo.Base.{
  List, ◌≡◌, ◌≢◌, refl, sym, ap, ◌∙◌, Bool, true, false, not, ◌&&◌, ◌||◌, Option, some, ℕ,
}
use mifolyo.Base.{◌==◌, if◌then◌else◌}
use mifolyo.Base.Texts.{Text, codes}
use mifolyo.Fenced.Session.{Outcome, ok, raise, Session, Exec, ◌>>=◌, pure, or_else}
use mifolyo.Fenced.Session.Inversion.{or_else_inv}
use mifolyo.Image.Mongo.{
  Collections, CanonicalLock, FencedFilter, PageState, ImageUpdate, WordUpdate, is_empty,
  acquire_canonical_lock, owns_canonical_lock, release_canonical_lock,
}

-- A call of another collection than that of the locks.
pub data IsElsewhere {W : Type 0} (collections : Collections W)
    : (A : Type 0) → Exec W A → Type 1 where
  finds_state :
      (url : Text) → IsElsewhere collections (Option (Option ℕ)) (collections.find_state url)
  reads_ids : (url : Text) → IsElsewhere collections (List Text) (collections.image_ids url)
  replaces_state :
      (f : FencedFilter) (x : PageState)
      → IsElsewhere collections Bool (collections.replace_state f x)
  deletes_images : (f : FencedFilter) → IsElsewhere collections Bool (collections.delete_images f)
  writes_images :
      (us : List ImageUpdate) → IsElsewhere collections Bool (collections.write_images us)
  deletes_words : (f : FencedFilter) → IsElsewhere collections Bool (collections.delete_words f)
  writes_words : (us : List WordUpdate) → IsElsewhere collections Bool (collections.write_words us)

-- What MongoDB documents of the collection, for the lock of one page: an insertion fails when the id is
-- there, a deletion takes the document of exactly that id and owner, and a search changes
-- nothing.
pub record IsUnique {W : Type 0} (collections : Collections W) (page_url : Text)
    (holder : W → Option Text) : Type 1 where
  pub insert_keeps :
      (l : CanonicalLock) (s : Session W) (k : Text)
      → holder s.world ≡ some k
      → holder (collections.insert_lock l s).1.world ≡ some k
  pub insert_taken :
      (l : CanonicalLock) (s : Session W) (k : Text)
      → l.page_url ≡ page_url
      → holder s.world ≡ some k
      → (collections.insert_lock l s).0 ≢ ok true
  pub insert_free :
      (l : CanonicalLock) (s t : Session W)
      → l.page_url ≡ page_url
      → collections.insert_lock l s ≡ (ok true, t)
      → holder t.world ≡ some l.owner_token
  pub delete_keeps :
      (url k : Text) (s : Session W)
      → holder s.world ≢ some k
      → holder (collections.delete_lock url k s).1.world ≡ holder s.world
  pub find_keeps :
      (url k : Text) (s : Session W)
      → holder (collections.find_lock url k s).1.world ≡ holder s.world
  -- The other collections hold no locks.
  pub elsewhere_keeps :
      {A : Type 0} (m : Exec W A)
      → IsElsewhere collections A m
      → (s : Session W) → holder (m s).1.world ≡ holder s.world

module _ {W A : Type 0} (holder : W → Option Text) where
  or_else-world : (m : Exec W A) (a : A) (s : Session W) → (or_else m a s).1 ≡ (m s).1
  or_else-world m a s = go (m s)
    where
      go : (x : Outcome A × Session W) → (or_else (λ (v : Session W). x) a s).1 ≡ x.1
      go (ok b, t) = refl
      go (raise e, t) = refl

  bind-world :
      {B : Type 0} (m : Exec W B) (f : B → A) (s : Session W)
      → ((m >>= λ b. pure (f b)) s).1 ≡ (m s).1
  bind-world {B} m f s = go (m s)
    where
      go : (x : Outcome B × Session W) → (((λ (v : Session W). x) >>= λ b. pure (f b)) s).1 ≡ x.1
      go (ok b, t) = refl
      go (raise e, t) = refl

module _ {W : Type 0} (collections : Collections W) (connected : Bool) where
  -- What any clients do, of any service, as long as none deletes a lock with the token k: the calls of the
  -- methods, any other insertion, deletion or search of locks, and any call of the other collections.
  pub data Others (k : Text) : Session W → Session W → Type 1 where
    stay : (s : Session W) → Others k s s
    inserts :
        (s t : Session W) (l : CanonicalLock)
        → Others k s t
        → Others k s (collections.insert_lock l t).1
    deletes :
        (s t : Session W) (url o : Text)
        → o ≢ k
        → Others k s t
        → Others k s (collections.delete_lock url o t).1
    finds :
        (s t : Session W) (url o : Text)
        → Others k s t
        → Others k s (collections.find_lock url o t).1
    elsewhere :
        (s t : Session W) (A : Type 0) (m : Exec W A)
        → IsElsewhere collections A m
        → Others k s t
        → Others k s (m t).1
    acquires :
        (s t : Session W) (url o id : Text) (e : ℕ)
        → Others k s t
        → Others k s (acquire_canonical_lock collections connected url o id e t).1
    owns :
        (s t : Session W) (url o : Text)
        → Others k s t
        → Others k s (owns_canonical_lock collections connected url o t).1
    releases :
        (s t : Session W) (url o : Text)
        → o ≢ k
        → Others k s t
        → Others k s (release_canonical_lock collections connected url o t).1
    other_client :
        (s t : Session W) (n : Option ℕ)
        → Others k s t
        → Others k s (record { world = t.world; owner_epoch = n })

  module _ (page_url : Text) (holder : W → Option Text)
      (law : IsUnique collections page_url holder) where
    abbrev lock_of : Text → Text → Text → ℕ → CanonicalLock
    lock_of url o id e = record {
      page_url = url;
      owner_token = o;
      service = codes "image-indexer";
      publication_id = id;
      fence_epoch = e;
    }

    acquire-keeps :
        (url o id k : Text) (e : ℕ) (s : Session W)
        → holder s.world ≡ some k
        → holder (acquire_canonical_lock collections connected url o id e s).1.world ≡ some k
    unfolding acquire_canonical_lock
    acquire-keeps url o id k e s h = go (not connected || is_empty url || is_empty o)
      where
        m : Exec W Bool
        m = collections.insert_lock (lock_of url o id e)

        go : (b : Bool) → holder ((if b then pure false else or_else m false) s).1.world ≡ some k
        go true = h
        go false =
            ap (λ x. holder x.world) (or_else-world holder m false s)
            ∙ law.insert_keeps (lock_of url o id e) s k h

    owns-keeps :
        (url o : Text) (s : Session W)
        → holder (owns_canonical_lock collections connected url o s).1.world ≡ holder s.world
    unfolding owns_canonical_lock
    owns-keeps url o s = go connected
      where
        go :
            (b : Bool)
            → holder
                ((if b then or_else (collections.find_lock url o) false else pure false) s).1.world
              ≡ holder s.world
        go true =
            ap (λ x. holder x.world) (or_else-world holder (collections.find_lock url o) false s)
            ∙ law.find_keeps url o s
        go false = refl

    release-keeps :
        (url o k : Text) (s : Session W)
        → o ≢ k
        → holder s.world ≡ some k
        → holder (release_canonical_lock collections connected url o s).1.world ≡ some k
    unfolding release_canonical_lock
    release-keeps url o k s n h = go connected
      where
        deletes : Exec W Bool
        deletes = collections.delete_lock url o >>= λ (acknowledged, deleted).
            pure (acknowledged && deleted == 1)

        foreign : holder s.world ≢ some o
        foreign q = n (some_injective (sym q ∙ h))
          where
            some_injective : ◌≡◌ {A = Option Text} (some o) (some k) → o ≡ k
            some_injective e = cc

        go :
            (b : Bool)
            → holder ((if b then or_else deletes false else pure false) s).1.world ≡ some k
        go true =
            ap (λ x. holder x.world) (or_else-world holder deletes false s)
            ∙ ap (λ x. holder x.world)
                (bind-world holder (collections.delete_lock url o) (λ x. x.0 && x.1 == 1) s)
            ∙ law.delete_keeps url o s foreign
            ∙ h
        go false = h

    held_by :
        (o k : Text) (t : Session W) → holder t.world ≡ some o → holder t.world ≡ some k → o ≡ k
    held_by o k t q h = cc

    Others-keep :
        (k : Text) (s t : Session W)
        → Others k s t
        → holder s.world ≡ some k
        → holder t.world ≡ some k
    Others-keep k _ _ (stay s) h = h
    Others-keep k _ _ (acquires s t url o id e p) h =
        acquire-keeps url o id k e t (Others-keep k s t p h)
    Others-keep k _ _ (owns s t url o p) h = owns-keeps url o t ∙ Others-keep k s t p h
    Others-keep k _ _ (releases s t url o n p) h = release-keeps url o k t n (Others-keep k s t p h)
    Others-keep k _ _ (inserts s t l p) h = law.insert_keeps l t k (Others-keep k s t p h)
    Others-keep k _ _ (deletes s t url o n p) h =
        law.delete_keeps url o t (λ q. n (held_by o k t q (Others-keep k s t p h)))
        ∙ Others-keep k s t p h
    Others-keep k _ _ (finds s t url o p) h = law.find_keeps url o t ∙ Others-keep k s t p h
    Others-keep k _ _ (elsewhere s t A m e p) h = law.elsewhere_keeps m e t ∙ Others-keep k s t p h
    Others-keep k _ _ (other_client s t n p) h = Others-keep k s t p h

    acquire_inv :
        (o id : Text) (e : ℕ) (s t : Session W)
        → acquire_canonical_lock collections connected page_url o id e s ≡ (ok true, t)
        → collections.insert_lock (lock_of page_url o id e) s ≡ (ok true, t)
    unfolding acquire_canonical_lock
    acquire_inv o id e s t h = go (not connected || is_empty page_url || is_empty o) h
      where
        m : Exec W Bool
        m = collections.insert_lock (lock_of page_url o id e)

        go :
            (b : Bool)
            → (if b then pure false else or_else m false) s ≡ (ok true, t)
            → m s ≡ (ok true, t)
        go true q = cc
        go false q = or_else_inv m s t q

    -- On a collection of locks with unique ids: a client that has acquired the canonical lock of a page
    -- keeps it through any sequence of method calls, of insertions, deletions and searches of locks by
    -- any client and service, and of calls of the other collections, in which no lock is deleted with
    -- the owner's token; and afterwards no client acquires it.
    pub canonical_lock_is_exclusive :
        (k id o id' : Text) (e e' : ℕ) (s t u v : Session W)
        → acquire_canonical_lock collections connected page_url k id e s ≡ (ok true, t)
        → Others k t u
        → (acquire_canonical_lock collections connected page_url o id' e' u ≢ (ok true, v))
          × (holder u.world ≡ some k)
    canonical_lock_is_exclusive k id o id' e e' s t u v h p = (
      (λ q.
          law.insert_taken (lock_of page_url o id' e') u k refl held
            (ap (λ x. x.0) (acquire_inv o id' e' u v q))),
      held,
    )
      where
        held : holder u.world ≡ some k
        held =
            Others-keep k t u p
              (law.insert_free (lock_of page_url k id e) s t refl (acquire_inv k id e s t h))
