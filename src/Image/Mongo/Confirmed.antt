-- ===== src/Image/Mongo/Confirmed.antt =====
-- The writes of replace_page_images in services/image-indexer/data/mongo_client.py.
use mifolyo.Base.{none, some, ◌↔◌, ◌≤◌, arith}
use mifolyo.Base.{◌≡◌, refl, subst, Bool, true, false, not, ◌||◌}
use mifolyo.Base.{List, [], ◌∷◌, ◌++◌, ℕ, zero, suc}
use mifolyo.Base.{All, All-append, All-take, All-drop, All-map, length, ltb, if◌then◌else◌}
use mifolyo.Base.Texts.{Text}
use mifolyo.Base.Dict.{Dict}
use mifolyo.Fenced.Session.{
  Outcome, ok, raise, Session, Exec, ◌>>=◌, pure, throw, or_else, value_error,
}
use mifolyo.Fenced.Session.Inversion.{Branch}
use mifolyo.Image.Mongo.{
  Identity, page_state, stale_words, FencedFilter, fence_of, admits, ImageDocument, ImageUpdate,
  WordUpdate, PageState, Collections, is_empty, mongo_batch_size, slices, distinct, any_image,
  page_epoch_is_current, is_epoch, and_then, fenced, publication_is_current, confirmed,
  bulk_write_current, write_slices, state, flat_map, reconcile_words, reconcile_images,
  reconcile_state, reconcile_page, replace_page_images,
}

-- The fence of an epoch takes the documents without a fence epoch and those of no later one.
fence_of-admits :
    (fence_epoch epoch : ℕ)
    → (admits (fence_of fence_epoch) none ≡ true)
      × ((admits (fence_of fence_epoch) (some epoch) ≡ true) ↔ (epoch ≤ fence_epoch))
unfolding admits
fence_of-admits fence_epoch epoch = (refl, (λ h. ground arith, λ h. ground arith))

module _ {W : Type 0} (collections : Collections W) (connected : Bool) (page_url token : Text)
    (fence_epoch : ℕ) (owner_check : Exec W Bool) where
  abbrev current : Bool → Exec W Bool
  current = publication_is_current collections connected page_url token fence_epoch owner_check

  abbrev filter_of : Identity → FencedFilter
  filter_of identity = record { identity = identity; fence = fence_of fence_epoch }

  abbrev IsFencedImage : ImageUpdate → Type 0
  IsFencedImage u = u.filter.fence ≡ fence_of fence_epoch

  abbrev IsFencedWord : WordUpdate → Type 0
  IsFencedWord u = u.filter.fence ≡ fence_of fence_epoch

  -- A write of images or of words, all under the fence of the epoch.
  pub data IsWrite : Exec W Bool → Type 0 where
    deletes_images : (i : Identity) → IsWrite (collections.delete_images (filter_of i))
    writes_images :
        (us : List ImageUpdate) → All IsFencedImage us → IsWrite (collections.write_images us)
    deletes_words : (i : Identity) → IsWrite (collections.delete_words (filter_of i))
    writes_words :
        (us : List WordUpdate) → All IsFencedWord us → IsWrite (collections.write_words us)

  -- From one state to another by reads and confirmations, by writes that directly follow a confirmation
  -- that the publication is current, and by one that replaces the page's state after a confirmation of
  -- both locks and a read.
  pub data Steps : Session W → Session W → Type 0 where
    stays : (s : Session W) → Steps s s
    joins : (s t u : Session W) → Steps s t → Steps t u → Steps s u
    confirms : (b : Bool) (s : Session W) → Steps s (current b s).1
    reads_state : (s : Session W) → Steps s (collections.find_state page_url s).1
    reads_ids : (s : Session W) → Steps s (collections.image_ids page_url s).1
    writes :
        (u s : Session W) (m : Exec W Bool)
        → current true u ≡ (ok true, s)
        → IsWrite m
        → Steps s (m s).1
    claims_page :
        (u s t : Session W) (ids : List Text) (x : PageState)
        → current false u ≡ (ok true, s)
        → collections.image_ids page_url s ≡ (ok ids, t)
        → Steps t (collections.replace_state (filter_of (page_state page_url)) x t).1

  abbrev Goes : Exec W Bool → Type 0
  Goes m = (s : Session W) → Steps s (m s).1

  pure-Goes : (b : Bool) → Goes (pure b)
  pure-Goes b s = stays s

  bind-Steps :
      {A : Type 0} (m : Exec W A) (f : A → Exec W Bool) (s : Session W)
      → Steps s (m s).1
      → ((a : A) (t : Session W) → m s ≡ (ok a, t) → Steps t (f a t).1)
      → Steps s ((m >>= f) s).1
  bind-Steps {A} m f s h g = go (m s) refl
    where
      go : (x : Outcome A × Session W) → m s ≡ x → Steps s (((λ (v : Session W). x) >>= f) s).1
      go (ok a, t) e = joins s t (f a t).1 (subst (λ x. Steps s x.1) e h) (g a t e)
      go (raise r, t) e = subst (λ x. Steps s x.1) e h

  and_then-Steps :
      (m n : Exec W Bool) (s : Session W)
      → Steps s (m s).1
      → ((t : Session W) → m s ≡ (ok true, t) → Steps t (n t).1)
      → Steps s (and_then m n s).1
  unfolding and_then
  and_then-Steps m n s h g = bind-Steps m (Branch (pure false) n) s h next
    where
      next : (b : Bool) (t : Session W) → m s ≡ (ok b, t) → Steps t (Branch (pure false) n b t).1
      next false t e = stays t
      next true t e = g t e

  and_then-Goes : (m n : Exec W Bool) → Goes m → Goes n → Goes (and_then m n)
  and_then-Goes m n g h s = and_then-Steps m n s (g s) (λ t e. h t)

  or_else-Goes : (m : Exec W Bool) (b : Bool) → Goes m → Goes (or_else m b)
  or_else-Goes m b g s = go (m s) (g s)
    where
      go :
          (x : Outcome Bool × Session W)
          → Steps s x.1
          → Steps s (or_else (λ (v : Session W). x) b s).1
      go (ok a, t) h = h
      go (raise r, t) h = h

  confirmed-Goes :
      (m : Exec W Bool)
      → IsWrite m
      → Goes (confirmed collections connected page_url token fence_epoch owner_check m)
  unfolding confirmed
  confirmed-Goes m h s =
      and_then-Steps (current true) m s (confirms true s) (λ t e. writes s t m e h)

  -- A confirmed write whose filter is made after the confirmation.
  fenced-Goes :
      (i : Identity) (f : FencedFilter → Exec W Bool)
      → IsWrite (f (filter_of i))
      → Goes (
          confirmed collections connected page_url token fence_epoch owner_check
            (fenced i fence_epoch f))
  unfolding confirmed
  fenced-Goes i f h s =
      and_then-Steps (current true) _ s (confirms true s) (λ t e. go (ltb fence_epoch 1) s t e)
    where
      go :
          (b : Bool) (s t : Session W)
          → current true s ≡ (ok true, t)
          → Steps t
              ((elim b as (λ _. Exec W Bool) [ true ↦ throw value_error | false ↦ f (filter_of i) ])
                t).1
      go true s t e = stays t
      go false s t e = writes s t (f (filter_of i)) e h

  slices-Goes :
      (xs : List (List ImageUpdate))
      → All (All IsFencedImage) xs
      → Goes (write_slices collections connected page_url token fence_epoch owner_check xs)
  unfolding write_slices
  slices-Goes [] h = pure-Goes true
  slices-Goes (x ∷ xs) h =
      and_then-Goes _ _ (confirmed-Goes _ (writes_images x h.0)) (slices-Goes xs h.1)

  bulk-Goes :
      (batch operations : List WordUpdate)
      → All IsFencedWord batch
      → All IsFencedWord operations
      → Goes (
          bulk_write_current collections connected page_url token fence_epoch owner_check batch
            operations)
  unfolding bulk_write_current
  bulk-Goes [] [] p h = pure-Goes true
  bulk-Goes (x ∷ batch) [] p h = confirmed-Goes _ (writes_words (x ∷ batch) p)
  bulk-Goes batch (x ∷ xs) p h =
      go (ltb (length (batch ++ (x ∷ []))) mongo_batch_size)
        (bulk-Goes (batch ++ (x ∷ [])) xs longer h.1) (bulk-Goes [] xs tt h.1)
    where
      longer : All IsFencedWord (batch ++ (x ∷ []))
      longer = All-append IsFencedWord batch (x ∷ []) p (h.0, tt)

      rest : List WordUpdate → Exec W Bool
      rest b = bulk_write_current collections connected page_url token fence_epoch owner_check b xs

      full : Exec W Bool
      full =
          and_then
            (confirmed collections connected page_url token fence_epoch owner_check
              (collections.write_words (batch ++ (x ∷ []))))
            (rest [])

      go :
          (b : Bool)
          → Goes (rest (batch ++ (x ∷ [])))
          → Goes (rest [])
          → Goes (elim b as (λ _. Exec W Bool) [ true ↦ rest (batch ++ (x ∷ [])) | false ↦ full ])
      go true g h = g
      go false g h =
          and_then-Goes _ _ (confirmed-Goes _ (writes_words (batch ++ (x ∷ [])) longer)) h

  slices-IsFenced :
      (n : ℕ) (xs : List ImageUpdate) → All IsFencedImage xs → All (All IsFencedImage) (slices n xs)
  unfolding slices
  slices-IsFenced zero xs h = tt
  slices-IsFenced (suc n) [] h = tt
  slices-IsFenced (suc n) (x ∷ xs) h = (
    All-take IsFencedImage mongo_batch_size (x ∷ xs) h,
    slices-IsFenced n _ (All-drop IsFencedImage mongo_batch_size (x ∷ xs) h),
  )

  flat_map-IsFenced :
      {A : Type 0} (f : A → List WordUpdate)
      → ((x : A) → All IsFencedWord (f x))
      → (xs : List A) → All IsFencedWord (flat_map f xs)
  unfolding flat_map
  flat_map-IsFenced f h [] = tt
  flat_map-IsFenced f h (x ∷ xs) = All-append IsFencedWord (f x) _ (h x) (flat_map-IsFenced f h xs)

  epoch-Goes : Goes (page_epoch_is_current collections connected page_url fence_epoch)
  unfolding page_epoch_is_current
  epoch-Goes s =
      bind-Steps (collections.find_state page_url) (λ state. pure (is_epoch fence_epoch state)) s
        (reads_state s) (λ a t e. stays t)

  module _ (digest : Text → Text → Text) (split_name : Text → List Text) (publication_id : Text)
      (images : List ImageDocument) (keywords : Dict ℕ) where
    words-Goes :
        (ids : List Text)
        → Goes (
            reconcile_words collections connected digest split_name page_url publication_id images
              keywords fence_epoch token owner_check ids)
    unfolding reconcile_words
    words-Goes ids =
        and_then-Goes _ _
          (fenced-Goes (stale_words page_url ids) collections.delete_words (deletes_words _))
          (and_then-Goes _ _
            (bulk-Goes [] _ tt
              (flat_map-IsFenced _ (λ image. All-map _ IsFencedWord (λ x. refl) _) images))
            (λ s. confirms true s))

    images-Goes :
        (ids : List Text)
        → Goes (
            reconcile_images collections connected digest split_name page_url publication_id images
              keywords fence_epoch token owner_check ids)
    unfolding reconcile_images
    images-Goes ids =
        and_then-Goes _ _ (fenced-Goes _ collections.delete_images (deletes_images _)) (
          and_then-Goes _ _
            (slices-Goes _ (slices-IsFenced _ _ (All-map _ IsFencedImage (λ x. refl) images)))
            (words-Goes ids))

    state-Steps :
        (s t u : Session W) (ids : List Text)
        → current false s ≡ (ok true, t)
        → collections.image_ids page_url t ≡ (ok ids, u)
        → Steps u
            (reconcile_state collections connected digest split_name page_url publication_id images
              keywords fence_epoch token owner_check ids u).1
    unfolding reconcile_state
    state-Steps s t u ids e f =
        and_then-Steps
          (fenced (page_state page_url) fence_epoch (λ filter. collections.replace_state filter x))
          _ u (claims (ltb fence_epoch 1)) (λ v g. and_then-Goes _ _ epoch-Goes (images-Goes ids) v)
      where
        x : PageState
        x =
            state collections connected digest split_name page_url publication_id images keywords
              fence_epoch token owner_check

        claims :
            (b : Bool)
            → Steps u
                ((elim b as (λ _. Exec W Bool) [
                  | true ↦ throw value_error
                  | false ↦ collections.replace_state (filter_of (page_state page_url)) x
                ])
                  u).1
        claims true = stays u
        claims false = claims_page s t u ids x e f

    page-Goes : Goes (
        reconcile_page collections connected digest split_name page_url publication_id images
          keywords fence_epoch token owner_check)
    unfolding reconcile_page
    page-Goes s = and_then-Steps (current false) _ s (confirms false s) (λ t e.
        bind-Steps (collections.image_ids page_url)
          (reconcile_state collections connected digest split_name page_url publication_id images
            keywords fence_epoch token owner_check)
          t (reads_ids t) (λ ids u f. state-Steps s t u ids e f))

    -- Whatever the collections answer and raise, replace_page_images consists of reads and confirmations,
    -- of writes of images and words that directly follow a confirmation that the publication is current
    -- (the owner check, the canonical lock and the page's epoch), and of replacements of the page's state
    -- after a confirmation of both locks and one read; every write is under the fence of the client's
    -- epoch.
    pub replace_page_images-Steps :
        (s : Session W)
        → Steps s
            (replace_page_images collections connected digest split_name page_url publication_id
              images keywords fence_epoch token owner_check s).1
    unfolding replace_page_images
    replace_page_images-Steps =
        refused (not connected || is_empty page_url || not (distinct _) || any_image _ images)
      where
        refused :
            (b : Bool)
            → Goes (
                if b
                then pure false
                else or_else
                    (reconcile_page collections connected digest split_name page_url publication_id
                      images keywords fence_epoch token owner_check)
                    false)
        refused true = pure-Goes false
        refused false = or_else-Goes _ false page-Goes
