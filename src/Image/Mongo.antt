-- ===== src/Image/Mongo.antt =====
-- The MongoDB client of services/image-indexer/data/mongo_client.py: the canonical locks, and the
-- replacement of the images of a page.
pub mod Written
pub mod Lock
pub mod Runs
pub mod Confirmed
pub mod Replaced
use mifolyo.Base.{Bool, true, false, not, ◌&&◌, ◌||◌, Option, none, some}
use mifolyo.Base.{List, [], ◌∷◌, ◌++◌, map, ℕ, zero, suc, ◌*◌}
use mifolyo.Base.{length, take, drop, ltb, leb, ◌==◌, if◌then◌else◌}
use mifolyo.Base.Texts.{Text, codes, same, contains, less}
use mifolyo.Base.Dict.{Dict, lookup, insert}
use mifolyo.Fenced.Session.{Exec, ◌>>=◌, pure, throw, or_else, value_error}

-- What a filter selects apart from the fence.
pub data Identity : Type 0 where
  -- {"_id": page_url} of image_page_state
  page_state : Text → Identity
  -- {"page_url": page_url, "_id": {"$nin": association_ids}} of images
  stale_images : Text → List Text → Identity
  -- {"_id": association_id} of images
  one_image : Text → Identity
  -- the selector of stale words, by the page's URL and the association ids found before
  stale_words : Text → List Text → Identity
  -- {"word": word, "association_id": association_id} of word_images
  one_word : Text → Text → Identity

-- {"fence_epoch": {"$exists": False}} and {"fence_epoch": {"$lte": n}}
pub data FenceClause : Type 0 where
  fence_absent : FenceClause
  fence_at_most : ℕ → FenceClause

-- {"$and": [identity, {"$or": fence}]}
pub record FencedFilter : Type 0 where
  pub identity : Identity
  pub fence : List FenceClause

abbrev pub fence_of : ℕ → List FenceClause
fence_of fence_epoch = fence_absent ∷ fence_at_most fence_epoch ∷ []

-- Whether one clause, or one of several, takes a document with this fence epoch or without any.
abbrev pub clause_admits : FenceClause → Option ℕ → Bool
clause_admits fence_absent none = true
clause_admits fence_absent (some epoch) = false
clause_admits (fence_at_most n) none = false
clause_admits (fence_at_most n) (some epoch) = leb epoch n

unfoldable pub admits : List FenceClause → Option ℕ → Bool
admits [] epoch = false
admits (clause ∷ clauses) epoch = clause_admits clause epoch || admits clauses epoch

-- A document of canonical_url_ownership_locks, without the time of its insertion.
pub record CanonicalLock : Type 0 where
  pub page_url : Text
  pub owner_token : Text
  pub service : Text
  pub publication_id : Text
  pub fence_epoch : ℕ

-- An image with its association id.
pub record ImageDocument : Type 0 where
  pub association : Text
  pub source_url : Text
  pub page_url : Text
  pub alt : Text
  pub filename : Text

pub record PageState : Type 0 where
  pub page_url : Text
  pub publication_id : Text
  pub association_ids : List Text
  pub source_urls : List Text
  pub image_count : ℕ
  pub fence_epoch : ℕ

pub record ImageUpdate : Type 0 where
  pub filter : FencedFilter
  pub image : ImageDocument
  pub publication_id : Text
  pub fence_epoch : ℕ

pub record WordUpdate : Type 0 where
  pub filter : FencedFilter
  pub word : Text
  pub association_id : Text
  pub weight : ℕ
  pub page_url : Text
  pub publication_id : Text
  pub fence_epoch : ℕ

-- The calls of the collections. A write returns whether it was acknowledged; every call may raise.
pub record Collections (W : Type 0) : Type 0 where
  pub insert_lock : CanonicalLock → Exec W Bool
  pub find_lock : Text → Text → Exec W Bool
  pub delete_lock : Text → Text → Exec W (Bool × ℕ)
  -- A document of image_page_state, by its fence epoch.
  pub find_state : Text → Exec W (Option (Option ℕ))
  pub image_ids : Text → Exec W (List Text)
  pub replace_state : FencedFilter → PageState → Exec W Bool
  pub delete_images : FencedFilter → Exec W Bool
  pub write_images : List ImageUpdate → Exec W Bool
  pub delete_words : FencedFilter → Exec W Bool
  pub write_words : List WordUpdate → Exec W Bool

abbrev pub is_empty : {A : Type 0} → List A → Bool
is_empty [] = true
is_empty (x ∷ xs) = false

unfoldable pub insert_sorted : {A : Type 0} → (A → Text) → A → List A → List A
insert_sorted key x [] = x ∷ []
insert_sorted key x (y ∷ ys) =
    let rest = insert_sorted key x ys in if less (key y) (key x) then y ∷ rest else x ∷ y ∷ ys

-- `sorted`
unfoldable pub sorted : {A : Type 0} → (A → Text) → List A → List A
sorted key [] = []
sorted key (x ∷ xs) = insert_sorted key x (sorted key xs)

-- `len(xs) == len(set(xs))`
unfoldable pub distinct : List Text → Bool
distinct [] = true
distinct (x ∷ xs) = not (contains x xs) && distinct xs

unfoldable pub any_image : (ImageDocument → Bool) → List ImageDocument → Bool
any_image f [] = false
any_image f (x ∷ xs) = f x || any_image f xs

unfoldable pub flat_map : {A B : Type 0} → (A → List B) → List A → List B
flat_map f [] = []
flat_map f (x ∷ xs) = f x ++ flat_map f xs

abbrev pub mongo_batch_size : ℕ
mongo_batch_size = 500

-- The slices from each offset on, for at most the given number of offsets
unfoldable pub slices : {A : Type 0} → ℕ → List A → List (List A)
slices zero xs = []
slices (suc n) [] = []
slices (suc n) (x ∷ xs) = take mongo_batch_size (x ∷ xs) ∷ slices n (drop mongo_batch_size (x ∷ xs))

abbrev pub name_weight : Option ℕ → ℕ
name_weight (some weight) = weight * 100
name_weight none = 30

-- Each word of the image's names weighs a hundred times its keyword.
unfoldable pub weigh : Dict ℕ → List Text → Dict ℕ → Dict ℕ
weigh keywords [] weights = weights
weigh keywords (word ∷ words) weights =
    weigh keywords words (insert word (name_weight (lookup word keywords)) weights)

unfoldable pub word_weights : (Text → List Text) → ImageDocument → Dict ℕ → Dict ℕ
word_weights split_name image keywords =
    weigh keywords (split_name image.filename ++ split_name image.alt) keywords

abbrev pub is_epoch : ℕ → Option (Option ℕ) → Bool
is_epoch fence_epoch (some (some epoch)) = epoch == fence_epoch
is_epoch fence_epoch _ = false

module _ {W : Type 0} where
  -- `if not m: return False`
  unfoldable pub and_then : Exec W Bool → Exec W Bool → Exec W Bool
  and_then m n = m >>= λ done. elim done [ false ↦ pure false | true ↦ n ]

  -- A filter is not made for an epoch below 1.
  abbrev pub fenced : {A : Type 0} → Identity → ℕ → (FencedFilter → Exec W A) → Exec W A
  fenced identity fence_epoch f = elim (ltb fence_epoch 1) [
    | true ↦ throw value_error
    | false ↦ f (record { identity = identity; fence = fence_of fence_epoch })
  ]

module _ {W : Type 0} (collections : Collections W) (connected : Bool) where
  unfoldable pub acquire_canonical_lock : Text → Text → Text → ℕ → Exec W Bool
  acquire_canonical_lock page_url owner_token publication_id fence_epoch =
      if not connected || is_empty page_url || is_empty owner_token
      then pure false
      else or_else
          (collections.insert_lock (record {
            page_url = page_url;
            owner_token = owner_token;
            service = codes "image-indexer";
            publication_id = publication_id;
            fence_epoch = fence_epoch;
          }))
          false

  unfoldable pub owns_canonical_lock : Text → Text → Exec W Bool
  owns_canonical_lock page_url owner_token =
      if connected then or_else (collections.find_lock page_url owner_token) false else pure false

  unfoldable pub release_canonical_lock : Text → Text → Exec W Bool
  release_canonical_lock page_url owner_token =
      if connected
      then or_else
          (collections.delete_lock page_url owner_token >>= λ (acknowledged, deleted).
            pure (acknowledged && deleted == 1))
          false
      else pure false

  unfoldable pub page_epoch_is_current : Text → ℕ → Exec W Bool
  page_epoch_is_current page_url fence_epoch =
      collections.find_state page_url >>= λ state. pure (is_epoch fence_epoch state)

  module _ (page_url token : Text) (fence_epoch : ℕ) (owner_check : Exec W Bool) where
    unfoldable pub publication_is_current : Bool → Exec W Bool
    publication_is_current require_epoch = and_then owner_check (
        and_then (owns_canonical_lock page_url token) (elim require_epoch [
          | false ↦ pure true
          | true ↦ page_epoch_is_current page_url fence_epoch
        ]))

    -- A write, after the publication is found to be current
    unfoldable pub confirmed : Exec W Bool → Exec W Bool
    confirmed write = and_then (publication_is_current true) write

    -- The words that are left, after those of the batch that is being filled
    unfoldable pub bulk_write_current : List WordUpdate → List WordUpdate → Exec W Bool
    bulk_write_current batch [] = elim (is_empty batch) [
      | true ↦ pure true
      | false ↦ confirmed (collections.write_words batch)
    ]
    bulk_write_current batch (operation ∷ operations) =
        elim (ltb (length (batch ++ (operation ∷ []))) mongo_batch_size) [
          | true ↦ bulk_write_current (batch ++ (operation ∷ [])) operations
          | false ↦
              and_then (confirmed (collections.write_words (batch ++ (operation ∷ []))))
                (bulk_write_current [] operations)
        ]

    unfoldable pub write_slices : List (List ImageUpdate) → Exec W Bool
    write_slices [] = pure true
    write_slices (slice ∷ rest) =
        and_then (confirmed (collections.write_images slice)) (write_slices rest)

  module _ (digest : Text → Text → Text) (split_name : Text → List Text)
      (page_url publication_id : Text) (images : List ImageDocument) (keywords : Dict ℕ)
      (fence_epoch : ℕ) (token : Text) (owner_check : Exec W Bool) where
    abbrev pub association_ids : List Text
    association_ids = map (λ (x : ImageDocument). x.association) images

    abbrev pub source_urls : List Text
    source_urls = map (λ (x : ImageDocument). x.source_url) images

    abbrev pub is_foreign : ImageDocument → Bool
    is_foreign image =
        not (same image.page_url page_url)
        || not (same image.association (digest page_url image.source_url))

    abbrev pub state : PageState
    state = record {
      page_url = page_url;
      publication_id = publication_id;
      association_ids = sorted (λ x. x) association_ids;
      source_urls = sorted (λ x. x) source_urls;
      image_count = length association_ids;
      fence_epoch = fence_epoch;
    }

    -- The filters of the operations are those of `fenced`: the epoch has been tested before.
    abbrev pub image_operation : ImageDocument → ImageUpdate
    image_operation image = record {
      filter = record { identity = one_image image.association; fence = fence_of fence_epoch };
      image = image;
      publication_id = publication_id;
      fence_epoch = fence_epoch;
    }

    abbrev pub word_operation : ImageDocument → Text × ℕ → WordUpdate
    word_operation image (word, weight) = record {
      filter = record { identity = one_word word image.association; fence = fence_of fence_epoch };
      word = word;
      association_id = image.association;
      weight = weight;
      page_url = page_url;
      publication_id = publication_id;
      fence_epoch = fence_epoch;
    }

    abbrev pub word_operations : List WordUpdate
    word_operations =
        flat_map
          (λ image.
            map (word_operation image) (sorted (λ x. x.0) (word_weights split_name image keywords)))
          images

    -- The words, after the images
    unfoldable pub reconcile_words : List Text → Exec W Bool
    reconcile_words old_association_ids =
        and_then
          (confirmed page_url token fence_epoch owner_check (
            fenced (stale_words page_url old_association_ids) fence_epoch collections.delete_words))
          (and_then (bulk_write_current page_url token fence_epoch owner_check [] word_operations)
            (publication_is_current page_url token fence_epoch owner_check true))

    unfoldable pub reconcile_images : List Text → Exec W Bool
    reconcile_images old_association_ids =
        and_then
          (confirmed page_url token fence_epoch owner_check
            (fenced (stale_images page_url association_ids) fence_epoch collections.delete_images))
          (and_then
            (write_slices page_url token fence_epoch owner_check
              (slices (length images) (map image_operation images)))
            (reconcile_words old_association_ids))

    -- The page's state, before its images
    unfoldable pub reconcile_state : List Text → Exec W Bool
    reconcile_state old_association_ids =
        and_then
          (fenced (page_state page_url) fence_epoch
            (λ filter. collections.replace_state filter state))
          (and_then (page_epoch_is_current page_url fence_epoch)
            (reconcile_images old_association_ids))

    unfoldable pub reconcile_page : Exec W Bool
    reconcile_page =
        and_then (publication_is_current page_url token fence_epoch owner_check false)
          (collections.image_ids page_url >>= reconcile_state)

    unfoldable pub replace_page_images : Exec W Bool
    replace_page_images =
        if not connected
          || is_empty page_url
          || not (distinct association_ids)
          || any_image is_foreign images
        then pure false
        else or_else reconcile_page false
