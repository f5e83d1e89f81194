-- ===== src/Image/Mongo/Replaced.antt =====
-- When replace_page_images of services/image-indexer/data/mongo_client.py has succeeded.
use mifolyo.Base.{◌≡◌, Bool, true, false, not, ◌||◌, List, [], map, ℕ}
use mifolyo.Base.{length, ltb, if◌then◌else◌}
use mifolyo.Base.Texts.{Text}
use mifolyo.Base.Dict.{Dict}
use mifolyo.Fenced.Session.{ok, Session, Exec, pure, throw, or_else, value_error}
use mifolyo.Fenced.Session.Inversion.{bind_inv, or_else_inv}
use mifolyo.Image.Mongo.Written.{Wrote, true_not, and_then_inv, slices-Wrote, bulk-Wrote}
use mifolyo.Base.{arith, length-map}
use mifolyo.Image.Mongo.{
  Identity, page_state, stale_images, stale_words, FencedFilter, fence_of, ImageDocument,
  ImageUpdate, Collections, is_empty, distinct, any_image, page_epoch_is_current, fenced,
  publication_is_current, confirmed, state, image_operation, word_operations, reconcile_words,
  reconcile_images, reconcile_state, reconcile_page, replace_page_images,
}

module _ {W : Type 0} where
  fenced_inv :
      (i : Identity) (e : ℕ) (f : FencedFilter → Exec W Bool) (s t : Session W)
      → fenced i e f s ≡ (ok true, t)
      → f (record { identity = i; fence = fence_of e }) s ≡ (ok true, t)
  fenced_inv i e f s t h = go (ltb e 1) h
    where
      go :
          (b : Bool)
          → (elim b as (λ _. Exec W Bool) [
            | true ↦ throw value_error
            | false ↦ f (record { identity = i; fence = fence_of e })
          ])
              s
            ≡ (ok true, t)
          → f (record { identity = i; fence = fence_of e }) s ≡ (ok true, t)
      go true q = cc
      go false q = q

module _ {W : Type 0} (collections : Collections W) (connected : Bool) (digest : Text → Text → Text)
    (split_name : Text → List Text) (page_url publication_id : Text) (images : List ImageDocument)
    (keywords : Dict ℕ) (fence_epoch : ℕ) (token : Text) (owner_check : Exec W Bool) where
  abbrev current : Bool → Exec W Bool
  current = publication_is_current collections connected page_url token fence_epoch owner_check

  abbrev filter_of : Identity → FencedFilter
  filter_of identity = record { identity = identity; fence = fence_of fence_epoch }

  abbrev operation : ImageDocument → ImageUpdate
  operation =
      image_operation collections connected digest split_name page_url publication_id images
        keywords fence_epoch token owner_check

  -- The writes that were acknowledged, in their order, and the confirmation after the last one.
  pub record IsReplaced (s t : Session W) : Type 0 where
    pub old_ids : List Text
    pub s1 : Session W
    pub s2 : Session W
    pub s3 : Session W
    pub s4 : Session W
    pub s5 : Session W
    pub s6 : Session W
    pub s7 : Session W
    pub s8 : Session W
    pub s9 : Session W
    pub s10 : Session W
    pub held : current false s ≡ (ok true, s1)
    pub found : collections.image_ids page_url s1 ≡ (ok old_ids, s2)
    pub claimed :
        collections.replace_state
          (filter_of (page_state page_url))
          (state collections connected digest split_name page_url publication_id images keywords
            fence_epoch token owner_check)
          s2
        ≡ (ok true, s3)
    pub claim_seen :
        page_epoch_is_current collections connected page_url fence_epoch s3 ≡ (ok true, s4)
    pub still_current : current true s4 ≡ (ok true, s5)
    pub stale_images_deleted :
        collections.delete_images
          (filter_of (stale_images page_url (map (λ (x : ImageDocument). x.association) images)))
          s5
        ≡ (ok true, s6)
    pub images_written : Wrote (current true) collections.write_images (map operation images) s6 s7
    pub current_again : current true s7 ≡ (ok true, s8)
    pub stale_words_deleted :
        collections.delete_words (filter_of (stale_words page_url old_ids)) s8 ≡ (ok true, s9)
    pub words_written :
        Wrote
          (current true)
          collections.write_words
          (word_operations collections connected digest split_name page_url publication_id images
            keywords fence_epoch token owner_check)
          s9
          s10
    pub current_at_last : current true s10 ≡ (ok true, t)

  page_inv :
      (s t : Session W)
      → reconcile_page collections connected digest split_name page_url publication_id images
          keywords fence_epoch token owner_check s
        ≡ (ok true, t)
      → IsReplaced s t
  unfolding reconcile_page reconcile_state reconcile_images reconcile_words confirmed
  page_inv s t h =
      let (s1, a, h1) = and_then_inv (current false) _ s t h in
      let (ids, (s2, b, h2)) =
        bind_inv (collections.image_ids page_url)
          (reconcile_state collections connected digest split_name page_url publication_id images
            keywords fence_epoch token owner_check)
          s1 true t h1 in
      let (s3, d, h3) = and_then_inv _ _ s2 t h2 in
      let (s4, e, h4) = and_then_inv _ _ s3 t h3 in
      let (s6, f, h6) = and_then_inv _ _ s4 t h4 in
      let (s5, f1, f2) = and_then_inv _ _ s4 s6 f in
      let (s7, g, h7) = and_then_inv _ _ s6 t h6 in
      let (s9, i, h9) = and_then_inv _ _ s7 t h7 in
      let (s8, i1, i2) = and_then_inv _ _ s7 s9 i in
      let (s10, j, h10) = and_then_inv _ _ s9 t h9 in
      record {
        old_ids = ids;
        s1 = s1;
        s2 = s2;
        s3 = s3;
        s4 = s4;
        s5 = s5;
        s6 = s6;
        s7 = s7;
        s8 = s8;
        s9 = s9;
        s10 = s10;
        held = a;
        found = b;
        claimed =
            fenced_inv (page_state page_url) fence_epoch
              (λ filter. collections.replace_state filter (
                state collections connected digest split_name page_url publication_id images
                  keywords fence_epoch token owner_check))
              s2 s3 d;
        claim_seen = e;
        still_current = f1;
        stale_images_deleted = fenced_inv _ fence_epoch collections.delete_images s5 s6 f2;
        images_written =
            slices-Wrote collections connected page_url token fence_epoch owner_check
              (length images) (map operation images) s6 s7
              (omega (arith, length-map operation images)) g;
        current_again = i1;
        stale_words_deleted = fenced_inv _ fence_epoch collections.delete_words s8 s9 i2;
        words_written =
            bulk-Wrote collections connected page_url token fence_epoch owner_check []
              (word_operations collections connected digest split_name page_url publication_id
                images keywords fence_epoch token owner_check)
              s9 s10 j;
        current_at_last = h10;
      }

  -- When replace_page_images returns true, these steps all succeeded, in this order: both locks were
  -- confirmed, the page's state was replaced and read back with the client's epoch, the stale images
  -- were deleted, the update of every image was written, the stale words were deleted, and the update of
  -- every word of every image was written; the publication was confirmed before each of the deletions
  -- and at the end. The updates were written in batches, each acknowledged and each right after a
  -- confirmation, and the batches in their order are exactly all the updates.
  pub replace_page_images-IsReplaced :
      (s t : Session W)
      → replace_page_images collections connected digest split_name page_url publication_id images
          keywords fence_epoch token owner_check s
        ≡ (ok true, t)
      → IsReplaced s t
  unfolding replace_page_images
  replace_page_images-IsReplaced s t h =
      go (not connected || is_empty page_url || not (distinct _) || any_image _ images) h
    where
      page : Exec W Bool
      page =
          reconcile_page collections connected digest split_name page_url publication_id images
            keywords fence_epoch token owner_check

      go :
          (b : Bool)
          → (if b then pure false else or_else page false) s ≡ (ok true, t)
          → IsReplaced s t
      go true q = absurd (true_not s t q)
      go false q = page_inv s t (or_else_inv page s t q)
