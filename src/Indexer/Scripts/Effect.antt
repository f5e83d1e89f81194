-- ===== src/Indexer/Scripts/Effect.antt =====
-- The effect of the script that completes a claim of services/indexer.
use mifolyo.Base.{◌≡◌, refl, sym, ap, ◌∙◌, subst, false, some}
use mifolyo.Base.{List, [], ◌∷◌, ℕ}
use mifolyo.Base.{length}
use mifolyo.Base.Texts.{Text, codes, same, same_refl}
use mifolyo.Base.Dict.{Dict, lookup}
use mifolyo.Fenced.Store.{absent, fields, Keyspace, Reply, reply, kind}
use mifolyo.Fenced.Store.{as_list, of_list, lpush, lrem, del}
use mifolyo.Fenced.Store.{hget, Redis}
use mifolyo.Fenced.Store.{index_of, remove_first}
use mifolyo.Fenced.Memory.{put, delete, removed}
use mifolyo.Fenced.Memory.{IsRedis}
use mifolyo.Fenced.Script.{eval, run, seen, eval-run}
use mifolyo.Fenced.Script.{run-integer, run-bulk, run-position, run-type_of, run-done, run-pass}
use mifolyo.Fenced.Queue.{is_hash, is_set}
use mifolyo.Fenced.Spec.{Queue, queue_of, Shows}
use mifolyo.Fenced.Spec.{put-same, as_list-of_list}
use mifolyo.Fenced.Queue.Held.{reject-run, IsHeld, lost-IsHeld}
use mifolyo.Fenced.Keys.{page_prefix, outlinks_prefix, page_images_prefix, key_of}
use mifolyo.Fenced.Queue.Held.{list_kind}
use mifolyo.Indexer.Scripts.{
  indexer, image_queue, Publication, not_kind, hand_over, complete_claim_script,
}

-- The keys of the publication of a page.
abbrev pub keys_of : Text → Text → Text → Publication
keys_of id url encoded = record {
  page = key_of page_prefix id encoded;
  outlinks = key_of outlinks_prefix id encoded;
  manifest = key_of page_images_prefix id encoded;
  publication_id = id;
  normalized_url = url;
}

module _ (id url encoded : Text) where
  p : Publication
  p = keys_of id url encoded

  -- What the script needs to find: the page and its outlinks if they are there, the manifest of the same
  -- publication, and the queue of the image indexer.
  pub record IsReady (s : Keyspace) (manifest : Dict Text) (images : List Text) : Type 0 where
    pub page : not_kind is_hash (kind (s (key_of page_prefix id encoded))) ≡ false
    pub outlinks : not_kind is_set (kind (s (key_of outlinks_prefix id encoded))) ≡ false
    pub manifest_found : s (key_of page_images_prefix id encoded) ≡ fields manifest
    pub same_id : lookup (codes "publication_id") manifest ≡ some id
    pub same_url : lookup (codes "normalized_url") manifest ≡ some url
    pub queue : as_list (s image_queue) ≡ some images

  -- What it leaves.
  pub record IsHandedOver (q : Queue) (images : List Text) (x : Reply ℕ × Keyspace) : Type 0 where
    pub answer : x.0 ≡ reply 1
    pub shows :
        Shows indexer x.1
          (queue_of q.waiting (remove_first (key_of page_prefix id encoded) q.claimed))
    pub queued : as_list (x.1 image_queue) ≡ some (key_of page_images_prefix id encoded ∷ images)
    pub page_gone : x.1 (key_of page_prefix id encoded) ≡ absent
    pub outlinks_gone : x.1 (key_of outlinks_prefix id encoded) ≡ absent

  abbrev moved : Keyspace → Queue → List Text → Keyspace
  moved s q images =
      put indexer.processing (of_list (remove_first (key_of page_prefix id encoded) q.claimed))
        (put image_queue (of_list (key_of page_images_prefix id encoded ∷ images)) s)

  abbrev handed : Keyspace → Queue → List Text → Keyspace
  handed s q images =
      put (key_of outlinks_prefix id encoded) absent
        (put (key_of page_prefix id encoded) absent (moved s q images))

  handed_lem :
      (s : Keyspace) (q : Queue) (images : List Text)
      → Shows indexer s q
      → IsHandedOver q images (reply 1, handed s q images)
  unfolding put same
  handed_lem s q images g = record {
    answer = refl;
    shows = record {
      waiting = g.waiting;
      claimed = as_list-of_list (remove_first (key_of page_prefix id encoded) q.claimed);
    };
    queued = refl;
    page_gone = put-same (key_of page_prefix id encoded) absent (moved s q images);
    outlinks_gone =
        put-same (key_of outlinks_prefix id encoded) absent
          (put (key_of page_prefix id encoded) absent (moved s q images));
  }

  module _ (s : Keyspace) (q : Queue) (manifest : Dict Text) (images : List Text) (i : ℕ) where
    hand_over-run :
        Shows indexer s q
        → IsReady s manifest images
        → index_of (key_of page_prefix id encoded) q.claimed ≡ some i
        → run (hand_over (key_of page_prefix id encoded) p) s ≡ (reply 1, handed s q images)
    unfolding hand_over p put same delete
    hand_over-run g r e =
        run-position s s indexer.processing (key_of page_prefix id encoded) _ (some i)
          (rw (g.claimed, e) refl)
        ∙ run-pass s 0 _
        ∙ run-bulk s s (hget (key_of page_images_prefix id encoded) (codes "publication_id")) _
            (some id) (rw (r.manifest_found, r.same_id) refl)
        ∙ reject-run s _ "image manifest publication mismatch" _ (rw (same_refl id) refl)
        ∙ run-bulk s s (hget (key_of page_images_prefix id encoded) (codes "normalized_url")) _
            (some url) (rw (r.manifest_found, r.same_url) refl)
        ∙ reject-run s _ "image manifest URL mismatch" _ (rw (same_refl url) refl)
        ∙ run-integer s t (lpush image_queue (key_of page_images_prefix id encoded)) _
            (length (key_of page_images_prefix id encoded ∷ images)) (rw r.queue refl)
        ∙ run-integer t u (lrem indexer.processing (key_of page_prefix id encoded)) _
            (removed (key_of page_prefix id encoded) q.claimed) (rw g.claimed refl)
        ∙ run-integer u (handed s q images)
            (del (key_of page_prefix id encoded ∷ key_of outlinks_prefix id encoded ∷ [])) _ _ refl
        ∙ run-done (handed s q images) 1
      where
        t : Keyspace
        t = put image_queue (of_list (key_of page_images_prefix id encoded ∷ images)) s

        u : Keyspace
        u =
            put indexer.processing
              (of_list (remove_first (key_of page_prefix id encoded) q.claimed)) t

    complete-run :
        (owner epoch : Text)
        → IsHeld indexer owner epoch s
        → Shows indexer s q
        → IsReady s manifest images
        → index_of (key_of page_prefix id encoded) q.claimed ≡ some i
        → run (complete_claim_script owner epoch (key_of page_prefix id encoded) p) s
          ≡ (reply 1, handed s q images)
    unfolding complete_claim_script p
    complete-run owner epoch h g r e =
        run-type_of s indexer.lock _
        ∙ run-type_of s indexer.counter _
        ∙ run-type_of s indexer.processing _
        ∙ run-type_of s (key_of page_prefix id encoded) _
        ∙ run-type_of s (key_of outlinks_prefix id encoded) _
        ∙ run-type_of s (key_of page_images_prefix id encoded) _
        ∙ run-type_of s image_queue _
        ∙ reject-run s _ "owner lock and epoch must be strings" _ (rw (h.lock, h.counter) refl)
        ∙ reject-run s _ "processing key must be a list" _
            (list_kind (s indexer.processing) q.claimed g.claimed)
        ∙ reject-run s _ "page key must be a hash" _ r.page
        ∙ reject-run s _ "outlinks key must be a set" _ r.outlinks
        ∙ reject-run s _ "image manifest key must be a hash" _ (rw r.manifest_found refl)
        ∙ reject-run s _ "image queue key must be a list" _
            (list_kind (s image_queue) images r.queue)
        ∙ lost-IsHeld indexer owner epoch s _ h
        ∙ reject-run s false "LOCK_LOST" _ refl
        ∙ hand_over-run g r e

    module _ {W : Type 0} (redis : Redis W) (view : W → Keyspace) (law : IsRedis redis view) where
      -- The holder of the lock completes a claimed page whose manifest has the page's id and URL: the reply
      -- is 1, one claim of the page ends, the waiting pages stay, the manifest is the newest value of the
      -- image queue, and the page and its outlinks are deleted.
      pub complete_hands_over :
          (w : W) (owner epoch : Text)
          → view w ≡ s
          → IsHeld indexer owner epoch s
          → Shows indexer s q
          → IsReady s manifest images
          → index_of (key_of page_prefix id encoded) q.claimed ≡ some i
          → IsHandedOver q images (
              seen view (
                eval redis
                  (complete_claim_script owner epoch
                    (key_of page_prefix id encoded)
                    (keys_of id url encoded))
                  w))
      unfolding p
      complete_hands_over w owner epoch v h g r e =
          subst (IsHandedOver q images)
            (sym (
              eval-run view redis law
                (complete_claim_script owner epoch (key_of page_prefix id encoded)
                  (keys_of id url encoded))
                w
              ∙ ap
                  (run (
                    complete_claim_script owner epoch (key_of page_prefix id encoded)
                      (keys_of id url encoded)))
                  v
              ∙ complete-run owner epoch h g r e))
            (handed_lem s q images g)
