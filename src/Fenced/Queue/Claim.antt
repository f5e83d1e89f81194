-- ===== src/Fenced/Queue/Claim.antt =====
-- The effect of the scripts that move values between the two lists of the queue.
use mifolyo.Base.{◌≡◌, refl, ◌∙◌, none, some}
use mifolyo.Base.{List, [], ◌∷◌, ◌++◌, ℕ}
use mifolyo.Base.{length}
use mifolyo.Base.Texts.{Text}
use mifolyo.Fenced.Store.{Keyspace, reply}
use mifolyo.Fenced.Store.{as_list, of_list, rpush, lrem}
use mifolyo.Fenced.Store.{rpoplpush}
use mifolyo.Fenced.Store.{index_of, remove_first}
use mifolyo.Fenced.Memory.{put, removed}
use mifolyo.Fenced.Memory.{unsnoc, bulk_call}
use mifolyo.Fenced.Script.{run}
use mifolyo.Fenced.Script.{run-integer, run-bulk, run-position, run-done, run-answer, run-pass}
use mifolyo.Fenced.Queue.{Layout}
use mifolyo.Fenced.Queue.{claim}
use mifolyo.Fenced.Queue.{release}
use mifolyo.Fenced.Queue.Held.{IsHeld, opening-IsHeld}
use mifolyo.Fenced.Spec.{IsLayout, put-other}

module _ (l : Layout) (d : IsLayout l) (owner epoch : Text) (s : Keyspace) where
  rotate :
      (x : Text) (xs ys : List Text)
      → as_list (s l.queue) ≡ some (x ∷ xs)
      → as_list (s l.processing) ≡ some ys
      → bulk_call (rpoplpush l.queue l.processing) s ≡ (
        reply (some (unsnoc x xs).1),
        put l.processing (of_list ((unsnoc x xs).1 ∷ ys)) (put l.queue (of_list (unsnoc x xs).0) s),
      )
  rotate x xs ys hq hp =
      rw (hq, put-other l.queue l.processing (of_list (unsnoc x xs).0) s d.queue_processing, hp)
        refl

  pub claim-some :
      (x : Text) (xs ys : List Text)
      → IsHeld l owner epoch s
      → as_list (s l.queue) ≡ some (x ∷ xs)
      → as_list (s l.processing) ≡ some ys
      → run (claim l owner epoch) s ≡ (
        reply (some (unsnoc x xs).1),
        put l.processing (of_list ((unsnoc x xs).1 ∷ ys)) (put l.queue (of_list (unsnoc x xs).0) s),
      )
  unfolding claim
  claim-some x xs ys h hq hp =
      opening-IsHeld l owner epoch s l.queue l.processing l.queue_kind l.processing_kind _ (x ∷ xs)
        ys h hq hp
      ∙ run-bulk s _ (rpoplpush l.queue l.processing) _ _ (rotate x xs ys hq hp)
      ∙ run-done _ _

  pub claim-none :
      (ys : List Text)
      → IsHeld l owner epoch s
      → as_list (s l.queue) ≡ some []
      → as_list (s l.processing) ≡ some ys
      → run (claim l owner epoch) s ≡ (reply none, s)
  unfolding claim
  claim-none ys h hq hp =
      opening-IsHeld l owner epoch s l.queue l.processing l.queue_kind l.processing_kind _ [] ys h
        hq hp
      ∙ run-bulk s s (rpoplpush l.queue l.processing) _ none (rw hq refl)
      ∙ run-done _ _

  -- The keyspace after a value has gone from the claims to the end of the queue.
  abbrev pub requeued : Text → List Text → List Text → Keyspace
  requeued v ws cs = put l.processing (of_list cs) (put l.queue (of_list (ws ++ (v ∷ []))) s)

  pub release-some :
      (v : Text) (n : ℕ) (ws cs : List Text)
      → IsHeld l owner epoch s
      → as_list (s l.queue) ≡ some ws
      → as_list (s l.processing) ≡ some cs
      → index_of v cs ≡ some n
      → run (release l owner epoch v) s ≡ (reply 1, requeued v ws (remove_first v cs))
  unfolding release
  release-some v n ws cs h hq hp i =
      opening-IsHeld l owner epoch s l.processing l.queue l.processing_kind l.queue_kind _ cs ws h
        hp hq
      ∙ run-position s s l.processing v _ (some n) (rw (hp, i) refl)
      ∙ run-pass s 0 _
      ∙ run-integer s (put l.queue (of_list (ws ++ (v ∷ []))) s) (rpush l.queue v) _
          (length (ws ++ (v ∷ []))) (rw hq refl)
      ∙ run-integer _ (requeued v ws (remove_first v cs)) (lrem l.processing v) _ (removed v cs) (
          rw (put-other l.queue l.processing (of_list (ws ++ (v ∷ []))) s d.queue_processing, hp)
            refl)
      ∙ run-done _ 1

  pub release-none :
      (v : Text) (ws cs : List Text)
      → IsHeld l owner epoch s
      → as_list (s l.queue) ≡ some ws
      → as_list (s l.processing) ≡ some cs
      → index_of v cs ≡ none
      → run (release l owner epoch v) s ≡ (reply 0, s)
  unfolding release
  release-none v ws cs h hq hp i =
      opening-IsHeld l owner epoch s l.processing l.queue l.processing_kind l.queue_kind _ cs ws h
        hp hq
      ∙ run-position s s l.processing v _ none (rw (hp, i) refl)
      ∙ run-answer s 0 _
