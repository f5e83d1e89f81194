-- ===== src/Fenced/Queue/Quarantine.antt =====
-- The quarantine script ends a claim and keeps the value among a bounded number of dead letters.
use mifolyo.Base.{◌≡◌, refl, sym, ap, ◌∙◌, subst, false, ◌||◌, some}
use mifolyo.Base.{List, ◌∷◌, ℕ, ◌≤◌, ◌<◌, arith}
use mifolyo.Base.{length, take, ltb}
use mifolyo.Base.Texts.{Text}
use mifolyo.Fenced.Store.{Keyspace, Reply, reply}
use mifolyo.Fenced.Store.{as_list, of_list, lpush, lrem}
use mifolyo.Fenced.Store.{ltrim, Redis}
use mifolyo.Fenced.Store.{index_of, remove_first}
use mifolyo.Fenced.Memory.{put, removed}
use mifolyo.Fenced.Memory.{IsRedis}
use mifolyo.Fenced.Script.{eval, run, seen, eval-run}
use mifolyo.Fenced.Script.{run-integer, run-position, run-status, run-done, run-pass}
use mifolyo.Fenced.Queue.{Layout}
use mifolyo.Fenced.Queue.{quarantine}
use mifolyo.Fenced.Spec.{Queue, queue_of, IsLayout, Shows}
use mifolyo.Fenced.Spec.{put-same, put-other, as_list-of_list}
use mifolyo.Fenced.Queue.Held.{reject-run, IsHeld, opening-IsHeld}

module _ (l : Layout) (d : IsLayout l) (owner epoch : Text) (v : Text) (limit : ℕ) where
  -- The keyspace after the value is pushed, the dead letters are trimmed and the claim is removed.
  abbrev pub buried : List Text → List Text → Keyspace → Keyspace
  buried ds cs s =
      put l.processing (of_list (remove_first v cs))
        (put l.dead (of_list (take limit (v ∷ ds))) (put l.dead (of_list (v ∷ ds)) s))

  pub quarantine-some :
      (s : Keyspace) (q : Queue) (ds : List Text) (i : ℕ)
      → IsHeld l owner epoch s
      → Shows l s q
      → as_list (s l.dead) ≡ some ds
      → index_of v q.claimed ≡ some i
      → (ltb limit 1 || ltb 10000 limit) ≡ false
      → run (quarantine l owner epoch v limit) s ≡ (reply 1, buried ds q.claimed s)
  unfolding quarantine
  quarantine-some s q ds i h g e p b =
      opening-IsHeld l owner epoch s l.processing l.dead l.processing_kind l.dead_kind _ q.claimed
        ds h g.claimed e
      ∙ run-position s s l.processing v _ (some i) (rw (g.claimed, p) refl)
      ∙ run-pass s 0 _
      ∙ reject-run s _ "invalid dead-letter limit" _ b
      ∙ run-integer s t (lpush l.dead v) _ (length (v ∷ ds)) (rw e refl)
      ∙ run-status t u (ltrim l.dead limit) _ (rw (put-same l.dead (of_list (v ∷ ds)) s) refl)
      ∙ run-integer u (buried ds q.claimed s) (lrem l.processing v) _ (removed v q.claimed) (
          rw
            (
              put-other l.dead l.processing (of_list (take limit (v ∷ ds))) t d.dead_processing,
              put-other l.dead l.processing (of_list (v ∷ ds)) s d.dead_processing,
              g.claimed,
            )
            refl)
      ∙ run-done _ 1
    where
      t : Keyspace
      t = put l.dead (of_list (v ∷ ds)) s

      u : Keyspace
      u = put l.dead (of_list (take limit (v ∷ ds))) t

  -- What quarantine promises of the reply and the keyspace.
  pub record IsBuried (q : Queue) (ds : List Text) (x : Reply ℕ × Keyspace) : Type 0 where
    pub answer : x.0 ≡ reply 1
    pub shows : Shows l x.1 (queue_of q.waiting (remove_first v q.claimed))
    pub dead : as_list (x.1 l.dead) ≡ some (take limit (v ∷ ds))

  buried_lem :
      (s : Keyspace) (q : Queue) (ds : List Text)
      → Shows l s q
      → IsBuried q ds (reply 1, buried ds q.claimed s)
  buried_lem s q ds g = record {
    answer = refl;
    shows = record {
      waiting =
          ap as_list (
            put-other l.processing l.queue _ _ d.processing_queue
            ∙ put-other l.dead l.queue _ _ d.dead_queue
            ∙ put-other l.dead l.queue _ s d.dead_queue)
          ∙ g.waiting;
      claimed = ap as_list (put-same l.processing _ _) ∙ as_list-of_list (remove_first v q.claimed);
    };
    dead =
        ap as_list (put-other l.processing l.dead _ _ d.processing_dead ∙ put-same l.dead _ _)
        ∙ as_list-of_list (take limit (v ∷ ds));
  }

  module _ {W : Type 0} (redis : Redis W) (view : W → Keyspace) (law : IsRedis redis view) where
    -- The holder of the lock moves a claimed value to the head of the dead letters: one claim of it ends,
    -- the waiting values stay as they are, and of the dead letters the newest stay, at most as many as the
    -- limit says.
    pub quarantine_buries :
        (w : W) (q : Queue) (ds : List Text) (i : ℕ)
        → IsHeld l owner epoch (view w)
        → Shows l (view w) q
        → as_list (view w l.dead) ≡ some ds
        → index_of v q.claimed ≡ some i
        → 0 < limit
        → limit ≤ 10000
        → IsBuried q ds (seen view (eval redis (quarantine l owner epoch v limit) w))
    quarantine_buries w q ds i h g e p m n =
        subst (IsBuried q ds)
          (sym (
            eval-run view redis law (quarantine l owner epoch v limit) w
            ∙ quarantine-some (view w) q ds i h g e p (in_range limit m n)))
          (buried_lem (view w) q ds g)
      where
        in_range : (n : ℕ) → 0 < n → n ≤ 10000 → (ltb n 1 || ltb 10000 n) ≡ false
        in_range n p q = ground arith
