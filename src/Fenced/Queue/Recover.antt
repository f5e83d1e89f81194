-- ===== src/Fenced/Queue/Recover.antt =====
-- The recovery script moves claims back one by one: its loop and its bound.
use mifolyo.Base.{◌≡◌, refl, sym, ap, ◌∙◌, subst, true, false, ◌||◌, none, some}
use mifolyo.Base.{List, [], ◌∷◌, ◌++◌, ℕ, zero, suc, ◌+◌, min, arith}
use mifolyo.Base.{length, take, drop, ltb}
use mifolyo.Base.Texts.{Text}
use mifolyo.Fenced.Store.{error}
use mifolyo.Fenced.Store.{Keyspace, reply, error}
use mifolyo.Fenced.Store.{as_list, of_list, rpush}
use mifolyo.Fenced.Store.{lpop, lindex}
use mifolyo.Fenced.Memory.{put}
use mifolyo.Fenced.Script.{run}
use mifolyo.Fenced.Script.{run-integer, run-bulk, run-rejected, run-done}
use mifolyo.Fenced.Queue.{Layout}
use mifolyo.Fenced.Queue.{recover_loop, recover}
use mifolyo.Fenced.Queue.Held.{reject-run, IsHeld, opening-IsHeld}
use mifolyo.Fenced.Spec.{Queue, Queue-eq, queue_of, put_back, IsLayout, Shows, Refines, put-other}
use mifolyo.Fenced.Spec.{Shows-claimed_last, frame-claimed_last, Refines-stay, Refines-step}
use mathlib.Core.List.{append_assoc, append-nil}

take-nil : (n : ℕ) → ◌≡◌ {A = List Text} [] (take n [])
take-nil zero = refl
take-nil (suc n) = refl

drop-nil : (n : ℕ) → ◌≡◌ {A = List Text} [] (drop n [])
drop-nil zero = refl
drop-nil (suc n) = refl

module _ (l : Layout) (d : IsLayout l) (owner epoch : Text) where
  one_back : Text → List Text → List Text → Keyspace → Keyspace
  one_back x ws cs s = put l.processing (of_list cs) (put l.queue (of_list (ws ++ (x ∷ []))) s)

  -- A round of the loop moves the first claim to the end of the queue.
  loop-some :
      (left n : ℕ) (x : Text) (ws cs : List Text) (s : Keyspace)
      → as_list (s l.queue) ≡ some ws
      → as_list (s l.processing) ≡ some (x ∷ cs)
      → run (recover_loop l owner epoch (suc left) n) s
        ≡ run (recover_loop l owner epoch left (suc n)) (one_back x ws cs s)
  unfolding recover_loop one_back
  loop-some left n x ws cs s hq hp =
      run-bulk s s (lindex l.processing) _ (some x) (rw hp refl)
      ∙ run-integer s (put l.queue (of_list (ws ++ (x ∷ []))) s) (rpush l.queue x) _
          (length (ws ++ (x ∷ []))) (rw hq refl)
      ∙ run-bulk _ (one_back x ws cs s) (lpop l.processing) _ (some x) (
          rw (put-other l.queue l.processing (of_list (ws ++ (x ∷ []))) s d.queue_processing, hp)
            refl)

  loop-none :
      (left n : ℕ) (s : Keyspace)
      → as_list (s l.processing) ≡ some []
      → run (recover_loop l owner epoch left n) s ≡ (reply n, s)
  unfolding recover_loop
  loop-none zero n s h = run-done s n
  loop-none (suc left) n s h = run-bulk s s (lindex l.processing) _ none (rw h refl) ∙ run-done s n

  loop-Refines :
      (left n : ℕ) (ws cs : List Text) (s : Keyspace)
      → Shows l s (record { waiting = ws; claimed = cs })
      → Refines l s ℕ (run (recover_loop l owner epoch left n) s) (
        n + min left (length cs),
        record { waiting = ws ++ take left cs; claimed = drop left cs },
      )
  unfolding recover_loop one_back
  loop-Refines left n ws [] s h =
      Refines-stay l s _ n _ (record { waiting = ws; claimed = [] }) _
        (loop-none left n s h.claimed) h (omega arith)
        (Queue-eq (sym (append-nil ws) ∙ ap (λ x. ws ++ x) (take-nil left)) (drop-nil left))
  loop-Refines zero n ws (c ∷ cs) s h =
      Refines-stay l s _ n _ (record { waiting = ws; claimed = c ∷ cs }) _ (run-done s n) h
        (omega arith) (Queue-eq (sym (append-nil ws)) refl)
  loop-Refines (suc left) n ws (c ∷ cs) s h =
      Refines-step l s _ (one_back c ws cs s) _ _ _ _ _
        (loop-some left n c ws cs s h.waiting h.claimed)
        (loop-Refines left (suc n) (ws ++ (c ∷ [])) cs (one_back c ws cs s)
          (Shows-claimed_last l d s (ws ++ (c ∷ [])) cs))
        (frame-claimed_last l d s ws cs (of_list cs) (of_list (ws ++ (c ∷ [])))) (omega arith)
        (Queue-eq (append_assoc ws (c ∷ []) (take left cs)) refl)

  pub recover-Refines :
      (limit : ℕ) (s : Keyspace) (q : Queue)
      → IsHeld l owner epoch s
      → Shows l s q
      → (ltb limit 1 || ltb 1000 limit) ≡ false
      → Refines l s ℕ (run (recover l owner epoch limit) s) (put_back limit q)
  unfolding recover put_back
  recover-Refines limit s q h g b =
      subst
        (λ x. Refines l s ℕ x (
          min limit (length q.claimed),
          queue_of (q.waiting ++ take limit q.claimed) (drop limit q.claimed),
        ))
        (sym begun)
        (subst
          (λ (n : ℕ).
            Refines l s ℕ (run (recover_loop l owner epoch limit 0) s)
              (n, queue_of (q.waiting ++ take limit q.claimed) (drop limit q.claimed)))
          (omega arith) (loop-Refines limit 0 q.waiting q.claimed s g))
    where
      begun : run (recover l owner epoch limit) s ≡ run (recover_loop l owner epoch limit 0) s
      begun =
          opening-IsHeld l owner epoch s l.processing l.queue l.processing_kind l.queue_kind _
            q.claimed q.waiting h g.claimed g.waiting
          ∙ reject-run s _ "invalid recovery limit" _ b

  pub recover-rejected :
      (limit : ℕ) (s : Keyspace) (q : Queue)
      → IsHeld l owner epoch s
      → Shows l s q
      → (ltb limit 1 || ltb 1000 limit) ≡ true
      → run (recover l owner epoch limit) s ≡ (error "invalid recovery limit", s)
  unfolding recover
  recover-rejected limit s q h g b =
      opening-IsHeld l owner epoch s l.processing l.queue l.processing_kind l.queue_kind _ q.claimed
        q.waiting h g.claimed g.waiting
      ∙ run-rejected s _ "invalid recovery limit" _ b
