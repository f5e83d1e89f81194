-- ===== src/Fenced/Queue/Refine.antt =====
-- The queue scripts of the owner of the lock do what the abstract queue does.
use mifolyo.Base.{◌≡◌, refl, sym, subst, false, ◌||◌, Option, none, some}
use mifolyo.Base.{List, [], ◌∷◌, ◌++◌, ℕ, ◌≤◌, ◌<◌, arith}
use mifolyo.Base.{ltb}
use mifolyo.Base.Texts.{Text}
use mifolyo.Fenced.Store.{Keyspace}
use mifolyo.Fenced.Store.{as_list, of_list}
use mifolyo.Fenced.Store.{Redis}
use mifolyo.Fenced.Store.{index_of, remove_first}
use mifolyo.Fenced.Memory.{unsnoc, IsRedis}
use mifolyo.Fenced.Script.{eval, run, seen, eval-run}
use mifolyo.Fenced.Queue.{Layout}
use mifolyo.Fenced.Queue.{claim}
use mifolyo.Fenced.Queue.{release, recover}
use mifolyo.Fenced.Queue.Held.{IsHeld}
use mifolyo.Fenced.Spec.{
  Queue, queue_of, claim_from, take_oldest, put_back, give_back, IsLayout, Shows, Refines,
}
use mifolyo.Fenced.Spec.{Shows-claimed_last, frame-claimed_last}
use mifolyo.Fenced.Spec.{Refines-move}
use mifolyo.Fenced.Queue.Claim.{claim-some, claim-none, release-some, release-none}
use mifolyo.Fenced.Queue.Recover.{recover-Refines}

module _ (l : Layout) (d : IsLayout l) (owner epoch : Text) (s : Keyspace) (q : Queue) where
  pub claim-Refines :
      IsHeld l owner epoch s
      → Shows l s q
      → Refines l s (Option Text) (run (claim l owner epoch) s) (take_oldest q)
  unfolding take_oldest
  claim-Refines h g = go q.waiting q.claimed g.waiting g.claimed
    where
      go :
          (ws cs : List Text)
          → as_list (s l.queue) ≡ some ws
          → as_list (s l.processing) ≡ some cs
          → Refines l s (Option Text) (run (claim l owner epoch) s) (claim_from ws cs)
      go [] cs p r =
          Refines-move l s _ s none (queue_of [] cs) (claim-none l d owner epoch s cs h p r)
            (record { waiting = p; claimed = r }) (λ k _ _. refl)
      go (x ∷ xs) cs p r =
          Refines-move l s _ _ _ _ (claim-some l d owner epoch s x xs cs h p r)
            (Shows-claimed_last l d s (unsnoc x xs).0 ((unsnoc x xs).1 ∷ cs))
            (frame-claimed_last l d s [] [] (of_list ((unsnoc x xs).1 ∷ cs))
              (of_list (unsnoc x xs).0))

  pub release-Refines :
      (v : Text)
      → IsHeld l owner epoch s
      → Shows l s q
      → Refines l s ℕ (run (release l owner epoch v) s) (give_back v q)
  unfolding give_back
  release-Refines v h g = go (index_of v q.claimed) refl
    where
      go :
          (i : Option ℕ)
          → index_of v q.claimed ≡ i
          → Refines l s ℕ (run (release l owner epoch v) s) (elim i [
            | none ↦ (0, q)
            | some _ ↦ (1, queue_of (q.waiting ++ (v ∷ [])) (remove_first v q.claimed))
          ])
      go none e =
          Refines-move l s _ s 0 q
            (release-none l d owner epoch s v q.waiting q.claimed h g.waiting g.claimed e) g
            (λ k _ _. refl)
      go (some n) e =
          Refines-move l s _ _ 1 _
            (release-some l d owner epoch s v n q.waiting q.claimed h g.waiting g.claimed e)
            (Shows-claimed_last l d s (q.waiting ++ (v ∷ [])) (remove_first v q.claimed))
            (frame-claimed_last l d s [] [] (of_list (remove_first v q.claimed))
              (of_list (q.waiting ++ (v ∷ []))))

module _ {W : Type 0} (redis : Redis W) (view : W → Keyspace) (law : IsRedis redis view) where
  -- The claim, recovery and release scripts of the holder of the lock refine the abstract queue: a claim
  -- takes the oldest waiting value, a recovery of 1 to 1000 claims puts the newest ones back where they
  -- are taken next, before the values that waited, a release puts one claim of the value back; each replies what the abstract operation
  -- answers, the two lists are then the abstract queue's, and every other key is as before.
  pub owner_scripts_refine :
      (l : Layout) (d : IsLayout l) (owner epoch : Text) (w : W) (q : Queue) (limit : ℕ) (v : Text)
      → IsHeld l owner epoch (view w)
      → Shows l (view w) q
      → 0 < limit
      → limit ≤ 1000
      → Refines l
          (view w)
          (Option Text)
          (seen view (eval redis (claim l owner epoch) w))
          (take_oldest q)
        × Refines l
            (view w)
            ℕ
            (seen view (eval redis (recover l owner epoch limit) w))
            (put_back limit q)
        × Refines l (view w) ℕ (seen view (eval redis (release l owner epoch v) w)) (give_back v q)
  owner_scripts_refine l d owner epoch w q limit v h g m n = (
    subst (λ x. Refines l (view w) (Option Text) x (take_oldest q))
        (sym (eval-run view redis law (claim l owner epoch) w))
        (claim-Refines l d owner epoch (view w) q h g),
    subst (λ x. Refines l (view w) ℕ x (put_back limit q))
        (sym (eval-run view redis law (recover l owner epoch limit) w))
        (recover-Refines l d owner epoch limit (view w) q h g (in_range limit m n)),
    subst (λ x. Refines l (view w) ℕ x (give_back v q))
        (sym (eval-run view redis law (release l owner epoch v) w))
        (release-Refines l d owner epoch (view w) q v h g),
  )
    where
      in_range : (n : ℕ) → 0 < n → n ≤ 1000 → (ltb n 1 || ltb 1000 n) ≡ false
      in_range n p q = ground arith
