-- ===== src/Fenced/History.antt =====
-- Claims and recoveries over time: a service that stops with claims in hand loses and reorders none.
use mifolyo.Base.{◌≡◌, refl, sym, ap, ◌∙◌, subst, inl, inr, false, ◌||◌}
use mifolyo.Base.{List, [], ◌∷◌, ◌++◌, ℕ, zero, suc, ◌≤◌, ◌<◌, arith}
use mifolyo.Base.{length, length-append, take, drop, ltb, Bool-cases}
use mifolyo.Base.Texts.{Text}
use mifolyo.Fenced.Store.{Keyspace, Reply}
use mifolyo.Fenced.Store.{Redis}
use mifolyo.Fenced.Memory.{unsnoc, IsRedis}
use mifolyo.Fenced.Script.{eval, run, eval-run}
use mifolyo.Fenced.Queue.{Layout}
use mifolyo.Fenced.Queue.{claim}
use mifolyo.Fenced.Queue.{recover}
use mifolyo.Fenced.Spec.{
  Queue, queue_of, Queue-eq, claim_from, take_oldest, put_back, IsLayout, Shows, Refines,
}
use mifolyo.Fenced.Queue.Held.{IsHeld}
use mifolyo.Fenced.Queue.Recover.{recover-Refines, recover-rejected}
use mifolyo.Fenced.Queue.Refine.{claim-Refines}
use mathlib.Core.List.{append_assoc, append-nil}

pub data Move : Type 0 where
  claims : Move
  recovers : ℕ → Move

-- The scripts that the holder of the lock runs, one after the other.
unfoldable pub moves : {W : Type 0} → Layout → Redis W → Text → Text → List Move → W → W
moves l redis owner epoch [] w = w
moves l redis owner epoch (claims ∷ ms) w =
    moves l redis owner epoch ms (eval redis (claim l owner epoch) w).1
moves l redis owner epoch (recovers n ∷ ms) w =
    moves l redis owner epoch ms (eval redis (recover l owner epoch n) w).1

-- The waiting values and then the claims, each from the newest to the oldest.
abbrev pub line : Queue → List Text
line q = q.waiting ++ q.claimed

unsnoc_lem :
    (x : Text) (xs ys : List Text) → (unsnoc x xs).0 ++ ((unsnoc x xs).1 ∷ ys) ≡ (x ∷ xs) ++ ys
unfolding unsnoc
unsnoc_lem x [] ys = refl
unsnoc_lem x (y ∷ xs) ys = ap (λ zs. x ∷ zs) (unsnoc_lem y xs ys)

take_oldest-line : (q : Queue) → line (take_oldest q).1 ≡ line q
unfolding take_oldest
take_oldest-line q = go q.waiting q.claimed
  where
    go : (ws cs : List Text) → line (claim_from ws cs).1 ≡ ws ++ cs
    go [] cs = refl
    go (x ∷ xs) cs = unsnoc_lem x xs cs

take-drop : (n : ℕ) (xs : List Text) → take n xs ++ drop n xs ≡ xs
take-drop zero xs = refl
take-drop (suc n) [] = refl
take-drop (suc n) (x ∷ xs) = ap (λ zs. x ∷ zs) (take-drop n xs)

pub put_back-line : (n : ℕ) (q : Queue) → line (put_back n q).1 ≡ line q
unfolding put_back
put_back-line n q =
    append_assoc q.waiting (take n q.claimed) (drop n q.claimed)
    ∙ ap (λ zs. q.waiting ++ zs) (take-drop n q.claimed)

in_range : (limit : ℕ) → 0 < limit → limit ≤ 1000 → (ltb limit 1 || ltb 1000 limit) ≡ false
in_range limit p q = ground arith

few : (ws cs xs : List Text) → ws ++ cs ≡ xs → length cs ≤ length xs
few ws cs xs e = omega (arith, length-append ws cs, ap (λ ys. length ys) e)

take_all : (n : ℕ) (xs : List Text) → length xs ≤ n → take n xs ≡ xs
take_all zero [] h = refl
take_all zero (x ∷ xs) h = ground arith
take_all (suc n) [] h = refl
take_all (suc n) (x ∷ xs) h = ap (λ ys. x ∷ ys) (take_all n xs (omega arith))

drop_all : (n : ℕ) (xs : List Text) → length xs ≤ n → drop n xs ≡ []
drop_all zero [] h = refl
drop_all zero (x ∷ xs) h = ground arith
drop_all (suc n) [] h = refl
drop_all (suc n) (x ∷ xs) h = drop_all n xs (omega arith)

-- A recovery of every claim leaves the whole line waiting.
pub all_back :
    (n : ℕ) (q : Queue) (xs : List Text)
    → length q.claimed ≤ n
    → line q ≡ xs
    → (put_back n q).1 ≡ queue_of xs []
unfolding put_back
all_back n q xs h e =
    Queue-eq (ap (λ ys. q.waiting ++ ys) (take_all n q.claimed h) ∙ e) (drop_all n q.claimed h)

module _ (l : Layout) (d : IsLayout l) (owner epoch : Text) where
  -- A state of the queue that a list of values runs through, with the lock in the owner's hands.
  pub record IsLine (xs : List Text) (s : Keyspace) : Type 0 where
    pub held : IsHeld l owner epoch s
    pub queue : Queue
    pub shows : Shows l s queue
    pub in_line : line queue ≡ xs

  IsHeld-frame :
      {A : Type 0} (s : Keyspace) (x : Reply A × Keyspace) (y : A × Queue)
      → IsHeld l owner epoch s
      → Refines l s A x y
      → IsHeld l owner epoch x.1
  IsHeld-frame s x y h r = record {
    lock = r.frame l.lock d.queue_lock d.processing_lock ∙ h.lock;
    counter = r.frame l.counter d.queue_counter d.processing_counter ∙ h.counter;
  }

  Refines-IsLine :
      {A : Type 0} (xs : List Text) (s : Keyspace) (x : Reply A × Keyspace) (y : A × Queue)
      → IsHeld l owner epoch s
      → Refines l s A x y
      → line y.1 ≡ xs
      → IsLine xs x.1
  Refines-IsLine xs s x y h r e = record {
    held = IsHeld-frame s x y h r;
    queue = y.1;
    shows = r.shows;
    in_line = e;
  }

  claim-IsLine :
      (xs : List Text) (s : Keyspace) → IsLine xs s → IsLine xs (run (claim l owner epoch) s).1
  claim-IsLine xs s h =
      Refines-IsLine xs s _ (take_oldest h.queue) h.held
        (claim-Refines l d owner epoch s h.queue h.held h.shows)
        (take_oldest-line h.queue ∙ h.in_line)

  recover-IsLine :
      (n : ℕ) (xs : List Text) (s : Keyspace)
      → IsLine xs s
      → IsLine xs (run (recover l owner epoch n) s).1
  recover-IsLine n xs s h = elim (Bool-cases (ltb n 1 || ltb 1000 n)) [
    | inl b ↦
        subst (λ x. IsLine xs (snd_of x))
          (sym (recover-rejected l d owner epoch n s h.queue h.held h.shows b)) h
    | inr b ↦
        Refines-IsLine xs s _ (put_back n h.queue) h.held
          (recover-Refines l d owner epoch n s h.queue h.held h.shows b)
          (put_back-line n h.queue ∙ h.in_line)
  ]
    where
      snd_of : Reply ℕ × Keyspace → Keyspace
      snd_of x = x.1

  module _ {W : Type 0} (redis : Redis W) (view : W → Keyspace) (law : IsRedis redis view) where
    pub moves-IsLine :
        (ms : List Move) (xs : List Text) (w : W)
        → IsLine xs (view w)
        → IsLine xs (view (moves l redis owner epoch ms w))
    unfolding moves
    moves-IsLine [] xs w h = h
    moves-IsLine (claims ∷ ms) xs w h = moves-IsLine ms xs _ (
        subst (IsLine xs) (sym (ap (λ x. x.1) (eval-run view redis law (claim l owner epoch) w)))
          (claim-IsLine xs (view w) h))
    moves-IsLine (recovers n ∷ ms) xs w h = moves-IsLine ms xs _ (
        subst (IsLine xs)
          (sym (ap (λ x. x.1) (eval-run view redis law (recover l owner epoch n) w)))
          (recover-IsLine n xs (view w) h))

    -- A queue without claims comes back whole: whatever claims and recoveries the holder of the lock
    -- makes, one more recovery, of at most 1000 values and at least the length of the queue, leaves
    -- every value waiting again, once and in its old place, and no claim.
    pub claims_come_back :
        (ms : List Move) (ws : List Text) (limit : ℕ) (w : W)
        → IsHeld l owner epoch (view w)
        → Shows l (view w) (queue_of ws [])
        → length ws ≤ limit
        → 0 < limit
        → limit ≤ 1000
        → Shows l
            (view (eval redis (recover l owner epoch limit) (moves l redis owner epoch ms w)).1)
            (queue_of ws [])
    claims_come_back ms ws limit w h g k p q =
        subst (λ x. Shows l x (queue_of ws []))
          (sym (ap (λ x. x.1) (eval-run view redis law (recover l owner epoch limit) w')))
          (subst (Shows l (run (recover l owner epoch limit) (view w')).1) whole back.shows)
      where
        w' : W
        w' = moves l redis owner epoch ms w

        z : IsLine ws (view w')
        z =
            moves-IsLine ms ws w
              (record { held = h; queue = queue_of ws []; shows = g; in_line = append-nil ws })

        back :
            Refines l
              (view w')
              ℕ
              (run (recover l owner epoch limit) (view w'))
              (put_back limit z.queue)
        back =
            recover-Refines l d owner epoch limit (view w') z.queue z.held z.shows
              (in_range limit p q)

        whole : (put_back limit z.queue).1 ≡ queue_of ws []
        whole =
            all_back limit z.queue ws
              (omega (arith, few z.queue.waiting z.queue.claimed ws z.in_line)) z.in_line
