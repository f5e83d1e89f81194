-- ===== src/Fenced/Spec.antt =====
-- What the queue scripts promise: a queue of waiting and claimed values, without Redis.
use mifolyo.Base.{sym, subst, ◌≡◌, refl, ap, ◌∙◌, false, Option, none, some}
use mifolyo.Base.{List, [], ◌∷◌, ◌++◌, ℕ, min}
use mifolyo.Base.{length, take, drop}
use mifolyo.Base.Texts.{Bytes, Text, same, same_refl}
use mifolyo.Fenced.Store.{Reply, reply, Value, Keyspace}
use mifolyo.Fenced.Store.{as_list, of_list}
use mifolyo.Fenced.Store.{index_of, remove_first}
use mifolyo.Fenced.Memory.{put}
use mifolyo.Fenced.Memory.{unsnoc}
use mifolyo.Fenced.Queue.{Layout}

-- The values from the newest to the oldest.
pub record Queue : Type 0 where
  pub waiting : List Text
  pub claimed : List Text

abbrev pub queue_of : List Text → List Text → Queue
queue_of w c = record { waiting = w; claimed = c }

pub Queue-eq : {a b c d : List Text} → a ≡ b → c ≡ d → queue_of a c ≡ queue_of b d
Queue-eq {b = b} {c = c} p q = ap (λ x. queue_of x c) p ∙ ap (queue_of b) q

-- The oldest waiting value is claimed.
abbrev pub claim_from : List Text → List Text → Option Text × Queue
claim_from [] cs = (none, queue_of [] cs)
claim_from (x ∷ xs) cs = (some (unsnoc x xs).1, queue_of (unsnoc x xs).0 ((unsnoc x xs).1 ∷ cs))

unfoldable pub take_oldest : Queue → Option Text × Queue
take_oldest q = claim_from q.waiting q.claimed

-- At most `limit` claims, the newest ones, wait again at the end from which values are taken: they are
-- taken before every value that waited, the oldest of them first.
unfoldable pub put_back : ℕ → Queue → ℕ × Queue
put_back limit q = (
  min limit (length q.claimed),
  record { waiting = q.waiting ++ take limit q.claimed; claimed = drop limit q.claimed },
)

-- One claim of the value waits again as the oldest value, if the value is claimed.
unfoldable pub give_back : Text → Queue → ℕ × Queue
give_back v q = elim (index_of v q.claimed) [
  | none ↦ (0, q)
  | some _ ↦ (1, queue_of (q.waiting ++ (v ∷ [])) (remove_first v q.claimed))
]

-- One claim of the value ends, if the value is claimed.
unfoldable pub finish : Text → Queue → ℕ × Queue
finish v q = elim (index_of v q.claimed) [
  | none ↦ (0, q)
  | some _ ↦ (1, queue_of q.waiting (remove_first v q.claimed))
]

-- The keys of a service are distinct.
pub record IsLayout (l : Layout) : Type 0 where
  pub queue_processing : same l.queue l.processing ≡ false
  pub processing_queue : same l.processing l.queue ≡ false
  pub dead_processing : same l.dead l.processing ≡ false
  pub processing_dead : same l.processing l.dead ≡ false
  pub dead_queue : same l.dead l.queue ≡ false
  pub lock_counter : same l.lock l.counter ≡ false
  pub counter_lock : same l.counter l.lock ≡ false
  pub lock_queue : same l.lock l.queue ≡ false
  pub lock_processing : same l.lock l.processing ≡ false
  pub counter_queue : same l.counter l.queue ≡ false
  pub counter_processing : same l.counter l.processing ≡ false
  pub dead_lock : same l.dead l.lock ≡ false
  pub queue_lock : same l.queue l.lock ≡ false
  pub processing_lock : same l.processing l.lock ≡ false
  pub queue_counter : same l.queue l.counter ≡ false
  pub processing_counter : same l.processing l.counter ≡ false
  pub dead_counter : same l.dead l.counter ≡ false

-- The two lists of a keyspace, where an absent key is an empty list.
pub record Shows (l : Layout) (s : Keyspace) (q : Queue) : Type 0 where
  pub waiting : as_list (s l.queue) ≡ some q.waiting
  pub claimed : as_list (s l.processing) ≡ some q.claimed

-- What a script replies and leaves is what the abstract queue does, and no other key has changed.
pub record Refines (l : Layout) (s : Keyspace) (A : Type 0) (x : Reply A × Keyspace) (y : A × Queue)
    : Type 0 where
  pub answer : x.0 ≡ reply y.0
  pub shows : Shows l x.1 y.1
  pub frame : (k : Bytes) → same l.queue k ≡ false → same l.processing k ≡ false → x.1 k ≡ s k

pub put-same : (k : Bytes) (v : Value) (s : Keyspace) → put k v s k ≡ v
unfolding put
put-same k v s = rw (same_refl k) refl

pub put-other : (k j : Bytes) (v : Value) (s : Keyspace) → same k j ≡ false → put k v s j ≡ s j
unfolding put
put-other k j v s h = rw h refl

pub as_list-of_list : (xs : List Text) → as_list (of_list xs) ≡ some xs
as_list-of_list [] = refl
as_list-of_list (x ∷ xs) = refl

module _ (l : Layout) (d : IsLayout l) (s : Keyspace) (w c : List Text) where
  pub Shows-claimed_last :
      Shows l
        (put l.processing (of_list c) (put l.queue (of_list w) s))
        (record { waiting = w; claimed = c })
  Shows-claimed_last = record {
    waiting =
        ap as_list (
          put-other l.processing l.queue (of_list c) _ d.processing_queue
          ∙ put-same l.queue (of_list w) s)
        ∙ as_list-of_list w;
    claimed = ap as_list (put-same l.processing (of_list c) _) ∙ as_list-of_list c;
  }

  pub Shows-waiting_last :
      Shows l
        (put l.queue (of_list w) (put l.processing (of_list c) s))
        (record { waiting = w; claimed = c })
  Shows-waiting_last = record {
    waiting = ap as_list (put-same l.queue (of_list w) _) ∙ as_list-of_list w;
    claimed =
        ap as_list (
          put-other l.queue l.processing (of_list w) _ d.queue_processing
          ∙ put-same l.processing (of_list c) s)
        ∙ as_list-of_list c;
  }

  -- Two keys written: the others are as before.
  pub frame-claimed_last :
      (v w : Value) (k : Bytes)
      → same l.queue k ≡ false
      → same l.processing k ≡ false
      → put l.processing v (put l.queue w s) k ≡ s k
  frame-claimed_last v w k p q = put-other l.processing k v _ q ∙ put-other l.queue k w s p

module _ {A : Type 0} (l : Layout) (s : Keyspace) (x : Reply A × Keyspace) where
  pub Refines-stay :
      (a b : A) (q r : Queue)
      → x ≡ (reply a, s)
      → Shows l s q
      → a ≡ b
      → q ≡ r
      → Refines l s A x (b, r)
  Refines-stay a b q r e h p o =
      subst (λ x. Refines l s A x (b, r)) (sym e)
        (record { answer = ap reply p; shows = subst (Shows l s) o h; frame = λ k _ _. refl })

  pub Refines-step :
      (t : Keyspace) (y : Reply A × Keyspace) (a b : A) (q r : Queue)
      → x ≡ y
      → Refines l t A y (a, q)
      → ((k : Bytes) → same l.queue k ≡ false → same l.processing k ≡ false → t k ≡ s k)
      → a ≡ b
      → q ≡ r
      → Refines l s A x (b, r)
  Refines-step t y a b q r e h f p o =
      subst (λ x. Refines l s A x (b, r)) (sym e)
        (record {
          answer = h.answer ∙ ap reply p;
          shows = subst (Shows l y.1) o h.shows;
          frame = λ k i j. h.frame k i j ∙ f k i j;
        })

  -- A script that ends in a keyspace that shows the abstract queue's next state.
  pub Refines-move :
      (t : Keyspace) (a : A) (r : Queue)
      → x ≡ (reply a, t)
      → Shows l t r
      → ((k : Bytes) → same l.queue k ≡ false → same l.processing k ≡ false → t k ≡ s k)
      → Refines l s A x (a, r)
  Refines-move t a r e h f =
      subst (λ x. Refines l s A x (a, r)) (sym e) (record { answer = refl; shows = h; frame = f })
