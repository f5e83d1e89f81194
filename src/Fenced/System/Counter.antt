-- ===== src/Fenced/System/Counter.antt =====
-- No script but the one that takes the lock writes the epoch counter.
use mifolyo.Base.{Bool, true, false, Option, none, some}
use mifolyo.Base.{ℕ, zero, suc, String}
use mifolyo.Base.Texts.{Bytes, Text}
use mifolyo.Fenced.Store.{Kind}
use mifolyo.Fenced.Store.{IntegerCall, rpush}
use mifolyo.Fenced.Store.{BulkCall, get, lpop, Status, okay, StatusCall}
use mifolyo.Fenced.Script.{
  Script, done, type_of, integer, bulk, position, status, reject, answer_if,
}
use mifolyo.Fenced.Queue.{Layout, differs}
use mifolyo.Fenced.Queue.{either_differs, lost, renew, drop_lock, opening, claim, sizes}
use mifolyo.Fenced.Queue.{release, quarantine, recover_loop, recover}
use mifolyo.Fenced.Spec.{IsLayout}
use mifolyo.Fenced.Spares.{Spares, IntegerSpares, BulkSpares, StatusSpares}

module _ {A : Type 0} (k : Bytes) where
  reject-Spares :
      (b : Bool) (m : String) (f : Status → Script A) → Spares k (f okay) → Spares k (reject b m f)
  unfolding reject Spares
  reject-Spares true m f h = tt
  reject-Spares false m f h = h

  answer_if-Spares :
      (b : Bool) (a : A) (f : Status → Script A) → Spares k (f okay) → Spares k (answer_if b a f)
  unfolding answer_if Spares
  answer_if-Spares true a f h = tt
  answer_if-Spares false a f h = h

  type_of-Spares :
      (j : Bytes) (f : Kind → Script A) → ((t : Kind) → Spares k (f t)) → Spares k (type_of j f)
  unfolding Spares
  type_of-Spares j f h = h

  integer-Spares :
      (c : IntegerCall) (f : ℕ → Script A)
      → IntegerSpares k c
      → ((n : ℕ) → Spares k (f n))
      → Spares k (integer c f)
  unfolding Spares
  integer-Spares c f p h = (p, h)

  bulk-Spares :
      (c : BulkCall) (f : Option Text → Script A)
      → BulkSpares k c
      → ((n : Option Text) → Spares k (f n))
      → Spares k (bulk c f)
  unfolding Spares
  bulk-Spares c f p h = (p, h)

  position-Spares :
      (j : Bytes) (v : Text) (f : Option ℕ → Script A)
      → ((n : Option ℕ) → Spares k (f n))
      → Spares k (position j v f)
  unfolding Spares
  position-Spares j v f h = h

  pub status-Spares :
      (c : StatusCall) (f : Status → Script A)
      → StatusSpares k c
      → ((n : Status) → Spares k (f n))
      → Spares k (status c f)
  unfolding Spares
  status-Spares c f p h = (p, h)

  pub done-Spares : (a : A) → Spares k (done a)
  unfolding Spares
  done-Spares a = tt

  either_differs-Spares :
      (i j : Bytes) (a b : Text) (f : Bool → Script A)
      → ((t : Bool) → Spares k (f t))
      → Spares k (either_differs i a j b f)
  either_differs-Spares i j a b f h = bulk-Spares (get i) _ tt (λ o. first (differs o a))
    where
      first :
          (t : Bool)
          → Spares k (elim t [ true ↦ f true | false ↦ bulk (get j) (λ y. f (differs y b)) ])
      first true = h true
      first false = bulk-Spares (get j) _ tt (λ y. h (differs y b))

  lost-Spares :
      (l : Layout) (owner epoch : Text) (f : Bool → Script A)
      → ((t : Bool) → Spares k (f t))
      → Spares k (lost l owner epoch f)
  unfolding lost
  lost-Spares l owner epoch f h = go l.counter_first
    where
      go :
          (b : Bool)
          → Spares k (elim b [
            | true ↦ either_differs l.counter epoch l.lock owner f
            | false ↦ either_differs l.lock owner l.counter epoch f
          ])
      go true = either_differs-Spares l.counter l.lock epoch owner f h
      go false = either_differs-Spares l.lock l.counter owner epoch f h

  opening-Spares :
      (l : Layout) (owner epoch : Text) (i j : Bytes) (m n : String) (f : Status → Script A)
      → Spares k (f okay)
      → Spares k (opening l owner epoch i m j n f)
  unfolding opening
  opening-Spares l owner epoch i j m n f h = type_of-Spares _ _ (λ _. type_of-Spares _ _ (λ _.
      type_of-Spares _ _ (λ _. type_of-Spares _ _ (λ _. reject-Spares _ _ _ (
        reject-Spares _ _ _
          (reject-Spares _ _ _ (lost-Spares l owner epoch _ (λ t. reject-Spares t _ _ h))))))))

module _ (l : Layout) (d : IsLayout l) (owner epoch : Text) where
  pub renew-Spares : (ms : ℕ) → Spares l.counter (renew l owner epoch ms)
  unfolding renew
  renew-Spares ms = type_of-Spares _ _ _ (λ _. type_of-Spares _ _ _ (λ _. reject-Spares _ _ _ _ (
      lost-Spares _ l owner epoch _ (λ t.
        answer_if-Spares _ t _ _ (integer-Spares _ _ _ d.lock_counter (λ n. done-Spares _ n))))))

  pub drop_lock-Spares : Spares l.counter (drop_lock l owner epoch)
  unfolding drop_lock
  drop_lock-Spares = type_of-Spares _ _ _ (λ _. type_of-Spares _ _ _ (λ _.
      answer_if-Spares _ _ _ _ (
        lost-Spares _ l owner epoch _ (λ t.
          answer_if-Spares _ t _ _
            (integer-Spares _ _ _ (d.lock_counter, tt) (λ n. done-Spares _ n))))))

  pub claim-Spares : Spares l.counter (claim l owner epoch)
  unfolding claim
  claim-Spares =
      opening-Spares _ l owner epoch _ _ _ _ _
        (bulk-Spares _ _ _ (d.queue_counter, d.processing_counter) (λ o. done-Spares _ o))

  pub sizes-Spares : Spares l.counter (sizes l owner epoch)
  unfolding sizes
  sizes-Spares =
      opening-Spares _ l owner epoch _ _ _ _ _
        (integer-Spares _ _ _ tt (λ m. integer-Spares _ _ _ tt (λ n. done-Spares _ (m, n))))

  pub release-Spares : (v : Text) → Spares l.counter (release l owner epoch v)
  unfolding release
  release-Spares v = opening-Spares _ l owner epoch _ _ _ _ _ (
      position-Spares _ _ _ _ (λ o. answer_if-Spares _ _ _ _ (
        integer-Spares _ _ _ d.queue_counter
          (λ _. integer-Spares _ _ _ d.processing_counter (λ _. done-Spares _ 1)))))

  pub quarantine-Spares : (v : Text) (n : ℕ) → Spares l.counter (quarantine l owner epoch v n)
  unfolding quarantine
  quarantine-Spares v n = opening-Spares _ l owner epoch _ _ _ _ _ (
      position-Spares _ _ _ _ (λ o. answer_if-Spares _ _ _ _ (
        reject-Spares _ _ _ _ (
          integer-Spares _ _ _ d.dead_counter (λ _.
            status-Spares _ _ _ d.dead_counter
              (λ _. integer-Spares _ _ _ d.processing_counter (λ _. done-Spares _ 1)))))))

  recover_loop-Spares : (left n : ℕ) → Spares l.counter (recover_loop l owner epoch left n)
  unfolding recover_loop
  recover_loop-Spares zero n = done-Spares _ n
  recover_loop-Spares (suc left) n = bulk-Spares _ _ _ tt (round (recover_loop-Spares left (suc n)))
    where
      round :
          Spares l.counter (recover_loop l owner epoch left (suc n))
          → (o : Option Text)
          → Spares l.counter (elim o [
            | none ↦ done n
            | some value ↦
                integer
                  (rpush l.queue value)
                  (λ _. bulk (lpop l.processing) (λ _. recover_loop l owner epoch left (suc n)))
          ])
      round h none = done-Spares _ n
      round h (some v) =
          integer-Spares _ _ _ d.queue_counter
            (λ _. bulk-Spares _ _ _ d.processing_counter (λ _. h))

  pub recover-Spares : (n : ℕ) → Spares l.counter (recover l owner epoch n)
  unfolding recover
  recover-Spares n =
      opening-Spares _ l owner epoch _ _ _ _ _ (reject-Spares _ _ _ _ (recover_loop-Spares n 0))
