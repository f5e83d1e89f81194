-- ===== src/Fenced/Queue/Held.antt =====
-- What the fence of the queue scripts lets pass: the owner, and nobody else.
use mifolyo.Base.{◌≡◌, refl, ap, ◌∙◌, ◌≢◌, Bool, true, false, not, some}
use mifolyo.Base.{List, String}
use mifolyo.Base.Texts.{Bytes, Text, same, same_refl}
use mifolyo.Fenced.Store.{Value, absent, other, text, items, fields, members, Keyspace, kind}
use mifolyo.Fenced.Store.{as_list}
use mifolyo.Fenced.Store.{get, Status, okay}
use mifolyo.Fenced.Script.{Script, bulk, reject, eval, run}
use mifolyo.Fenced.Queue.{Layout, differs}
use mifolyo.Fenced.Queue.{either_differs, lost, not_strings, not_list, opening}

-- The lock and the epoch counter are the ones that a client presents.
pub record IsHeld (l : Layout) (owner epoch : Text) (s : Keyspace) : Type 0 where
  pub lock : s l.lock ≡ text owner
  pub counter : s l.counter ≡ text epoch

-- The epoch that a client presents is not the counter's.
abbrev pub IsStale : Layout → Text → Keyspace → Type 0
IsStale l epoch s = s l.counter ≢ text epoch

pub list_kind : (v : Value) (xs : List Text) → as_list v ≡ some xs → not_list (kind v) ≡ false
list_kind absent xs h = refl
list_kind other xs h = cc
list_kind (text _) xs h = cc
list_kind (items _) xs h = refl
list_kind (fields _) xs h = cc
list_kind (members _) xs h = cc

module _ {A : Type 0} (s : Keyspace) where
  pub reject-run :
      (b : Bool) (m : String) (f : Status → Script A)
      → b ≡ false
      → run (reject b m f) s ≡ run (f okay) s
  unfolding reject
  reject-run true m f h = cc
  reject-run false m f h = refl

module _ {A : Type 0} (l : Layout) (owner epoch : Text) (s : Keyspace) where
  either_differs-run :
      (j k : Bytes) (a b : Text) (f : Bool → Script A)
      → s j ≡ text a
      → s k ≡ text b
      → run (either_differs j a k b f) s ≡ run (f false) s
  unfolding eval
  either_differs-run j k a b f p q = rw p (first (not (same a a)) (rw (same_refl a) refl))
    where
      second : (t : Bool) → t ≡ false → run (f t) s ≡ run (f false) s
      second t e = ap (λ (t : Bool). run (f t) s) e

      first :
          (t : Bool)
          → t ≡ false
          → run (elim t [ true ↦ f true | false ↦ bulk (get k) (λ y. f (differs y b)) ]) s
            ≡ run (f false) s
      first true e = cc
      first false e = rw q (second (not (same b b)) (rw (same_refl b) refl))

  pub lost-IsHeld :
      (f : Bool → Script A)
      → IsHeld l owner epoch s
      → run (lost l owner epoch f) s ≡ run (f false) s
  unfolding lost
  lost-IsHeld f h = go l.counter_first
    where
      go :
          (b : Bool)
          → run
              (elim b [
                | true ↦ either_differs l.counter epoch l.lock owner f
                | false ↦ either_differs l.lock owner l.counter epoch f
              ])
              s
            ≡ run (f false) s
      go true = either_differs-run l.counter l.lock epoch owner f h.counter h.lock
      go false = either_differs-run l.lock l.counter owner epoch f h.lock h.counter

  pub opening-IsHeld :
      (j k : Bytes) (m n : String) (f : Status → Script A) (xs ys : List Text)
      → IsHeld l owner epoch s
      → as_list (s j) ≡ some xs
      → as_list (s k) ≡ some ys
      → run (opening l owner epoch j m k n f) s ≡ run (f okay) s
  unfolding opening eval reject
  opening-IsHeld j k m n f xs ys h hj hk =
      reject-run s (not_strings (kind (s l.lock)) (kind (s l.counter))) l.owner_kinds (λ _. rest)
        (rw (h.lock, h.counter) refl)
      ∙ reject-run s (not_list (kind (s j))) m (λ _. later) (list_kind (s j) xs hj)
      ∙ reject-run s (not_list (kind (s k))) n (λ _. fence) (list_kind (s k) ys hk)
      ∙ lost-IsHeld (λ is_lost. reject is_lost "LOCK_LOST" (λ _. f okay)) h
    where
      fence : Script A
      fence = lost l owner epoch (λ is_lost. reject is_lost "LOCK_LOST" (λ _. f okay))

      later : Script A
      later = reject (not_list (kind (s k))) n (λ _. fence)

      rest : Script A
      rest = reject (not_list (kind (s j))) m (λ _. later)
