-- ===== src/Fenced/Queue/Acquire.antt =====
-- The script that takes the lock: a free lock is taken under the next epoch.
use mifolyo.Base.{◌≡◌, refl, ap, ◌∙◌, true, false, not, ◌&&◌, none, some}
use mifolyo.Base.{ℕ, zero, suc, ◌≤◌, ◌<◌, arith}
use mifolyo.Base.Texts.{Text}
use mifolyo.Base.Decimal.{str, int_of-str, is_canonical-str}
use mifolyo.Fenced.Store.{Value, absent, text, Keyspace, reply, error, kind}
use mifolyo.Fenced.Store.{exists, incr}
use mifolyo.Fenced.Store.{get}
use mifolyo.Fenced.Memory.{incremented, put}
use mifolyo.Fenced.Script.{run}
use mifolyo.Fenced.Script.{
  run-integer, run-bulk, run-status, run-type_of, run-rejected, run-done, run-pass,
}
use mifolyo.Fenced.Queue.{
  Layout, is_none, is_string, max_epoch, invalid_epoch, owner_value, take_lock, next_epoch, acquire,
}
use mifolyo.Fenced.Spec.{IsLayout}
use mifolyo.Fenced.Spec.{put-same, put-other}
use mifolyo.Fenced.Queue.Held.{reject-run, IsHeld}

-- The value of the counter at epoch n: before the first epoch there is none.
abbrev pub epoch_text : ℕ → Value
epoch_text zero = absent
epoch_text (suc n) = text (str (suc n))

abbrev pub IsEpoch : Layout → ℕ → Keyspace → Type 0
IsEpoch l n s = s l.counter ≡ epoch_text n

module _ (l : Layout) (d : IsLayout l) (token : Text) (ms : ℕ) (s : Keyspace) where
  -- The keyspace in which the counter has moved on to epoch n, and the one in which the lock is taken too.
  abbrev pub counted_to : ℕ → Keyspace
  counted_to n = put l.counter (text (str n)) s

  abbrev pub taken : ℕ → Keyspace
  taken n = put l.lock (text (owner_value token (str n))) (counted_to n)

  pub lock_step :
      (n : ℕ)
      → 0 < ms
      → run (take_lock l token ms (some (str n))) (counted_to n) ≡ (reply (some (str n)), taken n)
  lock_step n p = run-status (counted_to n) (taken n) _ _ (ground arith) ∙ run-done (taken n) _

  valid : (n : ℕ) → 0 < n → n < max_epoch → invalid_epoch (some (str n)) ≡ false
  valid n p q = rw (is_canonical-str n p, int_of-str n) (ground arith)

  pub count_step :
      (n : ℕ)
      → IsEpoch l n s
      → n < max_epoch
      → run (next_epoch l token ms) s
        ≡ run (take_lock l token ms (some (str (suc n)))) (counted_to (suc n))
  unfolding next_epoch
  count_step zero e q =
      run-bulk s s (get l.counter) _ none (rw e refl)
      ∙ reject-run s _ l.counter_value _ refl
      ∙ run-integer s (counted_to 1) (incr l.counter) _ 1 (rw e refl)
      ∙ run-bulk (counted_to 1) (counted_to 1) (get l.counter) _ (some (str 1))
          (rw (put-same l.counter (text (str 1)) s) refl)
  count_step (suc n) e q =
      run-bulk s s (get l.counter) _ (some (str (suc n))) (rw e refl)
      ∙ reject-run s _ l.counter_value _ (valid (suc n) (omega arith) q)
      ∙ run-integer s (counted_to (suc (suc n))) (incr l.counter) _ (suc (suc n))
          (rw e (ap (incremented l.counter s) (int_of-str (suc n))))
      ∙ run-bulk (counted_to (suc (suc n))) (counted_to (suc (suc n))) (get l.counter) _
          (some (str (suc (suc n)))) (rw (put-same l.counter (text (str (suc (suc n)))) s) refl)

  counter_kind :
      (n : ℕ)
      → IsEpoch l n s
      → (not (is_none (kind (s l.counter))) && not (is_string (kind (s l.counter)))) ≡ false
  counter_kind zero e = rw e refl
  counter_kind (suc n) e = rw e refl

  free_step :
      (n : ℕ)
      → s l.lock ≡ absent
      → IsEpoch l n s
      → run (acquire l token ms) s ≡ run (next_epoch l token ms) s
  unfolding acquire
  free_step n a e =
      run-type_of s l.lock _
      ∙ run-type_of s l.counter _
      ∙ reject-run s _ "owner lock must be a string" _ (rw a refl)
      ∙ reject-run s _ l.counter_kind _ (counter_kind n e)
      ∙ run-integer s s (exists l.lock) _ 0 (rw a refl)
      ∙ run-pass s none _

  -- A free lock is taken under the next epoch.
  pub acquire-free :
      (n : ℕ)
      → s l.lock ≡ absent
      → IsEpoch l n s
      → n < max_epoch
      → 0 < ms
      → run (acquire l token ms) s ≡ (reply (some (str (suc n))), taken (suc n))
  acquire-free n a e q p = free_step n a e ∙ count_step n e q ∙ lock_step (suc n) p

  pub taken-IsHeld : (n : ℕ) → IsHeld l (owner_value token (str n)) (str n) (taken n)
  taken-IsHeld n = record {
    lock = put-same l.lock _ _;
    counter = put-other l.lock l.counter _ _ d.lock_counter ∙ put-same l.counter _ s;
  }

  -- The last epoch that a Lua number counts exactly is not counted past.
  pub next_epoch-exhausted :
      (n : ℕ)
      → IsEpoch l n s
      → max_epoch ≤ n
      → run (next_epoch l token ms) s ≡ (error l.counter_value, s)
  unfolding next_epoch
  next_epoch-exhausted zero e q = ground arith
  next_epoch-exhausted (suc n) e q =
      run-bulk s s (get l.counter) _ (some (str (suc n))) (rw e refl)
      ∙ run-rejected s _ l.counter_value _ (spent (suc n) (omega arith) q)
    where
      spent : (n : ℕ) → 0 < n → max_epoch ≤ n → invalid_epoch (some (str n)) ≡ true
      spent n p q = rw (is_canonical-str n p, int_of-str n) (ground arith)
