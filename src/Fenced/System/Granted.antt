-- ===== src/Fenced/System/Granted.antt =====
-- A client that is granted the lock holds it under an epoch that nobody has held before.
use mifolyo.Base.{◌≡◌, refl, sym, ◌∙◌, subst, inl, inr, true, false, Option, some}
use mifolyo.Base.{ℕ, suc, ◌≤◌, ◌<◌, arith}
use mifolyo.Base.{ltb→lt, ltb, ◌==◌, Bool-cases}
use mifolyo.Base.Texts.{Text}
use mifolyo.Base.Decimal.{str}
use mifolyo.Fenced.Store.{
  Value, absent, other, text, items, fields, members, Keyspace, Reply, reply,
}
use mifolyo.Fenced.Store.{exists}
use mifolyo.Fenced.Store.{set_px, Redis}
use mifolyo.Fenced.Memory.{is_absent}
use mifolyo.Fenced.Memory.{IsRedis}
use mifolyo.Fenced.Script.{eval, run, seen, eval-run}
use mifolyo.Fenced.Script.{run-integer, run-type_of, run-status-error}
use mifolyo.Fenced.Queue.{Layout, max_epoch, owner_value, take_lock, next_epoch, acquire}
use mifolyo.Fenced.Spec.{IsLayout}
use mifolyo.Fenced.Queue.Held.{IsHeld}
use mifolyo.Fenced.System.{Reach}
use mifolyo.Fenced.System.Fence.{reject-ends, answer_if-ends, Reach-Epoch}
use mifolyo.Fenced.Queue.Acquire.{
  IsEpoch, count_step, counted_to, taken, lock_step, taken-IsHeld, next_epoch-exhausted,
}

absent_value : (v : Value) → is_absent v ≡ true → v ≡ absent
absent_value absent h = refl
absent_value other h = cc
absent_value (text _) h = cc
absent_value (items _) h = cc
absent_value (fields _) h = cc
absent_value (members _) h = cc

not_below : (n : ℕ) → ltb n max_epoch ≡ false → max_epoch ≤ n
not_below n h = ground arith

module _ (l : Layout) (d : IsLayout l) (token : Text) (ms : ℕ) (s : Keyspace) (n : ℕ)
    (e : IsEpoch l n s) (t : Text) where
  -- A script that replies with the epoch t ends with the lock held under t, the epoch after n.
  abbrev pub Grants : Reply (Option Text) × Keyspace → Type 0
  Grants x = x.0 ≡ reply (some t) → (t ≡ str (suc n)) × IsHeld l (owner_value token t) t x.1

  lock-Grants :
      Grants (run (take_lock l token ms (some (str (suc n)))) (counted_to l d token ms s (suc n)))
  lock-Grants = elim (Bool-cases (ms == 0)) [
    | inl b ↦
        subst Grants
          (sym (
            run-status-error (counted_to l d token ms s (suc n)) (counted_to l d token ms s (suc n))
              (set_px l.lock (owner_value token (str (suc n))) ms) _
              "ERR invalid expire time in 'set' command" (rw b refl)))
          (λ h. cc)
    | inr b ↦
        subst Grants (sym (lock_step l d token ms s (suc n) (positive ms b)))
          (λ h. granted (epoch_eq (str (suc n)) h))
  ]
    where
      epoch_eq :
          (u : Text) → ◌≡◌ {A = Reply (Option Text)} (reply (some u)) (reply (some t)) → t ≡ u
      epoch_eq u h = cc

      granted :
          t ≡ str (suc n)
          → (t ≡ str (suc n)) × IsHeld l (owner_value token t) t (taken l d token ms s (suc n))
      granted p = (
        p,
        subst (λ u. IsHeld l (owner_value token u) u (taken l d token ms s (suc n))) (sym p)
            (taken-IsHeld l d token ms s (suc n)),
      )

      positive : (m : ℕ) → (m == 0) ≡ false → 0 < m
      positive m h = ground arith

  next_epoch-Grants : Grants (run (next_epoch l token ms) s)
  next_epoch-Grants = elim (Bool-cases (ltb n max_epoch)) [
    | inl b ↦ subst Grants (sym (count_step l d token ms s n e (ltb→lt n max_epoch b))) lock-Grants
    | inr b ↦ subst Grants (sym (next_epoch-exhausted l d token ms s n e (not_below n b))) (λ h. cc)
  ]

  acquire-Grants : Grants (run (acquire l token ms) s)
  unfolding acquire
  acquire-Grants = subst Grants (sym (run-type_of s l.lock _ ∙ run-type_of s l.counter _)) (
      reject-ends Grants s _ _ _ (λ h. cc)
        (reject-ends Grants s _ _ _ (λ h. cc)
          (subst Grants (sym (run-integer s s (exists l.lock) _ _ refl))
            (answer_if-ends Grants s _ _ _ (λ h. cc) next_epoch-Grants))))

module _ {W : Type 0} (redis : Redis W) (view : W → Keyspace) (law : IsRedis redis view) where
  -- When the script that takes the lock replies with an epoch, that epoch is larger than every one the
  -- counter has shown before, and the lock and the counter are then the client's: from a state with
  -- epoch n, whatever steps the clients and the other programs have made since, as long as nobody else
  -- writes the counter.
  pub granted_epoch_is_new :
      (l : Layout) (d : IsLayout l) (w w' : W) (n ms : ℕ) (token t : Text)
      → IsEpoch l n (view w)
      → Reach l redis view w w'
      → (eval redis (acquire l token ms) w').0 ≡ reply (some t)
      → ((m : ℕ) × (n < m) × (t ≡ str m))
        × IsHeld l (owner_value token t) t (view (eval redis (acquire l token ms) w').1)
  granted_epoch_is_new l d w w' n ms token t h r q = go (Reach-Epoch redis view law l d w w' n r h)
    where
      x : Reply (Option Text) × Keyspace
      x = seen view (eval redis (acquire l token ms) w')

      go :
          (m : ℕ) × (n ≤ m) × IsEpoch l m (view w')
          → ((m : ℕ) × (n < m) × (t ≡ str m)) × IsHeld l (owner_value token t) t x.1
      go (m, k, e) =
          let g =
            subst (Grants l d token ms (view w') m e t)
              (sym (eval-run view redis law (acquire l token ms) w'))
              (acquire-Grants l d token ms (view w') m e t) q in
          ((suc m, omega arith, g.0), g.1)
