-- ===== src/Fenced/System/Fence.antt =====
-- The fence over time: the counter never falls, and a client of an older epoch writes nothing.
use mifolyo.Base.{
  ◌≡◌, refl, sym, ap, ◌∙◌, subst, ◌⊎◌, inl, inr, Bool, true, false, Option, none, some,
}
use mifolyo.Base.{ℕ, zero, suc, ◌≤◌, ◌<◌, String, arith}
use mifolyo.Base.{ltb, ltb→lt, Bool-cases}
use mifolyo.Base.Texts.{Text}
use mifolyo.Base.Decimal.{str, str_injective}
use mifolyo.Fenced.Store.{text, Keyspace, Reply, reply, error}
use mifolyo.Fenced.Store.{exists}
use mifolyo.Fenced.Store.{Status, okay, Redis}
use mifolyo.Fenced.Memory.{IsRedis}
use mifolyo.Fenced.Script.{Script, reject, answer_if, eval, run, eval-run}
use mifolyo.Fenced.Script.{run-integer, run-type_of}
use mifolyo.Fenced.Queue.{Layout, max_epoch, take_lock, next_epoch, acquire}
use mifolyo.Fenced.Spec.{IsLayout}
use mifolyo.Fenced.Spec.{put-same}
use mifolyo.Fenced.Queue.Held.{IsStale}
use mifolyo.Fenced.Spares.{Spares, run-keeps}
use mifolyo.Fenced.System.{Operation, perform, Step, Reach, presents}
use mifolyo.Fenced.System.{
  acquiring, renewing, dropping, claiming, sizing, recovering, releasing, quarantining, operate,
  outside, stay, then_step,
}
use mifolyo.Fenced.System.Counter.{
  renew-Spares, drop_lock-Spares, claim-Spares, sizes-Spares, release-Spares, quarantine-Spares,
  recover-Spares,
}
use mifolyo.Fenced.Queue.Acquire.{next_epoch-exhausted, IsEpoch, count_step, counted_to}
use mifolyo.Fenced.Queue.Stale.{
  IsIdle, renew-IsIdle, drop_lock-IsIdle, claim-IsIdle, sizes-IsIdle, release-IsIdle,
  quarantine-IsIdle, recover-IsIdle,
}

-- The counter holds the epoch n or the next one.
abbrev pub IsNext : Layout → ℕ → Keyspace → Type 0
IsNext l n s = IsEpoch l n s ⊎ IsEpoch l (suc n) s

-- What holds after a script, by its branches.
module _ {A : Type 0} (P : Reply A × Keyspace → Type 0) (s : Keyspace) where
  pub reject-ends :
      (b : Bool) (m : String) (f : Status → Script A)
      → P (error m, s)
      → P (run (f okay) s)
      → P (run (reject b m f) s)
  unfolding reject eval
  reject-ends true m f h g = h
  reject-ends false m f h g = g

  pub answer_if-ends :
      (b : Bool) (a : A) (f : Status → Script A)
      → P (reply a, s)
      → P (run (f okay) s)
      → P (run (answer_if b a f) s)
  unfolding answer_if eval
  answer_if-ends true a f h g = h
  answer_if-ends false a f h g = g

not_below : (n : ℕ) → ltb n max_epoch ≡ false → max_epoch ≤ n
not_below n h = ground arith

module _ (l : Layout) (d : IsLayout l) (token : Text) (ms : ℕ) (s : Keyspace) (n : ℕ)
    (e : IsEpoch l n s) where
  lock-keeps :
      (o : Option Text) (t : Keyspace) → (run (take_lock l token ms o) t).1 l.counter ≡ t l.counter
  unfolding Spares
  lock-keeps none t = run-keeps l.counter (take_lock l token ms none) t tt
  lock-keeps (some v) t =
      run-keeps l.counter (take_lock l token ms (some v)) t (d.lock_counter, λ _. tt)

  next_epoch-IsNext : IsNext l n (run (next_epoch l token ms) s).1
  next_epoch-IsNext = elim (Bool-cases (ltb n max_epoch)) [
    | inl b ↦ inr (
        ap (λ x. x.1 l.counter) (count_step l d token ms s n e (ltb→lt n max_epoch b))
        ∙ lock-keeps (some (str (suc n))) (counted_to l d token ms s (suc n))
        ∙ put-same l.counter _ s)
    | inr b ↦
        inl (ap (λ x. x.1 l.counter) (next_epoch-exhausted l d token ms s n e (not_below n b)) ∙ e)
  ]

  acquire-IsNext : IsNext l n (run (acquire l token ms) s).1
  unfolding acquire
  acquire-IsNext = subst P (sym (run-type_of s l.lock _ ∙ run-type_of s l.counter _)) (
      reject-ends P s _ _ _ (inl e) (
        reject-ends P s _ _ _ (inl e) (
          subst P (sym (run-integer s s (exists l.lock) _ _ refl))
            (answer_if-ends P s _ _ _ (inl e) next_epoch-IsNext))))
    where
      P : Reply (Option Text) × Keyspace → Type 0
      P x = IsNext l n x.1

IsStale-cong :
    (l : Layout) (s : Keyspace) (e t : Text) → some e ≡ some t → IsStale l t s → IsStale l e s
IsStale-cong l s e t p h q = h (cc)

module _ {W : Type 0} (redis : Redis W) (view : W → Keyspace) (law : IsRedis redis view) where
  seen_after : {A : Type 0} (p : Script A) (w : W) → view (eval redis p w).1 ≡ (run p (view w)).1
  seen_after p w = ap (λ x. x.1) (eval-run view redis law p w)

  module _ (l : Layout) (d : IsLayout l) where
    spared :
        {A : Type 0} (p : Script A) (w : W) (n : ℕ)
        → Spares l.counter p
        → IsEpoch l n (view w)
        → IsNext l n (view (eval redis p w).1)
    spared p w n h e =
        inl (
          ap (λ (s : Keyspace). s l.counter) (seen_after p w)
          ∙ run-keeps l.counter p (view w) h
          ∙ e)

    pub perform-IsNext :
        (o : Operation) (w : W) (n : ℕ)
        → IsEpoch l n (view w)
        → IsNext l n (view (perform l redis o w))
    unfolding perform
    perform-IsNext (acquiring token ms) w n e =
        subst (IsNext l n) (sym (seen_after (acquire l token ms) w))
          (acquire-IsNext l d token ms (view w) n e)
    perform-IsNext (renewing owner epoch ms) w n e =
        spared _ w n (renew-Spares l d owner epoch ms) e
    perform-IsNext (dropping owner epoch) w n e = spared _ w n (drop_lock-Spares l d owner epoch) e
    perform-IsNext (claiming owner epoch) w n e = spared _ w n (claim-Spares l d owner epoch) e
    perform-IsNext (sizing owner epoch) w n e = spared _ w n (sizes-Spares l d owner epoch) e
    perform-IsNext (recovering owner epoch limit) w n e =
        spared _ w n (recover-Spares l d owner epoch limit) e
    perform-IsNext (releasing owner epoch v) w n e =
        spared _ w n (release-Spares l d owner epoch v) e
    perform-IsNext (quarantining owner epoch v limit) w n e =
        spared _ w n (quarantine-Spares l d owner epoch v limit) e

    -- An operation under an epoch that is not the counter's leaves every key as it is.
    idle :
        {A : Type 0} (p : Script A) (w : W) → IsIdle p (view w) → view (eval redis p w).1 ≡ view w
    unfolding IsIdle
    idle p w h = seen_after p w ∙ h

    pub perform-IsIdle :
        (o : Operation) (w : W) (epoch : Text)
        → presents o ≡ some epoch
        → IsStale l epoch (view w)
        → view (perform l redis o w) ≡ view w
    unfolding perform
    perform-IsIdle (acquiring token ms) w t p h = cc
    perform-IsIdle (renewing owner e ms) w t p h =
        idle _ w (renew-IsIdle l owner e (view w) (IsStale-cong l (view w) e t p h) ms)
    perform-IsIdle (dropping owner e) w t p h =
        idle _ w (drop_lock-IsIdle l owner e (view w) (IsStale-cong l (view w) e t p h))
    perform-IsIdle (claiming owner e) w t p h =
        idle _ w (claim-IsIdle l owner e (view w) (IsStale-cong l (view w) e t p h))
    perform-IsIdle (sizing owner e) w t p h =
        idle _ w (sizes-IsIdle l owner e (view w) (IsStale-cong l (view w) e t p h))
    perform-IsIdle (recovering owner e n) w t p h =
        idle _ w (recover-IsIdle l owner e (view w) (IsStale-cong l (view w) e t p h) n)
    perform-IsIdle (releasing owner e v) w t p h =
        idle _ w (release-IsIdle l owner e (view w) (IsStale-cong l (view w) e t p h) v)
    perform-IsIdle (quarantining owner e v n) w t p h =
        idle _ w (quarantine-IsIdle l owner e (view w) (IsStale-cong l (view w) e t p h) v n)

    Step-Epoch :
        (w w' : W) (n : ℕ) → Step l redis view w w' → IsEpoch l n (view w) → IsNext l n (view w')
    Step-Epoch _ _ n (operate o w) e = perform-IsNext o w n e
    Step-Epoch _ _ n (outside w w' h) e = inl (h ∙ e)

    pub Reach-Epoch :
        (w w' : W) (n : ℕ)
        → Reach l redis view w w'
        → IsEpoch l n (view w)
        → (m : ℕ) × (n ≤ m) × IsEpoch l m (view w')
    Reach-Epoch _ _ n (stay w) e = (n, omega arith, e)
    Reach-Epoch _ _ n (then_step {w = w} {w' = w'} {w'' = w''} r q) e =
        let (m, h, f) = Reach-Epoch w w' n r e in go m h (Step-Epoch w' w'' m q f)
      where
        go : (m : ℕ) → n ≤ m → IsNext l m (view w'') → (m : ℕ) × (n ≤ m) × IsEpoch l m (view w'')
        go m h (inl f) = (m, h, f)
        go m h (inr f) = (suc m, omega arith, f)

    other_epoch : (m n : ℕ) (s : Keyspace) → n < m → IsEpoch l m s → IsStale l (str n) s
    other_epoch zero n s p e q = absurd (omega arith)
    other_epoch (suc m) n s p e q =
        absurd (omega (arith, str_injective (suc m) n (text_injective _ _ (sym e ∙ q))))
      where
        text_injective : (a b : Text) → text a ≡ text b → a ≡ b
        text_injective a b h = cc

    -- A script that changes nothing under a stale epoch changes nothing ever after.
    pub stale_script_writes_nothing :
        {A : Type 0} (p : Script A) (w w' : W) (n e : ℕ)
        → IsEpoch l n (view w)
        → e < n
        → Reach l redis view w w'
        → ((s : Keyspace) → IsStale l (str e) s → IsIdle p s)
        → view (eval redis p w').1 ≡ view w'
    stale_script_writes_nothing p w w' n e h q r f =
        let (m, k, g) = Reach-Epoch w w' n r h in
        idle p w' (f (view w') (other_epoch m e (view w') (omega arith) g))

    -- Once the epoch counter has passed the epoch of a client, none of the scripts that both services
    -- have (renewing or dropping the lock, claiming, counting, recovering, releasing, quarantining) ever
    -- changes a key again for that client: not the lock, the queue, the claims, the dead letters or
    -- anything else, whatever the clients, the lock's expiry and the other writers do in between, as long
    -- as nobody else writes the counter.
    pub stale_client_writes_nothing :
        (w w' : W) (n e : ℕ) (o : Operation)
        → IsEpoch l n (view w)
        → e < n
        → Reach l redis view w w'
        → presents o ≡ some (str e)
        → view (perform l redis o w') ≡ view w'
    stale_client_writes_nothing w w' n e o h p r q =
        let (m, k, f) = Reach-Epoch w w' n r h in
        perform-IsIdle o w' (str e) q (other_epoch m e (view w') (omega arith) f)
