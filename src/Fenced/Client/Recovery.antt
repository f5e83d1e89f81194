-- ===== src/Fenced/Client/Recovery.antt =====
-- The recovery of claims at the start of a service ends, and leaves no claim.
use mifolyo.Base.{◌≡◌, refl, sym, ap, ◌∙◌, subst, Bool, true, false, Option, some}
use mifolyo.Base.{List, [], ◌∷◌, ℕ, zero, suc, ◌-◌, ◌*◌, ◌≤◌, ◌<◌, min, arith}
use mifolyo.Base.{length, drop, ltb, ◌==◌}
use mifolyo.Base.Texts.{Text}
use mifolyo.Base.Decimal.{str}
use mifolyo.Fenced.Store.{Keyspace, reply}
use mifolyo.Fenced.Store.{pexpire}
use mifolyo.Fenced.Script.{run}
use mifolyo.Fenced.Script.{run-integer, run-type_of, run-done, run-pass}
use mifolyo.Fenced.Queue.{Layout, owner_value}
use mifolyo.Fenced.Queue.{renew}
use mifolyo.Fenced.Queue.{recover}
use mifolyo.Fenced.Spec.{Queue, queue_of, put_back, IsLayout, Shows, Refines}
use mifolyo.Fenced.Queue.Held.{reject-run, IsHeld, lost-IsHeld}
use mifolyo.Fenced.Queue.Recover.{recover-Refines}
use mifolyo.Fenced.Session.{Outcome, ok, raise}
use mifolyo.Fenced.Session.{Session, Exec, ◌>>=◌, pure, attempt, Server, eval_script}
use mifolyo.Fenced.Client.{Config, lock_ttl_ms, with_owner, renew_lock, recover_batch}
use mifolyo.Fenced.Client.{renew_owner, is_running, recover_claims}
use mifolyo.Fenced.Client.Calm.{
  IsCalm, Gives, Gives-pure, Gives-or_else, Gives-attempt, Gives-bind, Gives-next, Gives-eval,
  Gives-running, Gives-owner,
}
use mifolyo.Fenced.History.{line, all_back, put_back-line}

module _ (l : Layout) (owner epoch : Text) (s : Keyspace) where
  renew-run :
      (ms : ℕ) → 0 < ms → IsHeld l owner epoch s → run (renew l owner epoch ms) s ≡ (reply 1, s)
  unfolding renew
  renew-run ms p h =
      run-type_of s l.lock _
      ∙ run-type_of s l.counter _
      ∙ reject-run s _ l.owner_kinds _ (rw (h.lock, h.counter) refl)
      ∙ lost-IsHeld l owner epoch s _ h
      ∙ run-pass s 0 _
      ∙ run-integer s s (pexpire l.lock ms) _ 1 (rw h.lock (ground arith))
      ∙ run-done s 1

short : (n : ℕ) → ltb (min 100 n) 100 ≡ true → n ≤ 100
short n h = ground arith

long : (n : ℕ) → ltb (min 100 n) 100 ≡ false → 100 ≤ n
long n h = ground arith

drop-length : (n : ℕ) (xs : List Text) → length (drop n xs) ≡ length xs - n
drop-length zero xs = omega arith
drop-length (suc n) [] = omega arith
drop-length (suc n) (x ∷ xs) = omega (arith, drop-length n xs)

fewer :
    (rounds : ℕ) (q : Queue)
    → length q.claimed < 100 * suc rounds
    → 100 ≤ length q.claimed
    → length (put_back 100 q).1.claimed < 100 * rounds
unfolding put_back
fewer rounds q h k = omega (arith, drop-length 100 q.claimed)

module _ {W : Type 0} (l : Layout) (d : IsLayout l) (server : Server W) (view : W → Keyspace)
    (calm : IsCalm server view) (token : Text) (n : ℕ) where
  abbrev c : Config
  c = record { owner_token = token; connected = true }

  abbrev owner : Text
  owner = owner_value token (str n)

  renew_owner-Gives :
      (s : Session W)
      → s.owner_epoch ≡ some n
      → IsHeld l owner (str n) (view s.world)
      → Gives view (renew_owner l server c) s true (view s.world)
  unfolding renew_owner renew_lock
  renew_owner-Gives s e h =
      Gives-or_else view (renew_lock l server c) false true s (view s.world) renewed
    where
      asks : Text → Text → Exec W ℕ
      asks owner epoch = eval_script server (renew l owner epoch lock_ttl_ms)

      asked : Exec W ℕ
      asked = with_owner l server c asks

      renewed : Gives view (renew_lock l server c) s true (view s.world)
      renewed =
          Gives-bind view asked (λ renewed. pure (renewed == 1)) s 1 true (view s.world)
            (view s.world)
            (Gives-owner view server calm l c asks s n 1 (view s.world) e (
              Gives-eval view server calm (renew l owner (str n) lock_ttl_ms) s 1 (view s.world)
                (renew-run l owner (str n) (view s.world) lock_ttl_ms (omega arith) h)))
            (λ t p r. subst (λ k. Gives view (pure true) t true k) p (Gives-pure view true t))

  batch-Gives :
      (s : Session W) (q : Queue)
      → s.owner_epoch ≡ some n
      → IsHeld l owner (str n) (view s.world)
      → Shows l (view s.world) q
      → Gives view
          (recover_batch l server c 100)
          s
          (min 100 (length q.claimed))
          (run (recover l owner (str n) 100) (view s.world)).1
  unfolding recover_batch put_back
  batch-Gives s q e h g =
      Gives-owner view server calm l c
        (λ owner epoch. eval_script server (recover l owner epoch 100)) s n
        (min 100 (length q.claimed)) after e
        (Gives-eval view server calm (recover l owner (str n) 100) s (min 100 (length q.claimed))
          after
          (ap (λ r. (r, after))
            (recover-Refines l d owner (str n) 100 (view s.world) q h g refl).answer))
    where
      after : Keyspace
      after = (run (recover l owner (str n) 100) (view s.world)).1

  -- The recovery returned True, with every value of the line waiting and no claim left.
  pub record IsRecovered (m : Exec W (Option Bool)) (s : Session W) (xs : List Text) : Type 0 where
    pub keyspace : Keyspace
    pub gives : Gives view m s (some true) keyspace
    pub shows : Shows l keyspace (queue_of xs [])

  IsRecovered-next :
      {A : Type 0} (m : Exec W A) (f : A → Exec W (Option Bool)) (s : Session W) (a : A)
      (k : Keyspace) (xs : List Text)
      → Gives view m s a k
      → IsRecovered (f a) (m s).1 xs
      → IsRecovered (m >>= f) s xs
  IsRecovered-next m f s a k xs g r = record {
    keyspace = r.keyspace;
    gives = Gives-next view m f s a (some true) k r.keyspace g r.gives;
    shows = r.shows;
  }

  -- The part of a round that follows the batch, by the count of claims it recovered.
  abbrev pub conclude_batch : Exec W (Option Bool) → ℕ → Exec W (Option Bool)
  conclude_batch again recovered = elim (ltb recovered 100) [
    | true ↦ pure (some true)
    | false ↦ again
  ]

  abbrev after_batch : Exec W (Option Bool) → Outcome ℕ → Exec W (Option Bool)
  after_batch again outcome = elim outcome [
    | raise _ ↦ pure (some false)
    | ok recovered ↦ conclude_batch again recovered
  ]

  abbrev after_renewal : Exec W (Option Bool) → Bool → Exec W (Option Bool)
  after_renewal again renewed = elim renewed [
    | false ↦ pure (some false)
    | true ↦ attempt (recover_batch l server c 100) >>= after_batch again
  ]

  abbrev after_running : Exec W (Option Bool) → Bool → Exec W (Option Bool)
  after_running again still = elim still [
    | false ↦ pure (some false)
    | true ↦ renew_owner l server c >>= after_renewal again
  ]

  last_batch :
      (again : Exec W (Option Bool)) (q : Queue) (s t : Session W)
      → IsHeld l owner (str n) (view s.world)
      → (g : Shows l (view s.world) q)
      → view t.world ≡ (run (recover l owner (str n) 100) (view s.world)).1
      → ((ltb (min 100 (length q.claimed)) 100 ≡ false) → IsRecovered again t (line q))
      → IsRecovered (conclude_batch again (min 100 (length q.claimed))) t (line q)
  last_batch again q s t h g p r = go (ltb (min 100 (length q.claimed)) 100) refl
    where
      back :
          Refines l
            (view s.world)
            ℕ
            (run (recover l owner (str n) 100) (view s.world))
            (put_back 100 q)
      back = recover-Refines l d owner (str n) 100 (view s.world) q h g refl

      go :
          (b : Bool)
          → ltb (min 100 (length q.claimed)) 100 ≡ b
          → IsRecovered
              (elim b as (λ _. Exec W (Option Bool)) [ true ↦ pure (some true) | false ↦ again ])
              t
              (line q)
      go true e = record {
        keyspace = view t.world;
        gives = Gives-pure view (some true) t;
        shows =
            subst (λ x. Shows l x (queue_of (line q) [])) (sym p)
              (subst (Shows l (run (recover l owner (str n) 100) (view s.world)).1)
                (all_back 100 q (line q) (short (length q.claimed) e) refl) back.shows);
      }
      go false e = r e

  back :
      (s : Session W) (q : Queue)
      → IsHeld l owner (str n) (view s.world)
      → Shows l (view s.world) q
      → Refines l
          (view s.world)
          ℕ
          (run (recover l owner (str n) 100) (view s.world))
          (put_back 100 q)
  back s q h g = recover-Refines l d owner (str n) 100 (view s.world) q h g refl

  back-IsHeld :
      (s : Session W) (q : Queue)
      → IsHeld l owner (str n) (view s.world)
      → Shows l (view s.world) q
      → IsHeld l owner (str n) (run (recover l owner (str n) 100) (view s.world)).1
  back-IsHeld s q h g = record {
    lock = (back s q h g).frame l.lock d.queue_lock d.processing_lock ∙ h.lock;
    counter = (back s q h g).frame l.counter d.queue_counter d.processing_counter ∙ h.counter;
  }

  -- recover_claims ends: over a network that serves every request, with the lock held and no termination
  -- signal, more than one hundredth as many rounds of the loop as there are claims are enough for it to
  -- return True, and then no claim is left and all of them wait again, to be taken before the values that
  -- waited.
  pub recover_claims_finishes :
      (rounds : ℕ) (q : Queue) (s : Session W)
      → s.owner_epoch ≡ some n
      → IsHeld l owner (str n) (view s.world)
      → Shows l (view s.world) q
      → length q.claimed < 100 * rounds
      → IsRecovered (recover_claims l server c rounds) s (line q)
  unfolding recover_claims
  recover_claims_finishes zero q s e h g k = absurd (omega arith)
  recover_claims_finishes (suc rounds) q s e h g k =
      IsRecovered-next (is_running l server c) (after_running (recover_claims l server c rounds)) s
        true (view s.world) (line q) running
        (IsRecovered-next (renew_owner l server c)
          (after_renewal (recover_claims l server c rounds)) s1 true (view s1.world) (line q)
          renewed
          (IsRecovered-next (attempt (recover_batch l server c 100))
            (after_batch (recover_claims l server c rounds)) s2 (ok (min 100 (length q.claimed))) k'
            (line q) batch
            (last_batch (recover_claims l server c rounds) q s2 s3 h2 g2 batch.keyspace (λ b.
              subst (IsRecovered (recover_claims l server c rounds) s3) (put_back-line 100 q) (
                recover_claims_finishes rounds (put_back 100 q).1 s3 (batch.epoch ∙ e2)
                  (subst (IsHeld l owner (str n)) (sym batch.keyspace) (back-IsHeld s2 q h2 g2))
                  (subst (λ x. Shows l x (put_back 100 q).1) (sym batch.keyspace)
                    (back s2 q h2 g2).shows)
                  (fewer rounds q k (long (length q.claimed) b)))))))
    where
      s1 : Session W
      s1 = (is_running l server c s).1

      running : Gives view (is_running l server c) s true (view s.world)
      running = Gives-running view server calm l c s

      h1 : IsHeld l owner (str n) (view s1.world)
      h1 = subst (IsHeld l owner (str n)) (sym running.keyspace) h

      renewed : Gives view (renew_owner l server c) s1 true (view s1.world)
      renewed = renew_owner-Gives s1 (running.epoch ∙ e) h1

      s2 : Session W
      s2 = (renew_owner l server c s1).1

      e2 : s2.owner_epoch ≡ some n
      e2 = renewed.epoch ∙ running.epoch ∙ e

      h2 : IsHeld l owner (str n) (view s2.world)
      h2 = subst (IsHeld l owner (str n)) (sym renewed.keyspace) h1

      g2 : Shows l (view s2.world) q
      g2 = subst (λ x. Shows l x q) (sym (renewed.keyspace ∙ running.keyspace)) g

      k' : Keyspace
      k' = (run (recover l owner (str n) 100) (view s2.world)).1

      batch :
          Gives view
            (attempt (recover_batch l server c 100))
            s2
            (ok (min 100 (length q.claimed)))
            k'
      batch = Gives-attempt view (recover_batch l server c 100) _ s2 k' (batch-Gives s2 q e2 h2 g2)

      s3 : Session W
      s3 = (attempt (recover_batch l server c 100) s2).1
