-- ===== src/Indexer/Main/Exit.antt =====
-- The exit codes of services/indexer/main.py.
use mifolyo.Base.{◌≡◌, refl, ◌⊎◌, inl, inr, Bool, true, false, Option, none, some}
use mifolyo.Base.{ℕ, zero, suc}
use mifolyo.Base.{if◌then◌else◌}
use mifolyo.Base.Texts.{Text}
use mifolyo.Fenced.Session.{Outcome, ok, raise}
use mifolyo.Fenced.Session.{Session, Exec, ◌>>=◌, pure, or_else, attempt, finally, Server}
use mifolyo.Fenced.Client.{Config, release_lock}
use mifolyo.Fenced.Client.{is_running, pause, now, acquire_owner, recover_claims}
use mifolyo.Fenced.Session.Inversion.{
  Always, pure-Always, Branch-Always, bind-Always, then-Always, finally-Always, Branch, value_eq,
}
use mifolyo.Indexer.Main.{Verdict, completed, skipped, quarantined, transient_failure, Services}
use mifolyo.Indexer.Main.{process_claim}
use mifolyo.Indexer.Main.{
  with_signal, Turn, Next, exit, again, renew_when_due, take_claim, after_verdict, handle_claim,
  after_claim, work_round, work_loop, stopped, run_owned, run_indexer,
}
use mifolyo.Indexer.Scripts.{indexer}
use mifolyo.Indexer.Client.{parse_page_publication_key, quarantine_page, release_page}

module _ {W Keywords Outlinks : Type 0} (server : Server W) (c : Config)
    (services : Services W Keywords Outlinks) where
  -- Somewhere the code read that a termination signal had arrived.
  abbrev pub Stopped : Type 0
  Stopped = (w : W) × ((server.running w).0 ≡ false)

  abbrev pub IsExit : ℕ → Type 0
  IsExit n = (n ≡ 1) ⊎ ((n ≡ 0) × Stopped)

  abbrev pub IsResult : Option ℕ → Type 0
  IsResult none = Unit
  IsResult (some n) = IsExit n

  abbrev IsNext : Next → Type 0
  IsNext (exit n) = IsExit n
  IsNext (again t) = Unit

  -- What a reading of `running` tells.
  abbrev Tells : Bool → Type 0
  Tells true = Unit
  Tells false = Stopped

  running-Tells : (s t : Session W) (b : Bool) → is_running indexer server c s ≡ (ok b, t) → Tells b
  running-Tells s t true h = tt
  running-Tells s t false h = (s.world, value_eq (server.running s.world).0 false _ t h)

  stopped-Always : Always IsResult (stopped server c services)
  unfolding stopped
  stopped-Always = then-Always IsResult Tells (is_running indexer server c) _ running-Tells code
    where
      code :
          (still : Bool)
          → Tells still
          → Always {W = W} IsResult (pure (some (if still then 1 else 0)))
      code true h = pure-Always IsResult (some 1) (inl refl)
      code false h = pure-Always IsResult (some 0) (inr (refl, h))

  verdict-Always :
      (page_key : Text) (t : Turn) (v : Verdict)
      → Always IsNext (after_verdict server c services page_key t v)
  unfolding after_verdict
  verdict-Always page_key t completed = pure-Always IsNext (again t) tt
  verdict-Always page_key t skipped = pure-Always IsNext (again t) tt
  verdict-Always page_key t quarantined = pure-Always IsNext (again t) tt
  verdict-Always page_key t transient_failure =
      bind-Always IsNext (release_page server c page_key) _
        (λ _. pure-Always IsNext (exit 1) (inl refl))

  -- A round that stops when it reads that a signal has arrived, and goes on otherwise.
  stop-Always :
      (y : Exec W Next)
      → Always IsNext y
      → Always IsNext (is_running indexer server c >>= Branch (pure (exit 0)) y)
  stop-Always y h = then-Always IsNext Tells (is_running indexer server c) _ running-Tells next
    where
      next : (still : Bool) → Tells still → Always IsNext (Branch (pure (exit 0)) y still)
      next true p = h
      next false p = pure-Always IsNext (exit 0) (inr (refl, p))

  handle-Always :
      (t : Turn) (page_key : Text) → Always IsNext (handle_claim server c services t page_key)
  unfolding handle_claim
  handle-Always t page_key = stop-Always _ (parsed (parse_page_publication_key page_key))
    where
      buried :
          (b : Bool)
          → Always {W = W} IsNext
              (pure (if b then again (with_signal server c services false t) else exit 1))
      buried true = pure-Always IsNext _ tt
      buried false = pure-Always IsNext (exit 1) (inl refl)

      parsed :
          (o : Option (Text × Text × Text))
          → Always IsNext (elim o as (λ _. Exec W Next) [
            | none ↦ quarantine_page server c page_key >>= λ buried.
                pure (if buried then again (with_signal server c services false t) else exit 1)
            | some _ ↦ process_claim server c services page_key >>= λ verdict.
                after_verdict server c services page_key
                  (with_signal server c services false t)
                  verdict
          ])
      parsed none = bind-Always IsNext (quarantine_page server c page_key) _ buried
      parsed (some _) =
          bind-Always IsNext (process_claim server c services page_key) _
            (λ v. verdict-Always page_key _ v)

  claim-Always :
      (o : Outcome (Option (Turn × Option Text))) → Always IsNext (after_claim server c services o)
  unfolding after_claim
  claim-Always (raise e) = pure-Always IsNext (exit 1) (inl refl)
  claim-Always (ok none) = pure-Always IsNext (exit 1) (inl refl)
  claim-Always (ok (some (t, none))) =
      bind-Always IsNext (pause indexer server c) _ (λ _. pure-Always IsNext (again t) tt)
  claim-Always (ok (some (t, some page_key))) = handle-Always t page_key

  round-Always : (t : Turn) → Always IsNext (work_round server c services t)
  unfolding work_round
  round-Always t = stop-Always _ (bind-Always IsNext (renew_when_due server c services t) _ renewed)
    where
      renewed :
          (o : Option Turn)
          → Always IsNext (elim o as (λ _. Exec W Next) [
            | none ↦ pure (exit 1)
            | some t' ↦ attempt (take_claim server c services t') >>= λ claim.
                after_claim server c services claim
          ])
      renewed none = pure-Always IsNext (exit 1) (inl refl)
      renewed (some t') =
          bind-Always IsNext (attempt (take_claim server c services t')) _ claim-Always

  loop-Always : (rounds : ℕ) (t : Turn) → Always IsResult (work_loop server c services rounds t)
  unfolding work_loop
  loop-Always zero t = pure-Always IsResult none tt
  loop-Always (suc rounds) t =
      then-Always IsResult IsNext (work_round server c services t) _ (round-Always t)
        (next (loop-Always rounds))
    where
      next :
          ((t : Turn) → Always IsResult (work_loop server c services rounds t))
          → (n : Next) → IsNext n
          → Always IsResult (elim n as (λ _. Exec W (Option ℕ)) [
            | exit code ↦ pure (some code)
            | again t' ↦ work_loop server c services rounds t'
          ])
      next h (exit code) p = pure-Always IsResult (some code) p
      next h (again t') p = h t'

  owned-Always : (rounds : ℕ) → Always IsResult (run_owned server c services rounds)
  unfolding run_owned
  owned-Always rounds = bind-Always IsResult (recover_claims indexer server c rounds) _ recovered
    where
      work : Exec W (Option ℕ)
      work = now indexer server c >>= λ time.
          work_loop server c services rounds
            (record { resume_signal_sent = false; last_renewal = time })

      recovered :
          (o : Option Bool)
          → Always IsResult (elim o as (λ _. Exec W (Option ℕ)) [
            | none ↦ pure none
            | some b ↦ elim b [ false ↦ stopped server c services | true ↦ work ]
          ])
      recovered none = pure-Always IsResult none tt
      recovered (some b) =
          Branch-Always IsResult (stopped server c services) work b stopped-Always (
            bind-Always IsResult (now indexer server c)
              (λ time.
                work_loop server c services rounds
                  (record { resume_signal_sent = false; last_renewal = time }))
              (λ time.
                loop-Always rounds (record { resume_signal_sent = false; last_renewal = time })))

  -- Whenever run_indexer returns, its exit code is 0 or 1, and it is 0 only if there is a state in which
  -- the termination signal has arrived: without one, a lost lock, a failed datastore, a claim that could
  -- not be processed and every other way to stop exit with 1.
  pub run_indexer_exit :
      (rounds code : ℕ) (s t : Session W)
      → run_indexer server c services rounds s ≡ (ok (some code), t)
      → (code ≡ 1) ⊎ ((code ≡ 0) × Stopped)
  unfolding run_indexer
  run_indexer_exit rounds code s t h =
      bind-Always IsResult (acquire_owner indexer server c rounds) _ acquired s t (some code) h
    where
      acquired :
          (o : Option Bool)
          → Always IsResult (elim o as (λ _. Exec W (Option ℕ)) [
            | none ↦ pure none
            | some b ↦ elim b [
              | false ↦ stopped server c services
              | true ↦
                  finally
                    (run_owned server c services rounds)
                    (or_else (release_lock indexer server c) false)
            ]
          ])
      acquired none = pure-Always IsResult none tt
      acquired (some b) =
          Branch-Always IsResult (stopped server c services)
            (finally (run_owned server c services rounds)
              (or_else (release_lock indexer server c) false))
            b stopped-Always
            (finally-Always IsResult (run_owned server c services rounds)
              (or_else (release_lock indexer server c) false) (owned-Always rounds))
