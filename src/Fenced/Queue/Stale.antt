-- ===== src/Fenced/Queue/Stale.antt =====
-- A client whose epoch is not the counter's changes nothing.
use mifolyo.Base.{◌≡◌, refl, ◌⊎◌, inl, inr, ◌≢◌, Bool, true, false, Option, none, some}
use mifolyo.Base.{ℕ, String, arith}
use mifolyo.Base.Texts.{Bytes, Text, same→eq}
use mifolyo.Fenced.Store.{Kind}
use mifolyo.Fenced.Store.{Value, absent, other, text, items, fields, members, Keyspace, kind}
use mifolyo.Fenced.Store.{get, Status, okay}
use mifolyo.Fenced.Memory.{as_text}
use mifolyo.Fenced.Script.{Script, done, type_of, bulk, reject, answer_if, eval, run}
use mifolyo.Fenced.Queue.{Layout, differs}
use mifolyo.Fenced.Queue.Held.{IsStale}
use mifolyo.Fenced.Queue.{either_differs, lost, renew, drop_lock, opening, claim, sizes}
use mifolyo.Fenced.Queue.{release, quarantine, recover}

-- The script leaves the keyspace as it is.
unfoldable pub IsIdle : {A : Type 0} → Script A → Keyspace → Type 0
IsIdle p s = (run p s).1 ≡ s

-- A value that a comparison lets pass is the text that it is compared with.
agrees :
    (v : Value) (o : Option Text) (a : Text) → as_text v ≡ some o → differs o a ≡ false → v ≡ text a
agrees absent none a e d = cc
agrees absent (some t) a e d = cc
agrees other o a e d = cc
agrees (text u) none a e d = cc
agrees (text u) (some t) a e d = ground (arith, same→eq t a)
agrees (items _) o a e d = cc
agrees (fields _) o a e d = cc
agrees (members _) o a e d = cc

-- A fence on a stale epoch.
module _ {A : Type 0} (s : Keyspace) where
  pub reject-IsIdle :
      (b : Bool) (m : String) (f : Status → Script A) → IsIdle (f okay) s → IsIdle (reject b m f) s
  unfolding eval IsIdle reject
  reject-IsIdle true m f h = refl
  reject-IsIdle false m f h = h

  pub answer_if-IsIdle :
      (b : Bool) (a : A) (f : Status → Script A) → IsIdle (f okay) s → IsIdle (answer_if b a f) s
  unfolding eval IsIdle answer_if
  answer_if-IsIdle true a f h = refl
  answer_if-IsIdle false a f h = h

  done-IsIdle : (a : A) → IsIdle (done a) s
  unfolding eval IsIdle
  done-IsIdle a = refl

  pub type_of-IsIdle :
      (k : Bytes) (f : Kind → Script A) → IsIdle (f (kind (s k))) s → IsIdle (type_of k f) s
  unfolding eval IsIdle
  type_of-IsIdle k f h = h

  pub rejected-IsIdle : (m : String) (f : Status → Script A) → IsIdle (reject true m f) s
  unfolding eval IsIdle reject
  rejected-IsIdle m f = refl

  answered-IsIdle : (a : A) (f : Status → Script A) → IsIdle (answer_if true a f) s
  unfolding eval IsIdle answer_if
  answered-IsIdle a f = refl

  get-IsIdle :
      (k : Bytes) (f : Option Text → Script A) (v : Value)
      → s k ≡ v
      → ((o : Option Text) → as_text v ≡ some o → IsIdle (f o) s)
      → IsIdle (bulk (get k) f) s
  unfolding eval IsIdle
  get-IsIdle k f absent e h = rw e (h none refl)
  get-IsIdle k f other e h = rw e refl
  get-IsIdle k f (text t) e h = rw e (h (some t) refl)
  get-IsIdle k f (items _) e h = rw e refl
  get-IsIdle k f (fields _) e h = rw e refl
  get-IsIdle k f (members _) e h = rw e refl

  either_differs-IsIdle :
      (j k : Bytes) (a b : Text) (f : Bool → Script A)
      → (s k ≢ text b) ⊎ (s j ≢ text a)
      → IsIdle (f true) s
      → IsIdle (either_differs j a k b f) s
  either_differs-IsIdle j k a b f n h =
      get-IsIdle j
        (λ x. elim (differs x a) [ true ↦ f true | false ↦ bulk (get k) (λ y. f (differs y b)) ])
        (s j) refl (λ o e. first o e (differs o a) refl)
    where
      second :
          (s k ≢ text b) ⊎ (s j ≢ text a)
          → (o : Option Text) → as_text (s k) ≡ some o
          → s j ≡ text a
          → (t : Bool) → differs o b ≡ t
          → IsIdle (f t) s
      second m o e p true d = h
      second (inl m) o e p false d = absurd (m (agrees (s k) o b e d))
      second (inr m) o e p false d = absurd (m p)

      first :
          (o : Option Text)
          → as_text (s j) ≡ some o
          → (t : Bool) → differs o a ≡ t
          → IsIdle (elim t [ true ↦ f true | false ↦ bulk (get k) (λ y. f (differs y b)) ]) s
      first o e true d = h
      first o e false d =
          get-IsIdle k (λ y. f (differs y b)) (s k) refl
            (λ y g. second n y g (agrees (s j) o a e d) (differs y b) refl)

  pub lost-IsIdle :
      (l : Layout) (owner epoch : Text) (f : Bool → Script A)
      → IsStale l epoch s
      → IsIdle (f true) s
      → IsIdle (lost l owner epoch f) s
  unfolding lost
  lost-IsIdle l owner epoch f n h = go l.counter_first
    where
      go :
          (b : Bool)
          → IsIdle
              (elim b [
                | true ↦ either_differs l.counter epoch l.lock owner f
                | false ↦ either_differs l.lock owner l.counter epoch f
              ])
              s
      go true = either_differs-IsIdle l.counter l.lock epoch owner f (inr n) h
      go false = either_differs-IsIdle l.lock l.counter owner epoch f (inl n) h

  pub opening-IsIdle :
      (l : Layout) (owner epoch : Text) (j k : Bytes) (m n : String) (f : Status → Script A)
      → IsStale l epoch s
      → IsIdle (opening l owner epoch j m k n f) s
  unfolding opening
  opening-IsIdle l owner epoch j k m n f h = type_of-IsIdle _ _ (
      type_of-IsIdle _ _ (
        type_of-IsIdle _ _ (
          type_of-IsIdle _ _ (
            reject-IsIdle _ _ _ (
              reject-IsIdle _ _ _
                (reject-IsIdle _ _ _ (lost-IsIdle l owner epoch _ h (rejected-IsIdle _ _))))))))

-- The scripts of a client that is not the last to take the lock.
module _ (l : Layout) (owner epoch : Text) (s : Keyspace) (h : IsStale l epoch s) where
  pub renew-IsIdle : (ms : ℕ) → IsIdle (renew l owner epoch ms) s
  unfolding renew
  renew-IsIdle ms = type_of-IsIdle s _ _ (
      type_of-IsIdle s _ _
        (reject-IsIdle s _ _ _ (lost-IsIdle s l owner epoch _ h (answered-IsIdle s _ _))))

  pub drop_lock-IsIdle : IsIdle (drop_lock l owner epoch) s
  unfolding drop_lock
  drop_lock-IsIdle = type_of-IsIdle s _ _ (
      type_of-IsIdle s _ _
        (answer_if-IsIdle s _ _ _ (lost-IsIdle s l owner epoch _ h (answered-IsIdle s _ _))))

  pub claim-IsIdle : IsIdle (claim l owner epoch) s
  unfolding claim
  claim-IsIdle = opening-IsIdle s l owner epoch _ _ _ _ _ h

  pub sizes-IsIdle : IsIdle (sizes l owner epoch) s
  unfolding sizes
  sizes-IsIdle = opening-IsIdle s l owner epoch _ _ _ _ _ h

  pub release-IsIdle : (value : Text) → IsIdle (release l owner epoch value) s
  unfolding release
  release-IsIdle value = opening-IsIdle s l owner epoch _ _ _ _ _ h

  pub quarantine-IsIdle :
      (value : Text) (limit : ℕ) → IsIdle (quarantine l owner epoch value limit) s
  unfolding quarantine
  quarantine-IsIdle value limit = opening-IsIdle s l owner epoch _ _ _ _ _ h

  pub recover-IsIdle : (limit : ℕ) → IsIdle (recover l owner epoch limit) s
  unfolding recover
  recover-IsIdle limit = opening-IsIdle s l owner epoch _ _ _ _ _ h
