-- ===== src/Fenced/Client/Calm.antt =====
-- The client over a network that serves every request, while no termination signal arrives.
use mifolyo.Base.{◌≡◌, refl, sym, ap, ◌∙◌, subst, true, none, some}
use mifolyo.Base.{ℕ}
use mifolyo.Base.Texts.{Text}
use mifolyo.Base.Decimal.{str}
use mifolyo.Fenced.Store.{Keyspace, reply}
use mifolyo.Fenced.Memory.{IsRedis}
use mifolyo.Fenced.Script.{Script, eval, run, seen, eval-run}
use mifolyo.Fenced.Queue.{Layout, owner_value}
use mifolyo.Fenced.Session.{lock_lost, Outcome, ok, raise}
use mifolyo.Fenced.Session.{
  Session, Exec, ◌>>=◌, pure, or_else, attempt, Server, in_world, answered, receive, eval_script,
  served,
}
use mifolyo.Fenced.Client.{Config, with_owner}
use mifolyo.Fenced.Client.{is_running}

pub record IsCalm {W : Type 0} (server : Server W) (view : W → Keyspace) : Type 0 where
  pub delivers : (w : W) → (server.deliver w).0 ≡ served
  pub delivery_keeps : (w : W) → view (server.deliver w).1 ≡ view w
  pub runs : (w : W) → (server.running w).0 ≡ true
  pub running_keeps : (w : W) → view (server.running w).1 ≡ view w
  pub redis : IsRedis server.redis view

module _ {W : Type 0} (view : W → Keyspace) where
  -- A result is the value, with the keyspace, and the client's epoch is what it was.
  pub record IsGiven {A : Type 0} (x : Outcome A × Session W) (s : Session W) (a : A) (k : Keyspace)
      : Type 0 where
    pub value : x.0 ≡ ok a
    pub keyspace : view x.1.world ≡ k
    pub epoch : x.1.owner_epoch ≡ s.owner_epoch

  abbrev pub Gives : {A : Type 0} → Exec W A → Session W → A → Keyspace → Type 0
  Gives m s a k = IsGiven (m s) s a k

  module _ {A : Type 0} where
    pub Gives-pure : (a : A) (s : Session W) → Gives (pure a) s a (view s.world)
    Gives-pure a s = record { value = refl; keyspace = refl; epoch = refl }

    pub Gives-or_else :
        (m : Exec W A) (b a : A) (s : Session W) (k : Keyspace)
        → Gives m s a k
        → Gives (or_else m b) s a k
    Gives-or_else m b a s k g = go (m s) (g.value) g.keyspace g.epoch
      where
        go :
            (x : Outcome A × Session W)
            → x.0 ≡ ok a
            → view x.1.world ≡ k
            → x.1.owner_epoch ≡ s.owner_epoch
            → Gives (or_else (λ (v : Session W). x) b) s a k
        go (ok c, t) p q r = record { value = p; keyspace = q; epoch = r }
        go (raise e, t) p q r = cc

    pub Gives-attempt :
        (m : Exec W A) (a : A) (s : Session W) (k : Keyspace)
        → Gives m s a k
        → Gives (attempt m) s (ok a) k
    Gives-attempt m a s k g = record {
      value = ap ok g.value;
      keyspace = g.keyspace;
      epoch = g.epoch;
    }

  pub Gives-next :
      {A B : Type 0} (m : Exec W A) (f : A → Exec W B) (s : Session W) (a : A) (b : B)
      (k l : Keyspace)
      → Gives m s a k
      → Gives (f a) (m s).1 b l
      → Gives (m >>= f) s b l
  Gives-next {A} {B} m f s a b k l g h = go (m s) g.value g.epoch h
    where
      go :
          (x : Outcome A × Session W)
          → x.0 ≡ ok a
          → x.1.owner_epoch ≡ s.owner_epoch
          → Gives (f a) x.1 b l
          → Gives ((λ (v : Session W). x) >>= f) s b l
      go (ok c, t) p r g =
          subst (λ d. Gives ((λ (v : Session W). (ok d, t)) >>= f) s b l) c_eq
            (record { value = g.value; keyspace = g.keyspace; epoch = g.epoch ∙ r })
        where
          c_eq : a ≡ c
          c_eq = cc
      go (raise e, t) p r g = cc

  pub Gives-bind :
      {A B : Type 0} (m : Exec W A) (f : A → Exec W B) (s : Session W) (a : A) (b : B)
      (k l : Keyspace)
      → Gives m s a k
      → ((t : Session W) → view t.world ≡ k → t.owner_epoch ≡ s.owner_epoch → Gives (f a) t b l)
      → Gives (m >>= f) s b l
  Gives-bind m f s a b k l g h = Gives-next m f s a b k l g (h (m s).1 g.keyspace g.epoch)

  module _ (server : Server W) (calm : IsCalm server view) where
    pub Gives-eval :
        {A : Type 0} (p : Script A) (s : Session W) (a : A) (k : Keyspace)
        → run p (view s.world) ≡ (reply a, k)
        → Gives (eval_script server p) s a k
    unfolding eval_script
    Gives-eval {A = A} p s a k e =
        subst
          (λ d. IsGiven (receive server d p (in_world server (server.deliver s.world).1 s)) s a k)
          (sym (calm.delivers s.world))
          (record {
            value = ap (λ x. answered server x.0) result;
            keyspace = ap (λ x. x.1) result;
            epoch = refl;
          })
      where
        w : W
        w = (server.deliver s.world).1

        result : seen view (eval server.redis p w) ≡ (reply a, k)
        result =
            eval-run view server.redis calm.redis p w ∙ ap (run p) (calm.delivery_keeps s.world) ∙ e

    pub Gives-running :
        (l : Layout) (c : Config) (s : Session W)
        → Gives (is_running l server c) s true (view s.world)
    Gives-running l c s = record {
      value = ap ok (calm.runs s.world);
      keyspace = calm.running_keeps s.world;
      epoch = refl;
    }

    pub Gives-owner :
        {A : Type 0} (l : Layout) (c : Config) (f : Text → Text → Exec W A) (s : Session W) (n : ℕ)
        (a : A) (k : Keyspace)
        → s.owner_epoch ≡ some n
        → Gives (f (owner_value c.owner_token (str n)) (str n)) s a k
        → Gives (with_owner l server c f) s a k
    Gives-owner {A = A} l c f s n a k e g =
        subst
          (λ o.
            IsGiven
              (elim o as (λ _. Outcome A × Session W) [
                | none ↦ (raise lock_lost, s)
                | some n ↦ f (owner_value c.owner_token (str n)) (str n) s
              ])
              s a k)
          (sym e) g
