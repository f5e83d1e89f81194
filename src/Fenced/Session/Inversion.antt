-- ===== src/Fenced/Session/Inversion.antt =====
-- What the steps of an action returned, from what the action returned.
use mifolyo.Base.{◌≡◌, refl, ap, ◌∙◌, subst, ◌≢◌, Bool, true, false}
use mifolyo.Fenced.Session.{Outcome, ok, raise}
use mifolyo.Fenced.Session.{Session, Exec, ◌>>=◌, pure, or_else, attempt, finally}

module _ {W A B : Type 0} where
  -- The first action of a sequence returned a value, and the second went on with it.
  pub bind_inv :
      (m : Exec W A) (f : A → Exec W B) (s : Session W) (b : B) (t : Session W)
      → (m >>= f) s ≡ (ok b, t)
      → (a : A) × ((u : Session W) × (m s ≡ (ok a, u)) × (f a u ≡ (ok b, t)))
  bind_inv m f s b t h = go (m s) refl h
    where
      go :
          (x : Outcome A × Session W)
          → m s ≡ x
          → ((λ (v : Session W). x) >>= f) s ≡ (ok b, t)
          → (a : A) × ((u : Session W) × (m s ≡ (ok a, u)) × (f a u ≡ (ok b, t)))
      go (ok a, u) e q = (a, (u, e, q))
      go (raise x, u) e q = cc

  pub finally_inv :
      (m : Exec W A) (n : Exec W B) (s : Session W) (a : A) (t : Session W)
      → finally m n s ≡ (ok a, t)
      → (u : Session W) × (m s ≡ (ok a, u)) × ((n u).1 ≡ t)
  finally_inv m n s a t h = ((m s).1, ap (λ x. (x.0, (m s).1)) h, ap (λ x. x.1) h)

module _ {W : Type 0} where
  pub or_else_inv :
      (m : Exec W Bool) (s t : Session W) → or_else m false s ≡ (ok true, t) → m s ≡ (ok true, t)
  or_else_inv m s t h = go (m s) refl h
    where
      go :
          (x : Outcome Bool × Session W)
          → m s ≡ x
          → or_else (λ (v : Session W). x) false s ≡ (ok true, t)
          → m s ≡ (ok true, t)
      go (ok a, u) e q = e ∙ q
      go (raise x, u) e q = cc

module _ {W A : Type 0} where
  pub attempt_inv :
      (m : Exec W A) (s : Session W) (o : Outcome A) (t : Session W)
      → attempt m s ≡ (ok o, t)
      → m s ≡ (o, t)
  attempt_inv m s o t h = ap (λ x. (unwrap x.0, x.1)) h
    where
      unwrap : Outcome (Outcome A) → Outcome A
      unwrap (ok o) = o
      unwrap (raise e) = raise e

module _ {W B : Type 0} where
  -- Which branch of a test an action took.
  abbrev pub Branch : Exec W B → Exec W B → Bool → Exec W B
  Branch x y b = elim b [ false ↦ x | true ↦ y ]

  -- An action that tests what another one returned ended as only its second branch can.
  pub true_inv :
      (m : Exec W Bool) (x y : Exec W B) (s : Session W) (b : B) (t : Session W)
      → ((u : Session W) → x u ≢ (ok b, t))
      → (m >>= Branch x y) s ≡ (ok b, t)
      → (u : Session W) × (m s ≡ (ok true, u)) × (y u ≡ (ok b, t))
  true_inv m x y s b t n h = go (bind_inv m (Branch x y) s b t h)
    where
      after :
          (v : Bool) (u : Session W)
          → m s ≡ (ok v, u)
          → Branch x y v u ≡ (ok b, t)
          → (u : Session W) × (m s ≡ (ok true, u)) × (y u ≡ (ok b, t))
      after true u e q = (u, e, q)
      after false u e q = absurd (n u q)

      go :
          (v : Bool) × ((u : Session W) × (m s ≡ (ok v, u)) × (Branch x y v u ≡ (ok b, t)))
          → (u : Session W) × (m s ≡ (ok true, u)) × (y u ≡ (ok b, t))
      go (v, (u, e, q)) = after v u e q

  -- What two equal results of actions share.
  pub value_eq :
      (a b : B) (s t : Session W) → ◌≡◌ {A = Outcome B × Session W} (ok a, s) (ok b, t) → a ≡ b
  value_eq a b s t h = cc

  pub state_eq :
      (a b : B) (s t : Session W) → ◌≡◌ {A = Outcome B × Session W} (ok a, s) (ok b, t) → s ≡ t
  state_eq a b s t h = cc

module _ {W B : Type 0} (b : B) where
  -- The action never returns the value.
  abbrev pub Never : Exec W B → Type 0
  Never m = (s t : Session W) → m s ≢ (ok b, t)

  pub pure-Never : (a : B) → a ≢ b → Never (pure {W = W} a)
  pure-Never a n s t h = n (value_eq a b s t h)

  pub Branch-Never : (x y : Exec W B) (v : Bool) → Never x → Never y → Never (Branch x y v)
  Branch-Never x y true p q = q
  Branch-Never x y false p q = p

  pub bind-Never :
      {A : Type 0} (m : Exec W A) (f : A → Exec W B) → ((a : A) → Never (f a)) → Never (m >>= f)
  bind-Never m f n s t h = let (a, (u, e, q)) = bind_inv m f s b t h in n a u t q

  pub or_else-Never : (m : Exec W B) (a : B) → Never m → a ≢ b → Never (or_else m a)
  or_else-Never m a h n s t q = go (m s) refl q
    where
      go : (x : Outcome B × Session W) → m s ≡ x → or_else (λ (v : Session W). x) a s ≢ (ok b, t)
      go (ok y, u) e r = h s t (e ∙ r)
      go (raise e, u) f r = n (value_eq a b u t r)

module _ {W B : Type 0} (P : B → Type 0) where
  -- Every value that the action returns has the property.
  abbrev pub Always : Exec W B → Type 0
  Always m = (s t : Session W) (b : B) → m s ≡ (ok b, t) → P b

  pub pure-Always : (a : B) → P a → Always (pure {W = W} a)
  pure-Always a p s t b h = subst P (value_eq a b s t h) p

  pub Branch-Always : (x y : Exec W B) (v : Bool) → Always x → Always y → Always (Branch x y v)
  Branch-Always x y true p q = q
  Branch-Always x y false p q = p

  pub bind-Always :
      {A : Type 0} (m : Exec W A) (f : A → Exec W B) → ((a : A) → Always (f a)) → Always (m >>= f)
  bind-Always m f n s t b h = let (a, (u, e, q)) = bind_inv m f s b t h in n a u t b q

  -- The second action may rely on a property of what the first one returns.
  pub then-Always :
      {A : Type 0} (Q : A → Type 0) (m : Exec W A) (f : A → Exec W B)
      → ((s t : Session W) (a : A) → m s ≡ (ok a, t) → Q a)
      → ((a : A) → Q a → Always (f a))
      → Always (m >>= f)
  then-Always Q m f n g s t b h =
      let (a, (u, e, q)) = bind_inv m f s b t h in g a (n s u a e) u t b q

  pub finally-Always : {A : Type 0} (m : Exec W B) (n : Exec W A) → Always m → Always (finally m n)
  finally-Always m n h s t b e = let (u, x, y) = finally_inv m n s b t e in h s u b x
