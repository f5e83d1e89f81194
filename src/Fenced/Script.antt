-- ===== src/Fenced/Script.antt =====
-- Lua scripts that Redis runs atomically: sequences of `redis.call` that end in a reply or in
-- `redis.error_reply`.
use mifolyo.Base.{ap, ◌≡◌, refl, sym, subst, Bool, true, false, Option}
use mifolyo.Base.{ℕ, String}
use mifolyo.Base.Texts.{Bytes, Text}
use mifolyo.Fenced.Store.{okay, Kind}
use mifolyo.Fenced.Store.{Keyspace, Reply, reply, error, kind}
use mifolyo.Fenced.Store.{IntegerCall}
use mifolyo.Fenced.Store.{BulkCall, Status, okay, StatusCall, Redis}
use mifolyo.Fenced.Memory.{integer_call, bulk_call, status_call, memory, IsRedis}

-- A call is followed by what the script does with its reply.
pub data Script (A : Type 0) : Type 0 where
  done : A → Script A
  fail : String → Script A
  type_of : Bytes → (Kind → Script A) → Script A
  integer : IntegerCall → (ℕ → Script A) → Script A
  bulk : BulkCall → (Option Text → Script A) → Script A
  position : Bytes → Text → (Option ℕ → Script A) → Script A
  status : StatusCall → (Status → Script A) → Script A

module _ {A B : Type 0} where
  -- A call and the rest of the script.
  infixl 10 ◌>>=◌ ◌>>◌
  abbrev pub ◌>>=◌ : ((B → Script A) → Script A) → (B → Script A) → Script A
  m >>= f = m f

  abbrev pub ◌>>◌ : ((B → Script A) → Script A) → Script A → Script A
  m >> p = m (λ _. p)

  -- Goes on with what a call has returned, or ends the script with its error.
  abbrev pub follow : {W : Type 0} → Reply B × W → (B → W → Reply A × W) → Reply A × W
  follow (reply b, w) f = f b w
  follow (error m, w) f = (error m, w)

module _ {A : Type 0} where
  -- `if test then return redis.error_reply(message) end`
  unfoldable pub reject : Bool → String → (Status → Script A) → Script A
  reject true m f = fail m
  reject false m f = f okay

  -- `if test then return answer end`
  unfoldable pub answer_if : Bool → A → (Status → Script A) → Script A
  answer_if true a f = done a
  answer_if false a f = f okay

-- The run of a script by Redis.
unfoldable pub eval : {W A : Type 0} → Redis W → Script A → W → Reply A × W
eval redis (done a) w = (reply a, w)
eval redis (fail m) w = (error m, w)
eval redis (type_of k f) w = eval redis (f (redis.type_of k w)) w
eval redis (integer c f) w = follow (redis.integer c w) (λ n w'. eval redis (f n) w')
eval redis (bulk c f) w = follow (redis.bulk c w) (λ o w'. eval redis (f o) w')
eval redis (position k v f) w = follow (redis.position k v w) (λ o w'. eval redis (f o) w')
eval redis (status c f) w = follow (redis.status c w) (λ u w'. eval redis (f u) w')

-- The run on the keyspace alone.
abbrev pub run : {A : Type 0} → Script A → Keyspace → Reply A × Keyspace
run p s = eval memory p s

module _ {W : Type 0} (view : W → Keyspace) where
  -- A reply together with the keyspace that the state shows.
  abbrev pub seen : {A : Type 0} → Reply A × W → Reply A × Keyspace
  seen (r, w) = (r, view w)

  follow-seen :
      {A B : Type 0} (x : Reply B × W) (y : Reply B × Keyspace) (f : B → W → Reply A × W)
      (g : B → Keyspace → Reply A × Keyspace)
      → seen x ≡ y
      → ((b : B) (w : W) → seen (f b w) ≡ g b (view w))
      → seen (follow x f) ≡ follow y g
  follow-seen {A = A} (reply b, w) y f g e h =
      subst (λ z. seen (f b w) ≡ follow {A = A} z g) e (h b w)
  follow-seen {A = A} (error m, w) y f g e h =
      subst (λ z. (error m, view w) ≡ follow {A = A} z g) e refl

  -- A script replies and changes the keyspace as it does in memory.
  pub eval-run :
      {A : Type 0} (redis : Redis W)
      → IsRedis redis view
      → (p : Script A) (w : W) → seen (eval redis p w) ≡ run p (view w)
  unfolding eval
  eval-run redis law (done a) w = refl
  eval-run redis law (fail m) w = refl
  eval-run redis law (type_of k f) w =
      subst (λ t. seen (eval redis (f t) w) ≡ run (f (kind (view w k))) (view w))
        (sym (law.kinds k w)) (eval-run redis law (f (kind (view w k))) w)
  eval-run redis law (integer c f) w =
      follow-seen (redis.integer c w) (integer_call c (view w)) (λ n w'. eval redis (f n) w')
        (λ n s. run (f n) s) (law.integers c w) (λ n w'. eval-run redis law (f n) w')
  eval-run redis law (bulk c f) w =
      follow-seen (redis.bulk c w) (bulk_call c (view w)) (λ n w'. eval redis (f n) w')
        (λ n s. run (f n) s) (law.bulks c w) (λ n w'. eval-run redis law (f n) w')
  eval-run redis law (position k v f) w =
      follow-seen (redis.position k v w) (memory.position k v (view w))
        (λ n w'. eval redis (f n) w') (λ n s. run (f n) s) (law.positions k v w)
        (λ n w'. eval-run redis law (f n) w')
  eval-run redis law (status c f) w =
      follow-seen (redis.status c w) (status_call c (view w)) (λ n w'. eval redis (f n) w')
        (λ n s. run (f n) s) (law.statuses c w) (λ n w'. eval-run redis law (f n) w')

-- One call of a script on the keyspace, by the effect of the call.
module _ {A : Type 0} (s : Keyspace) where
  pub run-done : (a : A) → run (done a) s ≡ (reply a, s)
  unfolding eval
  run-done a = refl

  pub run-type_of : (k : Bytes) (f : Kind → Script A) → run (type_of k f) s ≡ run (f (kind (s k))) s
  unfolding eval
  run-type_of k f = refl

  pub run-rejected :
      (b : Bool) (m : String) (f : Status → Script A)
      → b ≡ true
      → run (reject b m f) s ≡ (error m, s)
  unfolding eval reject
  run-rejected true m f h = refl
  run-rejected false m f h = cc

  pub run-answer : (a : A) (f : Status → Script A) → run (answer_if true a f) s ≡ (reply a, s)
  unfolding eval answer_if
  run-answer a f = refl

  pub run-pass : (a : A) (f : Status → Script A) → run (answer_if false a f) s ≡ run (f okay) s
  unfolding answer_if
  run-pass a f = refl

module _ {A : Type 0} (s t : Keyspace) where
  pub run-integer :
      (c : IntegerCall) (f : ℕ → Script A) (n : ℕ)
      → integer_call c s ≡ (reply n, t)
      → run (integer c f) s ≡ run (f n) t
  unfolding eval
  run-integer c f n e = ap (λ x. follow x (λ n s. run (f n) s)) e

  pub run-bulk :
      (c : BulkCall) (f : Option Text → Script A) (o : Option Text)
      → bulk_call c s ≡ (reply o, t)
      → run (bulk c f) s ≡ run (f o) t
  unfolding eval
  run-bulk c f o e = ap (λ x. follow x (λ n s. run (f n) s)) e

  pub run-position :
      (k : Bytes) (v : Text) (f : Option ℕ → Script A) (o : Option ℕ)
      → memory.position k v s ≡ (reply o, t)
      → run (position k v f) s ≡ run (f o) t
  unfolding eval
  run-position k v f o e = ap (λ x. follow x (λ n s. run (f n) s)) e

  pub run-status :
      (c : StatusCall) (f : Status → Script A)
      → status_call c s ≡ (reply okay, t)
      → run (status c f) s ≡ run (f okay) t
  unfolding eval
  run-status c f e = ap (λ x. follow x (λ n s. run (f n) s)) e

  pub run-status-error :
      (c : StatusCall) (f : Status → Script A) (m : String)
      → status_call c s ≡ (error m, t)
      → run (status c f) s ≡ (error m, t)
  unfolding eval
  run-status-error c f m e = ap (λ x. follow x (λ n s. run (f n) s)) e
