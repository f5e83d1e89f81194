-- ===== src/Fenced/Session.antt =====
-- A Python client of the fenced queue: what its calls return or raise, over a connection that may lose
-- a request or a reply.
pub mod Inversion
use mifolyo.Base.{Bool, Option}
use mifolyo.Base.{ℕ, String}
use mifolyo.Fenced.Store.{Reply, reply, error}
use mifolyo.Fenced.Store.{Redis}
use mifolyo.Fenced.Script.{Script, eval}

pub data Exception : Type 0 where
  -- redis.ConnectionError and redis.TimeoutError
  connection_error : Exception
  -- redis.ResponseError
  response_error : String → Exception
  redis_error lock_lost value_error key_error mongo_error : Exception
  -- InvalidPublicationKey, InvalidImageWork and PageDataDecodeError
  invalid_key invalid_work page_decode_error : String → Exception

pub data Outcome (A : Type 0) : Type 0 where
  ok : A → Outcome A
  raise : Exception → Outcome A

-- The state of the world and the client's own fencing epoch.
pub record Session (W : Type 0) : Type 0 where
  pub world : W
  pub owner_epoch : Option ℕ

abbrev pub Exec : Type 0 → Type 0 → Type 0
Exec W A = Session W → Outcome A × Session W

module _ {W A B : Type 0} where
  infixl 10 ◌>>=◌ ◌>>◌
  abbrev pub ◌>>=◌ : Exec W A → (A → Exec W B) → Exec W B
  ◌>>=◌ m f s = let (r, s') = m s in elim r [ ok a ↦ f a s' | raise e ↦ (raise e, s') ]

  abbrev pub ◌>>◌ : Exec W A → Exec W B → Exec W B
  m >> n = m >>= λ _. n

module _ {W A : Type 0} where
  abbrev pub pure : A → Exec W A
  pure a s = (ok a, s)

  abbrev pub throw : Exception → Exec W A
  throw e s = (raise e, s)

  -- `try: m; except Exception: return a`
  abbrev pub or_else : Exec W A → A → Exec W A
  or_else m a s = let (r, s') = m s in elim r [ ok b ↦ (ok b, s') | raise e ↦ (ok a, s') ]

-- The outcome of an action as a value, for `try` with several handlers
abbrev pub attempt : {W A : Type 0} → Exec W A → Exec W (Outcome A)
attempt m s = let (r, s') = m s in (ok r, s')

-- `try: m; finally: n`, where n raises nothing
abbrev pub finally : {W A B : Type 0} → Exec W A → Exec W B → Exec W A
finally m n s = let (r, s') = m s in (r, (n s').1)

-- What happens to a request: it is lost, it is served, or it is served and its reply is lost.
pub data Delivery : Type 0 where
  request_lost served reply_lost : Delivery

-- The network and the server of a client.
pub record Server (W : Type 0) : Type 0 where
  pub redis : Redis W
  pub deliver : W → Delivery × W
  -- Whether no termination signal has arrived yet.
  pub running : W → Bool × W
  -- `time.monotonic()` in milliseconds
  pub clock : W → ℕ × W
  -- `time.sleep` with an action of other programs meanwhile
  pub sleep : W → W

module _ {W : Type 0} (server : Server W) where
  abbrev pub in_world : W → Session W → Session W
  in_world w s = record { world = w; owner_epoch = s.owner_epoch }

  abbrev pub answered : {A : Type 0} → Reply A → Outcome A
  answered (reply a) = ok a
  answered (error m) = raise (response_error m)

  abbrev pub receive : {A : Type 0} → Delivery → Script A → Exec W A
  receive request_lost p s = (raise connection_error, s)
  receive served p s = let (r, w) = eval server.redis p s.world in (answered r, in_world w s)
  receive reply_lost p s = (raise connection_error, in_world (eval server.redis p s.world).1 s)

  -- `self.client.eval(script, ...)`
  unfoldable pub eval_script : {A : Type 0} → Script A → Exec W A
  eval_script p s = let (d, w) = server.deliver s.world in receive d p (in_world w s)
