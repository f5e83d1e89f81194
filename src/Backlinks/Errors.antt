-- ===== src/Backlinks/Errors.antt =====
-- The exceptions of services/backlinks-processor, and actions on a world that may raise them.
use mifolyo.Base.{◌≡◌, refl, ◌⊎◌, inl, inr, Bool, true, false, String}

pub data Exception : Type 0 where
  -- redis.RedisError and its subclass RedisScanLimitExceeded
  redis_error : Exception
  scan_limit_exceeded : String → Exception
  invalid_backlink_set : String → Exception
  document_rejected : String → Exception
  write_conflict write_not_acknowledged : Exception
  -- pymongo.errors.PyMongoError and its subclasses ConnectionFailure and WTimeoutError
  connection_failure w_timeout pymongo_error : Exception
  -- bson.errors.BSONError, which the driver raises and which is no PyMongoError
  bson_error : Exception
  value_error index_error : Exception
  reconciliation_rejected : String → Exception

-- `isinstance(error, RedisError)`
abbrev pub is_redis_error : Exception → Bool
is_redis_error redis_error = true
is_redis_error (scan_limit_exceeded _) = true
is_redis_error _ = false

-- `isinstance(error, PyMongoError)`
abbrev pub is_pymongo_error : Exception → Bool
is_pymongo_error connection_failure = true
is_pymongo_error w_timeout = true
is_pymongo_error pymongo_error = true
is_pymongo_error _ = false

pub data Result {ℓ} (A : Type ℓ) : Type ℓ where
  ok : A → Result A
  raise : Exception → Result A

-- What was written before a raise stays written: the world comes back on both paths.
abbrev pub Exec {ℓ} : Type ℓ → Type ℓ → Type ℓ
Exec W A = W → Result A × W

module _ {ℓ} {W A B : Type ℓ} where
  infixl 10 ◌>>=◌ ◌>>◌
  abbrev pub ◌>>=◌ : Exec W A → (A → Exec W B) → Exec W B
  ◌>>=◌ m f w = let (r, w') = m w in elim r [ ok a ↦ f a w' | raise e ↦ (raise e, w') ]

  abbrev pub ◌>>◌ : Exec W A → Exec W B → Exec W B
  m >> n = m >>= λ _. n

module _ {ℓ} {W A : Type ℓ} where
  abbrev pub pure : A → Exec W A
  pure a w = (ok a, w)

  abbrev pub throw : Exception → Exec W A
  throw e w = (raise e, w)

-- The rule for a sequence of two actions, by what holds after the first.
pub bind_inv {ℓ} :
    {W A B : Type 0} (P : Result A × W → Type ℓ) (Q : Result B × W → Type ℓ) (m : Exec W A)
    (f : A → Exec W B) (w : W)
    → P (m w)
    → ((a : A) (w' : W) → P (ok a, w') → Q (f a w'))
    → ((e : Exception) (w' : W) → P (raise e, w') → Q (raise e, w'))
    → Q ((m >>= f) w)
bind_inv {W = W} {A = A} P Q m f w h k g = go (m w) h
  where
    go : (x : Result A × W) → P x → Q (((λ (v : W). x) >>= f) w)
    go (ok a, w') p = k a w' p
    go (raise e, w') p = g e w' p

pub Result-cases {ℓ} :
    {A : Type ℓ} (r : Result A) → ((a : A) × (r ≡ ok a)) ⊎ ((e : Exception) × (r ≡ raise e))
Result-cases (ok a) = inl (a, refl)
Result-cases (raise e) = inr (e, refl)
