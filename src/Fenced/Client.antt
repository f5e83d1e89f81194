-- ===== src/Fenced/Client.antt =====
-- The operations that the Redis clients of services/indexer and services/image-indexer share.
pub mod Calm
pub mod Recovery
use mifolyo.Base.{Bool, true, false, Option, none, some}
use mifolyo.Base.{ℕ, zero, suc}
use mifolyo.Base.{ltb, ◌==◌, if◌then◌else◌}
use mifolyo.Base.Texts.{Text}
use mifolyo.Base.Decimal.{str, int_of}
use mifolyo.Fenced.Queue.{Layout, owner_value, acquire}
use mifolyo.Fenced.Queue.{renew, drop_lock, claim, sizes}
use mifolyo.Fenced.Queue.{release, quarantine, recover}
use mifolyo.Fenced.Session.{redis_error, lock_lost, value_error, ok, raise}
use mifolyo.Fenced.Session.{
  Exec, ◌>>=◌, ◌>>◌, pure, throw, or_else, attempt, Server, in_world, eval_script,
}

-- What the constructor of a client fixes.
pub record Config : Type 0 where
  pub owner_token : Text
  -- Whether a connection was made.
  pub connected : Bool

abbrev pub lock_ttl_ms : ℕ
lock_ttl_ms = 60000

module _ {W : Type 0} (l : Layout) (server : Server W) (c : Config) where
  -- `self._require_client()`
  abbrev pub require_client : Exec W Bool
  require_client = if c.connected then pure true else throw redis_error

  -- The owner value and the epoch as text, which need an epoch.
  abbrev pub with_owner : {A : Type 0} → (Text → Text → Exec W A) → Exec W A
  with_owner f s = elim s.owner_epoch [
    | none ↦ (raise lock_lost, s)
    | some n ↦ f (owner_value c.owner_token (str n)) (str n) s
  ]

  abbrev pub set_epoch : Option ℕ → Exec W Bool
  set_epoch none s = (raise value_error, s)
  set_epoch (some n) s = (ok true, record { world = s.world; owner_epoch = some n })

  -- `if result is None: return False`, and `self.owner_epoch = int(result)`
  abbrev pub granted : Option Text → Exec W Bool
  granted none = pure false
  granted (some t) = set_epoch (int_of t)

  unfoldable pub acquire_lock : Exec W Bool
  acquire_lock = do
    require_client
    result ← eval_script server (acquire l c.owner_token lock_ttl_ms)
    granted result

  unfoldable pub renew_lock : Exec W Bool
  renew_lock = do
    require_client
    renewed ← with_owner (λ owner epoch. eval_script server (renew l owner epoch lock_ttl_ms))
    pure (renewed == 1)

  unfoldable pub release_lock : Exec W Bool
  release_lock s = elim s.owner_epoch [
    | none ↦ (ok false, s)
    | some n ↦
        if c.connected
        then (do
          dropped ← with_owner (λ owner epoch. eval_script server (drop_lock l owner epoch))
          pure (dropped == 1))
            s
        else (ok false, s)
  ]

  unfoldable pub claim_value : Exec W (Option Text)
  claim_value = do
    require_client
    with_owner (λ owner epoch. eval_script server (claim l owner epoch))

  unfoldable pub recover_batch : ℕ → Exec W ℕ
  recover_batch limit = do
    require_client
    with_owner (λ owner epoch. eval_script server (recover l owner epoch limit))

  unfoldable pub release_value : Text → Exec W Bool
  release_value value = do
    require_client
    released ← with_owner (λ owner epoch. eval_script server (release l owner epoch value))
    pure (released == 1)

  unfoldable pub quarantine_value : Text → ℕ → Exec W Bool
  quarantine_value value limit = do
    require_client
    buried ← with_owner (λ owner epoch. eval_script server (quarantine l owner epoch value limit))
    pure (buried == 1)

  unfoldable pub work_sizes : Exec W (ℕ × ℕ)
  work_sizes = do
    require_client
    with_owner (λ owner epoch. eval_script server (sizes l owner epoch))

  -- `renew_owner(redis_client)`
  unfoldable pub renew_owner : Exec W Bool
  renew_owner = or_else renew_lock false

  -- `running`, read when the code reads it
  abbrev pub is_running : Exec W Bool
  is_running s = let (b, w) = server.running s.world in (ok b, in_world server w s)

  abbrev pub pause : Exec W Bool
  pause s = (ok true, in_world server (server.sleep s.world) s)

  abbrev pub now : Exec W ℕ
  now s = let (t, w) = server.clock s.world in (ok t, in_world server w s)

  abbrev pub recovery_batch_size : ℕ
  recovery_batch_size = 100

  -- `acquire_owner`, for at most `rounds` rounds of its loop; `none` while it still waits
  unfoldable pub acquire_owner : ℕ → Exec W (Option Bool)
  acquire_owner zero = pure none
  acquire_owner (suc rounds) = is_running >>= λ still. elim still [
    | false ↦ pure (some false)
    | true ↦ attempt acquire_lock >>= λ outcome. elim outcome [
      | raise _ ↦ pure (some false)
      | ok taken ↦ elim taken [ true ↦ pure (some true) | false ↦ pause >> acquire_owner rounds ]
    ]
  ]

  -- `recover_claims`, for at most `rounds` batches; `none` while claims are left
  unfoldable pub recover_claims : ℕ → Exec W (Option Bool)
  recover_claims zero = pure none
  recover_claims (suc rounds) = is_running >>= λ still. elim still [
    | false ↦ pure (some false)
    | true ↦ renew_owner >>= λ renewed. elim renewed [
      | false ↦ pure (some false)
      | true ↦ attempt (recover_batch recovery_batch_size) >>= λ outcome. elim outcome [
        | raise _ ↦ pure (some false)
        | ok recovered ↦ elim (ltb recovered recovery_batch_size) [
          | true ↦ pure (some true)
          | false ↦ recover_claims rounds
        ]
      ]
    ]
  ]
