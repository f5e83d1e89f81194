-- ===== src/Fenced/Queue.antt =====
-- The Lua scripts that services/indexer/data/redis_client.py and
-- services/image-indexer/data/redis_client.py share up to their keys and messages.
pub mod Held
pub mod Stale
pub mod Quarantine
pub mod Acquire
pub mod Refine
pub mod Recover
pub mod Claim
use mifolyo.Base.{Bool, true, false, not, ◌&&◌, ◌||◌, Option, none, some}
use mifolyo.Base.{[], ◌∷◌, ◌++◌, ℕ, zero, suc, String}
use mifolyo.Base.{ltb, leb, ◌==◌}
use mifolyo.Base.Texts.{Bytes, Text, same}
use mifolyo.Base.Decimal.{int_of, is_canonical}
use mifolyo.Fenced.Store.{Status, okay, Kind, no_kind, string, list, hash, set}
use mifolyo.Fenced.Store.{exists, llen, incr, rpush, lpush, lrem, pexpire, del}
use mifolyo.Fenced.Store.{get, lpop, lindex, rpoplpush, set_px, ltrim}
use mifolyo.Fenced.Script.{
  Script, done, fail, type_of, integer, bulk, position, status, ◌>>=◌, reject, answer_if, ◌>>◌,
}

-- The keys and the error messages of one service, and whether its scripts compare the epoch counter
-- before the lock.
pub record Layout : Type 0 where
  pub lock : Bytes
  pub counter : Bytes
  pub queue : Bytes
  pub processing : Bytes
  pub dead : Bytes
  pub counter_first : Bool
  pub counter_kind : String
  pub counter_value : String
  pub owner_kinds : String
  pub queue_kind : String
  pub processing_kind : String
  pub dead_kind : String

abbrev pub is_none : Kind → Bool
is_none no_kind = true
is_none _ = false

abbrev pub is_string : Kind → Bool
is_string string = true
is_string _ = false

abbrev pub is_list : Kind → Bool
is_list list = true
is_list _ = false

abbrev pub is_hash : Kind → Bool
is_hash hash = true
is_hash _ = false

abbrev pub is_set : Kind → Bool
is_set set = true
is_set _ = false

-- `reply ~= argument`: a missing value differs from every text.
abbrev pub differs : Option Text → Text → Bool
differs none a = true
differs (some t) a = not (same t a)

abbrev pub max_epoch : ℕ
max_epoch = 9007199254740991

-- `current and (not string.match(...) or tonumber(current) >= max_epoch)`
abbrev pub invalid_epoch : Option Text → Bool
invalid_epoch none = false
invalid_epoch (some t) =
    not (is_canonical t) || elim (int_of t) [ none ↦ true | some n ↦ leb max_epoch n ]

-- The lock value `token:epoch`.
abbrev pub owner_value : Text → Text → Text
owner_value token epoch = token ++ (58 ∷ epoch)

module _ (l : Layout) where
  abbrev pub take_lock : Text → ℕ → Option Text → Script (Option Text)
  take_lock token ms none = fail "attempt to concatenate a nil value (local 'epoch')"
  take_lock token ms (some epoch) = do
    status (set_px l.lock (owner_value token epoch) ms)
    done (some epoch)

  -- The counter moves on, and its new value and the token are the lock.
  unfoldable pub next_epoch : Text → ℕ → Script (Option Text)
  next_epoch token ms = do
    current ← bulk (get l.counter)
    reject (invalid_epoch current) l.counter_value
    integer (incr l.counter)
    epoch ← bulk (get l.counter)
    take_lock token ms epoch

  unfoldable pub acquire : Text → ℕ → Script (Option Text)
  acquire token ms = do
    lock_type ← type_of l.lock
    counter_type ← type_of l.counter
    reject (not (is_none lock_type) && not (is_string lock_type)) "owner lock must be a string"
    reject (not (is_none counter_type) && not (is_string counter_type)) l.counter_kind
    held ← integer (exists l.lock)
    answer_if (held == 1) none
    next_epoch token ms

module _ {A : Type 0} where
  -- Whether the first key differs from its argument or else the second does.
  abbrev pub either_differs : Bytes → Text → Bytes → Text → (Bool → Script A) → Script A
  either_differs j a k b f =
      bulk (get j)
        (λ x. elim (differs x a) [ true ↦ f true | false ↦ bulk (get k) (λ y. f (differs y b)) ])

  -- `redis.call('GET', KEYS[2]) ~= ARGV[2] or redis.call('GET', KEYS[1]) ~= ARGV[1]`
  unfoldable pub lost : Layout → Text → Text → (Bool → Script A) → Script A
  lost l owner epoch f = elim l.counter_first [
    | true ↦ either_differs l.counter epoch l.lock owner f
    | false ↦ either_differs l.lock owner l.counter epoch f
  ]

abbrev pub not_strings : Kind → Kind → Bool
not_strings lock_type counter_type = not (is_string lock_type) || not (is_string counter_type)

abbrev pub not_list : Kind → Bool
not_list t = not (is_none t) && not (is_list t)

-- `not redis.call('LPOS', ...)`
abbrev pub is_missing : Option ℕ → Bool
is_missing none = true
is_missing (some _) = false

module _ (l : Layout) (owner epoch : Text) where
  unfoldable pub renew : ℕ → Script ℕ
  renew ms = do
    lock_type ← type_of l.lock
    counter_type ← type_of l.counter
    reject (not_strings lock_type counter_type) l.owner_kinds
    is_lost ← lost l owner epoch
    answer_if is_lost 0
    renewed ← integer (pexpire l.lock ms)
    done renewed

  unfoldable pub drop_lock : Script ℕ
  drop_lock = do
    lock_type ← type_of l.lock
    counter_type ← type_of l.counter
    answer_if (not_strings lock_type counter_type) 0
    is_lost ← lost l owner epoch
    answer_if is_lost 0
    deleted ← integer (del (l.lock ∷ []))
    done deleted

  -- How a script that moves values between two lists begins: the kinds of its four keys, and then the
  -- fence.
  unfoldable pub opening :
      {A : Type 0} → Bytes → String → Bytes → String → (Status → Script A) → Script A
  opening j j_message k k_message f = do
    lock_type ← type_of l.lock
    counter_type ← type_of l.counter
    j_type ← type_of j
    k_type ← type_of k
    reject (not_strings lock_type counter_type) l.owner_kinds
    reject (not_list j_type) j_message
    reject (not_list k_type) k_message
    is_lost ← lost l owner epoch
    reject is_lost "LOCK_LOST"
    f okay

  unfoldable pub claim : Script (Option Text)
  claim = do
    opening l.queue l.queue_kind l.processing l.processing_kind
    value ← bulk (rpoplpush l.queue l.processing)
    done value

  unfoldable pub sizes : Script (ℕ × ℕ)
  sizes = do
    opening l.queue l.queue_kind l.processing l.processing_kind
    queued ← integer (llen l.queue)
    processing ← integer (llen l.processing)
    done (queued, processing)

  unfoldable pub release : Text → Script ℕ
  release value = do
    opening l.processing l.processing_kind l.queue l.queue_kind
    found ← position l.processing value
    answer_if (is_missing found) 0
    integer (rpush l.queue value)
    integer (lrem l.processing value)
    done 1

  unfoldable pub quarantine : Text → ℕ → Script ℕ
  quarantine value limit = do
    opening l.processing l.processing_kind l.dead l.dead_kind
    found ← position l.processing value
    answer_if (is_missing found) 0
    reject (ltb limit 1 || ltb 10000 limit) "invalid dead-letter limit"
    integer (lpush l.dead value)
    status (ltrim l.dead limit)
    integer (lrem l.processing value)
    done 1

  -- The loop `while recovered < limit`, by the count of rounds that are left.
  unfoldable pub recover_loop : ℕ → ℕ → Script ℕ
  recover_loop zero recovered = done recovered
  recover_loop (suc left) recovered = bulk (lindex l.processing) (λ head. elim head [
    | none ↦ done recovered
    | some value ↦ do
      integer (rpush l.queue value)
      bulk (lpop l.processing)
      recover_loop left (suc recovered)
  ])

  unfoldable pub recover : ℕ → Script ℕ
  recover limit = do
    opening l.processing l.processing_kind l.queue l.queue_kind
    reject (ltb limit 1 || ltb 1000 limit) "invalid recovery limit"
    recover_loop limit 0
