-- ===== src/Fenced/System.antt =====
-- Every client of one service and every other program that writes to the same Redis, as a relation
-- between the states before and after one atomic step.
pub mod Counter
pub mod Fence
pub mod Granted
use mifolyo.Base.{
  ◌≡◌, refl, sym, ap, ◌∙◌, subst, ◌⊎◌, inl, inr, ◌↔◌, ◌≢◌, Bool, true, false, not, ◌&&◌, ◌||◌,
  Option, none, some,
}
use mifolyo.Base.{
  List, [], ◌∷◌, ◌++◌, Mem, map, ℕ, zero, suc, ◌+◌, ◌-◌, ◌*◌, ◌≤◌, ◌<◌, min, String, arith,
}
use mifolyo.Base.{
  All, length, length-append, take, drop, ltb, leb, ◌==◌, if◌then◌else◌, Bool-cases, Option-cases,
}
use mifolyo.Base.Texts.{Bytes, Text, codes, same, same→eq, same_refl, same_iff, starts_with}
use mifolyo.Base.Dict.{Dict, lookup, insert, remove}
use mifolyo.Base.Decimal.{str, int_of, int_of-str, str_injective, is_canonical, is_canonical-str}
use mifolyo.Fenced.Store.{Kind, no_kind, string, list, hash, set, other_kind}
use mifolyo.Fenced.Store.{
  Value, absent, other, text, items, fields, members, Keyspace, Reply, reply, error, kind,
}
use mifolyo.Fenced.Store.{
  as_list, of_list, IntegerCall, exists, llen, hlen, incr, hstrlen, rpush, lpush, lrem, pexpire,
  del,
}
use mifolyo.Fenced.Store.{
  BulkCall, get, lpop, hget, lindex, rpoplpush, Status, okay, StatusCall, set_px, ltrim, Redis,
}
use mifolyo.Fenced.Store.{index_of, remove_first}
use mifolyo.Fenced.Memory.{
  put, wrong_type, is_absent, as_hash, as_text, typed, bytes_of, pushed, counted, delete, removed,
}
use mifolyo.Fenced.Memory.{
  unsnoc, rotated, popped, head_of, bulk_call, status_call, memory, IsRedis,
}
use mifolyo.Fenced.Script.{
  Script, done, fail, type_of, integer, bulk, position, status, ◌>>=◌, reject, answer_if, eval, run,
  eval-run,
}
use mifolyo.Fenced.Script.{
  follow, run-integer, run-bulk, run-position, run-status, run-done, run-answer, run-pass,
}
use mifolyo.Fenced.Queue.{
  Layout, is_none, is_string, is_list, differs, max_epoch, invalid_epoch, owner_value, acquire,
}
use mifolyo.Fenced.Queue.{
  either_differs, lost, not_strings, not_list, is_missing, renew, drop_lock, opening, claim, sizes,
}
use mifolyo.Fenced.Queue.{release, quarantine, recover_loop, recover}

-- A client presents its lock value and its epoch, or takes the lock.
pub data Operation : Type 0 where
  acquiring : Text → ℕ → Operation
  renewing : Text → Text → ℕ → Operation
  dropping claiming sizing : Text → Text → Operation
  recovering : Text → Text → ℕ → Operation
  releasing : Text → Text → Text → Operation
  quarantining : Text → Text → Text → ℕ → Operation

module _ {W : Type 0} (l : Layout) (redis : Redis W) where
  -- The state after the script of an operation.
  unfoldable pub perform : Operation → W → W
  perform (acquiring token ms) w = (eval redis (acquire l token ms) w).1
  perform (renewing owner epoch ms) w = (eval redis (renew l owner epoch ms) w).1
  perform (dropping owner epoch) w = (eval redis (drop_lock l owner epoch) w).1
  perform (claiming owner epoch) w = (eval redis (claim l owner epoch) w).1
  perform (sizing owner epoch) w = (eval redis (sizes l owner epoch) w).1
  perform (recovering owner epoch limit) w = (eval redis (recover l owner epoch limit) w).1
  perform (releasing owner epoch value) w = (eval redis (release l owner epoch value) w).1
  perform (quarantining owner epoch value limit) w =
      (eval redis (quarantine l owner epoch value limit) w).1

  module _ (view : W → Keyspace) where
    -- The other step is what expiry, the spider and the other services do: whatever they write, it is
    -- not the epoch counter.
    pub data Step : W → W → Type 0 where
      operate : (o : Operation) (w : W) → Step w (perform o w)
      outside : (w w' : W) → view w' l.counter ≡ view w l.counter → Step w w'

    pub data Reach : W → W → Type 0 where
      stay : (w : W) → Reach w w
      then_step : {w w' w'' : W} → Reach w w' → Step w' w'' → Reach w w''

-- The epoch that an operation presents; taking the lock presents none.
abbrev pub presents : Operation → Option Text
presents (acquiring token ms) = none
presents (renewing owner epoch ms) = some epoch
presents (dropping owner epoch) = some epoch
presents (claiming owner epoch) = some epoch
presents (sizing owner epoch) = some epoch
presents (recovering owner epoch limit) = some epoch
presents (releasing owner epoch value) = some epoch
presents (quarantining owner epoch value limit) = some epoch
