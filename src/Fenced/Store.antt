-- ===== src/Fenced/Store.antt =====
-- The Redis keys that the fenced queues of services/indexer and services/image-indexer use: their
-- values, the commands that the Lua scripts call, and the documented effect of each command.
use mifolyo.Base.{Option, none, some, List, [], ◌∷◌, ℕ, suc}
use mifolyo.Base.{String, if◌then◌else◌}
use mifolyo.Base.Texts.{Bytes, Text, same}
use mifolyo.Base.Dict.{Dict}

pub data Kind : Type 0 where
  no_kind string list hash set other_kind : Kind

pub data Value : Type 0 where
  absent other : Value
  text : Text → Value
  items : List Text → Value
  fields : Dict Text → Value
  members : List Text → Value

abbrev pub Keyspace : Type 0
Keyspace = Bytes → Value

-- A command replies with a value, or with an error that ends the script.
pub data Reply (A : Type 0) : Type 0 where
  reply : A → Reply A
  error : String → Reply A

abbrev pub kind : Value → Kind
kind absent = no_kind
kind other = other_kind
kind (text _) = string
kind (items _) = list
kind (fields _) = hash
kind (members _) = set

-- The value at a key read as a list: an absent key is the empty list.
abbrev pub as_list : Value → Option (List Text)
as_list absent = some []
as_list (items xs) = some xs
as_list _ = none

-- A list that becomes empty is removed.
abbrev pub of_list : List Text → Value
of_list [] = absent
of_list (x ∷ xs) = items (x ∷ xs)

pub data IntegerCall : Type 0 where
  exists llen hlen incr : Bytes → IntegerCall
  hstrlen rpush lpush : Bytes → Text → IntegerCall
  -- LREM key 1 value
  lrem : Bytes → Text → IntegerCall
  pexpire : Bytes → ℕ → IntegerCall
  del : List Bytes → IntegerCall

pub data BulkCall : Type 0 where
  get lpop : Bytes → BulkCall
  hget : Bytes → Text → BulkCall
  -- LINDEX key 0
  lindex : Bytes → BulkCall
  rpoplpush : Bytes → Bytes → BulkCall

-- A reply of no content.
pub data Status : Type 0 where
  okay : Status

pub data StatusCall : Type 0 where
  -- SET key value PX milliseconds
  set_px : Bytes → Text → ℕ → StatusCall
  -- LTRIM key 0 (limit - 1), by its limit
  ltrim : Bytes → ℕ → StatusCall

-- `redis.call` on a Redis in state W, by the type of the reply.
pub record Redis (W : Type 0) : Type 0 where
  pub type_of : Bytes → W → Kind
  pub integer : IntegerCall → W → Reply ℕ × W
  pub bulk : BulkCall → W → Reply (Option Text) × W
  -- LPOS key value
  pub position : Bytes → Text → W → Reply (Option ℕ) × W
  pub status : StatusCall → W → Reply Status × W

unfoldable pub index_of : Text → List Text → Option ℕ
index_of v [] = none
index_of v (x ∷ xs) =
    if same x v then some 0 else elim (index_of v xs) [ none ↦ none | some n ↦ some (suc n) ]

unfoldable pub remove_first : Text → List Text → List Text
remove_first v [] = []
remove_first v (x ∷ xs) = if same x v then xs else x ∷ remove_first v xs
