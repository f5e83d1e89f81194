-- ===== src/Fenced/Memory.antt =====
-- The documented effect of each Redis command on the keyspace, and a Redis that keeps its keyspace
-- in memory. The theorems are about every Redis whose keyspace changes as documented here.
use mifolyo.Base.{suc, ◌≡◌, Bool, true, false, Option, none, some, List, [], ◌∷◌, ◌++◌, ℕ}
use mifolyo.Base.{String, ◌+◌, ◌==◌, length, take, if◌then◌else◌}
use mifolyo.Base.Texts.{Bytes, Text, same}
use mifolyo.Base.Dict.{Dict, lookup}
use mifolyo.Base.Decimal.{str, int_of}
use mifolyo.Base.Utf8.{encode}
use mifolyo.Fenced.Store.{Value, absent, text, fields, Keyspace, Reply, reply, error, kind}
use mifolyo.Fenced.Store.{
  as_list, of_list, IntegerCall, exists, llen, hlen, incr, hstrlen, rpush, lpush, lrem, pexpire,
  del,
}
use mifolyo.Fenced.Store.{
  BulkCall, get, lpop, hget, lindex, rpoplpush, Status, okay, StatusCall, set_px, ltrim, Redis,
}
use mifolyo.Fenced.Store.{index_of, remove_first}

unfoldable pub put : Bytes → Value → Keyspace → Keyspace
put k v s j = if same k j then v else s j

abbrev pub wrong_type : String
wrong_type = "WRONGTYPE Operation against a key holding the wrong kind of value"

abbrev pub is_absent : Value → Bool
is_absent absent = true
is_absent _ = false

-- The value at a key read as a hash: an absent key has no fields.
abbrev pub as_hash : Value → Option (Dict Text)
as_hash absent = some []
as_hash (fields d) = some d
as_hash _ = none

-- The value at a key read as a string.
abbrev pub as_text : Value → Option (Option Text)
as_text absent = some none
as_text (text t) = some (some t)
as_text _ = none

module _ {A V : Type 0} where
  -- A command on a value of the wrong kind is an error and writes nothing.
  abbrev pub typed : Option V → Keyspace → (V → Reply A × Keyspace) → Reply A × Keyspace
  typed none s f = (error wrong_type, s)
  typed (some v) s f = f v

abbrev pub bytes_of : Option Text → ℕ
bytes_of none = 0
bytes_of (some t) = elim (encode t) [ none ↦ 0 | some bs ↦ length bs ]

abbrev pub pushed : Bytes → List Text → Keyspace → Reply ℕ × Keyspace
pushed k xs s = (reply (length xs), put k (of_list xs) s)

abbrev pub counted : Option Text → Option ℕ
counted none = some 0
counted (some t) = int_of t

unfoldable pub delete : List Bytes → Keyspace → ℕ × Keyspace
delete [] s = (0, s)
delete (k ∷ ks) s =
    let rest = delete ks (put k absent s) in ((if is_absent (s k) then 0 else 1) + rest.0, rest.1)

abbrev pub removed : Text → List Text → ℕ
removed v xs = elim (index_of v xs) [ none ↦ 0 | some _ ↦ 1 ]

abbrev pub incremented : Bytes → Keyspace → Option ℕ → Reply ℕ × Keyspace
incremented k s none = (error "ERR value is not an integer or out of range", s)
incremented k s (some n) = (reply (suc n), put k (text (str (suc n))) s)

abbrev pub integer_call : IntegerCall → Keyspace → Reply ℕ × Keyspace
integer_call (exists k) s = (reply (if is_absent (s k) then 0 else 1), s)
integer_call (llen k) s = typed (as_list (s k)) s (λ xs. (reply (length xs), s))
integer_call (hlen k) s = typed (as_hash (s k)) s (λ d. (reply (length d), s))
integer_call (hstrlen k f) s = typed (as_hash (s k)) s (λ d. (reply (bytes_of (lookup f d)), s))
integer_call (incr k) s = typed (as_text (s k)) s (λ o. incremented k s (counted o))
integer_call (rpush k v) s = typed (as_list (s k)) s (λ xs. pushed k (xs ++ (v ∷ [])) s)
integer_call (lpush k v) s = typed (as_list (s k)) s (λ xs. pushed k (v ∷ xs) s)
integer_call (lrem k v) s =
    typed (as_list (s k)) s (λ xs. (reply (removed v xs), put k (of_list (remove_first v xs)) s))
integer_call (pexpire k ms) s =
    if is_absent (s k) then (reply 0, s) else (reply 1, if ms == 0 then put k absent s else s)
integer_call (del ks) s = (reply (delete ks s).0, (delete ks s).1)

-- The last element of `x ∷ xs`, and the elements before it.
unfoldable pub unsnoc : Text → List Text → List Text × Text
unsnoc x [] = ([], x)
unsnoc x (y ∷ ys) = let rest = unsnoc y ys in (x ∷ rest.0, rest.1)

abbrev pub rotated : Bytes → Bytes → List Text → Keyspace → Reply (Option Text) × Keyspace
rotated a b [] s = (reply none, s)
rotated a b (x ∷ xs) s =
    let (rest, v) = unsnoc x xs in
    let s' = put a (of_list rest) s in
    typed (as_list (s' b)) s (λ ys. (reply (some v), put b (of_list (v ∷ ys)) s'))

abbrev pub popped : Bytes → List Text → Keyspace → Reply (Option Text) × Keyspace
popped k [] s = (reply none, s)
popped k (x ∷ xs) s = (reply (some x), put k (of_list xs) s)

abbrev pub head_of : List Text → Option Text
head_of [] = none
head_of (x ∷ xs) = some x

abbrev pub bulk_call : BulkCall → Keyspace → Reply (Option Text) × Keyspace
bulk_call (get k) s = typed (as_text (s k)) s (λ o. (reply o, s))
bulk_call (lpop k) s = typed (as_list (s k)) s (λ xs. popped k xs s)
bulk_call (hget k f) s = typed (as_hash (s k)) s (λ d. (reply (lookup f d), s))
bulk_call (lindex k) s = typed (as_list (s k)) s (λ xs. (reply (head_of xs), s))
bulk_call (rpoplpush a b) s = typed (as_list (s a)) s (λ xs. rotated a b xs s)

abbrev pub status_call : StatusCall → Keyspace → Reply Status × Keyspace
status_call (set_px k v ms) s =
    if ms == 0
    then (error "ERR invalid expire time in 'set' command", s)
    else (reply okay, put k (text v) s)
status_call (ltrim k n) s =
    typed (as_list (s k)) s (λ xs. (reply okay, put k (of_list (take n xs)) s))

abbrev pub memory : Redis Keyspace
memory = record {
  type_of = λ k s. kind (s k);
  integer = integer_call;
  bulk = bulk_call;
  position = λ k v s. typed (as_list (s k)) s (λ xs. (reply (index_of v xs), s));
  status = status_call;
}

-- A Redis changes its keyspace as documented: `view` is the keyspace of a state.
pub record IsRedis {W : Type 0} (redis : Redis W) (view : W → Keyspace) : Type 0 where
  pub kinds : (k : Bytes) (w : W) → redis.type_of k w ≡ kind (view w k)
  pub integers :
      (c : IntegerCall) (w : W)
      → ((redis.integer c w).0, view (redis.integer c w).1) ≡ integer_call c (view w)
  pub bulks :
      (c : BulkCall) (w : W) → ((redis.bulk c w).0, view (redis.bulk c w).1) ≡ bulk_call c (view w)
  pub positions :
      (k : Bytes) (v : Text) (w : W)
      → ((redis.position k v w).0, view (redis.position k v w).1) ≡ memory.position k v (view w)
  pub statuses :
      (c : StatusCall) (w : W)
      → ((redis.status c w).0, view (redis.status c w).1) ≡ status_call c (view w)
