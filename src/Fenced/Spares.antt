-- ===== src/Fenced/Spares.antt =====
-- Scripts that never write a given key.
use mifolyo.Base.{◌≡◌, refl, ◌∙◌, inl, inr, Bool, true, false, Option, none, some}
use mifolyo.Base.{List, [], ◌∷◌, ℕ}
use mifolyo.Base.{All, ◌==◌, if◌then◌else◌, Option-cases}
use mifolyo.Base.Texts.{Bytes, Text, same}
use mifolyo.Fenced.Store.{Kind}
use mifolyo.Fenced.Store.{Value, absent, Keyspace, Reply, reply, error, kind}
use mifolyo.Fenced.Store.{
  as_list, of_list, IntegerCall, exists, llen, hlen, incr, hstrlen, rpush, lpush, lrem, pexpire,
  del,
}
use mifolyo.Fenced.Store.{
  BulkCall, get, lpop, hget, lindex, rpoplpush, Status, StatusCall, set_px, ltrim,
}
use mifolyo.Fenced.Memory.{incremented, put, is_absent, as_hash, as_text, typed, counted, delete}
use mifolyo.Fenced.Memory.{integer_call, unsnoc, rotated, popped, bulk_call, status_call, memory}
use mifolyo.Fenced.Script.{Script, done, fail, type_of, integer, bulk, position, status, eval, run}
use mifolyo.Fenced.Script.{follow}
use mifolyo.Fenced.Spec.{put-other}

abbrev pub IntegerSpares : Bytes → IntegerCall → Type 0
IntegerSpares k (exists _) = Unit
IntegerSpares k (llen _) = Unit
IntegerSpares k (hlen _) = Unit
IntegerSpares k (hstrlen _ _) = Unit
IntegerSpares k (incr j) = same j k ≡ false
IntegerSpares k (rpush j _) = same j k ≡ false
IntegerSpares k (lpush j _) = same j k ≡ false
IntegerSpares k (lrem j _) = same j k ≡ false
IntegerSpares k (pexpire j _) = same j k ≡ false
IntegerSpares k (del js) = All (λ j. same j k ≡ false) js

abbrev pub BulkSpares : Bytes → BulkCall → Type 0
BulkSpares k (get _) = Unit
BulkSpares k (hget _ _) = Unit
BulkSpares k (lindex _) = Unit
BulkSpares k (lpop j) = same j k ≡ false
BulkSpares k (rpoplpush i j) = (same i k ≡ false) × (same j k ≡ false)

abbrev pub StatusSpares : Bytes → StatusCall → Type 0
StatusSpares k (set_px j _ _) = same j k ≡ false
StatusSpares k (ltrim j _) = same j k ≡ false

-- Whatever the replies are, the script does not write the key.
unfoldable pub Spares : {A : Type 0} → Bytes → Script A → Type 0
Spares k (done a) = Unit
Spares k (fail m) = Unit
Spares k (type_of j f) = (t : Kind) → Spares k (f t)
Spares k (integer c f) = IntegerSpares k c × ((n : ℕ) → Spares k (f n))
Spares k (bulk c f) = BulkSpares k c × ((o : Option Text) → Spares k (f o))
Spares k (position j v f) = (o : Option ℕ) → Spares k (f o)
Spares k (status c f) = StatusSpares k c × ((o : Status) → Spares k (f o))

module _ (k : Bytes) where
  keeps-put : (j : Bytes) (v : Value) (s : Keyspace) → same j k ≡ false → put j v s k ≡ s k
  keeps-put j v s h = put-other j k v s h

  delete-keeps :
      (js : List Bytes) (s : Keyspace) → All (λ j. same j k ≡ false) js → (delete js s).1 k ≡ s k
  unfolding delete
  delete-keeps [] s h = refl
  delete-keeps (j ∷ js) s h = delete-keeps js (put j absent s) h.1 ∙ keeps-put j absent s h.0

  typed-keeps :
      {A V : Type 0} (o : Option V) (s : Keyspace) (f : V → Reply A × Keyspace)
      → ((v : V) → (f v).1 k ≡ s k)
      → (typed o s f).1 k ≡ s k
  typed-keeps none s f h = refl
  typed-keeps (some v) s f h = h v

  if-keeps :
      {A : Type 0} (b : Bool) (x y : Reply A × Keyspace) (s : Keyspace)
      → x.1 k ≡ s k
      → y.1 k ≡ s k
      → (if b then x else y).1 k ≡ s k
  if-keeps true x y s p q = p
  if-keeps false x y s p q = q

  incr-keeps :
      (j : Bytes) (s : Keyspace) (o : Option ℕ) → same j k ≡ false → (incremented j s o).1 k ≡ s k
  incr-keeps j s none h = refl
  incr-keeps j s (some n) h = keeps-put j _ s h

  integer_call-keeps :
      (c : IntegerCall) (s : Keyspace) → IntegerSpares k c → (integer_call c s).1 k ≡ s k
  integer_call-keeps (exists _) s h = refl
  integer_call-keeps (llen j) s h = typed-keeps (as_list (s j)) s _ (λ _. refl)
  integer_call-keeps (hlen j) s h = typed-keeps (as_hash (s j)) s _ (λ _. refl)
  integer_call-keeps (hstrlen j f) s h = typed-keeps (as_hash (s j)) s _ (λ _. refl)
  integer_call-keeps (incr j) s h =
      typed-keeps (as_text (s j)) s _ (λ o. incr-keeps j s (counted o) h)
  integer_call-keeps (rpush j v) s h = typed-keeps (as_list (s j)) s _ (λ _. keeps-put j _ s h)
  integer_call-keeps (lpush j v) s h = typed-keeps (as_list (s j)) s _ (λ _. keeps-put j _ s h)
  integer_call-keeps (lrem j v) s h = typed-keeps (as_list (s j)) s _ (λ _. keeps-put j _ s h)
  integer_call-keeps (pexpire j ms) s h = if-keeps (is_absent (s j)) _ _ s refl (expired (ms == 0))
    where
      expired : (b : Bool) → (if b then put j absent s else s) k ≡ s k
      expired true = keeps-put j absent s h
      expired false = refl
  integer_call-keeps (del js) s h = delete-keeps js s h

  rotated-keeps :
      (i j : Bytes) (xs : List Text) (s : Keyspace)
      → same i k ≡ false
      → same j k ≡ false
      → (rotated i j xs s).1 k ≡ s k
  rotated-keeps i j [] s p q = refl
  rotated-keeps i j (x ∷ xs) s p q =
      elim (Option-cases (as_list (put i (of_list (unsnoc x xs).0) s j))) [
        | inl e ↦ rw e refl
        | inr (ys, e) ↦ rw e (keeps-put j _ _ q ∙ keeps-put i _ s p)
      ]

  bulk_call-keeps : (c : BulkCall) (s : Keyspace) → BulkSpares k c → (bulk_call c s).1 k ≡ s k
  bulk_call-keeps (get j) s h = typed-keeps (as_text (s j)) s _ (λ _. refl)
  bulk_call-keeps (hget j f) s h = typed-keeps (as_hash (s j)) s _ (λ _. refl)
  bulk_call-keeps (lindex j) s h = typed-keeps (as_list (s j)) s _ (λ _. refl)
  bulk_call-keeps (lpop j) s h = typed-keeps (as_list (s j)) s _ first
    where
      first : (xs : List Text) → (popped j xs s).1 k ≡ s k
      first [] = refl
      first (x ∷ xs) = keeps-put j _ s h
  bulk_call-keeps (rpoplpush i j) s h =
      typed-keeps (as_list (s i)) s _ (λ xs. rotated-keeps i j xs s h.0 h.1)

  status_call-keeps :
      (c : StatusCall) (s : Keyspace) → StatusSpares k c → (status_call c s).1 k ≡ s k
  status_call-keeps (set_px j v ms) s h = if-keeps (ms == 0) _ _ s refl (keeps-put j _ s h)
  status_call-keeps (ltrim j n) s h = typed-keeps (as_list (s j)) s _ (λ _. keeps-put j _ s h)

module _ {A B : Type 0} (k : Bytes) (s : Keyspace) where
  follow-keeps :
      (x : Reply B × Keyspace) (f : B → Keyspace → Reply A × Keyspace)
      → x.1 k ≡ s k
      → ((b : B) (t : Keyspace) → (f b t).1 k ≡ t k)
      → (follow x f).1 k ≡ s k
  follow-keeps (reply b, t) f h g = g b t ∙ h
  follow-keeps (error m, t) f h g = h

-- A script that spares a key keeps its value.
pub run-keeps :
    {A : Type 0} (k : Bytes) (p : Script A) (s : Keyspace) → Spares k p → (run p s).1 k ≡ s k
unfolding eval Spares
run-keeps k (done a) s h = refl
run-keeps k (fail m) s h = refl
run-keeps k (type_of j f) s h = run-keeps k (f (kind (s j))) s (h (kind (s j)))
run-keeps k (integer c f) s h =
    follow-keeps k s (integer_call c s) _ (integer_call-keeps k c s h.0)
      (λ n t. run-keeps k (f n) t (h.1 n))
run-keeps k (bulk c f) s h =
    follow-keeps k s (bulk_call c s) _ (bulk_call-keeps k c s h.0)
      (λ n t. run-keeps k (f n) t (h.1 n))
run-keeps k (position j v f) s h =
    follow-keeps k s (memory.position j v s) _ (typed-keeps k (as_list (s j)) s _ (λ _. refl))
      (λ n t. run-keeps k (f n) t (h n))
run-keeps k (status c f) s h =
    follow-keeps k s (status_call c s) _ (status_call-keeps k c s h.0)
      (λ n t. run-keeps k (f n) t (h.1 n))
