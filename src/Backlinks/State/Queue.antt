-- ===== src/Backlinks/State/Queue.antt =====
-- main.py: the queue of target keys and the set of the keys that are in it.
use mifolyo.Base.{
  ◌+◌, ◌≤◌, ◌≡◌, refl, sym, ◌∙◌, inl, inr, true, false, ◌||◌, List, [], ◌∷◌, ◌++◌, arith, length,
  length-append, Bool-cases, if◌then◌else◌,
}
use mifolyo.Base.Texts.{Bytes, same, same_iff, contains, contains-append}
use mifolyo.Backlinks.State.{ProcessorState, discard, queue_key, queue_keys}

pub contains-discard :
    (k j : Bytes) (ks : List Bytes)
    → contains j (discard k ks) ≡ (if same k j then false else contains j ks)
unfolding contains discard
contains-discard k j [] = ground arith
contains-discard k j (i ∷ ks) =
    ground (arith, same_iff i k, same_iff i j, same_iff k j, contains-discard k j ks)

-- No key stands twice in a list.
abbrev pub IsDistinct : List Bytes → Type 0
IsDistinct [] = Unit {0}
IsDistinct (k ∷ ks) = (contains k ks ≡ false) × IsDistinct ks

IsDistinct-append :
    (k : Bytes) (ks : List Bytes)
    → contains k ks ≡ false
    → IsDistinct ks
    → IsDistinct (ks ++ k ∷ [])
unfolding contains
IsDistinct-append k [] h d = (refl, tt)
IsDistinct-append k (j ∷ ks) h d = (
  ground (arith, contains-append j ks (k ∷ []), same_iff k j, same_iff j k),
  IsDistinct-append k ks (ground arith) d.1,
)

-- The set holds exactly the keys of the queue, and the queue holds none twice.
pub record IsQueue (s : ProcessorState) : Type 0 where
  pub same_keys : (k : Bytes) → contains k s.queued_keys ≡ contains k s.pending_keys
  pub distinct : IsDistinct s.pending_keys

-- `_queue_key` keeps the queue and its set in step, and adds the key at most once.
pub queue_key-IsQueue : (k : Bytes) (s : ProcessorState) → IsQueue s → IsQueue (queue_key k s)
unfolding queue_key contains
queue_key-IsQueue k s q = elim (Bool-cases (contains k s.queued_keys)) [
  | inl old ↦ rw (old, queue_key) q
  | inr new ↦
      rw (new, queue_key)
        (record {
          same_keys = λ j. ground (arith, contains-append j s.pending_keys (k ∷ []), q.same_keys j);
          distinct = IsDistinct-append k s.pending_keys (sym (q.same_keys k) ∙ new) q.distinct;
        })
]

pub contains-queue_key :
    (k j : Bytes) (s : ProcessorState)
    → IsQueue s
    → contains j (queue_key k s).pending_keys ≡ (same k j || contains j s.pending_keys)
unfolding queue_key contains
contains-queue_key k j s q =
    ground (arith, contains-append j s.pending_keys (k ∷ []), q.same_keys k, same_iff k j)

pub length-queue_key :
    (k : Bytes) (s : ProcessorState)
    → length (queue_key k s).pending_keys ≤ length s.pending_keys + 1
unfolding queue_key
length-queue_key k s = ground (arith, length-append s.pending_keys (k ∷ []))

pub queue_key-ge :
    (k : Bytes) (s : ProcessorState) → length s.pending_keys ≤ length (queue_key k s).pending_keys
unfolding queue_key
queue_key-ge k s = ground (arith, length-append s.pending_keys (k ∷ []))

-- What `_queue_key` leaves alone.
pub queue_key_frame :
    (k : Bytes) (s : ProcessorState)
    → ((queue_key k s).targets ≡ s.targets)
      × ((queue_key k s).member_scan_waiter ≡ s.member_scan_waiter)
unfolding queue_key
queue_key_frame k s = ground arith

pub queue_keys-IsQueue :
    (ks : List Bytes) (s : ProcessorState) → IsQueue s → IsQueue (queue_keys ks s)
unfolding queue_keys
queue_keys-IsQueue [] s q = q
queue_keys-IsQueue (k ∷ ks) s q = queue_keys-IsQueue ks (queue_key k s) (queue_key-IsQueue k s q)

pub length-queue_keys :
    (ks : List Bytes) (s : ProcessorState)
    → length (queue_keys ks s).pending_keys ≤ length s.pending_keys + length ks
unfolding queue_keys
length-queue_keys [] s = omega arith
length-queue_keys (k ∷ ks) s =
    omega (arith, length-queue_keys ks (queue_key k s), length-queue_key k s)

pub queue_keys_frame :
    (ks : List Bytes) (s : ProcessorState)
    → ((queue_keys ks s).targets ≡ s.targets)
      × ((queue_keys ks s).member_scan_waiter ≡ s.member_scan_waiter)
unfolding queue_keys
queue_keys_frame [] s = (refl, refl)
queue_keys_frame (k ∷ ks) s =
    let r = queue_keys_frame ks (queue_key k s) in
    let q = queue_key_frame k s in (r.0 ∙ q.0, r.1 ∙ q.1)

pub contains-queue_keys :
    (j : Bytes) (ks : List Bytes) (s : ProcessorState)
    → IsQueue s
    → contains j s.pending_keys ≡ true
    → contains j (queue_keys ks s).pending_keys ≡ true
unfolding queue_keys
contains-queue_keys j [] s q h = h
contains-queue_keys j (k ∷ ks) s q h =
    contains-queue_keys j ks (queue_key k s) (queue_key-IsQueue k s q)
      (ground (arith, contains-queue_key k j s q))
