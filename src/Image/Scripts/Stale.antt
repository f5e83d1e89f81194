-- ===== src/Image/Scripts/Stale.antt =====
-- The acknowledgement script of services/image-indexer/data/redis_client.py, for a client whose lock was
-- taken over.
use mifolyo.Base.{◌≡◌, ◌<◌, ℕ, List, [], ◌∷◌}
use mifolyo.Base.Texts.{Bytes, Text}
use mifolyo.Base.Decimal.{str}
use mifolyo.Fenced.Store.{Keyspace, Redis, Status, okay}
use mifolyo.Fenced.Memory.{IsRedis}
use mifolyo.Fenced.Script.{Script, eval}
use mifolyo.Fenced.Queue.Held.{IsStale}
use mifolyo.Fenced.Queue.Acquire.{IsEpoch}
use mifolyo.Fenced.Queue.Stale.{IsIdle, type_of-IsIdle, reject-IsIdle, rejected-IsIdle, lost-IsIdle}
use mifolyo.Fenced.System.{Reach}
use mifolyo.Fenced.System.Fence.{stale_script_writes_nothing}
use mifolyo.Image.Scripts.{images, images-IsLayout, Manifest, check_kinds, ack_script}

check_kinds-IsIdle :
    {A : Type 0} (keys : List Bytes) (f : Status → Script A) (s : Keyspace)
    → IsIdle (f okay) s
    → IsIdle (check_kinds keys f) s
unfolding check_kinds
check_kinds-IsIdle [] f s h = h
check_kinds-IsIdle (key ∷ keys) f s h =
    type_of-IsIdle s _ _ (reject-IsIdle s _ _ _ (check_kinds-IsIdle keys f s h))

ack-IsIdle :
    (owner epoch : Text) (m : Manifest) (keys : List Bytes) (values : List Text) (s : Keyspace)
    → IsStale images epoch s
    → IsIdle (ack_script owner epoch m keys values) s
unfolding ack_script
ack-IsIdle owner epoch m keys values s h = type_of-IsIdle s _ _ (
    type_of-IsIdle s _ _ (
      type_of-IsIdle s _ _ (
        type_of-IsIdle s _ _ (
          reject-IsIdle s _ _ _ (
            reject-IsIdle s _ _ _ (
              reject-IsIdle s _ _ _ (
                reject-IsIdle s _ _ _ (
                  check_kinds-IsIdle keys _ s
                    (lost-IsIdle s images owner epoch _ h (rejected-IsIdle s _ _))))))))))

-- Once the epoch counter of the image indexer has passed the epoch of a client, the acknowledgement
-- script never changes a key for that client: no claim ends, and no manifest or payload is deleted, for
-- any owner value, manifest, payloads and values, whatever happens in between, as long as nobody but the
-- scripts writes the counter.
pub stale_ack_writes_nothing :
    {W : Type 0} (redis : Redis W) (view : W → Keyspace) (law : IsRedis redis view) (w w' : W)
    (n e : ℕ) (owner : Text) (m : Manifest) (keys : List Bytes) (values : List Text)
    → IsEpoch images n (view w)
    → e < n
    → Reach images redis view w w'
    → view (eval redis (ack_script owner (str e) m keys values) w').1 ≡ view w'
stale_ack_writes_nothing redis view law w w' n e owner m keys values h q r =
    stale_script_writes_nothing redis view law images images-IsLayout
      (ack_script owner (str e) m keys values) w w' n e h q r
      (λ s. ack-IsIdle owner (str e) m keys values s)
