-- ===== src/Indexer/Scripts/Stale.antt =====
-- The scripts that end a claim in services/indexer/data/redis_client.py, for a client whose lock was
-- taken over.
use mifolyo.Base.{◌≡◌, ◌<◌, ℕ}
use mifolyo.Base.Texts.{Text}
use mifolyo.Base.Decimal.{str}
use mifolyo.Fenced.Store.{Keyspace, Redis}
use mifolyo.Fenced.Memory.{IsRedis}
use mifolyo.Fenced.Script.{eval}
use mifolyo.Fenced.Queue.Held.{IsStale}
use mifolyo.Fenced.Queue.Acquire.{IsEpoch}
use mifolyo.Fenced.Queue.Stale.{IsIdle, type_of-IsIdle, reject-IsIdle, rejected-IsIdle, lost-IsIdle}
use mifolyo.Fenced.System.{Reach}
use mifolyo.Fenced.System.Fence.{stale_script_writes_nothing}
use mifolyo.Indexer.Scripts.{
  indexer, indexer-IsLayout, Publication, complete_claim_script, skip_claim_script,
}

complete-IsIdle :
    (owner epoch value : Text) (p : Publication) (s : Keyspace)
    → IsStale indexer epoch s
    → IsIdle (complete_claim_script owner epoch value p) s
unfolding complete_claim_script
complete-IsIdle owner epoch value p s h = type_of-IsIdle s _ _ (
    type_of-IsIdle s _ _ (
      type_of-IsIdle s _ _ (
        type_of-IsIdle s _ _ (
          type_of-IsIdle s _ _ (
            type_of-IsIdle s _ _ (
              type_of-IsIdle s _ _ (
                reject-IsIdle s _ _ _ (
                  reject-IsIdle s _ _ _ (
                    reject-IsIdle s _ _ _ (
                      reject-IsIdle s _ _ _ (
                        reject-IsIdle s _ _ _ (
                          reject-IsIdle s _ _ _ (
                            lost-IsIdle s indexer owner epoch _ h
                              (rejected-IsIdle s _ _))))))))))))))

-- Once the epoch counter of the indexer has passed the epoch of a client, neither the completion nor
-- the skip script ever changes a key for that client: no claim ends, no manifest is queued and no page
-- is deleted, for any owner value, claim and publication, whatever happens in between, as long as nobody
-- but the scripts writes the counter.
pub stale_completion_writes_nothing :
    {W : Type 0} (redis : Redis W) (view : W → Keyspace) (law : IsRedis redis view) (w w' : W)
    (n e : ℕ) (owner value : Text) (p : Publication)
    → IsEpoch indexer n (view w)
    → e < n
    → Reach indexer redis view w w'
    → (view (eval redis (complete_claim_script owner (str e) value p) w').1 ≡ view w')
      × (view (eval redis (skip_claim_script owner (str e) value p) w').1 ≡ view w')
unfolding skip_claim_script
stale_completion_writes_nothing redis view law w w' n e owner value p h q r = (still, still)
  where
    still : view (eval redis (complete_claim_script owner (str e) value p) w').1 ≡ view w'
    still =
        stale_script_writes_nothing redis view law indexer indexer-IsLayout
          (complete_claim_script owner (str e) value p) w w' n e h q r
          (λ s. complete-IsIdle owner (str e) value p s)
