-- ===== src/Backlinks/State.antt =====
-- services/backlinks-processor/main.py: the processor's state, its key queue and its member buffers.
pub mod Queue
pub mod Invariant
pub mod Moves
use mifolyo.Base.{
  ℕ, Bool, true, false, not, ◌&&◌, Option, none, List, [], ◌∷◌, ◌++◌, length, sum_of, if◌then◌else◌,
}
use mifolyo.Base.Texts.{Bytes, same, contains}
use mifolyo.Base.Dict
use mifolyo.Base.Dict.{Dict}
use mifolyo.Backlinks.Keys.{BacklinkMember}
use mifolyo.Backlinks.Batch.{raws}

pub record TargetScanState : Type 0 where
  pub cursor : ℕ
  pub scan_complete : Bool
  pub pending_members : List Bytes

abbrev pub new_target : TargetScanState
new_target = record { cursor = 0; scan_complete = false; pending_members = [] }

pub record ProcessorState : Type 0 where
  pub key_cursor : ℕ
  pub pending_keys : List Bytes
  pub queued_keys : List Bytes
  pub targets : Dict TargetScanState
  pub member_scan_waiter : Option Bytes

abbrev pub new_processor : ProcessorState
new_processor = record {
  key_cursor = 0;
  pending_keys = [];
  queued_keys = [];
  targets = [];
  member_scan_waiter = none;
}

abbrev pub is_empty : List Bytes → Bool
is_empty [] = true
is_empty (_ ∷ _) = false

-- `not target_state.pending_members and not target_state.scan_complete`
abbrev pub needs_scan : TargetScanState → Bool
needs_scan t = is_empty t.pending_members && not t.scan_complete

-- `sum(len(raw) for raw in members)`
unfoldable pub byte_count : List Bytes → ℕ
byte_count = sum_of (λ raw. length raw)

abbrev pub target_bytes : TargetScanState → ℕ
target_bytes t = byte_count t.pending_members

-- `pending_bytes`, as `process_cycle` recomputes it
abbrev pub buffered_bytes : Dict TargetScanState → ℕ
buffered_bytes = Dict.total target_bytes

-- `queued_keys.discard(key)`, on the set as a list without order
unfoldable pub discard : Bytes → List Bytes → List Bytes
discard k [] = []
discard k (j ∷ js) = let rest = discard k js in if same j k then rest else j ∷ rest

-- `_queue_key`
unfoldable pub queue_key : Bytes → ProcessorState → ProcessorState
queue_key key s =
    if contains key s.queued_keys
    then s
    else record s { pending_keys = s.pending_keys ++ key ∷ []; queued_keys = key ∷ s.queued_keys }

unfoldable pub queue_keys : List Bytes → ProcessorState → ProcessorState
unfolding queue_key
queue_keys [] s = s
queue_keys (k ∷ ks) s = queue_keys ks (queue_key k s)

-- `_restore_members`
unfoldable pub restore_members : List BacklinkMember → TargetScanState → TargetScanState
restore_members members t = record t { pending_members = raws members ++ t.pending_members }
