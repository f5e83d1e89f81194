-- ===== src/Backlinks/Config.antt =====
-- services/backlinks-processor/config.py: the limits of one processing cycle.
use mifolyo.Base.{true, false, subst}
use mifolyo.Base.{
  ℕ, ◌*◌, ◌+◌, ◌≤◌, ◌<◌, ◌≡◌, refl, Bool, ◌||◌, Option, none, some, String, arith, ltb, ◌==◌,
  length, if◌then◌else◌,
}
use mifolyo.Base.Texts.{Bytes, codes}

abbrev pub backlink_key_prefix : Bytes
backlink_key_prefix = codes "backlinks:"

abbrev pub max_canonical_url_bytes : ℕ
max_canonical_url_bytes = 2048

abbrev pub max_backlink_key_bytes : ℕ
max_backlink_key_bytes = length backlink_key_prefix + max_canonical_url_bytes

pub record ProcessingLimits : Type 0 where
  pub scan_count_hint : ℕ
  pub max_scan_calls_per_cycle : ℕ
  pub max_targets_per_cycle : ℕ
  pub max_pending_target_keys : ℕ
  pub max_scan_response_items : ℕ
  pub max_pending_member_bytes : ℕ
  pub sscan_count_hint : ℕ
  pub max_members_per_target_per_cycle : ℕ
  pub max_members_per_ack_batch : ℕ
  pub max_ack_batch_url_bytes : ℕ
  pub max_mongo_document_bytes : ℕ

abbrev pub default_limits : ProcessingLimits
default_limits = record {
  scan_count_hint = 100;
  max_scan_calls_per_cycle = 100;
  max_targets_per_cycle = 100;
  max_pending_target_keys = 2048;
  max_scan_response_items = 1024;
  max_pending_member_bytes = 8 * 1024 * 1024;
  sscan_count_hint = 256;
  max_members_per_target_per_cycle = 256;
  max_members_per_ack_batch = 256;
  max_ack_batch_url_bytes = 512 * 1024;
  max_mongo_document_bytes = 12 * 1024 * 1024;
}

-- A Python int.
pub data ℤ : Type 0 where
  pos negsuc : ℕ → ℤ

-- The arguments of the constructor.
pub record LimitArguments : Type 0 where
  pub scan_count_hint : ℤ
  pub max_scan_calls_per_cycle : ℤ
  pub max_targets_per_cycle : ℤ
  pub max_pending_target_keys : ℤ
  pub max_scan_response_items : ℤ
  pub max_pending_member_bytes : ℤ
  pub sscan_count_hint : ℤ
  pub max_members_per_target_per_cycle : ℤ
  pub max_members_per_ack_batch : ℤ
  pub max_ack_batch_url_bytes : ℤ
  pub max_mongo_document_bytes : ℤ

-- `value <= 0`
abbrev pub not_positive : ℤ → Bool
not_positive (pos n) = n == 0
not_positive (negsuc n) = true

abbrev pub natural : ℤ → ℕ
natural (pos n) = n
natural (negsuc n) = 0

any_not_positive : LimitArguments → Bool
any_not_positive a =
    not_positive a.scan_count_hint
    || not_positive a.max_scan_calls_per_cycle
    || not_positive a.max_targets_per_cycle
    || not_positive a.max_pending_target_keys
    || not_positive a.max_scan_response_items
    || not_positive a.max_pending_member_bytes
    || not_positive a.sscan_count_hint
    || not_positive a.max_members_per_target_per_cycle
    || not_positive a.max_members_per_ack_batch
    || not_positive a.max_ack_batch_url_bytes
    || not_positive a.max_mongo_document_bytes

-- The object, whose fields are the natural numbers that the arguments are once all are positive.
abbrev limits_of : LimitArguments → ProcessingLimits
limits_of a = record {
  scan_count_hint = natural a.scan_count_hint;
  max_scan_calls_per_cycle = natural a.max_scan_calls_per_cycle;
  max_targets_per_cycle = natural a.max_targets_per_cycle;
  max_pending_target_keys = natural a.max_pending_target_keys;
  max_scan_response_items = natural a.max_scan_response_items;
  max_pending_member_bytes = natural a.max_pending_member_bytes;
  sscan_count_hint = natural a.sscan_count_hint;
  max_members_per_target_per_cycle = natural a.max_members_per_target_per_cycle;
  max_members_per_ack_batch = natural a.max_members_per_ack_batch;
  max_ack_batch_url_bytes = natural a.max_ack_batch_url_bytes;
  max_mongo_document_bytes = natural a.max_mongo_document_bytes;
}

pub data Construction : Type 0 where
  constructed : ProcessingLimits → Construction
  value_error : String → Construction

check_sizes : ProcessingLimits → Option String
check_sizes l =
    if ltb l.max_pending_target_keys l.max_targets_per_cycle
    then some "max_pending_target_keys must be at least max_targets_per_cycle"
    else if ltb l.max_pending_target_keys l.max_scan_response_items
    then some "max_pending_target_keys must be at least max_scan_response_items"
    else if ltb l.max_pending_member_bytes (l.max_scan_response_items * max_canonical_url_bytes)
    then some "max_pending_member_bytes must hold a full member scan response"
    else none

-- The constructor with its `__post_init__`
unfoldable pub post_init : LimitArguments → Construction
unfolding any_not_positive check_sizes
post_init a =
    if any_not_positive a
    then value_error "processing limits must be positive"
    else elim (check_sizes (limits_of a)) [
      | some message ↦ value_error message
      | none ↦ constructed (limits_of a)
    ]

-- What the rest of the processor relies on.
pub record IsValid (l : ProcessingLimits) : Type 0 where
  pub scan_hint : 0 < l.scan_count_hint
  pub sscan_hint : 0 < l.sscan_count_hint
  pub pending_keys : 0 < l.max_pending_target_keys
  pub response_items : 0 < l.max_scan_response_items
  pub pending_bytes : 0 < l.max_pending_member_bytes
  pub document_bytes : 0 < l.max_mongo_document_bytes
  pub scan_calls : 0 < l.max_scan_calls_per_cycle
  pub targets : 0 < l.max_targets_per_cycle
  pub examined : 0 < l.max_members_per_target_per_cycle
  pub batch_members : 0 < l.max_members_per_ack_batch
  pub batch_bytes : 0 < l.max_ack_batch_url_bytes
  pub keys_hold_targets : l.max_targets_per_cycle ≤ l.max_pending_target_keys
  pub keys_hold_scan : l.max_scan_response_items ≤ l.max_pending_target_keys
  pub bytes_hold_scan :
      l.max_scan_response_items * max_canonical_url_bytes ≤ l.max_pending_member_bytes

is_positive : (a : ℤ) → not_positive a ≡ false → 0 < natural a
is_positive (pos n) h = ground arith
is_positive (negsuc n) h = cc

limits_of-IsValid :
    (a : LimitArguments)
    → any_not_positive a ≡ false
    → check_sizes (limits_of a) ≡ none
    → IsValid (limits_of a)
unfolding any_not_positive check_sizes
limits_of-IsValid a p q = ground (
  arith,
  is_positive a.scan_count_hint,
  is_positive a.max_scan_calls_per_cycle,
  is_positive a.max_targets_per_cycle,
  is_positive a.max_pending_target_keys,
  is_positive a.max_scan_response_items,
  is_positive a.max_pending_member_bytes,
  is_positive a.sscan_count_hint,
  is_positive a.max_members_per_target_per_cycle,
  is_positive a.max_members_per_ack_batch,
  is_positive a.max_ack_batch_url_bytes,
  is_positive a.max_mongo_document_bytes,
)

-- Every object that is constructed is valid: all limits are positive, the key buffer holds a cycle's
-- targets and a full key scan, and the member buffer holds a full member scan of the longest URLs.
pub post_init-IsValid :
    (a : LimitArguments) (l : ProcessingLimits) → post_init a ≡ constructed l → IsValid l
unfolding post_init
post_init-IsValid a l h = go (any_not_positive a) refl (check_sizes (limits_of a)) refl h
  where
    go :
        (b : Bool)
        → any_not_positive a ≡ b
        → (o : Option String) → check_sizes (limits_of a) ≡ o
        → (if b
            then value_error "processing limits must be positive"
            else elim o [ some message ↦ value_error message | none ↦ constructed (limits_of a) ])
          ≡ constructed l
        → IsValid l
    go true p o q r = cc
    go false p (some m) q r = cc
    go false p none q r = subst IsValid (the_limits r) (limits_of-IsValid a p q)
      where
        the_limits : constructed (limits_of a) ≡ constructed l → limits_of a ≡ l
        the_limits e = cc

pub default_limits-IsValid : IsValid default_limits
default_limits-IsValid = ground arith
