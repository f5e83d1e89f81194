-- ===== src/Backlinks/Keys.antt =====
-- services/backlinks-processor/data/redis_client.py: the parsers of keys and members.
pub mod Laws
pub mod Target
use mifolyo.Base.{Bool, Option, none, some, [], ◌∷◌, ltb, length, drop, if◌then◌else◌, String}
use mifolyo.Base.Texts.{Bytes, Text, starts_with}
use mifolyo.Base.Utf8.{decode}
use mifolyo.Backlinks.Config.{backlink_key_prefix, max_canonical_url_bytes, max_backlink_key_bytes}

pub record BacklinkMember : Type 0 where
  pub raw : Bytes
  pub url : Text

-- A value, or the `reason` of an InvalidBacklinkSet.
pub data Parsed (A : Type 0) : Type 0 where
  valid : A → Parsed A
  invalid : String → Parsed A

-- `validate_canonical` is url_validation.validate_canonical_url: whether it returns.
module _ (validate_canonical : Text → Bool) where
  checked : Option Text → (undecodable noncanonical : String) → Parsed Text
  checked none u n = invalid u
  checked (some t) u n = if validate_canonical t then valid t else invalid n

  unfoldable pub parse_backlink_key : Bytes → Parsed Text
  unfolding checked
  parse_backlink_key raw =
      if starts_with backlink_key_prefix raw
      then (if ltb max_backlink_key_bytes (length raw)
          then invalid "target_url_too_long"
          else elim (drop (length backlink_key_prefix) raw) [
            | [] ↦ invalid "target_key_invalid"
            | b ∷ bs ↦ checked (decode (b ∷ bs)) "target_key_invalid" "target_url_noncanonical"
          ])
      else invalid "target_key_invalid"

  member_of : Bytes → Option Text → Parsed BacklinkMember
  member_of raw none = invalid "member_invalid_utf8"
  member_of raw (some []) = invalid "member_invalid_utf8"
  member_of raw (some (c ∷ t)) =
      if validate_canonical (c ∷ t)
      then valid (record { raw = raw; url = c ∷ t })
      else invalid "member_url_noncanonical"

  unfoldable pub parse_backlink_member : Bytes → Parsed BacklinkMember
  unfolding member_of
  parse_backlink_member raw =
      if ltb max_canonical_url_bytes (length raw)
      then invalid "member_url_too_long"
      else member_of raw (decode raw)
