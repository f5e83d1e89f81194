-- ===== src/Backlinks/Keys/Laws.antt =====
-- redis_client.py: which keys and members the parsers accept, and what they make of them.
use mifolyo.Base.{◌≤◌, ◌≡◌, ◌≢◌, refl, Bool, true, Option, none, some, [], ◌∷◌, arith, length}
use mifolyo.Base.Texts.{Bytes, Text}
use mifolyo.Base.Utf8.{decode}
use mifolyo.Backlinks.Config.{max_canonical_url_bytes}
use mifolyo.Backlinks.Keys.{BacklinkMember, valid, parse_backlink_member, member_of}

module _ (validate_canonical : Text → Bool) where
  -- What `parse_backlink_member` promises of a member.
  pub record IsMember (raw : Bytes) (m : BacklinkMember) : Type 0 where
    pub same_raw : m.raw ≡ raw
    pub short : length raw ≤ max_canonical_url_bytes
    pub decoded : decode raw ≡ some m.url
    pub nonempty : m.url ≢ []
    pub canonical : validate_canonical m.url ≡ true

  member_of-IsMember :
      (raw : Bytes) (o : Option Text) (m : BacklinkMember)
      → member_of validate_canonical raw o ≡ valid m
      → (m.raw ≡ raw) × (o ≡ some m.url) × (m.url ≢ []) × (validate_canonical m.url ≡ true)
  unfolding member_of
  member_of-IsMember raw none m h = cc
  member_of-IsMember raw (some []) m h = cc
  member_of-IsMember raw (some (c ∷ t)) m h = ground arith

  pub parse_backlink_member-IsMember :
      (raw : Bytes) (m : BacklinkMember)
      → parse_backlink_member validate_canonical raw ≡ valid m
      → IsMember raw m
  unfolding parse_backlink_member
  parse_backlink_member-IsMember raw m h = ground (arith, member_of-IsMember raw (decode raw) m)

  IsMember-parse_backlink_member :
      (raw : Bytes) (m : BacklinkMember)
      → IsMember raw m
      → parse_backlink_member validate_canonical raw ≡ valid m
  unfolding parse_backlink_member member_of
  IsMember-parse_backlink_member raw m v =
      ground
        (arith, v.short, v.decoded, member_of-valid raw m.url v.nonempty v.canonical, v.same_raw)
    where
      member_of-valid :
          (r : Bytes) (u : Text)
          → u ≢ []
          → validate_canonical u ≡ true
          → member_of validate_canonical r (some u) ≡ valid (record { raw = r; url = u })
      member_of-valid r [] h c = absurd (h refl)
      member_of-valid r (x ∷ u) h c = rw c refl

  -- `parse_backlink_member` makes a member of raw bytes exactly when it keeps these bytes, they are
  -- at most the bytes that a canonical URL may have, and they decode as UTF-8 to its URL, which is
  -- not empty and passes the URL validator.
  pub parse_backlink_member_iff :
      (raw : Bytes) (m : BacklinkMember)
      → (parse_backlink_member validate_canonical raw ≡ valid m → IsMember raw m)
        × (IsMember raw m → parse_backlink_member validate_canonical raw ≡ valid m)
  parse_backlink_member_iff raw m =
      (parse_backlink_member-IsMember raw m, IsMember-parse_backlink_member raw m)
