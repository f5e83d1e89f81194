-- ===== src/Backlinks/Safe.antt =====
-- The promise of services/backlinks-processor to its datastores: a member leaves its Redis set only
-- when MongoDB holds its link.
use mifolyo.Base.{◌≡◌, ◌⊎◌, inl, inr, Bool, true}
use mifolyo.Base.Texts.{Bytes, Text}
use mifolyo.Backlinks.Datastore.{Keeps}
use mifolyo.Backlinks.Keys.{BacklinkMember, valid, parse_backlink_key, parse_backlink_member}

module _ (validate_canonical : Text → Bool) {W : Type 0} (pending : W → Bytes → Bytes → Bool)
    (stored : W → Text → Text → Bool) where
  -- The key names a target, the member a source, and MongoDB links the one to the other.
  pub record Delivered (w : W) (key raw : Bytes) : Type 0 where
    pub target : Text
    pub member : BacklinkMember
    pub key_parsed : parse_backlink_key validate_canonical key ≡ valid target
    pub member_parsed : parse_backlink_member validate_canonical raw ≡ valid member
    pub link_stored : stored w target member.url ≡ true

  pub record Safe (w w' : W) : Type 0 where
    pub accounted :
        (key raw : Bytes)
        → pending w key raw ≡ true
        → (pending w' key raw ≡ true) ⊎ Delivered w' key raw
    pub links_kept : (t u : Text) → stored w t u ≡ true → stored w' t u ≡ true

  pub Safe-refl : (w : W) → Safe w w
  Safe-refl w = record { accounted = λ k m h. inl h; links_kept = λ t u h. h }

  pub Safe-Keeps : {w w' : W} → Keeps pending stored w w' → Safe w w'
  Safe-Keeps h = record {
    accounted = λ k m p. inl (h.pending_kept k m p);
    links_kept = h.stored_kept;
  }

  Delivered-Safe : {w w' : W} (k m : Bytes) → Safe w w' → Delivered w k m → Delivered w' k m
  Delivered-Safe k m s x = record {
    target = x.target;
    member = x.member;
    key_parsed = x.key_parsed;
    member_parsed = x.member_parsed;
    link_stored = s.links_kept x.target x.member.url x.link_stored;
  }

  pub Safe-trans : {u v w : W} → Safe u v → Safe v w → Safe u w
  Safe-trans a b = record {
    accounted = λ k m h. elim (a.accounted k m h) [
      | inl p ↦ b.accounted k m p
      | inr x ↦ inr (Delivered-Safe k m b x)
    ];
    links_kept = λ t x h. b.links_kept t x (a.links_kept t x h);
  }
