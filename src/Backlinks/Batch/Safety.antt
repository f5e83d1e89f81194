-- ===== src/Backlinks/Batch/Safety.antt =====
-- main.py, `process_batch`: what it does to Redis and MongoDB, on every outcome.
use mifolyo.Base.{
  ℕ, ◌≡◌, refl, inl, inr, Bool, true, List, [], ◌∷◌, arith, All, Bool-cases, subst, sym,
}
use mifolyo.Base.Texts.{Bytes, Text, same, same→eq, same_refl, contains}
use mifolyo.Backlinks.Errors.{Exception, Result, ok, raise}
use mifolyo.Backlinks.Datastore.{Datastore, IsReliable}
use mifolyo.Backlinks.Keys.{BacklinkMember, valid, parse_backlink_key, parse_backlink_member}
use mifolyo.Backlinks.Safe.{Safe, Delivered, Safe-refl, Safe-Keeps, Safe-trans}
use mifolyo.Backlinks.Redis.{srem_backlink_members}
use mifolyo.Backlinks.Redis.Laws.{srem_backlink_members_world}
use mifolyo.Backlinks.Mongo.{BatchLimits, add_backlinks}
use mifolyo.Backlinks.Mongo.Writes.{add_backlinks-Keeps, add_backlinks-stores}
use mifolyo.Backlinks.Batch.{
  BacklinkBatch, raws, urls, write_failed, acknowledged, written_then, process_batch,
}

-- The bytes of a batch's member belong to a member whose link is among those written.
raws-urls :
    (P : BacklinkMember → Type 0) (raw : Bytes) (ms : List BacklinkMember)
    → All P ms
    → contains raw (raws ms) ≡ true
    → (x : BacklinkMember) × P x × (x.raw ≡ raw) × (contains x.url (urls ms) ≡ true)
unfolding contains
raws-urls P raw [] h k = cc
raws-urls P raw (m ∷ ms) h k = elim (Bool-cases (same m.raw raw)) [
  | inl e ↦ (m, h.0, same→eq m.raw raw e, rw (same_refl m.url) refl)
  | inr e ↦ let (x, p, r, c) = raws-urls P raw ms h.1 (ground arith) in (x, p, r, ground arith)
]

-- Every member of the batch comes from the parsers, for the batch's key.
pub record IsParsed (validate_canonical : Text → Bool) (b : BacklinkBatch) : Type 0 where
  pub key : parse_backlink_key validate_canonical b.redis_key ≡ valid b.target_url
  pub members : All (λ m. parse_backlink_member validate_canonical m.raw ≡ valid m) b.members

-- Every link of the batch is stored.
abbrev pub AllStored : {W : Type 0} → (W → Text → Text → Bool) → W → BacklinkBatch → Type 0
AllStored stored w b =
    (u : Text) → contains u (urls b.members) ≡ true → stored w b.target_url u ≡ true

module _ (validate_canonical : Text → Bool) {W : Type 0} (d : Datastore W)
    {pending : W → Bytes → Bytes → Bool} {stored : W → Text → Text → Bool}
    (v : IsReliable pending stored d) where
  write_failed_world :
      (n : ℕ) (e : Exception) (w : W) → (write_failed validate_canonical d n e w).1 ≡ w
  unfolding write_failed
  write_failed_world n e w = ground arith

  acknowledged_world :
      (n : ℕ) (r : Result ℕ) (w : W) → (acknowledged validate_canonical d n r w).1 ≡ w
  unfolding acknowledged
  acknowledged_world n (ok m) w = refl
  acknowledged_world n (raise e) w = ground arith

  delivered :
      (b : BacklinkBatch) (w : W) (j m : Bytes)
      → IsParsed validate_canonical b
      → AllStored stored w b
      → same j b.redis_key ≡ true
      → contains m (raws b.members) ≡ true
      → Delivered validate_canonical pending stored w j m
  delivered b w j m p s e c =
      let (x, px, r, cu) = raws-urls _ m b.members p.members c in
      record {
        target = b.target_url;
        member = x;
        key_parsed =
            subst (λ k. parse_backlink_key validate_canonical k ≡ valid b.target_url)
              (sym (same→eq j b.redis_key e)) p.key;
        member_parsed = subst (λ q. parse_backlink_member validate_canonical q ≡ valid x) r px;
        link_stored = s x.url cu;
      }

  srem-Safe :
      (b : BacklinkBatch) (ms : List Bytes) (w : W)
      → IsParsed validate_canonical b
      → AllStored stored w b
      → raws b.members ≡ ms
      → Safe validate_canonical pending stored w (srem_backlink_members d b.redis_key ms w).1
  unfolding srem_backlink_members
  srem-Safe b [] w p s e = Safe-refl validate_canonical pending stored w
  srem-Safe b (m ∷ ms) w p s e =
      subst (Safe validate_canonical pending stored w)
        (sym (srem_backlink_members_world d b.redis_key m ms w))
        (record {
          accounted = λ j x h. elim (v.srem_pending b.redis_key (m ∷ ms) w j x h) [
            | inl k ↦ inl k
            | inr (q, c) ↦ inr (
                delivered b (d.srem b.redis_key (m ∷ ms) w).1 j x p
                  (λ u cu. v.srem_stored b.redis_key (m ∷ ms) w b.target_url u (s u cu)) q
                  (subst (λ l. contains x l ≡ true) (sym e) c))
          ];
          links_kept = v.srem_stored b.redis_key (m ∷ ms) w;
        })

  written_then-Safe :
      (b : BacklinkBatch) (r : Result (Unit {0})) (w : W)
      → IsParsed validate_canonical b
      → (r ≡ ok tt → AllStored stored w b)
      → Safe validate_canonical pending stored w (written_then validate_canonical d b r w).1
  unfolding written_then
  written_then-Safe b (raise e) w p s =
      subst (Safe validate_canonical pending stored w) (sym (write_failed_world _ e w))
        (Safe-refl validate_canonical pending stored w)
  written_then-Safe b (ok tt) w p s =
      let (r, w') = srem_backlink_members d b.redis_key (raws b.members) w in
      subst (Safe validate_canonical pending stored w) (sym (acknowledged_world _ r w'))
        (srem-Safe b (raws b.members) w p (s refl) refl)

  -- Over reliable datastores, whatever happens to a batch whose key and members come from the
  -- parsers: a member leaves its Redis set only when MongoDB holds its link, and no stored link is
  -- lost.
  pub process_batch-Safe :
      (l : BatchLimits) (b : BacklinkBatch) (w : W)
      → IsParsed validate_canonical b
      → Safe validate_canonical pending stored w (process_batch validate_canonical d l b w).1
  unfolding process_batch
  process_batch-Safe l b w p =
      let (r, w') = add_backlinks d validate_canonical l b.target_url (urls b.members) w in
      Safe-trans validate_canonical pending stored
        (Safe-Keeps validate_canonical pending stored
          (add_backlinks-Keeps d v validate_canonical l b.target_url (urls b.members) w))
        (written_then-Safe b r w' p (λ e u c.
          add_backlinks-stores d v validate_canonical l b.target_url (urls b.members) w u e c))
