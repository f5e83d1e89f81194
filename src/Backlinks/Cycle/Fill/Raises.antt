-- ===== src/Backlinks/Cycle/Fill/Raises.antt =====
-- `_fill_pending_keys` raises a RedisError or nothing, and its caller catches that.
use mifolyo.Base.{ℕ, zero, suc, ◌≡◌, refl, true, Bool-cases, List, arith, inl, inr, subst}
use mifolyo.Base.Texts.{Bytes}
use mifolyo.Backlinks.Config.{ProcessingLimits}
use mifolyo.Backlinks.Errors.{
  Exception, Result, ok, raise, Result-cases, is_redis_error, scan_limit_exceeded,
}
use mifolyo.Backlinks.Datastore.{Datastore}
use mifolyo.Backlinks.Redis.{scan_backlink_keys}
use mifolyo.Backlinks.Redis.Laws.{scan_backlink_keys-raise}
use mifolyo.Backlinks.Cycle.Vars.{Cycle}
use mifolyo.Backlinks.Cycle.Fill.{
  scanned, scan_keys, has_capacity, filled, fill_pending_keys, fill_failed, fill_caught, fill,
}
use mifolyo.Backlinks.Cycle.Visit.Invariant.{OnlyRedis}

module _ {W : Type 0} (d : Datastore W) (l : ProcessingLimits) where
  scanned-OnlyRedis :
      (c : Cycle W) (r : Result (ℕ × List Bytes)) (w : W)
      → ((e : Exception) → r ≡ raise e → is_redis_error e ≡ true)
      → OnlyRedis (scanned d l c (r, w)).0
  unfolding scanned
  scanned-OnlyRedis c (raise e) w h = h e refl
  scanned-OnlyRedis c (ok p) w h = tt

  scan_keys-OnlyRedis : (c : Cycle W) → OnlyRedis (scan_keys d l c).0
  unfolding scan_keys
  scan_keys-OnlyRedis c =
      let (r, w) =
        scan_backlink_keys d c.state.key_cursor l.scan_count_hint l.max_scan_response_items
          c.world in
      scanned-OnlyRedis c r w (
        scan_backlink_keys-raise d c.state.key_cursor l.scan_count_hint l.max_scan_response_items
          c.world)

  fill_pending_keys-OnlyRedis : (n : ℕ) (c : Cycle W) → OnlyRedis (fill_pending_keys d l n c).0
  unfolding fill_pending_keys
  fill_pending_keys-OnlyRedis zero c = tt
  fill_pending_keys-OnlyRedis (suc n) c = elim (Bool-cases (has_capacity d l c.state)) [
    | inr full ↦ rw (full, fill_pending_keys) tt
    | inl room ↦ elim (Bool-cases (d.is_set c.world).0) [
      | inl stop ↦ rw (room, stop, fill_pending_keys) tt
      | inr go ↦
          let c₁ : Cycle W = record c { world = (d.is_set c.world).1 } in
          elim (Result-cases (scan_keys d l c₁).0) [
            | inr (e, failed) ↦
                rw (room, go, failed, fill_pending_keys)
                  (subst OnlyRedis failed (scan_keys-OnlyRedis c₁))
            | inl (k, read) ↦ elim (Bool-cases (filled d l k (scan_keys d l c₁).1.state)) [
              | inl done ↦ rw (room, go, read, done, fill_pending_keys) tt
              | inr more ↦
                  rw (room, go, read, more, fill_pending_keys)
                    (fill_pending_keys-OnlyRedis n (scan_keys d l c₁).1)
            ]
          ]
    ]
  ]

  fill_caught-ok :
      (r : Result (Unit {0})) (c : Cycle W) → OnlyRedis r → (fill_caught d l (r, c)).0 ≡ ok tt
  unfolding fill_caught fill_failed
  fill_caught-ok (ok u) c h = refl
  fill_caught-ok (raise (scan_limit_exceeded m)) c h = refl
  fill_caught-ok (raise e) c h = ground arith

  -- The handlers around the scan of keys catch all that it raises.
  pub fill-ok : (c : Cycle W) → (fill d l c).0 ≡ ok tt
  unfolding fill
  fill-ok c =
      let (r, c') = fill_pending_keys d l l.max_scan_calls_per_cycle c in
      fill_caught-ok r c' (fill_pending_keys-OnlyRedis l.max_scan_calls_per_cycle c)
