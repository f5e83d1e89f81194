-- ===== src/Backlinks/Cycle/Fill/Rule.antt =====
-- The rule for invariants of `_fill_pending_keys`, and of its call in `process_cycle`.
use mifolyo.Base.{ℕ, zero, suc, ◌≡◌, true, Bool-cases, inl, inr, arith, String}
use mifolyo.Backlinks.Config.{ProcessingLimits}
use mifolyo.Backlinks.Errors.{Result, ok, raise, Result-cases, scan_limit_exceeded}
use mifolyo.Backlinks.Datastore.{Datastore}
use mifolyo.Backlinks.Cycle.Vars.{Cycle, count_retry}
use mifolyo.Backlinks.Cycle.Fill.{
  scan_keys, has_capacity, filled, fill_pending_keys, fill_caught, fill,
}

module _ {W : Type 0} (d : Datastore W) (l : ProcessingLimits) where
  fill_pending_keys_inv {κ} :
      (I : Cycle W → Type κ)
      → ((c : Cycle W) → I c → I (record c { world = (d.is_set c.world).1 }))
      → ((c : Cycle W) → has_capacity d l c.state ≡ true → I c → I (scan_keys d l c).1)
      → (n : ℕ) (c : Cycle W) → I c
      → I (fill_pending_keys d l n c).1
  unfolding fill_pending_keys
  fill_pending_keys_inv I poll scan zero c h = h
  fill_pending_keys_inv I poll scan (suc n) c h = elim (Bool-cases (has_capacity d l c.state)) [
    | inr full ↦ rw (full, fill_pending_keys) h
    | inl room ↦ elim (Bool-cases (d.is_set c.world).0) [
      | inl stop ↦ rw (room, stop, fill_pending_keys) (poll c h)
      | inr go ↦
          let c₁ : Cycle W = record c { world = (d.is_set c.world).1 } in
          let h₁ : I (scan_keys d l c₁).1 = scan c₁ room (poll c h) in
          elim (Result-cases (scan_keys d l c₁).0) [
            | inr (e, failed) ↦ rw (room, go, failed, fill_pending_keys) h₁
            | inl (k, read) ↦ elim (Bool-cases (filled d l k (scan_keys d l c₁).1.state)) [
              | inl done ↦ rw (room, go, read, done, fill_pending_keys) h₁
              | inr more ↦
                  rw (room, go, read, more, fill_pending_keys)
                    (fill_pending_keys_inv I poll scan n (scan_keys d l c₁).1 h₁)
            ]
          ]
    ]
  ]

  fill_caught_inv {κ} :
      (I : Cycle W → Type κ)
      → ((reason : String) (c : Cycle W) → I c → I (count_retry reason c))
      → (r : Result (Unit {0})) (c : Cycle W) → I c
      → I (fill_caught d l (r, c)).1
  unfolding fill_caught
  fill_caught_inv I count (ok u) c h = h
  fill_caught_inv I count (raise (scan_limit_exceeded m)) c h = count _ c h
  fill_caught_inv I count (raise e) c h = ground (arith, count "redis_key_scan_unavailable" c h)

  -- What a poll, a scan with capacity and a count of retries keep, the whole step keeps.
  pub fill_inv {κ} :
      (I : Cycle W → Type κ)
      → ((c : Cycle W) → I c → I (record c { world = (d.is_set c.world).1 }))
      → ((c : Cycle W) → has_capacity d l c.state ≡ true → I c → I (scan_keys d l c).1)
      → ((reason : String) (c : Cycle W) → I c → I (count_retry reason c))
      → (c : Cycle W) → I c
      → I (fill d l c).1
  unfolding fill
  fill_inv I poll scan count c h =
      let (r, c') = fill_pending_keys d l l.max_scan_calls_per_cycle c in
      fill_caught_inv I count r c'
        (fill_pending_keys_inv I poll scan l.max_scan_calls_per_cycle c h)
