-- ===== src/Backlinks/Cycle/Visit/Sends.antt =====
-- The batch of a visit raises an error of the BSON codec or nothing, and keeps the state's invariant:
-- what it restores fits.
use mifolyo.Base.{
  ℕ, ◌+◌, ◌≤◌, ◌≡◌, ◌≢◌, refl, ◌∙◌, ap, Bool, some, List, [], ◌∷◌, arith, length, Bool-cases, ◌⊎◌,
  inl, inr, sum_of-append, sum_of-map,
}
use mifolyo.Base.Texts.{Bytes, Text, same_refl}
use mifolyo.Base.Dict
use mifolyo.Base.Dict.{lookup-insert}
use mifolyo.Backlinks.Config.{ProcessingLimits}
use mifolyo.Backlinks.Errors.{Exception, bson_error, Result, ok, raise}
use mifolyo.Backlinks.Datastore.{Datastore}
use mifolyo.Backlinks.Keys.{BacklinkMember, valid, parse_backlink_key}
use mifolyo.Backlinks.Batch.{BatchResult, Status, acked, rejected, retry_later, raws, process_batch}
use mifolyo.Backlinks.Batch.Outcome.{process_batch-ends}
use mifolyo.Backlinks.Admit.Bounds.{member_bytes}
use mifolyo.Backlinks.State.{TargetScanState, byte_count, target_bytes, restore_members}
use mifolyo.Backlinks.State.Invariant.{IsBounded}
use mifolyo.Backlinks.State.Moves.{put-Visiting}
use mifolyo.Backlinks.Cycle.Vars.{Cycle}
use mifolyo.Backlinks.Cycle.Visit.{batch_limits, with_target, settle, settled, batch_of, send}
use mifolyo.Backlinks.Cycle.Visit.Fetches.{Visits}

-- The restored members are the batch's bytes again.
target_bytes-restore :
    (ms : List BacklinkMember) (t : TargetScanState)
    → target_bytes (restore_members ms t) ≡ member_bytes ms + target_bytes t
unfolding restore_members byte_count
target_bytes-restore ms t = omega (
  arith,
  sum_of-append (λ (r : Bytes). length r) (raws ms) t.pending_members,
  sum_of-map (λ (m : BacklinkMember). m.raw) (λ (r : Bytes). length r) ms,
)

module _ (validate_canonical : Text → Bool) {W : Type 0} (d : Datastore W)
    (l : ProcessingLimits) where
  -- A buffer in `state.targets` during a visit whose target no longer waits.
  pub record Holding (key : Bytes) (before : ℕ) (t : TargetScanState) (c : Cycle W) : Type 0 where
    pub visiting : Visits validate_canonical d l key before (target_bytes t) c
    pub not_waiting : c.state.member_scan_waiter ≢ some key
    pub stored : Dict.lookup key c.state.targets ≡ some t

  -- The buffer is written where there is room for it.
  pub with_target-Holding :
      (key : Bytes) (u : Text) (p : ℕ) (old t : TargetScanState) (c : Cycle W)
      → parse_backlink_key validate_canonical key ≡ valid u
      → c.locals.pending_bytes + target_bytes t ≤ l.max_pending_member_bytes + p
      → Holding key p old c
      → Holding key p t (with_target key t c)
  with_target-Holding key u p old t c e fits h = record {
    visiting =
        put-Visiting validate_canonical l key c.locals.pending_bytes p (target_bytes old) t c.state
          (ap (Dict.weight target_bytes) h.stored) fits u e (λ x. absurd (h.not_waiting x))
          h.visiting;
    not_waiting = h.not_waiting;
    stored = lookup-insert key key t c.state.targets ∙ rw (same_refl key) refl;
  }

  -- An error of the BSON codec ended the visit. The visited key is in no queue then, but the bounds hold.
  abbrev pub Broken : Exception → Cycle W → Type 0
  Broken e c = (e ≡ bson_error) × IsBounded l c.state

  Holding-IsBounded :
      (key : Bytes) (p : ℕ) (t : TargetScanState) (c : Cycle W)
      → Holding key p t c
      → IsBounded l c.state
  Holding-IsBounded key p t c h = (
    omega (arith, h.visiting.keys_bounded),
    omega (arith, h.visiting.bytes_held, h.visiting.bytes_bounded),
  )

  -- What a send leaves: some buffer is in place where it returns.
  abbrev pub Sent : Bytes → ℕ → Result (Unit {0}) × Cycle W → Type 0
  Sent key p (ok u, c) = (t : TargetScanState) × Holding key p t c
  Sent key p (raise e, c) = Broken e c

  abbrev pub Fits : ℕ → TargetScanState → List BacklinkMember → Cycle W → Type 0
  Fits p t ms c =
      c.locals.pending_bytes + (member_bytes ms + target_bytes t) ≤ l.max_pending_member_bytes + p

  restored :
      (key : Bytes) (u : Text) (p : ℕ) (t : TargetScanState) (ms : List BacklinkMember)
      (c : Cycle W)
      → parse_backlink_key validate_canonical key ≡ valid u
      → Fits p t ms c
      → Holding key p t c
      → Holding key p (restore_members ms t) (with_target key (restore_members ms t) c)
  restored key u p t ms c e fits h =
      with_target-Holding key u p t (restore_members ms t) c e
        (omega (arith, target_bytes-restore ms t)) h

  settle-Sent :
      (key : Bytes) (u : Text) (p : ℕ) (t : TargetScanState) (ms : List BacklinkMember)
      (r : BatchResult) (s : Status) (c : Cycle W)
      → r.status ≡ s
      → parse_backlink_key validate_canonical key ≡ valid u
      → Fits p t ms c
      → Holding key p t c
      → (t' : TargetScanState) × Holding key p t' (settle validate_canonical d l key t ms r c)
  unfolding settle
  settle-Sent key u p t ms r acked c e k fits h = rw (e, settle) (t, held h)
    where
      held :
          Holding key p t c
          → Holding key p t (record c {
            locals = record c.locals {
              batches_acked = c.locals.batches_acked + 1;
              members_acked = c.locals.members_acked + r.requested_members;
              members_removed = c.locals.members_removed + r.removed_members;
            };
          })
      held x = record { visiting = x.visiting; not_waiting = x.not_waiting; stored = x.stored }
  settle-Sent key u p t ms r retry_later c e k fits h =
      rw (e, settle)
        (
          restore_members ms t,
          (let x = restored key u p t ms c k fits h in
              record { visiting = x.visiting; not_waiting = x.not_waiting; stored = x.stored }),
        )
  settle-Sent key u p t ms r rejected c e k fits h =
      rw (e, settle)
        (t, record { visiting = h.visiting; not_waiting = h.not_waiting; stored = h.stored })

  settled-Sent :
      (key : Bytes) (u : Text) (p : ℕ) (t : TargetScanState) (ms : List BacklinkMember)
      (c : Cycle W) (r : Result BatchResult) (w : W)
      → ((x : BatchResult) × (r ≡ ok x)) ⊎ (r ≡ raise bson_error)
      → parse_backlink_key validate_canonical key ≡ valid u
      → Fits p t ms c
      → Holding key p t c
      → Sent key p (settled validate_canonical d l key t ms c (r, w))
  unfolding settled
  settled-Sent key u p t ms c (raise e) w (inl (x, h)) k fits v = cc
  settled-Sent key u p t ms c (raise e) w (inr h) k fits v = (cc, Holding-IsBounded key p t c v)
  settled-Sent key u p t ms c (ok r) w h k fits v =
      settle-Sent key u p t ms r r.status (record c { world = w }) refl k fits
        (record { visiting = v.visiting; not_waiting = v.not_waiting; stored = v.stored })

  -- Sending a batch leaves a buffer within the bounds.
  pub send-Sent :
      (key : Bytes) (u : Text) (p : ℕ) (t : TargetScanState) (ms : List BacklinkMember)
      (c : Cycle W)
      → parse_backlink_key validate_canonical key ≡ valid u
      → Fits p t ms c
      → Holding key p t c
      → Sent key p (send validate_canonical d l key u t ms c)
  unfolding send
  send-Sent key u p t [] c k fits h = (t, h)
  send-Sent key u p t (m ∷ ms) c k fits h = elim (Bool-cases (d.is_set c.world).0) [
    | inl stop ↦
        rw (stop, send) (restore_members (m ∷ ms) t, restored key u p t (m ∷ ms) c₁ k fits h₁)
    | inr go ↦
        let b = batch_of validate_canonical d l key u (m ∷ ms) in
        let e = process_batch-ends validate_canonical d (batch_limits l) b c₁.world (λ z. cc) in
        let (r, w) = process_batch validate_canonical d (batch_limits l) b c₁.world in
        rw (go, send) (settled-Sent key u p t (m ∷ ms) c₁ r w e k fits h₁)
  ]
    where
      c₁ : Cycle W
      c₁ = record c { world = (d.is_set c.world).1 }

      h₁ : Holding key p t c₁
      h₁ = record { visiting = h.visiting; not_waiting = h.not_waiting; stored = h.stored }
