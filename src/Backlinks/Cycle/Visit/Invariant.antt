-- ===== src/Backlinks/Cycle/Visit/Invariant.antt =====
-- The visit of a target keeps the state's invariant, and raises nothing but a RedisError
-- or an error of the BSON codec.
use mifolyo.Base.{
  ℕ, ◌≡◌, refl, sym, ◌∙◌, ap, subst, Bool, true, not, ◌||◌, Option, none, some, String, arith,
  Bool-cases, ◌⊎◌, inl, inr,
}
use mifolyo.Base.Texts.{Bytes, Text, same_refl}
use mifolyo.Base.Dict
use mifolyo.Base.Dict.{lookup-insert, total-insert}
use mifolyo.Base.Counter.{update}
use mifolyo.Backlinks.Config.{ProcessingLimits}
use mifolyo.Backlinks.Errors.{Exception, Result, ok, raise, is_redis_error}
use mifolyo.Backlinks.Datastore.{Datastore}
use mifolyo.Backlinks.Keys.{Parsed, valid, invalid, parse_backlink_key}
use mifolyo.Backlinks.Admit.{admit_members}
use mifolyo.Backlinks.Admit.Bounds.{admit_members-bytes}
use mifolyo.Backlinks.State.{TargetScanState, new_target, byte_count, target_bytes, is_empty}
use mifolyo.Backlinks.State.Moves.{requeue-Inv, forget-Inv, drop-Inv, put-Visiting}
use mifolyo.Backlinks.Cycle.Vars.{Cycle}
use mifolyo.Backlinks.Cycle.Visit.{
  Fetch, ready, continues, broken, with_target, fetch, send, current, conclude, concluded, deliver,
  fetched, work_on, open_target, visit_parsed, visit,
}
use mifolyo.Backlinks.Cycle.Visit.Fetches.{Holds, Visits, IsReady, Fetched, fetch-Fetched}
use mifolyo.Backlinks.Cycle.Visit.Sends.{Broken, Holding, with_target-Holding, Sent, send-Sent}

-- A result that returns, or raises a RedisError.
abbrev pub OnlyRedis : {A : Type 0} → Result A → Type 0
OnlyRedis (ok _) = Unit {0}
OnlyRedis (raise e) = is_redis_error e ≡ true

module _ (validate_canonical : Text → Bool) {W : Type 0} (d : Datastore W)
    (l : ProcessingLimits) where
  abbrev pub Failed : Exception → Cycle W → Type 0
  Failed e c =
      ((is_redis_error e ≡ true) × Holds validate_canonical d l c)
      ⊎ Broken validate_canonical d l e c

  abbrev pub Ends : Result (Unit {0}) × Cycle W → Type 0
  Ends (ok u, c) = Holds validate_canonical d l c
  Ends (raise e, c) = Failed e c

  conclude-Holds :
      (key : Bytes) (p : ℕ) (t : TargetScanState) (c : Cycle W)
      → Holding validate_canonical d l key p t c
      → Holds validate_canonical d l (conclude validate_canonical d l key p t c)
  unfolding conclude
  conclude-Holds key p t c h =
      elim (Bool-cases (not (is_empty t.pending_members) || not t.scan_complete)) [
        | inl more ↦
            rw (more, conclude)
              (requeue-Inv validate_canonical l key c.locals.pending_bytes p (target_bytes t)
                c.state h.visiting)
        | inr done ↦
            rw (done, conclude)
              (drop-Inv validate_canonical l key c.locals.pending_bytes p (target_bytes t) c.state
                h.not_waiting h.visiting)
      ]

  current-eq :
      (key : Bytes) (t : TargetScanState) (c : Cycle W)
      → Dict.lookup key c.state.targets ≡ some t
      → current validate_canonical d l key c ≡ t
  unfolding current
  current-eq key t c h = rw (h, current)

  concluded-Ends :
      (key : Bytes) (p : ℕ) (r : Result (Unit {0})) (c : Cycle W)
      → Sent validate_canonical d l key p (r, c)
      → Ends (concluded validate_canonical d l key p (r, c))
  unfolding concluded
  concluded-Ends key p (raise e) c h = inr h
  concluded-Ends key p (ok u) c (t, x) =
      subst (λ y. Holds validate_canonical d l (conclude validate_canonical d l key p y c))
        (sym (current-eq key t c x.stored)) (conclude-Holds key p t c x)

  deliver-Ends :
      (key : Bytes) (u : Text) (old t : TargetScanState) (c : Cycle W)
      → parse_backlink_key validate_canonical key ≡ valid u
      → IsReady validate_canonical d l key old t c
      → Ends (deliver validate_canonical d l key u (target_bytes old) t c)
  unfolding deliver
  deliver-Ends key u old t c k h =
      let a = admit_members validate_canonical l t.pending_members in
      let t' : TargetScanState = record t { pending_members = a.remaining } in
      let c₁ : Cycle W = record c {
        locals = record c.locals { rejections = update c.locals.rejections a.rejections };
      } in
      let small = admit_members-bytes validate_canonical l t.pending_members in
      let h₁ : Holding validate_canonical d l key (target_bytes old) old c₁ = record {
        visiting = h.visiting;
        not_waiting = h.not_waiting;
        stored = h.stored;
      } in
      let h₂ : Holding validate_canonical d l key (target_bytes old) t' (with_target key t' c₁) =
        with_target-Holding validate_canonical d l key u (target_bytes old) old t' c₁ k
          (omega (arith, h.fits)) h₁ in
      let (r, c') = send validate_canonical d l key u t' a.admitted (with_target key t' c₁) in
      concluded-Ends key (target_bytes old) r c' (
        send-Sent validate_canonical d l key u (target_bytes old) t' a.admitted
          (with_target key t' c₁) k (omega (arith, h.fits)) h₂)

  fetched-Ends :
      (key : Bytes) (u : Text) (old : TargetScanState) (f : Fetch) (c : Cycle W)
      → parse_backlink_key validate_canonical key ≡ valid u
      → Fetched validate_canonical d l key old (f, c)
      → Ends (fetched validate_canonical d l key u (target_bytes old) (f, c))
  unfolding fetched
  fetched-Ends key u old (ready t) c k h = deliver-Ends key u old t c k h
  fetched-Ends key u old continues c k h = h
  fetched-Ends key u old (broken e) c k h = inl (h.1, h.0)

  work_on-Ends :
      (key : Bytes) (u : Text) (t : TargetScanState) (c : Cycle W)
      → parse_backlink_key validate_canonical key ≡ valid u
      → Dict.lookup key c.state.targets ≡ some t
      → Visits validate_canonical d l key 0 0 c
      → Ends (work_on validate_canonical d l key u t c)
  unfolding work_on
  work_on-Ends key u t c k s v =
      let (f, c') = fetch validate_canonical d l key t c in
      fetched-Ends key u t f c' k (fetch-Fetched validate_canonical d l key t c s v)

  open_target-Ends :
      (key : Bytes) (u : Text) (o : Option TargetScanState) (c : Cycle W)
      → parse_backlink_key validate_canonical key ≡ valid u
      → Dict.lookup key c.state.targets ≡ o
      → Visits validate_canonical d l key 0 0 c
      → Ends (open_target validate_canonical d l key u o c)
  unfolding open_target byte_count
  open_target-Ends key u none c k s v =
      work_on-Ends key u new_target (with_target key new_target c) k
        (lookup-insert key key new_target c.state.targets ∙ rw (same_refl key) refl)
        (put-Visiting validate_canonical l key c.locals.pending_bytes 0 0 new_target c.state
          (ap (Dict.weight target_bytes) s) (omega (arith, v.bytes_bounded)) u k (λ x. refl) v)
  open_target-Ends key u (some t) c k s v = work_on-Ends key u t c k s v

  unbuffered :
      (key : Bytes) (reason : String) (o : Option TargetScanState) (c : Cycle W)
      → Dict.lookup key c.state.targets ≡ o
      → parse_backlink_key validate_canonical key ≡ invalid reason
      → Visits validate_canonical d l key 0 0 c
      → o ≡ none
  unbuffered key reason none c s k v = refl
  unbuffered key reason (some t) c s k v = let (u, e) = v.parsed key t s in cc (e, k)

  visit_parsed-Ends :
      (key : Bytes) (p : Parsed Text) (c : Cycle W)
      → parse_backlink_key validate_canonical key ≡ p
      → Visits validate_canonical d l key 0 0 c
      → Ends (visit_parsed validate_canonical d l key p c)
  unfolding visit_parsed
  visit_parsed-Ends key (invalid reason) c k v =
      forget-Inv validate_canonical l key c.locals.pending_bytes c.state
        (unbuffered key reason (Dict.lookup key c.state.targets) c refl k v) v
  visit_parsed-Ends key (valid u) c k v =
      open_target-Ends key u (Dict.lookup key c.state.targets) c k refl v

  -- Whatever the datastores reply, the visit of a key that has left the queue ends in the invariant, or
  -- with an error of the BSON codec and the bounds.
  pub visit-Ends :
      (key : Bytes) (c : Cycle W)
      → Visits validate_canonical d l key 0 0 c
      → Ends (visit validate_canonical d l key c)
  unfolding visit
  visit-Ends key c v = visit_parsed-Ends key (parse_backlink_key validate_canonical key) c refl v
