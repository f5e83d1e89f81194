-- ===== src/Backlinks/Admit/Bounds.antt =====
-- `_admit_members`: what a batch holds, what becomes of the buffer, and that the buffer shrinks.
use mathlib.Core.List.{append_assoc, map-append, Sublist}
use mathlib.Core.List.Sublist
use mifolyo.Base.{
  ap, ℕ, suc, ◌+◌, ◌≤◌, ◌<◌, ◌≡◌, refl, inl, inr, Bool, true, String, List, [], ◌∷◌, ◌++◌, arith,
  ltb, length, length-append, sum_of, sum_of-append, All, All-append, lt→ltb, subst, sym,
}
use mifolyo.Base.Texts.{Bytes, Text}
use mifolyo.Base.Counter
use mifolyo.Base.Counter.{Counter, bump, total-add}
use mifolyo.Backlinks.Config.{ProcessingLimits, IsValid}
use mifolyo.Backlinks.Keys.{BacklinkMember, valid, parse_backlink_member}
use mifolyo.Backlinks.Keys.Laws.{parse_backlink_member-IsMember}
use mifolyo.Backlinks.Batch.{raws}
use mifolyo.Backlinks.State.{byte_count}
use mifolyo.Backlinks.Admit.{take, judge, admit_loop, admit_members}
use mifolyo.Backlinks.Admit.Loop.{judge-take, judge-first, admit_loop_inv, Verdict-cases}

-- The raw bytes of a batch, `encoded_url_bytes`.
abbrev pub member_bytes : List BacklinkMember → ℕ
member_bytes = sum_of (λ m. length m.raw)

lt_suc : {a b : ℕ} → a ≤ b → a < suc b
lt_suc h = omega arith

module _ (validate_canonical : Text → Bool) (l : ProcessingLimits) where
  -- What a batch and the rest of the buffer are, `n` members after the start of `pending`.
  pub record Splits (pending rest : List Bytes) (n : ℕ) (admitted : List BacklinkMember) (b : ℕ)
      (rejections : Counter) : Type 0 where
    pub within_members : length admitted ≤ l.max_members_per_ack_batch
    pub byte_sum : member_bytes admitted ≡ b
    pub within_bytes : b ≤ l.max_ack_batch_url_bytes
    pub within_examined : n ≤ l.max_members_per_target_per_cycle
    pub counted : n ≡ length admitted + Counter.total rejections
    pub left : n + length rest ≡ length pending
    pub parsed : All (λ m. parse_backlink_member validate_canonical m.raw ≡ valid m) admitted
    pub in_order : Sublist (raws admitted ++ rest) pending

  Splits-start : (pending : List Bytes) → Splits pending pending 0 [] 0 []
  Splits-start pending = record {
    within_members = omega arith;
    byte_sum = refl;
    within_bytes = omega arith;
    within_examined = omega arith;
    counted = omega arith;
    left = omega arith;
    parsed = tt;
    in_order = Sublist.refl pending;
  }

  Splits-reject :
      (pending : List Bytes) (raw : Bytes) (rest : List Bytes) (n : ℕ) (adm : List BacklinkMember)
      (b : ℕ) (c : Counter) (reason : String)
      → ltb n l.max_members_per_target_per_cycle ≡ true
      → Splits pending (raw ∷ rest) n adm b c
      → Splits pending rest (n + 1) adm b (bump reason c)
  Splits-reject pending raw rest n adm b c reason room s = record {
    within_members = s.within_members;
    byte_sum = s.byte_sum;
    within_bytes = s.within_bytes;
    within_examined = ground arith;
    counted = omega (arith, s.counted, total-add reason 1 c);
    left = omega (arith, s.left);
    parsed = s.parsed;
    in_order =
        Sublist.trans
          (Sublist.append (Sublist.refl (raws adm)) (Sublist.cons raw (Sublist.refl rest)))
          s.in_order;
  }

  Splits-take :
      (pending : List Bytes) (raw : Bytes) (rest : List Bytes) (n : ℕ) (adm : List BacklinkMember)
      (b : ℕ) (c : Counter) (m : BacklinkMember)
      → ltb n l.max_members_per_target_per_cycle ≡ true
      → judge validate_canonical l (length adm) b raw ≡ take m
      → Splits pending (raw ∷ rest) n adm b c
      → Splits pending rest (n + 1) (adm ++ m ∷ []) (b + length m.raw) c
  Splits-take pending raw rest n adm b c m room e s =
      let (fits, bytes, p) = judge-take validate_canonical l (length adm) b raw m e in
      let q = parse_backlink_member-IsMember validate_canonical raw m p in
      record {
        within_members = omega (arith, length-append adm (m ∷ []));
        byte_sum =
            omega (
              arith,
              s.byte_sum,
              sum_of-append (λ (x : BacklinkMember). length x.raw) adm (m ∷ []),
            );
        within_bytes = bytes;
        within_examined = ground arith;
        counted = omega (arith, s.counted, length-append adm (m ∷ []));
        left = omega (arith, s.left);
        parsed = All-append _ adm (m ∷ []) s.parsed (
          subst (λ r. parse_backlink_member validate_canonical r ≡ valid m) (sym q.same_raw) p,
          tt,
        );
        in_order = rw (map-append, q.same_raw, append_assoc) s.in_order;
      }

  -- A batch and what stays in the buffer, for any buffer: the batch is within the limits on members
  -- and on bytes, at most the allowed number of members is examined, each examined member is either
  -- admitted or counted as rejected, the rest stays, each admitted member parses, and the admitted
  -- members followed by the rest keep the order of the buffer.
  pub admit_members-Splits :
      (pending : List Bytes)
      → let a = admit_members validate_canonical l pending in
        (n : ℕ) × (b : ℕ) × Splits pending a.remaining n a.admitted b a.rejections
  unfolding admit_members
  admit_members-Splits pending =
      admit_loop_inv validate_canonical l (Splits pending)
        (λ raw rest n adm b c reason room e s.
          Splits-reject pending raw rest n adm b c reason room s)
        (Splits-take pending) pending 0 [] 0 [] (Splits-start pending)

  -- The loop never makes the buffer longer.
  remaining-le :
      (pending : List Bytes) (n : ℕ) (adm : List BacklinkMember) (b : ℕ) (c : Counter)
      → length (admit_loop validate_canonical l pending n adm b c).remaining ≤ length pending
  remaining-le pending n adm b c =
      (admit_loop_inv validate_canonical l (λ rest _ _ _ _. length rest ≤ length pending)
        (λ raw rest n adm b c reason room e s. omega arith)
        (λ raw rest n adm b c m room e s. omega arith) pending n adm b c (omega arith)).2

  -- Under valid limits a buffer that is not empty gets shorter: its first member is taken or rejected.
  pub admit_members_progress :
      (raw : Bytes) (rest : List Bytes)
      → IsValid l
      → length (admit_members validate_canonical l (raw ∷ rest)).remaining < length (raw ∷ rest)
  unfolding admit_members
  admit_members_progress raw rest v = elim (Verdict-cases (judge validate_canonical l 0 0 raw)) [
    | inl (reason, e) ↦
        rw (lt→ltb _ _ v.examined, e, admit_loop)
          (lt_suc (remaining-le rest (0 + 1) [] 0 (bump reason [])))
    | inr (inl e) ↦ absurd (judge-first validate_canonical l raw v.batch_members e)
    | inr (inr (m, e)) ↦
        rw (lt→ltb _ _ v.examined, e, admit_loop)
          (lt_suc (remaining-le rest (0 + 1) (m ∷ []) (0 + length m.raw) []))
  ]

  -- No byte is made up: the batch and the rest are no larger than the buffer.
  pub admit_members-bytes :
      (pending : List Bytes)
      → let a = admit_members validate_canonical l pending in
        member_bytes a.admitted + byte_count a.remaining ≤ byte_count pending
  unfolding admit_members byte_count
  admit_members-bytes pending =
      (admit_loop_inv validate_canonical l
        (λ rest _ adm _ _. member_bytes adm + byte_count rest ≤ byte_count pending)
        (λ raw rest n adm b c reason room e h. omega (arith, h))
        (λ raw rest n adm b c m room e h.
          let q =
            parse_backlink_member-IsMember validate_canonical raw m
              (judge-take validate_canonical l (length adm) b raw m e).2 in
          omega (
            arith,
            h,
            ap (λ (r : Bytes). length r) q.same_raw,
            sum_of-append (λ (x : BacklinkMember). length x.raw) adm (m ∷ []),
          ))
        pending 0 [] 0 [] (omega arith)).2
