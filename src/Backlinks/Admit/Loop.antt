-- ===== src/Backlinks/Admit/Loop.antt =====
-- The loop of `_admit_members`: what a verdict means, and the rule for its invariants.
use mifolyo.Base.{
  ℕ, ◌+◌, ◌≤◌, ◌<◌, ◌≡◌, refl, ◌⊎◌, inl, inr, Bool, true, String, List, [], ◌∷◌, ◌++◌, arith, ltb,
  length, Bool-cases, ◌≢◌,
}
use mifolyo.Base.Texts.{Bytes, Text}
use mifolyo.Base.Counter.{Counter, bump}
use mifolyo.Backlinks.Config.{ProcessingLimits}
use mifolyo.Backlinks.Keys.{BacklinkMember, Parsed, valid, invalid, parse_backlink_member}
use mifolyo.Backlinks.Admit.{Verdict, reject, put_back, take, judge_member, judge, admit_loop}

pub Verdict-cases :
    (v : Verdict)
    → ((reason : String) × (v ≡ reject reason))
      ⊎ ((v ≡ put_back) ⊎ ((m : BacklinkMember) × (v ≡ take m)))
Verdict-cases (reject r) = inl (r, refl)
Verdict-cases put_back = inr (inl refl)
Verdict-cases (take m) = inr (inr (m, refl))

judge_member-take :
    (l : ProcessingLimits) (n b : ℕ) (p : Parsed BacklinkMember) (m : BacklinkMember)
    → judge_member l n b p ≡ take m
    → (n < l.max_members_per_ack_batch)
      × (b + length m.raw ≤ l.max_ack_batch_url_bytes)
      × (p ≡ valid m)
unfolding judge_member
judge_member-take l n b (invalid r) m h = cc
judge_member-take l n b (valid x) m h = ground arith

module _ (validate_canonical : Text → Bool) (l : ProcessingLimits) where
  -- A member is taken only while the batch has room for it, in count and in bytes.
  pub judge-take :
      (n b : ℕ) (raw : Bytes) (m : BacklinkMember)
      → judge validate_canonical l n b raw ≡ take m
      → (n < l.max_members_per_ack_batch)
        × (b + length m.raw ≤ l.max_ack_batch_url_bytes)
        × (parse_backlink_member validate_canonical raw ≡ valid m)
  unfolding judge
  judge-take n b raw m h = judge_member-take l n b _ m h

  -- The first pending member is never put back.
  pub judge-first :
      (raw : Bytes)
      → 0 < l.max_members_per_ack_batch
      → judge validate_canonical l 0 0 raw ≢ put_back
  unfolding judge judge_member
  judge-first raw h e = ground arith

  -- What holds at the start and after each examined member holds of the result.
  pub admit_loop_inv {κ} :
      (I : List Bytes → ℕ → List BacklinkMember → ℕ → Counter → Type κ)
      → ((raw : Bytes) (rest : List Bytes) (n : ℕ) (adm : List BacklinkMember) (b : ℕ) (c : Counter)
            (reason : String)
          → ltb n l.max_members_per_target_per_cycle ≡ true
          → judge validate_canonical l (length adm) b raw ≡ reject reason
          → I (raw ∷ rest) n adm b c
          → I rest (n + 1) adm b (bump reason c))
      → ((raw : Bytes) (rest : List Bytes) (n : ℕ) (adm : List BacklinkMember) (b : ℕ) (c : Counter)
            (m : BacklinkMember)
          → ltb n l.max_members_per_target_per_cycle ≡ true
          → judge validate_canonical l (length adm) b raw ≡ take m
          → I (raw ∷ rest) n adm b c
          → I rest (n + 1) (adm ++ m ∷ []) (b + length m.raw) c)
      → (pending : List Bytes) (n : ℕ) (adm : List BacklinkMember) (b : ℕ) (c : Counter)
      → I pending n adm b c
      → let a = admit_loop validate_canonical l pending n adm b c in
        (n' : ℕ) × (b' : ℕ) × I a.remaining n' a.admitted b' a.rejections
  unfolding admit_loop
  admit_loop_inv I rejected taken [] n adm b c h = (n, b, h)
  admit_loop_inv I rejected taken (raw ∷ rest) n adm b c h =
      elim (Bool-cases (ltb n l.max_members_per_target_per_cycle)) [
        | inr full ↦ rw (full, admit_loop) (n, b, h)
        | inl room ↦ elim (Verdict-cases (judge validate_canonical l (length adm) b raw)) [
          | inl (reason, e) ↦
              rw (room, e, admit_loop)
                (admit_loop_inv I rejected taken rest (n + 1) adm b (bump reason c)
                  (rejected raw rest n adm b c reason room e h))
          | inr (inl e) ↦ rw (room, e, admit_loop) (n, b, h)
          | inr (inr (m, e)) ↦
              rw (room, e, admit_loop)
                (admit_loop_inv I rejected taken rest (n + 1) (adm ++ m ∷ []) (b + length m.raw) c
                  (taken raw rest n adm b c m room e h))
        ]
      ]
