-- ===== src/Backlinks/Admit.antt =====
-- services/backlinks-processor/main.py: `_admit_members`, which takes a batch from a buffer.
pub mod Loop
pub mod Bounds
pub mod Accepted
use mifolyo.Base.{
  ℕ, ◌+◌, Bool, true, false, ◌&&◌, ◌||◌, String, List, [], ◌∷◌, ◌++◌, ltb, leb, ◌==◌, length,
  if◌then◌else◌,
}
use mifolyo.Base.Texts.{Bytes, Text}
use mifolyo.Base.Counter.{Counter, bump}
use mifolyo.Backlinks.Config.{ProcessingLimits}
use mifolyo.Backlinks.Keys.{BacklinkMember, Parsed, valid, invalid, parse_backlink_member}

pub record Admission : Type 0 where
  pub admitted : List BacklinkMember
  pub rejections : Counter
  -- the pending members that are left
  pub remaining : List Bytes

-- What the loop does with one raw member.
pub data Verdict : Type 0 where
  reject : String → Verdict
  put_back : Verdict
  take : BacklinkMember → Verdict

judge_member : ProcessingLimits → (admitted encoded_bytes : ℕ) → Parsed BacklinkMember → Verdict
judge_member l n bytes (invalid reason) = reject reason
judge_member l n bytes (valid member) =
    let next_bytes : ℕ = bytes + length member.raw in
    if leb l.max_members_per_ack_batch n || ltb l.max_ack_batch_url_bytes next_bytes
    then (if n == 0 && ltb l.max_ack_batch_url_bytes next_bytes
        then reject "member_batch_byte_limit_exceeded"
        else put_back)
    else take member

module _ (validate_canonical : Text → Bool) (l : ProcessingLimits) where
  pub judge : (admitted encoded_bytes : ℕ) → Bytes → Verdict
  unfolding judge_member
  judge n bytes raw = judge_member l n bytes (parse_backlink_member validate_canonical raw)

  -- The loop, with its local variables.
  pub admit_loop :
      List Bytes → (examined : ℕ) → List BacklinkMember → (encoded_bytes : ℕ) → Counter → Admission
  admit_loop [] examined admitted bytes rejections = record {
    admitted = admitted;
    rejections = rejections;
    remaining = [];
  }
  admit_loop (raw ∷ rest) examined admitted bytes rejections =
      elim (ltb examined l.max_members_per_target_per_cycle) [
        | false ↦ record { admitted = admitted; rejections = rejections; remaining = raw ∷ rest }
        | true ↦ elim (judge (length admitted) bytes raw) [
          | reject reason ↦ admit_loop rest (examined + 1) admitted bytes (bump reason rejections)
          | put_back ↦ record {
            admitted = admitted;
            rejections = rejections;
            remaining = raw ∷ rest;
          }
          | take member ↦
              admit_loop rest (examined + 1) (admitted ++ member ∷ []) (bytes + length member.raw)
                rejections
        ]
      ]

  unfoldable pub admit_members : List Bytes → Admission
  unfolding admit_loop judge
  admit_members pending = admit_loop pending 0 [] 0 []
