-- ===== src/Base/Utf8/Roundtrip.antt =====
-- What decodes as UTF-8 encodes to the same bytes.
use Prim.Native.Nat.{ℕ, zero, suc, ◌+◌, ◌-◌, ◌*◌, ◌/◌, ◌%◌, ◌≤◌, ◌<◌}
use mathlib.Core.Bool.{true}
use mathlib.Core.List.{[], ◌∷◌, ◌++◌}
use mathlib.Core.Option.{Option, none, some}
use mathlib.Core.Path.{◌≡◌, refl, ap, subst}
use native.Mathlib.Omega.{arith}
use mifolyo.Base.Lists.{drop}
use mathlib.Core.Logic.{inl, inr}
use mifolyo.Base.Tests.{Bool-cases, Option-cases, ltb, leb, if◌then◌else◌}
use mifolyo.Base.Texts.{Bytes, Text}
use mifolyo.Base.Utf8.{
  within, two_bytes, three_bytes, four_bytes, scalar, encode_scalar, decode_at, decode, encode,
}

two_arith :
    (a b c : ℕ)
    → 0xC2 ≤ a
    → a ≤ 0xDF
    → 0x80 ≤ b
    → b ≤ 0xBF
    → c ≡ (a - 0xC0) * 64 + (b - 0x80)
    → (0x80 ≤ c) × (c < 0x800) × (0xC0 + c / 64 ≡ a) × (0x80 + c % 64 ≡ b)
two_arith a b c h1 h2 h3 h4 e = (omega arith, omega arith, omega arith, omega arith)

three_arith :
    (a b c u : ℕ)
    → 0xE0 ≤ a
    → a ≤ 0xEF
    → 0x80 ≤ b
    → b ≤ 0xBF
    → 0x80 ≤ c
    → c ≤ 0xBF
    → u ≡ ((a - 0xE0) * 64 + (b - 0x80)) * 64 + (c - 0x80)
    → (0xE0 + u / 4096 ≡ a) × (0x80 + u / 64 % 64 ≡ b) × (0x80 + u % 64 ≡ c)
three_arith a b c u h1 h2 h3 h4 h5 h6 e = (omega arith, omega arith, omega arith)

-- The bytes `pre` after a lead byte are the scalar's continuation, and lead on to the rest.
record Continues (a : ℕ) (rest : Bytes) (c k : ℕ) : Type 0 where
  pre : Bytes
  encoded : encode_scalar c ≡ some (a ∷ pre)
  rest_of : pre ++ drop k rest ≡ rest

two_encoded :
    (a b c : ℕ)
    → 0xC2 ≤ a
    → a ≤ 0xDF
    → 0x80 ≤ b
    → b ≤ 0xBF
    → c ≡ (a - 0xC0) * 64 + (b - 0x80)
    → encode_scalar c ≡ some (a ∷ b ∷ [])
unfolding encode_scalar within
two_encoded a b c h1 h2 h3 h4 e = ground (arith, two_arith a b c h1 h2 h3 h4 e)

two_bytes-Continues :
    (a : ℕ) (rest : Bytes) (c k : ℕ)
    → 0xC2 ≤ a
    → a ≤ 0xDF
    → two_bytes a rest ≡ some (c, k)
    → Continues a rest c k
unfolding two_bytes within
two_bytes-Continues a [] c k h1 h2 h = cc
two_bytes-Continues a (b ∷ bs) c k h1 h2 h =
    let facts : (c ≡ (a - 0xC0) * 64 + (b - 0x80)) × (k ≡ 1) × (0x80 ≤ b) × (b ≤ 0xBF) =
      ground arith in
    let (e, one, h3, h4) = facts in
    record { pre = b ∷ []; encoded = two_encoded a b c h1 h2 h3 h4 e; rest_of = rw one refl }

three_encoded :
    (a b c u lo hi : ℕ)
    → 0xE0 ≤ a
    → a ≤ 0xEF
    → 0x80 ≤ lo
    → lo ≤ b
    → b ≤ hi
    → hi ≤ 0xBF
    → 0x80 ≤ c
    → c ≤ 0xBF
    → (a ≡ 0xE0 → lo ≡ 0xA0)
    → (a ≡ 0xED → hi ≡ 0x9F)
    → u ≡ ((a - 0xE0) * 64 + (b - 0x80)) * 64 + (c - 0x80)
    → encode_scalar u ≡ some (a ∷ b ∷ c ∷ [])
unfolding encode_scalar within
three_encoded a b c u lo hi h1 h2 h3 h4 h5 h6 h7 h8 over surrogate e =
    ground (arith, three_arith a b c u h1 h2 (omega arith) (omega arith) h7 h8 e)

three_bytes-Continues :
    (a : ℕ) (rest : Bytes) (u k : ℕ)
    → 0xE0 ≤ a
    → a ≤ 0xEF
    → three_bytes a rest ≡ some (u, k)
    → Continues a rest u k
unfolding three_bytes within
three_bytes-Continues a [] u k h1 h2 h = cc
three_bytes-Continues a (b ∷ []) u k h1 h2 h = cc
three_bytes-Continues a (b ∷ c ∷ bs) u k h1 h2 h =
    let lo : ℕ = if leb a 0xE0 then 0xA0 else 0x80 in
    let hi : ℕ = if within 0xED 0xED a then 0x9F else 0xBF in
    let facts : (u ≡ ((a - 0xE0) * 64 + (b - 0x80)) * 64 + (c - 0x80))
        × (k ≡ 2)
        × (lo ≤ b)
        × (b ≤ hi)
        × (0x80 ≤ c)
        × (c ≤ 0xBF) =
      ground arith in
    let (e, two, h4, h5, h7, h8) = facts in
    record {
      pre = b ∷ c ∷ [];
      encoded =
          three_encoded a b c u lo hi h1 h2 (ground arith) h4 h5 (ground arith) h7 h8
            (λ z. ground arith) (λ z. ground arith) e;
      rest_of = rw two refl;
    }

four_arith :
    (a b c d u : ℕ)
    → 0xF0 ≤ a
    → a ≤ 0xF4
    → 0x80 ≤ b
    → b ≤ 0xBF
    → 0x80 ≤ c
    → c ≤ 0xBF
    → 0x80 ≤ d
    → d ≤ 0xBF
    → u ≡ (((a - 0xF0) * 64 + (b - 0x80)) * 64 + (c - 0x80)) * 64 + (d - 0x80)
    → (0xF0 + u / 262144 ≡ a)
      × (0x80 + u / 4096 % 64 ≡ b)
      × (0x80 + u / 64 % 64 ≡ c)
      × (0x80 + u % 64 ≡ d)
four_arith a b c d u h1 h2 h3 h4 h5 h6 h7 h8 e =
    (omega arith, omega arith, omega arith, omega arith)

four_encoded :
    (a b c d u lo : ℕ)
    → 0xF0 ≤ a
    → a ≤ 0xF4
    → 0x80 ≤ lo
    → lo ≤ b
    → b ≤ 0xBF
    → 0x80 ≤ c
    → c ≤ 0xBF
    → 0x80 ≤ d
    → d ≤ 0xBF
    → (a ≡ 0xF0 → lo ≡ 0x90)
    → u ≡ (((a - 0xF0) * 64 + (b - 0x80)) * 64 + (c - 0x80)) * 64 + (d - 0x80)
    → encode_scalar u ≡ some (a ∷ b ∷ c ∷ d ∷ [])
unfolding encode_scalar within
four_encoded a b c d u lo h1 h2 h3 h4 h5 h6 h7 h8 h9 over e =
    ground (arith, four_arith a b c d u h1 h2 (omega arith) h5 h6 h7 h8 h9 e)

four_bytes-Continues :
    (a : ℕ) (rest : Bytes) (u k : ℕ)
    → 0xF0 ≤ a
    → a ≤ 0xF4
    → four_bytes a rest ≡ some (u, k)
    → Continues a rest u k
unfolding four_bytes within
four_bytes-Continues a [] u k h1 h2 h = cc
four_bytes-Continues a (b ∷ []) u k h1 h2 h = cc
four_bytes-Continues a (b ∷ c ∷ []) u k h1 h2 h = cc
four_bytes-Continues a (b ∷ c ∷ d ∷ bs) u k h1 h2 h =
    let lo : ℕ = if leb a 0xF0 then 0x90 else 0x80 in
    let facts : (u ≡ (((a - 0xF0) * 64 + (b - 0x80)) * 64 + (c - 0x80)) * 64 + (d - 0x80))
        × (k ≡ 3)
        × (lo ≤ b)
        × (b ≤ 0xBF)
        × (0x80 ≤ c)
        × (c ≤ 0xBF)
        × (0x80 ≤ d)
        × (d ≤ 0xBF) =
      ground arith in
    let (e, three, h4, h5, h6, h7, h8, h9) = facts in
    record {
      pre = b ∷ c ∷ d ∷ [];
      encoded =
          four_encoded a b c d u lo h1 h2 (ground arith) h4 h5 h6 h7 h8 h9 (λ z. ground arith) e;
      rest_of = rw three refl;
    }

one_encoded : (a u : ℕ) → u ≡ a → ltb a 0x80 ≡ true → encode_scalar u ≡ some (a ∷ [])
unfolding encode_scalar
one_encoded a u e h = ground arith

scalar-Continues :
    (a : ℕ) (rest : Bytes) (u k : ℕ) → scalar a rest ≡ some (u, k) → Continues a rest u k
unfolding scalar within
scalar-Continues a rest u k h = elim (Bool-cases (ltb a 0x80)) [
  | inl e ↦
      let facts : (u ≡ a) × (k ≡ 0) = ground arith in
      record { pre = []; encoded = one_encoded a u facts.0 e; rest_of = rw (facts.1) refl }
  | inr e ↦ elim (Bool-cases (within 0xC2 0xDF a)) [
    | inl f ↦ two_bytes-Continues a rest u k (ground arith) (ground arith) (ground arith)
    | inr f ↦ elim (Bool-cases (within 0xE0 0xEF a)) [
      | inl g ↦ three_bytes-Continues a rest u k (ground arith) (ground arith) (ground arith)
      | inr g ↦ elim (Bool-cases (within 0xF0 0xF4 a)) [
        | inl i ↦ four_bytes-Continues a rest u k (ground arith) (ground arith) (ground arith)
        | inr i ↦ absurd (ground arith)
      ]
    ]
  ]
]

encode_step :
    (a u k : ℕ) (bs : Bytes) (t : Text)
    → Continues a bs u k
    → encode t ≡ some (drop k bs)
    → encode (u ∷ t) ≡ some (a ∷ bs)
unfolding encode
encode_step a u k bs t c h = rw (c.encoded, h, encode) (ap (λ (x : Bytes). some (a ∷ x)) c.rest_of)

module _ (a : ℕ) (bs : Bytes) where
  decode-invalid : scalar a bs ≡ none → decode_at zero (a ∷ bs) ≡ none
  unfolding decode_at
  decode-invalid e = rw (e, decode_at) refl

  decode-cut :
      (u k : ℕ) → scalar a bs ≡ some (u, k) → decode_at k bs ≡ none → decode_at zero (a ∷ bs) ≡ none
  unfolding decode_at
  decode-cut u k e f = rw (e, f, decode_at) refl

  decode_step :
      (u k : ℕ) (t : Text)
      → scalar a bs ≡ some (u, k)
      → decode_at k bs ≡ some t
      → decode_at zero (a ∷ bs) ≡ some (u ∷ t)
  unfolding decode_at
  decode_step u k t e f = rw (e, f, decode_at) refl

no_text : (o : Option Text) (t : Text) → o ≡ none → o ≡ some t → ⊥
no_text o t e h = cc

one_text : (o : Option Text) (t u : Text) → o ≡ some u → o ≡ some t → u ≡ t
one_text o t u e h = ground arith

-- The rest of a decoding, after the bytes that the scalar before has taken.
decode_at-encode :
    (k : ℕ) (bs : Bytes) (t : Text) → decode_at k bs ≡ some t → encode t ≡ some (drop k bs)
unfolding decode_at encode
decode_at-encode zero [] [] h = refl
decode_at-encode zero [] (u ∷ t) h = cc
decode_at-encode (suc k) [] t h = cc
decode_at-encode (suc k) (b ∷ bs) t h = decode_at-encode k bs t h
decode_at-encode zero (a ∷ bs) t h = elim (Option-cases (scalar a bs)) [
  | inl e ↦ absurd (no_text (decode_at zero (a ∷ bs)) t (decode-invalid a bs e) h)
  | inr ((u, k), e) ↦ elim (Option-cases (decode_at k bs)) [
    | inl f ↦ absurd (no_text (decode_at zero (a ∷ bs)) t (decode-cut a bs u k e f) h)
    | inr (t', f) ↦
        subst (λ v. encode v ≡ some (a ∷ bs))
          (one_text (decode_at zero (a ∷ bs)) t (u ∷ t') (decode_step a bs u k t' e f) h)
          (encode_step a u k bs t' (scalar-Continues a bs u k e) (decode_at-encode k bs t' f))
  ]
]

-- Bytes that decode as UTF-8 to a text are the encoding of that text.
pub encode-decode : (bs : Bytes) (t : Text) → decode bs ≡ some t → encode t ≡ some bs
unfolding decode
encode-decode bs t h = decode_at-encode 0 bs t h
