-- ===== src/Base/Utf8.antt =====
-- Python's strict UTF-8 codec: `bytes.decode("utf-8")` and `str.encode("utf-8")`.
pub mod Roundtrip
use Prim.Native.Nat.{ℕ, zero, suc, ◌+◌, ◌-◌, ◌*◌, ◌/◌, ◌%◌}
use mathlib.Core.Bool.{Bool, ◌&&◌}
use mathlib.Core.List.{[], ◌∷◌, ◌++◌}
use mathlib.Core.Option.{Option, none, some}
use mathlib.Core.Path.{◌≡◌, refl}
use mifolyo.Base.Tests.{ltb, leb, if◌then◌else◌}
use mifolyo.Base.Texts.{Bytes, Text}

within : ℕ → ℕ → ℕ → Bool
within lo hi b = leb lo b && leb b hi

-- A scalar value and the count of continuation bytes, by the length of the sequence. The ranges of
-- the second byte leave out overlong forms, surrogates, and values above 0x10FFFF.
two_bytes : ℕ → Bytes → Option (ℕ × ℕ)
two_bytes a (b ∷ _) = if within 0x80 0xBF b then some ((a - 0xC0) * 64 + (b - 0x80), 1) else none
two_bytes a [] = none

three_bytes : ℕ → Bytes → Option (ℕ × ℕ)
three_bytes a (b ∷ c ∷ _) =
    let lo : ℕ = if leb a 0xE0 then 0xA0 else 0x80 in
    let hi : ℕ = if within 0xED 0xED a then 0x9F else 0xBF in
    if within lo hi b && within 0x80 0xBF c
    then some (((a - 0xE0) * 64 + (b - 0x80)) * 64 + (c - 0x80), 2)
    else none
three_bytes a _ = none

four_bytes : ℕ → Bytes → Option (ℕ × ℕ)
four_bytes a (b ∷ c ∷ d ∷ _) =
    let lo : ℕ = if leb a 0xF0 then 0x90 else 0x80 in
    let hi : ℕ = if leb 0xF4 a then 0x8F else 0xBF in
    if within lo hi b && (within 0x80 0xBF c && within 0x80 0xBF d)
    then some ((((a - 0xF0) * 64 + (b - 0x80)) * 64 + (c - 0x80)) * 64 + (d - 0x80), 3)
    else none
four_bytes a _ = none

scalar : ℕ → Bytes → Option (ℕ × ℕ)
unfolding within two_bytes three_bytes four_bytes
scalar a rest =
    if ltb a 0x80
    then some (a, 0)
    else if within 0xC2 0xDF a
    then two_bytes a rest
    else if within 0xE0 0xEF a
    then three_bytes a rest
    else if within 0xF0 0xF4 a
    then four_bytes a rest
    else none

-- The first argument counts the continuation bytes that the scalar before has taken.
decode_at : ℕ → Bytes → Option Text
decode_at zero [] = some []
decode_at (suc k) [] = none
decode_at (suc k) (_ ∷ rest) = decode_at k rest
decode_at zero (a ∷ rest) = elim (scalar a rest) [
  | none ↦ none
  | some (c, k) ↦ elim (decode_at k rest) [ none ↦ none | some t ↦ some (c ∷ t) ]
]

-- `raw.decode("utf-8")`; `none` is UnicodeDecodeError.
unfoldable pub decode : Bytes → Option Text
unfolding decode_at scalar
decode = decode_at 0

encode_scalar : ℕ → Option Bytes
unfolding within
encode_scalar c =
    if ltb c 0x80
    then some (c ∷ [])
    else if ltb c 0x800
    then some ((0xC0 + c / 64) ∷ (0x80 + c % 64) ∷ [])
    else if within 0xD800 0xDFFF c
    then none
    else if ltb c 0x10000
    then some ((0xE0 + c / 4096) ∷ (0x80 + c / 64 % 64) ∷ (0x80 + c % 64) ∷ [])
    else some
        ((0xF0 + c / 262144) ∷ (0x80 + c / 4096 % 64) ∷ (0x80 + c / 64 % 64) ∷ (0x80 + c % 64) ∷ [])

-- `value.encode("utf-8")`; `none` is UnicodeEncodeError, raised at a surrogate.
unfoldable pub encode : Text → Option Bytes
unfolding encode_scalar
encode [] = some []
encode (c ∷ t) = elim (encode_scalar c) [
  | none ↦ none
  | some b ↦ elim (encode t) [ none ↦ none | some bs ↦ some (b ++ bs) ]
]

decode_euro :
    decode (0x61 ∷ 0xE2 ∷ 0x82 ∷ 0xAC ∷ 0xC3 ∷ 0xA9 ∷ []) ≡ some (0x61 ∷ 0x20AC ∷ 0xE9 ∷ [])
unfolding decode
decode_euro = refl

encode_euro :
    encode (0x61 ∷ 0x20AC ∷ 0xE9 ∷ []) ≡ some (0x61 ∷ 0xE2 ∷ 0x82 ∷ 0xAC ∷ 0xC3 ∷ 0xA9 ∷ [])
unfolding encode
encode_euro = refl

decode_overlong : decode (0xC0 ∷ 0xAF ∷ []) ≡ none
unfolding decode
decode_overlong = refl

decode_surrogate : decode (0xED ∷ 0xA0 ∷ 0x80 ∷ []) ≡ none
unfolding decode
decode_surrogate = refl
