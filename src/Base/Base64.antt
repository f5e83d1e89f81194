-- ===== src/Base/Base64.antt =====
-- Base64 in the URL-safe alphabet without padding: `base64.urlsafe_b64encode(raw).rstrip("=")`, and
-- `base64.b64decode(text + padding, altchars=b"-_", validate=True)`.
use Prim.Native.Nat.{ℕ, ◌+◌, ◌-◌, ◌*◌, ◌/◌, ◌%◌, ◌<◌}
use mathlib.Core.Path.{◌≡◌, refl, ap, ◌∙◌}
use mathlib.Core.Bool.{◌&&◌, ◌||◌}
use mathlib.Core.List.{[], ◌∷◌}
use mathlib.Core.Option.{Option, none, some}
use native.Mathlib.Omega.{arith}
use mifolyo.Base.Tests.{ltb, leb, ◌==◌, if◌then◌else◌}
use mifolyo.Base.Lists.{length, All}
use mifolyo.Base.Texts.{Bytes, Text}

-- The character of a value below 64: A to Z, a to z, 0 to 9, `-`, `_`.
unfoldable pub letter : ℕ → ℕ
letter n =
    if ltb n 26
    then n + 65
    else if ltb n 52
    then n + 71
    else if ltb n 62
    then n - 4
    else if n == 62
    then 45
    else 95

-- The value of a character: `-` and `_` stand for `+` and `/`, which are read too.
unfoldable pub sextet : ℕ → Option ℕ
sextet c =
    if leb 65 c && leb c 90
    then some (c - 65)
    else if leb 97 c && leb c 122
    then some (c - 71)
    else if leb 48 c && leb c 57
    then some (c + 4)
    else if c == 45 || c == 43
    then some 62
    else if c == 95 || c == 47
    then some 63
    else none

unfoldable pub encode64 : Bytes → Text
encode64 [] = []
encode64 (a ∷ []) = letter (a / 4) ∷ letter (a % 4 * 16) ∷ []
encode64 (a ∷ b ∷ []) = letter (a / 4) ∷ letter (a % 4 * 16 + b / 16) ∷ letter (b % 16 * 4) ∷ []
encode64 (a ∷ b ∷ c ∷ rest) =
    letter (a / 4)
    ∷ letter (a % 4 * 16 + b / 16)
    ∷ letter (b % 16 * 4 + c / 64)
    ∷ letter (c % 64)
    ∷ encode64 rest

-- The bytes of a group of two, three or four characters.
unfoldable pub one_byte : Option ℕ → Option ℕ → Option Bytes
one_byte (some x) (some y) = some ((x * 4 + y / 16) ∷ [])
one_byte _ _ = none

unfoldable pub two_bytes : Option ℕ → Option ℕ → Option ℕ → Option Bytes
two_bytes (some x) (some y) (some z) = some ((x * 4 + y / 16) ∷ (y % 16 * 16 + z / 4) ∷ [])
two_bytes _ _ _ = none

unfoldable pub three_bytes : Option ℕ → Option ℕ → Option ℕ → Option ℕ → Option Bytes → Option Bytes
three_bytes (some x) (some y) (some z) (some u) (some rest) =
    some ((x * 4 + y / 16) ∷ (y % 16 * 16 + z / 4) ∷ (z % 4 * 64 + u) ∷ rest)
three_bytes _ _ _ _ _ = none

-- The last group may be padded by one or two `=`; the text comes without them, and a group of one
-- character is an error.
unfoldable pub decode64 : Text → Option Bytes
decode64 [] = some []
decode64 (a ∷ []) = none
decode64 (a ∷ b ∷ []) = one_byte (sextet a) (sextet b)
decode64 (a ∷ b ∷ c ∷ []) = two_bytes (sextet a) (sextet b) (sextet c)
decode64 (a ∷ b ∷ c ∷ d ∷ rest) =
    three_bytes (sextet a) (sextet b) (sextet c) (sextet d) (decode64 rest)

sextet-letter : (n : ℕ) → n < 64 → sextet (letter n) ≡ some n
unfolding sextet letter
sextet-letter n h = ground arith

first_bits : (a : ℕ) → a < 256 → sextet (letter (a / 4)) ≡ some (a / 4)
first_bits a h = sextet-letter (a / 4) (omega arith)

low_two : (a : ℕ) → sextet (letter (a % 4 * 16)) ≡ some (a % 4 * 16)
low_two a = sextet-letter (a % 4 * 16) (omega arith)

middle : (a b : ℕ) → b < 256 → sextet (letter (a % 4 * 16 + b / 16)) ≡ some (a % 4 * 16 + b / 16)
middle a b h = sextet-letter (a % 4 * 16 + b / 16) (omega arith)

low_four : (b : ℕ) → sextet (letter (b % 16 * 4)) ≡ some (b % 16 * 4)
low_four b = sextet-letter (b % 16 * 4) (omega arith)

later : (b c : ℕ) → c < 256 → sextet (letter (b % 16 * 4 + c / 64)) ≡ some (b % 16 * 4 + c / 64)
later b c h = sextet-letter (b % 16 * 4 + c / 64) (omega arith)

last_bits : (c : ℕ) → sextet (letter (c % 64)) ≡ some (c % 64)
last_bits c = sextet-letter (c % 64) (omega arith)

one_lem : (a : ℕ) → a < 256 → (a / 4) * 4 + (a % 4 * 16) / 16 ≡ a
one_lem a h = omega arith

two_lem : (a b : ℕ) → b < 256 → (a / 4) * 4 + (a % 4 * 16 + b / 16) / 16 ≡ a
two_lem a b h = omega arith

three_lem : (a b : ℕ) → b < 256 → (a % 4 * 16 + b / 16) % 16 * 16 + (b % 16 * 4) / 4 ≡ b
three_lem a b h = omega arith

four_lem :
    (a b c : ℕ)
    → b < 256
    → c < 256
    → (a % 4 * 16 + b / 16) % 16 * 16 + (b % 16 * 4 + c / 64) / 4 ≡ b
four_lem a b c h g = omega arith

five_lem : (b c : ℕ) → c < 256 → (b % 16 * 4 + c / 64) % 4 * 64 + c % 64 ≡ c
five_lem b c g = omega arith

pub decode64-encode64 : (bs : Bytes) → All (λ b. b < 256) bs → decode64 (encode64 bs) ≡ some bs
unfolding decode64 encode64 one_byte two_bytes three_bytes
decode64-encode64 [] h = refl
decode64-encode64 (a ∷ []) h =
    rw (first_bits a h.0, low_two a) (ap (λ x. some (x ∷ [])) (one_lem a h.0))
decode64-encode64 (a ∷ b ∷ []) h =
    rw (first_bits a h.0, middle a b h.1.0, low_four b)
      (ap (λ x. some (x ∷ ((a % 4 * 16 + b / 16) % 16 * 16 + (b % 16 * 4) / 4) ∷ []))
          (two_lem a b h.1.0)
        ∙ ap (λ y. some (a ∷ y ∷ [])) (three_lem a b h.1.0))
decode64-encode64 (a ∷ b ∷ c ∷ rest) h =
    rw
      (
        first_bits a h.0,
        middle a b h.1.0,
        later b c h.1.1.0,
        last_bits c,
        decode64-encode64 rest h.1.1.1,
      )
      (ap
          (λ x. some (
            x
            ∷ ((a % 4 * 16 + b / 16) % 16 * 16 + (b % 16 * 4 + c / 64) / 4)
            ∷ ((b % 16 * 4 + c / 64) % 4 * 64 + c % 64)
            ∷ rest))
          (two_lem a b h.1.0)
        ∙ ap (λ y. some (a ∷ y ∷ ((b % 16 * 4 + c / 64) % 4 * 64 + c % 64) ∷ rest))
            (four_lem a b c h.1.0 h.1.1.0)
        ∙ ap (λ z. some (a ∷ b ∷ z ∷ rest)) (five_lem b c h.1.1.0))

-- Three bytes are four characters, and one or two more are two or three.
pub length-encode64 : (bs : Bytes) → length (encode64 bs) ≡ (length bs * 4 + 2) / 3
unfolding encode64
length-encode64 [] = omega arith
length-encode64 (a ∷ []) = omega arith
length-encode64 (a ∷ b ∷ []) = omega arith
length-encode64 (a ∷ b ∷ c ∷ rest) = omega (arith, length-encode64 rest)
