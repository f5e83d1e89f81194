-- ===== src/Base/Decimal.antt =====
-- Decimal texts: `str(n)`, `int(text)`, and that they are inverse on the natural numbers.
use Prim.Native.Nat.{ℕ, zero, suc, ◌+◌, ◌-◌, ◌*◌, ◌/◌, ◌%◌, ◌≤◌, ◌<◌}
use mathlib.Core.Path.{◌≡◌, refl, sym, ap, ◌∙◌}
use mathlib.Core.Bool.{Bool, true, false, ◌&&◌}
use mathlib.Core.List.{[], ◌∷◌, ◌++◌}
use mathlib.Core.Option.{Option, none, some}
use native.Mathlib.Omega.{arith}
use mathlib.Core.Logic.{inl, inr}
use mifolyo.Base.Tests.{ltb, leb, if◌then◌else◌, Bool-cases, ltb→lt}
use mifolyo.Base.Texts.{Text}

-- The digits of a number, least significant last; `fuel` bounds their count.
unfoldable pub digits : ℕ → ℕ → Text
digits zero n = []
digits (suc fuel) n =
    if ltb n 10 then (48 + n) ∷ [] else digits fuel (n / 10) ++ ((48 + n % 10) ∷ [])

-- `str(n)`: a number has at most n + 1 digits.
unfoldable pub str : ℕ → Text
str n = digits (suc n) n

unfoldable pub is_digit : ℕ → Bool
is_digit c = leb 48 c && leb c 57

-- The value of digits read after those of value `acc`.
unfoldable pub read_digits : ℕ → Text → Option ℕ
read_digits acc [] = some acc
read_digits acc (c ∷ t) = if is_digit c then read_digits (acc * 10 + (c - 48)) t else none

-- `int(text)` of an unsigned decimal text.
unfoldable pub int_of : Text → Option ℕ
int_of [] = none
int_of (c ∷ t) = read_digits 0 (c ∷ t)

read_digits-append :
    (acc n c : ℕ) (t : Text)
    → read_digits acc t ≡ some n
    → is_digit c ≡ true
    → read_digits acc (t ++ (c ∷ [])) ≡ some (n * 10 + (c - 48))
unfolding read_digits
read_digits-append acc n c [] h d = ground arith
read_digits-append acc n c (b ∷ t) h d =
    ground (arith, read_digits-append (acc * 10 + (b - 48)) n c t)

small_digit : (n : ℕ) → n < 10 → read_digits 0 ((48 + n) ∷ []) ≡ some n
unfolding read_digits is_digit
small_digit n h = ground arith

last_digit : (n : ℕ) → is_digit (48 + n % 10) ≡ true
unfolding is_digit
last_digit n = ground (arith, mod_lt n)
  where
    mod_lt : (n : ℕ) → n % 10 < 10
    mod_lt n = omega arith

not_small : (n : ℕ) → ltb n 10 ≡ false → 10 ≤ n
not_small n h = ground arith

digits_lem : (fuel n : ℕ) → n < fuel → read_digits 0 (digits fuel n) ≡ some n
unfolding digits
digits_lem zero n h = ground arith
digits_lem (suc fuel) n h = elim (Bool-cases (ltb n 10)) [
  | inl b ↦ rw b (small_digit n (ltb→lt n 10 b))
  | inr b ↦ rw b (
      read_digits-append 0 (n / 10) (48 + n % 10) (digits fuel (n / 10))
        (digits_lem fuel (n / 10) (omega (arith, not_small n b))) (last_digit n)
      ∙ ap some (omega arith))
]

int_of-append : (t : Text) (c : ℕ) → int_of (t ++ (c ∷ [])) ≡ read_digits 0 (t ++ (c ∷ []))
unfolding int_of
int_of-append [] c = refl
int_of-append (b ∷ t) c = refl

int_of-digits : (fuel n : ℕ) → int_of (digits (suc fuel) n) ≡ read_digits 0 (digits (suc fuel) n)
unfolding digits int_of
int_of-digits fuel n = elim (Bool-cases (ltb n 10)) [
  | inl b ↦ rw b refl
  | inr b ↦ rw b (int_of-append (digits fuel (n / 10)) (48 + n % 10))
]

pub int_of-str : (n : ℕ) → int_of (str n) ≡ some n
unfolding str
int_of-str n = int_of-digits n n ∙ digits_lem (suc n) n (omega arith)

some_injective : (a b : ℕ) → some a ≡ some b → a ≡ b
some_injective a b h = cc

pub str_injective : (a b : ℕ) → str a ≡ str b → a ≡ b
str_injective a b h = some_injective a b (sym (int_of-str a) ∙ ap int_of h ∙ int_of-str b)

unfoldable pub all_digits : Text → Bool
all_digits [] = true
all_digits (c ∷ t) = is_digit c && all_digits t

-- The Lua test `string.match(text, '^[1-9][0-9]*$')`.
unfoldable pub is_canonical : Text → Bool
is_canonical [] = false
is_canonical (c ∷ t) = leb 49 c && (leb c 57 && all_digits t)

all_digits-append :
    (t : Text) (c : ℕ) → all_digits t ≡ true → is_digit c ≡ true → all_digits (t ++ (c ∷ [])) ≡ true
unfolding all_digits
all_digits-append [] c h d = ground arith
all_digits-append (b ∷ t) c h d = ground (arith, all_digits-append t c)

is_canonical-append :
    (t : Text) (c : ℕ)
    → is_canonical t ≡ true
    → is_digit c ≡ true
    → is_canonical (t ++ (c ∷ [])) ≡ true
unfolding is_canonical
is_canonical-append [] c h d = ground arith
is_canonical-append (b ∷ t) c h d = ground (arith, all_digits-append t c)

one_digit : (n : ℕ) → 0 < n → n < 10 → is_canonical ((48 + n) ∷ []) ≡ true
unfolding is_canonical all_digits
one_digit n p h = ground arith

is_canonical-digits : (fuel n : ℕ) → n < fuel → 0 < n → is_canonical (digits fuel n) ≡ true
unfolding digits
is_canonical-digits zero n h p = ground arith
is_canonical-digits (suc fuel) n h p = elim (Bool-cases (ltb n 10)) [
  | inl b ↦ rw b (one_digit n p (ltb→lt n 10 b))
  | inr b ↦ rw b (
      is_canonical-append (digits fuel (n / 10)) (48 + n % 10)
        (is_canonical-digits fuel (n / 10) (omega (arith, not_small n b))
          (omega (arith, not_small n b)))
        (last_digit n))
]

pub is_canonical-str : (n : ℕ) → 0 < n → is_canonical (str n) ≡ true
unfolding str
is_canonical-str n p = is_canonical-digits (suc n) n (omega arith) p
