-- ===== src/Base/Texts.antt =====
-- Python `bytes` and `str` values as lists of byte values and of code points: equality, order,
-- prefixes and membership.
use Prim.Native.Nat.{ℕ}
use Prim.Native.Char.{code}
use Prim.Native.String.{String}
use mathlib.Core.Path.{◌≡◌, refl}
use mathlib.Core.Logic.{◌↔◌}
use mathlib.Core.Bool.{Bool, true, false, ◌&&◌, ◌||◌}
use mathlib.Core.List.{List, [], ◌∷◌, ◌++◌}
use native.Mathlib.Omega.{arith}
use mifolyo.Base.Tests.{ltb, ◌==◌}

abbrev pub Bytes : Type 0
Bytes = List ℕ

abbrev pub Text : Type 0
Text = List ℕ

abbrev pub codes : String → List ℕ
codes String.[] = []
codes (String.◌∷◌ c s) = code c ∷ codes s

unfoldable pub same : List ℕ → List ℕ → Bool
same [] [] = true
same [] (b ∷ bs) = false
same (a ∷ as_) [] = false
same (a ∷ as_) (b ∷ bs) = a == b && same as_ bs

pub same→eq : (a b : List ℕ) → same a b ≡ true → a ≡ b
unfolding same
same→eq [] [] h = refl
same→eq [] (b ∷ bs) h = cc
same→eq (a ∷ as_) [] h = cc
same→eq (a ∷ as_) (b ∷ bs) h = ground (arith, same→eq as_ bs)

pub same_refl : (a : List ℕ) → same a a ≡ true
unfolding same
same_refl [] = refl
same_refl (a ∷ as_) = ground (arith, same_refl as_)

pub same_iff : (a b : List ℕ) → (same a b ≡ true) ↔ (a ≡ b)
same_iff a b = (same→eq a b, λ e. rw e (same_refl b))

unfoldable pub contains : List ℕ → List (List ℕ) → Bool
contains k [] = false
contains k (j ∷ js) = same j k || contains k js

-- `text.startswith(prefix)`
unfoldable pub starts_with : List ℕ → List ℕ → Bool
starts_with [] t = true
starts_with (p ∷ ps) [] = false
starts_with (p ∷ ps) (c ∷ t) = p == c && starts_with ps t

-- `text.endswith(suffix)`: the suffix is the text itself, or ends its tail.
unfoldable pub ends_with : List ℕ → List ℕ → Bool
ends_with s [] = same s []
ends_with s (c ∷ t) = same s (c ∷ t) || ends_with s t

-- `a < b` of two texts: by the first code point where they differ.
unfoldable pub less : List ℕ → List ℕ → Bool
less [] [] = false
less [] (b ∷ bs) = true
less (a ∷ as_) [] = false
less (a ∷ as_) (b ∷ bs) = ltb a b || (a == b && less as_ bs)

pub contains-append :
    (k : List ℕ) (xs ys : List (List ℕ)) → contains k (xs ++ ys) ≡ (contains k xs || contains k ys)
unfolding contains
contains-append k [] ys = refl
contains-append k (x ∷ xs) ys = ground (arith, contains-append k xs ys)
