-- ===== src/Base/Counter.antt =====
-- Python's `collections.Counter` over reason codes.
use mathlib.Core.List.{List, [], ◌∷◌}
use mathlib.Core.Path.{◌≡◌}
use Prim.Native.Nat.{ℕ, ◌+◌}
use Prim.Native.String.{String}
use native.Mathlib.Omega.{arith}
use text.Mathlib.Text.{◌==◌}
use text.Mathlib.TextEquality.{eq_iff}
use mifolyo.Base.Tests.{if◌then◌else◌}
use mifolyo.Base.Lists.{sum_of}

abbrev pub Counter : Type 0
Counter = List (String × ℕ)

-- `c[reason] += n`
unfoldable pub add : String → ℕ → Counter → Counter
add r n [] = (r, n) ∷ []
add r n ((s, m) ∷ c) = if s == r then (s, m + n) ∷ c else (s, m) ∷ add r n c

abbrev pub bump : String → Counter → Counter
bump r c = add r 1 c

-- `c.update(other)`
unfoldable pub update : Counter → Counter → Counter
update c [] = c
update c ((r, n) ∷ other) = update (add r n c) other

-- `c[reason]`
unfoldable pub count : String → Counter → ℕ
count r [] = 0
count r ((s, m) ∷ c) = if s == r then m else count r c

abbrev pub total : Counter → ℕ
total c = sum_of (λ e. e.1) c

pub total-add : (r : String) (n : ℕ) (c : Counter) → total (add r n c) ≡ total c + n
unfolding add
total-add r n [] = omega arith
total-add r n ((s, m) ∷ c) = ground (arith, total-add r n c)

pub total-update : (c other : Counter) → total (update c other) ≡ total c + total other
unfolding update
total-update c [] = omega arith
total-update c ((r, n) ∷ other) = omega (arith, total-update (add r n c) other, total-add r n c)

pub count-add :
    (r s : String) (n : ℕ) (c : Counter)
    → count s (add r n c) ≡ (if r == s then count s c + n else count s c)
unfolding count add
count-add r s n [] = ground arith
count-add r s n ((t, m) ∷ c) = ground (arith, eq_iff t r, eq_iff t s, eq_iff r s, count-add r s n c)
