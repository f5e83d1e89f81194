-- ===== src/Base/Dict.antt =====
-- Python's `dict` with `bytes` keys, as an association list in insertion order.
use mathlib.Core.List.{List, [], ◌∷◌}
use mathlib.Core.Option.{Option, none, some}
use mathlib.Core.Path.{◌≡◌}
use Prim.Native.Nat.{ℕ, ◌+◌, ◌≤◌}
use native.Mathlib.Omega.{arith}
use mifolyo.Base.Tests.{if◌then◌else◌}
use mifolyo.Base.Lists.{sum_of}
use mifolyo.Base.Texts.{Bytes, same, same_iff}

abbrev pub Dict {ℓ} : Type ℓ → Type ℓ
Dict V = List (Bytes × V)

module _ {ℓ} {V : Type ℓ} where
  -- `d.get(k)`
  unfoldable pub lookup : Bytes → Dict V → Option V
  lookup k [] = none
  lookup k ((j, v) ∷ d) = if same j k then some v else lookup k d

  -- `d[k] = v`
  unfoldable pub insert : Bytes → V → Dict V → Dict V
  insert k v [] = (k, v) ∷ []
  insert k v ((j, w) ∷ d) = if same j k then (j, v) ∷ d else (j, w) ∷ insert k v d

  -- `d.pop(k, None)`
  unfoldable pub remove : Bytes → Dict V → Dict V
  remove k [] = []
  remove k ((j, w) ∷ d) = let rest = remove k d in if same j k then rest else (j, w) ∷ rest

  pub lookup-insert :
      (k j : Bytes) (v : V) (d : Dict V)
      → lookup j (insert k v d) ≡ (if same k j then some v else lookup j d)
  unfolding lookup insert
  lookup-insert k j v [] = ground arith
  lookup-insert k j v ((i, w) ∷ d) =
      ground (arith, same_iff i k, same_iff i j, same_iff k j, lookup-insert k j v d)

  pub lookup-remove :
      (k j : Bytes) (d : Dict V) → lookup j (remove k d) ≡ (if same k j then none else lookup j d)
  unfolding lookup remove
  lookup-remove k j [] = ground arith
  lookup-remove k j ((i, w) ∷ d) =
      ground (arith, same_iff i k, same_iff i j, same_iff k j, lookup-remove k j d)

  -- The sum of a measure over the values.
  abbrev pub total : (V → ℕ) → Dict V → ℕ
  total f d = sum_of (λ e. f e.1) d

  abbrev pub weight : (V → ℕ) → Option V → ℕ
  weight f none = 0
  weight f (some v) = f v

  pub total-insert :
      (f : V → ℕ) (k : Bytes) (v : V) (d : Dict V)
      → total f (insert k v d) + weight f (lookup k d) ≡ total f d + f v
  unfolding lookup insert
  total-insert f k v [] = omega arith
  total-insert f k v ((j, w) ∷ d) = ground (arith, total-insert f k v d)

  pub total-remove :
      (f : V → ℕ) (k : Bytes) (d : Dict V)
      → total f (remove k d) + weight f (lookup k d) ≤ total f d
  unfolding lookup remove
  total-remove f k [] = omega arith
  total-remove f k ((j, w) ∷ d) = ground (arith, total-remove f k d)
