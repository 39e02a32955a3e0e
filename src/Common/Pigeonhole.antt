-- ===== src/Common/Pigeonhole.antt =====
-- A list of distinct numbers from 1 to `n` has at most `n` entries.
use Prim.Native.Nat.{ℕ, zero, suc, ◌≤◌}
use mathlib.Core.Path.{◌≡◌, refl}
use mathlib.Core.Bool.{true, false}
use mathlib.Core.List.{List, [], ◌∷◌}
use native.Mathlib.Omega.{arith}
use so2fib.Common.Tests.{◌==◌, if◌then◌else◌}
use so2fib.Common.Lists.{length, has, Distinct}

-- The list without the first entry `a`.
remove : ℕ → List ℕ → List ℕ
remove a [] = []
remove a (x ∷ xs) = if a == x then xs else x ∷ remove a xs

has-remove : (a b : ℕ) (xs : List ℕ) → has b (remove a xs) ≡ true → has b xs ≡ true
unfolding remove
has-remove a b [] h = h
has-remove a b (x ∷ xs) h = ground (arith, has-remove a b xs)

length-remove : (a : ℕ) (xs : List ℕ) → length xs ≤ suc (length (remove a xs))
unfolding remove
length-remove a [] = omega arith
length-remove a (x ∷ xs) = ground (arith, length-remove a xs)

remove-Distinct :
    (a : ℕ) (xs : List ℕ) → Distinct xs → Distinct (remove a xs) × (has a (remove a xs) ≡ false)
unfolding remove
remove-Distinct a [] d = (tt, refl)
remove-Distinct a (x ∷ xs) d = ground (arith, remove-Distinct a xs d.1, has-remove a x xs)

pub length-le_of_Distinct :
    (n : ℕ) (xs : List ℕ)
    → Distinct xs
    → ((a : ℕ) → has a xs ≡ true → (1 ≤ a) × (a ≤ n))
    → length xs ≤ n
length-le_of_Distinct n [] d within = omega arith
length-le_of_Distinct zero (x ∷ xs) d within = absurd (omega (arith, within x (ground arith)))
length-le_of_Distinct (suc n) (x ∷ xs) d within =
    let (d', out) = remove-Distinct (suc n) (x ∷ xs) d in
    omega (
      arith,
      length-remove (suc n) (x ∷ xs),
      length-le_of_Distinct n (remove (suc n) (x ∷ xs)) d'
          (λ a i. ground (arith, within a (has-remove (suc n) a (x ∷ xs) i), out)),
    )
