-- ===== src/Common/Memory.antt =====
-- C arrays and object fields as functions from an index, written at one index at a time.
use Prim.Native.Nat.{ℕ}
use mathlib.Core.Path.{◌≡◌, sym, ap, ◌∙◌, fun_ext}
use mathlib.Core.Logic.{◌≢◌, inl, inr}
use native.Mathlib.Omega.{arith}
use so2fib.Common.Tests.{◌==◌, ==-eq, Bool-cases, if◌then◌else◌}

module _ {ℓ} {A : Type ℓ} where
  abbrev pub update : (ℕ → A) → ℕ → A → ℕ → A
  update f i v j = if j == i then v else f j

  pub update_self : (f : ℕ → A) (i : ℕ) (v : A) → update f i v i ≡ v
  update_self f i v = ground arith

  pub update-ne : (f : ℕ → A) (i j : ℕ) (v : A) → j ≢ i → update f i v j ≡ f j
  update-ne f i j v h = ground arith

  pub update-update : (f : ℕ → A) (i : ℕ) (u v : A) → update (update f i u) i v ≡ update f i v
  update-update f i u v = fun_ext (λ j. ground arith)

  pub update-id : (f : ℕ → A) (i : ℕ) (v : A) → f i ≡ v → update f i v ≡ f
  update-id f i v e = fun_ext (λ j. elim (Bool-cases (j == i)) [
    | inl same ↦ rw same (sym e ∙ ap f (sym (==-eq j i same)))
    | inr ne ↦ rw ne
  ])
