-- ===== src/Semaphores/Search.antt =====
-- Which semaphore the searches of sys.c find.
use so2fib.Common.{
  ℕ, zero, suc, ◌+◌, ◌≤◌, ◌<◌, ◌≡◌, true, ◌&&◌, not, Option, none, some, ℤ, arith, eqb_ℤ, eqb_ℤ-eq,
  eqb_ℤ-of_eq, Bool-cases, inl, inr, ◌==◌, ==-eq, ◌⊎◌, ◌↔◌, subst, sym,
}
use so2fib.Task.{Semaphore, free_sem, used_sem, is_free_sem}
use so2fib.Kernel.{nr_semaphores}
use so2fib.Semaphores.{find_free, find_used, cerca_sem, cerca_sem_lliure}

-- What a search from index `i` over `n` semaphores for the used one of number `n_sem` means.
pub data Search (P : ℕ → Type 0) (i n : ℕ) : Option ℕ → Type 0 where
  found :
      {j : ℕ} → i ≤ j → j < i + n → P j → ((l : ℕ) → i ≤ l → l < j → ¬ P l) → Search P i n (some j)
  missing : ((l : ℕ) → i ≤ l → l < i + n → ¬ P l) → Search P i n none

le-split : (i l : ℕ) → i ≤ l → (l ≡ i) ⊎ (i + 1 ≤ l)
le-split i l h = elim (Bool-cases (l == i)) [
  | inl e ↦ inl (==-eq l i e)
  | inr ne ↦ inr (ground arith)
]

-- A search that has passed over index `i`.
pub later :
    (P : ℕ → Type 0) (i n : ℕ) {r : Option ℕ} → ¬ P i → Search P (i + 1) n r → Search P i (suc n) r
later P i n off (found lo hi p first) = found (omega arith) (omega arith) p (λ l a b.
    elim (le-split i l a) [ inl e ↦ subst (λ j. ¬ P j) (sym e) off | inr g ↦ first l g b ])
later P i n off (missing m) = missing (λ l a b. elim (le-split i l a) [
  | inl e ↦ subst (λ j. ¬ P j) (sym e) off
  | inr g ↦ m l g (omega arith)
])

module _ (sems : ℕ → Semaphore) where
  abbrev pub IsFree : ℕ → Type 0
  IsFree i = (sems i).state ≡ free_sem

  abbrev pub Names : ℤ → ℕ → Type 0
  Names n_sem i = ((sems i).n_sem ≡ n_sem) × ((sems i).state ≡ used_sem)

  IsFree-test : (i : ℕ) → (is_free_sem (sems i).state ≡ true) ↔ IsFree i
  IsFree-test i = ground arith

  Names-test :
      (n_sem : ℤ) (i : ℕ)
      → ((eqb_ℤ (sems i).n_sem n_sem && not (is_free_sem (sems i).state)) ≡ true) ↔ Names n_sem i
  Names-test n_sem i =
      ground (arith, eqb_ℤ-eq (sems i).n_sem n_sem, eqb_ℤ-of_eq (sems i).n_sem n_sem)

  find_free-Search : (n i : ℕ) → Search IsFree i n (find_free n i sems)
  unfolding find_free
  find_free-Search zero i = missing (λ l a b. absurd (omega arith))
  find_free-Search (suc n) i = elim (Bool-cases (is_free_sem (sems i).state)) [
    | inl e ↦
        rw e
          (found (omega arith) (omega arith) ((IsFree-test i).0 e) (λ l a b. absurd (omega arith)))
    | inr e ↦ rw e (later IsFree i n (ground arith) (find_free-Search n (i + 1)))
  ]

  find_used-Search : (n_sem : ℤ) (n i : ℕ) → Search (Names n_sem) i n (find_used n i n_sem sems)
  unfolding find_used
  find_used-Search n_sem zero i = missing (λ l a b. absurd (omega arith))
  find_used-Search n_sem (suc n) i =
      elim (Bool-cases (eqb_ℤ (sems i).n_sem n_sem && not (is_free_sem (sems i).state))) [
        | inl e ↦ rw e (
            found (omega arith) (omega arith) ((Names-test n_sem i).0 e)
              (λ l a b. absurd (omega arith)))
        | inr e ↦ rw e (
            later (Names n_sem) i n (λ p. cc (e, (Names-test n_sem i).1 p))
              (find_used-Search n_sem n (i + 1)))
      ]

  -- `cerca_sem_lliure` returns the first free semaphore, or says that all twenty are used.
  pub cerca_sem_lliure-Search : Search IsFree 0 nr_semaphores (cerca_sem_lliure sems)
  unfolding cerca_sem_lliure
  cerca_sem_lliure-Search = find_free-Search nr_semaphores 0

  -- `cerca_sem` returns the first used semaphore with the number `n_sem`, or says that there is
  -- none among the twenty.
  pub cerca_sem-Search : (n_sem : ℤ) → Search (Names n_sem) 0 nr_semaphores (cerca_sem n_sem sems)
  unfolding cerca_sem
  cerca_sem-Search n_sem = find_used-Search n_sem nr_semaphores 0

-- The content of a search that found index `j`.
pub Search-found :
    {P : ℕ → Type 0} {i n j : ℕ} → Search P i n (some j) → (i ≤ j) × (j < i + n) × P j
Search-found (found lo hi p first) = (lo, hi, p)
