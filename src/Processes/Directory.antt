-- ===== src/Processes/Directory.antt =====
-- Which page directory a task is given.
use so2fib.Common.{
  ℕ, zero, suc, ◌+◌, ◌<◌, ◌≡◌, refl, Option, ℤ, pos, neg, ◌+ℤ◌, arith, eqb_ℤ, eqb_ℤ-eq, eqb_ℤ-of_eq,
  Bool-cases, inl, inr, update, ap,
}
use so2fib.Kernel.{Kernel, nr_tasks}
use so2fib.Sched.{get_dir}
use so2fib.Semaphores.Search.{Search, found, missing, later}
use so2fib.Processes.{find_dir, allocate_dir, get_dir_position}

abbrev pub IsUnused : (ℕ → ℤ) → ℕ → Type 0
IsUnused refs i = refs i ≡ pos 0

find_dir-Search : (n i : ℕ) (refs : ℕ → ℤ) → Search (IsUnused refs) i n (find_dir n i refs)
unfolding find_dir
find_dir-Search zero i refs = missing (λ l a b. absurd (omega arith))
find_dir-Search (suc n) i refs = elim (Bool-cases (eqb_ℤ (refs i) (pos 0))) [
  | inl e ↦ rw e (
      found (omega arith) (omega arith) (eqb_ℤ-eq (refs i) (pos 0) e)
        (λ l a b. absurd (omega arith)))
  | inr e ↦ rw e (
      later (IsUnused refs) i n (λ p. cc (e, eqb_ℤ-of_eq (refs i) (pos 0) p))
        (find_dir-Search n (i + 1) refs))
]

-- How `allocate_DIR` for task `p` ends.
pub data Allocated (p : ℕ) (k : Kernel) : ℤ × Kernel → Type 0 where
  taken :
      {i : ℕ} {k' : Kernel}
      → i < nr_tasks
      → IsUnused k.refs_dir i
      → ((l : ℕ) → l < i → ¬ IsUnused k.refs_dir l)
      → get_dir p k' ≡ i
      → get_dir_position p k' ≡ i
      → k'.refs_dir ≡ update k.refs_dir i (pos 1)
      → Allocated p k (pos 1, k')
  all_used : ((l : ℕ) → l < nr_tasks → ¬ IsUnused k.refs_dir l) → Allocated p k (neg 1, k)

Search-Allocated :
    (p : ℕ) (k : Kernel) {r : Option ℕ}
    → Search (IsUnused k.refs_dir) 0 nr_tasks r
    → find_dir nr_tasks 0 k.refs_dir ≡ r
    → Allocated p k (allocate_dir p k)
unfolding allocate_dir get_dir get_dir_position
Search-Allocated p k (found {j} lo hi unused first) e =
    rw (e, allocate_dir)
      (taken (omega arith) unused (λ l h. first l (omega arith) h) (ground arith) (ground arith)
        (ap (λ n. update k.refs_dir j (n +ℤ pos 1)) unused))
Search-Allocated p k (missing none_unused) e =
    rw (e, allocate_dir) (all_used (λ l h. none_unused l (omega arith) (omega arith)))

-- `allocate_DIR` gives a task the first directory that nobody refers to, to which one task refers
-- from then on, and returns 1; when there is none it returns -1 and changes nothing.
pub allocate_dir-Allocated : (p : ℕ) (k : Kernel) → Allocated p k (allocate_dir p k)
allocate_dir-Allocated p k = Search-Allocated p k (find_dir-Search nr_tasks 0 k.refs_dir) refl
