-- ===== src/Isolation/Clone.antt =====
-- `sys_clone` gives the new task the memory of the current one.
use so2fib.Common.{
  update, sym, ap, ◌∙◌, ◌≢◌, ℕ, ◌≡◌, refl, ◌==◌, ==-eq, true, not, ◌||◌, arith, ℤ, pos, leb_ℤ, ◌+ℤ◌,
  Bool-cases, inl, inr,
}
use so2fib.LinkedList.{Addr, list_empty, list_first}
use so2fib.Utils.{access_ok, verify_read, verify_write}
use so2fib.Kernel.{Kernel, freequeue, list_head_to_task_struct, current}
use so2fib.Space.{copy_union}
use so2fib.Fork.{clone_task, sys_clone}
use so2fib.Isolation.{CountTwice, dir_of, alive, IsIsolated}
use so2fib.Isolation.Sched.{alive-running}
use so2fib.Isolation.Moves.{Origin, as_before, Moves, Moves-IsIsolated}

-- A count that grows stays above 0.
pub leb_ℤ-grows : (n : ℤ) → leb_ℤ (pos 1) n ≡ true → leb_ℤ (pos 1) (n +ℤ pos 1) ≡ true
leb_ℤ-grows n e = ground arith

clone_task-Origin :
    (function stack : ℕ) (free_pcb : Addr) (k : Kernel) (j : ℕ)
    → alive j (clone_task function stack free_pcb k).1 ≡ true
    → Origin 0 k (clone_task function stack free_pcb k).1 j
unfolding clone_task copy_union current
clone_task-Origin function stack free_pcb k j live =
    elim (Bool-cases (j == list_head_to_task_struct free_pcb)) [
      | inl new ↦
          as_before k.running (alive-running k) (ground arith) (ground arith)
            (λ b. rw (==-eq j _ new) (ground arith))
      | inr other ↦ as_before j (ground arith) (ground arith) (ground arith) (λ b. ground arith)
    ]

-- The directory of the new task, and who has it.
module _ (function stack : ℕ) (free_pcb : Addr) (k : Kernel) (c : IsIsolated k) where
  abbrev thread : ℕ
  thread = list_head_to_task_struct free_pcb

  abbrev cloned : Kernel
  cloned = (clone_task function stack free_pcb k).1

  abbrev shared : ℕ
  shared = dir_of k.running k

  refs-cloned : cloned.refs_dir ≡ update k.refs_dir shared (k.refs_dir shared +ℤ pos 1)
  unfolding clone_task copy_union current
  refs-cloned =
      let number : (k.task k.running).n_directorio ≡ shared =
        c.numbered k.running (alive-running k) in
      let number' : ((copy_union k.running thread k).task k.running).n_directorio ≡ shared =
        ground (arith, number) in
      rw number' refl

  shared-twice : leb_ℤ (pos 2) (cloned.refs_dir shared) ≡ true
  shared-twice = let once = c.counted k.running (alive-running k) in rw refs-cloned (ground arith)

  dir-thread : dir_of thread cloned ≡ shared
  unfolding clone_task copy_union current
  dir-thread = ground arith

  other :
      (j : ℕ)
      → j ≢ thread
      → alive j cloned ≡ true
      → (alive j k ≡ true) × (dir_of j cloned ≡ dir_of j k)
  unfolding clone_task copy_union current
  other j ne live = (ground arith, ground arith)

  clone-CountTwice : CountTwice k → CountTwice cloned
  clone-CountTwice two j j' ne a a' e = elim (Bool-cases (j == thread)) [
    | inl at ↦
        let d : dir_of j cloned ≡ shared =
          ap (λ l. dir_of l cloned) (==-eq j thread at) ∙ dir-thread in
        rw d shared-twice
    | inr off ↦ elim (Bool-cases (j' == thread)) [
      | inl at ↦
          let d : dir_of j cloned ≡ shared =
            e ∙ ap (λ l. dir_of l cloned) (==-eq j' thread at) ∙ dir-thread in
          rw d shared-twice
      | inr off' ↦
          let (b, d) = other j (ground arith) a in
          let (b', d') = other j' (ground arith) a' in
          let old = two j j' ne b b' (sym d ∙ e ∙ d') in rw (d, refs-cloned) (ground arith)
    ]
  ]

  clone_task-Moves : Moves 0 k cloned
  unfolding clone_task copy_union current
  clone_task-Moves = record {
    dirs = refl;
    used = λ x u. u;
    refs = λ r e. ground (arith, leb_ℤ-grows (k.refs_dir r));
    twice = clone-CountTwice;
    frames = λ t j a h. refl;
    heap = λ row p lo hi e. e;
    origin = clone_task-Origin function stack free_pcb k;
  }

pub sys_clone-IsIsolated :
    (function stack : ℕ) (k : Kernel) → IsIsolated k → IsIsolated (sys_clone function stack k).1
unfolding sys_clone
sys_clone-IsIsolated function stack k c =
    elim (Bool-cases
      (not (access_ok verify_write stack 4) || not (access_ok verify_read function 4))) [
        | inl bad ↦ rw bad c
        | inr ok ↦ elim (Bool-cases (list_empty freequeue k.links)) [
          | inl none_free ↦ rw (ok, none_free) c
          | inr some_free ↦
              rw (ok, some_free)
                (Moves-IsIsolated c
                  (clone_task-Moves function stack (list_first freequeue k.links) k c))
        ]
      ]
