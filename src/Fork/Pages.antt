-- ===== src/Fork/Pages.antt =====
-- The part of `sys_fork` that gives the new task its memory leaves the lists alone.
use so2fib.Common.{
  ℕ, zero, suc, ◌+◌, ◌≡◌, refl, ◌∙◌, List, ◌∷◌, Option-cases, inl, inr, ℤ, ap, arith,
}
use so2fib.Frames.{alloc_frame}
use so2fib.Frames.{PhysMem}
use so2fib.Paging.{Entry, PageTable}
use so2fib.Utils.{Bytes}
use so2fib.Kernel.{Kernel, Word, Machine, nr_tasks, is_head}
use so2fib.Sched.Next.{SameLists}
use so2fib.Processes.{find_dir, allocate_dir}
use so2fib.Fork.{share_pages, copy_page, copy_pages}

-- Lists, states and PIDs are as they were.
pub record Kept (k k' : Kernel) : Type 0 where
  pub links : k'.links ≡ k.links
  pub semaphores : k'.semaphores ≡ k.semaphores
  pub running : k'.running ≡ k.running
  pub idle_task : k'.idle_task ≡ k.idle_task
  pub incremental_pid : k'.incremental_pid ≡ k.incremental_pid
  pub estado : (i : ℕ) → (k'.task i).estado ≡ (k.task i).estado

pub Kept-refl : (k : Kernel) → Kept k k
Kept-refl k = record {
  links = refl;
  semaphores = refl;
  running = refl;
  idle_task = refl;
  incremental_pid = refl;
  estado = λ i. refl;
}

-- A write to any of the other fields.
pub rest-Kept :
    (k : Kernel) {dirs : ℕ → Entry} {tables : ℕ → PageTable} {words : ℕ → ℕ → Word} {bytes : Bytes}
    {mem : PhysMem} {refs : ℕ → ℤ} {m : Machine}
    → Kept k (record k {
      dir_pages = dirs;
      pagusr_table = tables;
      stack = words;
      ram = bytes;
      phys_mem = mem;
      refs_dir = refs;
      machine = m;
    })
rest-Kept k = record {
  links = refl;
  semaphores = refl;
  running = refl;
  idle_task = refl;
  incremental_pid = refl;
  estado = λ i. refl;
}

pub Kept-trans : {k k' k'' : Kernel} → Kept k k' → Kept k' k'' → Kept k k''
Kept-trans a b = record {
  links = b.links ∙ a.links;
  semaphores = b.semaphores ∙ a.semaphores;
  running = b.running ∙ a.running;
  idle_task = b.idle_task ∙ a.idle_task;
  incremental_pid = b.incremental_pid ∙ a.incremental_pid;
  estado = λ i. b.estado i ∙ a.estado i;
}

pub Kept-SameLists : {k k' : Kernel} → Kept k k' → SameLists k k'
Kept-SameLists a = record {
  links = a.links;
  heads = ap is_head a.semaphores;
  idle = a.idle_task;
  estado = a.estado;
}

pub allocate_dir-Kept : (p : ℕ) (k : Kernel) → Kept k (allocate_dir p k).1
unfolding allocate_dir
allocate_dir-Kept p k = elim (Option-cases (find_dir nr_tasks 0 k.refs_dir)) [
  | inl e ↦ rw (e, allocate_dir) (Kept-refl k)
  | inr (i, e) ↦
      rw (e, allocate_dir)
        (record {
          links = refl;
          semaphores = refl;
          running = refl;
          idle_task = refl;
          incremental_pid = refl;
          estado = λ j. ground arith;
        })
]

pub share_pages-Kept :
    (n page new parent : ℕ) (k : Kernel) → Kept k (share_pages n page new parent k)
unfolding share_pages
share_pages-Kept zero page new parent k = Kept-refl k
share_pages-Kept (suc n) page new parent k =
    Kept-trans (rest-Kept k) (share_pages-Kept n (page + 1) new parent _)

pub copy_pages-Kept :
    (n i new parent : ℕ) (frames : List ℕ) (k : Kernel)
    → Kept k (copy_pages n i new parent frames k).1
unfolding copy_pages copy_page
copy_pages-Kept zero i new parent frames k = Kept-refl k
copy_pages-Kept (suc n) i new parent frames k = elim (Option-cases (alloc_frame k.phys_mem).0) [
  | inl e ↦ rw (e, copy_pages) (rest-Kept k)
  | inr (frame, e) ↦
      rw (e, copy_pages)
        (Kept-trans (rest-Kept k) (copy_pages-Kept n (i + 1) new parent (frame ∷ frames) _))
]
