-- ===== src/Isolation/Exit.antt =====
-- What `sys_exit` leaves to the other tasks.
use so2fib.Common.{
  ℕ, ◌+◌, ◌-◌, ◌<◌, ◌≤◌, ◌≡◌, ◌≢◌, ◌∙◌, ap, sym, true, arith, pos, leb_ℤ, eqb_ℤ, eqb_ℤ-eq,
  eqb_ℤ-of_eq, inl, inr, Bool-cases,
}
use so2fib.Frames.{free_mark}
use so2fib.Kernel.{Kernel}
use so2fib.Sched.{get_dir}
use so2fib.Space.{get_pt}
use so2fib.Space.Unmap.{frame_of}
use so2fib.Processes.{get_dir_position}
use so2fib.Exit.Outcome.{Vacated}
use so2fib.Isolation.{alive, dir_of, frame_at, IsIsolated}
use so2fib.Isolation.Sched.{alive-running}

-- The tasks of `k` that are alive, other than the current one, keep their data pages, and the frames
-- of these behind the kernel's stay in use.
pub record Spares (k k' : Kernel) : Type 0 where
  pub pages :
      (t j : ℕ)
      → alive t k ≡ true
      → t ≢ k.running
      → j < 20
      → k'.pagusr_table (dir_of t k) (264 + j) ≡ k.pagusr_table (dir_of t k) (264 + j)
  pub frames :
      (t j : ℕ)
      → alive t k ≡ true
      → t ≢ k.running
      → j < 20
      → 256 ≤ frame_at t j k
      → k'.phys_mem (frame_at t j k) ≢ free_mark

module _ {k k' : Kernel} (c : IsIsolated k) (w : Vacated k k') where
  abbrev mine : ℕ
  mine = dir_of k.running k

  position : get_dir_position k.running k ≡ mine
  unfolding get_dir_position
  position = c.numbered k.running (alive-running k)

  row_mine : get_pt k.running k ≡ mine
  unfolding get_pt get_dir
  row_mine = c.own_tables mine (c.placed k.running (alive-running k))

  -- Who uses the directory alone, shares it with nobody.
  other_dir :
      (t : ℕ) → alive t k ≡ true → t ≢ k.running → k.refs_dir mine ≡ pos 1 → dir_of t k ≢ mine
  other_dir t a ne once same = cc (
      sym (c.twice t k.running ne a (alive-running k) same)
      ∙ ap (λ r. leb_ℤ (pos 2) (k.refs_dir r)) same
      ∙ ap (leb_ℤ (pos 2)) once)

  last-Spares : k.refs_dir mine ≡ pos 1 → Spares k k'
  last-Spares once =
      let u = w.last (ap k.refs_dir position ∙ once) in
      record {
        pages = λ t j a ne h.
            u.tables (dir_of t k) (264 + j) (inl (λ same. other_dir t a ne once (same ∙ row_mine)));
        frames = λ t j a ne h low free.
            let stays = u.others (frame_at t j k) (λ p inside same.
              let at : frame_at k.running (p - 264) k ≡ frame_at t j k =
                ap (λ r. (k.pagusr_table r (264 + (p - 264))).pbase_addr) (sym row_mine)
                ∙ ap (λ l. frame_of (get_pt k.running k) l k) (ground arith)
                ∙ same in
              let (r, _) =
                c.apart t k.running j (p - 264) a (alive-running k) h (ground arith) low (sym at) in
              other_dir t a ne once r) in
            c.in_use t j a h (sym stays ∙ free);
      }

  pub Vacated-Spares : Spares k k'
  Vacated-Spares = elim (Bool-cases (eqb_ℤ (k.refs_dir mine) (pos 1))) [
    | inl e ↦ last-Spares (eqb_ℤ-eq (k.refs_dir mine) (pos 1) e)
    | inr ne ↦
        let more : k.refs_dir (get_dir_position k.running k) ≢ pos 1 =
          λ e. cc (ne, eqb_ℤ-of_eq (k.refs_dir mine) (pos 1) (ap k.refs_dir (sym position) ∙ e)) in
        let (mem, tables) = w.shared more in
        record {
          pages = λ t j a other h. ap (λ f. f (dir_of t k) (264 + j)) tables;
          frames = λ t j a other h low free.
              c.in_use t j a h (sym (ap (λ f. f (frame_at t j k)) mem) ∙ free);
        }
  ]
