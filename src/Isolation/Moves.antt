-- ===== src/Isolation/Moves.antt =====
-- Steps that take frames and directories, and that keep the tasks isolated.
use so2fib.Common.{ℕ, ◌+◌, ◌<◌, ◌≤◌, ◌≡◌, ◌≢◌, ◌∙◌, ap, sym, true, arith, subst, pos, leb_ℤ}
use so2fib.Frames.{free_mark, total_pages}
use so2fib.Paging.{no_entry}
use so2fib.Kernel.{Kernel, nr_tasks}
use so2fib.Fork.Memory.{data_frame}
use so2fib.Isolation.{alive, dir_of, frame_at, InHeap, IsIsolated, CountTwice, Still}

-- Task `t` of `k'` is alone in row `d`, with each data page in a frame that was free in `k`.
pub record IsNew (d : ℕ) (k k' : Kernel) (t : ℕ) : Type 0 where
  pub at : dir_of t k' ≡ d
  pub number : (k'.task t).n_directorio ≡ d
  pub in_range : d < nr_tasks
  pub counted : leb_ℤ (pos 1) (k'.refs_dir d) ≡ true
  pub fresh : (j : ℕ) → j < 20 → k.phys_mem (data_frame d j k') ≡ free_mark
  pub taken : (j : ℕ) → j < 20 → k'.phys_mem (data_frame d j k') ≢ free_mark
  pub distinct : (j j' : ℕ) → j < 20 → j' < 20 → data_frame d j k' ≡ data_frame d j' k' → j ≡ j'
  pub break_in : InHeap (k'.task t).process_break

-- A task of `k'` has the memory of a task of `k`, or new memory.
pub data Origin (d : ℕ) (k k' : Kernel) (t : ℕ) : Type 0 where
  as_before :
      (i : ℕ)
      → alive i k ≡ true
      → dir_of t k' ≡ dir_of i k
      → (k'.task t).n_directorio ≡ (k.task i).n_directorio
      → (InHeap (k.task i).process_break → InHeap (k'.task t).process_break)
      → Origin d k k' t
  anew : IsNew d k k' t → Origin d k k' t

pub record Moves (d : ℕ) (k k' : Kernel) : Type 0 where
  pub dirs : k'.dir_pages ≡ k.dir_pages
  pub used : (x : ℕ) → k.phys_mem x ≢ free_mark → k'.phys_mem x ≢ free_mark
  pub refs : (r : ℕ) → leb_ℤ (pos 1) (k.refs_dir r) ≡ true → leb_ℤ (pos 1) (k'.refs_dir r) ≡ true
  pub twice : CountTwice k → CountTwice k'
  pub frames :
      (t j : ℕ)
      → alive t k ≡ true
      → j < 20
      → data_frame (dir_of t k) j k' ≡ data_frame (dir_of t k) j k
  pub heap :
      (row p : ℕ)
      → 284 ≤ p
      → p < total_pages
      → k.pagusr_table row p ≡ no_entry
      → k'.pagusr_table row p ≡ no_entry
  pub origin : (t : ℕ) → alive t k' ≡ true → Origin d k k' t

module _ {d : ℕ} {k k' : Kernel} (c : IsIsolated k) (m : Moves d k k') where
  placed_by : {t : ℕ} → Origin d k k' t → dir_of t k' < nr_tasks
  placed_by (as_before i a e _ _) = rw e (c.placed i a)
  placed_by (anew n) = rw n.at n.in_range

  numbered_by : {t : ℕ} → Origin d k k' t → (k'.task t).n_directorio ≡ dir_of t k'
  numbered_by (as_before i a e n _) = n ∙ c.numbered i a ∙ sym e
  numbered_by (anew n) = n.number ∙ sym n.at

  counted_by : {t : ℕ} → Origin d k k' t → leb_ℤ (pos 1) (k'.refs_dir (dir_of t k')) ≡ true
  counted_by (as_before i a e _ _) = rw e (m.refs (dir_of i k) (c.counted i a))
  counted_by (anew n) = rw n.at n.counted

  old_frame :
      {t : ℕ} (i j : ℕ)
      → alive i k ≡ true
      → j < 20
      → dir_of t k' ≡ dir_of i k
      → frame_at t j k' ≡ frame_at i j k
  old_frame i j a h e = ap (λ r. data_frame r j k') e ∙ m.frames i j a h

  new_frame : {t : ℕ} (j : ℕ) → IsNew d k k' t → frame_at t j k' ≡ data_frame d j k'
  new_frame j n = ap (λ r. data_frame r j k') n.at

  in_use_by : {t : ℕ} (j : ℕ) → j < 20 → Origin d k k' t → k'.phys_mem (frame_at t j k') ≢ free_mark
  in_use_by j h (as_before i a e _ _) =
      rw (old_frame i j a h e) (m.used (frame_at i j k) (c.in_use i j a h))
  in_use_by j h (anew n) = rw (new_frame j n) (n.taken j h)

  -- An old frame is no new one.
  old_new :
      {t t' : ℕ} (i j j' : ℕ)
      → alive i k ≡ true
      → j < 20
      → j' < 20
      → dir_of t k' ≡ dir_of i k
      → IsNew d k k' t'
      → frame_at t j k' ≢ frame_at t' j' k'
  old_new i j j' a h h' e n same =
      c.in_use i j a h
        (ap k.phys_mem (sym (old_frame i j a h e) ∙ same ∙ new_frame j' n) ∙ n.fresh j' h')

  apart_by :
      {t t' : ℕ} (j j' : ℕ)
      → j < 20
      → j' < 20
      → Origin d k k' t
      → Origin d k k' t'
      → 256 ≤ frame_at t j k'
      → frame_at t j k' ≡ frame_at t' j' k'
      → (dir_of t k' ≡ dir_of t' k') × (j ≡ j')
  apart_by j j' h h' (as_before i a e _ _) (as_before i' a' e' _ _) low same =
      let f = old_frame i j a h e in
      let f' = old_frame i' j' a' h' e' in
      let (r, eq) = c.apart i i' j j' a a' h h' (omega arith) (sym f ∙ same ∙ f') in
      (e ∙ r ∙ sym e', eq)
  apart_by j j' h h' (as_before i a e _ _) (anew n) low same =
      absurd (old_new i j j' a h h' e n same)
  apart_by j j' h h' (anew n) (as_before i a e _ _) low same =
      absurd (old_new i j' j a h' h e n (sym same))
  apart_by j j' h h' (anew n) (anew n') low same =
      (n.at ∙ sym n'.at, n.distinct j j' h h' (sym (new_frame j n) ∙ same ∙ new_frame j' n'))

  break_by : {t : ℕ} → Origin d k k' t → InHeap (k'.task t).process_break
  break_by (as_before i a _ _ b) = b (c.break_in i a)
  break_by (anew n) = n.break_in

  pub Moves-IsIsolated : IsIsolated k'
  Moves-IsIsolated = record {
    own_tables = λ i lt. ap (λ f. (f i).pbase_addr) m.dirs ∙ c.own_tables i lt;
    placed = λ t a. placed_by (m.origin t a);
    numbered = λ t a. numbered_by (m.origin t a);
    counted = λ t a. counted_by (m.origin t a);
    twice = m.twice c.twice;
    in_use = λ t j a h. in_use_by j h (m.origin t a);
    apart = λ t t' j j' a a' h h'. apart_by j j' h h' (m.origin t a) (m.origin t' a');
    no_heap = λ row p in_table lo hi. m.heap row p lo hi (c.no_heap row p in_table lo hi);
    break_in = λ t a. break_by (m.origin t a);
  }

-- Where nobody comes to life and no count falls.
pub keeps-CountTwice :
    (k k' : Kernel)
    → ((t : ℕ) → alive t k' ≡ true → (alive t k ≡ true) × (dir_of t k' ≡ dir_of t k))
    → ((r : ℕ) → leb_ℤ (pos 2) (k.refs_dir r) ≡ true → leb_ℤ (pos 2) (k'.refs_dir r) ≡ true)
    → CountTwice k
    → CountTwice k'
keeps-CountTwice k k' was refs two t t' ne a a' same =
    let (b, d) = was t a in
    let (b', d') = was t' a' in rw d (refs (dir_of t k) (two t t' ne b b' (sym d ∙ same ∙ d')))

pub Still-Moves : {k k' : Kernel} → Still k k' → Moves 0 k k'
Still-Moves {k} {k'} s = record {
  dirs = s.dirs;
  used = λ x u. rw s.mem u;
  refs = λ r e. rw s.refs e;
  twice = keeps-CountTwice k k' (λ t a. (s.was_alive t a, s.dir t)) (λ r e. rw s.refs e);
  frames = λ t j a h. ap (λ f. (f (dir_of t k) (264 + j)).pbase_addr) s.tables;
  heap = λ row p lo hi e. rw s.tables e;
  origin = λ t a.
      as_before t (s.was_alive t a) (s.dir t) (s.number t)
        (λ b. subst InHeap (sym (s.break_at t)) b);
}

pub Still-IsIsolated : {k k' : Kernel} → Still k k' → IsIsolated k → IsIsolated k'
Still-IsIsolated s c = Moves-IsIsolated c (Still-Moves s)
