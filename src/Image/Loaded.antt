-- ===== src/Image/Loaded.antt =====
-- The image in memory, and the user program's move by `main` of system.c.
use so2fib.Common.{
  ℕ, ◌+◌, ◌*◌, ◌^◌, ◌≤◌, ◌<◌, ◌≡◌, refl, ◌∙◌, ap, sym, subst, Bool, true, length, get_or, arith,
  lt→ltb,
}
use so2fib.Task.{st_run}
use so2fib.Utils.{Bytes, dword_at}
use so2fib.Kernel.{Kernel}
use so2fib.Space.{walk, phys, seen}
use so2fib.Space.Mapped.{move_data, move_data-Moved}
use so2fib.Boot.{move_user, prepared, start, usr_main, kernel_start}
use so2fib.Boot.Lists.{tasked, prepared-tasked, start-tasked}
use so2fib.Boot.Sight.{user_place, phys-kernel, phys-user, Fits-user}
use so2fib.Image.{File, Out}
use so2fib.Image.Layout.{Image}

-- The parts of an image, which is loaded from its byte 512 on at `KERNEL_START`, that `main` still
-- needs at the move: the two sizes, and the user program.
pub record IsLoaded (sys_size usr_size : ℕ) (o : Out) (m : Bytes) : Type 0 where
  pub sizes : (i : ℕ) → i < 8 → m (kernel_start + i) ≡ o.at (512 + i)
  pub program : (i : ℕ) → i < usr_size → m (kernel_start + sys_size + i) ≡ o.at (512 + sys_size + i)

same-dword :
    (o m : Bytes) (a b : ℕ)
    → ((i : ℕ) → i < 4 → m (a + i) ≡ o (b + i))
    → dword_at a m ≡ dword_at b o
same-dword o m a b same =
    let first : m a ≡ o b = ap m (omega arith) ∙ same 0 (omega arith) ∙ ap o (omega arith) in
    rw (first, same 1 (omega arith), same 2 (omega arith), same 3 (omega arith)) refl

-- The move, for the sizes that it reads.
move_user-sizes :
    (k : Kernel) (sys_size usr_size : ℕ)
    → dword_at kernel_start (seen k) ≡ sys_size
    → dword_at (kernel_start + 4) (seen k) ≡ usr_size
    → usr_size < 2 ^ 31
    → move_user k ≡ move_data k usr_size (kernel_start + sys_size) usr_main k.ram
unfolding move_user
move_user-sizes k sys_size usr_size s u h = rw (s, u, lt→ltb usr_size (2 ^ 31) h) refl

seen-start : (k : Kernel) (a : ℕ) → seen (start k) a ≡ (move_user (tasked k)).1 (phys (tasked k) a)
unfolding walk
seen-start k a = ap (λ (j : Kernel). seen j a) (start-tasked k)

module _ {sector : File} (sys usr : File) {o : Out} (k : Kernel)
    (zeroed : (j : ℕ) → (k.task j).estado ≡ st_run) (image : Image sector sys usr o)
    (loaded : IsLoaded (length sys) (length usr) o (prepared k).ram) (big : 12 ≤ length sys)
    (below : kernel_start + length sys + length usr ≤ usr_main)
    (small : length usr ≤ 28 * 2 ^ 12) where
  there : IsLoaded (length sys) (length usr) o (tasked k).ram
  there =
      subst (λ (j : Kernel). IsLoaded (length sys) (length usr) o j.ram) (prepared-tasked k) loaded

  seen-sizes : (i : ℕ) → i < 8 → seen (tasked k) (kernel_start + i) ≡ o.at (512 + i)
  seen-sizes i h =
      ap (tasked k).ram (phys-kernel k zeroed (kernel_start + i) (omega arith) (omega arith))
      ∙ there.sizes i h

  sys_size : dword_at kernel_start (seen (tasked k)) ≡ length sys
  sys_size =
      same-dword o.at (seen (tasked k)) kernel_start 512 (λ i h. seen-sizes i (omega arith))
      ∙ image.sys_size
      ∙ omega arith

  usr_size : dword_at (kernel_start + 4) (seen (tasked k)) ≡ length usr
  usr_size =
      same-dword o.at (seen (tasked k)) (kernel_start + 4) 516 (λ i h.
        ap (seen (tasked k)) (omega arith)
        ∙ seen-sizes (4 + i) (omega arith)
        ∙ ap o.at (omega arith))
      ∙ image.usr_size
      ∙ omega arith

  at_end :
      move_user (tasked k)
      ≡ move_data (tasked k) (length usr) (kernel_start + length sys) usr_main (tasked k).ram
  at_end = move_user-sizes (tasked k) (length sys) (length usr) sys_size usr_size (omega arith)

  -- The memory after the move, which goes to its end.
  record Arrived (r : Bool × Bytes) : Type 0 where
    done : r.0 ≡ true
    user : (i : ℕ) → i < length usr → r.1 (phys (tasked k) (usr_main + i)) ≡ get_or usr i 0
    below_user : (x : ℕ) → x < usr_main → r.1 x ≡ (tasked k).ram x

  arrived : Arrived (move_user (tasked k))
  arrived =
      let from = kernel_start + length sys in
      let fits = Fits-user k zeroed (length usr) from (omega arith) (omega arith) small in
      let (done, v) = move_data-Moved (tasked k) (length usr) from usr_main (tasked k).ram fits in
      subst Arrived (sym at_end) (record {
        done = done;
        user = λ i h.
            v.there i h
            ∙ ap (tasked k).ram (phys-kernel k zeroed (from + i) (omega arith) (omega arith))
            ∙ there.program i h
            ∙ image.usr_code i h;
        below_user = λ x h. v.other x (λ i hi same.
            let place : x ≡ user_place (usr_main + i) =
              same ∙ phys-user k zeroed (usr_main + i) (omega arith) (omega arith) in
            absurd (omega (arith, place)));
      })

  -- When `main`, from a memory of zeros, comes to the move with the sizes of an image and its user
  -- program in memory, and system and user program end below 1 MB, and the user program fits into
  -- its 28 pages: the move raises no page fault, the first process sees the whole user program from
  -- `usr_main` on, and the memory below 1 MB stays.
  pub start-Image :
      ((move_user (prepared k)).0 ≡ true)
      × ((i : ℕ) → i < length usr → seen (start k) (usr_main + i) ≡ get_or usr i 0)
      × ((x : ℕ) → x < usr_main → (start k).ram x ≡ (prepared k).ram x)
  start-Image = (
    ap (λ (j : Kernel). (move_user j).0) (prepared-tasked k) ∙ arrived.done,
    λ i h. seen-start k (usr_main + i) ∙ arrived.user i h,
    λ x h.
        ap (λ (j : Kernel). j.ram x) (start-tasked k)
        ∙ arrived.below_user x h
        ∙ ap (λ (j : Kernel). j.ram x) (sym (prepared-tasked k)),
  )
