-- ===== src/Write/Chunks.antt =====
-- What a `write` prints.
use so2fib.Common.{
  ℕ, zero, suc, ◌+◌, ◌≤◌, ◌<◌, ◌≡◌, ◌≢◌, refl, sym, ap, ap₂, ◌∙◌, ◌⊎◌, ◌∷◌, ◌++◌, append_assoc,
  arith, pos, subst, ==-ne, eqb_ℤ, append-nil,
}
use so2fib.Utils.{Bytes, copy_data, copy_from_user}
use so2fib.Utils.Copy.{copied, copy_data-copied}
use so2fib.Console.{sys_write_console}
use so2fib.Console.Cursor.{OnScreen, OutOfVideo, bytes_at, print_bytes-printk, printk-port}
use so2fib.Write.{Io, write_chunk, write_loop, sys_write, check_fd}

-- `io'` is `io` after `size` bytes from `buffer` on were printed, by way of the four bytes at `buff`.
pub record Wrote (size buffer buff : ℕ) (io io' : Io) : Type 0 where
  pub on_screen : OnScreen io'.screen
  pub video : (a : ℕ) → OutOfVideo a → io'.screen.video a ≡ io.screen.video a
  pub port : io'.screen.port ≡ io.screen.port ++ bytes_at size buffer io.memory
  pub memory : (a : ℕ) → (a < buff) ⊎ (buff + 4 ≤ a) → io'.memory a ≡ io.memory a

-- The bytes to print are not in the local array.
abbrev pub IsOutside : ℕ → ℕ → ℕ → Type 0
IsOutside size buffer buff = (buffer + size ≤ buff) ⊎ (buff + 4 ≤ buffer)

bytes_at-same :
    (n a b : ℕ) (m m' : Bytes)
    → ((j : ℕ) → j < n → m' (b + j) ≡ m (a + j))
    → bytes_at n b m' ≡ bytes_at n a m
bytes_at-same zero a b m m' h = refl
bytes_at-same (suc n) a b m m' h =
    ap₂ ◌∷◌ (ap m' (omega arith) ∙ h 0 (omega arith) ∙ ap m (omega arith)) (
      bytes_at-same n (a + 1) (b + 1) m m'
        (λ j hj. ap m' (omega arith) ∙ h (suc j) (omega arith) ∙ ap m (omega arith)))

bytes_at-append :
    (n k a : ℕ) (m : Bytes) → bytes_at n a m ++ bytes_at k (a + n) m ≡ bytes_at (n + k) a m
bytes_at-append zero k a m = ap₂ (λ u v. bytes_at u v m) (omega arith) (omega arith)
bytes_at-append (suc n) k a m =
    let e : a + suc n ≡ a + 1 + n = omega arith in
    let f : suc n + k ≡ suc (n + k) = omega arith in
    rw (e, f) (ap (λ u. m a ∷ u) (bytes_at-append n k (a + 1) m))

write_chunk-Wrote :
    (size buffer buff : ℕ) (io : Io)
    → size ≤ 4
    → IsOutside size buffer buff
    → OnScreen io.screen
    → Wrote size buffer buff io (write_chunk size buffer buff io).1
unfolding write_chunk copy_from_user sys_write_console
write_chunk-Wrote size buffer buff io h out on =
    let m' = copy_data size buffer buff io.memory in
    let at : (a : ℕ) → m' a ≡ copied size buffer buff io.memory a =
      λ a. copy_data-copied size buffer buff io.memory a (ground arith) in
    let same : bytes_at size buff m' ≡ bytes_at size buffer io.memory =
      bytes_at-same size buffer buff io.memory m' (λ j hj. at (buff + j) ∙ ground arith) in
    let (on', video, port) = printk-port (bytes_at size buff m') io.screen on in
    record {
      on_screen = rw (print_bytes-printk size buff m' io.screen) on';
      video = λ a oa. rw (print_bytes-printk size buff m' io.screen) (video a oa);
      port =
          rw (print_bytes-printk size buff m' io.screen)
            (port ∙ ap (λ u. io.screen.port ++ u) same);
      memory = λ a oa. at a ∙ ground arith;
    }

Wrote-append :
    (n k buffer buff : ℕ) (io io_1 io_2 : Io)
    → IsOutside (n + k) buffer buff
    → Wrote n buffer buff io io_1
    → Wrote k (buffer + n) buff io_1 io_2
    → Wrote (n + k) buffer buff io io_2
Wrote-append n k buffer buff io io_1 io_2 out v w = record {
  on_screen = w.on_screen;
  video = λ a oa. w.video a oa ∙ v.video a oa;
  port =
      w.port
      ∙ ap₂ ◌++◌ v.port (
          bytes_at-same k (buffer + n) (buffer + n) io.memory io_1.memory
            (λ j hj. v.memory (buffer + n + j) (ground arith)))
      ∙ append_assoc io.screen.port (bytes_at n buffer io.memory)
          (bytes_at k (buffer + n) io.memory)
      ∙ ap (λ u. io.screen.port ++ u) (bytes_at-append n k buffer io.memory);
  memory = λ a oa. w.memory a oa ∙ v.memory a oa;
}

write_loop-Wrote :
    (size ret buffer buff : ℕ) (io : Io)
    → IsOutside size buffer buff
    → OnScreen io.screen
    → ((write_loop size ret buffer buff io).0 ≡ ret + size)
      × Wrote size buffer buff io (write_loop size ret buffer buff io).1
unfolding write_loop write_chunk sys_write_console
write_loop-Wrote zero ret buffer buff io out on =
    (refl, write_chunk-Wrote 0 buffer buff io (omega arith) out on)
write_loop-Wrote (suc zero) ret buffer buff io out on =
    (refl, write_chunk-Wrote 1 buffer buff io (omega arith) out on)
write_loop-Wrote (suc (suc zero)) ret buffer buff io out on =
    (refl, write_chunk-Wrote 2 buffer buff io (omega arith) out on)
write_loop-Wrote (suc (suc (suc zero))) ret buffer buff io out on =
    (refl, write_chunk-Wrote 3 buffer buff io (omega arith) out on)
write_loop-Wrote (suc (suc (suc (suc size)))) ret buffer buff io out on =
    let first = write_chunk-Wrote 4 buffer buff io (omega arith) (ground arith) on in
    let (count, rest) =
      write_loop-Wrote size (ret + 4) (buffer + 4) buff (write_chunk 4 buffer buff io).1
        (ground arith) first.on_screen in
    let e : 4 + size ≡ suc (suc (suc (suc size))) = omega arith in
    let io_1 = (write_chunk 4 buffer buff io).1 in
    (
      count ∙ omega arith,
      subst (λ n. Wrote n buffer buff io (write_loop size (ret + 4) (buffer + 4) buff io_1).1) e
          (Wrote-append 4 size buffer buff io io_1
            (write_loop size (ret + 4) (buffer + 4) buff io_1).1 (omega arith) first rest),
    )

-- A buffer that is not NULL, on the output channel: the loop runs unless there is nothing to print.
sys_write-empty :
    (buffer buff : ℕ) (io : Io)
    → buffer ≢ 0
    → sys_write (pos 1) buffer (pos 0) buff io ≡ (pos 0, io)
unfolding sys_write check_fd eqb_ℤ
sys_write-empty buffer buff io ne = rw (==-ne buffer 0 ne) refl

sys_write-loop :
    (size buffer buff : ℕ) (io : Io)
    → buffer ≢ 0
    → size ≢ 0
    → sys_write (pos 1) buffer (pos size) buff io
      ≡ (pos (write_loop size 0 buffer buff io).0, (write_loop size 0 buffer buff io).1)
unfolding sys_write check_fd eqb_ℤ
sys_write-loop size buffer buff io ne h = rw (==-ne buffer 0 ne, ==-ne size 0 h) refl

-- `write(1, buffer, size)` with a buffer that is not NULL and does not meet the local array returns
-- `size`, prints the buffer's `size` bytes in order, as they were, keeps the cursor on the screen,
-- and writes nowhere but in video memory and in the local array.
pub sys_write-Wrote :
    (size buffer buff : ℕ) (io : Io)
    → buffer ≢ 0
    → IsOutside size buffer buff
    → OnScreen io.screen
    → ((sys_write (pos 1) buffer (pos size) buff io).0 ≡ pos size)
      × Wrote size buffer buff io (sys_write (pos 1) buffer (pos size) buff io).1
sys_write-Wrote zero buffer buff io ne out on = rw (sys_write-empty buffer buff io ne) (
  refl,
  record {
    on_screen = on;
    video = λ a oa. refl;
    port = sym (append-nil io.screen.port);
    memory = λ a oa. refl;
  },
)
sys_write-Wrote (suc size) buffer buff io ne out on =
    let (ret, wrote) = write_loop-Wrote (suc size) 0 buffer buff io out on in
    rw (sys_write-loop (suc size) buffer buff io ne (omega arith))
      (ap pos (ret ∙ omega arith), wrote)
