-- ===== src/Write.antt =====
-- sys.c: `check_fd` and `sys_write`.
pub mod Chunks
use so2fib.Common.{
  ℕ, zero, suc, ◌+◌, ◌==◌, ◌&&◌, Bool, not, ℤ, pos, negsuc, neg, eqb_ℤ, if◌then◌else◌,
}
use so2fib.Utils.{Bytes, copy_from_user}
use so2fib.Console.{Screen, sys_write_console}
use so2fib.Semaphores.{einval}

abbrev pub ebadf : ℤ
ebadf = neg 9

abbrev pub eacces : ℤ
eacces = neg 13

abbrev pub efault : ℤ
efault = neg 14

-- `LECTURA` and `ESCRIPTURA`
abbrev pub lectura : ℤ
lectura = pos 0

abbrev pub escriptura : ℤ
escriptura = pos 1

unfoldable pub check_fd : ℤ → ℤ → ℤ
check_fd fd permissions =
    if not (eqb_ℤ fd (pos 1)) && not (eqb_ℤ fd (pos 0))
    then ebadf
    else if not (eqb_ℤ permissions escriptura) && eqb_ℤ fd (pos 1)
    then eacces
    else if not (eqb_ℤ permissions lectura) && eqb_ℤ fd (pos 0)
    then eacces
    else pos 0

-- The memory and the screen.
pub record Io : Type 0 where
  pub memory : Bytes
  pub screen : Screen

-- `copy_from_user(buffer, buff, size); sys_write_console(buff, size)`
unfoldable pub write_chunk : ℕ → ℕ → ℕ → Io → ℕ × Io
write_chunk size buffer buff io =
    let (_, m) = copy_from_user size buffer buff io.memory in
    let (n, s) = sys_write_console buff size m io.screen in (n, record { memory = m; screen = s })

-- The loop and the end of `sys_write`, with `TAMWRITE` 4.
unfoldable pub write_loop : ℕ → ℕ → ℕ → ℕ → Io → ℕ × Io
write_loop (suc (suc (suc (suc size)))) ret buffer buff io =
    let (n, io_1) = write_chunk 4 buffer buff io in write_loop size (ret + n) (buffer + 4) buff io_1
write_loop size ret buffer buff io =
    let (n, io_1) = write_chunk size buffer buff io in (ret + n, io_1)

-- `buff` is the address of the local array.
unfoldable pub sys_write : ℤ → ℕ → ℤ → ℕ → Io → ℤ × Io
sys_write fd buffer (negsuc n) buff io =
    if not (eqb_ℤ (check_fd fd escriptura) (pos 0))
    then (check_fd fd escriptura, io)
    else if buffer == 0
    then (efault, io)
    else (einval, io)
sys_write fd buffer (pos size) buff io =
    let (ret, io_1) = write_loop size 0 buffer buff io in
    if not (eqb_ℤ (check_fd fd escriptura) (pos 0))
    then (check_fd fd escriptura, io)
    else if buffer == 0
    then (efault, io)
    else if size == 0
    then (pos 0, io)
    else (pos ret, io_1)
