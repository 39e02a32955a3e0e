-- ===== src/Utils.antt =====
-- utils.c: the copies between a task's memory and the kernel's, and the check of a user pointer.
pub mod Copy
pub mod Access
use so2fib.Common.{
  ℕ, zero, suc, ◌+◌, ◌*◌, ◌/◌, ◌%◌, ◌^◌, Bool, true, false, ◌&&◌, ℤ, pos, if◌then◌else◌, ltb, leb,
  update,
}

-- The bytes of the address space. Pointers stay below 2 ^ 32.
abbrev pub Bytes : Type 0
Bytes = ℕ → ℕ

-- `*q++ = *p++` on `DWord`s: four bytes are read, then written.
unfoldable pub copy_dword : ℕ → ℕ → Bytes → Bytes
copy_dword p q m =
    update (update (update (update m q (m p)) (q + 1) (m (p + 1))) (q + 2) (m (p + 2))) (q + 3)
      (m (p + 3))

-- The second loop, for the bytes that are left.
unfoldable pub copy_bytes : ℕ → ℕ → ℕ → Bytes → Bytes
copy_bytes zero p q m = m
copy_bytes (suc size) p q m = copy_bytes size (p + 1) (q + 1) (update m q (m p))

-- `*p` for a pointer to an `unsigned int`
abbrev pub dword_at : ℕ → Bytes → ℕ
dword_at p m = m p + 2 ^ 8 * m (p + 1) + 2 ^ 16 * m (p + 2) + 2 ^ 24 * m (p + 3)

-- `copy_data(start, dest, size)`; a negative size copies nothing, like 0. More than four bytes
-- to go: the first loop copies a `DWord`.
unfoldable pub copy_data : ℕ → ℕ → ℕ → Bytes → Bytes
copy_data (suc (suc (suc (suc (suc size))))) start dest m =
    copy_data (suc size) (start + 4) (dest + 4) (copy_dword start dest m)
copy_data size start dest m = copy_bytes size start dest m

unfoldable pub copy_from_user : ℕ → ℕ → ℕ → Bytes → ℤ × Bytes
copy_from_user size start dest m = (pos 0, copy_data size start dest m)

unfoldable pub copy_to_user : ℕ → ℕ → ℕ → Bytes → ℤ × Bytes
copy_to_user size start dest m = (pos 0, copy_data size start dest m)

-- `VERIFY_READ` and `VERIFY_WRITE`
pub data Verify : Type 0 where
  verify_read verify_write : Verify

abbrev pub user_first_page : ℕ
user_first_page = 256

abbrev pub num_pag_code : ℕ
num_pag_code = 8

abbrev pub num_pag_data : ℕ
num_pag_data = 20

-- The `default` case of the `switch`, which the case of `VERIFY_WRITE` runs into.
unfoldable pub user_pages : ℕ → ℕ → Bool
user_pages addr_ini addr_fin =
    leb user_first_page addr_ini && leb addr_fin (user_first_page + num_pag_code + num_pag_data)

unfoldable pub access_ok : Verify → ℕ → ℕ → Bool
access_ok type addr size =
    let addr_ini = addr / 2 ^ 12 in
    let addr_fin = ((addr + size) % 2 ^ 32) / 2 ^ 12 in
    if ltb addr_fin addr_ini then false else elim type [
      | verify_write ↦
          if leb (user_first_page + num_pag_code) addr_ini
            && leb addr_fin (user_first_page + num_pag_code + num_pag_data)
          then true
          else user_pages addr_ini addr_fin
      | verify_read ↦ user_pages addr_ini addr_fin
    ]
