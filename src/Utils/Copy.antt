-- ===== src/Utils/Copy.antt =====
-- What a copy leaves in memory.
use so2fib.Common.{
  ℕ, zero, suc, ◌+◌, ◌-◌, ◌≤◌, ◌≡◌, ◌∙◌, ◌⊎◌, ◌&&◌, arith, if◌then◌else◌, ltb, leb, update,
}
use so2fib.Utils.{Bytes, copy_dword, copy_bytes, copy_data}

-- The destination does not begin inside the source.
abbrev pub IsApart : ℕ → ℕ → ℕ → Type 0
IsApart start dest size = (dest ≤ start) ⊎ (start + size ≤ dest)

-- The memory that a copy is to leave: at the destination, the source's bytes as they were.
abbrev pub copied : ℕ → ℕ → ℕ → Bytes → Bytes
copied size start dest m a =
    if leb dest a && ltb a (dest + size) then m (start + (a - dest)) else m a

copy_bytes-copied :
    (size start dest : ℕ) (m : Bytes) (a : ℕ)
    → IsApart start dest size
    → copy_bytes size start dest m a ≡ copied size start dest m a
unfolding copy_bytes
copy_bytes-copied zero start dest m a h = ground arith
copy_bytes-copied (suc size) start dest m a h =
    copy_bytes-copied size (start + 1) (dest + 1) (update m dest (m start)) a (ground arith)
    ∙ ground arith

copy_dword-copied :
    (start dest : ℕ) (m : Bytes) (a : ℕ) → copy_dword start dest m a ≡ copied 4 start dest m a
unfolding copy_dword
copy_dword-copied start dest m a = ground arith

-- The first round of the first loop, and a copy of the rest.
dword-copied :
    (size start dest : ℕ) (m : Bytes) (a : ℕ)
    → IsApart start dest (suc (suc (suc (suc (suc size)))))
    → copied (suc size) (start + 4) (dest + 4) (copy_dword start dest m) a
      ≡ copied (suc (suc (suc (suc (suc size))))) start dest m a
dword-copied size start dest m a h =
    rw
      (
        copy_dword-copied start dest m (start + 4 + (a - (dest + 4))),
        copy_dword-copied start dest m a,
      )
      (ground arith)

-- `copy_data` leaves at the destination the bytes of the source as they were, and every other byte
-- as it was, when the destination does not begin inside the source.
pub copy_data-copied :
    (size start dest : ℕ) (m : Bytes) (a : ℕ)
    → IsApart start dest size
    → copy_data size start dest m a ≡ copied size start dest m a
unfolding copy_data
copy_data-copied zero start dest m a h = copy_bytes-copied 0 start dest m a h
copy_data-copied (suc zero) start dest m a h = copy_bytes-copied 1 start dest m a h
copy_data-copied (suc (suc zero)) start dest m a h = copy_bytes-copied 2 start dest m a h
copy_data-copied (suc (suc (suc zero))) start dest m a h = copy_bytes-copied 3 start dest m a h
copy_data-copied (suc (suc (suc (suc zero)))) start dest m a h =
    copy_bytes-copied 4 start dest m a h
copy_data-copied (suc (suc (suc (suc (suc size))))) start dest m a h =
    copy_data-copied (suc size) (start + 4) (dest + 4) (copy_dword start dest m) a (ground arith)
    ∙ dword-copied size start dest m a h
