-- ===== src/Libc.antt =====
-- libc.c: `perror`, `itoa` and `strlen`, on arrays of `char`s given as functions of the index.
pub mod Itoa
use so2fib.Common.{
  ℕ, zero, suc, ◌+◌, ◌-◌, ◌/◌, ◌%◌, ◌==◌, Option, none, some, ℤ, pos, negsuc, eqb_ℤ, List, [], ◌∷◌,
  if◌then◌else◌, update,
}

abbrev pub Chars : Type 0
Chars = ℕ → ℕ

-- The first loop of `itoa`: the digits of `a`, the lowest first, from index `i` on, with the index
-- behind the last. `none` when the fuel runs out.
unfoldable pub put_digits : ℕ → ℕ → ℕ → Chars → Option (ℕ × Chars)
put_digits fuel zero i b = some (i, b)
put_digits zero (suc a) i b = none
put_digits (suc fuel) (suc a) i b =
    put_digits fuel (suc a / 10) (i + 1) (update b i (suc a % 10 + 48))

-- `n` rounds of the second loop from `i1` on: the characters `i1` and `i - i1 - 1` change places.
unfoldable pub swap_ends : ℕ → ℕ → ℕ → Chars → Chars
swap_ends zero i1 i b = b
swap_ends (suc n) i1 i b =
    swap_ends n (i1 + 1) i (update (update b i1 (b (i - i1 - 1))) (i - i1 - 1) (b i1))

-- The end of `itoa`, after the first loop.
unfoldable pub finish : ℕ → Chars → Chars
finish i b = update (swap_ends (i / 2) 0 i b) i 0

-- A negative number has no digits; the fuel is the number itself.
unfoldable pub itoa : ℤ → Chars → Option Chars
itoa (negsuc n) b = some (finish 0 b)
itoa (pos zero) b = some (update (update b 0 48) 1 0)
itoa (pos (suc a)) b = elim (put_digits (suc a) (suc a) 0 b) [
  | none ↦ none
  | some (i, c) ↦ some (finish i c)
]

-- The loop of `strlen` from index `i` on, for at most `fuel` characters.
unfoldable pub strlen_from : ℕ → ℕ → Chars → Option ℕ
strlen_from zero i a = none
strlen_from (suc fuel) i a =
    let rest = strlen_from fuel (i + 1) a in if a i == 0 then some i else rest

unfoldable pub strlen : ℕ → Chars → Option ℕ
strlen fuel a = strlen_from fuel 0 a

-- A string constant, ended by 0.
unfoldable pub text : List ℕ → Chars
text [] i = 0
text (c ∷ cs) zero = c
text (c ∷ cs) (suc i) = text cs i

-- The messages of `perror`, in UTF-8.
abbrev pub no_existe_syscall : List ℕ
no_existe_syscall =
    78 ∷ 111 ∷ 32 ∷ 101 ∷ 120 ∷ 105 ∷ 115 ∷ 116 ∷ 101 ∷ 32 ∷ 115 ∷ 121 ∷ 115 ∷ 99 ∷ 97 ∷ 108 ∷ 108
    ∷ []

abbrev pub mal_descriptor : List ℕ
mal_descriptor = 77 ∷ 97 ∷ 108 ∷ 32 ∷ 100 ∷ 101 ∷ 115 ∷ 99 ∷ 114 ∷ 105 ∷ 112 ∷ 116 ∷ 111 ∷ 114 ∷ []

abbrev pub no_acceso : List ℕ
no_acceso = 78 ∷ 111 ∷ 32 ∷ 97 ∷ 99 ∷ 99 ∷ 101 ∷ 115 ∷ 111 ∷ []

abbrev pub mal_tamano : List ℕ
mal_tamano = 77 ∷ 97 ∷ 108 ∷ 32 ∷ 116 ∷ 97 ∷ 109 ∷ 97 ∷ 195 ∷ 177 ∷ 111 ∷ []

abbrev pub malos_parametros : List ℕ
malos_parametros =
    77 ∷ 97 ∷ 108 ∷ 111 ∷ 115 ∷ 32 ∷ 112 ∷ 97 ∷ 114 ∷ 97 ∷ 109 ∷ 101 ∷ 116 ∷ 114 ∷ 111 ∷ 115 ∷ []

abbrev pub no_error : List ℕ
no_error = 78 ∷ 111 ∷ 32 ∷ 101 ∷ 114 ∷ 114 ∷ 111 ∷ 114 ∷ []

-- The error numbers of include/errno.h that `perror` knows.
abbrev pub ebadf_no : ℤ
ebadf_no = pos 9

abbrev pub eacces_no : ℤ
eacces_no = pos 13

abbrev pub efault_no : ℤ
efault_no = pos 14

abbrev pub einval_no : ℤ
einval_no = pos 22

abbrev pub enosys_no : ℤ
enosys_no = pos 38

-- `perror` with `errno`: the characters and the size that it gives to `write` for descriptor 1; `none`
-- when `strlen` runs out of fuel.
unfoldable pub perror : ℤ → Option (Chars × ℕ)
perror errno =
    if eqb_ℤ errno enosys_no
    then some (text no_existe_syscall, 17)
    else if eqb_ℤ errno ebadf_no
    then some (text mal_descriptor, 14)
    else if eqb_ℤ errno eacces_no
    then some (text no_acceso, 9)
    else if eqb_ℤ errno efault_no
    then some (text mal_tamano, 10)
    else if eqb_ℤ errno einval_no
    then elim (strlen 17 (text malos_parametros)) [
      | none ↦ none
      | some n ↦ some (text malos_parametros, n)
    ]
    else some (text no_error, 8)
