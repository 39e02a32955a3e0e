-- ===== src/Image.antt =====
-- build.c: the image that the host tool joins from the boot sector, the system and the user program.
pub mod Output
pub mod Layout
pub mod Loaded
use so2fib.Common.{
  ℕ, zero, suc, ◌+◌, ◌-◌, ◌*◌, ◌/◌, ◌%◌, ◌^◌, ◌==◌, ◌&&◌, ◌||◌, not, Bool, true, false, Option,
  none, some, List, [], ◌∷◌, if◌then◌else◌, ltb, update, take, drop, length, get_or, set,
}

-- A file is its bytes. An open that fails is `none`; a read returns what is left, up to its size.
abbrev pub File : Type 0
File = List ℕ

-- Standard output, a file: the position, and the byte at each offset.
pub record Out : Type 0 where
  pub pos : ℕ
  pub at : ℕ → ℕ

-- `write(1, ...)`, which takes all the bytes
unfoldable pub put : File → Out → Out
put [] o = o
put (b ∷ bytes) o = put bytes (record { pos = o.pos + 1; at = update o.at o.pos b })

-- `lseek(1, pos, SEEK_SET)`
abbrev pub seek : ℕ → Out → Out
seek pos o = record o { pos = pos }

-- `lb[i]` is not 0.
abbrev pub is_set_word : File → ℕ → Bool
is_set_word buf i = not (
    get_or buf (4 * i) 0 == 0
    && get_or buf (4 * i + 1) 0 == 0
    && get_or buf (4 * i + 2) 0 == 0
    && get_or buf (4 * i + 3) 0 == 0)

-- `buf` is not as long, or does not start with the bytes of `hdr`.
unfoldable pub differs : File → File → Bool
differs [] buf = false
differs (h ∷ hdr) [] = true
differs (h ∷ hdr) (b ∷ buf) = not (h == b) || differs hdr buf

abbrev pub minix_header_len : ℕ
minix_header_len = 32

abbrev pub hdr : File
hdr = 1 ∷ 3 ∷ 16 ∷ 4 ∷ 32 ∷ 0 ∷ 0 ∷ 0 ∷ []

-- `minix_open`: what can be read behind the header; `none` where it dies.
unfoldable pub minix_open : Option File → Option File
minix_open none = none
minix_open (some file) =
    let buf = take minix_header_len file in
    if not (length buf == minix_header_len)
      || differs hdr buf
      || is_set_word buf 5
      || is_set_word buf 3
      || is_set_word buf 4
      || is_set_word buf 7
    then none
    else some (drop minix_header_len file)

-- The size of `buf`.
abbrev pub buf_size : ℕ
buf_size = 1024

-- The boot sector's part of `main`, with root device 0.
unfoldable pub copy_boot : Option File → Out → Option Out
copy_boot boot o = elim (minix_open boot) [
  | none ↦ none
  | some rest ↦
      let buf = take buf_size rest in
      if not (length buf == 512) || not (get_or buf 510 0 == 85) || not (get_or buf 511 0 == 170)
      then none
      else some (put (set (set buf 508 0) 509 0) o)
]

-- A loop that copies a file, with `sz` bytes to go; `none` where it dies or the fuel runs out.
unfoldable pub copy_file : ℕ → ℕ → File → Out → Option Out
copy_file zero sz file o = none
copy_file (suc fuel) sz file o =
    let l : ℕ = if ltb buf_size sz then buf_size else sz in
    let rest = copy_file fuel (sz - l) (drop l file) (put (take l file) o) in
    if sz == 0 then some o else if not (length (take l file) == l) then none else rest

-- The low bytes of a size.
abbrev pub byte_of : ℕ → ℕ → ℕ
byte_of i n = (n / 2 ^ (8 * i)) % 256

-- `buf[0..3]` with a size of 24 bits
unfoldable pub size_bytes : ℕ → File
size_bytes n = byte_of 0 n ∷ byte_of 1 n ∷ byte_of 2 n ∷ 0 ∷ []

-- The end of `main`: the sizes go into the image.
unfoldable pub put_sizes : ℕ → ℕ → Out → Out
put_sizes sys_size usr_size o =
    let im_size = ((sys_size + usr_size + 15) % 2 ^ 32) / 16 in
    let o_1 = put (byte_of 0 im_size ∷ byte_of 1 im_size ∷ []) (seek 500 o) in
    let o_2 = put (size_bytes sys_size) (seek 512 o_1) in
    let o_3 = put (size_bytes usr_size) (seek 516 o_2) in put (size_bytes 32299) (seek 520 o_3)

-- A file that is opened, measured and copied: its size and the output.
unfoldable pub append_file : Option File → Out → Option (ℕ × Out)
append_file none o = none
append_file (some file) o =
    let sz = length file % 2 ^ 32 in
    elim (copy_file (suc sz) sz file o) [ none ↦ none | some o_1 ↦ some (sz, o_1) ]

-- `main` with its three arguments; `none` where it dies.
unfoldable pub build : Option File → Option File → Option File → Out → Option Out
build boot sys usr o = elim (copy_boot boot o) [
  | none ↦ none
  | some o_1 ↦ elim (append_file sys o_1) [
    | none ↦ none
    | some (sys_size, o_2) ↦ elim (append_file usr o_2) [
      | none ↦ none
      | some (usr_size, o_3) ↦ some (put_sizes sys_size usr_size o_3)
    ]
  ]
]
