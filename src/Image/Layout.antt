-- ===== src/Image/Layout.antt =====
-- The image that `main` of build.c writes.
use so2fib.Common.{
  ℕ, suc, ◌+◌, ◌/◌, ◌%◌, ◌^◌, ◌≤◌, ◌<◌, ◌≡◌, ◌≢◌, refl, ◌∙◌, ap, sym, Option, none, some, [], ◌∷◌,
  length, get_or, set, length-set, get_or-set_self, get_or-set_ne, arith, ◌⊎◌, inl, inr,
}
use so2fib.Image.{
  File, Out, put, seek, minix_open, buf_size, copy_boot, copy_file, size_bytes, put_sizes,
  append_file, build, byte_of,
}
use so2fib.Utils.{dword_at}
use so2fib.Image.Output.{pos-put, at-put_inside, at-put_outside, copy_file-put, take_all}

append_file-put :
    (file : File) (o : Out)
    → length file < 2 ^ 32
    → append_file (some file) o ≡ some (length file, put file o)
unfolding append_file put
append_file-put file o h = sized (length file % 2 ^ 32) (omega arith)
  where
    sized :
        (sz : ℕ)
        → sz ≡ length file
        → ◌≡◌ {A = Option (ℕ × Out)}
            (elim (copy_file (suc sz) sz file o) [ none ↦ none | some o_1 ↦ some (sz, o_1) ])
            (some (length file, put file o))
    sized sz e =
        rw (copy_file-put (suc sz) sz file o (sym e) (omega arith))
          (ap (λ n. some (n, put file o)) e)

-- A file that build.c takes for the boot sector.
pub record IsBootSector (sector : File) : Type 0 where
  pub all : length sector ≡ 512
  pub low : get_or sector 510 0 ≡ 85
  pub high : get_or sector 511 0 ≡ 170

-- The sector with root device 0
abbrev pub rooted : File → File
rooted sector = set (set sector 508 0) 509 0

rooted-other :
    (sector : File) {i : ℕ} → i ≢ 508 → i ≢ 509 → get_or (rooted sector) i 0 ≡ get_or sector i 0
rooted-other sector first second =
    get_or-set_ne (set sector 508 0) 0 0 (λ e. second (sym e))
    ∙ get_or-set_ne sector 0 0 (λ e. first (sym e))

copy_boot-put :
    (boot : Option File) {sector : File} (o : Out)
    → minix_open boot ≡ some sector
    → IsBootSector sector
    → copy_boot boot o ≡ some (put (rooted sector) o)
unfolding copy_boot put
copy_boot-put boot {sector} o opens s =
    rw (copy_boot, opens, take_all buf_size sector (omega (arith, s.all)), s.all, s.low, s.high)
      refl

-- The size of the image in units of 16 bytes, as it is written
abbrev pub im_bytes : ℕ → ℕ → File
im_bytes sys_size usr_size =
    let im_size = ((sys_size + usr_size + 15) % 2 ^ 32) / 16 in
    byte_of 0 im_size ∷ byte_of 1 im_size ∷ []

-- The output after the first seek and write of `put_sizes`, after the second, and after the third.
module _ (sys_size usr_size : ℕ) (o : Out) where
  abbrev after_im : Out
  after_im = put (im_bytes sys_size usr_size) (seek 500 o)

  abbrev after_sys : Out
  after_sys = put (size_bytes sys_size) (seek 512 after_im)

  abbrev after_usr : Out
  after_usr = put (size_bytes usr_size) (seek 516 after_sys)

  -- Where the sizes do not go
  put_sizes-outside :
      (a : ℕ)
      → (a < 500) ⊎ ((502 ≤ a) × (a < 512)) ⊎ (524 ≤ a)
      → (put_sizes sys_size usr_size o).at a ≡ o.at a
  unfolding put_sizes size_bytes
  put_sizes-outside a h =
      at-put_outside (size_bytes 32299) (seek 520 after_usr) a (ground (arith, h))
      ∙ at-put_outside (size_bytes usr_size) (seek 516 after_sys) a (ground (arith, h))
      ∙ at-put_outside (size_bytes sys_size) (seek 512 after_im) a (ground (arith, h))
      ∙ at-put_outside (im_bytes sys_size usr_size) (seek 500 o) a (ground (arith, h))

  put_sizes-im :
      (i : ℕ)
      → i < 2
      → (put_sizes sys_size usr_size o).at (500 + i) ≡ get_or (im_bytes sys_size usr_size) i 0
  unfolding put_sizes size_bytes
  put_sizes-im i h =
      at-put_outside (size_bytes 32299) (seek 520 after_usr) (500 + i) (inl (omega arith))
      ∙ at-put_outside (size_bytes usr_size) (seek 516 after_sys) (500 + i) (inl (omega arith))
      ∙ at-put_outside (size_bytes sys_size) (seek 512 after_im) (500 + i) (inl (omega arith))
      ∙ at-put_inside (im_bytes sys_size usr_size) (seek 500 o) i h

  put_sizes-sys :
      (i : ℕ)
      → i < 4
      → (put_sizes sys_size usr_size o).at (512 + i) ≡ get_or (size_bytes sys_size) i 0
  unfolding put_sizes size_bytes
  put_sizes-sys i h =
      at-put_outside (size_bytes 32299) (seek 520 after_usr) (512 + i) (inl (omega arith))
      ∙ at-put_outside (size_bytes usr_size) (seek 516 after_sys) (512 + i) (inl (omega arith))
      ∙ at-put_inside (size_bytes sys_size) (seek 512 after_im) i h

  put_sizes-usr :
      (i : ℕ)
      → i < 4
      → (put_sizes sys_size usr_size o).at (516 + i) ≡ get_or (size_bytes usr_size) i 0
  unfolding put_sizes size_bytes
  put_sizes-usr i h =
      at-put_outside (size_bytes 32299) (seek 520 after_usr) (516 + i) (inl (omega arith))
      ∙ at-put_inside (size_bytes usr_size) (seek 516 after_sys) i h

size_bytes-dword :
    (a n : ℕ) (f : ℕ → ℕ)
    → ((i : ℕ) → i < 4 → f (a + i) ≡ get_or (size_bytes n) i 0)
    → dword_at a f ≡ n % 2 ^ 24
unfolding size_bytes
size_bytes-dword a n f e =
    let first : a ≡ a + 0 = omega arith in
    rw (ap f first ∙ e 0 (omega arith), e 1 (omega arith), e 2 (omega arith), e 3 (omega arith))
      (omega arith)

-- The bytes of an image.
pub record Image (sector sys usr : File) (o : Out) : Type 0 where
  pub boot_code : (i : ℕ) → i < 500 → o.at i ≡ get_or sector i 0
  pub im_size : (i : ℕ) → i < 2 → o.at (500 + i) ≡ get_or (im_bytes (length sys) (length usr)) i 0
  pub root : (o.at 508 ≡ 0) × (o.at 509 ≡ 0)
  pub flag : (o.at 510 ≡ 85) × (o.at 511 ≡ 170)
  pub sys_size : dword_at 512 o.at ≡ length sys % 2 ^ 24
  pub usr_size : dword_at 516 o.at ≡ length usr % 2 ^ 24
  pub sys_code : (i : ℕ) → 12 ≤ i → i < length sys → o.at (512 + i) ≡ get_or sys i 0
  pub usr_code : (i : ℕ) → i < length usr → o.at (512 + length sys + i) ≡ get_or usr i 0

-- What `main` has copied before it writes the sizes
module _ (sector sys usr : File) (o : Out) (at_start : o.pos ≡ 0)
    (is_boot : IsBootSector sector) where
  abbrev joined : Out
  joined = put usr (put sys (put (rooted sector) o))

  length-rooted : length (rooted sector) ≡ 512
  length-rooted = length-set (set sector 508 0) 509 0 ∙ length-set sector 508 0 ∙ is_boot.all

  -- The positions after the boot sector, and after the system
  pos-sector : (put (rooted sector) o).pos ≡ 512
  pos-sector = pos-put (rooted sector) o ∙ omega (arith, at_start, length-rooted)

  pos-sys : (put sys (put (rooted sector) o)).pos ≡ 512 + length sys
  pos-sys = pos-put sys (put (rooted sector) o) ∙ omega (arith, pos-sector)

  joined-sector : (i : ℕ) → i < 512 → joined.at i ≡ get_or (rooted sector) i 0
  joined-sector i h =
      at-put_outside usr (put sys (put (rooted sector) o)) i (inl (omega (arith, pos-sys)))
      ∙ at-put_outside sys (put (rooted sector) o) i (inl (omega (arith, pos-sector)))
      ∙ ap (put (rooted sector) o).at (omega (arith, at_start))
      ∙ at-put_inside (rooted sector) o i (omega (arith, length-rooted))

  joined-sys : (i : ℕ) → i < length sys → joined.at (512 + i) ≡ get_or sys i 0
  joined-sys i h =
      at-put_outside usr (put sys (put (rooted sector) o)) (512 + i) (inl (omega (arith, pos-sys)))
      ∙ ap (λ n. (put sys (put (rooted sector) o)).at (n + i)) (sym pos-sector)
      ∙ at-put_inside sys (put (rooted sector) o) i h

  joined-usr : (i : ℕ) → i < length usr → joined.at (512 + length sys + i) ≡ get_or usr i 0
  joined-usr i h =
      ap (λ n. joined.at (n + i)) (sym pos-sys)
      ∙ at-put_inside usr (put sys (put (rooted sector) o)) i h

  joined-Image : 12 ≤ length sys → Image sector sys usr (put_sizes (length sys) (length usr) joined)
  joined-Image big =
      let m : ℕ = length sys in
      let n : ℕ = length usr in
      record {
        boot_code = λ i h.
            put_sizes-outside m n joined i (inl h)
            ∙ joined-sector i (omega arith)
            ∙ rooted-other sector (omega arith) (omega arith);
        im_size = put_sizes-im m n joined;
        root = (
          put_sizes-outside m n joined 508 (inr (inl (omega arith, omega arith)))
              ∙ joined-sector 508 (omega arith)
              ∙ get_or-set_ne (set sector 508 0) 0 0 (omega arith)
              ∙ get_or-set_self sector 508 0 0 (omega (arith, is_boot.all)),
          put_sizes-outside m n joined 509 (inr (inl (omega arith, omega arith)))
              ∙ joined-sector 509 (omega arith)
              ∙ get_or-set_self (set sector 508 0) 509 0 0
                  (omega (arith, is_boot.all, length-set sector 508 0)),
        );
        flag = (
          put_sizes-outside m n joined 510 (inr (inl (omega arith, omega arith)))
              ∙ joined-sector 510 (omega arith)
              ∙ rooted-other sector (omega arith) (omega arith)
              ∙ is_boot.low,
          put_sizes-outside m n joined 511 (inr (inl (omega arith, omega arith)))
              ∙ joined-sector 511 (omega arith)
              ∙ rooted-other sector (omega arith) (omega arith)
              ∙ is_boot.high,
        );
        sys_size = size_bytes-dword 512 m (put_sizes m n joined).at (put_sizes-sys m n joined);
        usr_size = size_bytes-dword 516 n (put_sizes m n joined).at (put_sizes-usr m n joined);
        sys_code = λ i lo hi.
            put_sizes-outside m n joined (512 + i) (inr (inr (omega arith))) ∙ joined-sys i hi;
        usr_code = λ i h.
            put_sizes-outside m n joined (512 + m + i) (inr (inr (omega arith))) ∙ joined-usr i h;
      }

-- With a boot sector that `minix_open` takes, 512 bytes behind the header and the boot flag, a
-- system of at least 12 bytes, sizes below 2^32 and an output at position 0, `main` ends, and its
-- output is an image: the code of the boot sector, the size in units of 16 bytes, root device 0, the
-- flag, the sizes of the system and of the user program (as numbers below 2^24), the system behind
-- its 12 bytes of sizes, and the whole user program behind the system.
pub build-Image :
    (boot : Option File) {sector : File} (sys usr : File) (o : Out)
    → minix_open boot ≡ some sector
    → IsBootSector sector
    → 12 ≤ length sys
    → length sys < 2 ^ 32
    → length usr < 2 ^ 32
    → o.pos ≡ 0
    → (o' : Out) × (build boot (some sys) (some usr) o ≡ some o') × Image sector sys usr o'
unfolding build put
build-Image boot {sector} sys usr o opens is_boot big small small' at_start = (
  _,
  rw
      (
        build,
        copy_boot-put boot o opens is_boot,
        append_file-put sys (put (rooted sector) o) small,
        append_file-put usr (put sys (put (rooted sector) o)) small',
      )
      refl,
  joined-Image sector sys usr o at_start is_boot big,
)
