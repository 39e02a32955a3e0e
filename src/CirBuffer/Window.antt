-- ===== src/CirBuffer/Window.antt =====
-- The bytes that a buffer holds, oldest first, and what one write or read does to them.
use so2fib.Common.{
  ℕ, zero, suc, ◌+◌, ◌-◌, ◌%◌, ◌<◌, ◌≡◌, refl, ap₂, ap, ◌∙◌, ◌≢◌, true, false, some, List, [], ◌∷◌,
  ◌++◌, arith, if◌then◌else◌, get_or, set, length, length-set, get_elem?-eq-get_or, get_or-set_self,
  get_or-set_ne,
}
use so2fib.CirBuffer.{CirBuffer, cirbuffer_size, cir_buff_write, cir_buff_read}

-- Both positions are in the array, and `full` is set only where they meet.
pub record IsValid (b : CirBuffer) : Type 0 where
  pub write_in : b.write_pos < cirbuffer_size
  pub read_in : b.read_pos < cirbuffer_size
  pub meet : b.full ≡ true → b.write_pos ≡ b.read_pos
  pub storage : length b.buffer ≡ cirbuffer_size

-- `n` bytes from index `r` on, round the end of the array.
abbrev pub window : List ℕ → ℕ → ℕ → List ℕ
window buf r zero = []
window buf r (suc n) = get_or buf (r % 16) 0 ∷ window buf (r + 1) n

-- How many bytes a valid buffer holds.
unfoldable pub count : CirBuffer → ℕ
count b = if b.full then 16 else (b.write_pos + 16 - b.read_pos) % 16

unfoldable pub contents : CirBuffer → List ℕ
contents b = window b.buffer b.read_pos (count b)

pub length-window : (buf : List ℕ) (r n : ℕ) → length (window buf r n) ≡ n
length-window buf r zero = refl
length-window buf r (suc n) = ap suc (length-window buf (r + 1) n)

-- A write just behind a window extends it.
window-set :
    (buf : List ℕ) (x r n i : ℕ)
    → length buf ≡ 16
    → n < 16
    → i ≡ (r + n) % 16
    → window (set buf i x) r (suc n) ≡ window buf r n ++ x ∷ []
window-set buf x r zero i len h e =
    let at : r % 16 ≡ i = omega arith in
    ap (λ v. v ∷ [])
      (ap (λ k. get_or (set buf i x) k 0) at ∙ get_or-set_self buf i x 0 (omega arith))
window-set buf x r (suc n) i len h e =
    ap₂ ◌∷◌ (get_or-set_ne buf x 0 (omega arith))
      (window-set buf x (r + 1) n i len (omega arith) (omega arith))

pub cir_buff_write-IsValid : (b : CirBuffer) (x : ℕ) → IsValid b → IsValid (cir_buff_write b x)
unfolding cir_buff_write
cir_buff_write-IsValid b x v = ground (arith, length-set b.buffer b.write_pos x)

pub count-write :
    (b : CirBuffer) (x : ℕ)
    → IsValid b
    → b.full ≡ false
    → count (cir_buff_write b x) ≡ suc (count b)
unfolding cir_buff_write count
count-write b x v f = ground arith

pub count-lt :
    (b : CirBuffer)
    → IsValid b
    → b.full ≡ false
    → (count b < 16) × (b.write_pos ≡ (b.read_pos + count b) % 16)
unfolding count
count-lt b v f = ground arith

fields-write :
    (b : CirBuffer) (x : ℕ)
    → b.full ≡ false
    → ((cir_buff_write b x).buffer ≡ set b.buffer b.write_pos x)
      × ((cir_buff_write b x).read_pos ≡ b.read_pos)
unfolding cir_buff_write
fields-write b x f = ground arith

contents-eq :
    (b : CirBuffer) (buf : List ℕ) (r n : ℕ)
    → b.buffer ≡ buf
    → b.read_pos ≡ r
    → count b ≡ n
    → contents b ≡ window buf r n
unfolding contents
contents-eq b buf r n p q s i = window (p i) (q i) (s i)

-- A write into a buffer that is not full puts the byte behind the others.
pub contents-write :
    (b : CirBuffer) (x : ℕ)
    → IsValid b
    → b.full ≡ false
    → contents (cir_buff_write b x) ≡ contents b ++ x ∷ []
unfolding contents
contents-write b x v f =
    let (buf, r) = fields-write b x f in
    let (small, at) = count-lt b v f in
    contents-eq (cir_buff_write b x) _ _ _ buf r (count-write b x v f)
    ∙ window-set b.buffer x b.read_pos (count b) b.write_pos v.storage small at

-- A write into a full buffer changes nothing.
pub write-full : (b : CirBuffer) (x : ℕ) → b.full ≡ true → cir_buff_write b x ≡ b
unfolding cir_buff_write
write-full b x f = rw f

count-read :
    (b : CirBuffer)
    → IsValid b
    → b.full ≡ false
    → b.write_pos ≢ b.read_pos
    → b.read_pos < 15
    → count b ≡ suc (count (cir_buff_read b).1)
unfolding cir_buff_read count
count-read b v f ne h = ground arith

-- A read before the last slot takes the oldest byte out.
pub contents-read :
    (b : CirBuffer)
    → IsValid b
    → b.full ≡ false
    → b.write_pos ≢ b.read_pos
    → b.read_pos < 15
    → (x : ℕ) × ((cir_buff_read b).0 ≡ some x)
      × (contents b ≡ x ∷ contents (cir_buff_read b).1)
      × IsValid (cir_buff_read b).1
unfolding cir_buff_read contents
contents-read b v f ne h = (
  get_or b.buffer b.read_pos 0,
  get_elem?-eq-get_or b.buffer b.read_pos 0 (omega arith),
  rw (count-read b v f ne h) (
      ap (λ k. get_or b.buffer k 0 ∷ window b.buffer (b.read_pos + 1) (count (cir_buff_read b).1))
        (omega arith)),
  ground arith,
)
