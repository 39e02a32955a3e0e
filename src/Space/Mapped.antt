-- ===== src/Space/Mapped.antt =====
-- utils.c: `copy_data` of the kernel between pages that the page tables map.
use so2fib.Common.{
  ℕ, zero, suc, ◌+◌, ◌-◌, ◌<◌, ◌≤◌, ◌≡◌, ◌≢◌, refl, ◌∙◌, ◌⊎◌, sym, ap, subst, Bool, true, false,
  ◌&&◌, arith, update, if◌then◌else◌, Bool-cases, inl, inr, ltb,
}
use so2fib.Utils.{Bytes}
use so2fib.Kernel.{Kernel}
use so2fib.Space.{is_mapped, phys}

module _ (k : Kernel) where
  -- Both bytes are in pages that are present.
  abbrev both_mapped : ℕ → ℕ → Bool
  both_mapped p q = is_mapped p k && is_mapped q k

  -- `*q++ = *p++` on `DWord`s: four bytes are read, then written.
  unfoldable pub move_dword : ℕ → ℕ → Bytes → Bytes
  move_dword p q m =
      let m_1 = update m (phys k q) (m (phys k p)) in
      let m_2 = update m_1 (phys k (q + 1)) (m (phys k (p + 1))) in
      let m_3 = update m_2 (phys k (q + 2)) (m (phys k (p + 2))) in
      update m_3 (phys k (q + 3)) (m (phys k (p + 3)))

  -- The second loop of `copy_data` with the tables of `k`, on physical memory; false, and the memory
  -- as it is then, at the page fault where a page is not present.
  unfoldable pub move_bytes : ℕ → ℕ → ℕ → Bytes → Bool × Bytes
  move_bytes zero p q m = (true, m)
  move_bytes (suc size) p q m =
      let rest = move_bytes size (p + 1) (q + 1) (update m (phys k q) (m (phys k p))) in
      if both_mapped p q then rest else (false, m)

  -- `copy_data(start, dest, size)` likewise. The four bytes of a `DWord` lie in the pages of the first
  -- and the last.
  unfoldable pub move_data : ℕ → ℕ → ℕ → Bytes → Bool × Bytes
  move_data (suc (suc (suc (suc (suc size))))) start dest m =
      let rest = move_data (suc size) (start + 4) (dest + 4) (move_dword start dest m) in
      if both_mapped start dest && both_mapped (start + 3) (dest + 3) then rest else (false, m)
  move_data size start dest m = move_bytes size start dest m

  -- All pages are present, no two addresses of the destination are in one place, and none is where a byte
  -- of the source is.
  pub record Fits (size start dest : ℕ) : Type 0 where
    pub mapped : (i : ℕ) → i < size → both_mapped (start + i) (dest + i) ≡ true
    pub once : (i j : ℕ) → i < j → j < size → phys k (dest + i) ≢ phys k (dest + j)
    pub apart : (i j : ℕ) → i < size → j < size → phys k (dest + i) ≢ phys k (start + j)

  -- The memory `m'` has the source's bytes at the destination, and the others of `m`.
  pub record Moved (size start dest : ℕ) (m m' : Bytes) : Type 0 where
    pub there : (i : ℕ) → i < size → m' (phys k (dest + i)) ≡ m (phys k (start + i))
    pub other : (x : ℕ) → ((i : ℕ) → i < size → x ≢ phys k (dest + i)) → m' x ≡ m x

  Fits-tail :
      {n start dest : ℕ} (a b : ℕ) → n ≡ a + b → Fits n start dest → Fits b (start + a) (dest + a)
  Fits-tail {n} {start} {dest} a b sum f =
      let at : (c i : ℕ) → c + a + i ≡ c + (a + i) = λ c i. omega arith in
      record {
        mapped = λ i h. rw (at start i, at dest i) (f.mapped (a + i) (omega arith));
        once = λ i j l h.
            rw (at dest i, at dest j) (f.once (a + i) (a + j) (omega arith) (omega arith));
        apart = λ i j h h'.
            rw (at dest i, at start j) (f.apart (a + i) (a + j) (omega arith) (omega arith));
      }

  -- One part after the other.
  Moved-append :
      {n start dest : ℕ} {m m_1 m_2 : Bytes} (a b : ℕ)
      → n ≡ a + b
      → Fits n start dest
      → Moved a start dest m m_1
      → Moved b (start + a) (dest + a) m_1 m_2
      → Moved n start dest m m_2
  Moved-append {n} {start} {dest} {m} {m_1} {m_2} a b sum f v w =
      let at : (c i : ℕ) → a ≤ i → c + a + (i - a) ≡ c + i = λ c i l. omega arith in
      record {
        there = λ i h. elim (Bool-cases (ltb i a)) [
          | inl low ↦
              w.other (phys k (dest + i)) (λ j hj same.
                f.once i (a + j) (ground arith) (omega arith) (same ∙ ap (phys k) (omega arith)))
              ∙ v.there i (ground arith)
          | inr high ↦
              let l : a ≤ i = ground arith in
              ap (λ c. m_2 (phys k c)) (sym (at dest i l))
              ∙ w.there (i - a) (omega arith)
              ∙ ap (λ c. m_1 (phys k c)) (at start i l)
              ∙ v.other (phys k (start + i)) (λ j hj same. f.apart j i (omega arith) h (sym same))
        ];
        other = λ x out.
            w.other x (λ i h same. out (a + i) (omega arith) (same ∙ ap (phys k) (omega arith)))
            ∙ v.other x (λ i h. out i (omega arith));
      }

  Moved-byte :
      (start dest : ℕ) (m : Bytes)
      → Moved 1 start dest m (update m (phys k dest) (m (phys k start)))
  Moved-byte start dest m = record {
    there = λ i h.
        let to : dest + i ≡ dest = omega arith in
        let from : start + i ≡ start = omega arith in rw (to, from) (ground arith);
    other = λ x out.
        let to : dest + 0 ≡ dest = omega arith in
        let ne : x ≢ phys k dest = λ same. out 0 (omega arith) (same ∙ ap (phys k) (sym to)) in
        ground (arith, ne);
  }

  four : (i : ℕ) → i < 4 → (i ≡ 0) ⊎ (i ≡ 1) ⊎ (i ≡ 2) ⊎ (i ≡ 3)
  four i h = ground arith

  Moved-dword :
      (n start dest : ℕ) (m : Bytes)
      → 4 ≤ n
      → Fits n start dest
      → Moved 4 start dest m (move_dword start dest m)
  unfolding move_dword
  Moved-dword n start dest m big f =
      let to : phys k (dest + 0) ≡ phys k dest = ap (λ c. phys k c) (omega arith) in
      let n_1 : phys k dest ≢ phys k (dest + 1) =
        λ s. f.once 0 1 (omega arith) (omega arith) (to ∙ s) in
      let n_2 : phys k dest ≢ phys k (dest + 2) =
        λ s. f.once 0 2 (omega arith) (omega arith) (to ∙ s) in
      let n_3 : phys k dest ≢ phys k (dest + 3) =
        λ s. f.once 0 3 (omega arith) (omega arith) (to ∙ s) in
      let n_4 = f.once 1 2 (omega arith) (omega arith) in
      let n_5 = f.once 1 3 (omega arith) (omega arith) in
      let n_6 = f.once 2 3 (omega arith) (omega arith) in
      let goal = λ (i : ℕ). move_dword start dest m (phys k (dest + i)) ≡ m (phys k (start + i)) in
      record {
        there = λ i h. elim (four i h) [
          | inl e ↦
              let to_i : dest + i ≡ dest = omega arith in
              let from_i : start + i ≡ start = omega arith in rw (to_i, from_i) (ground arith)
          | inr (inl e) ↦ subst goal (sym e) (ground arith)
          | inr (inr (inl e)) ↦ subst goal (sym e) (ground arith)
          | inr (inr (inr e)) ↦ subst goal (sym e) (ground arith)
        ];
        other = λ x out.
            let o_0 : x ≢ phys k dest = λ s. out 0 (omega arith) (s ∙ sym to) in
            let o_1 = out 1 (omega arith) in
            let o_2 = out 2 (omega arith) in
            let o_3 = out 3 (omega arith) in ground (arith, o_0, o_1, o_2, o_3);
      }

  -- The pages of the first byte that is to go are present.
  mapped_first : {n start dest : ℕ} → 0 < n → Fits n start dest → both_mapped start dest ≡ true
  mapped_first {n} {start} {dest} h f =
      subst (λ p. both_mapped p dest ≡ true) {x = start + 0} (omega arith)
        (subst (λ q. both_mapped (start + 0) q ≡ true) {x = dest + 0} (omega arith) (f.mapped 0 h))

  pub move_bytes-Moved :
      (size start dest : ℕ) (m : Bytes)
      → Fits size start dest
      → ((move_bytes size start dest m).0 ≡ true)
        × Moved size start dest m (move_bytes size start dest m).1
  unfolding move_bytes
  move_bytes-Moved zero start dest m f =
      (refl, record { there = λ i h. absurd (omega arith); other = λ x out. refl })
  move_bytes-Moved (suc size) start dest m f =
      let m_1 = update m (phys k dest) (m (phys k start)) in
      let (done, v) =
        move_bytes-Moved size (start + 1) (dest + 1) m_1 (Fits-tail 1 size (omega arith) f) in
      rw (mapped_first (omega arith) f)
        (done, Moved-append 1 size (omega arith) f (Moved-byte start dest m) v)

  -- A copy whose pages are all present goes to its end.
  pub move_data-Moved :
      (size start dest : ℕ) (m : Bytes)
      → Fits size start dest
      → ((move_data size start dest m).0 ≡ true)
        × Moved size start dest m (move_data size start dest m).1
  unfolding move_data
  move_data-Moved zero start dest m f = move_bytes-Moved 0 start dest m f
  move_data-Moved (suc zero) start dest m f = move_bytes-Moved 1 start dest m f
  move_data-Moved (suc (suc zero)) start dest m f = move_bytes-Moved 2 start dest m f
  move_data-Moved (suc (suc (suc zero))) start dest m f = move_bytes-Moved 3 start dest m f
  move_data-Moved (suc (suc (suc (suc zero)))) start dest m f = move_bytes-Moved 4 start dest m f
  move_data-Moved (suc (suc (suc (suc (suc size))))) start dest m f =
      let (done, v) =
        move_data-Moved (suc size) (start + 4) (dest + 4) (move_dword start dest m)
          (Fits-tail 4 (suc size) (omega arith) f) in
      rw (mapped_first (omega arith) f, f.mapped 3 (omega arith))
        (
          done,
          Moved-append 4 (suc size) (omega arith) f (Moved-dword _ start dest m (omega arith) f) v,
        )
