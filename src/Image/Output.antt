-- ===== src/Image/Output.antt =====
-- What is in the output after a write, and after a copy.
use so2fib.Common.{
  update-ne, ◌⊎◌, not, ℕ, zero, suc, ◌+◌, ◌-◌, ◌≤◌, ◌<◌, ◌≡◌, refl, ◌∙◌, ap, sym, Option, none,
  some, [], ◌∷◌, ◌++◌, length, get_or, take, drop, arith, if◌then◌else◌, ltb, update, ◌==◌, ==-ne,
  ==-refl, inl, inr,
}
use so2fib.Image.{File, Out, put, copy_file, buf_size}

pub put-append : (xs ys : File) (o : Out) → put (xs ++ ys) o ≡ put ys (put xs o)
unfolding put
put-append [] ys o = refl
put-append (x ∷ xs) ys o = put-append xs ys _

pub pos-put : (xs : File) (o : Out) → (put xs o).pos ≡ o.pos + length xs
unfolding put
pos-put [] o = omega arith
pos-put (x ∷ xs) o = pos-put xs _ ∙ omega arith

pub at-put_outside :
    (xs : File) (o : Out) (a : ℕ) → (a < o.pos) ⊎ (o.pos + length xs ≤ a) → (put xs o).at a ≡ o.at a
unfolding put
at-put_outside [] o a h = refl
at-put_outside (x ∷ xs) o a (inl h) =
    at-put_outside xs _ a (inl (omega arith)) ∙ update-ne o.at o.pos a x (omega arith)
at-put_outside (x ∷ xs) o a (inr h) =
    at-put_outside xs _ a (inr (omega arith)) ∙ update-ne o.at o.pos a x (omega arith)

pub at-put_inside :
    (xs : File) (o : Out) (i : ℕ) → i < length xs → (put xs o).at (o.pos + i) ≡ get_or xs i 0
unfolding put
at-put_inside [] o i h = absurd (omega arith)
at-put_inside (x ∷ xs) o zero h = at-put_outside xs _ (o.pos + 0) (inl (omega arith)) ∙ ground arith
at-put_inside (x ∷ xs) o (suc i) h =
    let o_1 : Out = record { pos = o.pos + 1; at = update o.at o.pos x } in
    ap (put xs o_1).at (omega arith) ∙ at-put_inside xs o_1 i (omega arith)

take-drop : (n : ℕ) (xs : File) → take n xs ++ drop n xs ≡ xs
take-drop zero xs = refl
take-drop (suc n) [] = refl
take-drop (suc n) (x ∷ xs) = ap (λ ys. x ∷ ys) (take-drop n xs)

length-take : (n : ℕ) (xs : File) → n ≤ length xs → length (take n xs) ≡ n
length-take zero xs h = refl
length-take (suc n) [] h = absurd (omega arith)
length-take (suc n) (x ∷ xs) h = ap suc (length-take n xs (omega arith))

length-drop : (n : ℕ) (xs : File) → length (drop n xs) ≡ length xs - n
length-drop zero xs = omega arith
length-drop (suc n) [] = omega arith
length-drop (suc n) (x ∷ xs) = length-drop n xs ∙ omega arith

-- A round of the loop, by the rounds after it.
round :
    (sz l : ℕ) (file : File) (o : Out) {rest : Option Out}
    → length file ≡ sz
    → l ≤ sz
    → (0 < sz → rest ≡ some (put (drop l file) (put (take l file) o)))
    → (if sz == 0 then some o else if not (length (take l file) == l) then none else rest)
      ≡ some (put file o)
unfolding put
round sz l [] o e h given = rw (sym e) refl
round sz l (x ∷ xs) o e h given =
    rw
      (
        length-take l (x ∷ xs) (omega arith),
        ==-refl l,
        given (omega arith),
        ==-ne sz 0 (omega arith),
      )
      (ap some (
        sym (put-append (take l (x ∷ xs)) (drop l (x ∷ xs)) o)
        ∙ ap (λ ys. put ys o) (take-drop l (x ∷ xs))))

-- The loop copies the whole file.
pub copy_file-put :
    (fuel sz : ℕ) (file : File) (o : Out)
    → length file ≡ sz
    → sz < fuel
    → copy_file fuel sz file o ≡ some (put file o)
unfolding copy_file
copy_file-put zero sz file o e h = absurd (omega arith)
copy_file-put (suc fuel) sz file o e h =
    let l : ℕ = if ltb buf_size sz then buf_size else sz in
    round sz l file o e (ground arith) (λ some_left.
      copy_file-put fuel (sz - l) (drop l file) (put (take l file) o)
        (length-drop l file ∙ ap (λ n. n - l) e) (ground arith))

pub take_all : (n : ℕ) (xs : File) → length xs ≤ n → take n xs ≡ xs
take_all zero [] h = refl
take_all zero (x ∷ xs) h = absurd (omega arith)
take_all (suc n) [] h = refl
take_all (suc n) (x ∷ xs) h = ap (λ ys. x ∷ ys) (take_all n xs (omega arith))
