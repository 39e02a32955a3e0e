-- ===== src/Libc/Itoa.antt =====
-- The string that `itoa` makes.
use so2fib.Common.{
  ℕ, zero, suc, ◌+◌, ◌-◌, ◌*◌, ◌/◌, ◌%◌, ◌≤◌, ◌<◌, ◌≡◌, ◌≢◌, refl, ◌∙◌, some, pos, arith, update,
  Option, ap, sym, ◌⊎◌, inl, inr, ◌==◌, ==-eq, ==-ne, Bool-cases, update-ne, update_self,
}
use so2fib.Libc.{Chars, put_digits, swap_ends, finish, itoa, strlen_from, strlen}

-- The number that `n` digits from index `lo` on stand for, the lowest first, and the number
-- that the first `n` characters stand for in the usual order.
abbrev lowest_first : ℕ → ℕ → Chars → ℕ
lowest_first zero lo b = 0
lowest_first (suc n) lo b = (b lo - 48) + 10 * lowest_first n (lo + 1) b

abbrev pub decimal : ℕ → Chars → ℕ
decimal zero b = 0
decimal (suc n) b = 10 * decimal n b + (b n - 48)

-- What the first loop leaves: `n` more characters, all digits, that stand for `a`.
record Digits (a i : ℕ) (b : Chars) (r : Option (ℕ × Chars)) : Type 0 where
  n : ℕ
  final : Chars
  result : r ≡ some (i + n, final)
  before : (j : ℕ) → j < i → final j ≡ b j
  digit : (j : ℕ) → i ≤ j → j < i + n → (48 ≤ final j) × (final j ≤ 57)
  value : lowest_first n i final ≡ a

-- One round of the second loop.
abbrev exchange : ℕ → ℕ → Chars → Chars
exchange p q b = update (update b p (b q)) q (b p)

exchange-ne : (p q : ℕ) (b : Chars) (j : ℕ) → j ≢ p → j ≢ q → exchange p q b j ≡ b j
exchange-ne p q b j hp hq = ground arith

exchange-first : (p q : ℕ) (b : Chars) → exchange p q b p ≡ b q
exchange-first p q b = ground arith

exchange-second : (p q : ℕ) (b : Chars) → exchange p q b q ≡ b p
exchange-second p q b = ground arith

swap_ends-outside :
    (n i1 i : ℕ) (b : Chars) (j : ℕ)
    → (i1 + n) * 2 ≤ i
    → (j < i1) ⊎ (i ≤ j + i1)
    → swap_ends n i1 i b j ≡ b j
unfolding swap_ends
swap_ends-outside zero i1 i b j h out = refl
swap_ends-outside (suc n) i1 i b j h out =
    swap_ends-outside n (i1 + 1) i (exchange i1 (i - i1 - 1) b) j (omega arith) (ground arith)
    ∙ exchange-ne i1 (i - i1 - 1) b j (ground arith) (ground arith)

swap_ends-inside :
    (n i1 i : ℕ) (b : Chars) (j : ℕ)
    → (i1 + n) * 2 ≤ i
    → i ≤ (i1 + n) * 2 + 1
    → i1 ≤ j
    → j + i1 < i
    → swap_ends n i1 i b j ≡ b (i - 1 - j)
unfolding swap_ends
swap_ends-inside zero i1 i b j h h' lo hi = ap b (omega arith)
swap_ends-inside (suc n) i1 i b j h h' lo hi =
    let c = exchange i1 (i - i1 - 1) b in
    elim (Bool-cases (j == i1)) [
      | inl at ↦
          swap_ends-outside n (i1 + 1) i c j (omega arith) (ground arith)
          ∙ ap c (==-eq j i1 at)
          ∙ exchange-first i1 (i - i1 - 1) b
          ∙ ap b (ground arith)
      | inr ne ↦ elim (Bool-cases (j == i - i1 - 1)) [
        | inl at ↦
            swap_ends-outside n (i1 + 1) i c j (omega arith) (ground arith)
            ∙ ap c (==-eq j (i - i1 - 1) at)
            ∙ exchange-second i1 (i - i1 - 1) b
            ∙ ap b (ground arith)
        | inr ne' ↦
            swap_ends-inside n (i1 + 1) i c j (omega arith) (omega arith) (ground arith)
              (ground arith)
            ∙ exchange-ne i1 (i - i1 - 1) b (i - 1 - j) (ground arith) (ground arith)
      ]
    ]

done-Digits : (a i : ℕ) (b : Chars) → a ≡ 0 → Digits a i b (some (i, b))
done-Digits a i b e = record {
  n = 0;
  final = b;
  result = ap some (ap (λ k. (k, b)) (omega arith));
  before = λ j h. refl;
  digit = λ j lo hi. ground arith;
  value = sym e;
}

next-Digits :
    (a i : ℕ) (b : Chars) (r : Option (ℕ × Chars))
    → Digits (a / 10) (i + 1) (update b i (a % 10 + 48)) r
    → Digits a i b r
next-Digits a i b r d =
    let at : d.final i ≡ a % 10 + 48 = d.before i (omega arith) ∙ update_self b i (a % 10 + 48) in
    record {
      n = suc d.n;
      final = d.final;
      result = d.result ∙ ap some (ap (λ k. (k, d.final)) (omega arith));
      before = λ j h. d.before j (omega arith) ∙ update-ne b i j (a % 10 + 48) (omega arith);
      digit = λ j lo hi. elim (Bool-cases (j == i)) [
        | inl same ↦ rw (==-eq j i same, at) (omega arith, omega arith)
        | inr ne ↦ d.digit j (ground arith) (omega arith)
      ];
      value = rw (at, d.value) (omega arith);
    }

put_digits-Digits : (fuel a i : ℕ) (b : Chars) → a ≤ fuel → Digits a i b (put_digits fuel a i b)
unfolding put_digits
put_digits-Digits fuel zero i b h = done-Digits 0 i b refl
put_digits-Digits zero (suc a) i b h = ground arith
put_digits-Digits (suc fuel) (suc a) i b h =
    next-Digits (suc a) i b (put_digits fuel (suc a / 10) (i + 1) (update b i (suc a % 10 + 48)))
      (put_digits-Digits fuel (suc a / 10) (i + 1) (update b i (suc a % 10 + 48)) (omega arith))

-- Read in the other direction, the digits stand for the same number.
decimal-mirror :
    (n i : ℕ) (b c : Chars)
    → n ≤ i
    → ((j : ℕ) → j < i → c j ≡ b (i - 1 - j))
    → decimal n c ≡ lowest_first n (i - n) b
decimal-mirror zero i b c h m = refl
decimal-mirror (suc n) i b c h m =
    let at : c n ≡ b (i - suc n) = m n (omega arith) ∙ ap b (omega arith) in
    let rest : decimal n c ≡ lowest_first n (i - suc n + 1) b =
      decimal-mirror n i b c (omega arith) m ∙ ap (λ k. lowest_first n k b) (omega arith) in
    rw (at, rest) (omega arith)

finish-mirror : (i : ℕ) (b : Chars) (j : ℕ) → j < i → finish i b j ≡ b (i - 1 - j)
unfolding finish
finish-mirror i b j h =
    update-ne (swap_ends (i / 2) 0 i b) i j 0 (omega arith)
    ∙ swap_ends-inside (i / 2) 0 i b j (omega arith) (omega arith) (omega arith) (omega arith)

finish-end : (i : ℕ) (b : Chars) → finish i b i ≡ 0
unfolding finish
finish-end i b = update_self (swap_ends (i / 2) 0 i b) i 0

-- `strlen` finds the first 0.
strlen_from-end :
    (n i : ℕ) (b : Chars)
    → ((j : ℕ) → j < i + n → b j ≢ 0)
    → b (i + n) ≡ 0
    → strlen_from (suc n) i b ≡ some (i + n)
unfolding strlen_from
strlen_from-end zero i b ne z =
    let z' : b i ≡ 0 = ap b (omega arith) ∙ z in rw z' (ap some (omega arith))
strlen_from-end (suc n) i b ne z = rw (==-ne (b i) 0 (ne i (omega arith))) (
    strlen_from-end n (i + 1) b (λ j h. ne j (omega arith)) (ap b (omega arith) ∙ z)
    ∙ ap some (omega arith))

-- A string of decimal digits that stands for `a`, ended by 0.
pub record IsDecimal (a : ℕ) (b : Chars) : Type 0 where
  pub n : ℕ
  pub len : strlen (suc n) b ≡ some n
  pub digit : (j : ℕ) → j < n → (48 ≤ b j) × (b j ≤ 57)
  pub value : decimal n b ≡ a

finish-IsDecimal :
    (a : ℕ) (n : ℕ) (b : Chars)
    → ((j : ℕ) → j < n → (48 ≤ b j) × (b j ≤ 57))
    → lowest_first n 0 b ≡ a
    → IsDecimal a (finish n b)
unfolding strlen
finish-IsDecimal a n b dig v =
    let fin : (j : ℕ) → j < n → (48 ≤ finish n b j) × (finish n b j ≤ 57) =
      λ j h. rw (finish-mirror n b j h) (dig (n - 1 - j) (omega arith)) in
    record {
      n = n;
      len =
          strlen_from-end n 0 (finish n b) (λ j h. let p = fin j (omega arith) in omega arith)
            (ap (finish n b) (omega arith) ∙ finish-end n b)
          ∙ ap some (omega arith);
      digit = fin;
      value =
          decimal-mirror n n b (finish n b) (omega arith) (finish-mirror n b)
          ∙ ap (λ k. lowest_first n k b) (omega arith)
          ∙ v;
    }

itoa-of_digits :
    (a n : ℕ) (b final : Chars)
    → put_digits (suc a) (suc a) 0 b ≡ some (0 + n, final)
    → itoa (pos (suc a)) b ≡ some (finish n final)
unfolding itoa
itoa-of_digits a n b final r = rw (r, itoa) (ap some (ap (λ k. finish k final) (omega arith)))

-- For every number from 0 on, `itoa` returns, and leaves the number's decimal digits, ended by 0,
-- in the array: `strlen` counts them, and read as a decimal they are the number again.
pub itoa-IsDecimal : (a : ℕ) (b : Chars) → (c : Chars) × (itoa (pos a) b ≡ some c) × IsDecimal a c
unfolding itoa strlen strlen_from
itoa-IsDecimal zero b = (
  update (update b 0 48) 1 0,
  refl,
  record { n = 1; len = refl; digit = λ j h. ground arith; value = refl },
)
itoa-IsDecimal (suc a) b =
    let d = put_digits-Digits (suc a) (suc a) 0 b (omega arith) in
    (
      finish d.n d.final,
      itoa-of_digits a d.n b d.final d.result,
      finish-IsDecimal (suc a) d.n d.final (λ j h. d.digit j (omega arith) (omega arith)) d.value,
    )
