-- ===== src/LinkedList/Seg.antt =====
-- Stretches of a doubly linked list, and what a write elsewhere leaves of them.
use so2fib.Common.{
  ◌≡◌, refl, ◌≢◌, ◌⊎◌, inl, inr, true, false, List, [], ◌∷◌, ◌++◌, arith, has, has-append, Distinct,
}
use so2fib.LinkedList.{Addr, Links, add_between, del_between, list_del}

-- From `p` the `next` fields lead through `xs` to `q`, and the `prev` fields lead back.
abbrev pub Seg : Links → Addr → List Addr → Addr → Type 0
Seg m p [] q = (m.next p ≡ q) × (m.prev q ≡ p)
Seg m p (x ∷ xs) q = (m.next p ≡ x) × (m.prev x ≡ p) × Seg m x xs q

-- The last of `p` and `xs`.
abbrev pub last : Addr → List Addr → Addr
last p [] = p
last p (x ∷ xs) = last x xs

-- The first of `xs` and `q`.
abbrev pub first : List Addr → Addr → Addr
first [] q = q
first (x ∷ xs) q = x

pub has-first : (xs : List Addr) (q : Addr) → (first xs q ≡ q) ⊎ (has (first xs q) xs ≡ true)
has-first [] q = inl refl
has-first (x ∷ xs) q = inr (ground arith)

pub has-last : (p : Addr) (xs : List Addr) → has (last p xs) (p ∷ xs) ≡ true
has-last p [] = ground arith
has-last p (x ∷ xs) = ground (arith, has-last x xs)

-- The segment reads `next` at `p` and `xs`, and `prev` at `xs` and `q`.
pub frame :
    {m m' : Links} (p : Addr) (xs : List Addr) (q : Addr)
    → ((a : Addr) → has a (p ∷ xs) ≡ true → m'.next a ≡ m.next a)
    → ((a : Addr) → has a (xs ++ q ∷ []) ≡ true → m'.prev a ≡ m.prev a)
    → Seg m p xs q
    → Seg m' p xs q
frame p [] q sn sp s = ground (arith, sn p, sp q)
frame p (x ∷ xs) q sn sp s = (
  ground (arith, sn p),
  ground (arith, sp x),
  frame x xs q (λ a h. sn a (ground arith)) (λ a h. sp a (ground arith)) s.2,
)

module _ (m : Links) where
  pub prev-last : (p : Addr) (xs : List Addr) (q : Addr) → Seg m p xs q → m.prev q ≡ last p xs
  prev-last p [] q s = s.1
  prev-last p (x ∷ xs) q s = prev-last x xs q s.2

  pub next-first : (p : Addr) (xs : List Addr) (q : Addr) → Seg m p xs q → m.next p ≡ first xs q
  next-first p [] q s = s.0
  next-first p (x ∷ xs) q s = s.0

  -- A segment is cut at any of its members.
  pub split :
      (p : Addr) (xs : List Addr) (x : Addr) (ys : List Addr) (q : Addr)
      → Seg m p (xs ++ x ∷ ys) q
      → Seg m p xs x × Seg m x ys q
  split p [] x ys q s = ((s.0, s.1), s.2)
  split p (w ∷ xs) x ys q s = let (l, r) = split w xs x ys q s.2 in ((s.0, s.1, l), r)

  -- `__list_add` behind the last entry of a segment that ends at `q`.
  pub Seg-add_end :
      (n p : Addr) (xs : List Addr) (q : Addr)
      → has n (p ∷ xs) ≡ false
      → has q xs ≡ false
      → n ≢ q
      → Distinct (p ∷ xs)
      → Seg m p xs q
      → Seg (add_between n (last p xs) q m) p (xs ++ n ∷ []) q
  unfolding add_between
  Seg-add_end n p [] q out stop nq d s = ground arith
  Seg-add_end n p (x ∷ xs) q out stop nq d s = (
    ground (arith, has-last x xs),
    ground arith,
    Seg-add_end n x xs q (ground arith) (ground arith) nq d.1 s.2,
  )

  -- `__list_add` between `p` and the first entry behind it.
  pub Seg-add_front :
      (n p x : Addr) (xs : List Addr) (q : Addr)
      → has n (p ∷ x ∷ xs) ≡ false
      → n ≢ q
      → has q (x ∷ xs) ≡ false
      → Distinct (p ∷ x ∷ xs)
      → Seg m p (x ∷ xs) q
      → Seg (add_between n p x m) p (n ∷ x ∷ xs) q
  unfolding add_between
  Seg-add_front n p x xs q out nq stop d s = (
    ground arith,
    ground arith,
    (
      ground arith,
      ground arith,
      frame x xs q (λ a h. ground arith) (λ a h. ground (arith, has-append a xs (q ∷ []))) s.2,
    ),
  )

  -- `__list_del` joins the two segments that meet at `n`.
  pub Seg-del :
      (n p : Addr) (xs ys : List Addr) (q : Addr)
      → Distinct (p ∷ xs ++ n ∷ ys)
      → has q (xs ++ n ∷ ys) ≡ false
      → Seg m p xs n
      → Seg m n ys q
      → Seg (list_del n m) p (xs ++ ys) q
  unfolding list_del del_between
  Seg-del n p [] [] q d stop s t = ground arith
  Seg-del n p [] (y ∷ ys) q d stop s t = (
    ground arith,
    ground arith,
    frame y ys q (λ a h. ground arith) (λ a h. ground (arith, has-append a ys (q ∷ []))) t.2,
  )
  Seg-del n p (x ∷ xs) ys q d stop s t = (
    ground (
      arith,
      prev-last x xs n s.2,
      has-last x xs,
      has-append p xs (n ∷ ys),
      has-append (last x xs) xs (n ∷ ys),
    ),
    ground (
      arith,
      next-first n ys q t,
      has-first ys q,
      has-append x xs (n ∷ ys),
      has-append q xs (n ∷ ys),
    ),
    Seg-del n x xs ys q d.1 (ground arith) s.2 t,
  )
