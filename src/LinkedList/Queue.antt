-- ===== src/LinkedList/Queue.antt =====
-- The list behind a head as the sequence of its entries: what each function of list.c does to it.
use so2fib.Common.{
  ℕ, zero, suc, ◌<◌, ◌≡◌, refl, ◌↔◌, true, false, some, List, [], ◌∷◌, ◌++◌, subst, sym, arith, has,
  has-append, length, Distinct,
}
use so2fib.LinkedList.{
  Addr, Links, init_list_head, add_between, list_add, list_add_tail, list_del, list_is_last,
  list_empty, list_first, visit, list_for_each,
}
use so2fib.LinkedList.Seg.{
  Seg, first, prev-last, next-first, split, Seg-add_end, Seg-add_front, Seg-del,
}

-- From `h` the entries `xs`, each once, lead back to `h`, in both directions.
pub record IsQueue (m : Links) (h : Addr) (xs : List Addr) : Type 0 where
  pub chain : Seg m h xs h
  pub distinct : Distinct (h ∷ xs)

-- `INIT_LIST_HEAD` makes an empty list.
pub init_list_head-IsQueue : (m : Links) (h : Addr) → IsQueue (init_list_head h m) h []
unfolding init_list_head
init_list_head-IsQueue m h = record { chain = ground arith; distinct = ground arith }

Distinct-snoc :
    (xs : List Addr) (n : Addr) → Distinct xs → has n xs ≡ false → Distinct (xs ++ n ∷ [])
Distinct-snoc [] n d out = ground arith
Distinct-snoc (x ∷ xs) n d out =
    (ground (arith, has-append x xs (n ∷ [])), Distinct-snoc xs n d.1 (ground arith))

Distinct-remove :
    (xs : List Addr) (n : Addr) (ys : List Addr) → Distinct (xs ++ n ∷ ys) → Distinct (xs ++ ys)
Distinct-remove [] n ys d = d.1
Distinct-remove (x ∷ xs) n ys d =
    (ground (arith, has-append x xs (n ∷ ys), has-append x xs ys), Distinct-remove xs n ys d.1)

module _ {m : Links} {h : Addr} {xs : List Addr} (is : IsQueue m h xs) where
  -- `list_add_tail` puts a new entry behind the others.
  pub list_add_tail-IsQueue :
      (n : Addr) → has n (h ∷ xs) ≡ false → IsQueue (list_add_tail n h m) h (xs ++ n ∷ [])
  unfolding list_add_tail
  list_add_tail-IsQueue n out = record {
    chain =
        rw (prev-last m h xs h is.chain)
          (Seg-add_end m n h xs h out is.distinct.0 (ground arith) is.distinct is.chain);
    distinct = Distinct-snoc (h ∷ xs) n is.distinct out;
  }

-- `list_empty` tells whether there is an entry.
pub list_empty_iff :
    {m : Links} {h : Addr} (xs : List Addr) → IsQueue m h xs → (list_empty h m ≡ true) ↔ (xs ≡ [])
unfolding list_empty
list_empty_iff [] is = ((λ e. refl), (λ e. ground (arith, is.chain)))
list_empty_iff (x ∷ xs) is = (ground (arith, is.chain, is.distinct), λ e. cc)

-- `list_first` is the first entry, or the head of an empty list.
pub list_first-IsQueue :
    {m : Links} {h : Addr} (xs : List Addr) → IsQueue m h xs → list_first h m ≡ first xs h
unfolding list_first
list_first-IsQueue {m} {h} xs is = next-first m h xs h is.chain

visit-Seg :
    (fuel : ℕ) (m : Links) (p : Addr) (xs : List Addr) (q : Addr)
    → Seg m p xs q
    → has q xs ≡ false
    → length xs < fuel
    → visit fuel (m.next p) q m ≡ some xs
unfolding visit
visit-Seg zero m p xs q s out f = absurd (omega arith)
visit-Seg (suc fuel) m p [] q s out f = ground arith
visit-Seg (suc fuel) m p (x ∷ xs) q s out f = ground (arith, visit-Seg fuel m x xs q s.2)

-- `list_for_each` visits every entry in order and ends.
pub list_for_each-IsQueue :
    {m : Links} {h : Addr} {xs : List Addr} (fuel : ℕ)
    → IsQueue m h xs
    → length xs < fuel
    → list_for_each fuel h m ≡ some xs
unfolding list_for_each
list_for_each-IsQueue {m} {h} {xs} fuel is f = visit-Seg fuel m h xs h is.chain is.distinct.0 f

-- `list_add` puts a new entry before the others.
pub list_add-IsQueue :
    {m : Links} {h : Addr} (xs : List Addr) (n : Addr)
    → IsQueue m h xs
    → has n (h ∷ xs) ≡ false
    → IsQueue (list_add n h m) h (n ∷ xs)
unfolding list_add
list_add-IsQueue {m} {h} [] n is out = record {
  chain =
      subst (λ y. Seg (add_between n h y m) h (n ∷ []) h) (sym is.chain.0)
        (Seg-add_end m n h [] h out refl (ground arith) is.distinct is.chain);
  distinct = ground arith;
}
list_add-IsQueue {m} {h} (x ∷ xs) n is out = record {
  chain =
      subst (λ y. Seg (add_between n h y m) h (n ∷ x ∷ xs) h) (sym is.chain.0)
        (Seg-add_front m n h x xs h out (ground arith) is.distinct.0 is.distinct is.chain);
  distinct = ground (arith, is.distinct);
}

-- `list_del` takes any entry out and leaves the others in their order.
pub list_del-IsQueue :
    {m : Links} {h : Addr} (xs : List Addr) (n : Addr) (ys : List Addr)
    → IsQueue m h (xs ++ n ∷ ys)
    → IsQueue (list_del n m) h (xs ++ ys)
list_del-IsQueue {m} {h} xs n ys is =
    let (l, r) = split m h xs n ys h is.chain in
    record {
      chain = Seg-del m n h xs ys h is.distinct is.distinct.0 l r;
      distinct = Distinct-remove (h ∷ xs) n ys is.distinct;
    }

-- `list_is_last` tells whether an entry has none behind it.
pub list_is_last_iff :
    {m : Links} {h : Addr} (xs : List Addr) (n : Addr) (ys : List Addr)
    → IsQueue m h (xs ++ n ∷ ys)
    → (list_is_last n h m ≡ true) ↔ (ys ≡ [])
unfolding list_is_last
list_is_last_iff {m} {h} xs n [] is =
    let (l, r) = split m h xs n [] h is.chain in ((λ e. refl), (λ e. ground arith))
list_is_last_iff {m} {h} xs n (y ∷ ys) is =
    let (l, r) = split m h xs n (y ∷ ys) h is.chain in
    (ground (arith, is.distinct, has-append h xs (n ∷ y ∷ ys)), λ e. cc)
