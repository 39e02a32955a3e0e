-- ===== src/LinkedList/Family.antt =====
-- Several lists in one memory: no entry is in two of them, and a function changes only its list.
use so2fib.Common.{
  ◌≡◌, ◌≢◌, inl, inr, Bool, true, false, List, [], ◌∷◌, ◌++◌, arith, has, has-append, Distinct,
  ◌==◌, Bool-cases, ==-eq, subst, sym, update,
}
use so2fib.LinkedList.{Addr, Links, add_between, list_add_tail, del_between, list_del}
use so2fib.LinkedList.Seg.{has-last, prev-last, next-first, has-first, frame, split}
use so2fib.LinkedList.Queue.{IsQueue, list_add_tail-IsQueue, list_del-IsQueue}

-- A list survives what leaves the fields of its head and its entries alone.
pub IsQueue-frame :
    {m : Links} (m' : Links) {h : Addr} {xs : List Addr}
    → IsQueue m h xs
    → ((a : Addr) → has a (h ∷ xs) ≡ true → (m'.next a ≡ m.next a) × (m'.prev a ≡ m.prev a))
    → IsQueue m' h xs
IsQueue-frame m' {h} {xs} is same = record {
  chain =
      frame h xs h (λ a i. (same a i).0)
        (λ a i. (same a (ground (arith, has-append a xs (h ∷ [])))).1) is.chain;
  distinct = is.distinct;
}

has-remove :
    (a : Addr) (xs : List Addr) (n : Addr) (ys : List Addr)
    → has a (xs ++ ys) ≡ true
    → has a (xs ++ n ∷ ys) ≡ true
has-remove a [] n ys i = ground arith
has-remove a (x ∷ xs) n ys i = ground (arith, has-remove a xs n ys)

pub has-middle : (xs : List Addr) (n : Addr) (ys : List Addr) → has n (xs ++ n ∷ ys) ≡ true
has-middle [] n ys = ground arith
has-middle (x ∷ xs) n ys = ground (arith, has-middle xs n ys)

-- To take `n` out matters to the membership of `n` alone.
pub has-middle_ne :
    (a : Addr) (xs : List Addr) (n : Addr) (ys : List Addr)
    → a ≢ n
    → has a (xs ++ n ∷ ys) ≡ has a (xs ++ ys)
has-middle_ne a [] n ys ne = ground arith
has-middle_ne a (x ∷ xs) n ys ne = ground (arith, has-middle_ne a xs n ys ne)

not-has-middle :
    (xs : List Addr) (n : Addr) (ys : List Addr)
    → Distinct (xs ++ n ∷ ys)
    → has n (xs ++ ys) ≡ false
not-has-middle [] n ys d = d.0
not-has-middle (x ∷ xs) n ys d =
    ground (arith, not-has-middle xs n ys d.1, has-append x xs (n ∷ ys))

-- What lies outside a list and the new entry keeps its fields.
list_add_tail-outside :
    {m : Links} {h : Addr} {xs : List Addr} (n a : Addr)
    → IsQueue m h xs
    → has a (n ∷ h ∷ xs) ≡ false
    → ((list_add_tail n h m).next a ≡ m.next a) × ((list_add_tail n h m).prev a ≡ m.prev a)
unfolding list_add_tail add_between
list_add_tail-outside {m} {h} {xs} n a is out =
    ground (arith, prev-last m h xs h is.chain, has-last h xs)

list_del-outside :
    {m : Links} {h : Addr} (xs : List Addr) (n : Addr) (ys : List Addr) (a : Addr)
    → IsQueue m h (xs ++ n ∷ ys)
    → has a (h ∷ xs ++ n ∷ ys) ≡ false
    → ((list_del n m).next a ≡ m.next a) × ((list_del n m).prev a ≡ m.prev a)
unfolding list_del del_between
list_del-outside {m} {h} xs n ys a is out =
    let (l, r) = split m h xs n ys h is.chain in
    ground (
      arith,
      prev-last m h xs n l,
      has-last h xs,
      next-first m n ys h r,
      has-first ys h,
      has-append a xs (n ∷ ys),
    )

module _ (is_head : Addr → Bool) where
  -- Every head has its list; heads are no entries, and the lists have no entry in common.
  pub record Queues (m : Links) (q : Addr → List Addr) : Type 0 where
    pub queue : (h : Addr) → is_head h ≡ true → IsQueue m h (q h)
    pub not_head : (h a : Addr) → is_head h ≡ true → has a (q h) ≡ true → is_head a ≡ false
    pub apart :
        (h k a : Addr)
        → is_head h ≡ true
        → is_head k ≡ true
        → has a (q h) ≡ true
        → has a (q k) ≡ true
        → h ≡ k

  -- No list holds `n`, and it is no head.
  abbrev pub IsLoose : (Addr → List Addr) → Addr → Type 0
  IsLoose q n = (is_head n ≡ false) × ((h : Addr) → is_head h ≡ true → has n (q h) ≡ false)

  pub queue-update :
      (m' : Links) (q : Addr → List Addr) (h : Addr) (xs : List Addr)
      → IsQueue m' h xs
      → ((k : Addr) → is_head k ≡ true → k ≢ h → IsQueue m' k (q k))
      → (k : Addr) → is_head k ≡ true
      → IsQueue m' k (update q h xs k)
  queue-update m' q h xs is others k hk = elim (Bool-cases (k == h)) [
    | inl e ↦ rw e (subst (λ l. IsQueue m' l xs) (sym (==-eq k h e)) is)
    | inr ne ↦ rw ne (others k hk (ground arith))
  ]

  module _ {m : Links} {q : Addr → List Addr} (qs : Queues m q) where
    -- Another list than that of `h` shares nothing with it.
    pub other :
        (h k a : Addr)
        → is_head h ≡ true
        → is_head k ≡ true
        → k ≢ h
        → has a (k ∷ q k) ≡ true
        → has a (h ∷ q h) ≡ false
    other h k a hh hk ne i = elim (Bool-cases (has a (h ∷ q h))) [
      | inr out ↦ out
      | inl j ↦ ground (
        arith,
        qs.not_head h k,
        qs.not_head k h,
        qs.not_head h a,
        qs.not_head k a,
        qs.apart h k a,
      )
    ]

    -- `list_add_tail` of a loose entry extends one list and leaves the others.
    pub list_add_tail-Queues :
        (n h : Addr)
        → is_head h ≡ true
        → IsLoose q n
        → Queues (list_add_tail n h m) (update q h (q h ++ n ∷ []))
    list_add_tail-Queues n h hh loose = record {
      queue =
          queue-update (list_add_tail n h m) q h (q h ++ n ∷ [])
            (list_add_tail-IsQueue (qs.queue h hh) n (ground (arith, loose.1 h)))
            (λ k hk ne. IsQueue-frame (list_add_tail n h m) (qs.queue k hk) (λ a i.
              list_add_tail-outside n a (qs.queue h hh)
                (ground (arith, other h k a hh hk ne i, loose.1 k))));
      not_head = λ k a hk i.
          ground (arith, loose, qs.not_head k a, qs.not_head h a, has-append a (q h) (n ∷ []));
      apart = λ k l a hk hl i j. ground (
        arith,
        loose.1 k,
        loose.1 l,
        qs.apart k l a,
        qs.apart h l a,
        qs.apart k h a,
        has-append a (q h) (n ∷ []),
      );
    }

    pub has-update :
        (h : Addr) (xs : List Addr) (n : Addr) (ys : List Addr) (k a : Addr)
        → q h ≡ xs ++ n ∷ ys
        → has a (update q h (xs ++ ys) k) ≡ true
        → has a (q k) ≡ true
    has-update h xs n ys k a e i = elim (Bool-cases (k == h)) [
      | inl eq ↦
          subst (λ l. has a (q l) ≡ true) (sym (==-eq k h eq))
            (rw e (has-remove a xs n ys (ground arith)))
      | inr ne ↦ ground arith
    ]

    -- `list_del` of an entry shortens its list, leaves the others, and makes the entry loose.
    pub list_del-Queues :
        (h : Addr) (xs : List Addr) (n : Addr) (ys : List Addr)
        → is_head h ≡ true
        → q h ≡ xs ++ n ∷ ys
        → Queues (list_del n m) (update q h (xs ++ ys)) × IsLoose (update q h (xs ++ ys)) n
    list_del-Queues h xs n ys hh e =
        let is : IsQueue m h (xs ++ n ∷ ys) = subst (IsQueue m h) e (qs.queue h hh) in
        let mid : has n (q h) ≡ true = rw e (has-middle xs n ys) in
        (
          record {
            queue =
                queue-update (list_del n m) q h (xs ++ ys) (list_del-IsQueue xs n ys is) (λ k hk ne.
                  IsQueue-frame (list_del n m) (qs.queue k hk) (λ a i.
                    list_del-outside xs n ys a is
                      (subst (λ zs. has a (h ∷ zs) ≡ false) e (other h k a hh hk ne i))));
            not_head = λ k a hk i. qs.not_head k a hk (has-update h xs n ys k a e i);
            apart = λ k l a hk hl i j.
                qs.apart k l a hk hl (has-update h xs n ys k a e i) (has-update h xs n ys l a e j);
          },
          (
            qs.not_head h n hh mid,
            λ k hk. ground (arith, qs.apart k h n, not-has-middle xs n ys is.distinct.1),
          ),
        )
