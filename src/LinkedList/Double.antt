-- ===== src/LinkedList/Double.antt =====
-- What `list_add_tail` does to a list that holds the entry already.
use so2fib.Common.{ℕ, zero, suc, ◌≡◌, refl, ◌≢◌, false, none, List, [], ◌∷◌, ◌++◌, arith, has}
use so2fib.LinkedList.{Addr, Links, add_between, list_add_tail, visit, list_for_each}
use so2fib.LinkedList.Seg.{Seg, split}
use so2fib.LinkedList.Queue.{IsQueue, list_add_tail-IsQueue}

-- From an entry that is its own successor the loop does not come back to the head.
pub visit_self :
    (fuel : ℕ) (m : Links) (n h : Addr) → m.next n ≡ n → n ≢ h → visit fuel n h m ≡ none
unfolding visit
visit_self zero m n h e ne = refl
visit_self (suc fuel) m n h e ne = ground (arith, visit_self fuel m n h e ne)

visit-trap :
    (fuel : ℕ) (m m' : Links) (p : Addr) (xs : List Addr) (n h : Addr)
    → Seg m p xs n
    → ((a : Addr) → a ≢ n → m'.next a ≡ m.next a)
    → m'.next n ≡ n
    → has n (p ∷ xs) ≡ false
    → has h (n ∷ xs) ≡ false
    → visit fuel (m'.next p) h m' ≡ none
unfolding visit
visit-trap zero m m' p xs n h s same e out stop = refl
visit-trap (suc fuel) m m' p [] n h s same e out stop =
    ground (arith, same p, visit_self (suc fuel) m' n h e)
visit-trap (suc fuel) m m' p (x ∷ xs) n h s same e out stop =
    ground (arith, same p, visit-trap fuel m m' x xs n h s.2 same e)

-- The second of two `list_add_tail` of one entry.
pub add_twice-next :
    {m : Links} {h : Addr} (xs : List Addr) (n : Addr)
    → IsQueue m h (xs ++ n ∷ [])
    → ((a : Addr) → a ≢ n → (list_add_tail n h m).next a ≡ m.next a)
      × ((list_add_tail n h m).next n ≡ n)
unfolding list_add_tail add_between
add_twice-next {m} {h} xs n is =
    let (l, r) = split m h xs n [] h is.chain in ((λ a ne. ground arith), ground arith)

-- A new entry that is put behind a list twice makes `list_for_each` run for ever.
pub list_add_tail-twice :
    {m : Links} {h : Addr} (xs : List Addr) (n : Addr) (fuel : ℕ)
    → IsQueue m h xs
    → has n (h ∷ xs) ≡ false
    → list_for_each fuel h (list_add_tail n h (list_add_tail n h m)) ≡ none
unfolding list_for_each
list_add_tail-twice {m} {h} xs n fuel is out =
    let once = list_add_tail-IsQueue is n out in
    let (l, r) = split (list_add_tail n h m) h xs n [] h once.chain in
    let (same, self) = add_twice-next xs n once in
    visit-trap fuel (list_add_tail n h m) (list_add_tail n h (list_add_tail n h m)) h xs n h l same
      self out (ground (arith, is.distinct))
