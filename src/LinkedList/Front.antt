-- ===== src/LinkedList/Front.antt =====
-- `list_add` among several lists.
use so2fib.Common.{◌≡◌, Bool, true, false, List, ◌∷◌, arith, has, update}
use so2fib.LinkedList.{Addr, Links, add_between, list_add}
use so2fib.LinkedList.Seg.{next-first, has-first}
use so2fib.LinkedList.Queue.{IsQueue, list_add-IsQueue}
use so2fib.LinkedList.Family.{IsQueue-frame, Queues, IsLoose, queue-update, other}

-- What lies outside a list and the new entry keeps its fields.
list_add-outside :
    {m : Links} {h : Addr} {xs : List Addr} (n a : Addr)
    → IsQueue m h xs
    → has a (n ∷ h ∷ xs) ≡ false
    → ((list_add n h m).next a ≡ m.next a) × ((list_add n h m).prev a ≡ m.prev a)
unfolding list_add add_between
list_add-outside {m} {h} {xs} n a is out =
    ground (arith, next-first m h xs h is.chain, has-first xs h)

-- `list_add` of a loose entry extends one list at its start and leaves the others.
module _ (is_head : Addr → Bool) {m : Links} {q : Addr → List Addr} (qs : Queues is_head m q) where
  pub list_add-Queues :
      (n h : Addr)
      → is_head h ≡ true
      → IsLoose is_head q n
      → Queues is_head (list_add n h m) (update q h (n ∷ q h))
  list_add-Queues n h hh loose = record {
    queue =
        queue-update is_head (list_add n h m) q h (n ∷ q h)
          (list_add-IsQueue (q h) n (qs.queue h hh) (ground (arith, loose.1 h)))
          (λ k hk ne. IsQueue-frame (list_add n h m) (qs.queue k hk) (λ a i.
            list_add-outside n a (qs.queue h hh)
              (ground (arith, other is_head qs h k a hh hk ne i, loose.1 k))));
    not_head = λ k a hk i. ground (arith, loose, qs.not_head k a, qs.not_head h a);
    apart = λ k l a hk hl i j.
        ground (arith, loose.1 k, loose.1 l, qs.apart k l a, qs.apart h l a, qs.apart k h a);
  }
