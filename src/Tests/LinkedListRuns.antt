-- ===== src/Tests/LinkedListRuns.antt =====
-- Lists: entries 1, 2 and 3 behind the head 100, and another list behind the head 101.
use so2fib.Common.{
  ℕ, ◌≡◌, refl, ◌↔◌, true, Bool, none, some, List, [], ◌∷◌, arith, ◌==◌, ◌||◌, update,
}
use so2fib.LinkedList.{
  Addr, Links, list_add, list_add_tail, add_between, list_del, del_between, list_for_each, visit,
  list_is_last,
}
use so2fib.LinkedList.Queue.{
  IsQueue, list_add_tail-IsQueue, list_add-IsQueue, list_del-IsQueue, list_for_each-IsQueue,
  list_is_last_iff,
}
use so2fib.LinkedList.Double.{list_add_tail-twice}
use so2fib.LinkedList.Family.{Queues, IsLoose, list_add_tail-Queues, list_del-Queues}
use so2fib.Tests.Fixture.{fresh_links}

abbrev empty_list : IsQueue fresh_links 100 []
empty_list = record { chain = (refl, refl); distinct = (refl, tt) }

abbrev one_entry : Links
one_entry = list_add_tail 1 100 fresh_links

one_entry-IsQueue : IsQueue one_entry 100 (1 ∷ [])
one_entry-IsQueue = list_add_tail-IsQueue empty_list 1 refl

abbrev two_entries : Links
two_entries = list_add_tail 2 100 one_entry

two_entries-IsQueue : IsQueue two_entries 100 (1 ∷ 2 ∷ [])
two_entries-IsQueue = list_add_tail-IsQueue one_entry-IsQueue 2 refl

walk : list_for_each 5 100 (list_add 3 100 two_entries) ≡ some (3 ∷ 1 ∷ 2 ∷ [])
unfolding list_for_each visit list_add list_add_tail add_between
walk = refl

walk_deleted : list_for_each 5 100 (list_del 1 two_entries) ≡ some (2 ∷ [])
unfolding list_for_each visit list_del del_between list_add_tail add_between
walk_deleted = refl

list_add_tail-IsQueue_example : IsQueue (list_add_tail 3 100 two_entries) 100 (1 ∷ 2 ∷ 3 ∷ [])
list_add_tail-IsQueue_example = list_add_tail-IsQueue two_entries-IsQueue 3 refl

list_add-IsQueue_example : IsQueue (list_add 3 100 two_entries) 100 (3 ∷ 1 ∷ 2 ∷ [])
list_add-IsQueue_example = list_add-IsQueue (1 ∷ 2 ∷ []) 3 two_entries-IsQueue refl

list_del-IsQueue_example : IsQueue (list_del 1 two_entries) 100 (2 ∷ [])
list_del-IsQueue_example = list_del-IsQueue [] 1 (2 ∷ []) two_entries-IsQueue

list_for_each-IsQueue_example : list_for_each 3 100 two_entries ≡ some (1 ∷ 2 ∷ [])
list_for_each-IsQueue_example = list_for_each-IsQueue 3 two_entries-IsQueue (omega arith)

list_is_last_iff_example : (list_is_last 1 100 two_entries ≡ true) ↔ (◌≡◌ {A = List ℕ} (2 ∷ []) [])
list_is_last_iff_example = list_is_last_iff [] 1 (2 ∷ []) two_entries-IsQueue

list_add_tail-twice_example :
    list_for_each 9 100 (list_add_tail 3 100 (list_add_tail 3 100 two_entries)) ≡ none
list_add_tail-twice_example = list_add_tail-twice (1 ∷ 2 ∷ []) 3 9 two_entries-IsQueue refl

abbrev heads : Addr → Bool
heads a = a == 100 || a == 101

abbrev none_queued : Addr → List Addr
none_queued _ = []

none_queued-Queues : Queues heads fresh_links none_queued
none_queued-Queues = record {
  queue = λ h hh. record { chain = (refl, refl); distinct = (refl, tt) };
  not_head = λ h a hh i. cc;
  apart = λ h k a hh hk i. cc;
}

abbrev in_first : Addr → List Addr
in_first = update none_queued 100 (1 ∷ [])

list_add_tail-Queues_example : Queues heads one_entry in_first
list_add_tail-Queues_example =
    list_add_tail-Queues heads none_queued-Queues 1 100 refl (refl, λ h hh. refl)

list_del-Queues_example :
    Queues heads (list_del 1 one_entry) (update in_first 100 [])
    × IsLoose heads (update in_first 100 []) 1
list_del-Queues_example =
    list_del-Queues heads
      (list_add_tail-Queues heads none_queued-Queues 1 100 refl (refl, λ h hh. refl)) 100 [] 1 []
      refl refl
