-- ===== src/LinkedList.antt =====
-- list.c and include/list.h: the intrusive, circular, doubly linked list of the kernel.
pub mod Seg
pub mod Queue
pub mod Double
pub mod Looped
pub mod Family
pub mod Front
use so2fib.Common.{
  ℕ, zero, suc, ◌==◌, Bool, Option, none, some, List, [], ◌∷◌, if◌then◌else◌, update,
}

-- The address of a `struct list_head`.
abbrev pub Addr : Type 0
Addr = ℕ

abbrev pub null : Addr
null = 0

-- The two fields of every `struct list_head` in memory, by its address.
pub record Links : Type 0 where
  pub next : Addr → Addr
  pub prev : Addr → Addr

-- `a->next = v` and `a->prev = v`
abbrev pub set_next : Addr → Addr → Links → Links
set_next a v m = record m { next = update m.next a v }

abbrev pub set_prev : Addr → Addr → Links → Links
set_prev a v m = record m { prev = update m.prev a v }

unfoldable pub init_list_head : Addr → Links → Links
init_list_head list m = set_prev list list (set_next list list m)

-- `__list_add`
unfoldable pub add_between : Addr → Addr → Addr → Links → Links
add_between new prev next m =
    set_next prev new (set_prev new prev (set_next new next (set_prev next new m)))

unfoldable pub list_add : Addr → Addr → Links → Links
list_add new head m = add_between new head (m.next head) m

unfoldable pub list_add_tail : Addr → Addr → Links → Links
list_add_tail new head m = add_between new (m.prev head) head m

-- `__list_del`
unfoldable pub del_between : Addr → Addr → Links → Links
del_between prev next m = set_next prev next (set_prev next prev m)

unfoldable pub list_del : Addr → Links → Links
list_del entry m =
    set_prev entry null (set_next entry null (del_between (m.prev entry) (m.next entry) m))

unfoldable pub list_is_last : Addr → Addr → Links → Bool
list_is_last list head m = m.next list == head

unfoldable pub list_empty : Addr → Links → Bool
list_empty head m = m.next head == head

unfoldable pub list_first : Addr → Links → Addr
list_first head m = m.next head

-- The loop of `list_for_each`, from the cursor `pos`; `none` when the fuel runs out.
unfoldable pub visit : ℕ → Addr → Addr → Links → Option (List Addr)
visit zero pos head m = none
visit (suc fuel) pos head m =
    let rest = visit fuel (m.next pos) head m in
    if pos == head then some [] else elim rest [ none ↦ none | some xs ↦ some (pos ∷ xs) ]

-- The entries that `list_for_each` goes through.
unfoldable pub list_for_each : ℕ → Addr → Links → Option (List Addr)
list_for_each fuel head m = visit fuel (m.next head) head m
