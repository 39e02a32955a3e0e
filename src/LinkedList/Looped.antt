-- ===== src/LinkedList/Looped.antt =====
-- A list that leads into an entry which is its own successor, as `list_add_tail` of an entry twice
-- leaves it.
use so2fib.Common.{ℕ, zero, suc, ◌≡◌, refl, ◌≢◌, ◌∙◌, false, true, none, List, [], ◌∷◌, arith, has}
use so2fib.LinkedList.{
  Addr, Links, add_between, list_add_tail, del_between, list_del, visit, list_for_each,
}
use so2fib.LinkedList.Seg.{Seg, split}
use so2fib.LinkedList.Queue.{IsQueue, list_add_tail-IsQueue}
use so2fib.LinkedList.Double.{visit_self, add_twice-next}

-- From `p` the `next` fields lead through `xs` to `n`.
abbrev Trail : Links → Addr → List Addr → Addr → Type 0
Trail m p [] n = m.next p ≡ n
Trail m p (x ∷ xs) n = (m.next p ≡ x) × Trail m x xs n

pub record IsLooped (m : Links) (h : Addr) (xs : List Addr) (n : Addr) : Type 0 where
  trail : Trail m h xs n
  self : m.next n ≡ n
  off : has h (n ∷ xs) ≡ false

Trail-frame :
    (m m' : Links) (p : Addr) (xs : List Addr) (n : Addr)
    → ((a : Addr) → has a (p ∷ xs) ≡ true → m'.next a ≡ m.next a)
    → Trail m p xs n
    → Trail m' p xs n
Trail-frame m m' p [] n same t = same p (ground arith) ∙ t
Trail-frame m m' p (x ∷ xs) n same t =
    (same p (ground arith) ∙ t.0, Trail-frame m m' x xs n (λ a h. same a (ground arith)) t.1)

Seg-Trail : (m : Links) (p : Addr) (xs : List Addr) (n : Addr) → Seg m p xs n → Trail m p xs n
Seg-Trail m p [] n s = s.0
Seg-Trail m p (x ∷ xs) n s = (s.0, Seg-Trail m x xs n s.2)

visit-Trail :
    (fuel : ℕ) (m : Links) (p : Addr) (xs : List Addr) (n h : Addr)
    → Trail m p xs n
    → m.next n ≡ n
    → has h (n ∷ xs) ≡ false
    → visit fuel (m.next p) h m ≡ none
unfolding visit
visit-Trail zero m p xs n h t self off = refl
visit-Trail (suc fuel) m p [] n h t self off = ground (arith, visit_self (suc fuel) m n h self)
visit-Trail (suc fuel) m p (x ∷ xs) n h t self off =
    ground (arith, visit-Trail fuel m x xs n h t.1 self)

-- `list_for_each` over such a list does not end.
pub list_for_each-IsLooped :
    {m : Links} {h : Addr} {xs : List Addr} {n : Addr} (fuel : ℕ)
    → IsLooped m h xs n
    → list_for_each fuel h m ≡ none
unfolding list_for_each
list_for_each-IsLooped {m} {h} {xs} {n} fuel is =
    visit-Trail fuel m h xs n h is.trail is.self is.off

-- A write of the `next` fields elsewhere.
IsLooped-frame :
    {m : Links} (m' : Links) {h : Addr} {xs : List Addr} {n : Addr}
    → IsLooped m h xs n
    → ((a : Addr) → has a (n ∷ h ∷ xs) ≡ true → m'.next a ≡ m.next a)
    → IsLooped m' h xs n
IsLooped-frame {m} m' {h} {xs} {n} is same = record {
  trail = Trail-frame m m' h xs n (λ a i. same a (ground arith)) is.trail;
  self = same n (ground arith) ∙ is.self;
  off = is.off;
}

pub list_add_tail-IsLooped :
    {m : Links} {h : Addr} (xs : List Addr) (n : Addr)
    → IsQueue m h xs
    → has n (h ∷ xs) ≡ false
    → IsLooped (list_add_tail n h (list_add_tail n h m)) h xs n
list_add_tail-IsLooped {m} {h} xs n is out =
    let m_1 = list_add_tail n h m in
    let once = list_add_tail-IsQueue is n out in
    let (l, r) = split m_1 h xs n [] h once.chain in
    let (same, self) = add_twice-next xs n once in
    record {
      trail =
          Trail-frame m_1 (list_add_tail n h m_1) h xs n (λ a i. same a (ground (arith, out)))
            (Seg-Trail m_1 h xs n l);
      self = self;
      off = ground (arith, is.distinct);
    }

-- An entry of another list may leave that.
pub list_del-IsLooped :
    {m : Links} {h : Addr} {xs : List Addr} {n : Addr} (e : Addr)
    → IsLooped m h xs n
    → has e (n ∷ h ∷ xs) ≡ false
    → has (m.prev e) (n ∷ h ∷ xs) ≡ false
    → IsLooped (list_del e m) h xs n
unfolding list_del del_between
list_del-IsLooped {m} e is off before =
    IsLooped-frame (list_del e m) is (λ a i. ground (arith, off, before))

-- What the second `list_add_tail` leaves alone.
pub list_add_tail-elsewhere :
    (m : Links) (h n a : Addr)
    → a ≢ h
    → a ≢ n
    → m.prev h ≡ n
    → ((list_add_tail n h m).next a ≡ m.next a) × ((list_add_tail n h m).prev a ≡ m.prev a)
unfolding list_add_tail add_between
list_add_tail-elsewhere m h n a ne ne' last_is = ground arith
