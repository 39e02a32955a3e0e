-- ===== src/Interrupts/Arrive.antt =====
-- Keys that come in one after the other while a task waits for them.
use so2fib.Common.{
  ℕ, ◌+◌, ◌≤◌, ◌<◌, ◌≡◌, refl, ◌∙◌, ap, sym, false, Bool-cases, inl, inr, List, [], ◌∷◌, ◌++◌,
  length, arith, ◌==◌, if◌then◌else◌, pos, leb_ℤ, subst, append_assoc, not, ◌&&◌, append-nil,
}
use so2fib.LinkedList.{Addr, list_empty, list_first}
use so2fib.CirBuffer.{CirBuffer, cir_buff_write, cir_buff_full}
use so2fib.CirBuffer.Window.{
  IsValid, count, contents, contents-write, count-write, cir_buff_write-IsValid,
}
use so2fib.CirBuffer.Lenght.{lenght-count}
use so2fib.Kernel.{Kernel, task_list, readyqueue, keyboardqueue, list_head_to_task_struct}
use so2fib.Sched.{update_process_state_rr}
use so2fib.Sched.Shape.{QueueMap, Valid}
use so2fib.Sched.Wake.{wake_map}
use so2fib.Interrupts.{has_enough, store_key}
use so2fib.Interrupts.Keyboard.{stored, wanted, store_key-wakes}

-- The keyboard routine for each of some characters.
unfoldable pub keys : List ℕ → Kernel → Kernel
keys [] k = k
keys (c ∷ cs) k = keys cs (store_key c k)

pub update-keyboard :
    (t s : ℕ) (h : Addr) (k : Kernel)
    → ((update_process_state_rr s h k).keyboard_buff ≡ k.keyboard_buff)
      × (wanted t (update_process_state_rr s h k) ≡ wanted t k)
unfolding update_process_state_rr
update-keyboard t s h k = ground arith

store_key-keyboard :
    (c t : ℕ) (k : Kernel)
    → ((store_key c k).keyboard_buff ≡ cir_buff_write k.keyboard_buff c)
      × (wanted t (store_key c k) ≡ wanted t k)
unfolding store_key
store_key-keyboard c t k =
    let s = list_head_to_task_struct (list_first keyboardqueue k.links) in
    elim (Bool-cases (not (list_empty keyboardqueue k.links) && has_enough s (stored c k))) [
      | inl e ↦ rw e (update-keyboard t s readyqueue (stored c k))
      | inr e ↦ rw e (refl, refl)
    ]

pub full-count : (b : CirBuffer) → count b < 16 → b.full ≡ false
unfolding count
full-count b h = ground arith

has_enough-count :
    (t w : ℕ) (k : Kernel)
    → IsValid k.keyboard_buff
    → wanted t k ≡ pos w
    → count k.keyboard_buff ≤ w
    → w < 16
    → has_enough t k ≡ (count k.keyboard_buff == w)
unfolding has_enough cir_buff_full
has_enough-count t w k v e le small = ground (
  arith,
  full-count k.keyboard_buff,
  ap (leb_ℤ (wanted t k)) (lenght-count k.keyboard_buff v),
  ap (λ n. leb_ℤ n (pos (count k.keyboard_buff))) e,
)

-- The lists when `n` keys are there and task `t`, which stands before `rs`, waits for `w`.
abbrev pub woken_by : ℕ → ℕ → List Addr → ℕ → QueueMap → QueueMap
woken_by t w rs n q = if n == w then wake_map q keyboardqueue rs t else q

module _ (t w : ℕ) (rs : List Addr) (small : w < 16) where
  -- One key more.
  record Stored (c : ℕ) (k : Kernel) (q : QueueMap) : Type 0 where
    valid : Valid (store_key c k) (woken_by t w rs (count k.keyboard_buff + 1) q)
    ring : IsValid (store_key c k).keyboard_buff
    wants : wanted t (store_key c k) ≡ pos w
    counted : count (store_key c k).keyboard_buff ≡ count k.keyboard_buff + 1
    held : contents (store_key c k).keyboard_buff ≡ contents k.keyboard_buff ++ c ∷ []

  store_key-Stored :
      (c : ℕ) {k : Kernel} {q : QueueMap}
      → Valid k q
      → q keyboardqueue ≡ task_list t ∷ rs
      → IsValid k.keyboard_buff
      → wanted t k ≡ pos w
      → count k.keyboard_buff < w
      → Stored c k q
  store_key-Stored c {k} {q} v e ring wants less =
      let b = cir_buff_write k.keyboard_buff c in
      let room = full-count k.keyboard_buff (omega arith) in
      let one_more : count b ≡ count k.keyboard_buff + 1 =
        count-write k.keyboard_buff c ring room ∙ omega arith in
      let ring_1 = cir_buff_write-IsValid k.keyboard_buff c ring in
      let (same, wants_1) = store_key-keyboard c t k in
      let enough = has_enough-count t w (stored c k) ring_1 wants (omega arith) small in
      record {
        valid =
            subst (λ z. Valid (store_key c k) (if z then wake_map q keyboardqueue rs t else q))
              (enough ∙ ap (λ n. n == w) one_more) (store_key-wakes c t rs v e);
        ring = subst IsValid (sym same) ring_1;
        wants = wants_1 ∙ wants;
        counted = ap count same ∙ one_more;
        held = ap contents same ∙ contents-write k.keyboard_buff c ring room;
      }

  -- While task `t` waits first for the keyboard, still wants `w` keys, at most 15, and the ring
  -- holds fewer: `cs` more keys are stored behind the others; as long as that makes fewer than
  -- `w` no task moves, and the one that makes it `w` makes task `t` ready, behind the ready ones. Lists
  -- and states stay well formed.
  pub keys-woken_by :
      (cs : List ℕ) {k : Kernel} {q : QueueMap}
      → Valid k q
      → q keyboardqueue ≡ task_list t ∷ rs
      → IsValid k.keyboard_buff
      → wanted t k ≡ pos w
      → count k.keyboard_buff < w
      → count k.keyboard_buff + length cs ≤ w
      → Valid (keys cs k) (woken_by t w rs (count k.keyboard_buff + length cs) q)
        × (contents (keys cs k).keyboard_buff ≡ contents k.keyboard_buff ++ cs)
  unfolding keys
  keys-woken_by [] {k} {q} v e ring wants less fits =
      let waits : (count k.keyboard_buff + 0 == w) ≡ false = ground arith in
      rw waits (v, sym (append-nil (contents k.keyboard_buff)))
  keys-woken_by (c ∷ []) {k} {q} v e ring wants less fits =
      let s = store_key-Stored c v e ring wants less in (s.valid, s.held)
  keys-woken_by (c ∷ d ∷ cs) {k} {q} v e ring wants less fits =
      let s = store_key-Stored c v e ring wants less in
      let waits : (count k.keyboard_buff + 1 == w) ≡ false = ground (arith, fits) in
      let v_1 : Valid (store_key c k) q =
        subst (λ z. Valid (store_key c k) (if z then wake_map q keyboardqueue rs t else q)) waits
          s.valid in
      let more = s.counted in
      let (v_2, held) =
        keys-woken_by (d ∷ cs) v_1 e s.ring s.wants (omega (arith, more, fits))
          (omega (arith, more, fits)) in
      (
        subst (λ n. Valid (keys (c ∷ d ∷ cs) k) (woken_by t w rs n q)) (omega (arith, more)) v_2,
        held
            ∙ ap (λ l. l ++ d ∷ cs) s.held
            ∙ append_assoc (contents k.keyboard_buff) (c ∷ []) (d ∷ cs),
      )
