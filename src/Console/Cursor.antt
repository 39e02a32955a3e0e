-- ===== src/Console/Cursor.antt =====
-- Where the cursor and the writes to video memory stay, and what is printed.
use so2fib.Common.{
  ℕ, zero, suc, ◌+◌, ◌≤◌, ◌<◌, ◌≡◌, refl, sym, ap, ◌∙◌, ◌⊎◌, List, [], ◌∷◌, ◌++◌, append-nil,
  append_assoc, arith,
}
use so2fib.Utils.{Bytes}
use so2fib.Console.{Screen, next_row, printc, printk, print_bytes}

-- The cursor is on the screen.
pub record OnScreen (s : Screen) : Type 0 where
  pub column : s.x < 80
  pub row : s.y < 25

-- The bytes of video memory are those of 80 columns and 25 rows, two bytes each.
abbrev pub OutOfVideo : ℕ → Type 0
OutOfVideo a = (a < 753664) ⊎ (753664 + 4000 ≤ a)

printc-OnScreen : (c : ℕ) (s : Screen) → OnScreen s → OnScreen (printc c s)
unfolding printc next_row
printc-OnScreen c s on = record { column = ground arith; row = ground arith }

printc-video :
    (c : ℕ) (s : Screen) (a : ℕ) → OnScreen s → OutOfVideo a → (printc c s).video a ≡ s.video a
unfolding printc next_row
printc-video c s a on out = ground arith

printc-port : (c : ℕ) (s : Screen) → (printc c s).port ≡ s.port ++ c ∷ []
unfolding printc next_row
printc-port c s = ground arith

-- From a cursor on the screen, `printk` leaves it on the screen, writes to no byte outside video
-- memory, and sends the string to the port, in order.
pub printk-port :
    (string : List ℕ) (s : Screen)
    → OnScreen s
    → OnScreen (printk string s)
      × ((a : ℕ) → OutOfVideo a → (printk string s).video a ≡ s.video a)
      × ((printk string s).port ≡ s.port ++ string)
unfolding printk
printk-port [] s on = (on, λ a out. refl, sym (append-nil s.port))
printk-port (c ∷ string) s on =
    let (on', video, port) = printk-port string (printc c s) (printc-OnScreen c s on) in
    (
      on',
      λ a out. video a out ∙ printc-video c s a on out,
      port ∙ ap (λ p. p ++ string) (printc-port c s) ∙ append_assoc s.port (c ∷ []) string,
    )

-- `n` bytes of memory from address `a` on.
abbrev pub bytes_at : ℕ → ℕ → Bytes → List ℕ
bytes_at zero a m = []
bytes_at (suc n) a m = m a ∷ bytes_at n (a + 1) m

pub print_bytes-printk :
    (n buffer : ℕ) (m : Bytes) (s : Screen)
    → print_bytes n buffer m s ≡ printk (bytes_at n buffer m) s
unfolding print_bytes printk
print_bytes-printk zero buffer m s = refl
print_bytes-printk (suc n) buffer m s = print_bytes-printk n (buffer + 1) m (printc (m buffer) s)
