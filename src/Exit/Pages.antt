-- ===== src/Exit/Pages.antt =====
-- The data pages that the last task of a directory leaves.
use so2fib.Common.{ℕ, zero, suc, ◌+◌, Bool, arith, ltb, leb, ◌&&◌}
use so2fib.Kernel.{Kernel}
use so2fib.Space.Unmap.{unmapped, Unmapped, Unmapped-none, Unmapped-iff, Unmapped-step}
use so2fib.Fork.Pages.{Kept, Kept-refl, Kept-trans, rest-Kept}
use so2fib.Exit.{release_pages}

-- The pages from `lo` on, before `hi`.
abbrev pub between : ℕ → ℕ → ℕ → Bool
between lo hi a = leb lo a && ltb a hi

pub release_pages-Unmapped :
    (n p row : ℕ) (k : Kernel)
    → Unmapped row (between (264 + p) (264 + p + n)) k (release_pages n p row k)
unfolding release_pages
release_pages-Unmapped zero p row k = Unmapped-none row _ k (λ a. ground arith)
release_pages-Unmapped (suc n) p row k =
    Unmapped-iff (λ a. ground arith)
      (Unmapped-step row (264 + p) k (between (264 + (p + 1)) (264 + (p + 1) + n))
        (release_pages (suc n) p row k) (ground arith)
        (release_pages-Unmapped n (p + 1) row (unmapped row (264 + p) k)))

pub release_pages-Kept : (n p row : ℕ) (k : Kernel) → Kept k (release_pages n p row k)
unfolding release_pages
release_pages-Kept zero p row k = Kept-refl k
release_pages-Kept (suc n) p row k = Kept-trans (rest-Kept k) (release_pages-Kept n (p + 1) row _)
