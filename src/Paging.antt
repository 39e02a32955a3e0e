-- ===== src/Paging.antt =====
-- mm.c: the page tables. A table is a function from the page number.
pub mod Boot
use so2fib.Common.{
  ℕ, zero, suc, ◌+◌, ◌-◌, ◌%◌, ◌^◌, ◌==◌, Bool, true, false, Option, none, some, update,
}
use so2fib.Frames.{PhysMem, num_pag_kernel, total_pages, alloc_frame, free_frame}
use so2fib.Utils.{user_first_page, num_pag_code, num_pag_data}

-- `page_table_entry`: the fields that the code sets; the others stay 0.
pub record Entry : Type 0 where
  pub present : Bool
  pub rw_bit : Bool
  pub user : Bool
  pub pbase_addr : ℕ

abbrev pub PageTable : Type 0
PageTable = ℕ → Entry

-- `entry = 0`
abbrev pub no_entry : Entry
no_entry = record { present = false; rw_bit = false; user = false; pbase_addr = 0 }

abbrev pub pag_log_init_code : ℕ
pag_log_init_code = user_first_page

abbrev pub pag_log_init_data : ℕ
pag_log_init_data = pag_log_init_code + num_pag_code

-- `pbase_addr` has 20 bits.
abbrev pub pbase : ℕ → ℕ
pbase frame = frame % 2 ^ 20

unfoldable pub set_ss_pag : ℕ → ℕ → PageTable → PageTable
set_ss_pag page frame pt =
    update pt page (record { present = true; rw_bit = true; user = true; pbase_addr = pbase frame })

unfoldable pub del_ss_pag : ℕ → PageTable → PageTable
del_ss_pag page pt = update pt page no_entry

unfoldable pub get_frame : ℕ → PageTable → ℕ
get_frame page pt = (pt page).pbase_addr

-- The two loops of `init_table_pages` over one table, from page `i` on for `n` pages.
unfoldable pub clear_pages : ℕ → ℕ → PageTable → PageTable
clear_pages zero i pt = pt
clear_pages (suc n) i pt = clear_pages n (i + 1) (update pt i no_entry)

unfoldable pub map_kernel : ℕ → ℕ → PageTable → PageTable
map_kernel zero i pt = pt
map_kernel (suc n) i pt =
    map_kernel n (i + 1)
      (update pt i (record (pt i) { present = true; rw_bit = true; pbase_addr = pbase i }))

-- What `init_table_pages` does to each of the tables.
unfoldable pub init_table_pages : PageTable → PageTable
init_table_pages pt = map_kernel (num_pag_kernel - 1) 1 (clear_pages total_pages 0 pt)

-- The field that the result of `alloc_frame` gives, of which -1 is all ones.
unfoldable pub frame_bits : Option ℕ → ℕ
frame_bits none = 2 ^ 20 - 1
frame_bits (some frame) = pbase frame

-- A loop of `set_user_pages`: `n` pages from `page` on, which the task may write or not.
unfoldable pub map_user : ℕ → ℕ → Bool → PageTable × PhysMem → PageTable × PhysMem
map_user zero page writable st = st
map_user (suc n) page writable (pt, mem) =
    let (new_ph_pag, mem_1) = alloc_frame mem in
    map_user n (page + 1) writable (
      update pt page (record {
        present = true;
        rw_bit = writable;
        user = true;
        pbase_addr = frame_bits new_ph_pag;
      }),
      mem_1,
    )

unfoldable pub set_user_pages : PageTable × PhysMem → PageTable × PhysMem
set_user_pages st =
    map_user num_pag_data pag_log_init_data true (map_user num_pag_code pag_log_init_code false st)

-- The loop of `free_user_pages`.
unfoldable pub unmap_user : ℕ → ℕ → PageTable × PhysMem → PageTable × PhysMem
unmap_user zero page st = st
unmap_user (suc n) page (pt, mem) =
    unmap_user n (page + 1) (update pt page no_entry, free_frame (pt page).pbase_addr mem)

unfoldable pub free_user_pages : PageTable × PhysMem → PageTable × PhysMem
free_user_pages st = unmap_user num_pag_data pag_log_init_data st
