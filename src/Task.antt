-- ===== src/Task.antt =====
-- include/stats.h, include/sched.h and include/semaphores.h: what the kernel keeps of a task and of
-- a semaphore.
use so2fib.Common.{ℕ, ◌+◌, ◌-◌, ◌%◌, ◌^◌, ℤ, Bool, true, false}

-- `unsigned long` sums and differences
abbrev pub add_32 : ℕ → ℕ → ℕ
add_32 a b = (a + b) % 2 ^ 32

abbrev pub sub_32 : ℕ → ℕ → ℕ
sub_32 a b = (a + 2 ^ 32 - b) % 2 ^ 32

pub record Stats : Type 0 where
  pub user_ticks : ℕ
  pub system_ticks : ℕ
  pub blocked_ticks : ℕ
  pub ready_ticks : ℕ
  pub elapsed_total_ticks : ℕ
  pub total_trans : ℕ
  pub remaining_ticks : ℕ

-- `init_stats`
unfoldable pub init_stats : Stats
init_stats = record {
  user_ticks = 0;
  system_ticks = 0;
  blocked_ticks = 0;
  ready_ticks = 0;
  elapsed_total_ticks = 0;
  total_trans = 0;
  remaining_ticks = 0;
}

-- `st->x_ticks += t - st->elapsed_total_ticks` at the three counters, and `elapsed_total_ticks = t`.
unfoldable pub add_user : ℕ → Stats → Stats
add_user t st = record st { user_ticks = add_32 st.user_ticks (sub_32 t st.elapsed_total_ticks) }

unfoldable pub add_system : ℕ → Stats → Stats
add_system t st = record st {
  system_ticks = add_32 st.system_ticks (sub_32 t st.elapsed_total_ticks);
}

unfoldable pub add_ready : ℕ → Stats → Stats
add_ready t st = record st { ready_ticks = add_32 st.ready_ticks (sub_32 t st.elapsed_total_ticks) }

unfoldable pub set_elapsed : ℕ → Stats → Stats
set_elapsed t st = record st { elapsed_total_ticks = t }

unfoldable pub add_trans : Stats → Stats
add_trans st = record st { total_trans = add_32 st.total_trans 1 }

-- `enum state_t`
pub data State : Type 0 where
  st_run st_ready st_blocked : State

abbrev pub is_run : State → Bool
is_run st_run = true
is_run _ = false

-- `struct task_struct`, but for its `list` field, which lives with the other list heads.
-- A page directory is named by its row in `dir_pages`, and `kernel_esp` by its offset in the
-- task's own stack.
pub record Task : Type 0 where
  pub pid : ℤ
  pub dir_pages_base_addr : ℕ
  pub kernel_esp : ℕ
  pub estado : State
  pub estadisticas : Stats
  pub n_directorio : ℕ
  pub sem_ret : ℤ
  pub quantum : ℤ
  pub read_keys : ℤ
  pub required_keys : ℤ
  pub process_break : ℕ

-- `enum state_sem`
pub data SemState : Type 0 where
  free_sem used_sem : SemState

abbrev pub is_free_sem : SemState → Bool
is_free_sem free_sem = true
is_free_sem used_sem = false

-- `struct semaphore`, but for its `blockedQueue`
pub record Semaphore : Type 0 where
  pub state : SemState
  pub n_sem : ℤ
  pub owner : ℤ
  pub counter : ℤ
