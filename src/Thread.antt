-- ===== src/Thread.antt =====
-- controller/thread.c: numbered threads. Every thread runs `helper_create_thread`, which takes a
-- unique number by compare-and-swap, calls the start routine and frees its argument block.
pub mod Create
pub mod Ids
use a2pm.Common.{
  ℕ, zero, suc, ◌+◌, ◌%◌, ◌≡◌, Bool, true, false, Option, none, some, ◌==◌, if◌then◌else◌,
}
use a2pm.Common.Family.{update}
use a2pm.Atomic.{word_size, icas}

-- A thread before its load of `thread_counter`, between the load and the compare-and-swap, inside
-- the start routine with its number, and after the return from it.
pub data Pc : Type 0 where
  looking : Pc
  loaded : ℕ → Pc
  running : ℕ → Pc
  returned : ℕ → Pc

-- `thread_counter`, the place of each thread, and how often each argument block has been freed.
pub record System : Type 0 where
  pub thread_counter : ℕ
  pub pc : ℕ → Pc
  pub freed : ℕ → ℕ

-- One indivisible step of `helper_create_thread` for a thread whose argument block is `arg`.
unfoldable pub helper_step : (arg : ℕ) → Pc → System → Pc × System
unfolding icas
helper_step arg looking s = (loaded s.thread_counter, s)
helper_step arg (loaded old_counter) s =
    let tid = (old_counter + 1) % word_size in
    let (swapped, counter) = icas s.thread_counter old_counter tid in
    (if swapped then running tid else looking, record s { thread_counter = counter })
helper_step arg (running tid) s =
    (returned tid, record s { freed = update s.freed arg (s.freed arg + 1) })
helper_step arg (returned tid) s = (returned tid, s)

-- Thread `i` takes a step; `arg` says which block each thread was given.
abbrev pub step : (arg : ℕ → ℕ) → System → ℕ → System
step arg s i = let (pc, s') = helper_step (arg i) (s.pc i) s in record s' { pc = update s.pc i pc }

-- The loop of `create_threads`: `create i` is what `pthread_create` returns in round `i`. Yields
-- `num`, which no round has set at the start, and the threads that were started.
create_loop : (rounds i : ℕ) → (ℕ → ℕ) → (num : Option ℕ) (started : ℕ) → Option ℕ × ℕ
create_loop zero i create num started = (num, started)
create_loop (suc rounds) i create num started =
    create_loop rounds (i + 1) create (some (create i))
      (if create i == 0 then started + 1 else started)

-- All the threads of one call share the block that the call allocates.
unfoldable pub create_threads : (n : ℕ) → (ℕ → ℕ) → Option ℕ × ℕ
unfolding create_loop
create_threads n create = create_loop n 0 create none 0
