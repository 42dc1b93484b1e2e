-- ===== src/Tests/Threads.antt =====
-- Runs of controller/thread.c.
use a2pm.Common.{ℕ, ◌≤◌, ◌≡◌, refl, arith}
use a2pm.Thread.{System, step, helper_step}
use a2pm.Thread.Ids.{init, Reach, start, later, pick, tids_unique}

abbrev own_args : ℕ → ℕ
own_args i = i

abbrev shared_arg : ℕ → ℕ
shared_arg i = 7

-- Thread 0 has its number, thread 1 has returned.
abbrev two_threads : (ℕ → ℕ) → System
two_threads arg = step arg (step arg (step arg (step arg (step arg init 0) 0) 1) 1) 1

two_threads-Reach : (arg : ℕ → ℕ) → Reach 2 arg (two_threads arg)
two_threads-Reach arg =
    later
      (later
        (later (later (later start (pick 0 (omega arith))) (pick 0 (omega arith)))
          (pick 1 (omega arith)))
        (pick 1 (omega arith)))
      (pick 1 (omega arith))

tids_unique_example : (◌≡◌ {A = ℕ} 1 1) × (1 ≤ 2) × (2 ≤ 2)
unfolding helper_step
tids_unique_example = tids_unique (omega arith) (two_threads-Reach own_args) 1 1 2 refl refl
