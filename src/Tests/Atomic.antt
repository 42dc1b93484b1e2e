-- ===== src/Tests/Atomic.antt =====
-- Runs of controller/atomic.c.
use a2pm.Common.{ℕ, ◌≡◌, ◌⊎◌, refl}
use a2pm.Atomic.SpinLock.{
  critical, begin_lock, round, unlock, System, step, thread_step, act, init, Reach, start, later,
  mutual_exclusion, no_deadlock,
}

-- Thread 0 holds the lock and thread 1 spins.
abbrev contended : System
contended = step (step (step init 0 begin_lock) 0 round) 1 begin_lock

contended-Reach : Reach contended
contended-Reach = later (later (later start (act 0 begin_lock)) (act 0 round)) (act 1 begin_lock)

mutual_exclusion_example : ◌≡◌ {A = ℕ} 0 0
unfolding thread_step
mutual_exclusion_example = mutual_exclusion contended-Reach 0 0 refl refl

no_deadlock_example :
    ((step contended 1 round).pc 1 ≡ critical)
    ⊎ ((j : ℕ) × (contended.pc j ≡ critical)
        × ((step (step contended j unlock) 1 round).pc 1 ≡ critical))
unfolding thread_step
no_deadlock_example = no_deadlock contended-Reach 1 refl
