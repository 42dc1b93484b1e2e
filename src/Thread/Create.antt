-- ===== src/Thread/Create.antt =====
-- The loop of `create_threads` in controller/thread.c.
use a2pm.Common.{
  ℕ, zero, suc, ◌+◌, ◌≡◌, refl, ap, ◌∙◌, arith, some, none, Option, ◌==◌, if◌then◌else◌,
}
use native.Mathlib.Numerals.{towards_suc}
use a2pm.Common.Family.{count}
use a2pm.Thread.{create_loop, create_threads}

module _ (create : ℕ → ℕ) where
  abbrev succeeded : ℕ → ℕ
  succeeded n = count n (λ j. create j == 0)

  create_loop-started :
      (k i m : ℕ) (num : Option ℕ) (started : ℕ)
      → i + k ≡ m
      → started ≡ succeeded i
      → (create_loop k i create num started).1 ≡ succeeded m
  unfolding create_loop count
  create_loop-started zero i m num started e h =
      let same : i ≡ m = omega arith in h ∙ ap succeeded same
  create_loop-started (suc k) i m num started e h =
      create_loop-started k (i + 1) m _ _ (omega arith) (simp towards_suc (ground arith))

  create_loop-num :
      (k i m : ℕ) (num : Option ℕ) (started : ℕ)
      → i + k ≡ m
      → (create_loop (suc k) i create num started).0 ≡ some (create m)
  unfolding create_loop
  create_loop-num zero i m num started e =
      let same : i ≡ m = omega arith in ap (λ x. some (create x)) same
  create_loop-num (suc k) i m num started e =
      create_loop-num k (i + 1) m (some (create i)) (if create i == 0 then started + 1 else started)
        (omega arith)

-- For n + 1 threads, `create_threads` starts a thread for each call of `pthread_create` that succeeds,
-- and returns what the last of those calls returned, whatever the others did.
pub create_threads_lem :
    (n : ℕ) (create : ℕ → ℕ)
    → create_threads (suc n) create ≡ (some (create n), count (suc n) (λ j. create j == 0))
unfolding create_threads count
create_threads_lem n create =
    let num = create_loop-num create n 0 n none 0 (omega arith) in
    let started = create_loop-started create (suc n) 0 (suc n) none 0 (omega arith) refl in
    λ i. (num i, started i)
