-- ===== src/Atomic/Words.antt =====
-- The operations of controller/atomic.c on one cell, against arithmetic modulo 2 ^ 32.
use a2pm.Common.{ℕ, ◌+◌, ◌%◌, ◌<◌, ◌≡◌, ◌≢◌, ◌↔◌, true, arith}
use a2pm.Atomic.{
  word_size, icas, atomic_test_and_set, atomic_test_and_reset, atomic_add, atomic_sub, atomic_inc,
  atomic_dec, atomic_inc_and_test,
}

-- A compare-and-swap reports success exactly if the cell held the expected value; then the cell
-- holds the new value, and otherwise what it held.
pub icas_lem :
    (ptr old_val new_val : ℕ)
    → (((icas ptr old_val new_val).0 ≡ true) ↔ (ptr ≡ old_val))
      × (ptr ≡ old_val → (icas ptr old_val new_val).1 ≡ new_val)
      × (ptr ≢ old_val → (icas ptr old_val new_val).1 ≡ ptr)
unfolding icas
icas_lem ptr old_val new_val = grind arith

-- A set succeeds (a nonzero result) exactly if a reset would have failed, each leaves bit 0 as its
-- name says and no other bit changed, and a reset undoes a set that succeeded.
pub test_and_set-reset :
    (b : ℕ)
    → ((atomic_test_and_set b).0 + (atomic_test_and_reset b).0 ≡ 1)
      × ((atomic_test_and_set b).1 % 2 ≡ 1)
      × ((atomic_test_and_reset b).1 % 2 ≡ 0)
      × ((atomic_test_and_set b).1 ≡ (atomic_test_and_reset b).1 + 1)
      × ((atomic_test_and_set b).0 ≡ 1 → (atomic_test_and_reset (atomic_test_and_set b).1).1 ≡ b)
unfolding atomic_test_and_set atomic_test_and_reset
test_and_set-reset b = ground arith

-- On 32-bit counters, subtraction undoes addition and addition undoes subtraction, `inc` and `dec`
-- are addition and subtraction of 1, and no result leaves the 32 bits.
pub atomic_counter :
    (v i : ℕ)
    → v < word_size
    → i < word_size
    → (atomic_sub (atomic_add v i) i ≡ v)
      × (atomic_add (atomic_sub v i) i ≡ v)
      × (atomic_inc v ≡ atomic_add v 1)
      × (atomic_dec v ≡ atomic_sub v 1)
      × (atomic_add v i < word_size)
      × (atomic_sub v i < word_size)
unfolding atomic_add atomic_sub atomic_inc atomic_dec
atomic_counter v i hv hi = omega arith

-- `atomic_inc_and_test` increments, and says true exactly if the counter became zero.
pub inc_and_test_iff :
    (v : ℕ)
    → ((atomic_inc_and_test v).1 ≡ atomic_inc v)
      × (((atomic_inc_and_test v).0 ≡ true) ↔ (atomic_inc v ≡ 0))
unfolding atomic_inc_and_test atomic_inc
inc_and_test_iff v = grind arith
