-- ===== src/Atomic.antt =====
-- controller/atomic.c: the x86 read-modify-write operations, each one indivisible step on the
-- 32-bit cell that it is given. An operation returns what it yields and the new cell.
pub mod Words
pub mod SpinLock
use a2pm.Common.{ℕ, ◌+◌, ◌-◌, ◌%◌, ◌^◌, Bool, true, false, ◌==◌, if◌then◌else◌}

abbrev pub word_size : ℕ
word_size = 2 ^ 32

-- `cmpxchgl src, dest`: the zero flag, and what `dest` holds afterwards.
abbrev cmpxchgl : (dest eax src : ℕ) → Bool × ℕ
cmpxchgl dest eax src = if dest == eax then (true, src) else (false, dest)

-- `bts $0, cell` and `btr $0, cell`: the carry flag is the old bit 0.
abbrev bts_zero : ℕ → Bool × ℕ
bts_zero cell = if cell % 2 == 1 then (true, cell) else (false, cell + 1)

abbrev btr_zero : ℕ → Bool × ℕ
btr_zero cell = if cell % 2 == 1 then (true, cell - 1) else (false, cell)

-- `adc reg, reg`
abbrev adc : ℕ → Bool → ℕ
adc reg carry = (reg + reg + (if carry then 1 else 0)) % word_size

-- C's `!x`
abbrev logical_not : ℕ → ℕ
logical_not x = if x == 0 then 1 else 0

-- `lahf; bt $14` moves the zero flag to the carry, and `(bool)res` tests for nonzero.
unfoldable pub icas : (ptr old_val new_val : ℕ) → Bool × ℕ
icas ptr old_val new_val =
    let (zf, cell) = cmpxchgl ptr old_val new_val in (if adc 0 zf == 0 then false else true, cell)

unfoldable pub atomic_test_and_set : ℕ → ℕ × ℕ
atomic_test_and_set b = let (carry, cell) = bts_zero b in (logical_not (adc 0 carry), cell)

unfoldable pub atomic_test_and_reset : ℕ → ℕ × ℕ
atomic_test_and_reset b = let (carry, cell) = btr_zero b in (adc 0 carry, cell)

-- `i` is the 32-bit pattern of the C argument.
unfoldable pub atomic_add : (v i : ℕ) → ℕ
atomic_add v i = (v + i) % word_size

unfoldable pub atomic_sub : (v i : ℕ) → ℕ
atomic_sub v i = (v + word_size - i) % word_size

unfoldable pub atomic_inc : ℕ → ℕ
atomic_inc v = (v + 1) % word_size

unfoldable pub atomic_dec : ℕ → ℕ
atomic_dec v = (v + word_size - 1) % word_size

unfoldable pub atomic_inc_and_test : ℕ → Bool × ℕ
atomic_inc_and_test v =
    let incremented = (v + 1) % word_size in
    let c : ℕ = if incremented == 0 then 1 else 0 in (if c == 0 then false else true, incremented)

-- One round of the loop of `spin_lock`: `xchgl` puts 1 into the lock, and the loop ends if it
-- found 0 there.
unfoldable pub spin_lock_round : ℕ → Bool × ℕ
spin_lock_round lock = (lock == 0, 1)

unfoldable pub spin_trylock : ℕ → Bool × ℕ
unfolding atomic_test_and_set
spin_trylock lock =
    let (result, cell) = atomic_test_and_set lock in (if result == 0 then false else true, cell)

-- `xchgl` with 0
unfoldable pub spin_unlock : ℕ → ℕ
spin_unlock lock = 0
