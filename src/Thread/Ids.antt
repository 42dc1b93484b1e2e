-- ===== src/Thread/Ids.antt =====
-- Any number of threads in controller/thread.c, interleaved in any order: their numbers, and what
-- becomes of their argument blocks.
use a2pm.Common.{
  ℕ, ◌+◌, ◌%◌, ◌≤◌, ◌<◌, ◌≡◌, ◌⊎◌, refl, sym, arith, Bool, true, false, ◌&&◌, Option, some, none,
  ◌==◌, if◌then◌else◌,
}
use a2pm.Common.Family.{
  update, count, count-agree, count-le, count-none, count-two, count-at_most_one,
}
use a2pm.Atomic.{word_size}
use a2pm.Thread.{Pc, looking, loaded, running, returned, System, helper_step, step}

-- `n` threads are ever created; those from `n` on take no step.
pub data Step (n : ℕ) (arg : ℕ → ℕ) (s : System) : System → Type 0 where
  pick : (i : ℕ) → i < n → Step n arg s (step arg s i)

abbrev pub init : System
init = record { thread_counter = 0; pc = λ _. looking; freed = λ _. 0 }

pub data Reach (n : ℕ) (arg : ℕ → ℕ) : System → Type 0 where
  start : Reach n arg init
  later : {s t : System} → Reach n arg s → Step n arg s t → Reach n arg t

abbrev pub tid_of : Pc → Option ℕ
tid_of (running tid) = some tid
tid_of (returned tid) = some tid
tid_of _ = none

abbrev is_numbered : Pc → Bool
is_numbered (running _) = true
is_numbered (returned _) = true
is_numbered _ = false

abbrev pub is_returned : Pc → Bool
is_returned (returned _) = true
is_returned _ = false

-- The counter counts the numbered threads; numbers are distinct and between 1 and the counter.
record Inv (n : ℕ) (s : System) : Type 0 where
  counted : s.thread_counter ≡ count n (λ i. is_numbered (s.pc i))
  range : (i t : ℕ) → tid_of (s.pc i) ≡ some t → (1 ≤ t) × (t ≤ s.thread_counter)
  unique : (i j t : ℕ) → tid_of (s.pc i) ≡ some t → tid_of (s.pc j) ≡ some t → i ≡ j

-- What a step can do: leave the numbers as they are, or give the thread the next one.
abbrev Effect : (p q : Pc) (c d : ℕ) → Type 0
Effect p q c d =
    ((d ≡ c) × (is_numbered q ≡ is_numbered p) × (tid_of q ≡ tid_of p))
    ⊎ ((d ≡ (c + 1) % word_size) × (is_numbered p ≡ false) × (q ≡ running d))

helper_step-Effect :
    (arg : ℕ) (p : Pc) (s : System)
    → Effect p (helper_step arg p s).0 s.thread_counter (helper_step arg p s).1.thread_counter
unfolding helper_step
helper_step-Effect arg looking s = ground arith
helper_step-Effect arg (loaded old_counter) s = ground arith
helper_step-Effect arg (running tid) s = ground arith
helper_step-Effect arg (returned tid) s = ground arith

-- The step of thread `i` from `s` to the place `q` and the counter `d`.
module _ {n : ℕ} {s : System} (small : n < word_size) (v : Inv n s) (i : ℕ) (lt : i < n) (q : Pc)
    (d : ℕ) (e : Effect (s.pc i) q s.thread_counter d) where
  abbrev pc' : ℕ → Pc
  pc' = update s.pc i q

  numbered_count :
      count n (λ j. is_numbered (pc' j)) + (if is_numbered (s.pc i) then 1 else 0)
      ≡ count n (λ j. is_numbered (s.pc j)) + (if is_numbered q then 1 else 0)
  numbered_count =
      let changed =
        count-agree n i (λ j. is_numbered (s.pc j)) (λ j. is_numbered (pc' j))
          (λ j ne. ground arith) lt in
      ground arith

  effect_counted : d ≡ count n (λ j. is_numbered (pc' j))
  effect_counted =
      let few = count-le n (λ j. is_numbered (pc' j)) in ground (arith, numbered_count, v.counted)

  counter-le : s.thread_counter ≤ d
  counter-le =
      let few = count-le n (λ j. is_numbered (pc' j)) in ground (arith, numbered_count, v.counted)

  effect_range : (j t : ℕ) → tid_of (pc' j) ≡ some t → (1 ≤ t) × (t ≤ d)
  effect_range j t h =
      ground
        (arith, counter-le, v.range j t, v.range i t, effect_counted, numbered_count, v.counted)

  effect_unique : (j k t : ℕ) → tid_of (pc' j) ≡ some t → tid_of (pc' k) ≡ some t → j ≡ k
  effect_unique j k t hj hk = ground (
    arith,
    v.unique j k t,
    v.unique i k t,
    v.unique i j t,
    v.range j t,
    v.range k t,
    effect_counted,
    numbered_count,
    v.counted,
  )

Step-Inv : {n : ℕ} {arg : ℕ → ℕ} {s t : System} → n < word_size → Step n arg s t → Inv n s → Inv n t
Step-Inv {n} {arg} {s} small (pick i lt) v = record {
  counted = effect_counted small v i lt q d e;
  range = effect_range small v i lt q d e;
  unique = effect_unique small v i lt q d e;
}
  where
    q : Pc
    q = (helper_step (arg i) (s.pc i) s).0

    d : ℕ
    d = (helper_step (arg i) (s.pc i) s).1.thread_counter

    e : Effect (s.pc i) q s.thread_counter d
    e = helper_step-Effect (arg i) (s.pc i) s

Reach-Inv : {n : ℕ} {arg : ℕ → ℕ} {s : System} → n < word_size → Reach n arg s → Inv n s
Reach-Inv {n} small start = record {
  counted = sym (count-none n (λ _. false) (λ _. refl));
  range = λ i t h. cc;
  unique = λ i j t g h. cc;
}
Reach-Inv small (later r st) = Step-Inv small st (Reach-Inv small r)

-- Of fewer than 2 ^ 32 threads, in any interleaving of their loads and compare-and-swaps, no two
-- have the same number, and each number lies between 1 and the number of threads.
pub tids_unique :
    {n : ℕ} {arg : ℕ → ℕ} {s : System}
    → n < word_size
    → Reach n arg s
    → (i j t : ℕ) → tid_of (s.pc i) ≡ some t
    → tid_of (s.pc j) ≡ some t
    → (i ≡ j) × (1 ≤ t) × (t ≤ n)
tids_unique {n} {s = s} small r i j t hi hj =
    let v = Reach-Inv small r in
    let few = count-le n (λ k. is_numbered (s.pc k)) in
    (v.unique i j t hi hj, (v.range i t hi).0, omega (arith, (v.range i t hi).1, v.counted))

abbrev has_freed : (arg : ℕ → ℕ) → (ℕ → Pc) → ℕ → ℕ → Bool
has_freed arg pc b i = is_returned (pc i) && arg i == b

-- What a step frees: the thread's own block, as it returns.
helper_step-freed :
    (arg : ℕ) (p : Pc) (s : System) (b : ℕ)
    → (helper_step arg p s).1.freed b + (if is_returned p && arg == b then 1 else 0)
      ≡ s.freed b + (if is_returned (helper_step arg p s).0 && arg == b then 1 else 0)
unfolding helper_step
helper_step-freed arg looking s b = ground arith
helper_step-freed arg (loaded old_counter) s b = ground arith
helper_step-freed arg (running tid) s b = ground arith
helper_step-freed arg (returned tid) s b = ground arith

-- A block is freed once for each thread that was given it and has returned.
pub freed-count :
    {n : ℕ} {arg : ℕ → ℕ} {s : System}
    → Reach n arg s
    → (b : ℕ) → s.freed b ≡ count n (λ i. is_returned (s.pc i) && arg i == b)
freed-count {n} start b = sym (count-none n (λ _. false) (λ _. refl))
freed-count {n} {arg} (later {s} r (pick i lt)) b =
    let q = (helper_step (arg i) (s.pc i) s).0 in
    let moved =
      count-agree n i (has_freed arg s.pc b) (has_freed arg (update s.pc i q) b)
        (λ j ne. ground arith) lt in
    ground (arith, moved, helper_step-freed (arg i) (s.pc i) s b, freed-count r b)

-- If no two threads were given the same block, no block is ever freed twice.
pub freed_once :
    {n : ℕ} {arg : ℕ → ℕ} {s : System}
    → ((i j : ℕ) → arg i ≡ arg j → i ≡ j)
    → Reach n arg s
    → (b : ℕ) → s.freed b ≤ 1
freed_once {n} {arg} {s} apart r b = omega (
  arith,
  freed-count r b,
  count-at_most_one n (has_freed arg s.pc b) (λ i j hi hj. ground (arith, apart i j)),
)

-- A block that `create_threads` shares between two threads has been freed twice, or more often, once
-- both have returned.
pub shared_arg-double_free :
    {n : ℕ} {arg : ℕ → ℕ} {s : System}
    → Reach n arg s
    → (i j : ℕ) → i < j
    → j < n
    → arg i ≡ arg j
    → is_returned (s.pc i) ≡ true
    → is_returned (s.pc j) ≡ true
    → 2 ≤ s.freed (arg j)
shared_arg-double_free {n} {arg} {s} r i j l h e di dj = omega (
  arith,
  freed-count r (arg j),
  count-two n i j (has_freed arg s.pc (arg j)) l h (ground arith) (ground arith),
)
