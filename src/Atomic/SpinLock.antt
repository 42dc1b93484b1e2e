-- ===== src/Atomic/SpinLock.antt =====
-- Any number of threads on one spinlock of controller/atomic.c, their operations interleaved in any
-- order. A thread unlocks only while it holds the lock.
use a2pm.Common.{
  Bool, Bool-cases, ℕ, ◌≤◌, ◌≡◌, ◌≢◌, ◌⊎◌, inl, inr, true, false, arith, if◌then◌else◌, ◌==◌,
}
use a2pm.Common.Family.{update}
use a2pm.Atomic.{spin_lock_round, spin_trylock, spin_unlock}

pub data Pc : Type 0 where
  outside spinning critical : Pc

-- What a thread does next: enter `spin_lock`, run a round of its loop, call `spin_trylock`, or
-- call `spin_unlock`.
pub data Action : Type 0 where
  begin_lock round trylock unlock : Action

pub record System : Type 0 where
  pub lock : ℕ
  pub pc : ℕ → Pc

-- The thread's part of a step. An action that its place does not allow changes nothing.
unfoldable pub thread_step : Action → Pc → ℕ → Pc × ℕ
unfolding spin_lock_round spin_trylock spin_unlock
thread_step begin_lock outside lock = (spinning, lock)
thread_step round spinning lock =
    let (acquired, cell) = spin_lock_round lock in (if acquired then critical else spinning, cell)
thread_step trylock outside lock =
    let (acquired, cell) = spin_trylock lock in (if acquired then critical else outside, cell)
thread_step unlock critical lock = (outside, spin_unlock lock)
thread_step _ pc lock = (pc, lock)

abbrev pub step : System → ℕ → Action → System
step s i a =
    let (pc, cell) = thread_step a (s.pc i) s.lock in record { lock = cell; pc = update s.pc i pc }

pub data Step (s : System) : System → Type 0 where
  act : (i : ℕ) (a : Action) → Step s (step s i a)

-- `spinlock_init`, with every thread outside
abbrev pub init : System
init = record { lock = 0; pc = λ _. outside }

pub data Reach : System → Type 0 where
  start : Reach init
  later : {s t : System} → Reach s → Step s t → Reach t

-- The lock is 0 or 1, and it is 1 exactly while one thread is in the critical section.
pub record Inv (s : System) : Type 0 where
  pub range : s.lock ≤ 1
  pub held : (i : ℕ) → s.pc i ≡ critical → s.lock ≡ 1
  pub unique : (i j : ℕ) → s.pc i ≡ critical → s.pc j ≡ critical → i ≡ j
  pub holder : s.lock ≡ 1 → (i : ℕ) × (s.pc i ≡ critical)

abbrev is_critical : Pc → Bool
is_critical critical = true
is_critical _ = false

-- What one thread's step can do to itself and to the lock: neither enters nor leaves, takes a free
-- lock, or gives the lock back.
abbrev Effect : (p q : Pc) (l m : ℕ) → Type 0
Effect p q l m =
    ((m ≡ l) × (is_critical q ≡ is_critical p))
    ⊎ (((l ≡ 0) × (m ≡ 1) × (q ≡ critical)) ⊎ ((p ≡ critical) × (m ≡ 0) × (q ≡ outside)))

thread_step-Effect :
    (a : Action) (p : Pc) (l : ℕ) → l ≤ 1 → Effect p (thread_step a p l).0 l (thread_step a p l).1
unfolding thread_step
thread_step-Effect a p l h = ground arith

module _ {s : System} (v : Inv s) (i : ℕ) (q : Pc) (m : ℕ) (e : Effect (s.pc i) q s.lock m) where
  abbrev pc' : ℕ → Pc
  pc' = update s.pc i q

  effect_held : (j : ℕ) → pc' j ≡ critical → m ≡ 1
  effect_held j c = ground (arith, v.held j, v.held i, v.unique i j)

  effect_unique : (j k : ℕ) → pc' j ≡ critical → pc' k ≡ critical → j ≡ k
  effect_unique j k c d =
      ground (arith, v.held j, v.held k, v.unique j k, v.unique i j, v.unique i k)

module _ {s : System} (v : Inv s) (i : ℕ) (q : Pc) (m : ℕ) where
  Effect-holder : Effect (s.pc i) q s.lock m → m ≡ 1 → (j : ℕ) × (update s.pc i q j ≡ critical)
  Effect-holder (inl (same, kept)) h = let (j, c) = v.holder (omega arith) in (j, ground arith)
  Effect-holder (inr (inl (free, taken, c))) h = (i, ground arith)
  Effect-holder (inr (inr (was, freed, out))) h = absurd (omega arith)

  Effect-Inv : Effect (s.pc i) q s.lock m → Inv (record { lock = m; pc = update s.pc i q })
  Effect-Inv e = record {
    range = ground (arith, v.range);
    held = effect_held v i q m e;
    unique = effect_unique v i q m e;
    holder = Effect-holder e;
  }

pub Step-Inv : {s t : System} → Step s t → Inv s → Inv t
Step-Inv {s} (act i a) v =
    Effect-Inv v i (thread_step a (s.pc i) s.lock).0 (thread_step a (s.pc i) s.lock).1
      (thread_step-Effect a (s.pc i) s.lock v.range)

pub Reach-Inv : {s : System} → Reach s → Inv s
Reach-Inv start = record {
  range = omega arith;
  held = λ i c. cc;
  unique = λ i j c d. cc;
  holder = λ h. absurd (omega arith);
}
Reach-Inv (later r st) = Step-Inv st (Reach-Inv r)

-- Of any number of threads, in any interleaving, no two are in the critical section together.
pub mutual_exclusion :
    {s : System} → Reach s → (i j : ℕ) → s.pc i ≡ critical → s.pc j ≡ critical → i ≡ j
mutual_exclusion r i j c d = (Reach-Inv r).unique i j c d

-- The lock is never lost: in every reachable state a spinning thread enters with its next round, or
-- some thread is in the critical section and its `spin_unlock` leads to a state where it does.
pub no_deadlock :
    {s : System}
    → Reach s
    → (i : ℕ) → s.pc i ≡ spinning
    → ((step s i round).pc i ≡ critical)
      ⊎ ((j : ℕ) × (s.pc j ≡ critical) × ((step (step s j unlock) i round).pc i ≡ critical))
unfolding thread_step
no_deadlock {s} r i e = elim (Bool-cases (s.lock == 0)) [
  | inl free ↦ inl (ground arith)
  | inr taken ↦
      let v = Reach-Inv r in
      let (j, c) = v.holder (ground (arith, v.range)) in inr (j, c, ground arith)
]

-- A thread that calls `spin_trylock` outside enters if the lock is free; if it is taken, it stays
-- outside and the lock is as it was.
pub trylock_lem :
    {s : System}
    → Reach s
    → (i : ℕ) → s.pc i ≡ outside
    → (s.lock ≡ 0 → ((step s i trylock).pc i ≡ critical) × ((step s i trylock).lock ≡ 1))
      × (s.lock ≢ 0 → ((step s i trylock).pc i ≡ outside) × ((step s i trylock).lock ≡ s.lock))
unfolding thread_step
trylock_lem {s} r i e = (λ h. ground arith, λ h. ground (arith, (Reach-Inv r).range))
