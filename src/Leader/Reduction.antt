-- ===== src/Leader/Reduction.antt =====
-- `do_agreement_reduction` of controller/leader.c: whom the proposals elect.
use a2pm.Common.{
  ltb, leb, ltb→lt, ℕ, zero, suc, ◌+◌, ◌≤◌, ◌<◌, ◌≡◌, ◌⊎◌, refl, inl, inr, arith, false, ◌==◌,
  if◌then◌else◌, Bool-cases, ==_iff,
}
use native.Mathlib.Numerals.{add-one}
use a2pm.Common.Int.{ℤ, pos, ◌≤ℤ◌, ◌<ℤ◌, ltb_ℤ, eqb_ℤ, ≤ℤ_antisymm}
use a2pm.Leader.{
  Leader, minus_one, greatest, timer_value, leader_propose_threshold, do_agreement_reduction,
}

-- Of the first `n` proposals, `id` is the greatest and `leader` the socket of the first that has it;
-- without a positive one they are 0 and -1.
pub data IsGreatest (p s : ℕ → ℤ) (n : ℕ) (id leader : ℤ) : Type 0 where
  nobody :
      id ≡ pos 0
      → leader ≡ minus_one
      → ((j : ℕ) → j < n → p j ≤ℤ pos 0)
      → IsGreatest p s n id leader
  winner :
      (i : ℕ)
      → i < n
      → id ≡ p i
      → leader ≡ s i
      → pos 0 <ℤ id
      → ((j : ℕ) → j < n → p j ≤ℤ id)
      → ((j : ℕ) → j < i → p j <ℤ id)
      → IsGreatest p s n id leader

last_or_below : (j n : ℕ) → j < suc n → (j ≡ n) ⊎ (j < n)
last_or_below j n h = elim (Bool-cases (j == n)) [
  | inl e ↦ inl ((==_iff j n).0 e)
  | inr ne ↦ inr (ground arith)
]

module _ (p s : ℕ → ℤ) where
  below-suc :
      (n : ℕ) (id : ℤ) → ((j : ℕ) → j < n → p j ≤ℤ id) → p n ≤ℤ id → (j : ℕ) → j < suc n → p j ≤ℤ id
  below-suc n id h last j lt = elim (last_or_below j n lt) [
    | inl e ↦ rw e last
    | inr below ↦ h j below
  ]

  take-winner :
      (n : ℕ) {id leader : ℤ}
      → IsGreatest p s n id leader
      → id <ℤ p n
      → IsGreatest p s (suc n) (p n) (s n)
  take-winner n (nobody e f h) lt =
      winner n (omega arith) refl refl (ground arith)
        (below-suc n (p n) (λ j below. ground (arith, h j below)) (omega arith))
        (λ j below. ground (arith, h j below))
  take-winner n (winner i below e f positive h first) lt =
      winner n (omega arith) refl refl (omega arith)
        (below-suc n (p n) (λ j under. ground (arith, h j under)) (omega arith))
        (λ j under. ground (arith, h j under))

  keep-winner :
      (n : ℕ) {id leader : ℤ}
      → IsGreatest p s n id leader
      → p n ≤ℤ id
      → IsGreatest p s (suc n) id leader
  keep-winner n {id} (nobody e f h) le = nobody e f (below-suc n (pos 0) h (ground arith))
  keep-winner n {id} (winner i below e f positive h first) le =
      winner i (omega arith) e f positive (below-suc n id h le) first

  greatest-IsGreatest_from :
      (rounds i n : ℕ) (id leader : ℤ)
      → i + rounds ≡ n
      → IsGreatest p s i id leader
      → IsGreatest p s n (greatest p s rounds i id leader).0 (greatest p s rounds i id leader).1
  unfolding greatest
  greatest-IsGreatest_from zero i n id leader e g = let same : n ≡ i = omega arith in rw same g
  greatest-IsGreatest_from (suc rounds) i n id leader e g = elim (Bool-cases (ltb_ℤ id (p i))) [
    | inl better ↦
        rw (better, greatest, add-one)
          (greatest-IsGreatest_from rounds (suc i) n (p i) (s i) (omega arith)
            (take-winner i g (ground arith)))
    | inr worse ↦
        rw (worse, greatest, add-one)
          (greatest-IsGreatest_from rounds (suc i) n id leader (omega arith)
            (keep-winner i g (ground arith)))
  ]

  pub greatest-IsGreatest :
      (n : ℕ)
      → IsGreatest p s n
          (greatest p s n 0 (pos 0) minus_one).0
          (greatest p s n 0 (pos 0) minus_one).1
  greatest-IsGreatest n =
      greatest-IsGreatest_from n 0 n (pos 0) minus_one (omega arith)
        (nobody refl refl (λ j lt. absurd (omega arith)))

IsGreatest-bound :
    {p s : ℕ → ℤ} {n : ℕ} {id leader : ℤ}
    → IsGreatest p s n id leader
    → ((j : ℕ) → j < n → p j ≤ℤ id) × (pos 0 ≤ℤ id)
IsGreatest-bound (nobody e f h) = (λ j lt. ground (arith, h j), ground arith)
IsGreatest-bound (winner i below e f positive h first) = (h, omega arith)

IsGreatest-le :
    {p s p' s' : ℕ → ℤ} {n n' : ℕ} {id leader id' leader' : ℤ}
    → IsGreatest p s n id leader
    → IsGreatest p' s' n' id' leader'
    → ((i : ℕ) → i < n → (j : ℕ) × (j < n') × (p i ≡ p' j))
    → id ≤ℤ id'
IsGreatest-le (nobody e f h) g' sub = ground (arith, (IsGreatest-bound g').1)
IsGreatest-le (winner i below e f positive h first) g' sub =
    let (j, lt, same) = sub i below in ground (arith, (IsGreatest-bound g').0 j lt)

-- Two controllers that have received the same proposals, in whatever order and through whatever
-- sockets, elect the same proposal.
pub greatest-agreement :
    (p s p' s' : ℕ → ℤ) (n n' : ℕ)
    → ((i : ℕ) → i < n → (j : ℕ) × (j < n') × (p i ≡ p' j))
    → ((j : ℕ) → j < n' → (i : ℕ) × (i < n) × (p' j ≡ p i))
    → (greatest p s n 0 (pos 0) minus_one).0 ≡ (greatest p' s' n' 0 (pos 0) minus_one).0
greatest-agreement p s p' s' n n' sub sup =
    let g = greatest-IsGreatest p s n in
    let g' = greatest-IsGreatest p' s' n' in
    ≤ℤ_antisymm (greatest p s n 0 (pos 0) minus_one).0 (greatest p' s' n' 0 (pos 0) minus_one).0
      (IsGreatest-le g g' sub) (IsGreatest-le g' g sup)

pub reduction_lem :
    (now : ℕ) (s : Leader)
    → let t = do_agreement_reduction now s in
      ((s.last_proposal < s.controllers)
        × (timer_value now s.leader_propose_timer ≤ leader_propose_threshold)
        × (t ≡ s))
      ⊎ (((s.controllers ≤ s.last_proposal)
            ⊎ (leader_propose_threshold < timer_value now s.leader_propose_timer))
          × (t.agreement_running ≡ false)
          × (t.last_proposal ≡ s.last_proposal)
          × ((id leader : ℤ) × IsGreatest s.leader_proposals s.leader_proposals_sockets
                s.last_proposal id leader
              × (t.leader_socket ≡ (if eqb_ℤ leader minus_one then s.leader_socket else leader))))
unfolding do_agreement_reduction
reduction_lem now s = elim (Bool-cases (ltb s.last_proposal s.controllers)) [
  | inr all_here ↦ inr (due (inl (ground arith)))
  | inl missing ↦
      elim (Bool-cases (leb (timer_value now s.leader_propose_timer) leader_propose_threshold)) [
        | inl early ↦ inl (ltb→lt _ _ missing, ground arith, ground arith)
        | inr late ↦ inr (due (inr (ground arith)))
      ]
]
  where
    due :
        (s.controllers ≤ s.last_proposal)
          ⊎ (leader_propose_threshold < timer_value now s.leader_propose_timer)
        → ((s.controllers ≤ s.last_proposal)
            ⊎ (leader_propose_threshold < timer_value now s.leader_propose_timer))
          × ((do_agreement_reduction now s).agreement_running ≡ false)
          × ((do_agreement_reduction now s).last_proposal ≡ s.last_proposal)
          × ((id leader : ℤ) × IsGreatest s.leader_proposals s.leader_proposals_sockets
                s.last_proposal id leader
              × ((do_agreement_reduction now s).leader_socket
                  ≡ (if eqb_ℤ leader minus_one then s.leader_socket else leader)))
    due h = (
      h,
      ground arith,
      ground arith,
      (
        (greatest s.leader_proposals s.leader_proposals_sockets s.last_proposal 0 (pos 0)
            minus_one).0,
        (greatest s.leader_proposals s.leader_proposals_sockets s.last_proposal 0 (pos 0)
            minus_one).1,
        greatest-IsGreatest s.leader_proposals s.leader_proposals_sockets s.last_proposal,
        ground arith,
      ),
    )
