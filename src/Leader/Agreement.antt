-- ===== src/Leader/Agreement.antt =====
-- controller/leader.c: two controllers that have received the same proposals.
use a2pm.Common.{
  ◌≢◌, sym, ◌∙◌, ℕ, ◌≤◌, ◌<◌, ◌≡◌, ◌⊎◌, inl, inr, arith, false, if◌then◌else◌, Bool-cases,
}
use a2pm.Common.Int.{ℤ, pos, ◌≤ℤ◌, ◌<ℤ◌, eqb_ℤ, ≤ℤ_antisymm}
use a2pm.Leader.{Leader, minus_one, timer_value, leader_propose_threshold, do_agreement_reduction}
use a2pm.Leader.Reduction.{IsGreatest, nobody, winner, reduction_lem}

eqb_ℤ-ne : (a b : ℤ) → a ≢ b → eqb_ℤ a b ≡ false
eqb_ℤ-ne a b ne = elim (Bool-cases (eqb_ℤ a b)) [
  | inr apart ↦ apart
  | inl hit ↦ absurd (ne (≤ℤ_antisymm a b (ground arith) (ground arith)))
]

-- Every controller's proposal is there, or the period has passed.
abbrev pub IsDue : (now : ℕ) → Leader → Type 0
IsDue now s =
    (s.controllers ≤ s.last_proposal)
    ⊎ (leader_propose_threshold < timer_value now s.leader_propose_timer)

abbrev pub HaveSockets : Leader → Type 0
HaveSockets s = (i : ℕ) → i < s.last_proposal → s.leader_proposals_sockets i ≢ minus_one

-- The controller has the socket of the proposal `i` as its leader, which is as great as any.
pub record Elects (s t : Leader) (i : ℕ) : Type 0 where
  pub received : i < s.last_proposal
  pub socket : t.leader_socket ≡ s.leader_proposals_sockets i
  pub greatest : (k : ℕ) → k < s.last_proposal → s.leader_proposals k ≤ℤ s.leader_proposals i
  pub first : (k : ℕ) → k < i → s.leader_proposals k <ℤ s.leader_proposals i

reduction-Elects :
    (now : ℕ) (s : Leader)
    → IsDue now s
    → HaveSockets s
    → ((k : ℕ) × (k < s.last_proposal) × (pos 0 <ℤ s.leader_proposals k))
    → (i : ℕ) × Elects s (do_agreement_reduction now s) i
reduction-Elects now s due sockets (k, below, positive) = elim (reduction_lem now s) [
  | inl (missing, early, kept) ↦ elim due [
    | inl all ↦ absurd (omega (arith, missing, all))
    | inr late ↦ absurd (omega (arith, early, late))
  ]
  | inr (over, ended, last, (id, leader, g, elected)) ↦ go id leader g elected
]
  where
    go :
        (id leader : ℤ)
        → IsGreatest s.leader_proposals s.leader_proposals_sockets s.last_proposal id leader
        → (do_agreement_reduction now s).leader_socket
          ≡ (if eqb_ℤ leader minus_one then s.leader_socket else leader)
        → (i : ℕ) × Elects s (do_agreement_reduction now s) i
    go id leader (nobody e f h) elected = absurd (omega (arith, h k below, positive))
    go id leader (winner i lt e f up h first) elected =
        let is_socket : eqb_ℤ leader minus_one ≡ false = rw f (eqb_ℤ-ne _ _ (sockets i lt)) in
        (
          i,
          record {
            received = lt;
            socket = (rw is_socket at elected) ∙ f;
            greatest = λ j below_j. rw e at (h j below_j);
            first = λ j before. rw e at (first j before);
          },
        )

-- Two controllers whose agreements are due and that have received the same proposals, in whatever
-- order, one of them positive and none through a socket of -1: each has as its leader the socket
-- through which it received the first of the greatest proposals, and that is the same proposal for
-- both.
pub reduction-agreement :
    (now now' : ℕ) (s t : Leader)
    → IsDue now s
    → IsDue now' t
    → HaveSockets s
    → HaveSockets t
    → ((k : ℕ) × (k < s.last_proposal) × (pos 0 <ℤ s.leader_proposals k))
    → ((i : ℕ)
        → i < s.last_proposal
        → (j : ℕ) × (j < t.last_proposal) × (s.leader_proposals i ≡ t.leader_proposals j))
    → ((j : ℕ)
        → j < t.last_proposal
        → (i : ℕ) × (i < s.last_proposal) × (t.leader_proposals j ≡ s.leader_proposals i))
    → (i j : ℕ) × Elects s (do_agreement_reduction now s) i
      × Elects t (do_agreement_reduction now' t) j
      × (s.leader_proposals i ≡ t.leader_proposals j)
reduction-agreement now now' s t due due' sockets sockets' (k, below, up) sub sup =
    let (i, one) = reduction-Elects now s due sockets (k, below, up) in
    let (k', below', same) = sub k below in
    let (j, two) = reduction-Elects now' t due' sockets' (k', below', rw same at up) in
    let (j', lt_j, to) = sub i one.received in
    let (i', lt_i, from) = sup j two.received in
    let le = two.greatest j' lt_j in
    let ge = one.greatest i' lt_i in
    (i, j, one, two, ≤ℤ_antisymm _ _ (rw (sym to) at le) (rw (sym from) at ge))
