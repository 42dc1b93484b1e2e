-- ===== src/Leader/Send.antt =====
-- `send_to_leader` of controller/leader.c: what its result says of the bytes sent.
use a2pm.Common.{
  ℕ, ◌<◌, ◌^◌, ◌≡◌, ◌≢◌, ◌⊎◌, inl, inr, arith, true, some, List, [], ◌∷◌, Bool-cases, length,
}
use a2pm.Common.Int.{negsuc, eqb_ℤ}
use a2pm.Sockets.{Outcome, failed, Wrote, eintr, sock_write}
use a2pm.Sockets.Write.{Exact, Exact-sent, IsStatus, sock_write-Exact, sock_write-status}
use a2pm.Leader.{Leader, minus_one, answer, send_to_leader}

-- If `send_to_leader` says true, there is a leader, and the whole payload was sent or `sock_write`
-- returned -1.
pub send_to_leader-true :
    (s : Leader) (script : List Outcome) (payload : List ℕ) (size : ℕ)
    → length payload ≡ size
    → 0 < size
    → (send_to_leader s script payload size).0 ≡ some true
    → (s.leader_socket ≢ minus_one)
      × (((send_to_leader s script payload size).1.sent ≡ payload)
          ⊎ ((send_to_leader s script payload size).1.status ≡ some (negsuc 0)))
unfolding send_to_leader
send_to_leader-true s script payload size h more e =
    elim (Bool-cases (eqb_ℤ s.leader_socket minus_one)) [
      | inl alone ↦ absurd (ground arith)
      | inr led ↦ (
        ground arith,
        rw led (
            sent_or_failed (sock_write script payload size) (sock_write-Exact script payload size h)
              (sock_write-status script payload size) (rw led at e)),
      )
    ]
  where
    sent_or_failed :
        (w : Wrote)
        → Exact size payload w
        → IsStatus size w.status
        → answer w size ≡ some true
        → (w.sent ≡ payload) ⊎ (w.status ≡ some (negsuc 0))
    sent_or_failed w x (inl waits) a = absurd (ground arith)
    sent_or_failed w x (inr (inl done)) a = inl (Exact-sent x done more)
    sent_or_failed w x (inr (inr (inl zero_sent))) a = absurd (ground arith)
    sent_or_failed w x (inr (inr (inr error))) a = inr error

-- An error other than an interrupt on the first call makes `send_to_leader` say true, though nothing
-- was sent.
pub send_to_leader-error :
    (s : Leader) (errno : ℕ) (script : List Outcome) (payload : List ℕ) (size : ℕ)
    → s.leader_socket ≢ minus_one
    → errno ≢ eintr
    → 0 < size
    → size < 2 ^ 63
    → ((send_to_leader s (failed errno ∷ script) payload size).0 ≡ some true)
      × ((send_to_leader s (failed errno ∷ script) payload size).1.sent ≡ [])
unfolding send_to_leader
send_to_leader-error s errno script payload size lead other more small = ground arith
