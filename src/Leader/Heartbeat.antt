-- ===== src/Leader/Heartbeat.antt =====
-- The rounds of `leader_loop` in controller/leader.c, with the messages that arrive between them.
use a2pm.Common.{ℕ, ◌≡◌, ◌≢◌, inl, inr, arith, false, Option, none, some, List, Option-cases}
use a2pm.Common.Int.{ℤ}
use a2pm.Broadcast.{Bus, do_bcast}
use a2pm.Leader.{
  Leader, Interface, leader_heartbeat_type, leader_propose, leader_heartbeat, leader_round,
  do_leader_election, do_agreement_reduction, suspect_leader, initialize_leader,
}

-- What happens to the two threads of a controller: a round of `leader_loop`, the arrival of a proposal
-- or of a heartbeat, and the sending of the pending message by the broadcast thread.
pub data Step : Leader × Bus → Leader × Bus → Type 0 where
  round :
      {s t : Leader × Bus} (now : ℕ) (ifaddrs : Option (List Interface))
      → leader_round now ifaddrs s ≡ some t
      → Step s t
  proposal :
      {s t : Leader} {bus : Bus} (sock content : ℤ)
      → leader_propose sock content s ≡ some t
      → Step (s, bus) (t, bus)
  heartbeat : {s : Leader} {bus : Bus} (now : ℕ) → Step (s, bus) (leader_heartbeat now s, bus)
  sending : {s : Leader} {bus : Bus} → Step (s, bus) (s, (do_bcast bus).1)

pub data Reach (start : Leader × Bus) : Leader × Bus → Type 0 where
  here : Reach start start
  later : {s t : Leader × Bus} → Reach start s → Step s t → Reach start t

-- The controller does not lead, and the pending message is no heartbeat.
abbrev IsSilent : Leader × Bus → Type 0
IsSilent (s, bus) = (s.am_i_leader ≡ false) × (bus.msg_temp.type ≢ leader_heartbeat_type)

reduction-silent :
    (now : ℕ) (s : Leader) → (do_agreement_reduction now s).am_i_leader ≡ s.am_i_leader
unfolding do_agreement_reduction
reduction-silent now s = ground arith

election-silent :
    (now : ℕ) (ifaddrs : Option (List Interface)) (s t : Leader) (bus bus' : Bus)
    → s.am_i_leader ≡ false
    → bus.msg_temp.type ≢ leader_heartbeat_type
    → do_leader_election now ifaddrs (s, bus) ≡ some (t, bus')
    → (t.am_i_leader ≡ false) × (bus'.msg_temp.type ≢ leader_heartbeat_type)
unfolding do_leader_election
election-silent now ifaddrs s t bus bus' a b e = ground (arith, reduction-silent now s)

suspect-silent :
    (now : ℕ) (s : Leader) → s.am_i_leader ≡ false → (suspect_leader now s).am_i_leader ≡ false
unfolding suspect_leader
suspect-silent now s a = ground arith

round-silent :
    (now : ℕ) (ifaddrs : Option (List Interface)) (s t : Leader) (bus bus' : Bus)
    → s.am_i_leader ≡ false
    → bus.msg_temp.type ≢ leader_heartbeat_type
    → leader_round now ifaddrs (s, bus) ≡ some (t, bus')
    → (t.am_i_leader ≡ false) × (bus'.msg_temp.type ≢ leader_heartbeat_type)
unfolding leader_round
round-silent now ifaddrs s t bus bus' a b e =
    let suspected = suspect-silent now s a in
    elim (Option-cases (do_leader_election now ifaddrs (suspect_leader now s, bus))) [
      | inl failed ↦ ground arith
      | inr ((u, bus1), elected) ↦
          let quiet =
            election-silent now ifaddrs (suspect_leader now s) u bus bus1 suspected b elected in
          ground arith
    ]

Step-IsSilent : {s t : Leader × Bus} → Step s t → IsSilent s → IsSilent t
unfolding leader_propose leader_heartbeat do_bcast
Step-IsSilent {s} {t} (round now ifaddrs e) q = round-silent now ifaddrs s.0 t.0 s.1 t.1 q.0 q.1 e
Step-IsSilent (proposal sock content e) q = ground arith
Step-IsSilent (heartbeat now) q = q
Step-IsSilent sending q = q

Reach-IsSilent : {s t : Leader × Bus} → IsSilent s → Reach s t → IsSilent t
Reach-IsSilent q here = q
Reach-IsSilent q (later r st) = Step-IsSilent st (Reach-IsSilent q r)

initialize_leader-silent :
    {Text : Type 0} (now : ℕ) (lines : Option (List Text)) (s : Leader)
    → initialize_leader now lines ≡ some s
    → s.am_i_leader ≡ false
unfolding initialize_leader
initialize_leader-silent now none s e = cc
initialize_leader-silent now (some lines) s e = ground arith

-- No controller ever considers itself the leader, and none ever broadcasts a heartbeat: from its start
-- on, whatever rounds, proposals, heartbeats and sendings follow, `am_i_leader` is false and the
-- message that is pending or was sent last is no heartbeat.
pub no_heartbeat :
    {Text : Type 0} (now : ℕ) (lines : Option (List Text)) (s : Leader) (bus : Bus)
    {t : Leader × Bus}
    → initialize_leader now lines ≡ some s
    → bus.msg_temp.type ≢ leader_heartbeat_type
    → Reach (s, bus) t
    → (t.0.am_i_leader ≡ false) × (t.1.msg_temp.type ≢ leader_heartbeat_type)
no_heartbeat now lines s bus e b r =
    Reach-IsSilent {s = (s, bus)} (initialize_leader-silent now lines s e, b) r
