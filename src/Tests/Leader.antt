-- ===== src/Tests/Leader.antt =====
-- Runs of controller/leader.c.
use a2pm.Common.{
  inl, ℕ, ◌<◌, ◌≡◌, ◌≢◌, refl, arith, true, false, some, List, [], ◌∷◌, ◌==◌, ◌-◌, if◌then◌else◌,
}
use a2pm.Common.Int.{ℤ, pos}
use a2pm.Broadcast.{Bus}
use a2pm.Leader.{
  Leader, minus_one, leader_heartbeat_type, do_agreement_reduction, leader_heartbeat,
  initialize_leader,
}
use a2pm.Leader.Agreement.{HaveSockets, Elects, reduction-agreement}
use a2pm.Leader.Heartbeat.{here, later, heartbeat, no_heartbeat}

-- Two proposals, in the two orders.
abbrev proposals : ℕ → ℤ
proposals i = if i == 0 then pos 5 else pos 9

abbrev swapped : ℕ → ℤ
swapped i = if i == 0 then pos 9 else pos 5

abbrev sockets : ℕ → ℤ
sockets i = if i == 0 then pos 3 else pos 4

abbrev agreeing : Leader
agreeing = record {
  controllers = 2;
  leader_socket = minus_one;
  am_i_leader = false;
  heartbeat = 0;
  leader_propose_timer = 100;
  agreement_running = true;
  leader_proposals = proposals;
  leader_proposals_sockets = sockets;
  last_proposal = 2;
}

abbrev agreed : Leader
agreed = do_agreement_reduction 200 agreeing

-- Another controller, which has received them in the other order.
abbrev other : Leader
other = record agreeing { leader_proposals = swapped }

reduction-agreement_example :
    (i j : ℕ) × Elects agreeing (do_agreement_reduction 200 agreeing) i
    × Elects other (do_agreement_reduction 300 other) j
    × (proposals i ≡ swapped j)
reduction-agreement_example =
    reduction-agreement 200 300 agreeing other (inl (omega arith)) (inl (omega arith)) connected
      connected (0, omega arith, omega arith) there back
  where
    connected : HaveSockets agreeing
    connected i lt = ground arith

    there : (i : ℕ) → i < 2 → (j : ℕ) × (j < 2) × (proposals i ≡ swapped j)
    there i lt = (1 - i, omega arith, ground arith)

    back : (j : ℕ) → j < 2 → (i : ℕ) × (i < 2) × (swapped j ≡ proposals i)
    back j lt = (1 - j, omega arith, ground arith)

abbrev started : Leader
started = record {
  controllers = 2;
  leader_socket = minus_one;
  am_i_leader = false;
  heartbeat = 50;
  leader_propose_timer = 0;
  agreement_running = false;
  leader_proposals = λ _. pos 0;
  leader_proposals_sockets = λ _. pos 0;
  last_proposal = 0;
}

abbrev idle_bus : Bus
idle_bus = record {
  connections = [];
  last_controller_socket = 0;
  msg_temp = record { type = 0; size = 0; payload = pos 0 };
  new_bcast_message = false;
}

abbrev two_lines : List ℕ
two_lines = 1 ∷ 2 ∷ []

no_heartbeat_example : (false ≡ false) × (0 ≢ leader_heartbeat_type)
unfolding initialize_leader leader_heartbeat
no_heartbeat_example =
    no_heartbeat 50 (some two_lines) started idle_bus
      {t = (record started { heartbeat = 70 }, idle_bus)} refl (ground arith)
      (later here (heartbeat 70))

abbrev led : Leader
led = record started { leader_socket = pos 4 }

abbrev two_bytes : List ℕ
two_bytes = 1 ∷ 2 ∷ []
