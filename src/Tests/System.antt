-- ===== src/Tests/System.antt =====
-- Runs of the whole of controller/server.c, and of its rates.
use a2pm.Common.{ℕ, ◌+◌, ◌/◌, ◌≡◌, ◌≢◌, refl, Bool, true, false, some, List, [], ◌∷◌}
use a2pm.Common.Family.{update}
use a2pm.Sockets.{htons}
use a2pm.Balancer.Vms.{VirtualMachine, add}
use a2pm.Controller.{active, VmService, VmData, Server, announce}
use a2pm.Controller.Table.{AreWellFormed}
use a2pm.Controller.Communication.{Models, start}
use a2pm.Controller.Accept.{
  Answer, service_info, Peer, fault, registered, accept_new_client, initial,
}
use a2pm.Controller.System.{System, connects, Reach, here, next, AreServed, system-IsSound}
use a2pm.Controller.Rates.{Average, Event, stored, averaged, array_run}
use a2pm.Controller.Rates.Pending.{pending, pending_run, view, array_run-pending_run}
use a2pm.Common.Text.{codes}
use a2pm.Common.Int.{pos, negsuc}
use a2pm.Broadcast.{Bus}
use a2pm.Leader.{Leader, initialize_leader}
use a2pm.Controller.Startup.{
  Listen, Machine, Running, running, start_server, accept_load_balancer, with_leader,
  with_listeners, start_controller,
}
use a2pm.Controller.Startup.Ready.{IsReady, CanStart, start_controller-IsReady}
use a2pm.Tests.Connections.{names, no_services, two_lines, bus, starts_well}

instance abbrev pub whole_average : Average ℕ
whole_average = record { nought = 0; plus = λ a b. a + b; over = λ a n. a / n }

abbrev pub info : VmService
info = record { service = 1; state = active; provided_port = 8080 }

abbrev pub blank_vm : VmData ℕ
blank_vm = record {
  socket = 0;
  ip_address = "";
  port = 0;
  service_info = record { service = 9; state = active; provided_port = 0 };
  last_features = 0;
  last_system_features_stored = false;
}

abbrev pub zeroed : VirtualMachine
zeroed = record { ip = ""; port = 0; service = 0; op = add }

abbrev pub fresh_server : Server ℕ ℕ
fresh_server = initial (λ service slot. blank_vm) (λ i. 0) zeroed

abbrev pub models : Models ℕ ℕ
models = record { rejection_rate = λ last current init. 1; crashes_soon = λ last current. false }

abbrev pub read_nothing : List ℕ → ℕ
read_nothing m = 0

abbrev pub vm_peer : Peer
vm_peer = record { socket = 7; ip = "10.0.0.1"; port = 4000 }

abbrev pub first_vm : VmData ℕ
first_vm = record blank_vm { service_info = info; ip_address = "10.0.0.1"; socket = 7; port = 4000 }

abbrev pub first_server : Server ℕ ℕ
first_server = record fresh_server {
  groups = update fresh_server.groups 1 (record (fresh_server.groups 1) {
    vm_data_set = update (λ slot. blank_vm) 0 first_vm;
    current_vms = 1;
  });
  virt_machine = record { ip = "10.0.0.1"; port = 36895; service = 1; op = add };
  state_man_vm = true;
  manage_locked = true;
}

pub first_vm_connects :
    accept_new_client (service_info info) [] vm_peer true fresh_server
    ≡ registered first_server (some first_vm)
unfolding accept_new_client announce htons
first_vm_connects = refl

abbrev pub first_system : System ℕ ℕ
first_system = record { server = first_server; threads = start first_vm 0 ∷ [] }

first_system-Reach :
    Reach models read_nothing (record { server = fresh_server; threads = [] }) first_system
first_system-Reach =
    next here
      (connects (service_info info) [] vm_peer true 0 first_server first_vm first_vm_connects)

system-IsSound_example :
    AreWellFormed first_server
    × AreServed (start first_vm 0 ∷ [])
    × ((first : Answer) (answers : List Answer) (peer : Peer) (created : Bool)
        → accept_new_client first answers peer created first_server ≢ fault)
system-IsSound_example =
    system-IsSound models read_nothing (λ service slot. blank_vm) (λ i. 0) zeroed first_system
      first_system-Reach

abbrev events : List (Event ℕ)
events = stored 4 ∷ stored 8 ∷ averaged ∷ averaged ∷ stored 5 ∷ []

array_run-pending_run_example :
    view (array_run events fresh_server)
    ≡ pending_run fresh_server.rej_bytes events (pending fresh_server)
array_run-pending_run_example = array_run-pending_run events fresh_server

two_rates : pending_run 60 events [] ≡ some (5 ∷ [], 6 ∷ [])
unfolding pending_run
two_rates = refl

abbrev listens : ℕ → Listen
listens fd = record { socket = some fd; binds = true; listens = true }

-- 70000 is bound as 4464.
abbrev pub three_arguments : List (List ℕ)
three_arguments = codes "4000" ∷ codes " 70000" ∷ codes "0" ∷ []

abbrev pub machine : Machine ℕ ℕ
machine = record {
  vm_server = listens 3;
  balancer_server = listens 4;
  udp_listens = true;
  controllers = some two_lines;
  now = 1000;
  accepted = some 8;
  created = true;
  left = pos 1;
  memory = λ service slot. blank_vm;
  rates = λ i. 0;
  zeroed = zeroed;
}

abbrev two_controllers : Leader
two_controllers = record {
  controllers = 2;
  leader_socket = negsuc 0;
  am_i_leader = false;
  heartbeat = 1000;
  leader_propose_timer = 0;
  agreement_running = false;
  leader_proposals = λ i. pos 0;
  leader_proposals_sockets = λ i. pos 0;
  last_proposal = 0;
}

abbrev pub in_loop : Running ℕ ℕ
in_loop = record {
  listener = record { sockfd = 3; port = 4000 };
  balancer_listener = record { sockfd = 4; port = 4464 };
  ml_model = pos 0;
  bus = bus;
  leader = two_controllers;
  balancer = some 8;
  system = record { server = fresh_server; threads = [] };
}

goes_on :
    with_listeners names no_services in_loop.listener in_loop.balancer_listener (pos 0) machine
    ≡ running in_loop
unfolding with_listeners with_leader accept_load_balancer initialize_leader
goes_on = rw (with_listeners, starts_well) refl

pub reaches_loop : start_controller names no_services three_arguments machine ≡ running in_loop
unfolding start_controller start_server
reaches_loop = goes_on

machine-CanStart : CanStart names no_services (codes "4000") (codes " 70000") machine bus
machine-CanStart = record {
  differs = refl;
  vm_fd = 3;
  vm_server = refl;
  balancer_fd = 4;
  balancer_server = refl;
  lines = two_lines;
  file = refl;
  connects = starts_well;
  fd = 8;
  accepted = refl;
  created = refl;
  left = refl;
}

start_controller-IsReady_example :
    ((p q model : List ℕ) (other : Bus)
      → CanStart names no_services p q machine other
      → (r : Running ℕ ℕ) × (start_controller names no_services (p ∷ q ∷ model ∷ []) machine
          ≡ running r))
    × ((arguments : List (List ℕ)) (r : Running ℕ ℕ)
        → start_controller names no_services arguments machine ≡ running r
        → IsReady arguments machine r
          × ((s : System ℕ ℕ) → Reach models read_nothing r.system s → AreWellFormed s.server))
start_controller-IsReady_example =
    start_controller-IsReady names no_services models read_nothing machine

starts_and_is_ready :
    (r : Running ℕ ℕ) × (start_controller names no_services three_arguments machine ≡ running r)
starts_and_is_ready =
    start_controller-IsReady_example.0 (codes "4000") (codes " 70000") (codes "0") bus
      machine-CanStart

in_loop-IsReady : IsReady three_arguments machine in_loop
in_loop-IsReady = (start_controller-IsReady_example.1 three_arguments in_loop reaches_loop).0
