-- ===== src/Controller/Startup.antt =====
-- controller/server.c: `main` up to its loop, with `start_server` and `accept_load_balancer`. It opens
-- a socket for VMs and one for the load balancer, reads the other controllers, and waits for the load
-- balancer. What the system calls do is input.
pub mod Listening
pub mod Ready
use a2pm.Common.{
  ℕ, zero, suc, ◌+◌, ◌-◌, ◌*◌, ◌^◌, ◌%◌, ◌≡◌, Bool, true, false, ◌&&◌, Option, none, some, List, [],
  ◌∷◌, ltb, ◌==◌, if◌then◌else◌,
}
use a2pm.Common.Int.{ℤ, pos, negsuc, low_16, ltb_ℤ, eqb_ℤ}
use a2pm.Sockets.Connection.{SocketType, NameService}
use a2pm.Broadcast.{Bus}
use a2pm.Broadcast.Startup.{Line, Initialized, exited, stuck, crashed, ready, initialize_broadcast}
use a2pm.Leader.{Leader, initialize_leader}
use a2pm.Balancer.Vms.{VirtualMachine}
use a2pm.Controller.{VmData}
use a2pm.Controller.Accept.{initial}
use a2pm.Controller.System.{System}

abbrev is_space : ℕ → Bool
is_space c = if c == 32 then true else ltb 8 c && ltb c 14

abbrev is_digit : ℕ → Bool
is_digit c = ltb 47 c && ltb c 58

abbrev digits : (read : ℕ) → List ℕ → ℕ
digits read [] = read
digits read (c ∷ s) =
    let rest = digits (read * 10 + (c - 48)) s in if is_digit c then rest else read

abbrev minus : ℕ → ℤ
minus zero = pos 0
minus (suc n) = negsuc n

-- A number in the characters of a text. One that is no `int` is undefined in C and unbounded here.
abbrev pub atoi : List ℕ → ℤ
atoi [] = pos 0
atoi (c ∷ s) =
    let rest = atoi s in
    if is_space c
    then rest
    else if c == 45
    then minus (digits 0 s)
    else if c == 43
    then pos (digits 0 s)
    else pos (digits 0 (c ∷ s))

-- `htons` takes the low 16 bits. The port is kept in the order of the machine.
abbrev pub port_of : ℤ → ℕ
port_of port = low_16 port

-- What `socket`, `bind` and `listen` do.
pub record Listen : Type 0 where
  pub socket : Option ℕ
  pub binds : Bool
  pub listens : Bool

-- The socket on which the process listens, and its port in the order of the machine.
pub record Listener : Type 0 where
  pub sockfd : ℕ
  pub port : ℕ

-- `none` is the end of the process.
unfoldable pub start_server : Listen → (port : ℤ) → Option Listener
start_server call port = elim call.socket [
  | none ↦ none
  | some fd ↦
      if call.binds && call.listens
      then some (record { sockfd = fd; port = port_of port })
      else none
]

-- The result, and the socket of `balancer_thread` if it was created. Without an error there is no
-- `return`: the result is what was left there.
unfoldable pub accept_load_balancer :
    (accepted : Option ℕ) (created : Bool) (left : ℤ) → ℤ × Option ℕ
accept_load_balancer none created left = (negsuc 0, none)
accept_load_balancer (some fd) false left = (negsuc 0, none)
accept_load_balancer (some fd) true left = (left, some fd)

-- What the system does in `main`; `memory` and `rates` are what the blocks of `malloc` hold.
pub record Machine (F R : Type 0) : Type 0 where
  pub vm_server : Listen
  pub balancer_server : Listen
  pub udp_listens : Bool
  pub controllers : Option (List Line)
  pub now : ℕ
  pub accepted : Option ℕ
  pub created : Bool
  pub left : ℤ
  pub memory : ℕ → ℕ → VmData F
  pub rates : ℕ → R
  pub zeroed : VirtualMachine

-- The state in which `main` begins to accept VMs. `balancer` is the socket of `balancer_thread`.
pub record Running (F R : Type 0) : Type 0 where
  pub listener : Listener
  pub balancer_listener : Listener
  pub ml_model : ℤ
  pub bus : Bus
  pub leader : Leader
  pub balancer : Option ℕ
  pub system : System F R

-- The end of the process, a loop that goes on, a write outside an array, or the loop that accepts VMs.
pub data Started (F R : Type 0) : Type 0 where
  ended loops fault : Started F R
  running : Running F R → Started F R

module _ {F R : Type 0} where
  unfoldable pub with_leader :
      (listener balancer_listener : Listener) (ml_model : ℤ)
      → Bus
      → Leader
      → Machine F R
      → Started F R
  unfolding accept_load_balancer
  with_leader listener balancer_listener ml_model bus leader m =
      let (status, balancer) = accept_load_balancer m.accepted m.created m.left in
      if ltb_ℤ status (pos 0)
      then ended
      else running (record {
        listener = listener;
        balancer_listener = balancer_listener;
        ml_model = ml_model;
        bus = bus;
        leader = leader;
        balancer = balancer;
        system = record { server = initial m.memory m.rates m.zeroed; threads = [] };
      })

module _ {F R : Type 0} (names : NameService) (getservbyname : SocketType → ℤ → Option ℕ) where
  unfoldable pub with_listeners :
      (listener balancer_listener : Listener) (ml_model : ℤ) → Machine F R → Started F R
  unfolding with_leader
  with_listeners listener balancer_listener ml_model m =
      elim (initialize_broadcast names getservbyname m.udp_listens m.controllers) [
        | exited ↦ ended
        | stuck ↦ loops
        | crashed ↦ fault
        | ready bus ↦ elim (initialize_leader m.now m.controllers) [
          | none ↦ ended
          | some leader ↦ with_leader listener balancer_listener ml_model bus leader m
        ]
      ]

  -- `main` without the name of the program.
  unfoldable pub start_controller : List (List ℕ) → Machine F R → Started F R
  unfolding with_listeners
  start_controller (vm_port ∷ balancer_port ∷ model ∷ []) m =
      if eqb_ℤ (atoi vm_port) (atoi balancer_port)
      then ended
      else (elim (start_server m.vm_server (atoi vm_port)) [
        | none ↦ ended
        | some listener ↦ elim (start_server m.balancer_server (atoi balancer_port)) [
          | none ↦ ended
          | some balancer_listener ↦ with_listeners listener balancer_listener (atoi model) m
        ]
      ])
  start_controller arguments m = ended
