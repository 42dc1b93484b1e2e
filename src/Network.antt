-- ===== src/Network.antt =====
-- controller/server.c and controller/balancer.c together: the controller's steps, the messages on the
-- connection between them in their order, the thread of the balancer that receives them, and its
-- client threads, so far as they use the tables. A message arrives whole or not at all.

pub mod Tables
pub mod Census
use Prim.Native.String.{String}
use a2pm.Balancer.Clients.{get_current_socket}
use a2pm.Common.{
  if◌then◌else◌, get_elem?, set, ℕ, ◌≡◌, Bool, true, false, Option, none, some, List, [], ◌∷◌, ◌++◌,
}
use a2pm.Balancer.Vms.{Group, VirtualMachine, controller_message, create_system_image}
use a2pm.Controller.{VmData}
use a2pm.Controller.Communication.{Models}
use a2pm.Sockets.Connection.{SocketType, NameService}
use a2pm.Common.Int.{ℤ}
use a2pm.Balancer.Startup
use a2pm.Balancer.Startup.{start_balancer}
use a2pm.Controller.Startup.{Machine, Running, running, start_controller}
use a2pm.Controller.Rates.{Average}
use a2pm.Controller.System.{System, Step}

pub record Network (F R : Type 0) : Type 0 where
  pub controller : System F R
  pub in_transit : List VirtualMachine
  -- The local of `controller_thread` that `recv` fills, and whether its socket is still open.
  pub vm : VirtualMachine
  pub is_open : Bool
  pub tables : List Group

-- A message whose `send` fails is only reported: it is lost.
abbrev pub delivered : Bool → Option VirtualMachine → List VirtualMachine
delivered arrives none = []
delivered false (some m) = []
delivered true (some m) = m ∷ []

module _ {F R : Type 0} (ml : Models F R) (parse : List ℕ → F) ⦃a : Average R⦄ where
  -- The steps of both programs in any order. The lists are the messages sent and not lost, and those
  -- that `controller_thread` has handled, oldest first.
  pub data Reach : (sent handled : List VirtualMachine) → Network F R → Type 0 where
    -- Both `main`s have come to their loops, with the static `virt_machine` zeroed.
    start :
        (names : NameService) (getservbyname : SocketType → ℤ → Option ℕ)
        (arguments : List (List ℕ)) (m : Machine F R) (r : Running F R)
        (balancer_arguments : List (List ℕ)) (balancer_machine : Startup.Machine)
        (b : Startup.Running) (memory : VirtualMachine)
        → start_controller names getservbyname arguments m ≡ running r
        → m.zeroed.service ≡ 0
        → start_balancer balancer_arguments balancer_machine ≡ some b
        → Reach [] [] (record {
          controller = r.system;
          in_transit = [];
          vm = memory;
          is_open = true;
          tables = b.tables;
        })
    controls :
        {sent handled : List VirtualMachine} {n : Network F R} {message : Option VirtualMachine}
        {controller : System F R} (arrives : Bool)
        → Reach sent handled n
        → Step ml parse n.controller message controller
        → Reach (sent ++ delivered arrives message) handled (record n {
          controller = controller;
          in_transit = n.in_transit ++ delivered arrives message;
        })
    receives :
        {sent handled : List VirtualMachine} {n : Network F R} (m : VirtualMachine)
        (rest : List VirtualMachine) (tables : List Group)
        → Reach sent handled n
        → n.is_open ≡ true
        → n.in_transit ≡ m ∷ rest
        → controller_message m n.tables ≡ some tables
        → Reach sent (handled ++ m ∷ []) (record n { in_transit = rest; vm = m; tables = tables })
    -- `recv` gives 0, or -1 and the socket is closed: what the local holds is handled again.
    repeats :
        {sent handled : List VirtualMachine} {n : Network F R} (closes : Bool) (tables : List Group)
        → Reach sent handled n
        → controller_message n.vm n.tables ≡ some tables
        → Reach sent
            (handled ++ n.vm ∷ [])
            (record n { is_open = if closes then false else n.is_open; tables = tables })
    -- A thread for a client asks for its VM.
    asks :
        {sent handled : List VirtualMachine} {n : Network F R} (connects : String × ℕ → Bool)
        (ip : String) (g g' : Group) (address : String × ℕ)
        → Reach sent handled n
        → get_elem? n.tables 0 ≡ some g
        → get_current_socket connects ip g ≡ some (address, g')
        → Reach sent handled (record n { tables = set n.tables 0 g' })
