-- ===== src/Tests/Connections.antt =====
-- Runs of `get_connection` and `make_connection`, of the start of the broadcasts, and of the hand-off
-- of clients in the balancer.
use Prim.Native.String.{String}
use a2pm.Common.{
  ℕ, ◌≡◌, ◌⊎◌, refl, true, false, Option, none, some, List, [], ◌∷◌, ◌++◌, length, get_elem?, set,
}
use a2pm.Common.Int.{ℤ, pos}
use a2pm.Sockets.{atoport}
use a2pm.Sockets.Connection.{
  SocketType, stream, child, parent, accepted, failed, get_connection, NameService, atoaddr,
  make_connection,
}
use a2pm.Sockets.Connection.Opened.{IsClean, get_connection-IsClean}
use a2pm.Broadcast.{Bus}
use a2pm.Broadcast.Startup.{Line, ready, no_controllers, connect_line, initialize_broadcast}
use a2pm.Broadcast.Startup.Controllers.{HasSlot, initialize_broadcast-slots}
use a2pm.Balancer.Handoff.{
  ArgThread, accepting, Handoff, Reach, start, locks, writes_socket, writes_ip, writes_port,
  creates, copies,
}
use a2pm.Balancer.Handoff.InOrder.{handoff-in_order}

get_connection-IsClean_example : IsClean 3 (0 ∷ 1 ∷ []) (
    get_connection stream
      (some 3)
      true
      (0 ∷ 1 ∷ [])
      (accepted 4 parent ∷ failed 4 ∷ accepted 4 child ∷ []))
get_connection-IsClean_example =
    get_connection-IsClean stream 3 true (0 ∷ 1 ∷ [])
      (accepted 4 parent ∷ failed 4 ∷ accepted 4 child ∷ []) (refl, (refl, tt))
      ((refl, (refl, (refl, tt))), ((refl, (refl, (refl, tt))), tt))

-- Every address is known but one.
abbrev is_unknown : String → ℕ
is_unknown String.[] = 4294967295
is_unknown (String.◌∷◌ c s) = 167772161

abbrev pub names : NameService
names = record { inet_addr = is_unknown; gethostbyname = λ name. none }

abbrev pub no_services : SocketType → ℤ → Option ℕ
no_services type service = none

-- The second attempt for the first line gets a socket.
abbrev pub two_lines : List Line
two_lines =
    record { text = "10.0.0.1\n"; sockets = none ∷ some 5 ∷ [] }
    ∷ record { text = "10.0.0.2\n"; sockets = some 6 ∷ [] }
    ∷ []

abbrev pub bus : Bus
bus = record {
  connections =
      set (set no_controllers 0 (record { ip = "10.0.0.1"; socket = pos 5; value = pos 0 })) 1
        (record { ip = "10.0.0.2"; socket = pos 6; value = pos 0 });
  last_controller_socket = 2;
  msg_temp = record { type = 0; size = 0; payload = pos 0 };
  new_bcast_message = false;
}

pub starts_well : initialize_broadcast names no_services true (some two_lines) ≡ ready bus
unfolding initialize_broadcast connect_line make_connection atoport atoaddr
starts_well = refl

initialize_broadcast-slots_example :
    (bus.last_controller_socket ≡ length two_lines)
    × ((i : ℕ) (line : Line) → get_elem? two_lines i ≡ some line → HasSlot bus.connections i line)
initialize_broadcast-slots_example =
    initialize_broadcast-slots names no_services two_lines bus starts_well

abbrev a_client : ArgThread
a_client = record { socket = 9; ip_address = "10.0.0.7"; port = 5000 }

abbrev garbage : ArgThread
garbage = record { socket = 0; ip_address = ""; port = 0 }

-- The thread of the first client has copied the struct and holds the mutex.
abbrev handed_over : Handoff
handed_over = record {
  mutex = true;
  vm_client = a_client;
  at = accepting;
  fresh = 0;
  copied = a_client ∷ [];
}

handed_over-Reach : Reach (a_client ∷ []) [] handed_over
handed_over-Reach =
    copies 0
      (creates a_client
        (writes_port a_client
          (writes_ip a_client
            (writes_socket a_client (locks a_client (start garbage) refl refl) refl) refl)
          refl)
        refl)
      refl

handoff-in_order_example :
    (a_client ∷ [] ≡ [])
    ⊎ ((client : ArgThread) × (a_client ∷ [] ≡ [] ++ client ∷ [])
        × (((handed_over.fresh ≡ 1) × (handed_over.copied ≡ []) × (handed_over.vm_client ≡ client))
            ⊎ ((handed_over.fresh ≡ 0) × (handed_over.copied ≡ client ∷ []))))
handoff-in_order_example = handoff-in_order handed_over-Reach
