-- ===== src/Tests/Network.antt =====
-- Both programs start, a VM connects to controller/server.c, which tells controller/balancer.c.
use a2pm.Common.{ℕ, false, true, none, some, List, [], ◌∷◌}
use a2pm.Balancer.Vms.{VirtualMachine, add, create_system_image}
use a2pm.Controller.System.{connects}
use a2pm.Network.{Network}
use a2pm.Common.Int.{pos}
use a2pm.Common.Text.{codes}
use a2pm.Balancer.Handoff.{accepting}
use a2pm.Balancer.Startup.{Machine, Running}
use a2pm.Tests.System.{whole_average, first_server, first_system}

abbrev announced : VirtualMachine
announced = record { ip = "10.0.0.1"; port = 36895; service = 1; op = add }

-- What the memory holds before the first message.
abbrev junk : VirtualMachine
junk = record { ip = ""; port = 0; service = 77; op = add }

abbrev told : Network ℕ ℕ
told = record {
  controller = record first_system {
    server = record first_server { state_man_vm = false; manage_locked = false };
  };
  in_transit = announced ∷ [];
  vm = junk;
  is_open = true;
  tables = create_system_image;
}

-- The service is not found, and its number is none: the balancer listens on port 65535.
abbrev balancer_machine : Machine
balancer_machine = record {
  controller_socket = some 3;
  connects = true;
  client_socket = some 4;
  getservbyname = λ service. none;
  service = pos 70000;
  binds = true;
  memory = record { socket = 0; ip_address = ""; port = 0 };
}

abbrev balancer_arguments : List (List ℕ)
balancer_arguments = codes "tpcw" ∷ codes "10.0.0.9" ∷ codes "4464" ∷ []

abbrev balancer_loop : Running
balancer_loop = record {
  sockfd_controller = 3;
  tables = create_system_image;
  sock = 4;
  sin_port = 65535;
  handoff = record {
    mutex = false;
    vm_client = balancer_machine.memory;
    at = accepting;
    fresh = 0;
    copied = [];
  };
}

abbrev none_handled : List VirtualMachine
none_handled = []
