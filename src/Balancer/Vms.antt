-- ===== src/Balancer/Vms.antt =====
-- The VM table of controller/balancer.c and the messages of the controller that change it. `none` is
-- a fault: an access outside an array, or a read of memory that nothing has written.
pub mod History
pub mod Members
pub mod Messages
pub mod Census
use text.Mathlib.Text.{◌==◌ as str_eq}
use Prim.Native.String.{String}
use a2pm.Common.{
  ℕ, zero, suc, ◌+◌, ◌-◌, ◌*◌, ◌≡◌, Bool, true, false, ◌&&◌, Option, none, some, List, [], ◌∷◌, ltb,
  ◌==◌, if◌then◌else◌, replicate, get_elem?, set,
}
use a2pm.Common.Family.{update}

abbrev pub max_connected_clients : ℕ
max_connected_clients = 5

abbrev pub number_vms : ℕ
number_vms = 5

abbrev pub number_groups : ℕ
number_groups = 3

-- `struct vm_data`. The address (IP and port) and the list of clients are written apart, and `none`
-- until then.
pub record VmData : Type 0 where
  pub address : Option (String × ℕ)
  pub connected_clients : Option (List String)

-- One service: its array of `allocated_vms` slots, of which the first `current_vms` are connected, and
-- the next VM to assign.
pub record Group : Type 0 where
  pub vm_data_set : ℕ → VmData
  pub current_vms : ℕ
  pub allocated_vms : ℕ
  pub actual_index : ℕ

abbrev unwritten : VmData
unwritten = record { address = none; connected_clients = none }

-- `create_system_image` for one service, and for all.
abbrev pub empty_group : Group
empty_group = record {
  vm_data_set = λ _. unwritten;
  current_vms = 0;
  allocated_vms = number_vms;
  actual_index = 0;
}

unfoldable pub create_system_image : List Group
create_system_image = replicate number_groups empty_group

-- `realloc` keeps the slots and makes room for as many again: it is taken to succeed, and the doubled
-- number to be an `int`.
unfoldable pub check_vm_data_set_size : Group → Group
check_vm_data_set_size g =
    if g.current_vms == g.allocated_vms then record g { allocated_vms = g.allocated_vms * 2 } else g

abbrev pub address_eq : String × ℕ → String × ℕ → Bool
address_eq (ip, port) (ip', port') = str_eq ip ip' && port == port'

-- The loop of `delete_vm` from `index` on, for `rounds` rounds. The last VM takes the place of the one
-- that is deleted.
unfoldable pub delete_loop : (rounds index : ℕ) → (String × ℕ) → Group → Option Group
delete_loop zero index vm g = some g
delete_loop (suc rounds) index vm g =
    let later = delete_loop rounds (index + 1) vm g in
    elim (g.vm_data_set index).address [
      | none ↦ none
      | some address ↦
          if address_eq address vm
          then some (record g {
            vm_data_set = update g.vm_data_set index (g.vm_data_set (g.current_vms - 1));
            current_vms = g.current_vms - 1;
          })
          else later
    ]

unfoldable pub delete_vm : (String × ℕ) → Group → Option Group
unfolding delete_loop
delete_vm vm g = delete_loop g.current_vms 0 vm g

unfoldable pub create_empty_list : VmData → VmData
create_empty_list vm = record vm {
  connected_clients = some (replicate max_connected_clients "0.0.0.0");
}

pub data Operation : Type 0 where
  add delete rej unsupported : Operation

pub record VirtualMachine : Type 0 where
  pub ip : String
  pub port : ℕ
  pub service : ℕ
  pub op : Operation

-- The slot behind the connected VMs gets an empty list of clients, whatever the operation is.
unfoldable pub prepare : Group → Option Group
prepare g =
    let g1 = check_vm_data_set_size g in
    if ltb g1.current_vms g1.allocated_vms
    then some (record g1 {
      vm_data_set =
          update g1.vm_data_set g1.current_vms (create_empty_list (g1.vm_data_set g1.current_vms));
    })
    else none

unfoldable pub add_vm : (String × ℕ) → Group → Group
add_vm vm g = record g {
  vm_data_set =
      update g.vm_data_set g.current_vms
        (record (g.vm_data_set g.current_vms) { address = some vm });
  current_vms = g.current_vms + 1;
}

operate : (String × ℕ) → Operation → Group → Option Group
unfolding add_vm delete_vm
operate vm add g = some (add_vm vm g)
operate vm delete g = delete_vm vm g
operate vm rej g = delete_vm vm g
operate vm unsupported g = some g

-- The part of `controller_thread` behind the choice of the service.
unfoldable pub group_message : (String × ℕ) → Operation → Group → Option Group
unfolding prepare operate
group_message vm op g = elim (prepare g) [ none ↦ none | some ready ↦ operate vm op ready ]

-- One message in the loop of `controller_thread`. The service is not checked: one without a group is
-- an access outside the arrays.
unfoldable pub controller_message : VirtualMachine → List Group → Option (List Group)
unfolding group_message
controller_message vm groups = elim (get_elem? groups vm.service) [
  | none ↦ none
  | some g ↦ elim (group_message (vm.ip, vm.port) vm.op g) [
    | none ↦ none
    | some g' ↦ some (set groups vm.service g')
  ]
]

-- A run of the loop of `controller_thread` over the messages received.
unfoldable pub controller_messages : List VirtualMachine → List Group → Option (List Group)
unfolding controller_message
controller_messages [] groups = some groups
controller_messages (vm ∷ vms) groups = elim (controller_message vm groups) [
  | none ↦ none
  | some groups' ↦ controller_messages vms groups'
]
