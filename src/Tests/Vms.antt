-- ===== src/Tests/Vms.antt =====
-- Runs of the VM tables of controller/balancer.c.
use Prim.Native.String.{String}
use a2pm.Common.{ℕ, ◌≡◌, refl, arith, Bool, true, some, List, [], ◌∷◌}
use a2pm.Balancer.Vms.{
  VmData, Group, VirtualMachine, add, delete, create_system_image, group_message,
  controller_messages,
}
use a2pm.Balancer.Vms.Members.{IsValid}
use a2pm.Balancer.Vms.Messages.{Handled, group_message-Handled}
use a2pm.Balancer.Vms.Census.{Represents, census_messages, no_vms, controller_messages-census}
use a2pm.Balancer.Clients.{
  get_current_socket, get_current_sockets, check_already_connected, wrap_index,
}
use a2pm.Balancer.Clients.Lookup.{Routed, assigned, check_already_connected-Routed}
use a2pm.Balancer.Clients.Serving.{IsServing}
use a2pm.Balancer.Clients.Sticky.{get_current_socket-sticky}

abbrev address_1 : String × ℕ
address_1 = ("10.0.0.1", 8080)

abbrev vm_with : String → VmData
vm_with client = record {
  address = some address_1;
  connected_clients = some (client ∷ "0.0.0.0" ∷ "0.0.0.0" ∷ "0.0.0.0" ∷ "0.0.0.0" ∷ []);
}

abbrev one_vm : Group
one_vm = record {
  vm_data_set = λ _. vm_with "0.0.0.0";
  current_vms = 1;
  allocated_vms = 5;
  actual_index = 0;
}

one_vm-IsValid : IsValid one_vm
one_vm-IsValid = record {
  fits = omega arith;
  room = omega arith;
  listed = λ i lt. ((address_1, refl), (_, refl, refl));
}

group_message-Handled_example :
    (g' : Group) × (group_message address_1 delete one_vm ≡ some g')
    × Handled delete address_1 one_vm g'
group_message-Handled_example = group_message-Handled address_1 delete one_vm one_vm-IsValid

abbrev add_then_delete : List VirtualMachine
add_then_delete =
    record { ip = "10.0.0.1"; port = 8080; service = 0; op = add }
    ∷ record { ip = "10.0.0.1"; port = 8080; service = 0; op = delete }
    ∷ []

controller_messages-census_example :
    (groups : List Group) × (controller_messages add_then_delete create_system_image ≡ some groups)
    × Represents groups (census_messages add_then_delete no_vms)
controller_messages-census_example =
    controller_messages-census add_then_delete (omega arith, (omega arith, tt))

census_of_two : census_messages add_then_delete no_vms 0 address_1 ≡ 0
unfolding census_messages
census_of_two = refl

check_already_connected-Routed_example :
    Routed one_vm "1.2.3.4" (check_already_connected "1.2.3.4" one_vm)
check_already_connected-Routed_example =
    check_already_connected-Routed "1.2.3.4" one_vm one_vm-IsValid (omega arith)

abbrev always : String × ℕ → Bool
always _ = true

one_vm-IsServing : IsServing one_vm
one_vm-IsServing = record { valid = one_vm-IsValid; some_vm = omega arith; turn = omega arith }

abbrev one_client : Group
one_client = assigned one_vm (vm_with "1.2.3.4")

-- A second client takes the next entry of the only VM.
abbrev two_clients : Group
two_clients =
    record (assigned (wrap_index one_client) (record (vm_with "1.2.3.4") {
      connected_clients = some ("1.2.3.4" ∷ "5.6.7.8" ∷ "0.0.0.0" ∷ "0.0.0.0" ∷ "0.0.0.0" ∷ []);
    })) { actual_index = 0 }

get_current_socket-sticky_example :
    IsServing two_clients
    × (true ≡ true)
    × (get_current_socket always "1.2.3.4" two_clients ≡ some (address_1, wrap_index two_clients))
unfolding get_current_socket get_current_sockets
get_current_socket-sticky_example =
    get_current_socket-sticky always "1.2.3.4" one_vm one_client two_clients address_1
      ("5.6.7.8" ∷ "1.2.3.4" ∷ []) one_vm-IsServing refl refl refl
