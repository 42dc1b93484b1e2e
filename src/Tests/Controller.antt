-- ===== src/Tests/Controller.antt =====
-- Runs of controller/server.c.
use Prim.Native.String.{String}
use a2pm.Common.{ℕ, ◌≤◌, List, ◌+◌, ◌≡◌, ◌≢◌, refl, true, [], ◌∷◌, ◌++◌}
use a2pm.Balancer.Vms.{VirtualMachine, add, delete}
use a2pm.Controller.{active, VmService, VmData, Server, manage_disconnected_vms, announce}
use a2pm.Controller.Table.{Removed, manage_disconnected_vms-Removed}
use a2pm.Controller.Mailbox.{Reach, start, post, unlock, pending, Merge, balancer-in_order}
use a2pm.Controller.Communication.{Models, received, Local, communication_turn}
use a2pm.Controller.Communication as Communication
use a2pm.Controller.Communication.Features.{IsKept, communication_turn-IsKept}
use a2pm.Controller.Accept.{service_info, Peer, accept_new_client, initial}
use a2pm.Controller.Accept.Registered.{
  IsRegistered, initial-AreWellFormed, accept_new_client-IsRegistered,
}

abbrev info : ℕ → VmService
info service = record { service = service; state = active; provided_port = 8080 }

abbrev vm_at : String → VmData ℕ
vm_at ip = record {
  socket = 7;
  ip_address = ip;
  port = 4000;
  service_info = info 0;
  last_features = 0;
  last_system_features_stored = true;
}

abbrev memory : ℕ → ℕ → VmData ℕ
memory service slot = vm_at "10.0.0.1"

abbrev zeroed : VirtualMachine
zeroed = record { ip = ""; port = 0; service = 0; op = add }

abbrev rates : ℕ → ℕ
rates _ = 0

abbrev fresh_server : Server ℕ ℕ
fresh_server = initial memory rates zeroed

-- One VM in the first group.
abbrev one_vm_server : Server ℕ ℕ
one_vm_server = record fresh_server {
  groups = λ _. record { vm_data_set = λ _. vm_at "10.0.0.1"; current_vms = 1; allocated_vms = 5 };
}

abbrev announcement : VirtualMachine
announcement = record { ip = "10.0.0.1"; port = 36895; service = 0; op = delete }

abbrev announced : Server ℕ ℕ
announced = record fresh_server {
  virt_machine = announcement;
  state_man_vm = true;
  manage_locked = true;
}

-- The thread of a VM cannot be created, and its message is overwritten.
announced-Reach : Reach (announcement ∷ announcement ∷ []) [] 1 announced
unfolding announce
announced-Reach =
    post announcement (unlock (post announcement (start fresh_server refl refl) refl)) refl

balancer-in_order_example :
    ((over : List VirtualMachine) × (lost : ℕ) × (announcement ∷ announcement ∷ []
        ≡ over ++ pending announced)
      × Merge lost [] over
      × (lost ≤ 1))
    × (◌≡◌ {A = ℕ} 1 0
        → (announcement ∷ announcement ∷ [] ≡ [] ++ pending announced) × (true ≡ true))
balancer-in_order_example =
    balancer-in_order (announcement ∷ announcement ∷ []) [] 1 announced announced-Reach

manage_disconnected_vms-Removed_example :
    Removed "10.0.0.1"
      (one_vm_server.groups 0)
      ((manage_disconnected_vms (vm_at "10.0.0.1") one_vm_server).groups 0)
    × ((service : ℕ)
        → service ≢ 0
        → (manage_disconnected_vms (vm_at "10.0.0.1") one_vm_server).groups service
          ≡ one_vm_server.groups service)
manage_disconnected_vms-Removed_example =
    manage_disconnected_vms-Removed (vm_at "10.0.0.1") one_vm_server

abbrev models : Models ℕ ℕ
models = record {
  rejection_rate = λ last current init. last + current;
  crashes_soon = λ last current. true;
}

abbrev listening : Local ℕ
listening = Communication.start (vm_at "10.0.0.1") 5

communication_turn-IsKept_example :
    IsKept 7
      (info 0)
      5
      (communication_turn models (λ m. 1) (received (1 ∷ [])) true listening fresh_server)
communication_turn-IsKept_example =
    communication_turn-IsKept models (λ m. 1) (received (1 ∷ [])) true listening fresh_server
      (initial-AreWellFormed memory rates zeroed)

abbrev newcomer : Peer
newcomer = record { socket = 7; ip = "10.0.0.1"; port = 4000 }

accept_new_client-IsRegistered_example : IsRegistered newcomer (
    accept_new_client
      (service_info (info 9))
      (service_info (info 2) ∷ [])
      newcomer
      true
      fresh_server)
accept_new_client-IsRegistered_example =
    accept_new_client-IsRegistered (service_info (info 9)) (service_info (info 2) ∷ []) newcomer
      true fresh_server (initial-AreWellFormed memory rates zeroed)
