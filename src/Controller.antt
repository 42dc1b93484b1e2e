-- ===== src/Controller.antt =====
-- controller/server.c: the controller. Its VM table, the message box to the load balancer and the
-- threads that change them. `none` is a fault: an access outside an array. What `malloc` finds in the
-- memory, the predictions and the floats are parameters.
pub mod Table
pub mod Communication
pub mod Rates
pub mod Accept
pub mod System
pub mod Startup
pub mod Mailbox
use text.Mathlib.Text.{◌==◌ as str_eq}
use Prim.Native.String.{String}
use a2pm.Common.{
  ℕ, zero, suc, ◌+◌, ◌-◌, ◌*◌, Bool, true, false, Option, none, some, List, [], ◌∷◌, ltb, leb, ◌==◌,
  if◌then◌else◌,
}
use a2pm.Common.Family.{update}
use a2pm.Balancer.Vms.{VirtualMachine}

pub data VmState : Type 0 where
  stand_by active rejuvenating : VmState

pub record VmService : Type 0 where
  pub service : ℕ
  pub state : VmState
  pub provided_port : ℕ

pub record VmData (Features : Type 0) : Type 0 where
  pub socket : ℕ
  pub ip_address : String
  pub port : ℕ
  pub service_info : VmService
  pub last_features : Features
  pub last_system_features_stored : Bool

-- One row of `vm_data_set`, `current_vms` and `allocated_vms`.
pub record Group (Features : Type 0) : Type 0 where
  pub vm_data_set : ℕ → VmData Features
  pub current_vms : ℕ
  pub allocated_vms : ℕ

-- `rej_rate` holds its first `index_rej_rate` entries in a block of `rej_bytes` bytes. `virt_machine`
-- is the message that `state_man_vm` says is to be sent, and `manage_locked` the state of
-- `manage_vm_mutex`.
pub record Server (Features Rate : Type 0) : Type 0 where
  pub groups : ℕ → Group Features
  pub rej_rate : ℕ → Rate
  pub index_rej_rate : ℕ
  pub rej_bytes : ℕ
  pub virt_machine : VirtualMachine
  pub state_man_vm : Bool
  pub manage_locked : Bool

abbrev pub is_stand_by : VmState → Bool
is_stand_by stand_by = true
is_stand_by active = false
is_stand_by rejuvenating = false

abbrev pub is_active : VmState → Bool
is_active stand_by = false
is_active active = true
is_active rejuvenating = false

module _ {Features : Type 0} where
  -- The loop of `manage_disconnected_vms` from `index` on. It compares addresses without the port.
  disconnect_loop : (rounds index : ℕ) → String → Group Features → Group Features
  disconnect_loop zero index ip g = g
  disconnect_loop (suc rounds) index ip g =
      let later = disconnect_loop rounds (index + 1) ip g in
      if str_eq (g.vm_data_set index).ip_address ip
      then record g {
        vm_data_set = update g.vm_data_set index (g.vm_data_set (g.current_vms - 1));
        current_vms = g.current_vms - 1;
      }
      else later

  abbrev pub with_state : VmState → VmData Features → VmData Features
  with_state state vm = record vm { service_info = record vm.service_info { state = state } }

  -- The loop of `switch_active_machine`: the first VM that stands by becomes active.
  activate_loop : (rounds index : ℕ) → Group Features → Group Features
  activate_loop zero index g = g
  activate_loop (suc rounds) index g =
      let later = activate_loop rounds (index + 1) g in
      if is_stand_by (g.vm_data_set index).service_info.state
      then record g {
        vm_data_set = update g.vm_data_set index (with_state active (g.vm_data_set index));
      }
      else later

module _ {Features Rate : Type 0} where
  abbrev pub update_group : ℕ → Group Features → Server Features Rate → Server Features Rate
  update_group service g s = record s { groups = update s.groups service g }

  unfoldable pub manage_disconnected_vms :
      VmData Features → Server Features Rate → Server Features Rate
  unfolding disconnect_loop
  manage_disconnected_vms vm s =
      let service = vm.service_info.service in
      let g = s.groups service in
      update_group service (disconnect_loop g.current_vms 0 vm.ip_address g) s

  -- `vm` is passed by value: what the function writes to it is lost when it returns. `sent` says
  -- whether the REJUVENATE command could be sent.
  unfoldable pub switch_active_machine :
      (sent : Bool) → VmData Features → Server Features Rate → Server Features Rate
  unfolding activate_loop manage_disconnected_vms
  switch_active_machine sent vm s =
      let vm' = record (with_state rejuvenating vm) { last_system_features_stored = false } in
      let service = vm'.service_info.service in
      let g = s.groups service in
      let s' = update_group service (activate_loop g.current_vms 0 g) s in
      if sent then s' else manage_disconnected_vms vm' s'

  -- What the threads do with the message box: `pthread_mutex_lock`, four assignments and the flag.
  -- `none` is a thread that waits for the mutex.
  unfoldable pub announce : VirtualMachine → Server Features Rate → Option (Server Features Rate)
  announce m s =
      if s.manage_locked
      then none
      else some (record s { virt_machine = m; state_man_vm = true; manage_locked = true })

  -- A turn of `balancer_thread`: what it hands to `send`, and the state after it.
  unfoldable pub balancer_turn : Server Features Rate → Option VirtualMachine × Server Features Rate
  balancer_turn s =
      if s.state_man_vm
      then (some s.virt_machine, record s { state_man_vm = false; manage_locked = false })
      else (none, s)
