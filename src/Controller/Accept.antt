-- ===== src/Controller/Accept.antt =====
-- controller/server.c: `accept_new_client`, which registers a VM, and the start in `main`.
pub mod Addressed
pub mod Handshake
pub mod Registered
use Prim.Native.String.{String}
use a2pm.Common.{
  ℕ, zero, suc, ◌+◌, ◌-◌, ◌*◌, Bool, true, false, Option, none, some, List, [], ◌∷◌, ltb, leb, ◌==◌,
  if◌then◌else◌,
}
use a2pm.Common.Family.{update}
use a2pm.Sockets.{htons}
use a2pm.Balancer.Vms.{VirtualMachine, Operation, add, number_groups, number_vms}
use a2pm.Controller.{
  VmState, active, VmService, VmData, Group, Server, is_active, announce, update_group,
}

abbrev pub float_size : ℕ
float_size = 4

-- What `recv` does while a VM says which service it provides.
pub data Answer : Type 0 where
  failed disconnected : Answer
  service_info : VmService → Answer

-- The loop of the handshake; `s` stays as it is if nothing is received. `none` is a loop that goes on.
unfoldable pub handshake : VmService → List Answer → Option VmService
handshake s [] = if ltb s.service number_groups then some s else none
handshake s (failed ∷ answers) =
    let rest = handshake s answers in if ltb s.service number_groups then some s else rest
handshake s (disconnected ∷ answers) =
    let rest = handshake s answers in if ltb s.service number_groups then some s else rest
handshake s (service_info s' ∷ answers) =
    let rest = handshake s' answers in if ltb s.service number_groups then some s else rest

-- A connection that `accept` returns.
pub record Peer : Type 0 where
  pub socket : ℕ
  pub ip : String
  pub port : ℕ

-- What the call does: an access outside the table, a wait for the VM or for the mutex of the message
-- box, no VM, or a VM with its thread, if it can be created.
pub data Accepted (Features Rate : Type 0) : Type 0 where
  fault waiting unchanged : Accepted Features Rate
  registered : Server Features Rate → Option (VmData Features) → Accepted Features Rate

module _ {Features : Type 0} where
  -- `realloc` keeps the slots; what the new ones hold does not change by it.
  abbrev pub enlarge : Group Features → Group Features
  enlarge g = record g { allocated_vms = g.allocated_vms * 2 }

  -- The assignment phase: the fields of the slot that are written.
  abbrev pub assign_slot : VmService → Peer → VmData Features → VmData Features
  assign_slot s peer vm = record vm {
    service_info = s;
    ip_address = peer.ip;
    socket = peer.socket;
    port = peer.port;
  }

module _ {Features Rate : Type 0} where
  -- More slots, and more bytes for the rates, when the table of the service is full: `realloc` is taken
  -- to succeed, and the doubled number to be an `int`.
  unfoldable pub make_room : ℕ → Server Features Rate → Server Features Rate
  make_room service s =
      let g = s.groups service in
      if g.current_vms == g.allocated_vms
      then record (update_group service (enlarge g) s) {
        rej_bytes = float_size * number_groups * number_vms + g.allocated_vms * 2 - g.allocated_vms;
      }
      else s

  unfoldable pub add_to_table :
      VmService → Peer → Server Features Rate → Option (Server Features Rate)
  add_to_table info peer s =
      let g = s.groups info.service in
      if ltb g.current_vms g.allocated_vms
      then some (
          update_group info.service
            (record g {
              vm_data_set =
                  update g.vm_data_set g.current_vms
                    (assign_slot info peer (g.vm_data_set g.current_vms));
              current_vms = g.current_vms + 1;
            })
            s)
      else none

  -- An active VM is announced to the balancer.
  announce_active : VmService → Peer → Server Features Rate → Option (Server Features Rate)
  announce_active info peer s =
      if is_active info.state
      then announce (record { ip = peer.ip; port = htons 8080; service = info.service; op = add }) s
      else some s

  -- The thread of the VM in the last slot; without it, both mutexes are unlocked.
  launch : (created : Bool) → (service : ℕ) → Server Features Rate → Accepted Features Rate
  launch created service s =
      let g = s.groups service in
      if created
      then registered s (some (g.vm_data_set (g.current_vms - 1)))
      else registered (record s { manage_locked = false }) none

  unfoldable pub register :
      (created : Bool) → VmService → Peer → Server Features Rate → Accepted Features Rate
  unfolding make_room add_to_table announce_active launch
  register created info peer s = elim (add_to_table info peer (make_room info.service s)) [
    | none ↦ fault
    | some s1 ↦ elim (announce_active info peer s1) [
      | none ↦ waiting
      | some s2 ↦ launch created info.service s2
    ]
  ]

  -- The first `recv` and the rest.
  unfoldable pub accept_new_client :
      Answer → List Answer → Peer → (created : Bool) → Server Features Rate → Accepted Features Rate
  unfolding handshake register
  accept_new_client failed answers peer created s = unchanged
  accept_new_client disconnected answers peer created s = unchanged
  accept_new_client (service_info info) answers peer created s = elim (handshake info answers) [
    | none ↦ waiting
    | some info' ↦ register created info' peer s
  ]

  -- The state that `main` makes; `memory` and `rates` are what the fresh blocks hold.
  abbrev pub initial :
      (memory : ℕ → ℕ → VmData Features)
      → (rates : ℕ → Rate) → VirtualMachine
      → Server Features Rate
  initial memory rates zeroed = record {
    groups = λ service. record {
      vm_data_set = memory service;
      current_vms = 0;
      allocated_vms = number_vms;
    };
    rej_rate = rates;
    index_rej_rate = 0;
    rej_bytes = float_size * number_groups * number_vms;
    virt_machine = zeroed;
    state_man_vm = false;
    manage_locked = false;
  }
