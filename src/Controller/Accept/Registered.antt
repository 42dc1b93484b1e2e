-- ===== src/Controller/Accept/Registered.antt =====
-- `accept_new_client`: the table and the thread after it.
use a2pm.Common.{
  ℕ, ◌+◌, ◌-◌, ◌<◌, ◌≡◌, inl, inr, refl, ap, sym, arith, Bool, true, false, Option, none, some,
  List, lt→ltb, ◌==◌, Bool-cases, Option-cases,
}
use a2pm.Common.Family.{update, update_self}
use a2pm.Sockets.{htons}
use a2pm.Balancer.Vms.{VirtualMachine, add, number_groups}
use a2pm.Controller.{VmService, VmData, Group, Server, is_active, announce, update_group}
use a2pm.Controller.Table.{AreWellFormed, update_group-AreWellFormed}
use a2pm.Controller.Accept.{
  Answer, failed, disconnected, service_info, handshake, Peer, Accepted, fault, waiting, unchanged,
  registered, enlarge, assign_slot, make_room, add_to_table, announce_active, launch, register,
  accept_new_client, initial,
}
use a2pm.Controller.Accept.Handshake.{handshake-service}

-- The thread's copy of the slot is of the VM that has connected, and of a service that exists.
unfoldable pub IsOf : {F : Type 0} → Peer → Option (VmData F) → Type 0
IsOf peer none = Unit {0}
IsOf peer (some vm) =
    (vm.socket ≡ peer.socket)
    × (vm.ip_address ≡ peer.ip)
    × (vm.service_info.service < number_groups)

module _ {F R : Type 0} where
  -- No access outside the table; a well-formed table, and a thread for the VM.
  unfoldable pub IsRegistered : Peer → Accepted F R → Type 0
  unfolding IsOf
  IsRegistered peer fault = ⊥
  IsRegistered peer waiting = Unit {0}
  IsRegistered peer unchanged = Unit {0}
  IsRegistered peer (registered s started) = AreWellFormed s × IsOf peer started

  -- A free slot in a well-formed table.
  record HasRoom (service : ℕ) (s : Server F R) : Type 0 where
    all : AreWellFormed s
    free : (s.groups service).current_vms < (s.groups service).allocated_vms

  make_room-HasRoom :
      (service : ℕ) (s : Server F R)
      → service < number_groups
      → AreWellFormed s
      → HasRoom service (make_room service s)
  unfolding make_room
  make_room-HasRoom service s lt all =
      let w = all service lt in
      elim (Bool-cases ((s.groups service).current_vms == (s.groups service).allocated_vms)) [
        | inl last ↦ rw last (record {
          all = update_group-AreWellFormed service (enlarge (s.groups service)) s all (λ h. record {
            fits = omega (arith, w.fits);
            room = omega (arith, w.room);
            filed = w.filed;
          });
          free =
              rw (update_self s.groups service (enlarge (s.groups service)))
                (ground (arith, w.room));
        })
        | inr within ↦ rw within (record { all = all; free = ground (arith, w.fits) })
      ]

  -- The table with the VM in its last slot.
  record HasAdded (info : VmService) (peer : Peer) (s : Server F R) : Type 0 where
    all : AreWellFormed s
    socket :
        ((s.groups info.service).vm_data_set ((s.groups info.service).current_vms - 1)).socket
        ≡ peer.socket
    ip :
        ((s.groups info.service).vm_data_set ((s.groups info.service).current_vms - 1)).ip_address
        ≡ peer.ip
    service :
        ((s.groups info.service).vm_data_set ((s.groups info.service).current_vms - 1)).service_info
        ≡ info

  add_to_table-HasAdded :
      (info : VmService) (peer : Peer) (s : Server F R)
      → info.service < number_groups
      → HasRoom info.service s
      → (s' : Server F R) × (add_to_table info peer s ≡ some s') × HasAdded info peer s'
  unfolding add_to_table
  add_to_table-HasAdded info peer s lt h =
      let service = info.service in
      let g = s.groups service in
      let vm = assign_slot info peer (g.vm_data_set g.current_vms) in
      let g' : Group F = record g {
        vm_data_set = update g.vm_data_set g.current_vms vm;
        current_vms = g.current_vms + 1;
      } in
      let w = h.all service lt in
      let placed : (s.groups service).current_vms + 1 - 1 ≡ (s.groups service).current_vms =
        omega arith in
      let last : (g'.vm_data_set (g'.current_vms - 1)) ≡ vm =
        rw placed (update_self g.vm_data_set g.current_vms vm) in
      (
        update_group service g' s,
        rw (lt→ltb _ _ h.free) refl,
        record {
          all = update_group-AreWellFormed service g' s h.all (λ below. record {
            fits = omega (arith, h.free);
            room = w.room;
            filed = λ i in_use. elim (Bool-cases (g.current_vms == i)) [
              | inl here ↦ rw here refl
              | inr other ↦ rw other (w.filed i (ground arith))
            ];
          });
          socket = rw (update_self s.groups service g') (ap (λ v. v.socket) last);
          ip = rw (update_self s.groups service g') (ap (λ v. v.ip_address) last);
          service = rw (update_self s.groups service g') (ap (λ v. v.service_info) last);
        },
      )

  announced-HasAdded :
      (info : VmService) (peer : Peer) (s s' : Server F R)
      → announce_active info peer s ≡ some s'
      → HasAdded info peer s
      → HasAdded info peer s'
  unfolding announce_active announce
  announced-HasAdded info peer s s' h added = elim (Bool-cases (is_active info.state)) [
    | inr off ↦
        let e : some s ≡ some s' = rw off at h in let same : s ≡ s' = cc in rw (sym same) added
    | inl on ↦ elim (Bool-cases s.manage_locked) [
      | inl locked ↦ let e : none ≡ some s' = rw (on, locked) at h in absurd (ground (arith, e))
      | inr free ↦
          let m : VirtualMachine = record {
            ip = peer.ip;
            port = htons 8080;
            service = info.service;
            op = add;
          } in
          let e : some (record s { virt_machine = m; state_man_vm = true; manage_locked = true })
              ≡ some s' =
            rw (on, free) at h in
          let same : record s { virt_machine = m; state_man_vm = true; manage_locked = true } ≡ s' =
            cc in
          rw (sym same) (record {
            all = added.all;
            socket = added.socket;
            ip = added.ip;
            service = added.service;
          })
    ]
  ]

  launch-IsRegistered :
      (created : Bool) (info : VmService) (peer : Peer) (s : Server F R)
      → info.service < number_groups
      → HasAdded info peer s
      → IsRegistered peer (launch created info.service s)
  unfolding launch IsRegistered IsOf
  launch-IsRegistered true info peer s lt added =
      (added.all, (added.socket, added.ip, rw added.service lt))
  launch-IsRegistered false info peer s lt added = (added.all, tt)

  register-IsRegistered :
      (created : Bool) (info : VmService) (peer : Peer) (s : Server F R)
      → info.service < number_groups
      → AreWellFormed s
      → IsRegistered peer (register created info peer s)
  unfolding register IsRegistered
  register-IsRegistered created info peer s lt all =
      let (s1, e1, added) =
        add_to_table-HasAdded info peer (make_room info.service s) lt
          (make_room-HasRoom info.service s lt all) in
      elim (Option-cases (announce_active info peer s1)) [
        | inl e ↦ rw (IsRegistered, e1, e) tt
        | inr (s2, e) ↦
            rw (IsRegistered, e1, e)
              (launch-IsRegistered created info peer s2 lt
                (announced-HasAdded info peer s1 s2 e added))
      ]

  -- `accept_new_client` in a well-formed table, whatever the VM sends: no access outside the table, a
  -- well-formed table after it, and, if a thread is started, its copy of the slot has the socket and
  -- the address of the VM and one of the three services.
  pub accept_new_client-IsRegistered :
      (first : Answer) (answers : List Answer) (peer : Peer) (created : Bool) (s : Server F R)
      → AreWellFormed s
      → IsRegistered peer (accept_new_client first answers peer created s)
  unfolding accept_new_client IsRegistered
  accept_new_client-IsRegistered failed answers peer created s all = tt
  accept_new_client-IsRegistered disconnected answers peer created s all = tt
  accept_new_client-IsRegistered (service_info info) answers peer created s all =
      elim (Option-cases (handshake info answers)) [
        | inl e ↦ rw (IsRegistered, e) tt
        | inr (info', e) ↦
            rw (IsRegistered, e)
              (register-IsRegistered created info' peer s (handshake-service info info' answers e)
                all)
      ]

  -- The table that `main` makes is well formed, whatever the memory holds.
  pub initial-AreWellFormed :
      (memory : ℕ → ℕ → VmData F) (rates : ℕ → R) (zeroed : VirtualMachine)
      → AreWellFormed (initial memory rates zeroed)
  initial-AreWellFormed memory rates zeroed service lt = record {
    fits = omega arith;
    room = omega arith;
    filed = λ i below. absurd (omega arith);
  }
