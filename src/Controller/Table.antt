-- ===== src/Controller/Table.antt =====
-- The VM table of controller/server.c under `manage_disconnected_vms` and `switch_active_machine`.
use text.Mathlib.Text.{◌==◌ as str_eq}
use text.Mathlib.TextEquality.{eq_iff}
use Prim.Native.String.{String}
use a2pm.Common.{
  ℕ, zero, suc, ◌+◌, ◌-◌, ◌≤◌, ◌<◌, ◌≡◌, ◌≢◌, inl, inr, refl, sym, arith, Bool, true, false, ◌==◌,
  ==_iff, Bool-cases,
}
use a2pm.Common.Family.{update_self, update_other}
use a2pm.Balancer.Vms.{number_groups}
use a2pm.Controller.{
  rejuvenating, VmData, Group, Server, update_group, disconnect_loop, manage_disconnected_vms,
  is_stand_by, is_active, with_state, activate_loop, switch_active_machine,
}

module _ {F : Type 0} where
  -- The VMs in use are within the block, which is not empty, and each is one of the group's service.
  pub record IsWellFormed (service : ℕ) (g : Group F) : Type 0 where
    pub fits : g.current_vms ≤ g.allocated_vms
    pub room : 1 ≤ g.allocated_vms
    pub filed : (i : ℕ) → i < g.current_vms → (g.vm_data_set i).service_info.service ≡ service

  disconnect_loop-IsWellFormed :
      (rounds index : ℕ) (ip : String) (service : ℕ) (g : Group F)
      → index + rounds ≡ g.current_vms
      → IsWellFormed service g
      → IsWellFormed service (disconnect_loop rounds index ip g)
  unfolding disconnect_loop
  disconnect_loop-IsWellFormed zero index ip service g e w = w
  disconnect_loop-IsWellFormed (suc rounds) index ip service g e w =
      elim (Bool-cases (str_eq (g.vm_data_set index).ip_address ip)) [
        | inl hit ↦ rw hit (record {
          fits = omega (arith, w.fits);
          room = w.room;
          filed = λ i lt. elim (Bool-cases (index == i)) [
            | inl here ↦ rw here (w.filed (g.current_vms - 1) (omega arith))
            | inr other ↦ rw other (w.filed i (omega arith))
          ];
        })
        | inr miss ↦
            rw miss (disconnect_loop-IsWellFormed rounds (index + 1) ip service g (omega arith) w)
      ]

  activate_loop-IsWellFormed :
      (rounds index : ℕ) (service : ℕ) (g : Group F)
      → index + rounds ≡ g.current_vms
      → IsWellFormed service g
      → IsWellFormed service (activate_loop rounds index g)
  unfolding activate_loop
  activate_loop-IsWellFormed zero index service g e w = w
  activate_loop-IsWellFormed (suc rounds) index service g e w =
      elim (Bool-cases (is_stand_by (g.vm_data_set index).service_info.state)) [
        | inl hit ↦ rw hit (record {
          fits = w.fits;
          room = w.room;
          filed = λ i lt. elim (Bool-cases (index == i)) [
            | inl here ↦ rw here (w.filed index (omega arith))
            | inr other ↦ rw other (w.filed i lt)
          ];
        })
        | inr miss ↦
            rw miss (activate_loop-IsWellFormed rounds (index + 1) service g (omega arith) w)
      ]

  -- What `manage_disconnected_vms` does to the group: nothing if no VM has the address; otherwise the
  -- last VM takes the place of the first that has it, and there is one VM less.
  pub data Removed (ip : String) (g : Group F) : Group F → Type 0 where
    absent :
        {g' : Group F}
        → ((i : ℕ) → i < g.current_vms → str_eq (g.vm_data_set i).ip_address ip ≡ false)
        → g' ≡ g
        → Removed ip g g'
    found :
        {g' : Group F} (i : ℕ)
        → i < g.current_vms
        → (g.vm_data_set i).ip_address ≡ ip
        → ((j : ℕ) → j < i → str_eq (g.vm_data_set j).ip_address ip ≡ false)
        → g'.current_vms + 1 ≡ g.current_vms
        → g'.vm_data_set i ≡ g.vm_data_set (g.current_vms - 1)
        → ((j : ℕ) → j ≢ i → g'.vm_data_set j ≡ g.vm_data_set j)
        → Removed ip g g'

  disconnect_loop-Removed :
      (rounds index : ℕ) (ip : String) (g : Group F)
      → index + rounds ≡ g.current_vms
      → ((j : ℕ) → j < index → str_eq (g.vm_data_set j).ip_address ip ≡ false)
      → Removed ip g (disconnect_loop rounds index ip g)
  unfolding disconnect_loop
  disconnect_loop-Removed zero index ip g e before = absent (λ i lt. before i (omega arith)) refl
  disconnect_loop-Removed (suc rounds) index ip g e before =
      elim (Bool-cases (str_eq (g.vm_data_set index).ip_address ip)) [
        | inl hit ↦ rw hit (
            found index (omega arith) ((eq_iff _ _).0 hit) before (omega arith)
              (update_self g.vm_data_set index _)
              (λ j ne. update_other g.vm_data_set index j _ (λ same. ne (sym same))))
        | inr miss ↦ rw miss (
            disconnect_loop-Removed rounds (index + 1) ip g (omega arith) (λ j lt.
              elim (Bool-cases (j == index)) [
                | inl here ↦ let same : j ≡ index = (==_iff j index).0 here in rw same miss
                | inr earlier ↦ before j (ground arith)
              ]))
      ]

  activate_loop-active :
      (rounds index : ℕ) (g : Group F) (i : ℕ)
      → is_active (g.vm_data_set i).service_info.state ≡ true
      → is_active ((activate_loop rounds index g).vm_data_set i).service_info.state ≡ true
  unfolding activate_loop
  activate_loop-active zero index g i on = on
  activate_loop-active (suc rounds) index g i on =
      elim (Bool-cases (is_stand_by (g.vm_data_set index).service_info.state)) [
        | inl hit ↦
            rw hit
              (elim (Bool-cases (index == i)) [ inl here ↦ rw here refl | inr other ↦ rw other on ])
        | inr miss ↦ rw miss (activate_loop-active rounds (index + 1) g i on)
      ]

module _ {F R : Type 0} where
  abbrev pub AreWellFormed : Server F R → Type 0
  AreWellFormed s =
      (service : ℕ) → service < number_groups → IsWellFormed service (s.groups service)

  pub update_group-AreWellFormed :
      (service : ℕ) (g : Group F) (s : Server F R)
      → AreWellFormed s
      → (service < number_groups → IsWellFormed service g)
      → AreWellFormed (update_group service g s)
  update_group-AreWellFormed service g s all new k lt = elim (Bool-cases (service == k)) [
    | inl here ↦ let same : service ≡ k = (==_iff service k).0 here in rw here ((rw same at new) lt)
    | inr other ↦ rw other (all k lt)
  ]

  -- `manage_disconnected_vms` on the group of the VM, and on the others: the loop finds by address
  -- alone, and only the first one it finds leaves the table.
  pub manage_disconnected_vms-Removed :
      (vm : VmData F) (s : Server F R)
      → Removed vm.ip_address
          (s.groups vm.service_info.service)
          ((manage_disconnected_vms vm s).groups vm.service_info.service)
        × ((service : ℕ)
            → service ≢ vm.service_info.service
            → (manage_disconnected_vms vm s).groups service ≡ s.groups service)
  unfolding manage_disconnected_vms
  manage_disconnected_vms-Removed vm s =
      let service = vm.service_info.service in
      let g = s.groups service in
      let after = disconnect_loop g.current_vms 0 vm.ip_address g in
      let removed =
        disconnect_loop-Removed g.current_vms 0 vm.ip_address g (omega arith)
          (λ j lt. absurd (omega arith)) in
      (
        rw (update_self s.groups service after) removed,
        λ other ne. update_other s.groups service other after (λ same. ne (sym same)),
      )

  pub manage_disconnected_vms-AreWellFormed :
      (vm : VmData F) (s : Server F R)
      → AreWellFormed s
      → AreWellFormed (manage_disconnected_vms vm s)
  unfolding manage_disconnected_vms
  manage_disconnected_vms-AreWellFormed vm s all =
      let service = vm.service_info.service in
      update_group-AreWellFormed service _ s all (λ lt.
        disconnect_loop-IsWellFormed (s.groups service).current_vms 0 vm.ip_address service
          (s.groups service) (omega arith) (all service lt))

  activate-AreWellFormed :
      (service : ℕ) (s : Server F R)
      → AreWellFormed s
      → AreWellFormed (
          update_group service
            (activate_loop (s.groups service).current_vms 0 (s.groups service))
            s)
  activate-AreWellFormed service s all = update_group-AreWellFormed service _ s all (λ lt.
      activate_loop-IsWellFormed (s.groups service).current_vms 0 service (s.groups service)
        (omega arith) (all service lt))

  pub switch_active_machine-AreWellFormed :
      (sent : Bool) (vm : VmData F) (s : Server F R)
      → AreWellFormed s
      → AreWellFormed (switch_active_machine sent vm s)
  unfolding switch_active_machine
  switch_active_machine-AreWellFormed true vm s all =
      activate-AreWellFormed vm.service_info.service s all
  switch_active_machine-AreWellFormed false vm s all =
      manage_disconnected_vms-AreWellFormed
        (record (with_state rejuvenating vm) { last_system_features_stored = false })
        (update_group vm.service_info.service
          (activate_loop (s.groups vm.service_info.service).current_vms 0
            (s.groups vm.service_info.service))
          s)
        (activate-AreWellFormed vm.service_info.service s all)

  -- When the REJUVENATE command is sent, `switch_active_machine` leaves every active VM of the table
  -- active, the one that is to rejuvenate included.
  pub switch_active_machine-active :
      (vm : VmData F) (s : Server F R) (service i : ℕ)
      → is_active ((s.groups service).vm_data_set i).service_info.state ≡ true
      → is_active
          (((switch_active_machine true vm s).groups service).vm_data_set i).service_info.state
        ≡ true
  unfolding switch_active_machine
  switch_active_machine-active vm s service i on =
      elim (Bool-cases (vm.service_info.service == service)) [
        | inl here ↦
            let same : vm.service_info.service ≡ service = (==_iff _ _).0 here in
            let g = s.groups vm.service_info.service in
            let on' : is_active (g.vm_data_set i).service_info.state ≡ true = rw same on in
            rw here (activate_loop-active g.current_vms 0 g i on')
        | inr other ↦ rw other on
      ]
