-- ===== src/Balancer/Clients/Lookup.antt =====
-- `check_already_connected`, branch by branch.
use Prim.Native.String.{String}
use a2pm.Common.{
  ℕ, zero, suc, ◌+◌, ◌<◌, ◌≡◌, refl, sym, ◌∙◌, inl, inr, arith, true, false, Option, none, some,
  ltb, ◌==◌, ==_iff, Bool-cases,
}
use a2pm.Common.Family.{update}
use a2pm.Balancer.Vms.{VmData, Group}
use a2pm.Balancer.Vms.Members.{IsListed, IsValid}
use a2pm.Balancer.Clients.{
  free_entry, search_loop, search_ip, connected_loop, assign, check_already_connected,
}
use a2pm.Balancer.Clients.Entries.{has_client, search_loop_lem, Entered, enter-free, enter-full}

-- What the loop finds.
pub data Found (g : Group) (ip : String) : Option (Option (String × ℕ)) → Type 0 where
  unknown :
      {r : Option (Option (String × ℕ))}
      → r ≡ some none
      → ((j : ℕ) → j < g.current_vms → has_client (g.vm_data_set j) ip ≡ false)
      → Found g ip r
  known :
      {r : Option (Option (String × ℕ))} (i : ℕ) (a : String × ℕ)
      → i < g.current_vms
      → has_client (g.vm_data_set i) ip ≡ true
      → ((j : ℕ) → j < i → has_client (g.vm_data_set j) ip ≡ false)
      → (g.vm_data_set i).address ≡ some a
      → r ≡ some (some a)
      → Found g ip r

search_ip_lem :
    (vm : VmData) (ip : String)
    → IsListed vm
    → (place : ℕ) × (search_ip vm ip ≡ some place) × (ltb 0 place ≡ has_client vm ip)
unfolding search_ip has_client
search_ip_lem vm ip (_, (cs, at, _)) =
    (search_loop cs 0 ip, rw at, rw at ((search_loop_lem cs 0 ip).0))

connected_loop-Found :
    (rounds index : ℕ) (ip : String) (g : Group)
    → IsValid g
    → index + rounds ≡ g.current_vms
    → ((j : ℕ) → j < index → has_client (g.vm_data_set j) ip ≡ false)
    → Found g ip (connected_loop rounds index ip g)
unfolding connected_loop
connected_loop-Found zero index ip g v e before = unknown refl (λ j lt. before j (omega arith))
connected_loop-Found (suc rounds) index ip g v e before =
    let w = v.listed index (omega arith) in
    let (place, searched, agree) = search_ip_lem (g.vm_data_set index) ip w in
    let ((a, at), _) = w in
    elim (Bool-cases (ltb 0 place)) [
      | inl hit ↦
          known index a (omega arith) (sym agree ∙ hit) before at
            (rw (searched, connected_loop) (rw hit (rw at refl)))
      | inr miss ↦
          rw (searched, connected_loop)
            (rw miss (
              connected_loop-Found rounds (index + 1) ip g v (omega arith) (λ j lt.
                elim (Bool-cases (j == index)) [
                  | inl here ↦
                      let same : j ≡ index = (==_iff j index).0 here in rw same (sym agree ∙ miss)
                  | inr earlier ↦ before j (ground arith)
                ])))
    ]

abbrev pub IsNew : Group → String → Type 0
IsNew g ip = (j : ℕ) → j < g.current_vms → has_client (g.vm_data_set j) ip ≡ false

-- The group after the VM whose turn it is has become `vm`.
abbrev pub assigned : Group → VmData → Group
assigned g vm = record g {
  vm_data_set = update g.vm_data_set g.actual_index vm;
  actual_index = g.actual_index + 1;
}

-- What `check_already_connected` does: a client that a VM has goes to the first such VM, and nothing
-- changes; a new one goes to the VM whose turn it is and takes the first free entry of its list, and the
-- turn passes on; if that list is full, the program writes outside it.
pub data Routed (g : Group) (ip : String) : Option ((String × ℕ) × Group) → Type 0 where
  again :
      {r : Option ((String × ℕ) × Group)} (i : ℕ) (a : String × ℕ)
      → i < g.current_vms
      → has_client (g.vm_data_set i) ip ≡ true
      → ((j : ℕ) → j < i → has_client (g.vm_data_set j) ip ≡ false)
      → (g.vm_data_set i).address ≡ some a
      → r ≡ some (a, g)
      → Routed g ip r
  fresh :
      {r : Option ((String × ℕ) × Group)} (a : String × ℕ) (vm : VmData)
      → IsNew g ip
      → (g.vm_data_set g.actual_index).address ≡ some a
      → IsListed vm
      → Entered (g.vm_data_set g.actual_index) vm ip
      → r ≡ some (a, assigned g vm)
      → Routed g ip r
  full :
      {r : Option ((String × ℕ) × Group)}
      → IsNew g ip
      → has_client (g.vm_data_set g.actual_index) free_entry ≡ false
      → r ≡ none
      → Routed g ip r

assign-Routed :
    (ip : String) (g : Group)
    → IsValid g
    → g.actual_index < g.current_vms
    → IsNew g ip
    → Routed g ip (assign ip g)
unfolding assign
assign-Routed ip g v turn new =
    let w = v.listed g.actual_index turn in
    let ((a, at), _) = w in
    let inside : ltb g.actual_index g.allocated_vms ≡ true = ground (arith, v.fits) in
    elim (Bool-cases (has_client (g.vm_data_set g.actual_index) free_entry)) [
      | inl free ↦
          let (vm, entered, listed, in_place) =
            enter-free (g.vm_data_set g.actual_index) ip w free in
          fresh a vm new at listed in_place (rw (inside, assign) (rw (at, entered) refl))
      | inr none_free ↦ full new none_free (
          rw (inside, assign)
            (rw (at, enter-full (g.vm_data_set g.actual_index) ip w none_free) refl))
    ]

-- In a valid table whose turn is on a connected VM, `check_already_connected` sends a client that a VM
-- has to the first such VM and changes nothing; a new client goes to the VM whose turn it is and takes
-- the first free entry of its list, all others kept, and the turn passes on; if that list has no free
-- entry, and only then, it is a fault.
pub check_already_connected-Routed :
    (ip : String) (g : Group)
    → IsValid g
    → g.actual_index < g.current_vms
    → Routed g ip (check_already_connected ip g)
unfolding check_already_connected
check_already_connected-Routed ip g v turn =
    go (connected_loop g.current_vms 0 ip g)
      (connected_loop-Found g.current_vms 0 ip g v (omega arith) (λ j lt. absurd (omega arith)))
      refl
  where
    go :
        (r : Option (Option (String × ℕ)))
        → Found g ip r
        → connected_loop g.current_vms 0 ip g ≡ r
        → Routed g ip (check_already_connected ip g)
    go r (unknown e new) same =
        rw (same ∙ e, check_already_connected) (assign-Routed ip g v turn new)
    go r (known i a lt has first at e) same =
        again i a lt has first at (rw (same ∙ e, check_already_connected) refl)
