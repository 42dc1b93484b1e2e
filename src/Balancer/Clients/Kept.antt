-- ===== src/Balancer/Clients/Kept.antt =====
-- `get_current_socket` and the VM table: no VM is connected or lost by it, wherever the turn is.
use Prim.Native.String.{String}
use a2pm.Common.{
  ℕ, ◌+◌, ◌-◌, ◌≡◌, refl, sym, ap, ◌∙◌, inl, inr, arith, Bool, none, some, List, ltb, ◌==◌, ==_iff,
  set, length-set, Bool-cases, Option-cases,
}
use a2pm.Common.Family.{update, count}
use a2pm.Balancer.Vms.{VmData, Group}
use a2pm.Balancer.Vms.Members.{at_address, occurrences, IsListed, IsValid}
use a2pm.Balancer.Clients.{
  free_entry, search_loop, enter, assign, connected_loop, check_already_connected, wrap_index,
  get_current_socket,
}

-- The table has the same VMs, and is valid if it was.
pub record Keeps (g g' : Group) : Type 0 where
  pub valid : IsValid g → IsValid g'
  pub members : (a : String × ℕ) → occurrences g' a ≡ occurrences g a

Keeps-refl : (g : Group) → Keeps g g
Keeps-refl g = record { valid = λ v. v; members = λ a. refl }

Keeps-trans : (g h k : Group) → Keeps g h → Keeps h k → Keeps g k
Keeps-trans g h k one two = record {
  valid = λ v. two.valid (one.valid v);
  members = λ a. two.members a ∙ one.members a;
}

wrap_index-Keeps : (g : Group) → Keeps g (wrap_index g)
wrap_index-Keeps g = elim (Bool-cases (g.actual_index == g.current_vms)) [
  | inr within ↦ rw within (Keeps-refl g)
  | inl last ↦ rw last (record {
    valid = λ v. record { fits = v.fits; room = v.room; listed = v.listed };
    members = λ a. refl;
  })
]

same_answer : {x y : (String × ℕ) × Group} → some x ≡ some y → x ≡ y
same_answer e = cc

-- The VM that a client is entered in.
enter-kept :
    (vm vm' : VmData) (ip : String)
    → enter vm ip ≡ some vm'
    → (vm'.address ≡ vm.address) × (IsListed vm → IsListed vm')
unfolding enter
enter-kept vm vm' ip e = elim (Option-cases vm.connected_clients) [
  | inl f ↦ let wrong : none ≡ some vm' = rw (f, enter) at e in absurd (ground (arith, wrong))
  | inr (cs, f) ↦
      let place = search_loop cs 0 free_entry in
      elim (Bool-cases (ltb 0 place)) [
        | inr full ↦
            let wrong : none ≡ some vm' = rw (f, enter, full) at e in absurd (ground (arith, wrong))
        | inl free ↦
            let new : VmData = record vm { connected_clients = some (set cs (place - 1) ip) } in
            let made : some new ≡ some vm' = rw (f, enter, free) at e in
            let same : new ≡ vm' = cc in
            (
              sym (ap (λ v. v.address) same),
              λ listed. rw (sym same) (entered vm cs (place - 1) ip f listed),
            )
      ]
]
  where
    entered :
        (vm : VmData) (cs : List String) (i : ℕ) (ip : String)
        → vm.connected_clients ≡ some cs
        → IsListed vm
        → IsListed (record vm { connected_clients = some (set cs i ip) })
    entered vm cs i ip f (address, (ds, at, five)) =
        let found : some ds ≡ some cs = sym at ∙ f in
        let same : ds ≡ cs = cc in
        (address, (set cs i ip, refl, length-set cs i ip ∙ (rw same at five)))

-- A slot that changes but for its list of clients.
update-Keeps :
    (g : Group) (index turn : ℕ) (vm : VmData)
    → vm.address ≡ (g.vm_data_set index).address
    → (IsListed (g.vm_data_set index) → IsListed vm)
    → Keeps g (record g { vm_data_set = update g.vm_data_set index vm; actual_index = turn })
unfolding at_address
update-Keeps g index turn vm address listed = record {
  valid = λ v. record {
    fits = v.fits;
    room = v.room;
    listed = λ i lt. elim (Bool-cases (index == i)) [
      | inr other ↦ rw other (v.listed i lt)
      | inl here ↦
          let at : index ≡ i = (==_iff index i).0 here in
          rw here (listed (rw (sym at) at (v.listed i lt)))
    ];
  };
  members = λ a. ap (λ p. count g.current_vms p) (λ i k. each a k i);
}
  where
    same_address :
        (a : String × ℕ) (v w : VmData) → v.address ≡ w.address → at_address a v ≡ at_address a w
    same_address a v w e = rw (at_address, e) refl

    each :
        (a : String × ℕ) (k : ℕ)
        → at_address a (update g.vm_data_set index vm k) ≡ at_address a (g.vm_data_set k)
    each a k = elim (Bool-cases (index == k)) [
      | inr other ↦ rw other refl
      | inl here ↦
          let at : index ≡ k = (==_iff index k).0 here in
          rw here (
            same_address a vm (g.vm_data_set index) address
            ∙ ap (λ j. at_address a (g.vm_data_set j)) at)
    ]

assign-Keeps :
    (ip : String) (g g' : Group) (a : String × ℕ) → assign ip g ≡ some (a, g') → Keeps g g'
unfolding assign
assign-Keeps ip g g' a e = elim (Bool-cases (ltb g.actual_index g.allocated_vms)) [
  | inr out ↦
      let wrong : none ≡ some (a, g') = rw (out, assign) at e in absurd (ground (arith, wrong))
  | inl room ↦ elim (Option-cases (g.vm_data_set g.actual_index).address) [
    | inl f ↦
        let wrong : none ≡ some (a, g') = rw (room, f, assign) at e in
        absurd (ground (arith, wrong))
    | inr (b, f) ↦ elim (Option-cases (enter (g.vm_data_set g.actual_index) ip)) [
      | inl h ↦
          let wrong : none ≡ some (a, g') = rw (room, f, h, assign) at e in
          absurd (ground (arith, wrong))
      | inr (vm, h) ↦
          let (address, listed) = enter-kept (g.vm_data_set g.actual_index) vm ip h in
          let next : Group = record g {
            vm_data_set = update g.vm_data_set g.actual_index vm;
            actual_index = g.actual_index + 1;
          } in
          let made : some (b, next) ≡ some (a, g') = rw (room, f, h, assign) at e in
          let same : next ≡ g' = ap (λ x. x.1) (same_answer made) in
          rw (sym same) (update-Keeps g g.actual_index (g.actual_index + 1) vm address listed)
    ]
  ]
]

check_already_connected-Keeps :
    (ip : String) (g g' : Group) (a : String × ℕ)
    → check_already_connected ip g ≡ some (a, g')
    → Keeps g g'
unfolding check_already_connected
check_already_connected-Keeps ip g g' a e =
    elim (Option-cases (connected_loop g.current_vms 0 ip g)) [
      | inl f ↦
          let wrong : none ≡ some (a, g') = rw (f, check_already_connected) at e in
          absurd (ground (arith, wrong))
      | inr (none, f) ↦ assign-Keeps ip g g' a (rw (f, check_already_connected) at e)
      | inr (some b, f) ↦
          let made : some (b, g) ≡ some (a, g') = rw (f, check_already_connected) at e in
          let same : g ≡ g' = ap (λ x. x.1) (same_answer made) in rw (sym same) (Keeps-refl g)
    ]

-- An answered client changes neither which VMs are connected nor whether the table is valid.
pub get_current_socket-Keeps :
    (connects : String × ℕ → Bool) (ip : String) (g g' : Group) (a : String × ℕ)
    → get_current_socket connects ip g ≡ some (a, g')
    → Keeps g g'
unfolding get_current_socket
get_current_socket-Keeps connects ip g g' a e =
    elim (Option-cases (check_already_connected ip (wrap_index g))) [
      | inl f ↦
          let wrong : none ≡ some (a, g') = rw (f, get_current_socket) at e in
          absurd (ground (arith, wrong))
      | inr ((b, h), f) ↦ elim (Bool-cases (connects b)) [
        | inr down ↦
            let wrong : none ≡ some (a, g') = rw (f, down, get_current_socket) at e in
            absurd (ground (arith, wrong))
        | inl up ↦
            let made : some (b, h) ≡ some (a, g') = rw (f, up, get_current_socket) at e in
            let same : h ≡ g' = ap (λ x. x.1) (same_answer made) in
            rw (sym same) (
              Keeps-trans g (wrap_index g) h (wrap_index-Keeps g)
                (check_already_connected-Keeps ip (wrap_index g) h b f))
      ]
    ]
