-- ===== src/Balancer/Vms/Messages.antt =====
-- What each message of the controller does to the table of a service.
use Prim.Native.String.{String}
use native.Mathlib.Numerals.{add-one}
use a2pm.Common.{
  ℕ, ◌+◌, ◌<◌, ◌≡◌, refl, sym, ◌∙◌, inl, inr, arith, true, false, ◌&&◌, Option, some, List, ltb,
  lt→ltb, ◌==◌, if◌then◌else◌, Bool-cases, length, replicate,
}
use a2pm.Common.Family.{update, count-suc, count-agree_above}
use a2pm.Balancer.Vms.{
  VmData, Group, Operation, add, delete, rej, unsupported, address_eq, max_connected_clients,
  check_vm_data_set_size, create_empty_list, prepare, add_vm, delete_vm, operate, group_message,
}
use a2pm.Balancer.Vms.Members.{
  at_address, occurrences, IsValid, without, Deleted, absent, removed, occurrences-without,
  without-IsValid, delete_vm-Deleted, at_address-same,
}

-- The table `g'` has the VMs of `g` and room for one more.
record Grown (g g' : Group) : Type 0 where
  valid : IsValid g'
  room : g'.current_vms < g'.allocated_vms
  same : (a : String × ℕ) → occurrences g' a ≡ occurrences g a
  index : g'.actual_index ≡ g.actual_index
  current : g'.current_vms ≡ g.current_vms

check-Grown : (g : Group) → IsValid g → Grown g (check_vm_data_set_size g)
unfolding check_vm_data_set_size
check-Grown g v = elim (Bool-cases (g.current_vms == g.allocated_vms)) [
  | inl full ↦ rw full (record {
    valid = record {
      fits = ground (arith, v.fits);
      room = ground (arith, v.room);
      listed = v.listed;
    };
    room = ground (arith, v.room);
    same = λ a. refl;
    index = refl;
    current = refl;
  })
  | inr space ↦ rw space (record {
    valid = v;
    room = ground (arith, v.fits);
    same = λ a. refl;
    index = refl;
    current = refl;
  })
]

-- A table whose slot behind the connected VMs is written anew.
abbrev rewritten : Group → VmData → Group
rewritten g slot = record g { vm_data_set = update g.vm_data_set g.current_vms slot }

rewritten-Grown :
    (g : Group) (slot : VmData)
    → IsValid g
    → g.current_vms < g.allocated_vms
    → Grown g (rewritten g slot)
rewritten-Grown g slot v h = record {
  valid = record {
    fits = v.fits;
    room = v.room;
    listed =
        λ i lt. let other : (g.current_vms == i) ≡ false = ground arith in rw other (v.listed i lt);
  };
  room = h;
  same = λ a.
      count-agree_above g.current_vms g.current_vms (λ i. at_address a (g.vm_data_set i))
        (λ i. at_address a ((rewritten g slot).vm_data_set i)) (λ j ne. ground arith) (omega arith);
  index = refl;
  current = refl;
}

abbrev HasClients : VmData → Type 0
HasClients vm =
    (cs : List String) × (vm.connected_clients ≡ some cs) × (length cs ≡ max_connected_clients)

create_empty_list-HasClients : (vm : VmData) → HasClients (create_empty_list vm)
unfolding create_empty_list
create_empty_list-HasClients vm = (replicate max_connected_clients "0.0.0.0", refl, refl)

prepare-Grown :
    (g : Group)
    → IsValid g
    → (g' : Group) × (prepare g ≡ some g') × Grown g g' × HasClients (g'.vm_data_set g'.current_vms)
unfolding prepare
prepare-Grown g v =
    let g1 = check_vm_data_set_size g in
    let c = check-Grown g v in
    let slot = create_empty_list (g1.vm_data_set g1.current_vms) in
    let r = rewritten-Grown g1 slot c.valid c.room in
    (
      rewritten g1 slot,
      rw (lt→ltb g1.current_vms g1.allocated_vms c.room),
      record {
        valid = r.valid;
        room = c.room;
        same = λ a. r.same a ∙ c.same a;
        index = c.index;
        current = c.current;
      },
      let here : (g1.current_vms == g1.current_vms) ≡ true = ground arith in
          rw here (create_empty_list-HasClients (g1.vm_data_set g1.current_vms)),
    )

-- What a message for the address `vm` adds to, and takes from, the number of VMs with the address
-- `a`; `known` says how often `vm` is connected.
abbrev pub gained : Operation → (vm a : String × ℕ) → ℕ
gained add vm a = if address_eq vm a then 1 else 0
gained _ vm a = 0

abbrev pub lost : Operation → (known : ℕ) (vm a : String × ℕ) → ℕ
lost delete known vm a = if ltb 0 known && address_eq vm a then 1 else 0
lost rej known vm a = if ltb 0 known && address_eq vm a then 1 else 0
lost _ known vm a = 0

pub record Handled (op : Operation) (vm : String × ℕ) (g g' : Group) : Type 0 where
  pub valid : IsValid g'
  pub members :
      (a : String × ℕ)
      → occurrences g' a + lost op (occurrences g vm) vm a ≡ occurrences g a + gained op vm a
  pub index : g'.actual_index ≡ g.actual_index

add_vm-Handled :
    (vm : String × ℕ) (g : Group)
    → IsValid g
    → g.current_vms < g.allocated_vms
    → HasClients (g.vm_data_set g.current_vms)
    → Handled add vm g (add_vm vm g)
unfolding add_vm at_address
add_vm-Handled vm g v room (cs, here, five) = record {
  valid = record {
    fits = omega arith;
    room = v.room;
    listed = λ i lt. elim (Bool-cases (g.current_vms == i)) [
      | inl new ↦ rw new ((vm, refl), (cs, here, five))
      | inr old ↦ rw old (v.listed i (ground arith))
    ];
  };
  members = λ a.
      let old = λ (i : ℕ). at_address a (g.vm_data_set i) in
      let new = λ (i : ℕ). at_address a ((add_vm vm g).vm_data_set i) in
      let below =
        count-agree_above g.current_vms g.current_vms old new (λ j ne. ground arith)
          (omega arith) in
      let last = count-suc g.current_vms new in
      let here : new g.current_vms ≡ address_eq vm a = ground arith in
      rw add-one (ground (arith, below, last, here));
  index = refl;
}

delete_vm-Handled :
    (vm : String × ℕ) (g : Group) (r : Option Group)
    → IsValid g
    → Deleted g vm r
    → (g' : Group) × (r ≡ some g') × Handled delete vm g g'
delete_vm-Handled vm g r v (absent e gone) =
    (g, e, record { valid = v; members = λ a. rw gone (omega arith); index = refl })
delete_vm-Handled vm g r v (removed i lt at e) = (
  without g i,
  e,
  record {
    valid = without-IsValid g i v lt;
    members = λ a.
        let known : ltb 0 (occurrences g vm) ≡ true =
          ground (arith, occurrences-without g i vm lt) in
        rw known
          (ground (arith, occurrences-without g i a lt, at_address-same vm a (g.vm_data_set i) at));
    index = refl;
  },
)

operate-Handled :
    (vm : String × ℕ) (op : Operation) (g : Group)
    → IsValid g
    → g.current_vms < g.allocated_vms
    → HasClients (g.vm_data_set g.current_vms)
    → (g' : Group) × (operate vm op g ≡ some g') × Handled op vm g g'
unfolding operate
operate-Handled vm add g v room c = (add_vm vm g, refl, add_vm-Handled vm g v room c)
operate-Handled vm delete g v room c =
    delete_vm-Handled vm g (delete_vm vm g) v (delete_vm-Deleted vm g v)
operate-Handled vm rej g v room c =
    let (g', e, h) = delete_vm-Handled vm g (delete_vm vm g) v (delete_vm-Deleted vm g v) in
    (g', e, record { valid = h.valid; members = h.members; index = h.index })
operate-Handled vm unsupported g v room c =
    (g, refl, record { valid = v; members = λ a. refl; index = refl })

-- Every message is handled without a fault and keeps the table valid (the VMs fit into the memory,
-- and each has an address and a list of clients). ADD connects the address once more; DELETE and REJ
-- take away one VM with the address if there is one, and otherwise none; no other address is gained
-- or lost.
pub group_message-Handled :
    (vm : String × ℕ) (op : Operation) (g : Group)
    → IsValid g
    → (g' : Group) × (group_message vm op g ≡ some g') × Handled op vm g g'
unfolding group_message
group_message-Handled vm op g v =
    let (ready, prepared, grown, clients) = prepare-Grown g v in
    let (g', e, h) = operate-Handled vm op ready grown.valid grown.room clients in
    (
      g',
      rw (prepared, group_message) e,
      record {
        valid = h.valid;
        members = λ a. rw (sym (grown.same a), sym (grown.same vm)) (h.members a);
        index = h.index ∙ grown.index;
      },
    )
