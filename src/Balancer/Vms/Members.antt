-- ===== src/Balancer/Vms/Members.antt =====
-- The table as a bag of addresses: how often each is connected.
use text.Mathlib.TextEquality.{eq_iff}
use Prim.Native.String.{String}
use a2pm.Common.{
  ℕ, zero, suc, ◌+◌, ◌-◌, ◌≤◌, ◌<◌, ◌≡◌, refl, ap, ◌∙◌, inl, inr, arith, Bool, true, false, Option,
  none, some, List, ◌==◌, ==_iff, if◌then◌else◌, Bool-cases, Option-cases, length,
}
use a2pm.Common.Family.{update, count, count-move_last, count-none_below}
use a2pm.Balancer.Vms.{VmData, Group, address_eq, max_connected_clients, delete_loop, delete_vm}

unfoldable pub at_address : (String × ℕ) → VmData → Bool
at_address a vm = elim vm.address [ none ↦ false | some b ↦ address_eq b a ]

-- How many connected VMs have the address.
abbrev pub occurrences : Group → (String × ℕ) → ℕ
occurrences g a = count g.current_vms (λ i. at_address a (g.vm_data_set i))

abbrev pub IsListed : VmData → Type 0
IsListed vm =
    ((a : String × ℕ) × (vm.address ≡ some a))
    × ((cs : List String) × (vm.connected_clients ≡ some cs) × (length cs ≡ max_connected_clients))

-- The connected VMs fit, and each has an address and a list of five clients.
pub record IsValid (g : Group) : Type 0 where
  pub fits : g.current_vms ≤ g.allocated_vms
  pub room : 1 ≤ g.allocated_vms
  pub listed : (i : ℕ) → i < g.current_vms → IsListed (g.vm_data_set i)

pub address_eq_lem : (a b : String × ℕ) → address_eq a b ≡ true → a ≡ b
address_eq_lem (ip, port) (ip', port') h = ground (arith, eq_iff ip ip')

-- What deleting the VM in the slot `i` leaves.
abbrev pub without : Group → ℕ → Group
without g i = record g {
  vm_data_set = update g.vm_data_set i (g.vm_data_set (g.current_vms - 1));
  current_vms = g.current_vms - 1;
}

pub occurrences-without :
    (g : Group) (i : ℕ) (a : String × ℕ)
    → i < g.current_vms
    → occurrences (without g i) a + (if at_address a (g.vm_data_set i) then 1 else 0)
      ≡ occurrences g a
occurrences-without g i a h =
    let last : suc (g.current_vms - 1) ≡ g.current_vms = omega arith in
    let at = λ (vm : VmData). at_address a vm in
    count-move_last (g.current_vms - 1) i (λ j. at (g.vm_data_set j))
      (λ j. at ((without g i).vm_data_set j)) (λ j ne. ground arith) (λ lt. ground arith)
      (omega arith)
    ∙ ap (λ n. count n (λ j. at (g.vm_data_set j))) last

pub without-IsValid : (g : Group) (i : ℕ) → IsValid g → i < g.current_vms → IsValid (without g i)
without-IsValid g i v h = record {
  fits = ground (arith, v.fits);
  room = v.room;
  listed = λ j lt. elim (Bool-cases (i == j)) [
    | inl here ↦ rw here (v.listed (g.current_vms - 1) (omega arith))
    | inr other ↦ rw other (v.listed j (omega arith))
  ];
}

-- What the loop of `delete_vm` does from `index` on, when no VM before `index` has the address.
pub data Deleted (g : Group) (vm : String × ℕ) : Option Group → Type 0 where
  absent : {r : Option Group} → r ≡ some g → occurrences g vm ≡ 0 → Deleted g vm r
  removed :
      {r : Option Group} (i : ℕ)
      → i < g.current_vms
      → at_address vm (g.vm_data_set i) ≡ true
      → r ≡ some (without g i)
      → Deleted g vm r

delete_loop-Deleted :
    (rounds index : ℕ) (vm : String × ℕ) (g : Group)
    → IsValid g
    → index + rounds ≡ g.current_vms
    → ((j : ℕ) → j < index → at_address vm (g.vm_data_set j) ≡ false)
    → Deleted g vm (delete_loop rounds index vm g)
unfolding delete_loop at_address
delete_loop-Deleted zero index vm g v e before =
    absent refl (count-none_below g.current_vms _ (λ j lt. before j (omega arith)))
delete_loop-Deleted (suc rounds) index vm g v e before =
    let ((a, at), _) = v.listed index (omega arith) in
    rw (at, delete_loop)
      (elim (Bool-cases (address_eq a vm)) [
        | inl same ↦ rw same (removed index (omega arith) (rw (at, at_address) same) refl)
        | inr other ↦ rw other (
            delete_loop-Deleted rounds (index + 1) vm g v (omega arith) (λ j lt.
              elim (Bool-cases (j == index)) [
                | inl here ↦
                    let e : j ≡ index = (==_iff j index).0 here in rw (e, at, at_address) other
                | inr earlier ↦ before j (ground arith)
              ]))
      ])

pub delete_vm-Deleted : (vm : String × ℕ) (g : Group) → IsValid g → Deleted g vm (delete_vm vm g)
unfolding delete_vm
delete_vm-Deleted vm g v =
    delete_loop-Deleted g.current_vms 0 vm g v (omega arith) (λ j lt. absurd (omega arith))

pub at_address-same :
    (vm a : String × ℕ) (x : VmData) → at_address vm x ≡ true → at_address a x ≡ address_eq vm a
unfolding at_address
at_address-same vm a x h = elim (Option-cases x.address) [
  | inl unset ↦ absurd (ground arith)
  | inr (b, set) ↦
      let hit : address_eq b vm ≡ true = ground arith in
      let same : b ≡ vm = address_eq_lem b vm hit in
      rw (set, at_address) (ap (λ c. address_eq c a) same)
]
